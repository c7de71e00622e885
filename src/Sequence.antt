-- ===== src/Sequence.antt =====
-- storage/sequence.rs: blocks of sequence numbers, and the allocator that hands them out. The
-- arithmetic is that of `u64` in a release build, which wraps.
pub mod Codec
pub mod Allocate
pub mod Recovery
mod Tests
mod UnitTests
use concrete.Prelude.{
  else_eq, refl, ltb→le, arith, ◌≡◌, ℕ, ◌+◌, ◌-◌, ◌%◌, ◌^◌, Bool, true, false, Option, none, some,
  ◌++◌, ltb, leb, if◌then◌else◌, length, take, drop, not,
}
use concrete.Prelude.Result.{◌>>=◌, Result, ok, err}
use concrete.Bytes.{slice, int_from, Bytes, Buffers, from_be_bytes}
use concrete.Bytes.Slices.{int_at}
use concrete.Text.{Str, text, decimal}
use concrete.Storage.Error.{StorageError, DeserializeError, storage_message, deserialize_message}

abbrev pub u64_mod : ℕ
u64_mod = 2 ^ 64

-- `a + b` and `a - b`
abbrev pub add_u64 : ℕ → ℕ → ℕ
add_u64 a b = (a + b) % u64_mod

abbrev pub sub_u64 : ℕ → ℕ → ℕ
sub_u64 a b = (a + u64_mod - b) % u64_mod

abbrev pub default_block_size : ℕ
default_block_size = 4096

pub record SeqBlock : Type 0 where
  pub start : ℕ
  pub block_size : ℕ

-- The range that a block defines is [start, start + block_size).
abbrev pub next_base : SeqBlock → ℕ
next_base b = add_u64 b.start b.block_size

abbrev pub block_capacity : ℕ
block_capacity = 16

unfoldable pub serialise : ⦃b : Buffers⦄ → SeqBlock → Bytes
serialise ⦃b⦄ block =
    b.freeze (b.put_u64 (b.put_u64 (b.with_capacity 16) block.start) block.block_size)

abbrev pub too_short : Bytes → DeserializeError
too_short bytes = record {
  message =
      text "buffer too short for SeqBlock, needs to be 16 bytes, got " ++ decimal (length bytes);
}

unfoldable pub deserialize : Bytes → Result DeserializeError SeqBlock
deserialize bytes =
    if ltb (length bytes) block_capacity
    then err (too_short bytes)
    else slice bytes 0 8 >>= int_from 8 >>= λ start.
        slice bytes 8 16 >>= int_from 8 >>= λ size. ok (record { start = start; block_size = size })

-- Behind the guard the bytes of the two numbers are in bounds.
pub deserialize-eq :
    (bytes : Bytes)
    → deserialize bytes ≡ (
        if ltb (length bytes) block_capacity
        then err (too_short bytes)
        else ok (record {
          start = from_be_bytes (take 8 bytes);
          block_size = from_be_bytes (take 8 (drop 8 bytes));
        }))
unfolding deserialize
deserialize-eq bytes = else_eq (ltb (length bytes) block_capacity) _ _ _ (λ long.
    let enough = ltb→le (length bytes) block_capacity long in
    (rw (int_at bytes 0 8 (omega arith) (omega (arith, enough)))
      (rw (int_at bytes 8 16 (omega arith) (omega (arith, enough))) refl)))

pub record SequenceAllocator : Type 0 where
  pub next_sequence_number : ℕ
  pub current_block : SeqBlock

pub data SequenceError : Type 0 where
  storage : StorageError → SequenceError
  deserialize_failed : DeserializeError → SequenceError

-- `Display`
unfoldable pub sequence_message : SequenceError → Str
sequence_message (deserialize_failed e) =
    text "SequenceError::Deserialize failed: " ++ deserialize_message e
sequence_message (storage e) = text "SequenceError::Storage failed: " ++ storage_message e

-- `SequenceAllocator::new`: a block that was stored counts as used up.
unfoldable pub new : SeqBlock → SequenceAllocator
new block = record { next_sequence_number = next_base block; current_block = block }

unfoldable pub default : SequenceAllocator
default = record {
  next_sequence_number = 0;
  current_block = record { start = 0; block_size = default_block_size };
}

-- What `allocate` returns: the first number, and the new block if it was entered.
abbrev pub Allocation : Type 0
Allocation = ℕ × Option SeqBlock

-- `none` where the assertion on `count` panics.
unfoldable pub allocate : ℕ → SequenceAllocator → Option (Allocation × SequenceAllocator)
allocate count a =
    if not (leb count a.current_block.block_size)
    then none
    else let remaining = sub_u64 (next_base a.current_block) a.next_sequence_number in
      if ltb count remaining
      then some (
        (a.next_sequence_number, none),
        record a { next_sequence_number = add_u64 a.next_sequence_number count },
      )
      else let new_block : SeqBlock = record {
        start = add_u64 a.current_block.start a.current_block.block_size;
        block_size = a.current_block.block_size;
      } in
        some (
          (a.next_sequence_number, some new_block),
          record {
            next_sequence_number = add_u64 (next_base a.current_block) (sub_u64 count remaining);
            current_block = new_block;
          },
        )

abbrev pub allocation : SequenceAllocator → SeqBlock
allocation a = a.current_block
