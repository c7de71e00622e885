-- ===== src/Stream/Recovery.antt =====
-- What the record store holds of a stream survives its handle: appends, failures and restarts.
pub mod Load
pub mod Restart
pub mod Run
pub mod Reissue
mod Tests
use concrete.Prelude.{
  ℕ, ◌+◌, ◌*◌, ◌<◌, ◌≤◌, ◌≡◌, ◌≢◌, refl, sym, ap, ◌∙◌, ◌⊎◌, inl, inr, Option, none, some, ltb,
  arith, if◌then◌else◌, Bool-cases, true, false,
}
use concrete.Prelude.Order.{bytes_eq, bytes_eq_refl, bytes_eq-of_ne, bytes_eq_iff}
use concrete.Bytes.{Bytes, Buffers, IsU64, IsU128}
use concrete.Storage.Laws.{Contents, write_all}
use concrete.Sequence
use concrete.Sequence.{SeqBlock, SequenceAllocator, u64_mod}
use concrete.Sequence.Allocate.{IsValid, advanced, entered, IsValid-advanced, next-advanced}
use concrete.Record
use concrete.Stream.{Stream, next_seq_num}
use concrete.Stream.Keys.{stream_record_key-injective, record_key-ne-block_key}
use concrete.Stream.Append.{
  IsReady, appended, next_record, new_block, block_key, record_key, batch_of, block_written,
  batch-contents,
}

-- Two blocks behind the next append fit a `u64`.
abbrev pub HasRoom : Stream → Type 0
HasRoom s = next_seq_num s + 1 + 3 * s.sequence_number_allocator.current_block.block_size < u64_mod

module _ ⦃b : Buffers⦄ where
  -- The store has the allocator's block, and no record from the next number on.
  pub record IsDurable (m : Contents) (s : Stream) : Type 0 where
    pub ready : IsReady s
    pub block :
        m (block_key s) ≡ some (Sequence.serialise s.sequence_number_allocator.current_block)
    pub below : (n : ℕ) → IsU64 n → m (record_key s n) ≢ none → n < next_seq_num s

  pub IsReady-appended : (s : Stream) → IsReady s → HasRoom s → IsReady (appended s)
  IsReady-appended s h room = record {
    basin = h.basin;
    stream = h.stream;
    allocator =
        IsValid-advanced 1 s.sequence_number_allocator h.allocator h.allocator.size (omega arith);
  }

  block_written-advanced :
      (a : SequenceAllocator)
      → block_written (entered 1 a) (some (Sequence.serialise a.current_block))
        ≡ some (Sequence.serialise (advanced 1 a).current_block)
  block_written-advanced a =
      elim (Bool-cases
        (ltb (a.next_sequence_number + 1) (a.current_block.start + a.current_block.block_size))) [
          | inl e ↦ rw e
          | inr e ↦ rw e
        ]

  -- At the block's key and at the record keys of a stream, a batch reads as follows.
  pub batch-block :
      (s : Stream) (payload : Bytes) (m : Contents)
      → write_all (batch_of s payload) m (block_key s)
        ≡ block_written (new_block s) (m (block_key s))
  batch-block s payload m =
      batch-contents s payload m (block_key s)
      ∙ rw
          (bytes_eq-of_ne (record_key s (next_seq_num s)) (block_key s)
            (record_key-ne-block_key _ _ _ _ _))
          (rw (bytes_eq_refl (block_key s)))

  pub batch-record :
      (s : Stream) (payload : Bytes) (m : Contents) (k : Bytes)
      → k ≢ block_key s
      → write_all (batch_of s payload) m k ≡ (
          if bytes_eq (record_key s (next_seq_num s)) k
          then some (Record.serialise (next_record s payload))
          else m k)
  batch-record s payload m k other =
      batch-contents s payload m k ∙ rw (bytes_eq-of_ne (block_key s) k (λ e. other (sym e)))

  -- Writing the batch keeps the store durable for the stream that has moved on.
  pub batch-IsDurable :
      (s : Stream) (payload : Bytes) (m m' : Contents)
      → IsDurable m s
      → HasRoom s
      → ((k : Bytes) → m' k ≡ write_all (batch_of s payload) m k)
      → IsDurable m' (appended s)
  batch-IsDurable s payload m m' d room w = record {
    ready = IsReady-appended s d.ready room;
    block =
        w (block_key s)
        ∙ batch-block s payload m
        ∙ ap (block_written (new_block s)) d.block
        ∙ block_written-advanced s.sequence_number_allocator;
    below = λ n h stored. below n h (λ e. stored (
        w (record_key s n)
        ∙ batch-record s payload m (record_key s n) (record_key-ne-block_key _ _ _ _ _)
        ∙ e));
  }
    where
      below :
          (n : ℕ)
          → IsU64 n
          → (if bytes_eq (record_key s (next_seq_num s)) (record_key s n)
              then some (Record.serialise (next_record s payload))
              else m (record_key s n))
            ≢ none
          → n < next_seq_num (appended s)
      below n h stored =
          rw (next-advanced 1 s.sequence_number_allocator)
            (elim (Bool-cases (bytes_eq (record_key s (next_seq_num s)) (record_key s n))) [
              | inl e ↦
                  let same =
                    (stream_record_key-injective _ _ _ _ _ _ d.ready.basin d.ready.basin
                      d.ready.stream d.ready.stream (omega (arith, d.ready.allocator.room)) h
                      ((bytes_eq_iff _ _).0 e)).2 in
                  omega arith
              | inr e ↦ let old = d.below n h (rw e at stored) in omega arith
            ])

  -- So does a failed write, if it needed no new block.
  pub unwritten-IsDurable :
      (s : Stream) (m m' : Contents)
      → IsDurable m s
      → HasRoom s
      → new_block s ≡ none
      → ((k : Bytes) → m' k ≡ m k)
      → IsDurable m' (appended s)
  unwritten-IsDurable s m m' d room same w = record {
    ready = IsReady-appended s d.ready room;
    block = w (block_key s) ∙ d.block ∙ block_kept s.sequence_number_allocator same;
    below = λ n h stored.
        rw (next-advanced 1 s.sequence_number_allocator)
          (omega (arith, d.below n h (λ e. stored (w (record_key s n) ∙ e))));
  }
    where
      block_kept :
          (a : SequenceAllocator)
          → entered 1 a ≡ none
          → Option.some (Sequence.serialise a.current_block)
            ≡ some (Sequence.serialise (advanced 1 a).current_block)
      block_kept a e = rw e at (block_written-advanced a)
