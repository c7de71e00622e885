-- ===== src/Sequence/UnitTests.antt =====
-- The unit tests of storage/sequence.rs, run on the model.
use concrete.Prelude.{ℕ, zero, suc, ◌≡◌, refl, Bool, true, false, ◌&&◌, Option, some, [], ◌∷◌, ◌==◌}
use concrete.Prelude.Result.{ok, err, panic}
use concrete.Bytes.{Bytes, to_be_bytes, from_be_bytes}
use concrete.Bytes.ListBuffers.{list_buffers}
use concrete.Sequence.{
  SeqBlock, SequenceAllocator, serialise, deserialize, allocate, next_base, new,
}

-- `PartialEq for SeqBlock`
abbrev block_eq : SeqBlock → SeqBlock → Bool
block_eq a b = (a.start == b.start) && (a.block_size == b.block_size)

abbrev seq_block_serialize_roundtrip : Bool
seq_block_serialize_roundtrip =
    let block : SeqBlock = record { start = 42; block_size = 1024 } in
    elim (deserialize (serialise block)) [
      | ok decoded ↦ block_eq block decoded
      | err e ↦ false
      | panic ↦ false
    ]

abbrev zeros : ℕ → Bytes
zeros zero = []
zeros (suc n) = 0 ∷ zeros n

abbrev seq_block_deserialize_too_short : Bool
seq_block_deserialize_too_short = elim (deserialize (zeros 15)) [
  | ok decoded ↦ false
  | err e ↦ true
  | panic ↦ false
]

abbrev seq_block_next_base : Bool
seq_block_next_base = next_base (record { start = 100; block_size = 50 }) == 150

abbrev is_allocated : Option ((ℕ × Option SeqBlock) × SequenceAllocator) → Bool
is_allocated (some ((seq_num, some block), allocator)) =
    (seq_num == 2)
    && (block_eq block (record { start = 2; block_size = 2 })
        && (allocator.next_sequence_number == 3))
is_allocated _ = false

abbrev allocate_at_block_boundary_advances_to_next_block : Bool
allocate_at_block_boundary_advances_to_next_block =
    is_allocated (allocate 1 (new (record { start = 0; block_size = 2 })))

roundtrip_passes : seq_block_serialize_roundtrip ≡ true
unfolding deserialize serialise to_be_bytes from_be_bytes
roundtrip_passes = refl

too_short_passes : seq_block_deserialize_too_short ≡ true
unfolding deserialize
too_short_passes = refl

next_base_passes : seq_block_next_base ≡ true
next_base_passes = refl

boundary_passes : allocate_at_block_boundary_advances_to_next_block ≡ true
unfolding allocate new
boundary_passes = refl
