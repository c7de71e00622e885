-- ===== src/Sequence/Tests.antt =====
-- The allocator and the codec of its blocks at concrete inputs.
use concrete.Prelude.{◌++◌, ℕ, ◌≤◌, ◌≡◌, refl, some, [], ◌∷◌, arith}
use concrete.Bytes.ListBuffers.{list_buffers}
use concrete.Sequence.Codec.{deserialize-serialise}
use concrete.Prelude.Result.{ok}
use concrete.Sequence.{serialise, deserialize, SeqBlock, SequenceAllocator, allocate, new}
use concrete.Sequence.Allocate.{
  allocate-advanced, allocate_all, prefix_sums, advanced_all, allocate_all-contiguous,
}
use concrete.Sequence.Recovery.{new-after_allocate}

abbrev block : SeqBlock
block = record { start = 0; block_size = 2 }

abbrev used_up : SequenceAllocator
used_up = record { next_sequence_number = 2; current_block = block }

-- `allocate_at_block_boundary_advances_to_next_block` of the source
allocate_at_boundary :
    allocate 1 used_up
    ≡ some (
      (2, some (record { start = 2; block_size = 2 })),
      record { next_sequence_number = 3; current_block = record { start = 2; block_size = 2 } },
    )
unfolding allocate
allocate_at_boundary = refl

allocate-advanced_example :
    allocate 1 used_up
    ≡ some (
      (2, some (record { start = 2; block_size = 2 })),
      record { next_sequence_number = 3; current_block = record { start = 2; block_size = 2 } },
    )
allocate-advanced_example = allocate-advanced 1 used_up (omega arith) (omega arith)

allocate_all-contiguous_example :
    (allocate_all (1 ∷ 2 ∷ 1 ∷ []) used_up
      ≡ some (prefix_sums 2 (1 ∷ 2 ∷ 1 ∷ []), advanced_all (1 ∷ 2 ∷ 1 ∷ []) used_up))
    × ((advanced_all (1 ∷ 2 ∷ 1 ∷ []) used_up).next_sequence_number ≡ 6)
allocate_all-contiguous_example =
    allocate_all-contiguous (1 ∷ 2 ∷ 1 ∷ []) used_up (omega arith) (omega arith) (omega arith)

new-after_allocate_example :
    (◌≡◌ {A = ℕ} 2 2)
    × (◌≡◌ {A = SeqBlock}
        (record { start = 2; block_size = 2 })
        (record { start = 2; block_size = 2 }))
    × (3 ≤ (new (record { start = 2; block_size = 2 })).next_sequence_number)
new-after_allocate_example =
    new-after_allocate 1 used_up (omega arith) (omega arith) (omega arith) allocate_at_boundary

deserialize-serialise_example : deserialize (serialise block ++ 9 ∷ []) ≡ ok block
deserialize-serialise_example = deserialize-serialise block (9 ∷ []) (omega arith) (omega arith)
