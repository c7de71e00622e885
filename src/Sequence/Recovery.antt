-- ===== src/Sequence/Recovery.antt =====
-- An allocator made from the last block that was stored never returns a number twice.
use concrete.Prelude.{◌≡◌, ℕ, ◌+◌, ◌*◌, ◌<◌, ◌≤◌, Option, none, some, arith}
use concrete.Sequence.{SeqBlock, SequenceAllocator, u64_mod, allocate, new}
use concrete.Sequence.Allocate.{IsValid, allocate-advanced}

-- The block that the store holds after an allocation, if the allocator's own was there before and
-- a block that `allocate` returns is written.
abbrev pub stored_after : Option SeqBlock → SeqBlock → SeqBlock
stored_after none old = old
stored_after (some block) old = block

-- After an allocation whose new block, if any, was stored, an allocator made from the stored block
-- starts behind the whole range that was allocated.
pub new-after_allocate :
    (count : ℕ) (a : SequenceAllocator) {first : ℕ} {block : Option SeqBlock}
    {a' : SequenceAllocator}
    → IsValid a
    → count ≤ a.current_block.block_size
    → a.next_sequence_number + 3 * a.current_block.block_size < u64_mod
    → allocate count a ≡ some ((first, block), a')
    → (first ≡ a.next_sequence_number)
      × (a'.current_block ≡ stored_after block a.current_block)
      × (first + count ≤ (new (stored_after block a.current_block)).next_sequence_number)
unfolding new
new-after_allocate count a v h room e = ground (arith, allocate-advanced count a v h)
