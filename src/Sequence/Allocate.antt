-- ===== src/Sequence/Allocate.antt =====
-- What the allocator hands out.
use concrete.Prelude.{
  ◌≡◌, ℕ, ◌+◌, ◌*◌, ◌<◌, ◌≤◌, Option, none, some, arith, ◌↔◌, refl, ◌∙◌, List, [], ◌∷◌, All, ltb,
  if◌then◌else◌,
}
use mathlib.Core.Option
use concrete.Sequence.{SeqBlock, SequenceAllocator, u64_mod, allocate}

-- The next number lies in the current block or at its end, and two blocks behind it fit a `u64`.
pub record IsValid (a : SequenceAllocator) : Type 0 where
  pub size : 0 < a.current_block.block_size
  pub from : a.current_block.start ≤ a.next_sequence_number
  pub within : a.next_sequence_number ≤ a.current_block.start + a.current_block.block_size
  pub room : a.next_sequence_number + 2 * a.current_block.block_size < u64_mod

-- What an allocator would be without blocks: a counter, whose block reaches past it.
abbrev pub end_of : SequenceAllocator → ℕ
end_of a = a.current_block.start + a.current_block.block_size

abbrev pub advanced : ℕ → SequenceAllocator → SequenceAllocator
advanced count a =
    if ltb (a.next_sequence_number + count) (end_of a)
    then record a { next_sequence_number = a.next_sequence_number + count }
    else record {
      next_sequence_number = a.next_sequence_number + count;
      current_block = record { start = end_of a; block_size = a.current_block.block_size };
    }

abbrev pub entered : ℕ → SequenceAllocator → Option SeqBlock
entered count a =
    if ltb (a.next_sequence_number + count) (end_of a)
    then none
    else some (record { start = end_of a; block_size = a.current_block.block_size })

-- On a valid allocator, an allocation of at most a block is that of a plain counter: it returns the
-- next number and moves it on by the count; a block is entered exactly if the count reaches its
-- end, and starts where the last one ended.
pub allocate-advanced :
    (count : ℕ) (a : SequenceAllocator)
    → IsValid a
    → count ≤ a.current_block.block_size
    → allocate count a ≡ some ((a.next_sequence_number, entered count a), advanced count a)
unfolding allocate
allocate-advanced count a v h = ground arith

pub IsValid-advanced :
    (count : ℕ) (a : SequenceAllocator)
    → IsValid a
    → count ≤ a.current_block.block_size
    → a.next_sequence_number + count + 2 * a.current_block.block_size < u64_mod
    → IsValid (advanced count a)
IsValid-advanced count a v h room = ground arith

-- The assertion of `allocate` panics exactly on a count above the size of the block.
allocate-none_iff :
    (count : ℕ) (a : SequenceAllocator)
    → (allocate count a ≡ none) ↔ (a.current_block.block_size < count)
unfolding allocate
allocate-none_iff count a = (λ h. ground arith, λ h. ground arith)

-- A run of allocations: the first numbers that it returns, and the allocator at its end.
pub allocate_all : List ℕ → SequenceAllocator → Option (List ℕ × SequenceAllocator)
allocate_all [] a = some ([], a)
allocate_all (count ∷ counts) a = elim (allocate count a) [
  | none ↦ none
  | some ((first, _), a') ↦ Option.map (λ p. (first ∷ p.0, p.1)) (allocate_all counts a')
]

pub prefix_sums : ℕ → List ℕ → List ℕ
prefix_sums from [] = []
prefix_sums from (count ∷ counts) = from ∷ prefix_sums (from + count) counts

abbrev total : List ℕ → ℕ
total [] = 0
total (count ∷ counts) = count + total counts

pub advanced_all : List ℕ → SequenceAllocator → SequenceAllocator
advanced_all [] a = a
advanced_all (count ∷ counts) a = advanced_all counts (advanced count a)

pub next-advanced :
    (count : ℕ) (a : SequenceAllocator)
    → (advanced count a).next_sequence_number ≡ a.next_sequence_number + count
next-advanced count a = ground arith

pub size-advanced :
    (count : ℕ) (a : SequenceAllocator)
    → (advanced count a).current_block.block_size ≡ a.current_block.block_size
size-advanced count a = ground arith

-- A run of allocations of at most a block each returns consecutive ranges, whatever blocks it
-- enters: each starts where the one before ends, and the allocator stands behind the last.
pub allocate_all-contiguous :
    (counts : List ℕ) (a : SequenceAllocator)
    → IsValid a
    → All (λ count. count ≤ a.current_block.block_size) counts
    → a.next_sequence_number + total counts + 2 * a.current_block.block_size < u64_mod
    → (allocate_all counts a
        ≡ some (prefix_sums a.next_sequence_number counts, advanced_all counts a))
      × ((advanced_all counts a).next_sequence_number ≡ a.next_sequence_number + total counts)
unfolding allocate_all prefix_sums advanced_all
allocate_all-contiguous [] a v h room = (refl, omega arith)
allocate_all-contiguous (count ∷ counts) a v h room =
    let a' : SequenceAllocator = advanced count a in
    let rest : (allocate_all counts a'
          ≡ some (prefix_sums a'.next_sequence_number counts, advanced_all counts a'))
        × ((advanced_all counts a').next_sequence_number ≡ a'.next_sequence_number + total counts) =
      allocate_all-contiguous counts a' (IsValid-advanced count a v h.0 (omega arith))
        (rw (size-advanced count a) h.1)
        (rw (size-advanced count a) (rw (next-advanced count a) (omega arith))) in
    (
      rw (allocate-advanced count a v h.0, allocate_all)
          (rw rest.0 (rw (next-advanced count a) refl)),
      rest.1 ∙ rw (next-advanced count a) (omega arith),
    )
