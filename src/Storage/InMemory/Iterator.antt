-- ===== src/Storage/InMemory/Iterator.antt =====
-- The iterator yields each record from its position on, and ends without an error.
use concrete.Prelude.{
  ℕ, zero, suc, ◌+◌, ◌≡◌, none, some, List, [], ◌∷◌, length, get_elem?, drop, arith, ◌≤◌,
}
use concrete.Prelude.Result.{ok}
use native.Mathlib.Numerals.{add-one}
use concrete.Storage.Interface.{StorageRecord}
use concrete.Storage.Laws.{Yields, finished, yielded}
use concrete.Storage.InMemory.{InMemoryIterator, in_memory, next}

abbrev at : List StorageRecord → ℕ → InMemoryIterator
at rs n = record { records = rs; position = n }

drop-suc : {A : Type 0} (n : ℕ) (xs ys : List A) (x : A) → drop n xs ≡ x ∷ ys → drop (suc n) xs ≡ ys
drop-suc zero [] ys x h = cc
drop-suc zero (y ∷ xs) ys x h = cc
drop-suc (suc n) [] ys x h = cc
drop-suc (suc n) (y ∷ xs) ys x h = drop-suc n xs ys x h

drop-cons :
    {A : Type 0} (n : ℕ) (xs ys : List A) (x : A)
    → drop n xs ≡ x ∷ ys
    → (get_elem? xs n ≡ some x) × (suc n ≤ length xs)
drop-cons zero [] ys x h = cc
drop-cons zero (y ∷ xs) ys x h = (ground arith, omega arith)
drop-cons (suc n) [] ys x h = cc
drop-cons (suc n) (y ∷ xs) ys x h = ground (arith, drop-cons n xs ys x)

drop-nil : {A : Type 0} (n : ℕ) (xs : List A) → drop n xs ≡ [] → length xs ≤ n
drop-nil zero [] h = omega arith
drop-nil zero (y ∷ xs) h = cc
drop-nil (suc n) [] h = omega arith
drop-nil (suc n) (y ∷ xs) h = omega (arith, drop-nil n xs h)

next-finished :
    (rs : List StorageRecord) (n : ℕ) → length rs ≤ n → next (at rs n) ≡ (ok none, at rs n)
unfolding next
next-finished rs n h = ground arith

next-yielded :
    (rs : List StorageRecord) (n : ℕ) (r : StorageRecord)
    → get_elem? rs n ≡ some r
    → suc n ≤ length rs
    → next (at rs n) ≡ (ok (some r), at rs (n + 1))
unfolding next
next-yielded rs n r e h = ground arith

pub yields_from :
    (rs : List StorageRecord) (n : ℕ) (rest : List StorageRecord)
    → drop n rs ≡ rest
    → Yields in_memory (at rs n) rest none
yields_from rs n [] h = finished (next-finished rs n (drop-nil n rs h))
yields_from rs n (r ∷ rest) h =
    yielded (next-yielded rs n r (drop-cons n rs rest r h).0 (drop-cons n rs rest r h).1)
      (yields_from rs (n + 1) rest (rw add-one (drop-suc n rs rest r h)))
