-- ===== src/Prelude/Sort.antt =====
-- `sort_by` with the order of a text of each element: a stable sort.
use mathlib.Core.Path.{◌≡◌, refl, ap, ◌∙◌}
use mathlib.Core.Bool.{true}
use mathlib.Core.List.{List, [], ◌∷◌}
use native.Mathlib.Omega.{arith}
use Prim.Native.Nat.{ℕ, Ordering}
use concrete.Prelude.Order.{cmp, bytes_lt}
use concrete.Prelude.Lists.{All}

module _ {A : Type 0} (name : A → List ℕ) where
  -- Before the first element that is not smaller.
  insert_sorted : A → List A → List A
  insert_sorted x [] = x ∷ []
  insert_sorted x (y ∷ ys) = elim (cmp (name x) (name y)) [
    | Ordering.gt ↦ y ∷ insert_sorted x ys
    | _ ↦ x ∷ y ∷ ys
  ]

  unfoldable pub sort_by : List A → List A
  unfolding insert_sorted
  sort_by [] = []
  sort_by (x ∷ xs) = insert_sorted x (sort_by xs)

  -- Strictly ascending names.
  abbrev pub IsAscendingBy : List A → Type 0
  IsAscendingBy [] = Unit
  IsAscendingBy (x ∷ xs) = All (λ y. bytes_lt (name x) (name y) ≡ true) xs × IsAscendingBy xs

  insert_sorted_first :
      (x : A) (xs : List A)
      → All (λ y. bytes_lt (name x) (name y) ≡ true) xs
      → insert_sorted x xs ≡ x ∷ xs
  unfolding insert_sorted
  insert_sorted_first x [] h = refl
  insert_sorted_first x (y ∷ ys) h = ground (arith, h.0)

  -- Sorting leaves what is in order as it is.
  pub sort_by_ascending : (xs : List A) → IsAscendingBy xs → sort_by xs ≡ xs
  unfolding sort_by
  sort_by_ascending [] h = refl
  sort_by_ascending (x ∷ xs) h =
      ap (insert_sorted x) (sort_by_ascending xs h.1) ∙ insert_sorted_first x xs h.0
