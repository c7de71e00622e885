-- ===== src/Prelude/Assoc.antt =====
-- `HashMap` with names as keys: the list of its entries.
use mathlib.Core.Path.{◌≡◌, refl}
use mathlib.Core.Logic.{◌≢◌}
use mathlib.Core.Option.{Option, none, some}
use mathlib.Core.List.{List, [], ◌∷◌}
use Prim.Native.Nat.{ℕ}
use concrete.Prelude.Tests.{if◌then◌else◌}
use concrete.Prelude.Order.{bytes_eq, bytes_eq_refl, bytes_eq-of_ne}

module _ {ℓ} {A : Type ℓ} where
  abbrev pub find : List ℕ → List (List ℕ × A) → Option A
  find k [] = none
  find k ((j, a) ∷ entries) = let rest = find k entries in if bytes_eq j k then some a else rest

  -- An entry in front hides those behind it.
  abbrev pub put : List ℕ → A → List (List ℕ × A) → List (List ℕ × A)
  put k a entries = (k, a) ∷ entries

  pub find-put :
      (k : List ℕ) (a : A) (entries : List (List ℕ × A)) → find k (put k a entries) ≡ some a
  find-put k a entries = rw (bytes_eq_refl k) refl

  pub find-put_other :
      (j k : List ℕ) (a : A) (entries : List (List ℕ × A))
      → j ≢ k
      → find k (put j a entries) ≡ find k entries
  find-put_other j k a entries h = rw (bytes_eq-of_ne j k h) refl
