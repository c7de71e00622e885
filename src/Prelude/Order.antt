-- ===== src/Prelude/Order.antt =====
-- The lexicographic order of byte strings: `Ord` for `[u8]`, `Bytes` and `str`.
use Prim.Native.Nat.{ℕ, compare, Ordering}
use mathlib.Core.Path.{◌≡◌, refl}
use mathlib.Core.Logic.{◌↔◌, ◌≢◌, ◌⊎◌, inl, inr}
use mathlib.Core.Bool.{Bool, true, false}
use mathlib.Core.List.{List, [], ◌∷◌, ◌++◌}
use native.Mathlib.Omega.{arith}

abbrev pub cmp : List ℕ → List ℕ → Ordering
cmp [] [] = Ordering.eq
cmp [] (b ∷ k) = Ordering.lt
cmp (a ∷ j) [] = Ordering.gt
cmp (a ∷ j) (b ∷ k) = elim (compare a b) [
  | Ordering.lt ↦ Ordering.lt
  | Ordering.eq ↦ cmp j k
  | Ordering.gt ↦ Ordering.gt
]

abbrev pub bytes_lt : List ℕ → List ℕ → Bool
bytes_lt j k = elim (cmp j k) [ Ordering.lt ↦ true | _ ↦ false ]

abbrev pub bytes_le : List ℕ → List ℕ → Bool
bytes_le j k = elim (cmp j k) [ Ordering.gt ↦ false | _ ↦ true ]

abbrev pub bytes_eq : List ℕ → List ℕ → Bool
bytes_eq j k = elim (cmp j k) [ Ordering.eq ↦ true | _ ↦ false ]

pub cmp_refl : (k : List ℕ) → cmp k k ≡ Ordering.eq
cmp_refl [] = refl
cmp_refl (b ∷ k) = ground (arith, cmp_refl k)

pub cmp-eq : (j k : List ℕ) → cmp j k ≡ Ordering.eq → j ≡ k
cmp-eq [] [] h = refl
cmp-eq [] (b ∷ k) h = cc
cmp-eq (a ∷ j) [] h = cc
cmp-eq (a ∷ j) (b ∷ k) h = ground (arith, cmp-eq j k)

pub cmp-gt : (j k : List ℕ) → cmp j k ≡ Ordering.gt → cmp k j ≡ Ordering.lt
cmp-gt [] [] h = cc
cmp-gt [] (b ∷ k) h = cc
cmp-gt (a ∷ j) [] h = refl
cmp-gt (a ∷ j) (b ∷ k) h = ground (arith, cmp-gt j k)

pub cmp-lt : (j k : List ℕ) → cmp j k ≡ Ordering.lt → cmp k j ≡ Ordering.gt
cmp-lt [] [] h = cc
cmp-lt [] (b ∷ k) h = refl
cmp-lt (a ∷ j) [] h = cc
cmp-lt (a ∷ j) (b ∷ k) h = ground (arith, cmp-lt j k)

pub cmp_trans :
    (i j k : List ℕ) → cmp i j ≡ Ordering.lt → cmp j k ≡ Ordering.lt → cmp i k ≡ Ordering.lt
cmp_trans [] [] k h g = cc
cmp_trans [] (b ∷ j) [] h g = cc
cmp_trans [] (b ∷ j) (c ∷ k) h g = refl
cmp_trans (a ∷ i) [] k h g = cc
cmp_trans (a ∷ i) (b ∷ j) [] h g = cc
cmp_trans (a ∷ i) (b ∷ j) (c ∷ k) h g = ground (arith, cmp_trans i j k)

pub bytes_eq_refl : (k : List ℕ) → bytes_eq k k ≡ true
bytes_eq_refl k = ground (arith, cmp_refl k)

pub bytes_eq_iff : (j k : List ℕ) → (bytes_eq j k ≡ true) ↔ (j ≡ k)
bytes_eq_iff j k = (λ h. cmp-eq j k (ground arith), λ h. ground (arith, cmp_refl k))

-- Nothing lies below the empty string.
pub cmp-nil : (k : List ℕ) → cmp k [] ≢ Ordering.lt
cmp-nil [] h = cc
cmp-nil (b ∷ k) h = cc

pub Ordering-cases : (o : Ordering) → (o ≡ Ordering.lt) ⊎ ((o ≡ Ordering.eq) ⊎ (o ≡ Ordering.gt))
Ordering-cases Ordering.lt = inl refl
Ordering-cases Ordering.eq = inr (inl refl)
Ordering-cases Ordering.gt = inr (inr refl)

pub bytes_eq-of_ne : (j k : List ℕ) → j ≢ k → bytes_eq j k ≡ false
bytes_eq-of_ne j k h = elim (Ordering-cases (cmp j k)) [
  | inl e ↦ rw (e, bytes_eq)
  | inr (inl e) ↦ absurd (h (cmp-eq j k e))
  | inr (inr e) ↦ rw (e, bytes_eq)
]

-- A common front does not matter.
pub cmp-append : (p j k : List ℕ) → cmp (p ++ j) (p ++ k) ≡ cmp j k
cmp-append [] j k = refl
cmp-append (b ∷ p) j k = ground (arith, cmp-append p j k)
