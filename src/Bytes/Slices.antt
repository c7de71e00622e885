-- ===== src/Bytes/Slices.antt =====
-- Slices of bytes that are in bounds, and the integers read from them.
use concrete.Prelude.{
  ℕ, zero, suc, ◌-◌, ◌≤◌, ◌≡◌, refl, [], ◌∷◌, true, ◌==◌, length, take, drop, arith, le→ltb,
}
use concrete.Prelude.Result.{ok, ◌>>=◌}
use concrete.Bytes.{Bytes, from_be_bytes, slice, int_from}

length-take : (n : ℕ) (bs : Bytes) → n ≤ length bs → length (take n bs) ≡ n
length-take zero bs h = refl
length-take (suc n) [] h = omega arith
length-take (suc n) (x ∷ bs) h = omega (arith, length-take n bs (omega arith))

length-drop : (n : ℕ) (bs : Bytes) → length (drop n bs) ≡ length bs - n
length-drop zero bs = omega arith
length-drop (suc n) [] = omega arith
length-drop (suc n) (x ∷ bs) = omega (arith, length-drop n bs)

int_from-ok :
    {E : Type 0} (n : ℕ) (bs : Bytes)
    → length bs ≡ n
    → int_from {E = E} n bs ≡ ok (from_be_bytes bs)
int_from-ok n bs h = let same : (length bs == n) ≡ true = ground arith in rw same refl

-- The integer at the bytes from `i` to `j`.
pub int_at :
    {E : Type 0} (bs : Bytes) (i j : ℕ)
    → i ≤ j
    → j ≤ length bs
    → (slice {E = E} bs i j >>= int_from (j - i)) ≡ ok (from_be_bytes (take (j - i) (drop i bs)))
int_at bs i j le h = rw (le→ltb (length bs) j h) (
    int_from-ok (j - i) (take (j - i) (drop i bs))
      (length-take (j - i) (drop i bs) (omega (arith, length-drop i bs))))

-- The integer in the first part of a split.
pub first_int :
    {E : Type 0} (bs : Bytes) (n : ℕ)
    → n ≤ length bs
    → int_from {E = E} n (take n bs) ≡ ok (from_be_bytes (take n bs))
first_int bs n h = int_from-ok n (take n bs) (length-take n bs h)
