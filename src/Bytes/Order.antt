-- ===== src/Bytes/Order.antt =====
-- Big-endian integers of one width are ordered as byte strings the way they are as numbers.
use Prim.Native.Nat.{compare, Ordering}
use concrete.Prelude.{ℕ, zero, suc, ◌/◌, ◌^◌, ◌<◌, ◌≡◌, refl, ◌∙◌, [], ◌∷◌, ◌++◌, length, arith}
use concrete.Prelude.Order.{cmp}
use concrete.Bytes.{Bytes, to_be_bytes}
use concrete.Bytes.BigEndian.{length-to_be_bytes}

pub cmp-common : (p x y : Bytes) → cmp (p ++ x) (p ++ y) ≡ cmp x y
cmp-common [] x y = refl
cmp-common (a ∷ p) x y = ground (arith, cmp-common p x y)

-- Strings of one length are compared before what follows them.
pub cmp-append :
    (j k x y : Bytes)
    → length j ≡ length k
    → cmp (j ++ x) (k ++ y) ≡ elim (cmp j k) [
      | Ordering.lt ↦ Ordering.lt
      | Ordering.eq ↦ cmp x y
      | Ordering.gt ↦ Ordering.gt
    ]
cmp-append [] [] x y h = refl
cmp-append [] (b ∷ k) x y h = absurd (omega (arith, h))
cmp-append (a ∷ j) [] x y h = absurd (omega (arith, h))
cmp-append (a ∷ j) (b ∷ k) x y h = ground (arith, cmp-append j k x y)

pub cmp-to_be_bytes :
    (n u v : ℕ) → u < 256 ^ n → v < 256 ^ n → cmp (to_be_bytes n u) (to_be_bytes n v) ≡ compare u v
unfolding to_be_bytes
cmp-to_be_bytes zero u v hu hv = ground arith
cmp-to_be_bytes (suc n) u v hu hv =
    cmp-append (to_be_bytes n (u / 256)) (to_be_bytes n (v / 256)) _ _
      (omega (arith, length-to_be_bytes n (u / 256), length-to_be_bytes n (v / 256)))
    ∙ rw (cmp-to_be_bytes n (u / 256) (v / 256) (omega arith) (omega arith)) (ground arith)
