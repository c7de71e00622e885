-- ===== src/Bytes/BigEndian.antt =====
-- The big-endian conversions: width, round trip, and reading an integer off the front.
use concrete.Prelude.{
  ℕ, zero, suc, ◌+◌, ◌*◌, ◌/◌, ◌<◌, ◌^◌, ◌≡◌, refl, sym, ap, ◌∙◌, [], ◌∷◌, ◌++◌, take, drop, length,
  length-append, take-append, drop-append, All-append, arith,
}
use mathlib.Core.List.{foldl-append}
use concrete.Bytes.{Bytes, IsByte, IsBytes, to_be_bytes, from_be_bytes}

pub length-to_be_bytes : (n v : ℕ) → length (to_be_bytes n v) ≡ n
unfolding to_be_bytes
length-to_be_bytes zero v = refl
length-to_be_bytes (suc n) v = rw length-append (omega (arith, length-to_be_bytes n (v / 256)))

pub to_be_bytes-IsBytes : (n v : ℕ) → IsBytes (to_be_bytes n v)
unfolding to_be_bytes
to_be_bytes-IsBytes zero v = tt
to_be_bytes-IsBytes (suc n) v =
    All-append IsByte (to_be_bytes n (v / 256)) _ (to_be_bytes-IsBytes n (v / 256)) (omega arith)

from_be_bytes-snoc :
    (bs : Bytes) (b : ℕ) → from_be_bytes (bs ++ b ∷ []) ≡ from_be_bytes bs * 256 + b
unfolding from_be_bytes
from_be_bytes-snoc bs b = rw foldl-append

-- Reading back the bytes of an integer that fits them gives the integer.
pub from-to_be_bytes : (n v : ℕ) → v < 256 ^ n → from_be_bytes (to_be_bytes n v) ≡ v
unfolding to_be_bytes
from-to_be_bytes zero v h = unfold from_be_bytes in omega arith
from-to_be_bytes (suc n) v h =
    rw from_be_bytes-snoc (rw (from-to_be_bytes n (v / 256) (omega arith)) (omega arith))

pub to_be_bytes-injective :
    (n u v : ℕ) → u < 256 ^ n → v < 256 ^ n → to_be_bytes n u ≡ to_be_bytes n v → u ≡ v
to_be_bytes-injective n u v hu hv e =
    sym (from-to_be_bytes n u hu) ∙ ap from_be_bytes e ∙ from-to_be_bytes n v hv

-- The two halves of `split_at(n)` behind an integer of `n` bytes.
pub take-to_be_bytes : (n v : ℕ) (rest : Bytes) → take n (to_be_bytes n v ++ rest) ≡ to_be_bytes n v
take-to_be_bytes n v rest = rw length-to_be_bytes at (take-append (to_be_bytes n v) rest)

pub drop-to_be_bytes : (n v : ℕ) (rest : Bytes) → drop n (to_be_bytes n v ++ rest) ≡ rest
drop-to_be_bytes n v rest = rw length-to_be_bytes at (drop-append (to_be_bytes n v) rest)

pub read_front :
    (n v : ℕ) (rest : Bytes) → v < 256 ^ n → from_be_bytes (take n (to_be_bytes n v ++ rest)) ≡ v
read_front n v rest h = rw take-to_be_bytes (from-to_be_bytes n v h)

-- What an integer of fixed width begins is determined by the whole.
pub to_be_bytes-append_injective :
    (n u v : ℕ) {x y : Bytes}
    → u < 256 ^ n
    → v < 256 ^ n
    → to_be_bytes n u ++ x ≡ to_be_bytes n v ++ y
    → (u ≡ v) × (x ≡ y)
to_be_bytes-append_injective n u v {x} {y} hu hv e = (
  to_be_bytes-injective n u v hu hv
      (sym (take-to_be_bytes n u x) ∙ ap (take n) e ∙ take-to_be_bytes n v y),
  sym (drop-to_be_bytes n u x) ∙ ap (drop n) e ∙ drop-to_be_bytes n v y,
)
