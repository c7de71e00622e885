-- ===== src/Key/Range.antt =====
-- The range of a prefix holds exactly the keys that start with it.
use concrete.Prelude.{
  ℕ, zero, suc, ◌+◌, ◌≡◌, refl, true, ◌==◌, ap, Option, none, some, [], ◌∷◌, arith, length,
  if◌then◌else◌, starts_with, Bool, ◌∙◌, ◌&&◌,
}
use concrete.Prelude.Order.{bytes_le, bytes_lt, cmp-nil, cmp_refl}
use concrete.Bytes.{Bytes, IsByte, IsBytes}
use concrete.Storage.Range.{contains}
use concrete.Key.{next_prefix_loop, next_prefix, prefix_range}

-- What a byte in front makes of the next prefix of the rest: a rest of bytes 255 has none, and
-- then the byte itself is increased, if it can be.
onto : ℕ → Option Bytes → Option Bytes
onto b (some q) = some (b ∷ q)
onto b none = if b == 255 then none else some ((b + 1) ∷ [])

next_prefix_loop-cons :
    (i : ℕ) (b : ℕ) (p : Bytes) → next_prefix_loop (suc i) (b ∷ p) ≡ onto b (next_prefix_loop i p)
unfolding next_prefix_loop onto
next_prefix_loop-cons zero b p = ground arith
next_prefix_loop-cons (suc i) b p = ground (arith, next_prefix_loop-cons i b p)

next_prefix-cons : (b : ℕ) (p : Bytes) → next_prefix (b ∷ p) ≡ onto b (next_prefix p)
unfolding next_prefix
next_prefix-cons b p = next_prefix_loop-cons (length p) b p

-- `k` lies from `p` on, and below the end if there is one.
up_to : Bytes → Bytes → Option Bytes → Bool
up_to k p (some q) = bytes_le p k && bytes_lt k q
up_to k p none = bytes_le p k && true

up_to-cons :
    (b c : ℕ) (p k : Bytes) (end : Option Bytes)
    → IsByte b
    → IsByte c
    → up_to (c ∷ k) (b ∷ p) (onto b end) ≡ (c == b && up_to k p end)
unfolding up_to onto
up_to-cons b c p k (some q) hb hc = ground arith
up_to-cons b c p k none hb hc = ground (arith, cmp-nil k)

up_to-starts_with :
    (p k : Bytes) → IsBytes p → IsBytes k → up_to k p (next_prefix p) ≡ starts_with k p
up_to-starts_with [] [] hp hk = unfold up_to next_prefix next_prefix_loop in refl
up_to-starts_with [] (c ∷ k) hp hk = unfold up_to next_prefix next_prefix_loop in refl
up_to-starts_with (b ∷ p) [] hp hk = rw next_prefix-cons (unfold up_to onto in ground arith)
up_to-starts_with (b ∷ p) (c ∷ k) hp hk = rw next_prefix-cons (
    up_to-cons b c p k (next_prefix p) hp.0 hk.0
    ∙ ap (λ t. c == b && t) (up_to-starts_with p k hp.1 hk.1))

contains-up_to : (p k : Bytes) → contains (prefix_range p) k ≡ up_to k p (next_prefix p)
unfolding contains prefix_range up_to
contains-up_to p k = ground arith

-- The range of a prefix holds a key exactly if the key starts with the prefix.
pub prefix_range-contains :
    (p k : Bytes) → IsBytes p → IsBytes k → contains (prefix_range p) k ≡ starts_with k p
prefix_range-contains p k hp hk = contains-up_to p k ∙ up_to-starts_with p k hp hk

up_to_self-cons :
    (b : ℕ) (p : Bytes) (end : Option Bytes)
    → up_to p p end ≡ true
    → up_to (b ∷ p) (b ∷ p) (onto b end) ≡ true
unfolding up_to onto
up_to_self-cons b p (some q) h = ground (arith, cmp_refl p)
up_to_self-cons b p none h = ground (arith, cmp_refl p, cmp-nil p)

up_to_self : (p : Bytes) → up_to p p (next_prefix p) ≡ true
up_to_self [] = unfold up_to next_prefix next_prefix_loop in refl
up_to_self (b ∷ p) = rw next_prefix-cons (up_to_self-cons b p (next_prefix p) (up_to_self p))

-- A prefix lies before its next prefix.
pub lt-next_prefix : (p q : Bytes) → next_prefix p ≡ some q → bytes_lt p q ≡ true
lt-next_prefix p q e = unfold up_to in ground (arith, rw e at (up_to_self p))
