-- ===== src/Text/Utf8/Total.antt =====
-- The decoder takes a byte in each round, so that its rounds are enough.
use concrete.Prelude.{
  ℕ, zero, suc, ◌+◌, ◌-◌, ◌*◌, ◌==◌, not, some, ◌≤◌, ◌≢◌, Bool, true, false, if◌then◌else◌, refl,
  Option, List, [], ◌∷◌, length, arith,
}
use concrete.Prelude.Result.{Result, ok, err, panic, map_ok}
use concrete.Bytes.{Bytes}
use concrete.Text.Utf8.{
  Utf8Error, last_byte, last_two, multi_byte, first_char, decode_round, decode_loop, decode,
  from_utf8, width, second_byte,
}

-- A part of the input is left, or there is an error.
abbrev Shortens : Bytes → Result (Option ℕ) (ℕ × Bytes) → Type 0
Shortens bs (ok (c, rest)) = length rest ≤ length bs
Shortens bs (err n) = Unit
Shortens bs panic = ⊥

last_byte-Shortens : (n acc : ℕ) (bs : Bytes) → Shortens bs (last_byte n acc bs)
unfolding last_byte
last_byte-Shortens n acc [] = tt
last_byte-Shortens n acc (b ∷ r) = ground arith

last_two-Shortens : (n acc : ℕ) (bs : Bytes) → Shortens bs (last_two n acc bs)
unfolding last_two last_byte
last_two-Shortens n acc [] = tt
last_two-Shortens n acc (b ∷ []) = ground arith
last_two-Shortens n acc (b ∷ c ∷ r) = ground arith

if-Shortens :
    (t : Bool) (bs : Bytes) (x y : Result (Option ℕ) (ℕ × Bytes))
    → Shortens bs x
    → Shortens bs y
    → Shortens bs (if t then x else y)
if-Shortens true bs x y h k = h
if-Shortens false bs x y h k = k

Shortens-longer :
    (b : ℕ) (bs : Bytes) (x : Result (Option ℕ) (ℕ × Bytes)) → Shortens bs x → Shortens (b ∷ bs) x
Shortens-longer b bs (ok (c, rest)) h = omega (arith, h)
Shortens-longer b bs (err n) h = tt
Shortens-longer b bs panic h = elim h [ ]

multi_byte-Shortens : (a : ℕ) (bs : Bytes) → Shortens bs (multi_byte a bs)
unfolding multi_byte
multi_byte-Shortens a [] = tt
multi_byte-Shortens a (b ∷ r) =
    let three = last_byte 2 ((a - 0xe0) * 64 + (b - 0x80)) r in
    let four = last_two 2 ((a - 0xf0) * 64 + (b - 0x80)) r in
    let two : Result (Option ℕ) (ℕ × Bytes) = ok ((a - 0xc0) * 64 + (b - 0x80), r) in
    let long = if width a == 3 then three else four in
    if-Shortens (not (second_byte a b)) (b ∷ r) (err (some 1)) (if width a == 2 then two else long)
      tt
      (if-Shortens (width a == 2) (b ∷ r) two long (omega arith) (
        if-Shortens (width a == 3) (b ∷ r) three four
          (Shortens-longer b r three (last_byte-Shortens 2 ((a - 0xe0) * 64 + (b - 0x80)) r))
          (Shortens-longer b r four (last_two-Shortens 2 ((a - 0xf0) * 64 + (b - 0x80)) r))))

first_char-Shortens : (a : ℕ) (rest : Bytes) → Shortens rest (first_char a rest)
unfolding first_char
first_char-Shortens a rest =
    let one : Result (Option ℕ) (ℕ × Bytes) = ok (a, rest) in
    let more = multi_byte a rest in
    if-Shortens (width a == 0) rest (err (some 1)) (if width a == 1 then one else more) tt
      (if-Shortens (width a == 1) rest one more (omega arith) (multi_byte-Shortens a rest))

pub map_ok-ne-panic : {E A B : Type 0} (f : A → B) (m : Result E A) → m ≢ panic → map_ok f m ≢ panic
map_ok-ne-panic f (ok a) h e = cc
map_ok-ne-panic f (err x) h e = cc
map_ok-ne-panic f panic h e = h refl

decode_round-ne-panic :
    (at : ℕ) (more : Bytes → Result Utf8Error (List ℕ)) (rest : Bytes)
    (x : Result (Option ℕ) (ℕ × Bytes))
    → Shortens rest x
    → ((r : Bytes) → length r ≤ length rest → more r ≢ panic)
    → decode_round at more x ≢ panic
decode_round-ne-panic at more rest (ok (c, r)) h k = map_ok-ne-panic (◌∷◌ c) (more r) (k r h)
decode_round-ne-panic at more rest (err n) h k = λ e. cc
decode_round-ne-panic at more rest panic h k = elim h [ ]

decode_loop-ne-panic :
    (fuel at : ℕ) (bs : Bytes) → length bs ≤ fuel → decode_loop fuel at bs ≢ panic
unfolding decode_loop
decode_loop-ne-panic fuel at [] h = λ e. cc
decode_loop-ne-panic zero at (a ∷ rest) h = absurd (omega (arith, h))
decode_loop-ne-panic (suc fuel) at (a ∷ rest) h =
    decode_round-ne-panic at (decode_loop fuel (at + width a)) rest (first_char a rest)
      (first_char-Shortens a rest)
      (λ r k. decode_loop-ne-panic fuel (at + width a) r (omega (arith, h, k)))

-- The rounds never run out.
pub from_utf8-ne-panic : (bs : Bytes) → from_utf8 bs ≢ panic
unfolding from_utf8 decode
from_utf8-ne-panic bs =
    map_ok-ne-panic _ (decode bs) (decode_loop-ne-panic (length bs) 0 bs (omega arith))
