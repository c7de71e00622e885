-- ===== src/Text/Utf8.antt =====
-- `std::str::from_utf8`: the characters of a byte string, or where it stops being UTF-8.
pub mod Total
use concrete.Prelude.{
  ℕ, zero, suc, ◌+◌, ◌-◌, ◌*◌, ◌≡◌, Bool, ◌&&◌, not, Option, none, some, List, [], ◌∷◌, ◌++◌, ltb,
  leb, ◌==◌, length, if◌then◌else◌, arith,
}
use concrete.Prelude.Result.{Result, ok, err, panic, map_ok}
use concrete.Text.{Str, text, decimal}
use concrete.Bytes.{Bytes}

-- `error_len` is `None` where the input ends inside a character.
pub record Utf8Error : Type 0 where
  pub valid_up_to : ℕ
  pub error_len : Option ℕ

-- `Display` of `Utf8Error`
pub utf8_message : Utf8Error → Str
utf8_message e = elim e.error_len [
  | some n ↦
      text "invalid utf-8 sequence of "
      ++ decimal n
      ++ text " bytes from index "
      ++ decimal e.valid_up_to
  | none ↦ text "incomplete utf-8 byte sequence from index " ++ decimal e.valid_up_to
]

abbrev in_range : ℕ → ℕ → ℕ → Bool
in_range lo hi b = leb lo b && leb b hi

-- The number of bytes that a first byte announces, 0 for none.
abbrev width : ℕ → ℕ
width b =
    if ltb b 0x80
    then 1
    else if in_range 0xc2 0xdf b
    then 2
    else if in_range 0xe0 0xef b
    then 3
    else if in_range 0xf0 0xf4 b
    then 4
    else 0

-- The second bytes that a first byte allows: no overlong forms, surrogates or values past U+10FFFF.
abbrev second_byte : ℕ → ℕ → Bool
second_byte a b =
    if a == 0xe0
    then in_range 0xa0 0xbf b
    else if a == 0xed
    then in_range 0x80 0x9f b
    else if a == 0xf0
    then in_range 0x90 0xbf b
    else if a == 0xf4
    then in_range 0x80 0x8f b
    else in_range 0x80 0xbf b

abbrev continuation : ℕ → Bool
continuation = in_range 0x80 0xbf

-- The rest of a character of two, three or four bytes: the value so far is `acc`.
last_byte : ℕ → ℕ → Bytes → Result (Option ℕ) (ℕ × Bytes)
last_byte n acc [] = err none
last_byte n acc (b ∷ r) = if continuation b then ok (acc * 64 + (b - 0x80), r) else err (some n)

last_two : ℕ → ℕ → Bytes → Result (Option ℕ) (ℕ × Bytes)
last_two n acc [] = err none
last_two n acc (b ∷ r) =
    if continuation b then last_byte (n + 1) (acc * 64 + (b - 0x80)) r else err (some n)

multi_byte : ℕ → Bytes → Result (Option ℕ) (ℕ × Bytes)
unfolding last_byte last_two
multi_byte a [] = err none
multi_byte a (b ∷ r) =
    if not (second_byte a b)
    then err (some 1)
    else if width a == 2
    then ok ((a - 0xc0) * 64 + (b - 0x80), r)
    else if width a == 3
    then last_byte 2 ((a - 0xe0) * 64 + (b - 0x80)) r
    else last_two 2 ((a - 0xf0) * 64 + (b - 0x80)) r

-- One character at the front: its code point and the bytes after it, or the `error_len`.
first_char : ℕ → Bytes → Result (Option ℕ) (ℕ × Bytes)
unfolding multi_byte
first_char a rest =
    if width a == 0 then err (some 1) else if width a == 1 then ok (a, rest) else multi_byte a rest

-- One round: a character, and what is made of the rest.
abbrev decode_round :
    ℕ
    → (Bytes → Result Utf8Error (List ℕ))
    → Result (Option ℕ) (ℕ × Bytes)
    → Result Utf8Error (List ℕ)
decode_round at more (ok (c, rest)) = map_ok (◌∷◌ c) (more rest)
decode_round at more (err n) = err (record { valid_up_to = at; error_len = n })
decode_round at more panic = panic

-- The loop over the input: `at` is the position, `seen` the characters so far, last first.
decode_loop : ℕ → ℕ → Bytes → Result Utf8Error (List ℕ)
unfolding first_char
decode_loop fuel at [] = ok []
decode_loop zero at (a ∷ rest) = panic
decode_loop (suc fuel) at (a ∷ rest) =
    decode_round at (decode_loop fuel (at + width a)) (first_char a rest)

-- Each round takes a byte at least, so one round for each byte is enough; `panic` would say that the
-- rounds ran out.
decode : Bytes → Result Utf8Error (List ℕ)
unfolding decode_loop
decode bs = decode_loop (length bs) 0 bs

-- `std::str::from_utf8`
unfoldable pub from_utf8 : Bytes → Result Utf8Error Str
unfolding decode
from_utf8 bs = map_ok (λ _. bs) (decode bs)

-- What the type `str` promises of its bytes.
pub record IsUtf8 (s : Str) : Type 0 where
  pub valid : from_utf8 s ≡ ok s

-- `s.chars()`: the characters of a `str`, as code points
unfoldable pub chars : Str → List ℕ
unfolding decode
chars s = elim (decode s) [ ok cs ↦ cs | err e ↦ [] | panic ↦ [] ]

-- A text that was read is the input.
pub from_utf8-eq-ok : (bs : Bytes) (s : Str) → from_utf8 bs ≡ ok s → s ≡ bs
unfolding from_utf8
from_utf8-eq-ok bs s h = ground arith
