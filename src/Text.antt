-- ===== src/Text.antt =====
-- Rust's `str`: a byte string that is valid UTF-8. Literals, decimal numbers in messages,
-- `std::str::from_utf8`, `trim` and `is_empty`.
pub mod Utf8
pub mod Trim
pub mod Blank
use Prim.Native.Char.{code}
use concrete.Prelude.{ℕ, zero, suc, ◌+◌, ◌/◌, ◌%◌, String, List, [], ◌∷◌, ◌++◌, ltb, if◌then◌else◌}
use concrete.Bytes.{Bytes}

abbrev pub Str : Type 0
Str = Bytes

-- The bytes of a literal; every literal of the program is ASCII.
abbrev pub text : String → Str
text String.[] = []
text (String.◌∷◌ c s) = code c ∷ text s

decimal_digits : ℕ → ℕ → Str
decimal_digits zero n = []
decimal_digits (suc fuel) n =
    let front = decimal_digits fuel (n / 10) in
    if ltb n 10 then (n + 48) ∷ [] else front ++ (n % 10 + 48) ∷ []

-- `n.to_string()` of a `u64`, `u128` or `usize`: at most 39 digits
unfoldable pub decimal : ℕ → Str
unfolding decimal_digits
decimal = decimal_digits 39
