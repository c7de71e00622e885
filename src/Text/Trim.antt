-- ===== src/Text/Trim.antt =====
-- `str::trim` and `is_empty`: the test that a name has a character which is not white space.
use concrete.Prelude.{
  ℕ, Bool, true, false, ◌&&◌, ◌||◌, List, [], ◌∷◌, reverse, leb, ◌==◌, if◌then◌else◌,
}
use concrete.Text.{Str}
use concrete.Text.Utf8.{chars}

-- Unicode's `White_Space`
abbrev pub is_whitespace : ℕ → Bool
is_whitespace c =
    (leb 0x09 c && leb c 0x0d)
    || (c == 0x20
        || (c == 0x85
            || (c == 0xa0
                || (c == 0x1680
                    || ((leb 0x2000 c && leb c 0x200a)
                        || (c == 0x2028
                            || (c == 0x2029 || (c == 0x202f || (c == 0x205f || c == 0x3000)))))))))

unfoldable pub trim_start : List ℕ → List ℕ
trim_start [] = []
trim_start (c ∷ cs) = if is_whitespace c then trim_start cs else c ∷ cs

-- `value.trim()`, as characters
unfoldable pub trim_chars : List ℕ → List ℕ
unfolding trim_start
trim_chars cs = reverse (trim_start (reverse (trim_start cs)))

unfoldable pub is_empty : List ℕ → Bool
is_empty [] = true
is_empty (c ∷ cs) = false

-- `value.trim().is_empty()`
unfoldable pub trim_is_empty : Str → Bool
unfolding trim_chars is_empty
trim_is_empty s = is_empty (trim_chars (chars s))

abbrev pub all_white : List ℕ → Bool
all_white [] = true
all_white (c ∷ cs) = is_whitespace c && all_white cs
