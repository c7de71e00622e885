-- ===== src/Text/Blank.antt =====
-- A text that is blank once it is trimmed is one of white space only.
use concrete.Prelude.{
  ℕ, ◌≡◌, refl, sym, ap, ◌∙◌, inl, inr, Bool, true, false, ◌&&◌, List, [], ◌∷◌, ◌++◌, reverse,
  Bool-cases,
}
use mathlib.Core.List.{reverse-cons}
use concrete.Text.{Str}
use concrete.Text.Utf8.{chars}
use concrete.Text.Trim.{is_whitespace, trim_start, trim_chars, is_empty, trim_is_empty, all_white}

is_empty-trim_start : (cs : List ℕ) → is_empty (trim_start cs) ≡ all_white cs
unfolding is_empty trim_start
is_empty-trim_start [] = refl
is_empty-trim_start (c ∷ cs) = elim (Bool-cases (is_whitespace c)) [
  | inl e ↦ rw e (is_empty-trim_start cs)
  | inr e ↦ rw e refl
]

all_white-trim_start : (cs : List ℕ) → all_white (trim_start cs) ≡ all_white cs
unfolding trim_start
all_white-trim_start [] = refl
all_white-trim_start (c ∷ cs) = elim (Bool-cases (is_whitespace c)) [
  | inl e ↦ rw e (all_white-trim_start cs)
  | inr e ↦ rw e (rw e refl)
]

and_assoc_comm : (a x : Bool) → x && (a && true) ≡ a && x
and_assoc_comm true true = refl
and_assoc_comm true false = refl
and_assoc_comm false true = refl
and_assoc_comm false false = refl

and_assoc : (a x y : Bool) → (a && x) && y ≡ a && (x && y)
and_assoc true x y = refl
and_assoc false x y = refl

all_white-append : (xs ys : List ℕ) → all_white (xs ++ ys) ≡ all_white xs && all_white ys
all_white-append [] ys = refl
all_white-append (x ∷ xs) ys =
    ap (λ t. is_whitespace x && t) (all_white-append xs ys)
    ∙ sym (and_assoc (is_whitespace x) (all_white xs) (all_white ys))

all_white-reverse : (cs : List ℕ) → all_white (reverse cs) ≡ all_white cs
all_white-reverse [] = refl
all_white-reverse (c ∷ cs) =
    ap all_white (reverse-cons c cs)
    ∙ all_white-append (reverse cs) (c ∷ [])
    ∙ and_assoc_comm (is_whitespace c) (all_white (reverse cs))
    ∙ ap (λ t. is_whitespace c && t) (all_white-reverse cs)

is_empty-append : (xs : List ℕ) (c : ℕ) → is_empty (xs ++ c ∷ []) ≡ false
unfolding is_empty
is_empty-append [] c = refl
is_empty-append (x ∷ xs) c = refl

is_empty-reverse : (cs : List ℕ) → is_empty (reverse cs) ≡ is_empty cs
unfolding is_empty
is_empty-reverse [] = refl
is_empty-reverse (c ∷ cs) = ap is_empty (reverse-cons c cs) ∙ is_empty-append (reverse cs) c

-- `trim().is_empty()` says that every character is white space.
pub trim_is_empty-eq : (s : Str) → trim_is_empty s ≡ all_white (chars s)
unfolding trim_is_empty trim_chars
trim_is_empty-eq s =
    let front = trim_start (chars s) in
    is_empty-reverse (trim_start (reverse front))
    ∙ is_empty-trim_start (reverse front)
    ∙ all_white-reverse front
    ∙ all_white-trim_start (chars s)
