-- ===== src/Prelude/Result.antt =====
-- Rust's `Result<A, E>` as the value of a call that may also panic.
use mathlib.Core.Path.{◌≡◌, refl}
use mathlib.Core.Logic.{◌⊎◌, inl, inr}
use mathlib.Core.Option.{Option, none, some}

pub data Result {ℓ} (E A : Type ℓ) : Type ℓ where
  ok : A → Result E A
  err : E → Result E A
  panic : Result E A

-- the `?` operator
infixl 5 ◌>>=◌
abbrev pub ◌>>=◌ {ℓ} : {E A B : Type ℓ} → Result E A → (A → Result E B) → Result E B
ok a >>= next = next a
err e >>= next = err e
panic >>= next = panic

abbrev pub map_err {ℓ} : {E F A : Type ℓ} → (E → F) → Result E A → Result F A
map_err f (ok a) = ok a
map_err f (err e) = err (f e)
map_err f panic = panic

abbrev pub map_ok {ℓ} : {E A B : Type ℓ} → (A → B) → Result E A → Result E B
map_ok f (ok a) = ok (f a)
map_ok f (err e) = err e
map_ok f panic = panic

abbrev pub ok_or {ℓ} : {E A : Type ℓ} → E → Option A → Result E A
ok_or e none = err e
ok_or e (some a) = ok a

pub >>=-eq-ok {ℓ} :
    {E A B : Type ℓ} (first : Result E A) (next : A → Result E B) {last : B}
    → (first >>= next) ≡ ok last
    → (a : A) × (first ≡ ok a) × (next a ≡ ok last)
>>=-eq-ok (ok a) next done = (a, refl, done)
>>=-eq-ok (err e) next done = cc
>>=-eq-ok panic next done = cc

pub map_err-eq-ok {ℓ} :
    {E F A : Type ℓ} (f : E → F) (m : Result E A) {a : A} → map_err f m ≡ ok a → m ≡ ok a
map_err-eq-ok f (ok a) h = cc
map_err-eq-ok f (err e) h = cc
map_err-eq-ok f panic h = cc

pub map_ok-eq-ok {ℓ} :
    {E A B : Type ℓ} (f : A → B) (m : Result E A) {b : B}
    → map_ok f m ≡ ok b
    → (a : A) × (m ≡ ok a) × (f a ≡ b)
map_ok-eq-ok f (ok a) h = (a, refl, cc)
map_ok-eq-ok f (err e) h = cc
map_ok-eq-ok f panic h = cc

pub Result-cases {ℓ} :
    {E A : Type ℓ} (m : Result E A)
    → ((a : A) × (m ≡ ok a)) ⊎ (((e : E) × (m ≡ err e)) ⊎ (m ≡ panic))
Result-cases (ok a) = inl (a, refl)
Result-cases (err e) = inr (inl (e, refl))
Result-cases panic = inr (inr refl)

pub ok-injective {ℓ} : {E A : Type ℓ} (a c : A) → ◌≡◌ {A = Result E A} (ok a) (ok c) → a ≡ c
ok-injective a c h = cc

pub >>=-eq-err {ℓ} :
    {E A B : Type ℓ} (first : Result E A) (next : A → Result E B) {e : E}
    → (first >>= next) ≡ err e
    → (first ≡ err e) ⊎ ((a : A) × (first ≡ ok a) × (next a ≡ err e))
>>=-eq-err (ok a) next failed = inr (a, refl, failed)
>>=-eq-err (err e) next failed = inl cc
>>=-eq-err panic next failed = cc

pub map_err-eq-err {ℓ} :
    {E F A : Type ℓ} (f : E → F) (m : Result E A) {e : F}
    → map_err f m ≡ err e
    → (x : E) × (f x ≡ e)
map_err-eq-err f (ok a) h = cc
map_err-eq-err f (err x) h = (x, cc)
map_err-eq-err f panic h = cc
