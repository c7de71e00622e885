-- ===== src/Controller/Race/Moves.antt =====
-- What a task of stream_controller.rs knows at each position, and what a move makes of it.
use concrete.Prelude.{
  ℕ, ◌≡◌, refl, sym, ◌∙◌, Bool, true, false, none, some, inl, inr, ◌⊎◌, ◌≢◌, subst, ap,
}
use mathlib.Core.Option.{some-injective, some-ne-none}
use concrete.Controller.Race.{
  handed, hand, Source, IsSource, Mem, Pc, start, waiting, locked, missing, creating, got, found,
  opened, refused, stopped, Move, hit, miss, acquire, hit_again, miss_again, load_some, load_none,
  load_err, load_panic, create_ok, create_err, create_panic, enter, holds, is_opened,
}

module _ (C : Source) (L : IsSource C) where
  -- What the position of task `i` says of the memory.
  abbrev pub Local : C.N → Mem C → ℕ → Pc C → Type 0
  Local n m i start = Unit {0}
  Local n m i waiting = Unit {0}
  Local n m i locked = m.lock ≡ some i
  Local n m i missing = (m.lock ≡ some i) × (C.cached n m.state ≡ none)
  Local n m i creating =
      (m.lock ≡ some i) × (C.cached n m.state ≡ none) × ((k : C.K) → L.Stored n m.state k → ⊥)
  Local n m i (got p) =
      (m.lock ≡ some i) × (C.cached n m.state ≡ none) × L.Stored n m.state (C.key p)
  Local n m i (handed p) =
      (m.lock ≡ some i) × (C.cached n m.state ≡ none) × L.Stored n m.state (C.key p)
  Local n m i (found k) = C.cached n m.state ≡ some k
  Local n m i (opened p) = C.cached n m.state ≡ some (C.key p)
  Local n m i (refused e) = Unit {0}
  Local n m i stopped = Unit {0}

  unheld : false ≡ true → ⊥
  unheld e = cc

  -- What a task that has the lock knows.
  pub owns :
      (n : C.N) (m : Mem C) (i : ℕ) (p : Pc C) → Local n m i p → holds C p ≡ true → m.lock ≡ some i
  owns n m i start l h = cc
  owns n m i waiting l h = cc
  owns n m i locked l h = l
  owns n m i missing l h = l.0
  owns n m i creating l h = l.0
  owns n m i (got p) l h = l.0
  owns n m i (handed p) l h = l.0
  owns n m i (found k) l h = cc
  owns n m i (opened p) l h = cc
  owns n m i (refused e) l h = cc
  owns n m i stopped l h = cc

  -- A task without the lock knows what it knew, if the cache's entry stays.
  pub frame :
      (n : C.N) (m m' : Mem C) (j : ℕ) (p : Pc C)
      → (m.lock ≡ some j → ⊥)
      → ((k : C.K) → C.cached n m.state ≡ some k → C.cached n m'.state ≡ some k)
      → Local n m j p
      → Local n m' j p
  frame n m m' j start no_lock keep l = tt
  frame n m m' j waiting no_lock keep l = tt
  frame n m m' j locked no_lock keep l = absurd (no_lock l)
  frame n m m' j missing no_lock keep l = absurd (no_lock l.0)
  frame n m m' j creating no_lock keep l = absurd (no_lock l.0)
  frame n m m' j (got p) no_lock keep l = absurd (no_lock l.0)
  frame n m m' j (handed p) no_lock keep l = absurd (no_lock l.0)
  frame n m m' j (found k) no_lock keep l = keep k l
  frame n m m' j (opened p) no_lock keep l = keep (C.key p) l
  frame n m m' j (refused e) no_lock keep l = tt
  frame n m m' j stopped no_lock keep l = tt

  module _ {i : ℕ} {n : C.N} {make : Bool} {m : Mem C} where
    pub Move-cached :
        {p p' : Pc C} {m' : Mem C}
        → Local n m i p
        → Move C i n make m p m' p'
        → (n' : C.N) (k : C.K) → C.cached n' m.state ≡ some k
        → C.cached n' m'.state ≡ some k
    Move-cached l (hit _) n' k e = e
    Move-cached l (miss _) n' k e = e
    Move-cached l (acquire _) n' k e = e
    Move-cached l (hit_again _) n' k e = e
    Move-cached l (miss_again _) n' k e = e
    Move-cached l (load_some _) n' k e = e
    Move-cached l (load_none _) n' k e = e
    Move-cached l (load_err _) n' k e = e
    Move-cached l (load_panic _) n' k e = e
    Move-cached l (create_ok {id} _ _) n' k e = L.create-cached n id n' _ ∙ e
    Move-cached l (create_err {id} _ _) n' k e = L.create-cached n id n' _ ∙ e
    Move-cached l (create_panic {id} _ _) n' k e = L.create-cached n id n' _ ∙ e
    Move-cached l hand n' k e = e
    Move-cached l (enter {p}) n' k e = elim (L.same_name n n') [
      | inl same ↦ absurd (some-ne-none k (sym e ∙ ap (λ x. C.cached x m.state) (sym same) ∙ l.1))
      | inr differs ↦ L.insert_others n p n' _ differs ∙ e
    ]

    -- Before a move that changes the memory, the lock is free or the mover's.
    pub Move-lock :
        {p p' : Pc C} {m' : Mem C}
        → Local n m i p
        → Move C i n make m p m' p'
        → (m ≡ m') ⊎ (m.lock ≡ none) ⊎ (m.lock ≡ some i)
    Move-lock l (hit _) = inl refl
    Move-lock l (miss _) = inl refl
    Move-lock l (acquire e) = inr (inl e)
    Move-lock l (hit_again _) = inr (inr l)
    Move-lock l (miss_again _) = inl refl
    Move-lock l (load_some _) = inl refl
    Move-lock l (load_none _) = inl refl
    Move-lock l (load_err _) = inr (inr l.0)
    Move-lock l (load_panic _) = inr (inr l.0)
    Move-lock l (create_ok _ _) = inr (inr l.0)
    Move-lock l (create_err _ _) = inr (inr l.0)
    Move-lock l (create_panic _ _) = inr (inr l.0)
    Move-lock l hand = inl refl
    Move-lock l enter = inr (inr l.0)

    pub Move-others :
        {p p' : Pc C} {m' : Mem C}
        → Local n m i p
        → Move C i n make m p m' p'
        → (j : ℕ) (n' : C.N) (q : Pc C) → i ≢ j
        → Local n' m j q
        → Local n' m' j q
    Move-others {m'} l mv j n' q differs known = elim (Move-lock l mv) [
      | inl same ↦ subst (λ x. Local n' x j q) same known
      | inr (inl unheld) ↦
          frame n' m m' j q (λ held. some-ne-none j (sym held ∙ unheld)) (Move-cached l mv n') known
      | inr (inr own) ↦
          frame n' m m' j q (λ held. differs (some-injective i j (sym own ∙ held)))
            (Move-cached l mv n') known
    ]

    -- The lock is the mover's after the move only if its position says so, and another's only if it was.
    pub Move-owner :
        {p p' : Pc C} {m' : Mem C}
        → (m.lock ≡ some i → holds C p ≡ true)
        → Move C i n make m p m' p'
        → ((m'.lock ≡ some i → holds C p' ≡ true)
            × ((j : ℕ) → i ≢ j → m'.lock ≡ some j → m.lock ≡ some j))
    Move-owner o (hit _) = (λ e. absurd (unheld (o e)), λ j d e. e)
    Move-owner o (miss _) = (λ e. absurd (unheld (o e)), λ j d e. e)
    Move-owner o (acquire _) = (λ e. refl, λ j d e. absurd (d (some-injective i j e)))
    Move-owner o (hit_again _) = (λ e. cc, λ j d e. cc)
    Move-owner o (miss_again _) = (λ e. refl, λ j d e. e)
    Move-owner o (load_some _) = (λ e. refl, λ j d e. e)
    Move-owner o (load_none _) = (λ e. refl, λ j d e. e)
    Move-owner o (load_err _) = (λ e. cc, λ j d e. cc)
    Move-owner o (load_panic _) = (λ e. cc, λ j d e. cc)
    Move-owner o (create_ok _ _) = (λ e. refl, λ j d e. e)
    Move-owner o (create_err _ _) = (λ e. cc, λ j d e. cc)
    Move-owner o (create_panic _ _) = (λ e. cc, λ j d e. cc)
    Move-owner o hand = (λ e. refl, λ j d e. e)
    Move-owner o enter = (λ e. cc, λ j d e. cc)

    pub Move-Local :
        {p p' : Pc C} {m' : Mem C} → Local n m i p → Move C i n make m p m' p' → Local n m' i p'
    Move-Local l (hit e) = e
    Move-Local l (miss _) = tt
    Move-Local l (acquire _) = refl
    Move-Local l (hit_again e) = e
    Move-Local l (miss_again e) = (l, e)
    Move-Local l (load_some {p} e) = (l.0, l.1, L.load_present n make _ p e)
    Move-Local l (load_none e) = (l.0, l.1, λ k. L.load_absent n make _ k e)
    Move-Local l (load_err _) = tt
    Move-Local l (load_panic _) = tt
    Move-Local l (create_ok {id} {p} h e) =
        (l.0, L.create-cached n id n _ ∙ l.1, L.create_ok n id _ p h e)
    Move-Local l (create_err _ _) = tt
    Move-Local l (create_panic _ _) = tt
    Move-Local l hand = l
    Move-Local l (enter {p}) = L.insert-cached n p _

    -- A task opens only where the cache has nothing.
    pub Move-opened :
        {p p' : Pc C} {m' : Mem C}
        → Local n m i p
        → Move C i n make m p m' p'
        → is_opened C p' ≡ true
        → C.cached n m.state ≡ none
    Move-opened l enter e = l.1
    Move-opened l hand e = cc
    Move-opened l (hit _) e = cc
    Move-opened l (miss _) e = cc
    Move-opened l (acquire _) e = cc
    Move-opened l (hit_again _) e = cc
    Move-opened l (miss_again _) e = cc
    Move-opened l (load_some _) e = cc
    Move-opened l (load_none _) e = cc
    Move-opened l (load_err _) e = cc
    Move-opened l (load_panic _) e = cc
    Move-opened l (create_ok _ _) e = cc
    Move-opened l (create_err _ _) e = cc
    Move-opened l (create_panic _ _) e = cc
