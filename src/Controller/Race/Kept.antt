-- ===== src/Controller/Race/Kept.antt =====
-- What a move of a task of stream_controller.rs keeps of the store, at every name.
use concrete.Prelude.{ℕ, ◌≡◌, sym, ap, ◌∙◌, Bool, some, inl, inr, subst}
use mathlib.Core.Option.{some-injective}
use concrete.Controller.Race.{
  handed, hand, Source, IsSource, Mem, Pc, creating, Move, hit, miss, acquire, hit_again,
  miss_again, load_some, load_none, load_err, load_panic, create_ok, create_err, create_panic,
  enter,
}
use concrete.Controller.Race.Moves.{Local}

module _ (C : Source) (L : IsSource C) where
  -- What is in the cache is stored.
  abbrev pub CacheStored : Mem C → Type 0
  CacheStored m = (n : C.N) (k : C.K) → C.cached n m.state ≡ some k → L.Stored n m.state k

  module _ {i : ℕ} {n : C.N} {m : Mem C} where
    -- A thing is made only where nothing of the name is stored.
    creating_keeps :
        (id : ℕ) (n' : C.N) (k : C.K)
        → Local C L n m i creating
        → L.Stored n' m.state k
        → L.Stored n' (C.create n id m.state).1 k
    creating_keeps id n' k l e = elim (L.same_name n n') [
      | inl same ↦ absurd (l.2 k (subst (λ x. L.Stored x m.state k) (sym same) e))
      | inr differs ↦ L.create_others n id n' m.state k differs e
    ]

    pub Move-Stored :
        {make : Bool} {p p' : Pc C} {m' : Mem C}
        → Local C L n m i p
        → Move C i n make m p m' p'
        → (n' : C.N) (k : C.K) → L.Stored n' m.state k
        → L.Stored n' m'.state k
    Move-Stored l (hit _) n' k e = e
    Move-Stored l (miss _) n' k e = e
    Move-Stored l (acquire _) n' k e = e
    Move-Stored l (hit_again _) n' k e = e
    Move-Stored l (miss_again _) n' k e = e
    Move-Stored l (load_some _) n' k e = e
    Move-Stored l (load_none _) n' k e = e
    Move-Stored l (load_err _) n' k e = e
    Move-Stored l (load_panic _) n' k e = e
    Move-Stored l (create_ok {id} _ _) n' k e = creating_keeps id n' k l e
    Move-Stored l (create_err {id} _ _) n' k e = creating_keeps id n' k l e
    Move-Stored l (create_panic {id} _ _) n' k e = creating_keeps id n' k l e
    Move-Stored l hand n' k e = e
    Move-Stored l (enter {p}) n' k e = L.insert-Stored n p n' _ k e

    -- After a write to the cache, what it has of a name is stored.
    entered_kept :
        (p : C.P) (n' : C.N) (k : C.K)
        → Local C L n m i (handed p)
        → CacheStored m
        → C.cached n' (C.insert n p m.state) ≡ some k
        → L.Stored n' (C.insert n p m.state) k
    entered_kept p n' k l h e = L.insert-Stored n p n' m.state k (elim (L.same_name n n') [
      | inl same ↦
          let here : C.key p ≡ k = some-injective (C.key p) k (
            sym (L.insert-cached n p m.state)
            ∙ ap (λ x. C.cached x (C.insert n p m.state)) same
            ∙ e) in
          subst (λ x. L.Stored x m.state k) same (subst (L.Stored n m.state) here l.2)
      | inr differs ↦ h n' k (sym (L.insert_others n p n' m.state differs) ∙ e)
    ])

    pub Move-kept :
        {make : Bool} {p p' : Pc C} {m' : Mem C}
        → Local C L n m i p
        → CacheStored m
        → Move C i n make m p m' p'
        → (n' : C.N) (k : C.K) → C.cached n' m'.state ≡ some k
        → L.Stored n' m'.state k
    Move-kept l h (hit _) n' k e = h n' k e
    Move-kept l h (miss _) n' k e = h n' k e
    Move-kept l h (acquire _) n' k e = h n' k e
    Move-kept l h (hit_again _) n' k e = h n' k e
    Move-kept l h (miss_again _) n' k e = h n' k e
    Move-kept l h (load_some _) n' k e = h n' k e
    Move-kept l h (load_none _) n' k e = h n' k e
    Move-kept l h (load_err _) n' k e = h n' k e
    Move-kept l h (load_panic _) n' k e = h n' k e
    Move-kept l h (create_ok {id} _ _) n' k e =
        creating_keeps id n' k l (h n' k (sym (L.create-cached n id n' _) ∙ e))
    Move-kept l h (create_err {id} _ _) n' k e =
        creating_keeps id n' k l (h n' k (sym (L.create-cached n id n' _) ∙ e))
    Move-kept l h (create_panic {id} _ _) n' k e =
        creating_keeps id n' k l (h n' k (sym (L.create-cached n id n' _) ∙ e))
    Move-kept l h hand n' k e = h n' k e
    Move-kept l h (enter {p}) n' k e = entered_kept p n' k l h e
