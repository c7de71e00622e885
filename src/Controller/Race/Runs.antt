-- ===== src/Controller/Race/Runs.antt =====
-- The runs of one task of stream_controller.rs under the lock: each that returns does what the function
-- does that runs to its end under the lock.
use concrete.Prelude.{ℕ, ◌≡◌, refl, sym, subst, Bool, true, none, some}
use concrete.Prelude.Result.{Result, ok, err, panic}
use concrete.Controller.{ControllerError}
use concrete.Controller.Race.{
  handed, hand, Source, Mem, Pc, locked, missing, creating, got, Move, hit, miss, acquire,
  hit_again, miss_again, load_some, load_none, load_err, load_panic, create_ok, create_err,
  create_panic, enter, returned, outcome,
}
use concrete.Controller.Race.Alone.{after_create, after_load, after_lock, under_lock}

module _ (C : Source) where
  -- Moves of the task `i` alone.
  pub data SoloRun (i : ℕ) (n : C.N) (make : Bool) : Mem C → Pc C → Mem C → Pc C → Type 0 where
    here : {m : Mem C} {p : Pc C} → SoloRun i n make m p m p
    then_move :
        {m m' m'' : Mem C} {p p' p'' : Pc C}
        → Move C i n make m p m' p'
        → SoloRun i n make m' p' m'' p''
        → SoloRun i n make m p m'' p''

  -- A task has returned this result and left this state, with the lock let go of.
  abbrev pub Ended : Mem C → Pc C → Result ControllerError C.K × C.S → Type 0
  Ended m p (r, s) = (m ≡ record { state = s; lock = none }) × (outcome C p ≡ some r)

  module _ (i : ℕ) (n : C.N) (make : Bool) where
    no-Move : {m m' : Mem C} {p p' : Pc C} → returned C p ≡ true → Move C i n make m p m' p' → ⊥
    no-Move h (hit e) = cc
    no-Move h (miss e) = cc
    no-Move h (acquire e) = cc
    no-Move h (hit_again e) = cc
    no-Move h (miss_again e) = cc
    no-Move h (load_some e) = cc
    no-Move h (load_none e) = cc
    no-Move h (load_err e) = cc
    no-Move h (load_panic e) = cc
    no-Move h (create_ok d e) = cc
    no-Move h (create_err d e) = cc
    no-Move h (create_panic d e) = cc
    no-Move h hand = cc
    no-Move h enter = cc

    -- A task that has returned stays so.
    stays :
        {m m' : Mem C} {p p' : Pc C} (out : Result ControllerError C.K × C.S)
        → Ended m p out
        → returned C p ≡ true
        → SoloRun i n make m p m' p'
        → Ended m' p' out
    stays out e h here = e
    stays out e h (then_move mv run) = absurd (no-Move h mv)

    handed_runs :
        (p : C.P) {m m' : Mem C} {p' : Pc C}
        → SoloRun i n make m (handed p) m' p'
        → returned C p' ≡ true
        → Ended m' p' (ok (C.key p), C.insert n p m.state)
    handed_runs p here h = cc
    handed_runs p (then_move enter run) h = stays _ (refl, refl) refl run

    got_runs :
        (p : C.P) {m m' : Mem C} {p' : Pc C}
        → SoloRun i n make m (got p) m' p'
        → returned C p' ≡ true
        → Ended m' p' (ok (C.key p), C.insert n p m.state)
    got_runs p here h = cc
    got_runs p (then_move hand run) h = handed_runs p run h

    after_create-ok :
        (x : Result ControllerError C.P × C.S) (p : C.P)
        → x.0 ≡ ok p
        → after_create C n x ≡ (ok (C.key p), C.insert n p x.1)
    after_create-ok (ok q, s) p e = cc
    after_create-ok (err f, s) p e = cc
    after_create-ok (panic, s) p e = cc

    after_create-err :
        (x : Result ControllerError C.P × C.S) (f : ControllerError)
        → x.0 ≡ err f
        → after_create C n x ≡ (err f, x.1)
    after_create-err (ok q, s) f e = cc
    after_create-err (err g, s) f e = cc
    after_create-err (panic, s) f e = cc

    after_create-panic :
        (x : Result ControllerError C.P × C.S) → x.0 ≡ panic → after_create C n x ≡ (panic, x.1)
    after_create-panic (ok q, s) e = cc
    after_create-panic (err g, s) e = cc
    after_create-panic (panic, s) e = refl

    -- Some id that may be drawn, and the end with it.
    abbrev EndsWith : Mem C → Pc C → (ℕ → Result ControllerError C.K × C.S) → Type 0
    EndsWith m p out = (id : ℕ) × C.IsId id × Ended m p (out id)

    creating_runs :
        {m m' : Mem C} {p' : Pc C}
        → SoloRun i n make m creating m' p'
        → returned C p' ≡ true
        → EndsWith m' p' (λ id. after_create C n (C.create n id m.state))
    creating_runs here h = cc
    creating_runs {m} {m'} {p'} (then_move (create_ok {id} {p} d e) run) h = (
      id,
      d,
      subst (Ended m' p') (sym (after_create-ok (C.create n id m.state) p e)) (got_runs p run h),
    )
    creating_runs {m} {m'} {p'} (then_move (create_err {id} {e = f} d e) run) h = (
      id,
      d,
      subst (Ended m' p') (sym (after_create-err (C.create n id m.state) f e))
          (stays _ (refl, refl) refl run),
    )
    creating_runs {m} {m'} {p'} (then_move (create_panic {id} d e) run) h = (
      id,
      d,
      subst (Ended m' p') (sym (after_create-panic (C.create n id m.state) e))
          (stays _ (refl, refl) refl run),
    )

    module _ (id : ℕ) (drawn : C.IsId id) where
      missing_runs :
          {m m' : Mem C} {p' : Pc C}
          → SoloRun i n make m missing m' p'
          → returned C p' ≡ true
          → EndsWith m' p' (λ id. after_load C n (C.load n make m.state) id m.state)
      missing_runs here h = cc
      missing_runs {m} {m'} {p'} (then_move (load_some {p} e) run) h = (
        id,
        drawn,
        subst (λ r. Ended m' p' (after_load C n r id m.state)) (sym e) (got_runs p run h),
      )
      missing_runs {m} {m'} {p'} (then_move (load_none e) run) h =
          subst (λ r. EndsWith m' p' (λ id. after_load C n r id m.state)) (sym e)
            (creating_runs run h)
      missing_runs {m} {m'} {p'} (then_move (load_err {e = f} e) run) h = (
        id,
        drawn,
        subst (λ r. Ended m' p' (after_load C n r id m.state)) (sym e)
            (stays _ (refl, refl) refl run),
      )
      missing_runs {m} {m'} {p'} (then_move (load_panic e) run) h = (
        id,
        drawn,
        subst (λ r. Ended m' p' (after_load C n r id m.state)) (sym e)
            (stays _ (refl, refl) refl run),
      )

      -- Every run from the lock to a return.
      pub locked_runs :
          {m m' : Mem C} {p' : Pc C}
          → SoloRun i n make m locked m' p'
          → returned C p' ≡ true
          → EndsWith m' p' (λ id. under_lock C n make id m.state)
      locked_runs here h = cc
      locked_runs {m} {m'} {p'} (then_move (hit_again {k} e) run) h = (
        id,
        drawn,
        subst (λ k. Ended m' p' (after_lock C n k make id m.state)) (sym e)
            (stays _ (refl, refl) refl run),
      )
      locked_runs {m} {m'} {p'} (then_move (miss_again e) run) h =
          subst (λ k. EndsWith m' p' (λ id. after_lock C n k make id m.state)) (sym e)
            (missing_runs run h)
