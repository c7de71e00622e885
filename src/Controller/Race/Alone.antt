-- ===== src/Controller/Race/Alone.antt =====
-- A task of stream_controller.rs that has the lock and is not interrupted: the machine does what the
-- function does that runs to its end under the lock.
use concrete.Prelude.{ℕ, suc, ◌≤◌, ◌≡◌, refl, sym, ◌∙◌, ap, subst, Bool, Option, none, some, arith}
use concrete.Prelude.Result.{Result, ok, err, panic}
use concrete.Controller.{ControllerError}
use concrete.Controller.Race.{
  handed, hand, Source, Mem, Pc, locked, missing, creating, got, found, opened, refused, stopped,
  Move, hit_again, miss_again, load_some, load_none, load_err, load_panic, create_ok, create_err,
  create_panic, enter, System, update, Turns, stay, move, outcome,
}

module _ (C : Source) where
  pub Turns-first :
      {name : ℕ → C.N} {make : ℕ → Bool} {s : System C} (i : ℕ) {m : Mem C} {p : Pc C} {n : ℕ}
      {u : System C}
      → Move C i (name i) (make i) s.mem (s.pc i) m p
      → Turns C name make (record { mem = m; pc = update C s.pc i p }) n u
      → Turns C name make s (suc n) u
  Turns-first i mv stay = move stay i mv
  Turns-first i mv (move r j mv') = move (Turns-first i mv r) j mv'

  abbrev pub after_create :
      C.N → Result ControllerError C.P × C.S → Result ControllerError C.K × C.S
  after_create n (ok p, s) = (ok (C.key p), C.insert n p s)
  after_create n (err e, s) = (err e, s)
  after_create n (panic, s) = (panic, s)

  abbrev pub after_load :
      C.N → Result ControllerError (Option C.P) → ℕ → C.S → Result ControllerError C.K × C.S
  after_load n (ok (some p)) id s = (ok (C.key p), C.insert n p s)
  after_load n (ok none) id s = after_create n (C.create n id s)
  after_load n (err e) id s = (err e, s)
  after_load n panic id s = (panic, s)

  abbrev pub after_lock : C.N → Option C.K → Bool → ℕ → C.S → Result ControllerError C.K × C.S
  after_lock n (some k) make id s = (ok k, s)
  after_lock n none make id s = after_load n (C.load n make s) id s

  -- At most `k` moves of task `i` from `t` to its return, with the lock let go of.
  abbrev pub Returns :
      (ℕ → C.N) → (ℕ → Bool) → ℕ → System C → ℕ → Result ControllerError C.K × C.S → Type 0
  Returns name make i t k (r, s) =
      (n : ℕ) × (u : System C) × Turns C name make t n u
      × (n ≤ k)
      × (u.mem ≡ record { state = s; lock = none })
      × (outcome C (u.pc i) ≡ some r)

  module _ (name : ℕ → C.N) (make : ℕ → Bool) (i : ℕ) where
    abbrev target : C.N
    target = name i

    -- One move, and the rest from there.
    then_returns :
        (t : System C) (q : Pc C) {m : Mem C} {p : Pc C} (k : ℕ)
        (out : Result ControllerError C.K × C.S)
        → t.pc i ≡ q
        → Move C i (name i) (make i) t.mem q m p
        → ((u : System C) → u.mem ≡ m → u.pc i ≡ p → Returns name make i u k out)
        → Returns name make i t (suc k) out
    then_returns t q {m} {p} k out e mv rest =
        let here : update C t.pc i p i ≡ p = ground arith in
        let (count, u, turns, few, done, result) =
          rest (record { mem = m; pc = update C t.pc i p }) refl here in
        (
          suc count,
          u,
          Turns-first i (subst (λ x. Move C i (name i) (make i) t.mem x m p) (sym e) mv) turns,
          omega arith,
          done,
          result,
        )

    at_end :
        (r : Result ControllerError C.K) (s : C.S) (p : Pc C) (k : ℕ)
        → outcome C p ≡ some r
        → (u : System C) → u.mem ≡ record { state = s; lock = none }
        → u.pc i ≡ p
        → Returns name make i u k (r, s)
    at_end r s p k result u done e = (0, u, stay, omega arith, done, ap (outcome C) e ∙ result)

    free_at :
        {id : ℕ} {s s' : C.S} {r : Result ControllerError C.P}
        → C.create target id s ≡ (r, s')
        → ◌≡◌ {A = Mem C}
            (record { state = (C.create target id s).1; lock = none })
            (record { state = s'; lock = none })
    free_at c = cc

    more :
        {u : System C} {out : Result ControllerError C.K × C.S}
        → Returns name make i u 2 out
        → Returns name make i u 3 out
    more (target, u, turns, few, done, result) = (target, u, turns, omega arith, done, result)

    entered_at :
        (p : C.P) (s : C.S) (v : System C)
        → v.mem.state ≡ s
        → ◌≡◌ {A = Mem C}
            (record { state = C.insert target p v.mem.state; lock = none })
            (record { state = C.insert target p s; lock = none })
    entered_at p s v same = cc

    entering :
        (p : C.P) (s : C.S) (t : System C)
        → t.mem.state ≡ s
        → t.pc i ≡ got p
        → Returns name make i t 2 (ok (C.key p), C.insert target p s)
    entering p s t same e =
        then_returns t (got p) 1 (ok (C.key p), C.insert target p s) e hand
          (λ v kept there.
            then_returns v (handed p) 0 (ok (C.key p), C.insert target p s) there enter
              (λ u m.
                at_end (ok (C.key p)) (C.insert target p s) (opened p) 0 refl u
                  (m ∙ entered_at p s v (ap (λ x. x.state) kept ∙ same))))

    creating_run :
        (id : ℕ) (t : System C) (r : Result ControllerError C.P) (s : C.S)
        → C.IsId id
        → C.create target id t.mem.state ≡ (r, s)
        → t.pc i ≡ creating
        → Returns name make i t 3 (after_create target (r, s))
    creating_run id t (ok p) s h c e =
        then_returns t creating 2 (after_create target (ok p, s)) e (create_ok h (ap (λ x. x.0) c))
          (λ u m. entering p s u (ap (λ x. x.state) m ∙ ap (λ x. x.1) c))
    creating_run id t (err f) s h c e =
        then_returns t creating 2 (after_create target (err f, s)) e
          (create_err h (ap (λ x. x.0) c))
          (λ u m. at_end (err f) s (refused f) 2 refl u (m ∙ free_at c))
    creating_run id t panic s h c e =
        then_returns t creating 2 (after_create target (panic, s)) e
          (create_panic h (ap (λ x. x.0) c))
          (λ u m. at_end panic s stopped 2 refl u (m ∙ free_at c))

    missing_run :
        (id : ℕ) (t : System C) (r : Result ControllerError (Option C.P))
        → C.IsId id
        → C.load target (make i) t.mem.state ≡ r
        → t.pc i ≡ missing
        → Returns name make i t 4 (after_load target r id t.mem.state)
    missing_run id t (ok (some p)) h l e =
        then_returns t missing 3 (after_load target (ok (some p)) id t.mem.state) e (load_some l)
          (λ u m q. more (entering p t.mem.state u (ap (λ x. x.state) m) q))
    missing_run id t (ok none) h l e =
        then_returns t missing 3 (after_load target (ok none) id t.mem.state) e (load_none l)
          (λ u m.
            creating_run id u (C.create target id t.mem.state).0 (C.create target id t.mem.state).1
              h (ap (λ x. C.create target id x.state) m))
    missing_run id t (err f) h l e =
        then_returns t missing 3 (after_load target (err f) id t.mem.state) e (load_err l)
          (at_end (err f) t.mem.state (refused f) 3 refl)
    missing_run id t panic h l e =
        then_returns t missing 3 (after_load target panic id t.mem.state) e (load_panic l)
          (at_end panic t.mem.state stopped 3 refl)

    locked_run :
        (id : ℕ) (t : System C) (k : Option C.K)
        → C.IsId id
        → C.cached target t.mem.state ≡ k
        → t.pc i ≡ locked
        → Returns name make i t 5 (after_lock target k (make i) id t.mem.state)
    locked_run id t (some k) h c e =
        then_returns t locked 4 (ok k, t.mem.state) e (hit_again c)
          (at_end (ok k) t.mem.state (found k) 4 refl)
    locked_run id t none h c e =
        then_returns t locked 4 (after_lock target none (make i) id t.mem.state) e (miss_again c)
          (λ u m q.
            subst
              (λ (x : Mem C).
                Returns name make i u 4
                  (after_load target (C.load target (make i) x.state) id x.state))
              m (missing_run id u (C.load target (make i) u.mem.state) h refl q))

  -- What task `i` does under the lock, as one function.
  abbrev pub under_lock : C.N → Bool → ℕ → C.S → Result ControllerError C.K × C.S
  under_lock n make id s = after_lock n (C.cached n s) make id s

  pub locked-Returns :
      (name : ℕ → C.N) (make : ℕ → Bool) (i id : ℕ) (t : System C)
      → C.IsId id
      → t.pc i ≡ locked
      → Returns name make i t 5 (under_lock (name i) (make i) id t.mem.state)
  locked-Returns name make i id t h e =
      locked_run name make i id t (C.cached (name i) t.mem.state) h refl e
