-- ===== src/Controller/Race/Progress.antt =====
-- The tasks that look for basins, or streams, in stream_controller.rs: none waits forever.
use concrete.Prelude.{
  ℕ, zero, suc, ◌+◌, ◌*◌, ◌≤◌, ◌<◌, ◌==◌, if◌then◌else◌, ◌≡◌, refl, sym, ◌≢◌, ◌⊎◌, inl, inr, Bool,
  true, false, none, some, arith, Option-cases, Bool-cases, subst, ltb, ltb→lt, ==_iff,
}
use concrete.Prelude.Result.{Result-cases}
use concrete.Controller.Race.{
  handed, hand, Source, IsSource, Mem, Pc, start, waiting, locked, missing, creating, got, found,
  opened, refused, stopped, Move, hit, miss, acquire, hit_again, miss_again, load_some, load_none,
  load_err, load_panic, create_ok, create_err, create_panic, enter, System, Reach, holds, returned,
  rank, update, Turns, stay,
}
use concrete.Controller.Race.Alone.{Turns-first}
use concrete.Controller.Race.Invariant.{Inv, Agrees, Reach-Inv, act-Inv}

module _ (C : Source) (L : IsSource C) where
  -- A move of task `i` from `p` that brings it nearer to its return.
  pub record Nearer (i : ℕ) (n : C.N) (make : Bool) (m : Mem C) (p : Pc C) : Type 0 where
    pub mem : Mem C
    pub pc : Pc C
    pub moves : Move C i n make m p mem pc
    pub less : rank C pc < rank C p

  own_move :
      (i : ℕ) (n : C.N) (make : Bool) (m : Mem C) (p : Pc C)
      → (m.lock ≡ none) ⊎ (holds C p ≡ true)
      → returned C p ≡ false
      → Nearer i n make m p
  own_move i n make m start h e = elim (Option-cases (C.cached n m.state)) [
    | inl none_there ↦ record { mem = m; pc = waiting; moves = miss none_there; less = omega arith }
    | inr (k, there) ↦ record { mem = m; pc = found k; moves = hit there; less = omega arith }
  ]
  own_move i n make m waiting (inl free) e = record {
    mem = _;
    pc = locked;
    moves = acquire free;
    less = omega arith;
  }
  own_move i n make m waiting (inr held) e = cc
  own_move i n make m locked h e = elim (Option-cases (C.cached n m.state)) [
    | inl none_there ↦ record {
      mem = m;
      pc = missing;
      moves = miss_again none_there;
      less = omega arith;
    }
    | inr (k, there) ↦ record { mem = _; pc = found k; moves = hit_again there; less = omega arith }
  ]
  own_move i n make m missing h e = elim (Result-cases (C.load n make m.state)) [
    | inl (some p, done) ↦ record {
      mem = m;
      pc = got p;
      moves = load_some done;
      less = omega arith;
    }
    | inl (none, done) ↦ record {
      mem = m;
      pc = creating;
      moves = load_none done;
      less = omega arith;
    }
    | inr (inl (x, failed)) ↦ record {
      mem = _;
      pc = refused x;
      moves = load_err failed;
      less = omega arith;
    }
    | inr (inr gone) ↦ record { mem = _; pc = stopped; moves = load_panic gone; less = omega arith }
  ]
  own_move i n make m creating h e = elim (Result-cases (C.create n 0 m.state).0) [
    | inl (p, done) ↦ record {
      mem = _;
      pc = got p;
      moves = create_ok L.zero_id done;
      less = omega arith;
    }
    | inr (inl (x, failed)) ↦ record {
      mem = _;
      pc = refused x;
      moves = create_err L.zero_id failed;
      less = omega arith;
    }
    | inr (inr gone) ↦ record {
      mem = _;
      pc = stopped;
      moves = create_panic L.zero_id gone;
      less = omega arith;
    }
  ]
  own_move i n make m (got p) h e = record {
    mem = m;
    pc = handed p;
    moves = hand;
    less = omega arith;
  }
  own_move i n make m (handed p) h e = record {
    mem = _;
    pc = opened p;
    moves = enter;
    less = omega arith;
  }
  own_move i n make m (found k) h e = cc
  own_move i n make m (opened p) h e = cc
  own_move i n make m (refused x) h e = cc
  own_move i n make m stopped h e = cc

  rank-le : (p : Pc C) → rank C p ≤ 7
  rank-le p = ground arith

  rank-returned : (p : Pc C) → returned C p ≡ false → 0 < rank C p
  rank-returned p e = ground arith

  holds-returned : (p : Pc C) → holds C p ≡ true → (returned C p ≡ false) × (p ≢ start)
  holds-returned start h = cc
  holds-returned waiting h = cc
  holds-returned locked h = (refl, λ e. cc)
  holds-returned missing h = (refl, λ e. cc)
  holds-returned creating h = (refl, λ e. cc)
  holds-returned (got p) h = (refl, λ e. cc)
  holds-returned (handed p) h = (refl, λ e. cc)
  holds-returned (found k) h = cc
  holds-returned (opened p) h = cc
  holds-returned (refused x) h = cc
  holds-returned stopped h = cc

  progress :
      (name : ℕ → C.N) (make : ℕ → Bool) (t : System C)
      → Inv C L name t
      → (i : ℕ) → returned C (t.pc i) ≡ false
      → (j : ℕ) × ((j ≡ i) ⊎ (t.mem.lock ≡ some j)) × Nearer j (name j) (make j) t.mem (t.pc j)
  progress name make t inv i e = elim (Option-cases t.mem.lock) [
    | inl free ↦ (i, inl refl, own_move i (name i) (make i) t.mem (t.pc i) (inl free) e)
    | inr (j, held) ↦
        let h = inv.owner j held in
        (
          j,
          inr held,
          own_move j (name j) (make j) t.mem (t.pc j) (inr h) (holds-returned (t.pc j) h).0,
        )
  ]

  -- No deadlock: if a task has not returned, it has a move that brings it nearer to its return, or else
  -- the task that has the lock does.
  pub no_deadlock :
      {name : ℕ → C.N} {make : ℕ → Bool} {s : C.S} {t : System C}
      → Agrees C L s
      → Reach C L name make s t
      → (i : ℕ) → returned C (t.pc i) ≡ false
      → (j : ℕ) × ((j ≡ i) ⊎ (t.mem.lock ≡ some j)) × Nearer j (name j) (make j) t.mem (t.pc j)
  no_deadlock {name} {make} {t} agrees r = progress name make t (Reach-Inv C L name agrees r)

  abbrev total : (ℕ → Pc C) → ℕ → ℕ
  total pc zero = 0
  total pc (suc n) = rank C (pc n) + total pc n

  total-update :
      (pc : ℕ → Pc C) (i : ℕ) (p : Pc C) (n : ℕ)
      → total (update C pc i p) n + (if ltb i n then rank C (pc i) else 0)
        ≡ total pc n + (if ltb i n then rank C p else 0)
  total-update pc i p zero = ground arith
  total-update pc i p (suc n) = grind (arith, total-update pc i p n)

  total-le : (pc : ℕ → Pc C) (n : ℕ) → total pc n ≤ 7 * n
  total-le pc zero = omega arith
  total-le pc (suc n) = grind (arith, total-le pc n, rank-le (pc n))

  none_below : (i : ℕ) → i < 0 → ⊥
  none_below i lt = omega arith

  find_busy :
      (pc : ℕ → Pc C) (n : ℕ)
      → ((i : ℕ) → i < n → returned C (pc i) ≡ true)
        ⊎ ((i : ℕ) × (i < n) × (returned C (pc i) ≡ false))
  find_busy pc zero = inl (λ i lt. absurd (none_below i lt))
  find_busy pc (suc n) = elim (find_busy pc n) [
    | inr (i, lt, e) ↦ inr (i, omega arith, e)
    | inl before ↦ elim (Bool-cases (returned C (pc n))) [
      | inr e ↦ inr (n, omega arith, e)
      | inl e ↦ inl (λ i lt. elim (Bool-cases (i == n)) [
        | inl same ↦ subst (λ k. returned C (pc k) ≡ true) (sym ((==_iff i n).0 same)) e
        | inr differs ↦ before i (ground (arith, differs))
      ])
    ]
  ]

  -- From `t`, at most `k` moves of tasks to a state in which the first `n` tasks have returned.
  abbrev pub AllReturn : (ℕ → C.N) → (ℕ → Bool) → System C → ℕ → ℕ → Type 0
  AllReturn name make t n k =
      (moves : ℕ) × (u : System C) × Turns C name make t moves u
      × (moves ≤ k)
      × ((i : ℕ) → i < n → returned C (u.pc i) ≡ true)

  total-less :
      (pc : ℕ → Pc C) (j : ℕ) (p : Pc C) (n : ℕ)
      → j < n
      → rank C p < rank C (pc j)
      → total (update C pc j p) n < total pc n
  total-less pc j p n lt less = grind (arith, total-update pc j p n)

  -- The task that moves is one of the first `n`.
  among :
      (name : ℕ → C.N) (t : System C) (n i j : ℕ)
      → Inv C L name t
      → ((j : ℕ) → n ≤ j → t.pc j ≡ start)
      → i < n
      → (j ≡ i) ⊎ (t.mem.lock ≡ some j)
      → j < n
  among name t n i j inv idle lt (inl same) = omega arith
  among name t n i j inv idle lt (inr held) = elim (Bool-cases (ltb j n)) [
    | inl e ↦ ltb→lt j n e
    | inr e ↦ absurd ((holds-returned (t.pc j) (inv.owner j held)).1 (idle j (ground (arith, e))))
  ]

  still_idle :
      (pc : ℕ → Pc C) (n j : ℕ) (p : Pc C)
      → j < n
      → ((k : ℕ) → n ≤ k → pc k ≡ start)
      → (k : ℕ) → n ≤ k
      → update C pc j p k ≡ start
  still_idle pc n j p lt idle k le = ground (arith, idle k le)

  finish :
      (name : ℕ → C.N) (make : ℕ → Bool) (n f : ℕ) (t : System C)
      → Inv C L name t
      → ((j : ℕ) → n ≤ j → t.pc j ≡ start)
      → total t.pc n ≤ f
      → AllReturn name make t n f
  finish name make n zero t inv idle le = elim (find_busy t.pc n) [
    | inl done ↦ (0, t, stay, omega arith, done)
    | inr (i, lt, e) ↦
        let (j, who, near) = progress name make t inv i e in
        let less = total-less t.pc j near.pc n (among name t n i j inv idle lt who) near.less in
        absurd (none_below (total (update C t.pc j near.pc) n) (omega arith))
  ]
  finish name make n (suc f) t inv idle le = elim (find_busy t.pc n) [
    | inl done ↦ (0, t, stay, omega arith, done)
    | inr (i, lt, e) ↦
        let (j, who, near) = progress name make t inv i e in
        let below = among name t n i j inv idle lt who in
        let less = total-less t.pc j near.pc n below near.less in
        let (moves, u, turns, few, done) =
          finish name make n f (record { mem = near.mem; pc = update C t.pc j near.pc })
            (act-Inv C L name make t j near.mem near.pc inv near.moves)
            (still_idle t.pc n j near.pc below idle) (omega arith) in
        (suc moves, u, Turns-first C j near.moves turns, omega arith, done)
  ]

  -- From every reachable state in which tasks from `n` on have not started, at most 7 n moves bring all of the
  -- first `n` tasks to their return.
  pub all_return :
      {name : ℕ → C.N} {make : ℕ → Bool} {s : C.S} {t : System C}
      → Agrees C L s
      → Reach C L name make s t
      → (n : ℕ) → ((j : ℕ) → n ≤ j → t.pc j ≡ start)
      → AllReturn name make t n (7 * n)
  all_return {name} {make} {t} agrees r n idle =
      finish name make n (7 * n) t (Reach-Inv C L name agrees r) idle (total-le t.pc n)
