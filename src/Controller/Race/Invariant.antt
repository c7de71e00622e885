-- ===== src/Controller/Race/Invariant.antt =====
-- What holds of every reachable state of the tasks: who has the lock, what the cache and the store
-- have, and what each task knows of them.
use concrete.Prelude.{
  ap, ℕ, ◌≡◌, ◌≢◌, refl, sym, ◌∙◌, Bool, true, false, none, some, ◌==◌, arith, Bool-cases, inl, inr,
  subst, ==_iff,
}
use mathlib.Core.Option.{some-injective, some-ne-none}
use concrete.Controller.Race.{
  handed, Source, IsSource, Mem, Pc, start, waiting, locked, missing, creating, got, found, opened,
  refused, is_opened, stopped, Move, System, update, Step, act, cancel, other, Reach, begin, later,
  holds, free,
}
use concrete.Controller.Race.Moves.{
  Local, owns, frame, Move-Local, Move-others, Move-owner, Move-opened,
}
use concrete.Controller.Race.Kept.{Move-kept}

module _ (C : Source) (L : IsSource C) where
  differs : {i j : ℕ} → i == j ≡ false → i ≢ j
  differs e same = ground arith

  -- A property of each task, once task `i` has gone to `p`.
  updated :
      (P : ℕ → Pc C → Type 0) (pc : ℕ → Pc C) (i : ℕ) (p : Pc C)
      → P i p
      → ((j : ℕ) → i ≢ j → P j (pc j))
      → (j : ℕ) → P j (update C pc i p j)
  updated P pc i p here there j = elim (Bool-cases (i == j)) [
    | inl e ↦
        let same : i ≡ j = (==_iff i j).0 e in
        let moved : update C pc i p j ≡ p = ground (arith, e) in
        subst (P j) (sym moved) (subst (λ n. P n p) same here)
    | inr e ↦
        let kept : update C pc i p j ≡ pc j = ground (arith, e) in
        subst (P j) (sym kept) (there j (differs e))
  ]

  -- Where nothing is in the cache, no task has put anything there.
  unopened :
      (n : C.N) (m : Mem C) (i : ℕ) (p : Pc C)
      → Local C L n m i p
      → C.cached n m.state ≡ none
      → is_opened C p ≡ true
      → ⊥
  unopened n m i (opened p) l e o = some-ne-none (C.key p) (sym l ∙ e)
  unopened n m i start l e o = cc
  unopened n m i waiting l e o = cc
  unopened n m i locked l e o = cc
  unopened n m i missing l e o = cc
  unopened n m i creating l e o = cc
  unopened n m i (got p) l e o = cc
  unopened n m i (handed p) l e o = cc
  unopened n m i (found k) l e o = cc
  unopened n m i (refused x) l e o = cc
  unopened n m i stopped l e o = cc

  -- What leaves the cache and the store of the name leaves what a task knows.
  outside :
      (n : C.N) (m m' : Mem C) (i : ℕ) (p : Pc C)
      → m'.lock ≡ m.lock
      → C.cached n m'.state ≡ C.cached n m.state
      → ((k : C.K) → L.Stored n m.state k → L.Stored n m'.state k)
      → ((k : C.K) → L.Stored n m'.state k → L.Stored n m.state k)
      → Local C L n m i p
      → Local C L n m' i p
  outside n m m' i start lk ca up down l = tt
  outside n m m' i waiting lk ca up down l = tt
  outside n m m' i locked lk ca up down l = lk ∙ l
  outside n m m' i missing lk ca up down l = (lk ∙ l.0, ca ∙ l.1)
  outside n m m' i creating lk ca up down l = (lk ∙ l.0, ca ∙ l.1, λ k e. l.2 k (down k e))
  outside n m m' i (got p) lk ca up down l = (lk ∙ l.0, ca ∙ l.1, up (C.key p) l.2)
  outside n m m' i (handed p) lk ca up down l = (lk ∙ l.0, ca ∙ l.1, up (C.key p) l.2)
  outside n m m' i (found k) lk ca up down l = ca ∙ l
  outside n m m' i (opened p) lk ca up down l = ca ∙ l
  outside n m m' i (refused e) lk ca up down l = tt
  outside n m m' i stopped lk ca up down l = tt

  -- The cache and the store agree when the tasks start.
  abbrev pub Agrees : C.S → Type 0
  Agrees s = (n : C.N) (k : C.K) → C.cached n s ≡ some k → L.Stored n s k

  module _ (name : ℕ → C.N) where
    pub record Inv (s : System C) : Type 0 where
      pub local : (i : ℕ) → Local C L (name i) s.mem i (s.pc i)
      pub owner : (i : ℕ) → s.mem.lock ≡ some i → holds C (s.pc i) ≡ true
      pub kept : Agrees s.mem.state
      pub one :
          (i j : ℕ)
          → name i ≡ name j
          → is_opened C (s.pc i) ≡ true
          → is_opened C (s.pc j) ≡ true
          → i ≡ j

    -- At most one task of a name has opened, if that is so before and a task opens only if none has.
    one_opened :
        (s : System C) (i : ℕ) (p : Pc C)
        → ((j : ℕ) → name i ≡ name j → is_opened C p ≡ true → is_opened C (s.pc j) ≡ true → ⊥)
        → Inv s
        → (j k : ℕ) → name j ≡ name k
        → is_opened C (update C s.pc i p j) ≡ true
        → is_opened C (update C s.pc i p k) ≡ true
        → j ≡ k
    one_opened s i p alone inv j k =
        updated
          (λ j q.
            name j ≡ name k
            → is_opened C q ≡ true
            → is_opened C (update C s.pc i p k) ≡ true
            → j ≡ k)
          s.pc i p
          (updated (λ k q. name i ≡ name k → is_opened C p ≡ true → is_opened C q ≡ true → i ≡ k)
            s.pc i p (λ n a b. refl) (λ k d n a b. absurd (alone k n a b)) k)
          (λ j d.
            updated
              (λ k q. name j ≡ name k → is_opened C (s.pc j) ≡ true → is_opened C q ≡ true → j ≡ k)
              s.pc i p (λ n a b. absurd (alone j (sym n) b a)) (λ k d n a b. inv.one j k n a b) k)
          j

    pub act-Inv :
        (make : ℕ → Bool) (s : System C) (i : ℕ) (m : Mem C) (p : Pc C)
        → Inv s
        → Move C i (name i) (make i) s.mem (s.pc i) m p
        → Inv (record { mem = m; pc = update C s.pc i p })
    act-Inv make s i m p inv mv = record {
      local =
          updated (λ j. Local C L (name j) m j) s.pc i p (Move-Local C L (inv.local i) mv)
            (λ j d. Move-others C L (inv.local i) mv j (name j) (s.pc j) d (inv.local j));
      owner =
          updated (λ j q. m.lock ≡ some j → holds C q ≡ true) s.pc i p owned.0
            (λ j d e. inv.owner j (owned.1 j d e));
      kept = Move-kept C L (inv.local i) inv.kept mv;
      one = one_opened s i p alone inv;
    }
      where
        owned :
            (m.lock ≡ some i → holds C p ≡ true)
            × ((j : ℕ) → i ≢ j → m.lock ≡ some j → s.mem.lock ≡ some j)
        owned = Move-owner C L (inv.owner i) mv

        alone : (j : ℕ) → name i ≡ name j → is_opened C p ≡ true → is_opened C (s.pc j) ≡ true → ⊥
        alone j n a b =
            unopened (name j) s.mem j (s.pc j) (inv.local j)
              (ap (λ x. C.cached x s.mem.state) (sym n) ∙ Move-opened C L (inv.local i) mv a) b

    cancel-Inv :
        (s : System C) (i : ℕ)
        → Inv s
        → holds C (s.pc i) ≡ true
        → Inv (record { mem = free C s.mem; pc = update C s.pc i stopped })
    cancel-Inv s i inv h = record {
      local =
          updated (λ j. Local C L (name j) (free C s.mem) j) s.pc i stopped tt
            (λ j d.
              frame C L (name j) s.mem (free C s.mem) j (s.pc j)
                (λ held. d (some-injective i j (sym lock ∙ held))) (λ k e. e) (inv.local j));
      owner = λ j e. absurd (some-ne-none j (sym e));
      kept = inv.kept;
      one = one_opened s i stopped (λ j n a b. cc) inv;
    }
      where
        lock : s.mem.lock ≡ some i
        lock = owns C L (name i) s.mem i (s.pc i) (inv.local i) h

    Step-Inv : {make : ℕ → Bool} {s t : System C} → Step C L name make s t → Inv s → Inv t
    Step-Inv {make} {s} (act i {m} {p} mv) inv = act-Inv make s i m p inv mv
    Step-Inv {make} {s} (cancel i h) inv = cancel-Inv s i inv h
    Step-Inv {make} {s} (other state ca up down) inv = record {
      local = λ i.
          outside (name i) s.mem _ i (s.pc i) refl (ca (name i)) (up (name i)) (down (name i))
            (inv.local i);
      owner = inv.owner;
      kept = λ n k e. up n k (inv.kept n k (sym (ca n) ∙ e));
      one = inv.one;
    }

    pub Reach-Inv :
        {make : ℕ → Bool} {s : C.S} {t : System C} → Agrees s → Reach C L name make s t → Inv t
    Reach-Inv agrees begin = record {
      local = λ i. tt;
      owner = λ i e. absurd (some-ne-none i (sym e));
      kept = agrees;
      one = λ i j n a b. cc;
    }
    Reach-Inv agrees (later r st) = Step-Inv st (Reach-Inv agrees r)
