-- ===== src/Controller/Race/Safety.antt =====
-- The tasks that look for basins, or streams, in stream_controller.rs: one thing of a name is opened, and
-- every handle is of it.
use concrete.Prelude.{ap, ℕ, ◌≡◌, sym, ◌∙◌, Bool, true, some}
use mathlib.Core.Option.{some-injective}
use concrete.Controller.Race.{
  handed, Source, IsSource, Mem, Pc, start, waiting, locked, missing, creating, got, found, opened,
  refused, stopped, System, Step, act, cancel, other, Reach, handle_key, is_opened,
}
use concrete.Controller.Race.Moves.{Local}
use concrete.Controller.Race.Kept.{Move-Stored}
use concrete.Controller.Race.Invariant.{Agrees, Reach-Inv}

module _ (C : Source) (L : IsSource C) where
  cached_handle :
      (n : C.N) (m : Mem C) (i : ℕ) (p : Pc C) (k : C.K)
      → Local C L n m i p
      → handle_key C p ≡ some k
      → C.cached n m.state ≡ some k
  cached_handle n m i start k l e = cc
  cached_handle n m i waiting k l e = cc
  cached_handle n m i locked k l e = cc
  cached_handle n m i missing k l e = cc
  cached_handle n m i creating k l e = cc
  cached_handle n m i (got p) k l e = cc
  cached_handle n m i (handed p) k l e = cc
  cached_handle n m i (found j) k l e = l ∙ e
  cached_handle n m i (opened p) k l e = l ∙ e
  cached_handle n m i (refused x) k l e = cc
  cached_handle n m i stopped k l e = cc

  module _ {name : ℕ → C.N} {make : ℕ → Bool} {s : C.S} {t : System C} (agrees : Agrees C L s)
      (r : Reach C L name make s t) where
    -- Two tasks at one name that have returned a handle have the same one, by what it is known by; the
    -- cache and the store have it too.
    pub one_handle :
        (i j : ℕ) (a b : C.K)
        → name i ≡ name j
        → handle_key C (t.pc i) ≡ some a
        → handle_key C (t.pc j) ≡ some b
        → (a ≡ b) × (C.cached (name i) t.mem.state ≡ some a) × L.Stored (name i) t.mem.state a
    one_handle i j a b n ea eb =
        let inv = Reach-Inv C L name agrees r in
        let ca = cached_handle (name i) t.mem i (t.pc i) a (inv.local i) ea in
        let cb = cached_handle (name j) t.mem j (t.pc j) b (inv.local j) eb in
        (
          some-injective a b (sym ca ∙ ap (λ x. C.cached x t.mem.state) n ∙ cb),
          ca,
          inv.kept (name i) a ca,
        )

    -- At most one task at a name puts a thing in the cache.
    pub opened_once :
        (i j : ℕ)
        → name i ≡ name j
        → is_opened C (t.pc i) ≡ true
        → is_opened C (t.pc j) ≡ true
        → i ≡ j
    opened_once = (Reach-Inv C L name agrees r).one

    -- What is stored of any name is never replaced.
    pub Step-Stored :
        {u : System C}
        → Step C L name make t u
        → (n : C.N) (k : C.K) → L.Stored n t.mem.state k
        → L.Stored n u.mem.state k
    Step-Stored (act i mv) n k e = Move-Stored C L ((Reach-Inv C L name agrees r).local i) mv n k e
    Step-Stored (cancel i h) n k e = e
    Step-Stored (other state ca up down) n k e = up n k e
