-- ===== src/Controller/Log/Replies.antt =====
-- What the replies of a run say of the log before it and after it.
use concrete.Prelude.{
  ◌⊎◌, ℕ, ◌≤◌, ◌<◌, ◌≡◌, refl, ◌∙◌, inl, inr, Option, some, List, [], ◌∷◌, All, arith,
}
use concrete.Prelude.Result.{ok, ok-injective}
use concrete.Bytes.{Bytes}
use concrete.Record.{Record}
use concrete.Controller.Actor.{StreamCommand, append, read, subscribe, Reply, read_outcome}
use concrete.Controller.Actor.Run.{all_acknowledged}
use concrete.Controller.Log.{
  Log, record_at, entered, LogStep, acknowledged, written, unwritten, found, unread, subscribed,
  LogRun, done, step,
}

-- Some read of `n` in the run is answered with `x`.
abbrev pub Answers : ℕ → Option Record → List StreamCommand → List (Option Reply) → Type 0
Answers n x [] replies = ⊥
Answers n x (c ∷ commands) [] = ⊥
Answers n x (read k ∷ commands) (r ∷ replies) =
    ((k ≡ n) × (read_outcome r ≡ ok x)) ⊎ Answers n x commands replies
Answers n x (append payload ∷ commands) (r ∷ replies) = Answers n x commands replies
Answers n x (subscribe ∷ commands) (r ∷ replies) = Answers n x commands replies

-- A step keeps the entries before the next number, and moves it on by one at most.
record Extends (l l' : Log) : Type 0 where
  forward : l.next ≤ l'.next
  keeps : (n : ℕ) → n < l.next → record_at l' n ≡ record_at l n

entered-Extends : (l : Log) (payload : Bytes) → Extends l (entered l payload)
entered-Extends l payload = record { forward = omega arith; keeps = λ n lt. ground arith }

LogStep-Extends :
    {l l' : Log} {c : StreamCommand} {r : Option Reply} → LogStep l c r l' → Extends l l'
LogStep-Extends {l} (acknowledged {payload} e) = entered-Extends l payload
LogStep-Extends {l} (written {payload}) = entered-Extends l payload
LogStep-Extends unwritten = record { forward = omega arith; keeps = λ n lt. refl }
LogStep-Extends (found e) = record { forward = omega arith; keeps = λ n lt. refl }
LogStep-Extends unread = record { forward = omega arith; keeps = λ n lt. refl }
LogStep-Extends (subscribed e) = record { forward = omega arith; keeps = λ n lt. refl }

LogRun-Extends :
    {l l' : Log} {commands : List StreamCommand} {replies : List (Option Reply)}
    → LogRun l commands replies l'
    → Extends l l'
LogRun-Extends done = record { forward = omega arith; keeps = λ n lt. refl }
LogRun-Extends (step s run) =
    let one = LogStep-Extends s in
    let rest = LogRun-Extends run in
    record {
      forward = omega (arith, one.forward, rest.forward);
      keeps = λ n lt. rest.keeps n (omega (arith, one.forward)) ∙ one.keeps n lt;
    }

-- A number in front of the next one is answered as the log before the run has it.
pub LogRun-Answers :
    {l l' : Log} {commands : List StreamCommand} {replies : List (Option Reply)} (n : ℕ)
    → LogRun l commands replies l'
    → n < l.next
    → (x : Option Record) → Answers n x commands replies
    → x ≡ record_at l n
LogRun-Answers n done lt x e = absurd e
LogRun-Answers n (step {l} (acknowledged {payload} same) run) lt x e =
    LogRun-Answers n run (omega arith) x e ∙ (entered-Extends l payload).keeps n lt
LogRun-Answers n (step {l} (written {payload}) run) lt x e =
    LogRun-Answers n run (omega arith) x e ∙ (entered-Extends l payload).keeps n lt
LogRun-Answers n (step unwritten run) lt x e = LogRun-Answers n run (omega arith) x e
LogRun-Answers n (step (subscribed same) run) lt x e = LogRun-Answers n run lt x e
LogRun-Answers n (step (found {n = k} {x = y} same) run) lt x (inl (at, e)) =
    ground (arith, ok-injective y x e, same, at)
LogRun-Answers n (step (found same) run) lt x (inr e) = LogRun-Answers n run lt x e
LogRun-Answers n (step unread run) lt x (inl (at, e)) = absurd (ground (arith, e))
LogRun-Answers n (step unread run) lt x (inr e) = LogRun-Answers n run lt x e

-- A record is in the log at its number.
abbrev pub HasRecord : Log → Record → Type 0
HasRecord l r = (r.seq_num < l.next) × (record_at l r.seq_num ≡ some r)

HasRecord-Extends : {l l' : Log} (r : Record) → Extends l l' → HasRecord l r → HasRecord l' r
HasRecord-Extends r x h = (omega (arith, x.forward, h.0), x.keeps r.seq_num h.0 ∙ h.1)

-- The records that are acknowledged are in the log at the end.
pub LogRun-acknowledged :
    {l l' : Log} {commands : List StreamCommand} {replies : List (Option Reply)}
    → LogRun l commands replies l'
    → All (HasRecord l') (all_acknowledged replies)
LogRun-acknowledged done = tt
LogRun-acknowledged (step {l} (acknowledged {payload} {result} same) run) = (
  HasRecord-Extends result.stored (LogRun-Extends run) (ground (arith, same)),
  LogRun-acknowledged run,
)
LogRun-acknowledged (step written run) = LogRun-acknowledged run
LogRun-acknowledged (step unwritten run) = LogRun-acknowledged run
LogRun-acknowledged (step (found same) run) = LogRun-acknowledged run
LogRun-acknowledged (step unread run) = LogRun-acknowledged run
LogRun-acknowledged (step (subscribed same) run) = LogRun-acknowledged run

pub LogRun-keeps :
    {l l' : Log} {commands : List StreamCommand} {replies : List (Option Reply)} (r : Record)
    → LogRun l commands replies l'
    → HasRecord l r
    → HasRecord l' r
LogRun-keeps r run h = HasRecord-Extends r (LogRun-Extends run) h
