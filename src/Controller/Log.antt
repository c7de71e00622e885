-- ===== src/Controller/Log.antt =====
-- What the actor of a stream promises, without blocks, keys and bytes: a log of payloads by number,
-- and what each command may do to it.
pub mod Represents
pub mod Refines
pub mod Replies
pub mod Readers
pub mod Start
mod Tests
use concrete.Prelude.{ℕ, ◌+◌, ◌≤◌, ◌<◌, ◌≡◌, Option, none, some, List, [], ◌∷◌, ◌==◌, if◌then◌else◌}
use mathlib.Core.Option
use concrete.Prelude.Result.{Result, ok, err}
use concrete.Bytes.{Bytes}
use concrete.Error.{StreamError}
use concrete.Record.{Record}
use concrete.Stream.{AppendResult}
use concrete.Controller.Actor.{
  StreamCommand, append, read, subscribe, Reply, append_reply, read_reply, subscribe_reply,
}

pub record Log : Type 0 where
  pub entries : ℕ → Option Bytes
  pub next : ℕ

abbrev pub empty_log : Log
empty_log = record { entries = λ n. none; next = 0 }

-- The record of a number.
abbrev pub record_at : Log → ℕ → Option Record
record_at l n = Option.map (λ payload. record { seq_num = n; payload = payload }) (l.entries n)

-- The next number is taken, with and without a record.
abbrev pub entered : Log → Bytes → Log
entered l payload = record {
  entries = λ n. if l.next == n then some payload else l.entries n;
  next = l.next + 1;
}

abbrev pub skipped : Log → Log
skipped l = record l { next = l.next + 1 }

-- A command, what it is answered, and the log after it. An append that fails may have written.
pub data LogStep (l : Log) : StreamCommand → Option Reply → Log → Type 0 where
  acknowledged :
      {payload : Bytes} {result : AppendResult}
      → result ≡ record {
        stored = record { seq_num = l.next; payload = payload };
        next_seq_num = l.next + 1;
      }
      → LogStep l (append payload) (some (append_reply (ok result))) (entered l payload)
  written :
      {payload : Bytes} {e : StreamError}
      → LogStep l (append payload) (some (append_reply (err e))) (entered l payload)
  unwritten :
      {payload : Bytes} {e : StreamError}
      → LogStep l (append payload) (some (append_reply (err e))) (skipped l)
  found :
      {n : ℕ} {x : Option Record}
      → x ≡ record_at l n
      → LogStep l (read n) (some (read_reply (ok x))) l
  unread : {n : ℕ} {e : StreamError} → LogStep l (read n) (some (read_reply (err e))) l
  subscribed :
      {receiver next : ℕ}
      → next ≡ l.next
      → LogStep l subscribe
          (some (subscribe_reply (record { receiver = receiver; next_seq_num = next })))
          l

-- A run of commands with their replies.
pub data LogRun : Log → List StreamCommand → List (Option Reply) → Log → Type 0 where
  done : {l : Log} → LogRun l [] [] l
  step :
      {l l' l'' : Log} {c : StreamCommand} {r : Option Reply} {commands : List StreamCommand}
      {replies : List (Option Reply)}
      → LogStep l c r l'
      → LogRun l' commands replies l''
      → LogRun l (c ∷ commands) (r ∷ replies) l''
