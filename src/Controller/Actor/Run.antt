-- ===== src/Controller/Actor/Run.antt =====
-- What the actor of a stream does over a run of commands: it numbers the appends in the order in
-- which they arrive, and broadcasts those that it acknowledges.
use concrete.Prelude.{
  ℕ, ◌+◌, ◌*◌, ◌≤◌, ◌<◌, ◌≡◌, refl, sym, ap, ◌∙◌, inl, inr, Option, none, some, Option-cases, List,
  [], ◌∷◌, ◌++◌, append-nil, append_assoc, All, arith, subst,
}
use concrete.Prelude.Lists.{All-append}
use concrete.Prelude.Result.{Result, ok, err, panic, map_ok, map_err}
use concrete.Bytes.{Bytes, Buffers}
use concrete.Storage.Error.{StorageError}
use concrete.Storage.Interface.{Storage, WriteResult}
use concrete.Sequence.{u64_mod}
use concrete.Sequence.Allocate.{IsValid-advanced, next-advanced, size-advanced}
use concrete.Error.{StreamError, storage_error}
use concrete.Record.{Record}
use concrete.Stream
use concrete.Stream.{Stream, AppendResult, next_seq_num}
use concrete.Stream.Append.{IsReady, appended, next_record, append-eq, batch_of}
use concrete.Controller.Actor.{
  StreamActor, StreamCommand, append, read, subscribe, Reply, append_reply, read_reply, handle, run,
  survives, answered, broadcast,
}
use mathlib.Core.Option.{some-injective, some-ne-none}
use concrete.Controller.Follow.Complete.{IsAscendingFrom, IsAscendingFrom-append}

-- The number of appends among the commands.
abbrev pub cost : StreamCommand → ℕ
cost (append payload) = 1
cost (read n) = 0
cost subscribe = 0

abbrev pub appends : List StreamCommand → ℕ
appends [] = 0
appends (c ∷ commands) = cost c + appends commands

-- The records that the replies acknowledge.
abbrev pub acknowledged : Option Reply → List Record
acknowledged (some (append_reply (ok result))) = result.stored ∷ []
acknowledged _ = []

abbrev pub all_acknowledged : List (Option Reply) → List Record
all_acknowledged [] = []
all_acknowledged (r ∷ replies) = acknowledged r ++ all_acknowledged replies

abbrev block_size_of : StreamActor → ℕ
block_size_of a = a.stream.sequence_number_allocator.current_block.block_size

-- `count` numbers and two blocks behind them fit a `u64`.
abbrev pub HasRoomFor : ℕ → StreamActor → Type 0
HasRoomFor count a = next_seq_num a.stream + count + 2 * block_size_of a < u64_mod

-- From `a` to `a'`, `count` numbers are taken and `rs` is broadcast.
pub record Moved (a : StreamActor) (count : ℕ) (rs : List Record) (a' : StreamActor) : Type 0 where
  pub ready : IsReady a'.stream
  pub metadata : a'.stream.metadata ≡ a.stream.metadata
  pub next : next_seq_num a'.stream ≡ next_seq_num a.stream + count
  pub size : block_size_of a' ≡ block_size_of a
  pub sent : a'.broadcaster ≡ a.broadcaster ++ rs
  pub ascending : IsAscendingFrom (next_seq_num a.stream) rs
  pub below : All (λ (r : Record). r.seq_num < next_seq_num a'.stream) rs

pub Moved-here : (a : StreamActor) → IsReady a.stream → Moved a 0 [] a
Moved-here a h = record {
  ready = h;
  metadata = refl;
  next = omega arith;
  size = refl;
  sent = sym (append-nil a.broadcaster);
  ascending = tt;
  below = tt;
}

All-weaken :
    (m n : ℕ) (rs : List Record)
    → m ≤ n
    → All (λ (r : Record). r.seq_num < m) rs
    → All (λ (r : Record). r.seq_num < n) rs
All-weaken m n [] h a = tt
All-weaken m n (r ∷ rs) h a = (omega (arith, a.0), All-weaken m n rs h a.1)

Moved-then :
    {a : StreamActor} {m : ℕ} {rs : List Record} {a' : StreamActor} {n : ℕ} {ss : List Record}
    {a'' : StreamActor}
    → Moved a m rs a'
    → Moved a' n ss a''
    → Moved a (m + n) (rs ++ ss) a''
Moved-then {a} {m} {rs} {a'} {n} {ss} {a''} x y = record {
  ready = y.ready;
  metadata = y.metadata ∙ x.metadata;
  next = omega (arith, x.next, y.next);
  size = y.size ∙ x.size;
  sent = y.sent ∙ ap (λ l. l ++ ss) x.sent ∙ append_assoc a.broadcaster rs ss;
  ascending =
      IsAscendingFrom-append (next_seq_num a.stream) (next_seq_num a'.stream) rs ss
        (omega (arith, x.next)) x.ascending x.below y.ascending;
  below = All-append _ rs ss (All-weaken _ _ rs (omega (arith, y.next)) x.below) y.below;
}

module _ ⦃b : Buffers⦄ (R : Storage) where
  pub appended-IsReady :
      (a : StreamActor) → IsReady a.stream → HasRoomFor 1 a → IsReady (appended a.stream)
  appended-IsReady a h room = record {
    basin = h.basin;
    stream = h.stream;
    allocator =
        IsValid-advanced 1 a.stream.sequence_number_allocator h.allocator h.allocator.size room;
  }

  -- An append whose write ended as `written` did.
  append-Moved :
      (a : StreamActor) (payload : Bytes) (written : Result StorageError WriteResult)
      (a' : StreamActor)
      → IsReady a.stream
      → HasRoomFor 1 a
      → (let result : Result StreamError AppendResult =
            map_ok
              (λ _. record {
                stored = next_record a.stream payload;
                next_seq_num = next_seq_num (appended a.stream);
              })
              (map_err storage_error written) in
          survives result
              (record { stream = appended a.stream; broadcaster = broadcast result a.broadcaster })
            ≡ some a'
          → Moved a 1 (acknowledged (answered append_reply result)) a')
  append-Moved a payload (ok w) a' h room e =
      subst (Moved a 1 (next_record a.stream payload ∷ [])) (some-injective _ _ e) (record {
        ready = appended-IsReady a h room;
        metadata = refl;
        next = next-advanced 1 a.stream.sequence_number_allocator;
        size = size-advanced 1 a.stream.sequence_number_allocator;
        sent = refl;
        ascending = (omega arith, tt);
        below = (omega (arith, next-advanced 1 a.stream.sequence_number_allocator), tt);
      })
  append-Moved a payload (err c) a' h room e = subst (Moved a 1 []) (some-injective _ _ e) (record {
    ready = appended-IsReady a h room;
    metadata = refl;
    next = next-advanced 1 a.stream.sequence_number_allocator;
    size = size-advanced 1 a.stream.sequence_number_allocator;
    sent = sym (append-nil a.broadcaster);
    ascending = tt;
    below = tt;
  })
  append-Moved a payload panic a' h room e = cc

  read-Moved :
      (a : StreamActor) (result : Result StreamError (Option Record)) (a' : StreamActor)
      → IsReady a.stream
      → survives result a ≡ some a'
      → Moved a 0 (acknowledged (answered read_reply result)) a'
  read-Moved a (ok x) a' h e = subst (Moved a 0 []) (some-injective _ _ e) (Moved-here a h)
  read-Moved a (err x) a' h e = subst (Moved a 0 []) (some-injective _ _ e) (Moved-here a h)
  read-Moved a panic a' h e = cc

  -- One command.
  pub handle-Moved :
      (a : StreamActor) (c : StreamCommand) (records : R.State) (a' : StreamActor)
      → IsReady a.stream
      → HasRoomFor (cost c) a
      → (handle R a c records).1 ≡ some a'
      → Moved a (cost c) (acknowledged (handle R a c records).0) a'
  unfolding handle
  handle-Moved a (append payload) records a' h room e =
      let call = append-eq R a.stream payload records h in
      rw call (
        append-Moved a payload (R.apply records (batch_of a.stream payload)).0 a' h room
          (rw call at e))
  handle-Moved a (read n) records a' h room e =
      read-Moved a (Stream.read R a.stream n records) a' h e
  handle-Moved a subscribe records a' h room e =
      subst (Moved a 0 []) (some-injective _ _ e) (Moved-here a h)

  pub run-none :
      (commands : List StreamCommand) (records : R.State) → (run R none commands records).1 ≡ none
  unfolding run
  run-none [] records = refl
  run-none (c ∷ commands) records = run-none commands records

  -- A run of commands, in the order in which they arrive from any number of callers, that the actor survives: every
  -- append takes one number, acknowledged or not, and what is broadcast are the records that are acknowledged, in
  -- strictly ascending order, all at or behind the next number of before and in front of that of after.
  pub run-Moved :
      (a : StreamActor) (commands : List StreamCommand) (records : R.State) (a' : StreamActor)
      → IsReady a.stream
      → HasRoomFor (appends commands) a
      → (run R (some a) commands records).1 ≡ some a'
      → Moved a (appends commands) (all_acknowledged (run R (some a) commands records).0) a'
  unfolding run
  run-Moved a [] records a' h room e = subst (Moved a 0 []) (some-injective _ _ e) (Moved-here a h)
  run-Moved a (c ∷ commands) records a' h room e = elim (Option-cases (handle R a c records).1) [
    | inl gone ↦ absurd (some-ne-none a' (sym e ∙ rw gone (run-none commands _)))
    | inr (mid, here) ↦
        let one = handle-Moved a c records mid h (omega arith) here in
        let rest =
          run-Moved mid commands (handle R a c records).2 a' one.ready
            (omega (arith, one.next, one.size)) (rw here at e) in
        rw here (Moved-then one rest)
  ]
