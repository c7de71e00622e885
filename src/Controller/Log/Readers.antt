-- ===== src/Controller/Log/Readers.antt =====
-- A reader of a stream while other callers use its actor, from the store to the items that it gets.
use concrete.Prelude.{
  ℕ, ◌+◌, ◌-◌, ◌≤◌, ◌<◌, ◌≡◌, sym, ap, ◌∙◌, inl, inr, Option, none, some, List, [], ◌∷◌, ◌++◌,
  append_assoc, zero, suc, All, arith, subst, Option-cases,
}
use concrete.Prelude.Lists.{All-append}
use mathlib.Core.Option
use concrete.Prelude.Result.{Result, ok}
use concrete.Bytes.{Bytes, Buffers}
use concrete.Storage.Interface.{Storage}
use concrete.Storage.Laws.{IsStorage}
use concrete.Record
use concrete.Record.{Record}
use concrete.Stream.{Stream}
use concrete.Stream.Append.{record_key}
use concrete.Controller.{ControllerError}
use concrete.Controller.Actor.{StreamActor, StreamCommand, Reply, run}
use concrete.Controller.Actor.Run.{HasRoomFor, appends, all_acknowledged, run-Moved}
use concrete.Controller.Follow.{RecvEvent, follow}
use concrete.Controller.Follow.Order.{IsPrefix, log_from, records_of, received_of, follow-IsPrefix}
use concrete.Controller.Follow.Complete.{
  IsAscendingFrom, IsAscendingFrom-prefix, IsAscendingFrom-append, IsAscendingFrom-All, IsLog,
  log_from-IsAscendingFrom, log_from-below,
}
use concrete.Controller.Log.{Log, record_at}
use concrete.Controller.Log.Represents.{Represents, stored_entry}
use concrete.Controller.Log.Refines.{AllHaveU64, run-LogRun}
use concrete.Controller.Log.Replies.{
  Answers, LogRun-Answers, HasRecord, LogRun-acknowledged, LogRun-keeps,
}

record_at-IsLog : (l : Log) → IsLog (record_at l)
record_at-IsLog l n r e = elim (Option-cases (l.entries n)) [
  | inl missing ↦ absurd (ground (arith, missing, e))
  | inr (payload, stored) ↦ ground (arith, stored, e)
]

All-prefix : (P : Record → Type 0) (xs rest : List Record) → All P (xs ++ rest) → All P xs
All-prefix P [] rest h = tt
All-prefix P (x ∷ xs) rest h = (h.0, All-prefix P xs rest h.1)

All-map :
    {P Q : Record → Type 0} → ((r : Record) → P r → Q r) → (xs : List Record) → All P xs → All Q xs
All-map f [] h = tt
All-map f (x ∷ xs) h = (f x h.0, All-map f xs h.1)

-- The records of a log in front of its next number.
log_from-HasRecord :
    (l : Log) (count n : ℕ)
    → n + count ≤ l.next
    → All (HasRecord l) (log_from (record_at l) count n)
log_from-HasRecord l zero n h = tt
log_from-HasRecord l (suc count) n h =
    let rest = log_from-HasRecord l count (n + 1) (omega arith) in
    elim (Option-cases (record_at l n)) [
      | inl missing ↦ rw missing rest
      | inr (r, e) ↦
          let here : r.seq_num ≡ n = record_at-IsLog l n r e in
          rw e ((omega arith, ap (record_at l) here ∙ e), rest)
    ]

-- A receiver gets the records that are sent in their order, up to a lag or the end of the channel.
abbrev pub IsDelivery : List RecvEvent → List Record → Type 0
IsDelivery events sent = IsPrefix (received_of events) sent

module _ ⦃b : Buffers⦄ (R : Storage) (L : IsStorage R) where
  -- A record is in the store, under its number.
  abbrev pub IsKept : R.State → Stream → Record → Type 0
  IsKept records s r = L.contents records (record_key s r.seq_num) ≡ some (Record.serialise r)

  HasRecord-IsKept :
      (records : R.State) (s : Stream) (l : Log) (r : Record)
      → Represents (L.contents records) s l
      → HasRecord l r
      → IsKept records s r
  HasRecord-IsKept records s l r h has =
      h.entries r.seq_num (omega (arith, h.next, h.ready.allocator.room, has.0))
      ∙ entry (l.entries r.seq_num) has.1
    where
      entry :
          (o : Option Bytes)
          → Option.map (λ payload. record { seq_num = r.seq_num; payload = payload }) o ≡ some r
          → stored_entry r.seq_num o ≡ some (Record.serialise r)
      entry none e = cc
      entry (some payload) e = ap (Option.map Record.serialise) e

  module _ (a : StreamActor) (commands : List StreamCommand) (records : R.State) (l : Log)
      (a' : StreamActor) (h : Represents (L.contents records) a.stream l) (u : AllHaveU64 commands)
      (room : HasRoomFor (appends commands) a)
      (lives : (run R (some a) commands records).1 ≡ some a') where
    abbrev replies : List (Option Reply)
    replies = (run R (some a) commands records).0

    -- What a reader from `start` on may get.
    abbrev pub readable : ℕ → List Record
    readable start = log_from (record_at l) (l.next - start) start ++ all_acknowledged replies

    sent-IsAscendingFrom : IsAscendingFrom l.next (all_acknowledged replies)
    sent-IsAscendingFrom =
        subst (λ n. IsAscendingFrom n (all_acknowledged replies)) h.next
          (run-Moved R a commands records a' h.ready room lives).ascending

    readable-IsAscendingFrom : (start : ℕ) → start ≤ l.next → IsAscendingFrom start (readable start)
    readable-IsAscendingFrom start le =
        IsAscendingFrom-append start l.next _ _ le
          (log_from-IsAscendingFrom (record_at l) (record_at-IsLog l) (l.next - start) start)
          (log_from-below (record_at l) (record_at-IsLog l) (l.next - start) start l.next
            (omega arith))
          sent-IsAscendingFrom

    readable-IsKept :
        (start : ℕ)
        → start ≤ l.next
        → All (IsKept (run R (some a) commands records).2 a'.stream) (readable start)
    readable-IsKept start le =
        let (l', ran, h') = run-LogRun R L a commands records l a' h u room lives in
        All-map (λ r. HasRecord-IsKept _ a'.stream l' r h') (readable start)
          (All-append (HasRecord l') (log_from (record_at l) (l.next - start) start) _
            (All-map (λ r has. LogRun-keeps r ran has) _
              (log_from-HasRecord l (l.next - start) start (omega arith)))
            (LogRun-acknowledged ran))

    delivered-All :
        (events : List RecvEvent)
        → IsDelivery events (all_acknowledged replies)
        → All (λ (r : Record). l.next ≤ r.seq_num) (received_of events)
    delivered-All events (rest, e) =
        All-prefix _ (received_of events) rest
          (rw e (IsAscendingFrom-All l.next (all_acknowledged replies) sent-IsAscendingFrom))

    -- Of a reader: its reads of the numbers before the subscription that return a record, or none, were answered so in
    -- the run. What its other reads return is open.
    abbrev pub IsReader : ℕ → (ℕ → Result ControllerError (Option Record)) → Type 0
    IsReader start reads =
        (i : ℕ)
        → start ≤ i
        → i < l.next
        → (x : Option Record) → reads i ≡ ok x
        → Answers i x commands (run R (some a) commands records).0

    -- A reader subscribes at an actor whose store holds a log, with a start that is not behind the log's next number.
    -- Whatever commands reach the actor then from any callers, the reads of this and of other readers among them, in
    -- any order and with any failures that the actor survives, and wherever a read of the reader fails, its receiver
    -- lags or its client leaves: the records that the client gets are the first ones of the log from the start on and
    -- of those that are acknowledged in the run, their numbers ascend, and each is in the store at the end, under its
    -- number.
    pub follow-run-log :
        (reads : ℕ → Result ControllerError (Option Record)) (start accepts : ℕ)
        (events : List RecvEvent)
        → start ≤ l.next
        → IsReader start reads
        → IsDelivery events (all_acknowledged (run R (some a) commands records).0)
        → let items = follow start l.next reads events accepts in
          IsPrefix (records_of items) (readable start)
          × IsAscendingFrom start (records_of items)
          × All (IsKept (run R (some a) commands records).2 a'.stream) (records_of items)
    follow-run-log reads start accepts events le reader delivered =
        let (l', ran, h') = run-LogRun R L a commands records l a' h u room lives in
        let items = follow start l.next reads events accepts in
        let (more, e) =
          follow-IsPrefix (record_at l) reads start l.next accepts events
            (λ i lo hi x got. LogRun-Answers i ran hi x (reader i lo hi x got))
            (delivered-All events delivered) in
        let (rest, sent) = delivered in
        let whole : records_of items ++ (more ++ rest) ≡ readable start =
          sym (append_assoc (records_of items) more rest)
          ∙ ap (λ rs. rs ++ rest) e
          ∙ append_assoc (log_from (record_at l) (l.next - start) start) (received_of events) rest
          ∙ ap (λ rs. log_from (record_at l) (l.next - start) start ++ rs) sent in
        (
          (more ++ rest, whole),
          IsAscendingFrom-prefix start (records_of items) (more ++ rest)
              (rw whole (readable-IsAscendingFrom start le)),
          All-prefix _ (records_of items) (more ++ rest) (rw whole (readable-IsKept start le)),
        )

    -- What the reads of a reader return if none of them fails.
    pub reads-eq :
        (reads : ℕ → Result ControllerError (Option Record)) (start : ℕ)
        → IsReader start reads
        → ((i : ℕ) → start ≤ i → i < l.next → (x : Option Record) × (reads i ≡ ok x))
        → (i : ℕ) → start ≤ i
        → i < l.next
        → reads i ≡ ok (record_at l i)
    reads-eq reads start reader answered i lo hi =
        let (l', ran, h') = run-LogRun R L a commands records l a' h u room lives in
        let (x, e) = answered i lo hi in e ∙ ap ok (LogRun-Answers i ran hi x (reader i lo hi x e))

    pub acknowledged-All : All (λ (r : Record). l.next ≤ r.seq_num) (all_acknowledged replies)
    acknowledged-All = IsAscendingFrom-All l.next (all_acknowledged replies) sent-IsAscendingFrom
