-- ===== src/Controller/Log/Refines.antt =====
-- The actor over a record store that keeps its contract refines the log.
use concrete.Prelude.{
  ℕ, ◌+◌, ◌≡◌, refl, sym, ap, ◌∙◌, inl, inr, Option, some, List, [], ◌∷◌, arith, subst,
  Option-cases,
}
use mathlib.Core.Option.{some-injective, some-ne-none}
use concrete.Prelude.Result.{Result, ok, err, panic}
use concrete.Bytes.{Bytes, Buffers, IsU64}
use concrete.Storage.Interface.{Storage}
use concrete.Storage.Laws.{IsStorage}
use concrete.Error.{StreamError}
use concrete.Record.{Record}
use concrete.Stream
use concrete.Stream.{Stream, AppendResult, next_seq_num}
use concrete.Stream.Append.{appended, append_ok, append_err, read_stored, read_missing}
use concrete.Controller.Actor.{
  StreamActor, StreamCommand, append, read, subscribe, Reply, append_reply, read_reply, handle, run,
  survives, answered, broadcast,
}
use concrete.Controller.Actor.Run.{cost, appends, HasRoomFor, handle-Moved, run-none}
use concrete.Controller.Log.{
  Log, record_at, entered, skipped, LogStep, acknowledged, written, unwritten, found, unread,
  subscribed, LogRun, done, step,
}
use concrete.Controller.Log.Represents.{Represents, entered-Represents, skipped-Represents}

-- The numbers of reads are `u64`s.
abbrev pub HasU64 : StreamCommand → Type 0
HasU64 (read n) = IsU64 n
HasU64 (append payload) = Unit
HasU64 subscribe = Unit

abbrev pub AllHaveU64 : List StreamCommand → Type 0
AllHaveU64 [] = Unit
AllHaveU64 (c ∷ commands) = HasU64 c × AllHaveU64 commands

module _ ⦃b : Buffers⦄ where
  module _ (R : Storage) (L : IsStorage R) where
    -- What the log may do at a command, with the state that the actor and the store are in then.
    abbrev Refined : Log → StreamCommand → Option Reply → StreamActor → R.State → Type 0
    Refined l c r a' records =
        (l' : Log) × LogStep l c r l' × Represents (L.contents records) a'.stream l'

    append_refines :
        (a : StreamActor) (payload : Bytes) (records : R.State) (l : Log)
        (result : Result StreamError AppendResult) (a' : StreamActor)
        → Represents (L.contents records) a.stream l
        → HasRoomFor 1 a
        → (Stream.append R a.stream payload records).0 ≡ result
        → survives result (record {
          stream = (Stream.append R a.stream payload records).1;
          broadcaster = broadcast result a.broadcaster;
        })
          ≡ some a'
        → Refined l
            (append payload)
            (answered append_reply result)
            a'
            (Stream.append R a.stream payload records).2
    append_refines a payload records l (ok res) a' h room same lives =
        let (value, moved, wrote) = append_ok R L a.stream payload records res h.ready same in
        (
          entered l payload,
          acknowledged (
              value
              ∙ ap
                  (λ n. record {
                    stored = record { seq_num = n; payload = payload };
                    next_seq_num = n + 1;
                  })
                  h.next),
          subst
              (λ (b : StreamActor).
                Represents (L.contents (Stream.append R a.stream payload records).2) b.stream
                  (entered l payload))
              (some-injective _ _ lives)
              (rw moved (entered-Represents a payload _ _ l h room R wrote)),
        )
    append_refines a payload records l (err e) a' h room same lives =
        let (moved, outcome) = append_err R L a.stream payload records e h.ready same in
        let go =
          λ (k : Log)
              (rep : Represents (L.contents (Stream.append R a.stream payload records).2)
                (appended a.stream) k).
            subst
              (λ (b : StreamActor).
                Represents (L.contents (Stream.append R a.stream payload records).2) b.stream k)
              (some-injective _ _ lives) (rw moved rep) in
        elim outcome [
          | inl same ↦ (
            skipped l,
            unwritten,
            go (skipped l) (skipped-Represents a payload _ _ l h room R same),
          )
          | inr wrote ↦ (
            entered l payload,
            written,
            go (entered l payload) (entered-Represents a payload _ _ l h room R wrote),
          )
        ]
    append_refines a payload records l panic a' h room same lives = cc

    -- A read that succeeds finds what the log has.
    read_refines :
        (s : Stream) (n : ℕ) (records : R.State) (l : Log) (x : Option Record)
        → Represents (L.contents records) s l
        → IsU64 n
        → Stream.read R s n records ≡ ok x
        → x ≡ record_at l n
    read_refines s n records l x h hn e = elim (Option-cases (l.entries n)) [
      | inl missing ↦
          read_missing R L s n records (h.entries n hn ∙ rw missing refl) x e ∙ rw missing refl
      | inr (payload, stored) ↦
          read_stored R L s n (record { seq_num = n; payload = payload }) records hn
            (h.entries n hn ∙ rw stored refl) x e
          ∙ rw stored refl
    ]

    reply_refines :
        (a : StreamActor) (n : ℕ) (records : R.State) (l : Log)
        (result : Result StreamError (Option Record)) (a' : StreamActor)
        → Represents (L.contents records) a.stream l
        → IsU64 n
        → Stream.read R a.stream n records ≡ result
        → survives result a ≡ some a'
        → Refined l (read n) (answered read_reply result) a' records
    reply_refines a n records l (ok x) a' h hn same lives = (
      l,
      found (read_refines a.stream n records l x h hn same),
      subst (λ (b : StreamActor). Represents (L.contents records) b.stream l)
          (some-injective _ _ lives) h,
    )
    reply_refines a n records l (err e) a' h hn same lives = (
      l,
      unread,
      subst (λ (b : StreamActor). Represents (L.contents records) b.stream l)
          (some-injective _ _ lives) h,
    )
    reply_refines a n records l panic a' h hn same lives = cc

    -- A command that the actor survives is a step of the log, with the same reply.
    pub handle-LogStep :
        (a : StreamActor) (c : StreamCommand) (records : R.State) (l : Log) (a' : StreamActor)
        → Represents (L.contents records) a.stream l
        → HasU64 c
        → HasRoomFor (cost c) a
        → (handle R a c records).1 ≡ some a'
        → (l' : Log) × LogStep l c (handle R a c records).0 l'
          × Represents (L.contents (handle R a c records).2) a'.stream l'
    unfolding handle
    handle-LogStep a (append payload) records l a' h u room lives =
        append_refines a payload records l _ a' h room refl lives
    handle-LogStep a (read n) records l a' h u room lives =
        reply_refines a n records l _ a' h u refl lives
    handle-LogStep a subscribe records l a' h u room lives = (
      l,
      subscribed h.next,
      subst (λ (b : StreamActor). Represents (L.contents records) b.stream l)
          (some-injective _ _ lives) h,
    )

    -- The actor with its store refines the log: a run of commands in any order, from any number of callers, that the
    -- actor survives is a run of the log with the same replies, and the store then holds the log's entries.
    pub run-LogRun :
        (a : StreamActor) (commands : List StreamCommand) (records : R.State) (l : Log)
        (a' : StreamActor)
        → Represents (L.contents records) a.stream l
        → AllHaveU64 commands
        → HasRoomFor (appends commands) a
        → (run R (some a) commands records).1 ≡ some a'
        → (l' : Log) × LogRun l commands (run R (some a) commands records).0 l'
          × Represents (L.contents (run R (some a) commands records).2) a'.stream l'
    unfolding run
    run-LogRun a [] records l a' h u room lives = (
      l,
      done,
      subst (λ (b : StreamActor). Represents (L.contents records) b.stream l)
          (some-injective _ _ lives) h,
    )
    run-LogRun a (c ∷ commands) records l a' h u room lives =
        elim (Option-cases (handle R a c records).1) [
          | inl gone ↦ absurd (some-ne-none a' (sym lives ∙ rw gone (run-none R commands _)))
          | inr (mid, here) ↦
              let moved = handle-Moved R a c records mid h.ready (omega arith) here in
              let (l', first, h') = handle-LogStep a c records l mid h u.0 (omega arith) here in
              let (l'', rest, h'') =
                run-LogRun mid commands (handle R a c records).2 l' a' h' u.1
                  (omega (arith, moved.next, moved.size)) (rw here at lives) in
              rw here (l'', step first rest, h'')
        ]
