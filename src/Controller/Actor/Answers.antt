-- ===== src/Controller/Actor/Answers.antt =====
-- The actor of a stream over a store that never panics: it answers every command.
use concrete.Prelude.{
  ℕ, ◌≡◌, ◌≢◌, refl, sym, ap, ◌∙◌, inl, inr, Option, none, some, List, [], ◌∷◌, arith,
}
use concrete.Prelude.Result.{Result, ok, err, panic, Result-cases}
use concrete.Bytes.{Bytes, Buffers}
use concrete.Storage.Interface.{StorageRecord, Storage}
use concrete.Storage.Laws.{NeverPanics}
use concrete.Error.{StreamError}
use concrete.Record
use concrete.Record.{Record}
use concrete.Stream
use concrete.Stream.{AppendResult, read_value}
use concrete.Stream.Append.{IsReady, append-eq, batch_of}
use concrete.Controller.Actor.{
  StreamActor, StreamCommand, append, read, subscribe, Reply, append_reply, read_reply,
  subscribe_reply, handle, run, survives, answered,
}
use concrete.Controller.Actor.Run.{appends, HasRoomFor, handle-Moved}

-- A reply of the command's own kind.
abbrev pub IsReplyTo : StreamCommand → Option Reply → Type 0
IsReplyTo (append payload) (some (append_reply result)) = Unit
IsReplyTo (read n) (some (read_reply result)) = Unit
IsReplyTo subscribe (some (subscribe_reply s)) = Unit
IsReplyTo _ _ = ⊥

abbrev pub AllAnswered : List StreamCommand → List (Option Reply) → Type 0
AllAnswered [] [] = Unit
AllAnswered (c ∷ commands) (r ∷ replies) = IsReplyTo c r × AllAnswered commands replies
AllAnswered _ _ = ⊥

module _ ⦃b : Buffers⦄ (R : Storage) (never : NeverPanics R) where
  alive :
      {A : Type 0} (f : Result StreamError A → Reply) (c : StreamCommand)
      (result : Result StreamError A) (a : StreamActor)
      → result ≢ panic
      → ((x : Result StreamError A) → IsReplyTo c (some (f x)))
      → (a' : StreamActor) × (survives result a ≡ some a') × IsReplyTo c (answered f result)
  alive f c (ok x) a h kind = (a, refl, kind (ok x))
  alive f c (err e) a h kind = (a, refl, kind (err e))
  alive f c panic a h kind = absurd (h refl)

  deserialise-ne-panic : (v : Bytes) → Record.deserialise v ≢ panic
  deserialise-ne-panic v e = ground (arith, sym (Record.deserialise-eq v) ∙ e)

  read_value-ne-panic : (found : Option StorageRecord) → read_value found ≢ panic
  read_value-ne-panic none e = cc
  read_value-ne-panic (some r) e = elim (Result-cases (Record.deserialise r.value)) [
    | inl (x, done) ↦ ground (arith, done, e)
    | inr (inl (x, failed)) ↦ ground (arith, failed, e)
    | inr (inr gone) ↦ deserialise-ne-panic r.value gone
  ]

  read-ne-panic :
      (a : StreamActor) (n : ℕ) (records : R.State) → Stream.read R a.stream n records ≢ panic
  unfolding Stream.read
  read-ne-panic a n records e =
      elim (Result-cases (
        R.get records (
          Stream.construct_stream_record_key a.stream.metadata.basin_id a.stream.metadata.stream_id
            n))) [
              | inl (found, got) ↦ read_value-ne-panic found (ground (arith, got, e))
              | inr (inl (c, failed)) ↦ ground (arith, failed, e)
              | inr (inr gone) ↦ never.get _ _ gone
            ]

  append-ne-panic :
      (a : StreamActor) (payload : Bytes) (records : R.State)
      → IsReady a.stream
      → (Stream.append R a.stream payload records).0 ≢ panic
  append-ne-panic a payload records h e =
      let call = sym (ap (λ t. t.0) (append-eq R a.stream payload records h)) ∙ e in
      elim (Result-cases (R.apply records (batch_of a.stream payload)).0) [
        | inl (w, done) ↦ ground (arith, done, call)
        | inr (inl (c, failed)) ↦ ground (arith, failed, call)
        | inr (inr gone) ↦ never.apply _ _ gone
      ]

  handle_answers :
      (a : StreamActor) (c : StreamCommand) (records : R.State)
      → IsReady a.stream
      → (a' : StreamActor) × ((handle R a c records).1 ≡ some a')
        × IsReplyTo c (handle R a c records).0
  unfolding handle
  handle_answers a (append payload) records h =
      alive append_reply (append payload) _ _ (append-ne-panic a payload records h) (λ x. tt)
  handle_answers a (read n) records h =
      alive read_reply (read n) _ a (read-ne-panic a n records) (λ x. tt)
  handle_answers a subscribe records h = (a, refl, tt)

  -- Over a store whose `apply` and `get` never panic, and with room for the numbers of the appends, the actor survives
  -- every run of commands and answers each of them, with a reply of the command's own kind.
  pub run_answers :
      (a : StreamActor) (commands : List StreamCommand) (records : R.State)
      → IsReady a.stream
      → HasRoomFor (appends commands) a
      → ((a' : StreamActor) × ((run R (some a) commands records).1 ≡ some a'))
        × AllAnswered commands (run R (some a) commands records).0
  unfolding run
  run_answers a [] records h room = ((a, refl), tt)
  run_answers a (c ∷ commands) records h room =
      let (mid, here, reply) = handle_answers a c records h in
      let moved = handle-Moved R a c records mid h (omega arith) here in
      let (survived, replies) =
        run_answers mid commands (handle R a c records).2 moved.ready
          (omega (arith, moved.next, moved.size)) in
      rw here (survived, (reply, replies))
