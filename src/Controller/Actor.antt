-- ===== src/Controller/Actor.antt =====
-- stream_controller.rs: the actor that owns a stream, its commands, and the handle that sends them.
pub mod Run
pub mod Answers
use concrete.Prelude.{ℕ, Option, none, some, List, [], ◌∷◌, ◌++◌, length}
use concrete.Prelude.Result.{Result, ok, err, panic, map_err}
use concrete.Bytes.{Bytes, Buffers}
use concrete.Text.{text}
use concrete.Storage.Interface.{Storage}
use concrete.Error.{StreamError}
use concrete.Record.{Record}
use concrete.Stream
use concrete.Stream.{Stream, AppendResult, next_seq_num}
use concrete.Controller.{ControllerError, stream, internal}

-- The broadcast channel is the records that were sent over it; a receiver is the number of those
-- that it has not been there for.
pub record StreamActor : Type 0 where
  pub stream : Stream
  pub broadcaster : List Record

pub record Subscription : Type 0 where
  pub receiver : ℕ
  pub next_seq_num : ℕ

-- A command without its `reply_tx`, and what is sent over it.
pub data StreamCommand : Type 0 where
  append : Bytes → StreamCommand
  read : ℕ → StreamCommand
  subscribe : StreamCommand

pub data Reply : Type 0 where
  append_reply : Result StreamError AppendResult → Reply
  read_reply : Result StreamError (Option Record) → Reply
  subscribe_reply : Subscription → Reply

-- `StreamHandle::spawn`, without the task
unfoldable pub spawn : Stream → StreamActor
spawn s = record { stream = s; broadcaster = [] }

-- A successful append is broadcast before it is answered.
abbrev pub broadcast : Result StreamError AppendResult → List Record → List Record
broadcast (ok result) sent = sent ++ result.stored ∷ []
broadcast (err e) sent = sent
broadcast panic sent = sent

-- A panic ends the task: the reply is dropped and the actor is gone.
abbrev pub survives : {A : Type 0} → Result StreamError A → StreamActor → Option StreamActor
survives panic a = none
survives (ok x) a = some a
survives (err e) a = some a

abbrev pub answered :
    {A : Type 0} → (Result StreamError A → Reply) → Result StreamError A → Option Reply
answered f panic = none
answered f (ok x) = some (f (ok x))
answered f (err e) = some (f (err e))

abbrev stopped : ControllerError
stopped = internal (text "stream actor stopped")

-- What a caller of `StreamHandle::append` is told, from the reply.
abbrev pub append_outcome : Option Reply → Result ControllerError AppendResult
append_outcome (some (append_reply result)) = map_err stream result
append_outcome _ = err (internal (text "stream actor dropped append reply"))

abbrev pub read_outcome : Option Reply → Result ControllerError (Option Record)
read_outcome (some (read_reply result)) = map_err stream result
read_outcome _ = err (internal (text "stream actor dropped read reply"))

abbrev pub subscribe_outcome : Option Reply → Result ControllerError Subscription
subscribe_outcome (some (subscribe_reply s)) = ok s
subscribe_outcome _ = err (internal (text "stream actor dropped subscribe reply"))

module _ ⦃b : Buffers⦄ (R : Storage) where
  -- One round of the loop of `run`.
  unfoldable pub handle :
      StreamActor → StreamCommand → R.State → Option Reply × Option StreamActor × R.State
  handle a (append payload) records =
      let (result, stream', records') = Stream.append R a.stream payload records in
      (
        answered append_reply result,
        survives result (record { stream = stream'; broadcaster = broadcast result a.broadcaster }),
        records',
      )
  handle a (read seq_num) records =
      let result = Stream.read R a.stream seq_num records in
      (answered read_reply result, survives result a, records)
  handle a subscribe records = (
    some (
        subscribe_reply
          (record { receiver = length a.broadcaster; next_seq_num = next_seq_num a.stream })),
    some a,
    records,
  )

  -- The loop of `run` over the commands in the order in which they arrive. Once the actor is gone,
  -- none is answered.
  unfoldable pub run :
      Option StreamActor
      → List StreamCommand
      → R.State
      → List (Option Reply) × Option StreamActor × R.State
  run a [] records = ([], a, records)
  run none (c ∷ commands) records =
      let (replies, a', records') = run none commands records in (none ∷ replies, a', records')
  run (some a) (c ∷ commands) records =
      let (reply, a', records') = handle a c records in
      let (replies, a'', records'') = run a' commands records' in (reply ∷ replies, a'', records'')

  -- A call through the handle when it is the next command to arrive.
  unfoldable pub call :
      {A : Type 0}
      → (Option Reply → Result ControllerError A)
      → Option StreamActor
      → StreamCommand
      → R.State
      → Result ControllerError A × Option StreamActor × R.State
  call outcome none c records = (err stopped, none, records)
  call outcome (some a) c records =
      let (reply, a', records') = handle a c records in (outcome reply, a', records')
