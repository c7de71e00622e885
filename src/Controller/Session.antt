-- ===== src/Controller/Session.antt =====
-- A reader and the actor of its stream: what is appended after the subscription reaches the reader.
use concrete.Prelude.{ℕ, ◌-◌, ◌≤◌, ◌<◌, ◌≡◌, Option, some, List, ◌++◌, map, length, arith}
use concrete.Prelude.Result.{Result, ok}
use concrete.Bytes.{Buffers}
use concrete.Storage.Interface.{Storage}
use concrete.Record.{Record}
use concrete.Stream.{next_seq_num}
use concrete.Stream.Append.{IsReady}
use concrete.Controller.{ControllerError}
use concrete.Controller.Actor.{StreamActor, StreamCommand, run}
use concrete.Controller.Actor.Run.{HasRoomFor, appends, all_acknowledged, run-Moved}
use concrete.Controller.Follow.{received, follow}
use concrete.Controller.Follow.Order.{log_from}
use concrete.Controller.Follow.Complete.{
  IsAscendingFrom, IsAscendingFrom-append, IsAscendingFrom-All, IsLog, log_from-IsAscendingFrom,
  log_from-below, follow_complete,
}

module _ ⦃b : Buffers⦄ (R : Storage) where
  -- A reader subscribes at an actor that then survives a run of commands. Where the reads of the stored numbers
  -- succeed, the receiver gets what is broadcast and the client stays, the client gets the log from its start on and
  -- then exactly the records whose appends are acknowledged in the run, in strictly ascending order.
  follow-run :
      (a : StreamActor) (commands : List StreamCommand) (records : R.State) (a' : StreamActor)
      (log : ℕ → Option Record) (reads : ℕ → Result ControllerError (Option Record))
      (start accepts : ℕ)
      → IsReady a.stream
      → HasRoomFor (appends commands) a
      → (run R (some a) commands records).1 ≡ some a'
      → IsLog log
      → start ≤ next_seq_num a.stream
      → ((i : ℕ) → start ≤ i → i < next_seq_num a.stream → reads i ≡ ok (log i))
      → length (
          log_from log (next_seq_num a.stream - start) start
          ++ all_acknowledged (run R (some a) commands records).0)
        ≤ accepts
      → (follow start
            (next_seq_num a.stream)
            reads
            (map received (all_acknowledged (run R (some a) commands records).0))
            accepts
          ≡ map ok (
              log_from log (next_seq_num a.stream - start) start
              ++ all_acknowledged (run R (some a) commands records).0))
        × IsAscendingFrom start (
            log_from log (next_seq_num a.stream - start) start
            ++ all_acknowledged (run R (some a) commands records).0)
        × (a'.broadcaster ≡ a.broadcaster ++ all_acknowledged (run R (some a) commands records).0)
  follow-run a commands records a' log reads start accepts ready room lives l h r big =
      let moved = run-Moved R a commands records a' ready room lives in
      let sent = all_acknowledged (run R (some a) commands records).0 in
      (
        (follow_complete log reads start (next_seq_num a.stream) accepts sent r
            (IsAscendingFrom-All _ sent moved.ascending) big).0,
        IsAscendingFrom-append start (next_seq_num a.stream) _ sent h
            (log_from-IsAscendingFrom log l (next_seq_num a.stream - start) start)
            (log_from-below log l (next_seq_num a.stream - start) start (next_seq_num a.stream)
              (omega arith))
            moved.ascending,
        moved.sent,
      )
