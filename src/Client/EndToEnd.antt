-- ===== src/Client/EndToEnd.antt =====
-- From the store of the server to the records that a client collects, while other clients append.
use concrete.Prelude.{
  Bool, true, false, if◌then◌else◌, none, ◌∷◌, ℕ, ◌-◌, ◌≤◌, ◌<◌, ◌≡◌, Option, some, List, [], ◌++◌,
  map, length,
}
use concrete.Prelude.Result.{Result, ok}
use concrete.Bytes.{Buffers}
use concrete.Storage.Interface.{Storage}
use concrete.Storage.Laws.{IsStorage}
use concrete.Record
use concrete.Controller.Actor.{StreamActor, StreamCommand, run}
use concrete.Controller.Actor.Run.{HasRoomFor, appends, all_acknowledged}
use concrete.Controller.Follow.{RecvEvent, Item, received, closed}
use concrete.Controller.Follow.Complete.{follow_complete, follow-closed}
use concrete.Controller.{ControllerError}
use concrete.Controller.Follow.Order.{log_from}
use concrete.Controller.Log.{Log, record_at}
use concrete.Controller.Log.Represents.{Represents}
use concrete.Controller.Log.Refines.{AllHaveU64}
use concrete.Controller.Log.Readers.{IsReader, reads-eq, acknowledged-All}
use concrete.Grpc.{stream_record, served}
use concrete.Client.{RecordStream, collect}
use concrete.Client.Collect.{shown, collect_loop-ok}

-- What the client has of the server's stream to a reader.
abbrev pub reading :
    ℕ → ℕ → (ℕ → Result ControllerError (Option Record.Record)) → List RecvEvent → ℕ → RecordStream
reading start next reads events accepts = record { inner = served start next reads events accepts }

collected :
    (items : List Item) (ended : Bool) (rs : List Record.Record) (over : Bool)
    → items ≡ map ok rs
    → ended ≡ over
    → collect (record { inner = record { items = map stream_record items; ended = ended } })
      ≡ (if over then some (ok (map shown rs)) else none)
unfolding collect
collected items ended rs over e e' = rw (e, collect) (rw e' (collect_loop-ok [] rs over))

module _ ⦃b : Buffers⦄ (R : Storage) (L : IsStorage R) where
  -- A client reads a stream from `start` on and collects what the server sends, while any commands of any clients reach
  -- the actor, which survives them. If the server's reads of the records before the subscription succeed, its receiver
  -- gets every record, and the client takes them all, then `collect` does not return while the stream stays open. If
  -- the channel is closed after these records, it returns the payloads of the log that the store holds, from the start
  -- on and with their numbers, and then those that the actor acknowledged after the subscription.
  pub collect-run :
      (a : StreamActor) (commands : List StreamCommand) (records : R.State) (l : Log)
      (a' : StreamActor) (h : Represents (L.contents records) a.stream l) (u : AllHaveU64 commands)
      (room : HasRoomFor (appends commands) a)
      (lives : (run R (some a) commands records).1 ≡ some a')
      (reads : ℕ → Result ControllerError (Option Record.Record)) (start accepts : ℕ)
      → IsReader R L a commands records l a' h u room lives start reads
      → ((i : ℕ) → start ≤ i → i < l.next → (x : Option Record.Record) × (reads i ≡ ok x))
      → length (
          log_from (record_at l) (l.next - start) start
          ++ all_acknowledged (run R (some a) commands records).0)
        ≤ accepts
      → let sent = map received (all_acknowledged (run R (some a) commands records).0) in
        (collect (reading start l.next reads sent accepts) ≡ none)
        × (collect (reading start l.next reads (sent ++ closed ∷ []) accepts)
            ≡ some (
                ok (
                  map shown (
                    log_from (record_at l) (l.next - start) start
                    ++ all_acknowledged (run R (some a) commands records).0))))
  unfolding collect served
  collect-run a commands records l a' h u room lives reads start accepts reader answered big =
      let sent = all_acknowledged (run R (some a) commands records).0 in
      let whole = log_from (record_at l) (l.next - start) start ++ sent in
      let found = reads-eq R L a commands records l a' h u room lives reads start reader answered in
      let later = acknowledged-All R L a commands records l a' h u room lives in
      let (items, opened) =
        follow_complete (record_at l) reads start l.next accepts sent found later big in
      let (items', over) =
        follow-closed (record_at l) reads start l.next accepts sent found later big in
      (collected _ _ whole false items opened, collected _ _ whole true items' over)
