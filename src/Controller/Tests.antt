-- ===== src/Controller/Tests.antt =====
-- The actor, the follower and the controller over in-memory stores, and the theorems at their runs.
use concrete.Prelude.{
  ℕ, ◌≡◌, refl, Option, none, some, List, [], ◌∷◌, false, arith, ◌==◌, if◌then◌else◌,
}
use concrete.Prelude.Result.{Result, ok, err}
use concrete.Bytes.ListBuffers.{list_buffers}
use concrete.Text.{text}
use concrete.Storage.InMemory
use concrete.Storage.InMemory.{InMemoryStorage, in_memory}
use concrete.Sequence
use concrete.Record.{Record}
use concrete.Stream
use concrete.Stream.{Stream, next_seq_num}
use concrete.Controller.{ControllerError, reader_lagged}
use concrete.Controller.Actor.{StreamActor, StreamCommand, append, subscribe, handle, run}
use concrete.Controller.Actor.Run.{Moved, all_acknowledged, run-Moved}
use concrete.Controller.Follow.{RecvEvent, received, lagged, live, follow, backfill, follow_live}
use concrete.Controller.Follow.Order.{records_of, IsPrefix, follow-IsPrefix}
use concrete.Controller.Follow.Complete.{IsLog, follow_below_start}

abbrev empty_store : InMemoryStorage
empty_store = record { tree = []; poisoned = false; seqnum = 0 }

abbrev actor : StreamActor
actor = record {
  stream = record {
    sequence_number_allocator = record {
      next_sequence_number = 1;
      current_block = record { start = 0; block_size = 4096 };
    };
    metadata = record { basin_id = 7; stream_id = 9 };
  };
  broadcaster = [];
}

abbrev zeroth : Record
zeroth = record { seq_num = 0; payload = text "zero" }

abbrev first : Record
first = record { seq_num = 1; payload = text "one" }

abbrev second : Record
second = record { seq_num = 2; payload = text "two" }

abbrev commands : List StreamCommand
commands = append (text "one") ∷ subscribe ∷ append (text "two") ∷ []

abbrev actor_after : StreamActor
actor_after = record {
  stream = record {
    sequence_number_allocator = record {
      next_sequence_number = 3;
      current_block = record { start = 0; block_size = 4096 };
    };
    metadata = record { basin_id = 7; stream_id = 9 };
  };
  broadcaster = first ∷ second ∷ [];
}

survived : (run in_memory (some actor) commands empty_store).1 ≡ some actor_after
unfolding run handle Stream.append Sequence.allocate InMemory.apply
survived = refl

sent : all_acknowledged (run in_memory (some actor) commands empty_store).0 ≡ first ∷ second ∷ []
unfolding run handle Stream.append Sequence.allocate InMemory.apply
sent = refl

run-Moved_example :
    Moved actor 2 (all_acknowledged (run in_memory (some actor) commands empty_store).0) actor_after
run-Moved_example =
    run-Moved in_memory actor commands empty_store actor_after
      (record { basin = omega arith; stream = omega arith; allocator = omega arith }) (omega arith)
      survived

-- The log before the subscription.
abbrev log : ℕ → Option Record
log n = if n == 0 then some zeroth else none

abbrev reads : ℕ → Result ControllerError (Option Record)
reads n = ok (log n)

log-IsLog : IsLog log
log-IsLog n r e = ground arith

-- The receiver lags behind after a record.
abbrev events : List RecvEvent
events = received first ∷ lagged 3 ∷ []

follow-IsPrefix_example : IsPrefix (records_of (follow 0 1 reads events 9)) (zeroth ∷ first ∷ [])
follow-IsPrefix_example =
    follow-IsPrefix log reads 0 1 9 events (λ i lo hi x e. ground (arith, e)) (omega arith)

lagging : follow 0 1 reads events 9 ≡ ok zeroth ∷ ok first ∷ err reader_lagged ∷ []
unfolding follow backfill live follow_live
lagging = refl

follow_below_start_example : follow 5 1 reads (received first ∷ []) 1 ≡ ok first ∷ (live 1 [] 0).0
follow_below_start_example = follow_below_start reads 5 1 0 first [] (omega arith) (omega arith)
