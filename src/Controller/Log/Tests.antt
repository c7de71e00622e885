-- ===== src/Controller/Log/Tests.antt =====
-- The actor of a stream over an in-memory store, against its log.
use concrete.Prelude.{
  ◌≤◌, inl, ℕ, ◌≡◌, ◌<◌, refl, Option, none, some, List, [], ◌∷◌, ◌++◌, map, false, All, arith, sym,
}
use concrete.Prelude.Result.{Result, ok}
use concrete.Bytes.{to_be_bytes}
use concrete.Bytes.ListBuffers.{list_buffers}
use concrete.Key
use concrete.Text.{text}
use concrete.Storage.InMemory
use concrete.Storage.InMemory.{InMemoryStorage, in_memory}
use concrete.Storage.InMemory.Lawful.{in_memory-IsStorage, in_memory-NeverPanics}
use concrete.Sequence
use concrete.Record.{Record}
use concrete.Stream
use concrete.Stream.{Stream, next_seq_num}
use concrete.Controller.{ControllerError}
use concrete.Controller.Actor.{StreamActor, StreamCommand, append, read, Reply, handle, run}
use concrete.Controller.Actor.Answers.{AllAnswered, run_answers}
use concrete.Controller.Actor.Run.{all_acknowledged}
use concrete.Controller.Follow.{closed, RecvEvent, received, lagged, follow}
use concrete.Controller.Follow.Order.{records_of, log_from, IsPrefix}
use concrete.Controller.Follow.Complete.{IsAscendingFrom}
use concrete.Client.{collect}
use concrete.Client.Collect.{shown}
use concrete.Client.EndToEnd.{reading, collect-run}
use concrete.Controller.Log.{Log, LogRun, record_at}
use concrete.Controller.Log.Represents.{Represents}
use concrete.Controller.Log.Refines.{run-LogRun}
use concrete.Controller.Log.Replies.{Answers}
use concrete.Controller.Log.Readers.{IsKept, follow-run-log}

abbrev empty_store : InMemoryStorage
empty_store = record { tree = []; poisoned = false; seqnum = 0 }

abbrev actor : StreamActor
actor = record {
  stream = record {
    sequence_number_allocator = record {
      next_sequence_number = 1;
      current_block = record { start = 0; block_size = 4096 };
    };
    metadata = record { basin_id = 7; stream_id = 9 };
  };
  broadcaster = [];
}

-- The number 0 was taken by an append that failed.
abbrev log : Log
log = record { entries = λ n. none; next = 1 }

log-Represents : Represents (in_memory-IsStorage.contents empty_store) actor.stream log
unfolding in_memory-IsStorage
log-Represents = record {
  ready = record { basin = omega arith; stream = omega arith; allocator = omega arith };
  next = refl;
  entries = λ n h. refl;
  below = λ n le. refl;
}

abbrev first : Record
first = record { seq_num = 1; payload = text "one" }

abbrev second : Record
second = record { seq_num = 2; payload = text "two" }

-- The reader subscribes; its read of 0 reaches the actor between two appends of others.
abbrev commands : List StreamCommand
commands = append (text "one") ∷ read 0 ∷ append (text "two") ∷ []

abbrev actor_after : StreamActor
actor_after = record {
  stream = record {
    sequence_number_allocator = record {
      next_sequence_number = 3;
      current_block = record { start = 0; block_size = 4096 };
    };
    metadata = record { basin_id = 7; stream_id = 9 };
  };
  broadcaster = first ∷ second ∷ [];
}

abbrev replies : List (Option Reply)
replies = (run in_memory (some actor) commands empty_store).0

survived : (run in_memory (some actor) commands empty_store).1 ≡ some actor_after
unfolding run handle Stream.append Stream.read Sequence.allocate InMemory.apply InMemory.get
    Stream.append_batch Stream.construct_stream_record_key Key.build Key.add_u64 Key.add_u128
    Key.add_u8 Key.builder to_be_bytes
survived = refl

run-LogRun_example :
    (l' : Log) × LogRun log commands replies l'
    × Represents
        (in_memory-IsStorage.contents (run in_memory (some actor) commands empty_store).2)
        actor_after.stream
        l'
run-LogRun_example =
    run-LogRun in_memory in_memory-IsStorage actor commands empty_store log actor_after
      log-Represents (omega arith) (omega arith) survived

sent : all_acknowledged replies ≡ first ∷ second ∷ []
unfolding run handle Stream.append Stream.read Sequence.allocate InMemory.apply InMemory.get
    Stream.append_batch Stream.construct_stream_record_key Key.build Key.add_u64 Key.add_u128
    Key.add_u8 Key.builder to_be_bytes
sent = refl

-- The receiver lags after a record.
abbrev events : List RecvEvent
events = received first ∷ lagged 3 ∷ []

-- The reader of `events`: its read of 0 found nothing, in the run.
abbrev reads : ℕ → Result ControllerError (Option Record)
reads n = ok none

is_reader :
    (i : ℕ) → 0 ≤ i → i < 1 → (x : Option Record) → reads i ≡ ok x → Answers i x commands replies
unfolding run handle Stream.append Stream.read Sequence.allocate InMemory.apply InMemory.get
    Stream.append_batch Stream.construct_stream_record_key Key.build Key.add_u64 Key.add_u128
    Key.add_u8 Key.builder to_be_bytes
is_reader i lo hi x e = let zero_only : 0 ≡ i = omega arith in inl (zero_only, e)

follow-run-log_example :
    let items = follow 0 1 reads events 9 in
    IsPrefix (records_of items) (log_from (record_at log) 1 0 ++ all_acknowledged replies)
    × IsAscendingFrom 0 (records_of items)
    × All
        (IsKept in_memory in_memory-IsStorage
          (run in_memory (some actor) commands empty_store).2
          actor_after.stream)
        (records_of items)
follow-run-log_example =
    follow-run-log in_memory in_memory-IsStorage actor commands empty_store log actor_after
      log-Represents (omega arith) (omega arith) survived reads 0 9 events (omega arith) is_reader
      (second ∷ [], sym sent)

run_answers_example :
    ((a' : StreamActor) × ((run in_memory (some actor) commands empty_store).1 ≡ some a'))
    × AllAnswered commands replies
run_answers_example =
    run_answers in_memory in_memory-NeverPanics actor commands empty_store
      (record { basin = omega arith; stream = omega arith; allocator = omega arith }) (omega arith)

collect-run_example :
    let sent' = map received (all_acknowledged replies) in
    (collect (reading 0 1 reads sent' 9) ≡ none)
    × (collect (reading 0 1 reads (sent' ++ closed ∷ []) 9)
        ≡ some (ok (map shown (log_from (record_at log) 1 0 ++ all_acknowledged replies))))
collect-run_example =
    collect-run in_memory in_memory-IsStorage actor commands empty_store log actor_after
      log-Represents (omega arith) (omega arith) survived reads 0 9 is_reader
      (λ i lo hi. (none, refl)) (rw sent (omega arith))
