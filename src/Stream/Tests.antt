-- ===== src/Stream/Tests.antt =====
-- A stream in two in-memory stores, and the theorems at its runs.
use concrete.Prelude.{
  ℕ, ◌<◌, ◌≡◌, refl, false, Option, some, List, [], ◌∷◌, map, arith, true, ◌≤◌, ◌↔◌,
}
use concrete.Prelude.Result.{Result, ok}
use concrete.Bytes.{IsBytes, to_be_bytes, from_be_bytes}
use concrete.Bytes.ListBuffers.{list_buffers}
use concrete.Key
use concrete.Text.{Str, text}
use concrete.Storage.InMemory
use concrete.Storage.InMemory.{InMemoryStorage, in_memory}
use concrete.Storage.InMemory.Lawful.{in_memory-IsStorage, stored}
use concrete.Sequence
use concrete.Error.{StreamError}
use concrete.Record
use concrete.Record.{Record}
use concrete.Stream
use concrete.Stream.{
  Stream, StreamView, StreamMetadata, AppendResult, new, append, load, read, next_seq_num,
  construct_stream_record_key, construct_sequence_block_key, construct_metadata_key,
}
use concrete.Stream.Create.{new-IsSafe}
use concrete.Stream.Recovery.Run.{
  IsSafe, Step-IsSafe, Run, Run-IsSafe, Run-keeps, here, then_step, append_done, restart,
  read_after-Run,
}
use concrete.Prelude.Order.{bytes_lt}
use concrete.Stream.Keys.Order.{IsBefore, stream_record_key-lt}
use concrete.Controller.Log.{empty_log}
use concrete.Controller.Log.Represents.{Represents}
use concrete.Controller.Log.Start.{new-Represents, load-Represents}
use concrete.Stream.Append.{record_key}
use concrete.Storage.Scan.{scan_loop}
use concrete.Storage.Listing.{has, is_some, HasByteKeys, HasByteKeys-lookup}
use concrete.Storage.Laws.{IsAscending}
use concrete.Stream.Listing.{list_names, list_ends}
use concrete.Prelude.Sort.{sort_by, IsAscendingBy}
use concrete.Text.Utf8.{from_utf8}
use concrete.Key.{prefix_range, next_prefix}

abbrev pub stream : Stream
stream = record {
  sequence_number_allocator = record {
    next_sequence_number = 0;
    current_block = record { start = 0; block_size = 4096 };
  };
  metadata = record { basin_id = 7; stream_id = 9 };
}

abbrev pub empty_store : InMemoryStorage
empty_store = record { tree = []; poisoned = false; seqnum = 0 }

abbrev pub events : Str
events = text "events"

abbrev meta : InMemoryStorage
meta = (new in_memory in_memory 7 events 9 empty_store empty_store).1

abbrev records : InMemoryStorage
records = (new in_memory in_memory 7 events 9 empty_store empty_store).2

made : (new in_memory in_memory 7 events 9 empty_store empty_store).0 ≡ ok stream
unfolding new InMemory.apply Sequence.default
made = refl

abbrev StreamSafe : Type 0
StreamSafe =
    IsSafe in_memory in_memory in_memory-IsStorage in_memory-IsStorage events meta stream records
    × (next_seq_num stream ≡ 0)

stream_safe : StreamSafe
unfolding in_memory-IsStorage
stream_safe =
    new-IsSafe in_memory in_memory 7 events 9 empty_store empty_store in_memory-IsStorage
      in_memory-IsStorage stream (omega arith) (omega arith) (λ n. refl) made

new-IsSafe_example : StreamSafe
unfolding in_memory-IsStorage
new-IsSafe_example =
    new-IsSafe in_memory in_memory 7 events 9 empty_store empty_store in_memory-IsStorage
      in_memory-IsStorage stream (omega arith) (omega arith) (λ n. refl) made

abbrev pub first : AppendResult
first = record { stored = record { seq_num = 0; payload = text "one" }; next_seq_num = 1 }

appended_first : (append in_memory stream (text "one") records).0 ≡ ok first
unfolding append Sequence.allocate InMemory.apply new
appended_first = refl

abbrev after_first : InMemoryStorage
after_first = (append in_memory stream (text "one") records).2

abbrev moved : Stream
moved = record stream {
  sequence_number_allocator = record {
    next_sequence_number = 1;
    current_block = record { start = 0; block_size = 4096 };
  };
}

abbrev restarted : Stream
restarted = record stream {
  sequence_number_allocator = record {
    next_sequence_number = 4096;
    current_block = record { start = 0; block_size = 4096 };
  };
}

loaded : load in_memory in_memory 7 events meta after_first ≡ ok restarted
unfolding load Stream.load_metadata Stream.load_allocator InMemory.get Stream.deserialise
    Sequence.deserialize Sequence.new from_be_bytes new append Sequence.allocate InMemory.apply
    Sequence.default Stream.serialise Sequence.serialise Record.serialise to_be_bytes
    Stream.construct_metadata_key Stream.construct_sequence_block_key
    Stream.construct_stream_record_key Stream.append_batch Key.build Key.builder Key.add_u8
    Key.add_u64 Key.add_u128 Key.put_str
loaded = refl

abbrev RestartedRun : Type 0
RestartedRun =
    Run in_memory in_memory in_memory-IsStorage in_memory-IsStorage events meta
      (append in_memory stream (text "one") records).1 after_first restarted after_first

-- The handle is lost right after the append.
restart_once : RestartedRun
unfolding append Sequence.allocate
restart_once = then_step here (restart moved restarted after_first (omega arith) loaded)

found_first : read in_memory restarted 0 after_first ≡ ok (some first.stored)
unfolding read Record.deserialise InMemory.get from_be_bytes new append Sequence.allocate
    InMemory.apply Sequence.default Sequence.serialise Record.serialise to_be_bytes
    Stream.construct_sequence_block_key Stream.construct_stream_record_key Stream.append_batch
    Key.build Key.builder Key.add_u8 Key.add_u64 Key.add_u128
found_first = refl

read_after-Run_example : Option.some first.stored ≡ some first.stored
read_after-Run_example =
    read_after-Run in_memory in_memory in_memory-IsStorage in_memory-IsStorage events meta stream
      records (text "one") first restarted after_first (some first.stored) stream_safe.0
      (omega arith) appended_first restart_once found_first

abbrev FirstSafe : Type 0
FirstSafe =
    IsSafe in_memory in_memory in_memory-IsStorage in_memory-IsStorage events meta
      (append in_memory stream (text "one") records).1 after_first

first_safe : FirstSafe
first_safe =
    Step-IsSafe in_memory in_memory in_memory-IsStorage in_memory-IsStorage events meta
      (append_done stream records (text "one") first (omega arith) appended_first) stream_safe.0

Run-IsSafe_example :
    IsSafe in_memory in_memory in_memory-IsStorage in_memory-IsStorage events meta restarted
      after_first
Run-IsSafe_example =
    Run-IsSafe in_memory in_memory in_memory-IsStorage in_memory-IsStorage events meta first_safe
      restart_once

stored_first :
    stored after_first (record_key (append in_memory stream (text "one") records).1 0)
    ≡ some (Record.serialise first.stored)
unfolding new append Sequence.allocate InMemory.apply Sequence.default Sequence.serialise
    Record.serialise to_be_bytes Stream.construct_sequence_block_key
    Stream.construct_stream_record_key Stream.append_batch Key.build Key.builder Key.add_u8
    Key.add_u64 Key.add_u128
stored_first = refl

Run-keeps_example :
    stored after_first (record_key restarted 0) ≡ some (Record.serialise first.stored)
unfolding in_memory-IsStorage
Run-keeps_example =
    Run-keeps in_memory in_memory in_memory-IsStorage in_memory-IsStorage events meta 0
      (Record.serialise first.stored) first_safe restart_once (omega arith) stored_first

-- The listing of the basin, of which `events` is the only stream.
abbrev only_events : List StreamView
only_events = record { stream_name = events } ∷ []

listed : Stream.list in_memory 2 7 meta ≡ some (ok only_events)
unfolding Stream.list Stream.view_of Stream.name_of Stream.deserialise InMemory.scan_iter
    InMemory.next scan_loop sort_by from_utf8 prefix_range next_prefix from_be_bytes new
    InMemory.apply Stream.serialise to_be_bytes Stream.construct_metadata_key Stream.metadata_prefix
    Key.build Key.builder Key.add_u8 Key.add_u64 Key.add_u128 Key.put_str
listed = refl

byte_keys : HasByteKeys (λ k. stored meta k)
unfolding new InMemory.apply to_be_bytes Stream.construct_metadata_key Key.build Key.builder
    Key.add_u8 Key.add_u128 Key.put_str
byte_keys = HasByteKeys-lookup meta.tree (omega arith)

meta_IsAscending : IsAscending meta.tree
unfolding new InMemory.apply
meta_IsAscending = (tt, tt)

list_names_example :
    IsAscendingBy (λ (v : StreamView). v.stream_name) only_events
    × ((name : Str)
        → IsBytes name
        → has name (map (λ (v : StreamView). v.stream_name) only_events)
          ≡ is_some (stored meta (Stream.construct_metadata_key 7 name)))
unfolding in_memory-IsStorage
list_names_example =
    list_names in_memory in_memory-IsStorage 7 meta meta_IsAscending 2 only_events byte_keys listed

list_ends_example :
    (n : ℕ) × (result : Result StreamError (List StreamView)) × ((fuel : ℕ)
      → n < fuel
      → Stream.list in_memory fuel 7 meta ≡ some result)
unfolding in_memory-IsStorage
list_ends_example = list_ends in_memory in_memory-IsStorage 7 meta meta_IsAscending

-- A restart right after the stream was made.
loaded_unused : load in_memory in_memory 7 events meta records ≡ ok restarted
unfolding load Stream.load_metadata Stream.load_allocator InMemory.get Stream.deserialise
    Sequence.deserialize Sequence.new from_be_bytes new InMemory.apply Sequence.default
    Stream.serialise Sequence.serialise to_be_bytes Stream.construct_metadata_key
    Stream.construct_sequence_block_key Key.build Key.builder Key.add_u8 Key.add_u64 Key.add_u128
    Key.put_str
loaded_unused = refl

-- The log of the stream that was made.
stream-Represents : Represents (in_memory-IsStorage.contents records) stream empty_log
unfolding in_memory-IsStorage
stream-Represents =
    new-Represents in_memory in_memory in_memory-IsStorage in_memory-IsStorage events 7 9
      empty_store empty_store stream (omega arith) (omega arith) (λ n. refl) made

load-Represents_example :
    Represents (in_memory-IsStorage.contents records) restarted (record empty_log { next = 4096 })
    × (0 ≤ 4096)
load-Represents_example =
    load-Represents in_memory in_memory in_memory-IsStorage in_memory-IsStorage events meta records
      stream restarted empty_log stream_safe.0 (omega arith) stream-Represents loaded_unused

stream_record_key-lt_example :
    (bytes_lt (construct_stream_record_key 7 9 255) (construct_stream_record_key 7 9 256) ≡ true)
    ↔ IsBefore (7, 9, 255) (7, 9, 256)
stream_record_key-lt_example =
    stream_record_key-lt 7 7 9 9 255 256 (omega arith) (omega arith) (omega arith) (omega arith)
      (omega arith) (omega arith)
