-- ===== src/Stream/Recovery/Tests.antt =====
-- The two ways to reissue a number, at concrete stores.
use concrete.Prelude.{◌≡◌, refl, true, false, [], ◌∷◌, arith}
use concrete.Prelude.Result.{ok, err}
use concrete.Bytes.{Bytes, to_be_bytes, from_be_bytes}
use concrete.Bytes.ListBuffers.{list_buffers}
use concrete.Key
use concrete.Text.{text}
use concrete.Storage.Error.{storage}
use concrete.Storage.InMemory
use concrete.Storage.InMemory.{InMemoryStorage, in_memory}
use concrete.Storage.InMemory.Lawful.{in_memory-IsStorage, stored}
use concrete.Storage.Flaky
use concrete.Storage.Flaky.{Flaky, flaky, flaky-IsStorage}
use concrete.Sequence
use concrete.Sequence.{SeqBlock}
use concrete.Error.{StreamError, storage_error}
use concrete.Record
use concrete.Record.{Record}
use concrete.Stream
use concrete.Stream.{Stream, AppendResult, append, load, next_seq_num}
use concrete.Stream.Append.{appended}
use concrete.Stream.Recovery.Run.{IsSafe}
use concrete.Stream.Recovery.Reissue.{reissued_after_failed_block}

-- A stream with blocks of two, whose next number is the last of its block.
abbrev stream : Stream
stream = record {
  sequence_number_allocator = record {
    next_sequence_number = 1;
    current_block = record { start = 0; block_size = 2 };
  };
  metadata = record { basin_id = 7; stream_id = 9 };
}

abbrev meta : InMemoryStorage
meta = record {
  tree =
      record {
        key = Stream.construct_metadata_key 7 (text "events");
        value = Stream.serialise stream.metadata;
      }
      ∷ [];
  poisoned = false;
  seqnum = 1;
}

abbrev records : Flaky
records = record {
  script = true ∷ [];
  store = record {
    tree =
        record {
          key = Stream.construct_sequence_block_key 7 9;
          value = Sequence.serialise (record { start = 0; block_size = 2 });
        }
        ∷ [];
    poisoned = false;
    seqnum = 1;
  };
}

abbrev TrackSafe : Type 0
TrackSafe =
    IsSafe in_memory flaky in_memory-IsStorage flaky-IsStorage (text "events") meta stream records

safe : TrackSafe
unfolding in_memory-IsStorage flaky-IsStorage Stream.construct_metadata_key
    Stream.construct_sequence_block_key Stream.construct_stream_record_key Key.build Key.builder
    Key.add_u8 Key.add_u64 Key.add_u128 Key.put_str to_be_bytes
safe = record {
  durable = record { ready = omega arith; block = refl; below = λ n h there. absurd (there refl) };
  named = refl;
}

abbrev lost : StreamError
lost = storage_error (storage (text "unreachable"))

failed : (append flaky stream (text "a") records).0 ≡ err lost
unfolding append Sequence.allocate Flaky.apply
failed = refl

abbrev second : AppendResult
second = record { stored = record { seq_num = 2; payload = text "b" }; next_seq_num = 3 }

returned :
    (append flaky (appended stream) (text "b") (append flaky stream (text "a") records).2).0
    ≡ ok second
unfolding append Sequence.allocate Flaky.apply InMemory.apply
returned = refl

-- After the restart the number 2 is handed out again.
abbrev restarted : Stream
restarted = record stream {
  sequence_number_allocator = record {
    next_sequence_number = 2;
    current_block = record { start = 0; block_size = 2 };
  };
}

loaded :
    load in_memory flaky 7
      (text "events")
      meta
      (append flaky (appended stream) (text "b") (append flaky stream (text "a") records).2).2
    ≡ ok restarted
unfolding load Stream.load_metadata Stream.load_allocator InMemory.get Stream.deserialise
    Sequence.deserialize Sequence.new from_be_bytes append Sequence.allocate Flaky.apply
    InMemory.apply Stream.serialise Sequence.serialise Record.serialise to_be_bytes
    Stream.construct_metadata_key Stream.construct_sequence_block_key
    Stream.construct_stream_record_key Stream.append_batch Key.build Key.builder Key.add_u8
    Key.add_u64 Key.add_u128 Key.put_str
loaded = refl

unwritten :
    (k : Bytes) → stored (append flaky stream (text "a") records).2.store k ≡ stored records.store k
unfolding append Sequence.allocate Flaky.apply
unwritten k = refl

reissued_after_failed_block_example : next_seq_num restarted ≡ second.stored.seq_num
unfolding flaky-IsStorage append Sequence.allocate
reissued_after_failed_block_example =
    reissued_after_failed_block in_memory flaky in_memory-IsStorage flaky-IsStorage (text "events")
      meta stream records (text "a") (text "b") lost second restarted safe (omega arith)
      (omega arith) (omega arith) failed unwritten returned loaded
