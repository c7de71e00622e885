-- ===== src/Stream/FailureTests.antt =====
-- `new` of stream.rs at a records store whose first write fails.
use concrete.Prelude.{◌≡◌, refl, [], ◌∷◌, arith, true}
use concrete.Prelude.Result.{ok, err}
use concrete.Bytes.{Bytes, to_be_bytes, from_be_bytes}
use concrete.Bytes.ListBuffers.{list_buffers}
use concrete.Key
use concrete.Text.{text}
use concrete.Storage.InMemory
use concrete.Storage.InMemory.{InMemoryStorage, in_memory}
use concrete.Storage.InMemory.Lawful.{in_memory-IsStorage, stored}
use concrete.Sequence
use concrete.Error.{storage_error}
use concrete.Record
use concrete.Stream
use concrete.Stream.{new, append, load, next_seq_num}
use concrete.Stream.Create.{metadata_batch, block_batch, reissued_after_failed_new}
use concrete.Storage.Flaky
use concrete.Storage.Flaky.{Flaky, flaky, flaky-IsStorage}
use concrete.Storage.Error.{storage}
use concrete.Stream.Tests.{stream, empty_store, events, first}

-- A store whose first write fails.
abbrev failing : Flaky
failing = record { script = true ∷ []; store = empty_store }

abbrev half_meta : InMemoryStorage
half_meta = (new in_memory flaky 7 events 9 empty_store failing).1

abbrev half_records : Flaky
half_records = (new in_memory flaky 7 events 9 empty_store failing).2

first_write :
    (InMemory.apply empty_store (metadata_batch in_memory flaky 7 events 9 empty_store failing)).0
    ≡ ok (record { seqnum = 1 })
unfolding InMemory.apply
first_write = refl

second_write :
    (Flaky.apply failing (block_batch in_memory flaky 7 events 9 empty_store failing)).0
    ≡ err (storage (text "unreachable"))
unfolding Flaky.apply
second_write = refl

nothing_written :
    (k : Bytes)
    → stored
        (Flaky.apply failing (block_batch in_memory flaky 7 events 9 empty_store failing)).1.store
        k
      ≡ stored failing.store k
unfolding Flaky.apply
nothing_written k = refl

half_loaded : load in_memory flaky 7 events half_meta half_records ≡ ok stream
unfolding load Stream.load_metadata Stream.load_allocator InMemory.get Stream.deserialise
    from_be_bytes new InMemory.apply Flaky.apply Sequence.default Stream.serialise to_be_bytes
    Stream.construct_metadata_key Key.build Key.builder Key.add_u8 Key.add_u64 Key.add_u128
    Key.put_str
half_loaded = refl

half_appended : (append flaky stream (text "one") half_records).0 ≡ ok first
unfolding append Sequence.allocate InMemory.apply Flaky.apply new
half_appended = refl

half_reloaded :
    load in_memory flaky 7 events half_meta (append flaky stream (text "one") half_records).2
    ≡ ok stream
unfolding load Stream.load_metadata Stream.load_allocator InMemory.get Stream.deserialise
    from_be_bytes new append Sequence.allocate InMemory.apply Flaky.apply Sequence.default
    Stream.serialise Record.serialise to_be_bytes Stream.construct_metadata_key
    Stream.construct_sequence_block_key Stream.construct_stream_record_key Stream.append_batch
    Key.build Key.builder Key.add_u8 Key.add_u64 Key.add_u128 Key.put_str
half_reloaded = refl

reissued_after_failed_new_example :
    ((new in_memory flaky 7 events 9 empty_store failing).0
      ≡ err (storage_error (storage (text "unreachable"))))
    × (first.stored.seq_num ≡ 0)
    × (next_seq_num stream ≡ 0)
unfolding in_memory-IsStorage flaky-IsStorage
reissued_after_failed_new_example =
    reissued_after_failed_new in_memory flaky 7 events 9 empty_store failing in_memory-IsStorage
      flaky-IsStorage (record { seqnum = 1 }) (storage (text "unreachable")) stream stream
      (text "one") first (omega arith) (omega arith) first_write second_write nothing_written refl
      half_loaded half_appended half_reloaded
