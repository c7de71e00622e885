-- ===== src/Controller/Registry/Tests.antt =====
-- The controller over in-memory stores, and the theorems at its calls.
use concrete.Prelude.{true, ◌+◌, ◌+◌, ◌≡◌, ◌≢◌, ◌⊎◌, refl, some, [], ◌∷◌, false, arith, ℕ}
use concrete.Prelude.Assoc.{find}
use concrete.Prelude.Result.{ok, err, panic, Result}
use concrete.Bytes.{IsU64, from_be_bytes, to_be_bytes}
use concrete.Bytes.ListBuffers.{list_buffers}
use concrete.Key
use concrete.Text.{Str, text}
use concrete.Text.Utf8.{chars}
use concrete.Text.Trim.{trim_is_empty}
use concrete.Storage.InMemory
use concrete.Storage.InMemory.{InMemoryStorage, in_memory}
use concrete.Storage.InMemory.Lawful.{in_memory-IsStorage}
use concrete.Sequence
use concrete.Record
use concrete.Stream
use concrete.Stream.{Stream, AppendResult, next_seq_num}
use concrete.Stream.Append.{record_key}
use concrete.Basin
use concrete.Basin.{Basin}
use concrete.Basin.Create.{IsStored}
use concrete.Controller.{ControllerError, validate_name}
use concrete.Controller.Registry.{
  open_stream, load_or_new_stream, enter_stream, BasinHandle, StreamController, create_basin,
  get_or_create_basin, load_or_new, enter_basin, open_basin, get_stream, Opened,
}
use concrete.Controller.Names.{validate_name-eq, must_not_be_empty}
use concrete.Controller.Actor
use concrete.Controller.Actor.{StreamActor, broadcast}
use concrete.Controller.Registry.Basins.{
  IsConsistent, get_or_create_basin-IsConsistent, get_or_create_basin-stored,
}
use concrete.Controller.Registry.Appends.{append_request-ok, moved_on}
use concrete.Controller.Registry.Requests.{append_request, append_in, command, validate_names}

abbrev empty_store : InMemoryStorage
empty_store = record { tree = []; poisoned = false; seqnum = 0 }

abbrev Controller : Type 0
Controller = StreamController in_memory in_memory

abbrev started : Controller
started = record { meta_storage = empty_store; record_storage = empty_store; basins = [] }

abbrev alone : Controller → Controller
alone c = c

started-IsConsistent : IsConsistent in_memory in_memory in_memory-IsStorage started
started-IsConsistent name h e = cc

not_stopped : (get_or_create_basin in_memory in_memory alone (text "b") 5 started).0 ≢ panic
unfolding get_or_create_basin create_basin load_or_new enter_basin Basin.load Basin.load_value
    Basin.new InMemory.get InMemory.apply
not_stopped e = cc

get_or_create_basin-IsConsistent_example :
    IsConsistent in_memory in_memory in_memory-IsStorage
      (get_or_create_basin in_memory in_memory alone (text "b") 5 started).1
get_or_create_basin-IsConsistent_example =
    get_or_create_basin-IsConsistent in_memory in_memory in_memory-IsStorage alone (text "b") 5
      started (omega arith) started-IsConsistent started-IsConsistent not_stopped

-- After a restart the basin is in the store, and not in the cache.
abbrev restarted : Controller
restarted = record {
  meta_storage = (Basin.new in_memory (text "b") 5 empty_store).1;
  record_storage = empty_store;
  basins = [];
}

restarted-IsConsistent : IsConsistent in_memory in_memory in_memory-IsStorage restarted
restarted-IsConsistent name h e = cc

basin-IsStored : IsStored in_memory in_memory-IsStorage restarted.meta_storage (text "b") 5
unfolding Basin.new InMemory.apply in_memory-IsStorage Basin.deserialise_basin_id
    Basin.construct_metadata_key from_be_bytes to_be_bytes Key.build Key.builder Key.add_u8
    Key.add_u128 Key.put_str
basin-IsStored = (Basin.id_bytes 5, refl, refl)

abbrev reopened : BasinHandle
reopened = record { basin_id = 5; streams = [] }

found_again : (get_or_create_basin in_memory in_memory alone (text "b") 6 restarted).0 ≡ ok reopened
unfolding get_or_create_basin create_basin load_or_new enter_basin open_basin Basin.load
    Basin.load_value Basin.new InMemory.get InMemory.apply Basin.deserialise_basin_id
    Basin.construct_metadata_key from_be_bytes to_be_bytes Key.build Key.builder Key.add_u8
    Key.add_u128 Key.put_str
found_again = refl

get_or_create_basin-stored_example :
    (reopened.basin_id ≡ 5)
    × (((get_or_create_basin in_memory in_memory alone (text "b") 6 restarted).1.meta_storage
          ≡ restarted.meta_storage)
        ⊎ ((get_or_create_basin in_memory in_memory alone (text "b") 6 restarted).1.meta_storage
            ≡ restarted.meta_storage))
get_or_create_basin-stored_example =
    get_or_create_basin-stored in_memory in_memory in_memory-IsStorage alone (text "b") 6 restarted
      reopened 5 (omega arith) restarted-IsConsistent restarted-IsConsistent basin-IsStored
      basin-IsStored found_again

-- A tab and an wide space.
abbrev blank : Str
blank = 0x09 ∷ 0xe3 ∷ 0x80 ∷ 0x80 ∷ []

blank_name : validate_name (text "basin_name") blank ≡ err (must_not_be_empty (text "basin_name"))
unfolding chars
blank_name = rw (validate_name-eq (text "basin_name") blank) refl

-- The first append makes its basin and its stream, and both are then listed.
abbrev first_append : Result ControllerError ℕ × Controller
first_append =
    append_request in_memory in_memory alone (λ o. o) (text "b") (text "s") 5 6 (text "hello")
      started

makes_both : first_append.0 ≡ ok 1
unfolding append_request append_in command validate_names validate_name get_or_create_basin
    create_basin load_or_new enter_basin open_basin Basin.load Basin.load_value Basin.new get_stream
    open_stream load_or_new_stream enter_stream Stream.load Stream.load_metadata Stream.new
    Actor.spawn Actor.call Actor.handle Stream.append Sequence.allocate Sequence.default
    InMemory.get InMemory.apply chars trim_is_empty Basin.construct_metadata_key
    Stream.construct_metadata_key Key.build Key.builder Key.add_u8 Key.add_u128 Key.put_str
makes_both = refl

abbrev fresh : BasinHandle
fresh = record { basin_id = 5; streams = [] }

abbrev with_basin : Controller
with_basin = (get_or_create_basin in_memory in_memory alone (text "b") 5 started).1

basin_made :
    get_or_create_basin in_memory in_memory alone (text "b") 5 started ≡ (ok fresh, with_basin)
unfolding get_or_create_basin create_basin load_or_new enter_basin open_basin Basin.load
    Basin.load_value Basin.new InMemory.get InMemory.apply
basin_made = refl

abbrev actor : StreamActor
actor = record {
  stream = record {
    sequence_number_allocator = record {
      next_sequence_number = 0;
      current_block = record { start = 0; block_size = 4096 };
    };
    metadata = record { basin_id = 5; stream_id = 6 };
  };
  broadcaster = [];
}

abbrev with_stream : Opened in_memory in_memory
with_stream =
    (get_stream in_memory in_memory (λ o. o) (text "s") true 6
      (fresh, with_basin.meta_storage, with_basin.record_storage)).1

stream_made :
    get_stream in_memory in_memory
      (λ o. o)
      (text "s")
      true
      6
      (fresh, with_basin.meta_storage, with_basin.record_storage)
    ≡ (ok (some actor), with_stream)
unfolding get_or_create_basin create_basin load_or_new enter_basin open_basin Basin.load
    Basin.load_value Basin.new get_stream open_stream load_or_new_stream enter_stream Stream.load
    Stream.load_metadata Stream.new Actor.spawn Sequence.default InMemory.get InMemory.apply
    Basin.construct_metadata_key Stream.construct_metadata_key Key.build Key.builder Key.add_u8
    Key.add_u128 Key.put_str
stream_made = refl

append_request-ok_example :
    (1 ≡ 0 + 1)
    × ((g : BasinHandle) × (find (text "b") first_append.1.basins ≡ some g)
        × (find (text "s") g.streams
            ≡ some (some (moved_on in_memory in_memory actor (text "hello")))))
    × (in_memory-IsStorage.contents first_append.1.record_storage (record_key actor.stream 0)
        ≡ some (Record.serialise (record { seq_num = 0; payload = text "hello" })))
    × ((i : ℕ)
        → IsU64 i
        → 0 ≢ i
        → in_memory-IsStorage.contents first_append.1.record_storage (record_key actor.stream i)
          ≡ in_memory-IsStorage.contents with_stream.2 (record_key actor.stream i))
unfolding chars
append_request-ok_example =
    append_request-ok in_memory in_memory alone (λ o. o) (text "b") (text "s") 5 6 (text "hello")
      started with_basin fresh with_stream.0 with_stream.1 with_stream.2 actor in_memory-IsStorage 1
      refl refl basin_made stream_made
      (record { basin = omega arith; stream = omega arith; allocator = omega arith }) makes_both
