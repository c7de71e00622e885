-- ===== src/Grpc/Tests.antt =====
-- The service over in-memory stores, and its theorems at a request.
use concrete.Prelude.{◌≡◌, refl, [], false, if◌then◌else◌, ◌++◌}
use concrete.Prelude.Result.{err, ok}
use concrete.Basin
use concrete.Key
use concrete.Bytes.{to_be_bytes, from_be_bytes}
use concrete.Stream
use concrete.Storage.InMemory
use concrete.Controller.Registry.{
  BasinHandle, close, StreamController, get_existing_basin, load_basin, enter_basin, open_basin,
}
use concrete.Grpc.{
  ReadRequest, read, AppendRequest, append, status_invalid_argument, status_not_found,
}
use concrete.Grpc.Missing.{read-missing_stream}
use concrete.Bytes.ListBuffers.{list_buffers}
use concrete.Text.{text}
use concrete.Text.Utf8.{chars}
use concrete.Text.Trim.{all_white}
use concrete.Storage.InMemory.{InMemoryStorage, in_memory}
use concrete.Error
use concrete.Grpc.Statuses.{append-rejected}

abbrev empty_store : InMemoryStorage
empty_store = record { tree = []; poisoned = false; seqnum = 0 }

abbrev started : StreamController in_memory in_memory
started = record { meta_storage = empty_store; record_storage = empty_store; basins = [] }

abbrev request : AppendRequest
request = record { basin_name = text "b"; stream_name = text " "; payload = [] }

append-rejected_example : append in_memory in_memory (λ c. c) (λ o. o) request 1 2 started ≡ (
  err (
      status_invalid_argument (
        (if all_white (chars (text "b")) then text "basin_name" else text "stream_name")
        ++ text " must not be empty")),
  started,
)
unfolding chars
append-rejected_example =
    append-rejected in_memory in_memory (λ c. c) (λ o. o) request 1 2 started refl

abbrev read_request : ReadRequest
read_request = record { basin_name = text "b"; stream_name = text "s"; start_seq_num = 0 }

abbrev opened : BasinHandle
opened = record { basin_id = 7; streams = [] }

-- After a restart: the basin is in the store, and nothing is in the cache.
abbrev restarted : StreamController in_memory in_memory
restarted = record {
  meta_storage = (Basin.new in_memory (text "b") 7 empty_store).1;
  record_storage = empty_store;
  basins = [];
}

abbrev reopened : StreamController in_memory in_memory
reopened = (get_existing_basin in_memory in_memory (λ c. c) (text "b") restarted).1

basin_found :
    get_existing_basin in_memory in_memory (λ c. c) (text "b") restarted ≡ (ok opened, reopened)
unfolding get_existing_basin load_basin enter_basin open_basin Basin.load Basin.load_value Basin.new
    InMemory.get InMemory.apply Basin.deserialise_basin_id Basin.construct_metadata_key
    from_be_bytes to_be_bytes Key.build Key.builder Key.add_u8 Key.add_u128 Key.put_str
basin_found = refl

no_stream_there :
    Stream.load in_memory in_memory 7 (text "s") reopened.meta_storage reopened.record_storage
    ≡ err (Error.stream_does_not_exist (text "s"))
unfolding Stream.load Stream.load_metadata get_existing_basin load_basin enter_basin open_basin
    Basin.load Basin.load_value Basin.new InMemory.get InMemory.apply Basin.deserialise_basin_id
    Basin.construct_metadata_key Stream.construct_metadata_key from_be_bytes to_be_bytes Key.build
    Key.builder Key.add_u8 Key.add_u128 Key.put_str
no_stream_there = refl

read-missing_stream_example : read in_memory in_memory (λ c. c) (λ o. o) read_request restarted ≡ (
  err (status_not_found (text "stream " ++ (text "b" ++ (text "/" ++ text "s")))),
  close in_memory in_memory
      (text "b")
      (opened, reopened.meta_storage, reopened.record_storage)
      reopened,
)
unfolding chars
read-missing_stream_example =
    read-missing_stream in_memory in_memory (λ c. c) (λ o. o) read_request restarted refl refl
      reopened opened (text "s") basin_found refl refl no_stream_there
