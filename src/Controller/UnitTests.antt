-- ===== src/Controller/UnitTests.antt =====
-- The unit tests of stream_controller.rs, run on the model. The ids are two that may be drawn; no
-- other task runs during a call.
use concrete.Prelude.{
  ℕ, zero, suc, ◌+◌, ◌≡◌, refl, Bool, true, false, ◌&&◌, Option, none, some, List, [], ◌∷◌, ◌==◌,
  map, ◌++◌, drop,
}
use concrete.Prelude.Order.{bytes_eq}
use concrete.Prelude.Result.{Result, ok, err, panic}
use concrete.Prelude.Sort.{sort_by}
use concrete.Bytes.{Bytes, to_be_bytes, from_be_bytes}
use concrete.Bytes.ListBuffers.{list_buffers}
use concrete.Key
use concrete.Key.{prefix_range, next_prefix}
use concrete.Text.{Str, text, decimal}
use concrete.Text.Utf8.{chars, from_utf8}
use concrete.Text.Trim.{trim_is_empty}
use concrete.Storage.InMemory
use concrete.Storage.InMemory.{in_memory}
use concrete.Storage.Scan.{scan_loop}
use concrete.Sequence
use concrete.Record
use concrete.Record.{Record}
use concrete.Stream
use concrete.Stream.{Stream, StreamView}
use concrete.Basin
use concrete.Basin.{BasinView}
use concrete.Controller.{ControllerError, validate_name}
use concrete.Controller.Actor
use concrete.Controller.Actor.{StreamActor, Subscription, read, read_outcome}
use concrete.Controller.Follow.{Item, RecvEvent, received, follow, backfill, live}
use concrete.Prelude.Assoc.{find}
use concrete.Controller.Registry.{
  StreamController, BasinHandle, get_or_create_basin, get_existing_basin, create_basin, load_or_new,
  enter_basin, open_basin, get_stream, open_stream, load_or_new_stream, enter_stream, list_basins,
  list_streams, new,
}
use concrete.Controller.Registry.Requests.{
  append_request, append_in, subscribe_request, subscribe_in, command, validate_names,
}

abbrev Controller : Type 0
Controller = StreamController in_memory in_memory

abbrev started : Controller
started = new in_memory in_memory InMemory.new InMemory.new

abbrev alone : Controller → Controller
alone c = c

abbrev appending : Bytes → Controller → Result ControllerError ℕ × Controller
appending payload c =
    append_request in_memory in_memory alone (λ o. o) (text "basin") (text "stream") 1 2 payload c

-- The appends in the order in which the actor gets them: their tails, and whether each succeeded.
abbrev append_all : List ℕ → Controller → Option (List ℕ)
append_all [] c = some []
append_all (idx ∷ rest) c =
    let (answer, c') = appending (text "record-" ++ decimal idx) c in
    let tails = append_all rest c' in
    elim answer [
      | ok tail ↦ elim tails [ some ts ↦ some (tail ∷ ts) | none ↦ none ]
      | err e ↦ none
      | panic ↦ none
    ]

-- `first..=last` of `count` numbers
abbrev range : ℕ → ℕ → List ℕ
range first zero = []
range first (suc count) = first ∷ range (first + 1) count

abbrev are_tails : ℕ → Option (List ℕ) → Bool
are_tails count (some tails) = bytes_eq (sort_by (λ n. n ∷ []) tails) (range 1 count)
are_tails count none = false

abbrev concurrent_appends_are_contiguous_for_one_stream : Bool
concurrent_appends_are_contiguous_for_one_stream = are_tails 32 (append_all (range 0 32) started)

abbrev basin_names : Option (Result ControllerError (List BasinView)) → List Str
basin_names (some (ok views)) = map (λ v. v.basin_name) views
basin_names _ = []

abbrev stream_names : Option (Result ControllerError (List StreamView)) → List Str
stream_names (some (ok views)) = map (λ v. v.stream_name) views
stream_names _ = []

abbrev is_one : Str → List Str → Bool
is_one name (n ∷ []) = bytes_eq name n
is_one name _ = false

abbrev is_ok : Result ControllerError ℕ → Bool
is_ok (ok n) = true
is_ok _ = false

abbrev append_auto_creates_basin_and_stream_for_read_only_views : Bool
append_auto_creates_basin_and_stream_for_read_only_views =
    let (answer, c) = appending (text "hello") started in
    let (streams, c') = list_streams in_memory in_memory alone 2 (text "basin") c in
    is_ok answer
    && (is_one (text "basin") (basin_names (list_basins in_memory in_memory 2 c))
        && is_one (text "stream") (stream_names streams))

creates_passes : append_auto_creates_basin_and_stream_for_read_only_views ≡ true
unfolding append_request append_in command validate_names validate_name get_or_create_basin
    create_basin load_or_new enter_basin open_basin Basin.load Basin.load_value Basin.new get_stream
    open_stream load_or_new_stream enter_stream Stream.load Stream.load_metadata Stream.new
    Actor.spawn Actor.call Actor.handle Stream.append Sequence.allocate Sequence.default
    InMemory.get InMemory.apply chars trim_is_empty Basin.construct_metadata_key
    Stream.construct_metadata_key Key.build Key.builder Key.add_u8 Key.add_u128 Key.put_str
    list_streams get_existing_basin Stream.list Basin.list new InMemory.new InMemory.scan_iter
    prefix_range next_prefix scan_loop InMemory.next Basin.view_of Basin.name_of Stream.view_of
    Stream.name_of Basin.deserialise_basin_id Stream.deserialise Stream.serialise to_be_bytes
    from_be_bytes from_utf8 sort_by Basin.metadata_prefix Stream.metadata_prefix
creates_passes = refl

contiguous_passes : concurrent_appends_are_contiguous_for_one_stream ≡ true
unfolding append_request append_in command validate_names validate_name get_or_create_basin
    create_basin load_or_new enter_basin open_basin Basin.load Basin.load_value Basin.new get_stream
    open_stream load_or_new_stream enter_stream Stream.load Stream.load_metadata Stream.new
    Actor.spawn Actor.call Actor.handle Stream.append Sequence.allocate Sequence.default
    InMemory.get InMemory.apply chars trim_is_empty Basin.construct_metadata_key
    Stream.construct_metadata_key Key.build Key.builder Key.add_u8 Key.add_u128 Key.put_str new
    InMemory.new sort_by
contiguous_passes = refl

abbrev actor_in : Option BasinHandle → Option StreamActor
actor_in (some h) = elim (find (text "stream") h.streams) [ some a ↦ a | none ↦ none ]
actor_in none = none

-- The answers of the actor to reads, and the records that it has sent since the subscription.
abbrev answers : Controller → ℕ → Result ControllerError (Option Record)
answers c n =
    (Actor.call in_memory read_outcome (actor_in (find (text "basin") c.basins)) (read n)
      c.record_storage).0

abbrev sent_since : ℕ → Option StreamActor → List RecvEvent
sent_since receiver (some a) = map received (drop receiver a.broadcaster)
sent_since receiver none = []

abbrev is_record : ℕ → Bytes → Item → Bool
is_record seq_num payload (ok r) = (r.seq_num == seq_num) && bytes_eq r.payload payload
is_record seq_num payload _ = false

abbrev are_first_and_second : List Item → Bool
are_first_and_second (first ∷ second ∷ items) =
    is_record 0 (text "first") first && is_record 1 (text "second") second
are_first_and_second _ = false

abbrev followed : Result ControllerError Subscription × Controller → Bool
followed (ok s, c) =
    let (answer, c') = appending (text "second") c in
    is_ok answer
    && are_first_and_second (
        follow 0 s.next_seq_num (answers c)
          (sent_since s.receiver (actor_in (find (text "basin") c'.basins))) 2)
followed _ = false

abbrev read_stream_backfills_then_follows_tail : Bool
read_stream_backfills_then_follows_tail =
    let (answer, c) = appending (text "first") started in
    is_ok answer
    && followed
        (subscribe_request in_memory in_memory alone (λ o. o) (text "basin") (text "stream") c)

follows_passes : read_stream_backfills_then_follows_tail ≡ true
unfolding append_request append_in command validate_names validate_name get_or_create_basin
    create_basin load_or_new enter_basin open_basin Basin.load Basin.load_value Basin.new get_stream
    open_stream load_or_new_stream enter_stream Stream.load Stream.load_metadata Stream.new
    Actor.spawn Actor.call Actor.handle Stream.append Sequence.allocate Sequence.default
    InMemory.get InMemory.apply chars trim_is_empty Basin.construct_metadata_key
    Stream.construct_metadata_key Key.build Key.builder Key.add_u8 Key.add_u128 Key.put_str new
    InMemory.new subscribe_request subscribe_in get_existing_basin follow backfill live Stream.read
    Record.deserialise Record.serialise Stream.append_batch Stream.construct_stream_record_key
    Key.add_u64 to_be_bytes from_be_bytes Stream.construct_sequence_block_key Sequence.serialise
follows_passes = refl
