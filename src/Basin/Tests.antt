-- ===== src/Basin/Tests.antt =====
-- A basin in the in-memory store.
use concrete.Prelude.{◌≡◌, ◌≢◌, refl, false, Option, some, List, [], ◌∷◌, map, arith, ◌++◌}
use concrete.Prelude.Sort.{sort_by, IsAscendingBy}
use concrete.Prelude.Result.{ok, panic}
use concrete.Stream
use concrete.Storage.Interface.{StorageRecord}
use concrete.Basin.Views.{view_of-ne-panic}
use concrete.Bytes.{IsBytes, to_be_bytes, from_be_bytes}
use concrete.Bytes.ListBuffers.{list_buffers}
use concrete.Key
use concrete.Key.{prefix_range, next_prefix}
use concrete.Text.{Str, text}
use concrete.Text.Utf8.{from_utf8}
use concrete.Storage.InMemory
use concrete.Storage.InMemory.{InMemoryStorage, in_memory}
use concrete.Storage.InMemory.Lawful.{in_memory-IsStorage, stored}
use concrete.Storage.Laws.{IsAscending}
use concrete.Storage.Scan.{scan_loop}
use concrete.Storage.Listing.{has, is_some, HasByteKeys, HasByteKeys-lookup}
use concrete.Basin
use concrete.Basin.{Basin, BasinView, BasinError, new, load, list}
use concrete.Basin.Create.{load-new}
use concrete.Basin.Listing.{list_basin_names}

abbrev empty_store : InMemoryStorage
empty_store = record { tree = []; poisoned = false; seqnum = 0 }

abbrev rooms : Basin
rooms = record { basin_id = 7; basin_name = text "rooms" }

abbrev meta : InMemoryStorage
meta = (new in_memory (text "rooms") 7 empty_store).1

made : (new in_memory (text "rooms") 7 empty_store).0 ≡ ok rooms
unfolding new InMemory.apply
made = refl

loaded : load in_memory (text "rooms") meta ≡ ok (some rooms)
unfolding new load Basin.deserialise_basin_id InMemory.apply InMemory.get from_be_bytes to_be_bytes
    Basin.construct_metadata_key Key.build Key.builder Key.add_u8 Key.add_u128 Key.put_str
loaded = refl

load-new_example :
    (◌≡◌ {A = Basin} rooms (record { basin_id = 7; basin_name = text "rooms" }))
    × (◌≡◌ {A = Option Basin} (some rooms) (some rooms))
    × ((other : Str)
        → other ≢ text "rooms"
        → stored meta (Basin.construct_metadata_key other)
          ≡ stored empty_store (Basin.construct_metadata_key other))
unfolding in_memory-IsStorage
load-new_example =
    load-new in_memory in_memory-IsStorage (text "rooms") 7 empty_store rooms (some rooms)
      (omega arith) made loaded

abbrev only_rooms : List BasinView
only_rooms = record { basin_name = text "rooms" } ∷ []

listed : list in_memory 2 meta ≡ some (ok only_rooms)
unfolding list Basin.view_of Basin.name_of Basin.deserialise_basin_id InMemory.scan_iter
    InMemory.next scan_loop sort_by from_utf8 prefix_range next_prefix from_be_bytes new
    InMemory.apply to_be_bytes Basin.construct_metadata_key Basin.metadata_prefix Key.build
    Key.builder Key.add_u8 Key.add_u128 Key.put_str
listed = refl

byte_keys : HasByteKeys (λ k. stored meta k)
unfolding new InMemory.apply to_be_bytes Basin.construct_metadata_key Key.build Key.builder
    Key.add_u8 Key.add_u128 Key.put_str
byte_keys = HasByteKeys-lookup meta.tree (omega arith)

meta_IsAscending : IsAscending meta.tree
unfolding new InMemory.apply
meta_IsAscending = (tt, tt)

list_basin_names_example :
    IsAscendingBy (λ (v : BasinView). v.basin_name) only_rooms
    × ((name : Str)
        → IsBytes name
        → has name (map (λ (v : BasinView). v.basin_name) only_rooms)
          ≡ is_some (stored meta (Basin.construct_metadata_key name)))
unfolding in_memory-IsStorage
list_basin_names_example =
    list_basin_names in_memory in_memory-IsStorage meta meta_IsAscending 2 only_rooms byte_keys
      listed

-- A name that is not UTF-8, behind either prefix.
abbrev odd_stream : StorageRecord
odd_stream = record { key = Stream.metadata_prefix 7 ++ 0xff ∷ []; value = [] }

abbrev odd_basin : StorageRecord
odd_basin = record { key = Basin.metadata_prefix ++ 0xff ∷ []; value = [] }

view_of-ne-panic_example : (Stream.view_of 7 odd_stream ≢ panic) × (Basin.view_of odd_basin ≢ panic)
unfolding Stream.metadata_prefix Basin.metadata_prefix Key.build Key.builder Key.add_u8 Key.add_u128
    to_be_bytes
view_of-ne-panic_example = view_of-ne-panic 7 odd_stream odd_basin refl refl
