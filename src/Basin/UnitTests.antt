-- ===== src/Basin/UnitTests.antt =====
-- The unit test of basin/basin.rs, run on the model. The ids are two that may be drawn.
use concrete.Prelude.{◌≡◌, refl, Bool, true, false, ◌&&◌, Option, some, List, [], ◌∷◌}
use concrete.Prelude.Order.{bytes_eq}
use concrete.Prelude.Result.{Result, ok}
use concrete.Bytes.ListBuffers.{list_buffers}
use concrete.Text.{Str, text}
use concrete.Storage.InMemory
use concrete.Storage.InMemory.{in_memory}
use concrete.Key
use concrete.Key.{prefix_range, next_prefix}
use concrete.Storage.Scan.{scan_loop}
use concrete.Text.Utf8.{from_utf8}
use concrete.Prelude.Sort.{sort_by}
use concrete.Bytes.{to_be_bytes, from_be_bytes}
use concrete.Basin.{
  metadata_prefix, construct_metadata_key, view_of, name_of, deserialise_basin_id, BasinView,
  BasinError, new, list,
}

abbrev names_eq : List Str → List BasinView → Bool
names_eq [] [] = true
names_eq (n ∷ names) (v ∷ views) = bytes_eq n v.basin_name && names_eq names views
names_eq _ _ = false

abbrev lists_names : List Str → Option (Result BasinError (List BasinView)) → Bool
lists_names names (some (ok views)) = names_eq names views
lists_names names _ = false

abbrev is_ok : {A : Type 0} → Result BasinError A → Bool
is_ok (ok a) = true
is_ok _ = false

abbrev list_basins_from_metadata_storage : Bool
list_basins_from_metadata_storage =
    let first = new in_memory (text "b") 1 InMemory.new in
    let second = new in_memory (text "a") 2 first.1 in
    is_ok first.0
    && (is_ok second.0 && lists_names (text "a" ∷ text "b" ∷ []) (list in_memory 3 second.1))

list_passes : list_basins_from_metadata_storage ≡ true
unfolding new list InMemory.new InMemory.scan_iter InMemory.apply prefix_range next_prefix
    metadata_prefix Key.build Key.add_u8 Key.builder scan_loop InMemory.next construct_metadata_key
    Key.put_str view_of deserialise_basin_id Key.add_u128 to_be_bytes name_of from_be_bytes
    from_utf8 sort_by
list_passes = refl
