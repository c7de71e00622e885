-- ===== src/Basin.antt =====
-- basin/: a basin, its errors, and its entry in the store of metadata.
pub mod Listing
pub mod Create
pub mod Views
mod Tests
mod UnitTests
use concrete.Prelude.{
  else_eq, refl, ltb→le, arith, ℕ, ◌+◌, ◌≡◌, Option, none, some, List, [], ◌∷◌, ◌++◌, length, take,
  drop, ltb, if◌then◌else◌,
}
use concrete.Prelude.Sort.{sort_by}
use concrete.Prelude.Result.{Result, ok, err, panic, ◌>>=◌, map_err, map_ok}
use concrete.Bytes.{slice, int_from, Bytes, Buffers, from_be_bytes, slice_from}
use concrete.Bytes.Slices.{int_at}
use concrete.Text.{Str, text, decimal}
use concrete.Text.Utf8.{from_utf8, utf8_message}
use concrete.Storage.Error.{StorageError, storage_message}
use concrete.Storage.Interface.{StorageRecord, Storage}
use concrete.Storage.Scan.{scan_loop}
use concrete.Key.{builder, add_u8, add_u128, put_str, build, prefix_range, meta_basin_prefix_key}
use concrete.Error.{StreamError, stream_message}
use mathlib.Core.Option

pub data BasinError : Type 0 where
  stream_error : ℕ → StreamError → BasinError
  deserialise_error : Str → BasinError
  storage_error : Str → StorageError → BasinError

-- `Display`
unfoldable pub basin_message : BasinError → Str
basin_message (stream_error id e) =
    text "Stream in basin " ++ (decimal id ++ (text " error: " ++ stream_message e))
basin_message (deserialise_error message) = message
basin_message (storage_error message e) = message ++ (text ": " ++ storage_message e)

pub record BasinView : Type 0 where
  pub basin_name : Str

pub record Basin : Type 0 where
  pub basin_id : ℕ
  pub basin_name : Str

unfoldable pub deserialise_basin_id : Bytes → Result BasinError ℕ
deserialise_basin_id bytes =
    if ltb (length bytes) 16
    then err (
        deserialise_error
          (text "basin metadata should be at least 16 bytes, got " ++ decimal (length bytes)))
    else slice bytes 0 16 >>= int_from 16

-- Behind the guard the slice of the id is in bounds.
pub deserialise_basin_id-eq :
    (bytes : Bytes)
    → deserialise_basin_id bytes ≡ (
        if ltb (length bytes) 16
        then err (
            deserialise_error
              (text "basin metadata should be at least 16 bytes, got " ++ decimal (length bytes)))
        else ok (from_be_bytes (take 16 bytes)))
unfolding deserialise_basin_id
deserialise_basin_id-eq bytes = else_eq (ltb (length bytes) 16) _ _ _ (λ long.
    let enough = ltb→le (length bytes) 16 long in
    (rw (int_at bytes 0 16 (omega arith) (omega (arith, enough))) refl))

module _ ⦃b : Buffers⦄ where
  unfoldable pub construct_metadata_key : Str → Bytes
  construct_metadata_key basin_name =
      build (put_str basin_name (add_u8 meta_basin_prefix_key (builder (1 + length basin_name))))

  unfoldable pub metadata_prefix : Bytes
  metadata_prefix = build (add_u8 meta_basin_prefix_key (builder 1))

  abbrev pub id_bytes : ℕ → Bytes
  id_bytes basin_id = build (add_u128 basin_id (builder 16))

  -- `Basin::new`; `basin_id` is what `Uuid::new_v4` returned.
  unfoldable pub new : (M : Storage) → Str → ℕ → M.State → Result BasinError Basin × M.State
  new M basin_name basin_id meta =
      let (written, meta') =
        M.apply meta
          (record { key = construct_metadata_key basin_name; value = id_bytes basin_id } ∷ []) in
      let made : Basin = record { basin_id = basin_id; basin_name = basin_name } in
      (
        map_ok (λ _. made) (map_err (storage_error (text "error applying basin metadata")) written),
        meta',
      )

  -- The basin of a value that is stored, if there is one.
  unfoldable pub load_value : Str → Option StorageRecord → Result BasinError (Option Basin)
  load_value basin_name none = ok none
  load_value basin_name (some r) =
      map_ok (λ id. some (record { basin_id = id; basin_name = basin_name }))
        (deserialise_basin_id r.value)

  unfoldable pub load : (M : Storage) → Str → M.State → Result BasinError (Option Basin)
  unfolding load_value
  load M basin_name meta =
      map_err (storage_error (text "error loading basin metadata"))
        (M.get meta (construct_metadata_key basin_name))
      >>= load_value basin_name

  -- The body of the loop of `list`.
  unfoldable pub name_of : StorageRecord → Result BasinError BasinView
  name_of r = slice_from r.key (length metadata_prefix) >>= λ name.
      map_ok (λ name. record { basin_name = name })
        (map_err (λ e. deserialise_error (utf8_message e)) (from_utf8 name))

  unfoldable pub view_of : StorageRecord → Result BasinError BasinView
  view_of r = deserialise_basin_id r.value >>= λ _. name_of r

  abbrev pub listing_error : StorageError → BasinError
  listing_error = storage_error (text "error listing basins")

  -- From the iterator on; `none` says that `fuel` rounds of the loop are not enough.
  unfoldable pub list_from :
      (M : Storage) → ℕ → Result StorageError M.Iter → Option (Result BasinError (List BasinView))
  list_from M fuel (ok it) =
      Option.map (map_ok (sort_by (λ v. v.basin_name))) (scan_loop M view_of listing_error fuel it)
  list_from M fuel (err e) = some (err (listing_error e))
  list_from M fuel panic = some panic

  unfoldable pub list : (M : Storage) → ℕ → M.State → Option (Result BasinError (List BasinView))
  unfolding list_from
  list M fuel meta = list_from M fuel (M.scan_iter meta (prefix_range metadata_prefix))
