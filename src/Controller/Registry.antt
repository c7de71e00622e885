-- ===== src/Controller/Registry.antt =====
-- stream_controller.rs: the controller with its caches of basins and streams. Other tasks may run
-- while a call waits for a lock: `wait` is what they make of the state until then.
pub mod LoadOrNew
pub mod Basins
pub mod Requests
pub mod Appends
mod Tests
use concrete.Prelude.{ℕ, Bool, true, false, Option, none, some, List, [], ◌∷◌, ◌++◌, if◌then◌else◌}
use concrete.Prelude.Assoc.{find, put}
use concrete.Prelude.Result.{Result, ok, err, panic, ◌>>=◌, map_ok, map_err}
use concrete.Bytes.{Bytes, Buffers}
use concrete.Text.{Str, text}
use concrete.Storage.Interface.{Storage}
use concrete.Error.{StreamError, stream_does_not_exist}
use concrete.Stream
use concrete.Stream.{Stream, StreamView, AppendResult}
use concrete.Basin
use concrete.Basin.{Basin, BasinView, BasinError}
use concrete.Controller.{
  ControllerError, not_found, basin, stream, validate_name, map_stream_not_found,
}
use concrete.Controller.Actor.{
  StreamActor, StreamCommand, append, subscribe, Subscription, spawn, call, append_outcome,
  subscribe_outcome,
}

-- The handle of a stream is the name under which the actor is kept; `none` is an actor that is gone.
pub record BasinHandle : Type 0 where
  pub basin_id : ℕ
  pub streams : List (Str × Option StreamActor)

-- `BasinHandle::new`
unfoldable pub open_basin : Basin → BasinHandle
open_basin b = record { basin_id = b.basin_id; streams = [] }

pub record StreamController (M R : Storage) : Type 0 where
  pub meta_storage : M.State
  pub record_storage : R.State
  pub basins : List (Str × BasinHandle)

module _ ⦃b : Buffers⦄ (M R : Storage) where
  -- `StreamController::new`
  unfoldable pub new : M.State → R.State → StreamController M R
  new meta records = record { meta_storage = meta; record_storage = records; basins = [] }

  abbrev pub get_cached_basin : StreamController M R → Str → Option BasinHandle
  get_cached_basin c basin_name = find basin_name c.basins

  -- `Basin::load`, and `Basin::new` where there is none; `basin_id` is the id of a new basin.
  abbrev pub or_new :
      Str → ℕ → M.State → Result BasinError (Option Basin) → Result BasinError Basin × M.State
  or_new basin_name basin_id meta (ok (some found)) = (ok found, meta)
  or_new basin_name basin_id meta (ok none) = Basin.new M basin_name basin_id meta
  or_new basin_name basin_id meta (err e) = (err e, meta)
  or_new basin_name basin_id meta panic = (panic, meta)

  unfoldable pub load_or_new : Str → ℕ → M.State → Result BasinError Basin × M.State
  load_or_new basin_name basin_id meta =
      or_new basin_name basin_id meta (Basin.load M basin_name meta)

  -- What remains under the lock once the basin is there or not: the cache and the result.
  unfoldable pub enter_basin :
      Str
      → Result ControllerError Basin
      → StreamController M R
      → Result ControllerError BasinHandle × StreamController M R
  enter_basin basin_name (ok made) c =
      (ok (open_basin made), record c { basins = put basin_name (open_basin made) c.basins })
  enter_basin basin_name (err e) c = (err e, c)
  enter_basin basin_name panic c = (panic, c)

  unfoldable pub create_basin :
      Str → ℕ → StreamController M R → Result ControllerError BasinHandle × StreamController M R
  create_basin basin_name basin_id c = elim (get_cached_basin c basin_name) [
    | some handle ↦ (ok handle, c)
    | none ↦
        let (made, meta) = load_or_new basin_name basin_id c.meta_storage in
        enter_basin basin_name (map_err basin made) (record c { meta_storage = meta })
  ]

  unfoldable pub get_or_create_basin :
      (StreamController M R → StreamController M R)
      → Str
      → ℕ
      → StreamController M R
      → Result ControllerError BasinHandle × StreamController M R
  get_or_create_basin wait basin_name basin_id c = elim (get_cached_basin c basin_name) [
    | some handle ↦ (ok handle, c)
    | none ↦ create_basin basin_name basin_id (wait c)
  ]

  abbrev pub no_basin : Str → ControllerError
  no_basin basin_name = not_found (text "basin " ++ basin_name)

  abbrev pub require_basin : Str → Option Basin → Result ControllerError Basin
  require_basin basin_name (some found) = ok found
  require_basin basin_name none = err (no_basin basin_name)

  unfoldable pub load_basin :
      Str → StreamController M R → Result ControllerError BasinHandle × StreamController M R
  load_basin basin_name c = elim (get_cached_basin c basin_name) [
    | some handle ↦ (ok handle, c)
    | none ↦
        enter_basin basin_name
          (map_err basin (Basin.load M basin_name c.meta_storage) >>= require_basin basin_name) c
  ]

  unfoldable pub get_existing_basin :
      (StreamController M R → StreamController M R)
      → Str
      → StreamController M R
      → Result ControllerError BasinHandle × StreamController M R
  get_existing_basin wait basin_name c = elim (get_cached_basin c basin_name) [
    | some handle ↦ (ok handle, c)
    | none ↦ load_basin basin_name (wait c)
  ]

  -- A basin and the two stores, as `get_stream` sees them.
  abbrev pub Opened : Type 0
  Opened = BasinHandle × M.State × R.State

  -- `Stream::load`, and `Stream::new` where the stream does not exist and `create` is set.
  unfoldable pub load_or_new_stream :
      ℕ → Str → Bool → ℕ → M.State → R.State → Result StreamError Stream × M.State × R.State
  load_or_new_stream basin_id stream_name create stream_id meta records =
      elim (Stream.load M R basin_id stream_name meta records) [
        | ok found ↦ (ok found, meta, records)
        | err (stream_does_not_exist name) ↦
            if create
            then Stream.new M R basin_id stream_name stream_id meta records
            else (err (stream_does_not_exist name), meta, records)
        | err e ↦ (err e, meta, records)
        | panic ↦ (panic, meta, records)
      ]

  unfoldable pub enter_stream :
      Str
      → BasinHandle
      → Result StreamError Stream × M.State × R.State
      → Result ControllerError (Option StreamActor) × Opened
  enter_stream stream_name h (ok s, meta, records) = (
    ok (some (spawn s)),
    (record h { streams = put stream_name (some (spawn s)) h.streams }, meta, records),
  )
  enter_stream stream_name h (err e, meta, records) = (err (stream e), (h, meta, records))
  enter_stream stream_name h (panic, meta, records) = (panic, (h, meta, records))

  unfoldable pub open_stream :
      Str → Bool → ℕ → Opened → Result ControllerError (Option StreamActor) × Opened
  open_stream stream_name create stream_id (h, meta, records) = elim (find stream_name h.streams) [
    | some actor ↦ (ok actor, (h, meta, records))
    | none ↦
        enter_stream stream_name h
          (load_or_new_stream h.basin_id stream_name create stream_id meta records)
  ]

  unfoldable pub get_stream :
      (Opened → Opened)
      → Str
      → Bool
      → ℕ
      → Opened
      → Result ControllerError (Option StreamActor) × Opened
  get_stream wait stream_name create stream_id (h, meta, records) =
      elim (find stream_name h.streams) [
        | some actor ↦ (ok actor, (h, meta, records))
        | none ↦ open_stream stream_name create stream_id (wait (h, meta, records))
      ]

  -- The state of the controller once a basin's handle has changed.
  abbrev pub close : Str → Opened → StreamController M R → StreamController M R
  close basin_name (h, meta, records) c = record {
    meta_storage = meta;
    record_storage = records;
    basins = put basin_name h c.basins;
  }

  -- `list_basins` and `list_streams`; `fuel` is for the loops over the entries.
  abbrev pub list_basins :
      ℕ → StreamController M R → Option (Result ControllerError (List BasinView))
  list_basins fuel c = elim (Basin.list M fuel c.meta_storage) [
    | some r ↦ some (map_err basin r)
    | none ↦ none
  ]

  abbrev pub list_in :
      ℕ
      → Result ControllerError BasinHandle × StreamController M R
      → Option (Result ControllerError (List StreamView)) × StreamController M R
  list_in fuel (ok h, c) = (
    elim (Stream.list M fuel h.basin_id c.meta_storage) [
      | some r ↦ some (map_err stream r)
      | none ↦ none
    ],
    c,
  )
  list_in fuel (err e, c) = (some (err e), c)
  list_in fuel (panic, c) = (some panic, c)

  unfoldable pub list_streams :
      (StreamController M R → StreamController M R)
      → ℕ
      → Str
      → StreamController M R
      → Option (Result ControllerError (List StreamView)) × StreamController M R
  list_streams wait fuel basin_name c = elim (validate_name (text "basin_name") basin_name) [
    | ok _ ↦ list_in fuel (get_existing_basin wait basin_name c)
    | err e ↦ (some (err e), c)
    | panic ↦ (some panic, c)
  ]
