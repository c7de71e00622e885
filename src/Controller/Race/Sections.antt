-- ===== src/Controller/Race/Sections.antt =====
-- The critical sections of stream_controller.rs: a task that has the lock of a basin's or a stream's
-- initialisation does what `create_basin`, `load_basin` and `open_stream` say in one step.
use concrete.Prelude.{ℕ, Bool, true, false, Option}
use concrete.Prelude.Result.{Result, map_ok}
use concrete.Bytes.{Buffers}
use concrete.Text.{Str}
use concrete.Storage.Interface.{Storage}
use concrete.Basin
use concrete.Basin.{Basin}
use concrete.Controller.{ControllerError}
use concrete.Controller.Registry.{
  StreamController, BasinHandle, create_basin, load_basin, Opened, open_stream,
}
use concrete.Controller.Actor.{StreamActor}
use concrete.Stream
use concrete.Stream.{Stream}
use concrete.Controller.Race.Streams.{Opening, actor_id}

module _ ⦃b : Buffers⦄ (M R : Storage) (name : Str) where
  abbrev pub by_id :
      Result ControllerError BasinHandle × StreamController M R
      → Result ControllerError ℕ × StreamController M R
  by_id (r, c) = (map_ok (λ h. h.basin_id) r, c)

  abbrev pub basin_section :
      Bool → ℕ → StreamController M R → Result ControllerError ℕ × StreamController M R
  basin_section true id c = by_id (create_basin M R name id c)
  basin_section false id c = by_id (load_basin M R name c)

module _ ⦃b : Buffers⦄ (M R : Storage) (basin_id : ℕ) (name : Str) where
  abbrev opened_from : Opening M R → Opened M R
  opened_from o =
      (record { basin_id = basin_id; streams = o.streams }, o.meta_storage, o.record_storage)

  abbrev pub by_stream_id :
      Result ControllerError (Option StreamActor) × Opened M R
      → Result ControllerError (Option ℕ) × Opening M R
  by_stream_id (r, (h, meta, records)) = (
    map_ok actor_id r,
    record { streams = h.streams; meta_storage = meta; record_storage = records },
  )

  abbrev pub stream_section :
      Bool → ℕ → Opening M R → Result ControllerError (Option ℕ) × Opening M R
  stream_section create id o = by_stream_id (open_stream M R name create id (opened_from o))
