-- ===== src/Controller/Registry/Requests.antt =====
-- stream_controller.rs: `append` and the part of `read_follow` before its task.
use concrete.Prelude.{ℕ, true, false, Option}
use concrete.Prelude.Assoc.{put}
use concrete.Prelude.Result.{Result, ok, err, panic, ◌>>=◌, map_ok, map_err}
use concrete.Bytes.{Bytes, Buffers}
use concrete.Text.{Str, text}
use concrete.Storage.Interface.{Storage}
use concrete.Stream.{AppendResult}
use concrete.Controller.{ControllerError, validate_name, map_stream_not_found}
use concrete.Controller.Actor.{
  StreamActor, StreamCommand, append, subscribe, Subscription, Reply, call, append_outcome,
  subscribe_outcome,
}
use concrete.Controller.Registry.{
  BasinHandle, StreamController, get_or_create_basin, get_existing_basin, Opened, get_stream, close,
}

-- The two checks of a request.
unfoldable pub validate_names : Str → Str → Result ControllerError (Unit {0})
validate_names basin_name stream_name = validate_name (text "basin_name") basin_name >>= λ _.
    validate_name (text "stream_name") stream_name

module _ ⦃b : Buffers⦄ (M R : Storage) where
  -- A command to the actor of a stream, whose state is kept with the basin.
  unfoldable pub command :
      {A : Type 0}
      → (Option Reply → Result ControllerError A)
      → StreamCommand
      → Str
      → Result ControllerError (Option StreamActor) × Opened M R
      → Result ControllerError A × Opened M R
  command outcome c stream_name (ok actor, (h, meta, records)) =
      let (answer, actor', records') = call R outcome actor c records in
      (answer, (record h { streams = put stream_name actor' h.streams }, meta, records'))
  command outcome c stream_name (err e, opened) = (err e, opened)
  command outcome c stream_name (panic, opened) = (panic, opened)

  abbrev pub closed :
      {A : Type 0}
      → Str
      → StreamController M R
      → Result ControllerError A × Opened M R
      → Result ControllerError A × StreamController M R
  closed basin_name c (answer, opened) = (answer, close M R basin_name opened c)

  -- What `append` does in a basin that it has got.
  unfoldable pub append_in :
      (Opened M R → Opened M R)
      → Str
      → Str
      → ℕ
      → Bytes
      → Result ControllerError BasinHandle × StreamController M R
      → Result ControllerError ℕ × StreamController M R
  append_in wait basin_name stream_name stream_id payload (ok h, c) =
      let (answer, c') = closed basin_name c (
        command (append_outcome) (append payload) stream_name
          (get_stream M R wait stream_name true stream_id (h, c.meta_storage, c.record_storage))) in
      (map_ok (λ (r : AppendResult). r.next_seq_num) answer, c')
  append_in wait basin_name stream_name stream_id payload (err e, c) = (err e, c)
  append_in wait basin_name stream_name stream_id payload (panic, c) = (panic, c)

  -- `StreamController::append`; the ids are those of a new basin and a new stream.
  unfoldable pub append_request :
      (StreamController M R → StreamController M R)
      → (Opened M R → Opened M R)
      → Str
      → Str
      → ℕ
      → ℕ
      → Bytes
      → StreamController M R
      → Result ControllerError ℕ × StreamController M R
  append_request wait wait' basin_name stream_name basin_id stream_id payload c =
      elim (validate_names basin_name stream_name) [
        | ok _ ↦
            append_in wait' basin_name stream_name stream_id payload
              (get_or_create_basin M R wait basin_name basin_id c)
        | err e ↦ (err e, c)
        | panic ↦ (panic, c)
      ]

  abbrev pub named_error :
      Str
      → Str
      → {A : Type 0} → Result ControllerError A × Opened M R
      → Result ControllerError A × Opened M R
  named_error basin_name stream_name (answer, opened) =
      (map_err (λ e. map_stream_not_found e basin_name stream_name) answer, opened)

  unfoldable pub subscribe_in :
      (Opened M R → Opened M R)
      → Str
      → Str
      → Result ControllerError BasinHandle × StreamController M R
      → Result ControllerError Subscription × StreamController M R
  subscribe_in wait basin_name stream_name (ok h, c) = closed basin_name c (
      command (subscribe_outcome) subscribe stream_name (
        named_error basin_name stream_name
          (get_stream M R wait stream_name false 0 (h, c.meta_storage, c.record_storage))))
  subscribe_in wait basin_name stream_name (err e, c) = (err e, c)
  subscribe_in wait basin_name stream_name (panic, c) = (panic, c)

  -- `StreamController::read_follow` up to the subscription.
  unfoldable pub subscribe_request :
      (StreamController M R → StreamController M R)
      → (Opened M R → Opened M R)
      → Str
      → Str
      → StreamController M R
      → Result ControllerError Subscription × StreamController M R
  subscribe_request wait wait' basin_name stream_name c =
      elim (validate_names basin_name stream_name) [
        | ok _ ↦
            subscribe_in wait' basin_name stream_name (get_existing_basin M R wait basin_name c)
        | err e ↦ (err e, c)
        | panic ↦ (panic, c)
      ]
