-- ===== src/Grpc.antt =====
-- grpc.rs: the service, which passes requests to the controller and turns its errors into statuses.
pub mod Statuses
pub mod Missing
mod Tests
use concrete.Prelude.{Bool, ℕ, Bool, Option, none, some, List, [], ◌∷◌, ◌++◌, map}
use concrete.Prelude.Result.{Result, ok, err, panic, map_ok, map_err}
use concrete.Bytes.{Bytes, Buffers}
use concrete.Text.{Str, text}
use concrete.Storage.Interface.{Storage}
use concrete.Error
use concrete.Record.{Record}
use concrete.Stream
use concrete.Basin
use concrete.Controller.{
  ControllerError, invalid_argument, not_found, stream, reader_lagged, controller_message,
}
use concrete.Controller.Actor.{Subscription}
use concrete.Controller.Follow.{Item, RecvEvent, follow, follow_returned}
use concrete.Controller.Registry.{StreamController, Opened, list_basins, list_streams}
use concrete.Controller.Registry.Requests.{append_request, subscribe_request}

-- `tonic::Status`: a code and a message
pub data Status : Type 0 where
  status_invalid_argument status_not_found status_resource_exhausted status_internal : Str → Status

unfoldable pub controller_error_to_status : ControllerError → Status
controller_error_to_status (invalid_argument message) = status_invalid_argument message
controller_error_to_status (not_found message) = status_not_found message
controller_error_to_status reader_lagged =
    status_resource_exhausted (controller_message reader_lagged)
controller_error_to_status (stream (Error.stream_does_not_exist stream_name)) =
    status_not_found (text "stream " ++ stream_name)
controller_error_to_status other = status_internal (controller_message other)

pub record AppendRequest : Type 0 where
  pub basin_name : Str
  pub stream_name : Str
  pub payload : Bytes

pub record AppendResponse : Type 0 where
  pub next_seq_num : ℕ

pub record ReadRequest : Type 0 where
  pub basin_name : Str
  pub stream_name : Str
  pub start_seq_num : ℕ

pub record StreamRecord : Type 0 where
  pub seq_num : ℕ
  pub payload : Bytes

pub record BasinView : Type 0 where
  pub basin_name : Str

pub record StreamView : Type 0 where
  pub stream_name : Str

-- `Self::ReadStream`: the items that are sent, and whether the stream has ended after them or stays
-- open.
pub record Streaming : Type 0 where
  pub items : List (Result Status StreamRecord)
  pub ended : Bool

-- An item of the stream that `read` returns.
unfoldable pub stream_record : Item → Result Status StreamRecord
stream_record item =
    map_err controller_error_to_status
      (map_ok (λ (r : Record). record { seq_num = r.seq_num; payload = r.payload }) item)

-- The stream of a subscription that takes from `start` on.
unfoldable pub served :
    ℕ → ℕ → (ℕ → Result ControllerError (Option Record)) → List RecvEvent → ℕ → Streaming
served start_seq_num next_seq_num reads events accepts = record {
  items = map stream_record (follow start_seq_num next_seq_num reads events accepts);
  ended = follow_returned start_seq_num next_seq_num reads events accepts;
}

module _ ⦃b : Buffers⦄ (M R : Storage) (wait : StreamController M R → StreamController M R)
    (wait' : Opened M R → Opened M R) where
  unfoldable pub append :
      AppendRequest
      → ℕ
      → ℕ
      → StreamController M R
      → Result Status AppendResponse × StreamController M R
  append request basin_id stream_id c =
      let (next_seq_num, c') =
        append_request M R wait wait' request.basin_name request.stream_name basin_id stream_id
          request.payload c in
      (
        map_ok (λ n. record { next_seq_num = n }) (map_err controller_error_to_status next_seq_num),
        c',
      )

  -- `read`: the subscription, and what its task then makes of the answers and events that it gets.
  unfoldable pub read :
      ReadRequest
      → StreamController M R
      → Result Status
          ((ℕ → Result ControllerError (Option Record)) → List RecvEvent → ℕ → Streaming)
        × StreamController M R
  read request c =
      let (subscription, c') =
        subscribe_request M R wait wait' request.basin_name request.stream_name c in
      (
        map_ok
            (λ (s : Subscription) reads events accepts.
              served request.start_seq_num s.next_seq_num reads events accepts)
            (map_err controller_error_to_status subscription),
        c',
      )

  unfoldable pub basins_response :
      ℕ → StreamController M R → Option (Result Status (List BasinView))
  basins_response fuel c = elim (list_basins M R fuel c) [
    | some r ↦ some (
        map_ok (map (λ (v : Basin.BasinView). record { basin_name = v.basin_name }))
          (map_err controller_error_to_status r))
    | none ↦ none
  ]

  unfoldable pub streams_response :
      ℕ
      → Str
      → StreamController M R
      → Option (Result Status (List StreamView)) × StreamController M R
  streams_response fuel basin_name c =
      let (listed, c') = list_streams M R wait fuel basin_name c in
      (
        elim listed [
          | some r ↦ some (
              map_ok (map (λ (v : Stream.StreamView). record { stream_name = v.stream_name }))
                (map_err controller_error_to_status r))
          | none ↦ none
        ],
        c',
      )
