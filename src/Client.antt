-- ===== src/Client.antt =====
-- The client library (crates/slatestreams-client/src/lib.rs) over the generated client of the service.
pub mod Collect
pub mod EndToEnd
pub mod Demo
use concrete.Prelude.{Bool, if◌then◌else◌, ℕ, Option, none, some, List, [], ◌∷◌, ◌++◌, map}
use concrete.Prelude.Result.{Result, ok, err, panic, map_ok}
use concrete.Bytes.{Bytes}
use concrete.Text.{Str}
use concrete.Text.Utf8.{Utf8Error, from_utf8}
use concrete.Grpc.{
  Status, AppendRequest, AppendResponse, ReadRequest, StreamRecord, Streaming, BasinView,
  StreamView,
}

-- `StreamServiceClient<Channel>`: each call takes the state of the connection to another.
pub record StreamServiceClient : Type 1 where
  pub State : Type 0
  pub TransportError : Type 0
  pub connect : Str → Result TransportError State
  pub append : State → AppendRequest → Result Status AppendResponse × State
  pub read : State → ReadRequest → Result Status Streaming × State
  pub list_basins : State → Result Status (List BasinView) × State
  pub list_streams : State → Str → Result Status (List StreamView) × State

-- `payload` is the field `data`.
pub record Record : Type 0 where
  pub seq_num : ℕ
  pub payload : Bytes

-- `From<StreamRecord>`
unfoldable pub from : StreamRecord → Record
from r = record { seq_num = r.seq_num; payload = r.payload }

unfoldable pub data_as_str : Record → Result Utf8Error Str
data_as_str r = from_utf8 r.payload

-- What the server's stream has left.
pub record RecordStream : Type 0 where
  pub inner : Streaming

-- `none` says that the call waits, since the server's stream is open and has sent nothing more.
unfoldable pub next : RecordStream → Option (Option (Result Status Record) × RecordStream)
next s = elim s.inner.items [
  | [] ↦ if s.inner.ended then some (none, s) else none
  | item ∷ rest ↦
      some
        (some (map_ok from item), record { inner = record { items = rest; ended = s.inner.ended } })
]

-- The loop of `collect` over the items that `next` returns; `none` where `next` waits.
unfoldable pub collect_loop :
    List Record → List (Result Status StreamRecord) → Bool → Option (Result Status (List Record))
collect_loop records [] ended = if ended then some (ok records) else none
collect_loop records (ok r ∷ items) ended = collect_loop (records ++ from r ∷ []) items ended
collect_loop records (err status ∷ items) ended = some (err status)
collect_loop records (panic ∷ items) ended = some panic

unfoldable pub collect : RecordStream → Option (Result Status (List Record))
unfolding collect_loop
collect s = collect_loop [] s.inner.items s.inner.ended

module _ (C : StreamServiceClient) where
  -- `Client` is the state of its connection.
  unfoldable pub connect : Str → Result C.TransportError C.State
  connect uri = C.connect uri

  unfoldable pub append : C.State → Str → Str → Bytes → Result Status ℕ × C.State
  append s basin stream payload =
      let (resp, s') =
        C.append s (record { basin_name = basin; stream_name = stream; payload = payload }) in
      (map_ok (λ (r : AppendResponse). r.next_seq_num) resp, s')

  unfoldable pub read : C.State → Str → Str → ℕ → Result Status RecordStream × C.State
  read s basin stream start_seq_num =
      let (resp, s') =
        C.read s
          (record { basin_name = basin; stream_name = stream; start_seq_num = start_seq_num }) in
      (map_ok (λ items. record { inner = items }) resp, s')

  unfoldable pub list_basins : C.State → Result Status (List Str) × C.State
  list_basins s =
      let (resp, s') = C.list_basins s in (map_ok (map (λ (v : BasinView). v.basin_name)) resp, s')

  unfoldable pub list_streams : C.State → Str → Result Status (List Str) × C.State
  list_streams s basin =
      let (resp, s') = C.list_streams s basin in
      (map_ok (map (λ (v : StreamView). v.stream_name)) resp, s')
