-- ===== src/Controller/Registry/Appends.antt =====
-- `append` of the controller, once it has its basin and its stream.
use concrete.Prelude.{
  ◌≢◌, ◌++◌, [], ◌∷◌, ◌==◌, ℕ, ◌+◌, ◌≡◌, refl, sym, ap, ◌∙◌, Option, some, true, false, arith,
}
use concrete.Prelude.Assoc.{find, put, find-put}
use concrete.Prelude.Result.{Result, ok, err, panic, map_ok, map_ok-eq-ok}
use concrete.Bytes.{Bytes, Buffers, IsU64}
use concrete.Text.{Str}
use concrete.Prelude.Order.{bytes_eq_refl}
use concrete.Text.Utf8.{chars}
use concrete.Text.Trim.{all_white}
use concrete.Error.{StreamError}
use concrete.Storage.Interface.{Storage}
use concrete.Storage.Laws.{IsStorage, write_all, Contents}
use concrete.Stream
use concrete.Stream.{Stream, AppendResult, next_seq_num}
use concrete.Stream.Append.{IsReady, appended, append_ok, batch_of, next_record, record_key}
use concrete.Stream.Keys.{record_key-ne-block_key}
use concrete.Stream.Recovery.{batch-record}
use concrete.Controller.Log.Represents.{same_record_key}
use concrete.Record
use concrete.Controller.{ControllerError}
use concrete.Controller.Names.{validate_names_ok}
use concrete.Controller.Actor.{
  StreamActor, handle, call, append, answered, survives, append_outcome, append_reply,
}
use concrete.Controller.Registry.{
  BasinHandle, StreamController, get_or_create_basin, Opened, get_stream, close,
}
use concrete.Controller.Registry.Requests.{append_request, append_in, command}

module _ ⦃b : Buffers⦄ (M R : Storage) where
  -- The answer of the actor, and the actor after it.
  reply_ok :
      (a a' : StreamActor) (result : Result StreamError AppendResult) (res : AppendResult)
      → append_outcome (answered append_reply result) ≡ ok res
      → (result ≡ ok res) × (survives result a' ≡ some a')
  reply_ok a a' (ok x) res e = (ground (arith, e), refl)
  reply_ok a a' (err x) res e = cc
  reply_ok a a' panic res e = cc

  -- The record that the actor is to write, and its answer.
  abbrev pub acknowledgement : StreamActor → Bytes → AppendResult
  acknowledgement a payload = record {
    stored = next_record a.stream payload;
    next_seq_num = next_seq_num a.stream + 1;
  }

  abbrev pub moved_on : StreamActor → Bytes → StreamActor
  moved_on a payload = record {
    stream = appended a.stream;
    broadcaster = a.broadcaster ++ next_record a.stream payload ∷ [];
  }

  call_append_ok :
      (L : IsStorage R) (a : StreamActor) (payload : Bytes) (records : R.State) (res : AppendResult)
      → IsReady a.stream
      → (call R (append_outcome) (some a) (append payload) records).0 ≡ ok res
      → (res.next_seq_num ≡ next_seq_num a.stream + 1)
        × ((call R (append_outcome) (some a) (append payload) records).1
            ≡ some (moved_on a payload))
        × ((k : Bytes)
            → L.contents (call R (append_outcome) (some a) (append payload) records).2 k
              ≡ write_all (batch_of a.stream payload) (L.contents records) k)
  unfolding call handle
  call_append_ok L a payload records res h e =
      let result = (Stream.append R a.stream payload records).0 in
      let (done, lives) = reply_ok a a result res e in
      let (same, moved, written) = append_ok R L a.stream payload records res h done in
      (
        ap (λ (r : AppendResult). r.next_seq_num) same,
        rw done (
            rw moved (
              ap
                (λ (r : AppendResult). some (record {
                  stream = appended a.stream;
                  broadcaster = a.broadcaster ++ r.stored ∷ [];
                }))
                same)),
        written,
      )

  -- At the keys of the stream's records, the batch of an append writes its record and no other.
  record_written :
      (a : StreamActor) (payload : Bytes) (m : Contents)
      → write_all (batch_of a.stream payload) m (record_key a.stream (next_seq_num a.stream))
        ≡ some (Record.serialise (next_record a.stream payload))
  record_written a payload m =
      batch-record a.stream payload m _ (record_key-ne-block_key _ _ _ _ _)
      ∙ rw (bytes_eq_refl (record_key a.stream (next_seq_num a.stream)))

  others_kept :
      (a : StreamActor) (payload : Bytes) (m : Contents) (i : ℕ)
      → IsReady a.stream
      → IsU64 i
      → next_seq_num a.stream ≢ i
      → write_all (batch_of a.stream payload) m (record_key a.stream i) ≡ m (record_key a.stream i)
  others_kept a payload m i h hi other =
      batch-record a.stream payload m _ (record_key-ne-block_key _ _ _ _ _)
      ∙ rw
          (same_record_key a.stream (next_seq_num a.stream) i h (omega (arith, h.allocator.room))
            hi)
          (let differs : (next_seq_num a.stream == i) ≡ false = ground arith in rw differs refl)

  module _ (wait : StreamController M R → StreamController M R) (wait' : Opened M R → Opened M R)
      (basin_name stream_name : Str) (basin_id stream_id : ℕ) (payload : Bytes)
      (c c' : StreamController M R) (h h' : BasinHandle) (meta : M.State) (records : R.State)
      (a : StreamActor) where
    abbrev called : Result ControllerError AppendResult × Option StreamActor × R.State
    called = call R (append_outcome) (some a) (append payload) records

    abbrev after : StreamController M R
    after =
        close M R basin_name
          (record h' { streams = put stream_name called.1 h'.streams }, meta, called.2) c'

    append_at :
        all_white (chars basin_name) ≡ false
        → all_white (chars stream_name) ≡ false
        → get_or_create_basin M R wait basin_name basin_id c ≡ (ok h, c')
        → get_stream M R wait' stream_name true stream_id (h, c'.meta_storage, c'.record_storage)
          ≡ (ok (some a), (h', meta, records))
        → append_request M R wait wait' basin_name stream_name basin_id stream_id payload c
          ≡ (map_ok (λ (r : AppendResult). r.next_seq_num) called.0, after)
    unfolding append_request append_in command
    append_at nb ns e e' =
        rw (validate_names_ok basin_name stream_name nb ns, append_request) (rw e (rw e' refl))

    -- An append that is acknowledged, whether its basin and its stream were in the cache, loaded or made for it: with
    -- the stream that the call got and its actor, it has returned the number behind the actor's next one, has moved the
    -- actor in the cache on by it, has sent the record to its subscribers, and has written the record under its number
    -- and no other record of the stream.
    pub append_request-ok :
        (L : IsStorage R) (n : ℕ)
        → all_white (chars basin_name) ≡ false
        → all_white (chars stream_name) ≡ false
        → get_or_create_basin M R wait basin_name basin_id c ≡ (ok h, c')
        → get_stream M R wait' stream_name true stream_id (h, c'.meta_storage, c'.record_storage)
          ≡ (ok (some a), (h', meta, records))
        → IsReady a.stream
        → (append_request M R wait wait' basin_name stream_name basin_id stream_id payload c).0
          ≡ ok n
        → let c'' =
            (append_request M R wait wait' basin_name stream_name basin_id stream_id payload c).1 in
          (n ≡ next_seq_num a.stream + 1)
          × ((g : BasinHandle) × (find basin_name c''.basins ≡ some g)
              × (find stream_name g.streams ≡ some (some (moved_on a payload))))
          × (L.contents c''.record_storage (record_key a.stream (next_seq_num a.stream))
              ≡ some (Record.serialise (next_record a.stream payload)))
          × ((i : ℕ)
              → IsU64 i
              → next_seq_num a.stream ≢ i
              → L.contents c''.record_storage (record_key a.stream i)
                ≡ L.contents records (record_key a.stream i))
    append_request-ok L n nb ns e e' ready done =
        let same = append_at nb ns e e' in
        let (res, got, number) = map_ok-eq-ok _ called.0 (rw same at done) in
        let (next, moved, written) = call_append_ok L a payload records res ready got in
        rw same (
          sym number ∙ next,
          (
            record h' { streams = put stream_name called.1 h'.streams },
            find-put basin_name _ c'.basins,
            find-put stream_name called.1 h'.streams ∙ ap some moved,
          ),
          written (record_key a.stream (next_seq_num a.stream))
              ∙ record_written a payload (L.contents records),
          λ i hi other.
              written (record_key a.stream i)
              ∙ others_kept a payload (L.contents records) i ready hi other,
        )
