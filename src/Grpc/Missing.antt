-- ===== src/Grpc/Missing.antt =====
-- A read of what does not exist.
use concrete.Prelude.{◌≡◌, refl, none, false, ◌++◌}
use concrete.Prelude.Assoc.{find}
use concrete.Prelude.Result.{ok, err}
use concrete.Bytes.{Buffers}
use concrete.Text.{Str, text}
use concrete.Text.Utf8.{chars}
use concrete.Text.Trim.{all_white}
use concrete.Error
use concrete.Storage.Interface.{Storage}
use concrete.Stream
use concrete.Basin
use concrete.Controller.{map_stream_not_found, stream}
use concrete.Controller.Names.{validate_names_ok}
use concrete.Controller.Registry.{
  BasinHandle, StreamController, Opened, get_existing_basin, load_basin, enter_basin, get_stream,
  open_stream, load_or_new_stream, enter_stream, close, no_basin,
}
use concrete.Controller.Registry.Requests.{subscribe_request, subscribe_in, command}
use concrete.Grpc.{status_not_found, controller_error_to_status, ReadRequest, read}

module _ ⦃b : Buffers⦄ (M R : Storage) (wait : StreamController M R → StreamController M R)
    (wait' : Opened M R → Opened M R) (request : ReadRequest) (c : StreamController M R)
    (named : all_white (chars request.basin_name) ≡ false)
    (named' : all_white (chars request.stream_name) ≡ false) where
  absent :
      find request.basin_name c.basins ≡ none
      → find request.basin_name (wait c).basins ≡ none
      → Basin.load M request.basin_name (wait c).meta_storage ≡ ok none
      → get_existing_basin M R wait request.basin_name c
        ≡ (err (no_basin M R request.basin_name), wait c)
  unfolding get_existing_basin load_basin enter_basin
  absent e e' missing = rw (e, get_existing_basin) (rw (e', load_basin) (rw missing refl))

  -- A read of a basin that is neither in the cache nor in the store, also when the call gets the lock, is answered with
  -- the code of a missing thing and the basin's name; it enters nothing and writes nothing.
  read-missing_basin :
      find request.basin_name c.basins ≡ none
      → find request.basin_name (wait c).basins ≡ none
      → Basin.load M request.basin_name (wait c).meta_storage ≡ ok none
      → read M R wait wait' request c
        ≡ (err (status_not_found (text "basin " ++ request.basin_name)), wait c)
  unfolding read subscribe_request subscribe_in controller_error_to_status
  read-missing_basin e e' missing =
      rw (validate_names_ok request.basin_name request.stream_name named named', subscribe_request)
        (rw (absent e e' missing) refl)

  not_made :
      (o : Opened M R) (name : Str)
      → Stream.load M R o.0.basin_id request.stream_name o.1 o.2
        ≡ err (Error.stream_does_not_exist name)
      → load_or_new_stream M R o.0.basin_id request.stream_name false 0 o.1 o.2
        ≡ (err (Error.stream_does_not_exist name), o.1, o.2)
  unfolding load_or_new_stream
  not_made o name missing = rw (missing, load_or_new_stream) refl

  absent_stream :
      (c : StreamController M R) (h : BasinHandle) (name : Str)
      → find request.stream_name h.streams ≡ none
      → find request.stream_name (wait' (h, c.meta_storage, c.record_storage)).0.streams ≡ none
      → Stream.load M R
          (wait' (h, c.meta_storage, c.record_storage)).0.basin_id
          request.stream_name
          (wait' (h, c.meta_storage, c.record_storage)).1
          (wait' (h, c.meta_storage, c.record_storage)).2
        ≡ err (Error.stream_does_not_exist name)
      → get_stream M R wait' request.stream_name false 0 (h, c.meta_storage, c.record_storage) ≡ (
        err (stream (Error.stream_does_not_exist name)),
        wait' (h, c.meta_storage, c.record_storage),
      )
  unfolding get_stream open_stream enter_stream
  absent_stream c h name e e' missing =
      rw (e, get_stream)
        (rw (e', open_stream)
          (rw (not_made (wait' (h, c.meta_storage, c.record_storage)) name missing) refl))

  -- A read of a stream of a basin that was found, in the cache or in the store: if the stream is neither in the cache
  -- nor in the stores, also when the call gets the lock, it is answered with the code of a missing thing and the names
  -- of the basin and the stream, and makes no stream.
  pub read-missing_stream :
      (c' : StreamController M R) (h : BasinHandle) (name : Str)
      → get_existing_basin M R wait request.basin_name c ≡ (ok h, c')
      → find request.stream_name h.streams ≡ none
      → find request.stream_name (wait' (h, c'.meta_storage, c'.record_storage)).0.streams ≡ none
      → Stream.load M R
          (wait' (h, c'.meta_storage, c'.record_storage)).0.basin_id
          request.stream_name
          (wait' (h, c'.meta_storage, c'.record_storage)).1
          (wait' (h, c'.meta_storage, c'.record_storage)).2
        ≡ err (Error.stream_does_not_exist name)
      → read M R wait wait' request c ≡ (
        err (
            status_not_found
              (text "stream " ++ (request.basin_name ++ (text "/" ++ request.stream_name)))),
        close M R request.basin_name (wait' (h, c'.meta_storage, c'.record_storage)) c',
      )
  unfolding read subscribe_request subscribe_in command controller_error_to_status
      map_stream_not_found
  read-missing_stream c' h name e found found' missing =
      rw (validate_names_ok request.basin_name request.stream_name named named', subscribe_request)
        (rw e (rw (absent_stream c' h name found found' missing) refl))
