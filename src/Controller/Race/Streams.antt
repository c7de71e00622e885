-- ===== src/Controller/Race/Streams.antt =====
-- `BasinHandle::get_stream` of stream_controller.rs, by many tasks for one name of a basin.
use concrete.Prelude.{
  ℕ, ◌≡◌, refl, sym, ap, ◌∙◌, Bool, true, Option, none, some, List, arith, ◌≤◌, ◌*◌, ◌≢◌,
}
use mathlib.Core.Option
use mathlib.Core.Option.{some-ne-none, some-injective}
use concrete.Prelude.Assoc.{find, put, find-put}
use concrete.Prelude.Result.{Result, ok, err, panic, map_err, map_err-eq-ok}
use concrete.Bytes.{Bytes, Buffers, IsU128}
use concrete.Text.{Str}
use concrete.Storage.Interface.{Storage}
use concrete.Storage.Laws.{IsStorage, NeverPanics}
use concrete.Error.{StreamError, stream_does_not_exist}
use concrete.Stream
use concrete.Stream.{Stream, StreamMetadata, construct_metadata_key, deserialise}
use concrete.Stream.Create.{new-eq-ok, new_others}
use concrete.Stream.Recovery.Load.{load-eq-ok, load-not_found, metadata_read}
use concrete.Prelude.Order.{bytes_eq-of_ne}
use concrete.Controller.{ControllerError, stream}
use concrete.Controller.Actor.{StreamActor, spawn}
use concrete.Controller.Race.{Source, IsSource, System, Step, Reach, start, handle_key, is_opened}
use concrete.Controller.Race.Basins.{zero-IsU128, same_text}
use concrete.Controller.Race.Safety
use concrete.Controller.Race.Progress
use concrete.Controller.Race.Progress.{AllReturn}
use concrete.Controller.Race.Invariant.{Agrees}

-- The cache of a basin's handle, and the two stores.
pub record Opening (M R : Storage) : Type 0 where
  pub streams : List (Str × Option StreamActor)
  pub meta_storage : M.State
  pub record_storage : R.State

-- The stream of a live actor; one that is gone has none.
abbrev pub actor_id : Option StreamActor → Option ℕ
actor_id = Option.map (λ a. a.stream.metadata.stream_id)

module _ ⦃b : Buffers⦄ (M R : Storage) (basin_id : ℕ) where
  -- What `get_stream` makes of the outcome of `Stream::load`.
  abbrev pub find_stream : Bool → Result StreamError Stream → Result ControllerError (Option Stream)
  find_stream create (ok found) = ok (some found)
  find_stream true (err (stream_does_not_exist other)) = ok none
  find_stream create (err e) = err (stream e)
  find_stream create panic = panic

  abbrev pub stream_source : Source
  stream_source = record {
    N = Str;
    S = Opening M R;
    P = Stream;
    K = Option ℕ;
    key = λ s. some s.metadata.stream_id;
    cached = λ name o. Option.map actor_id (find name o.streams);
    IsId = IsU128;
    load = λ name create o.
        find_stream create (Stream.load M R basin_id name o.meta_storage o.record_storage);
    create = λ name id o.
        let (made, meta, records) =
          Stream.new M R basin_id name id o.meta_storage o.record_storage in
        (map_err stream made, record o { meta_storage = meta; record_storage = records });
    insert = λ name s o. record o { streams = put name (some (spawn s)) o.streams };
  }

  pub found_stream :
      (create : Bool) (loaded : Result StreamError Stream) (s : Stream)
      → find_stream create loaded ≡ ok (some s)
      → loaded ≡ ok s
  found_stream create (ok found) s e = ground (arith, e)
  found_stream create panic s e = ground (arith, e)
  found_stream true (err (stream_does_not_exist other)) s e = ground (arith, e)
  found_stream create (err x) s e = ground (arith, e)

  -- A stream is made only where the load says that it does not exist.
  pub missing_stream :
      (create : Bool) (loaded : Result StreamError Stream)
      → find_stream create loaded ≡ ok none
      → (other : Str) × (loaded ≡ err (stream_does_not_exist other))
  missing_stream create (ok found) e = absurd (ground (arith, e))
  missing_stream create panic e = absurd (ground (arith, e))
  missing_stream true (err (stream_does_not_exist other)) e = (other, refl)
  missing_stream create (err x) e = absurd (ground (arith, e))

  pub cached-insert :
      (name : Str) (s : Stream) (o : Opening M R)
      → stream_source.cached name (stream_source.insert name s o) ≡ some (some s.metadata.stream_id)
  unfolding spawn
  cached-insert name s o = ap (Option.map actor_id) (find-put name (some (spawn s)) o.streams)

  pub insert_others :
      (name : Str) (s : Stream) (other : Str) (o : Opening M R)
      → name ≢ other
      → stream_source.cached other (stream_source.insert name s o) ≡ stream_source.cached other o
  insert_others name s other o differs = rw (bytes_eq-of_ne name other differs) refl

  module _ (LM : IsStorage M) (LR : IsStorage R) where
    -- The metadata of the name has this id.
    abbrev pub IsStored : Str → M.State → Option ℕ → Type 0
    IsStored name meta none = ⊥
    IsStored name meta (some id) =
        (v : Bytes) × (md : StreamMetadata) × (LM.contents meta
            (construct_metadata_key basin_id name)
          ≡ some v)
        × (deserialise v ≡ ok md)
        × (md.stream_id ≡ id)

    pub stored_unique :
        (name : Str) (meta : M.State) (i j : Option ℕ)
        → IsStored name meta i
        → IsStored name meta j
        → i ≡ j
    stored_unique name meta none j a c = absurd a
    stored_unique name meta (some i) none a c = absurd c
    stored_unique name meta (some i) (some j) (v, md, there, read, id)
          (w, md', there', read', id') =
        ground (arith, there, there', read, read', id, id')

    pub loaded-IsStored :
        (name : Str) (o : Opening M R) (s : Stream)
        → Stream.load M R basin_id name o.meta_storage o.record_storage ≡ ok s
        → IsStored name o.meta_storage (some s.metadata.stream_id)
    loaded-IsStored name o s e =
        let (v, there, read) =
          load-eq-ok M R LM LR basin_id name o.meta_storage o.record_storage s e in
        (v, s.metadata, there, read, refl)

    pub absent-not-IsStored :
        (name : Str) (o : Opening M R) (k : Option ℕ) (other : Str)
        → Stream.load M R basin_id name o.meta_storage o.record_storage
          ≡ err (stream_does_not_exist other)
        → IsStored name o.meta_storage k
        → ⊥
    absent-not-IsStored name o none other e stored = stored
    absent-not-IsStored name o (some id) other e (v, md, there, _, _) =
        some-ne-none v (
          sym there
          ∙ load-not_found M R LM LR basin_id name other o.meta_storage o.record_storage e)

    pub made_others :
        (never : NeverPanics M) (name : Str) (id : ℕ) (other : Str) (o : Opening M R) (k : Option ℕ)
        → name ≢ other
        → IsStored other o.meta_storage k
        → IsStored other (Stream.new M R basin_id name id o.meta_storage o.record_storage).1 k
    made_others never name id other o none differs stored = stored
    made_others never name id other o (some i) differs (v, md, there, rest, same) = (
      v,
      md,
      new_others M R basin_id name id o.meta_storage o.record_storage LM other differs
            (never.apply _ _)
          ∙ there,
      rest,
      same,
    )

    module _ (never : NeverPanics M) (hb : IsU128 basin_id) where
      pub made-IsStored :
          (name : Str) (id : ℕ) (o : Opening M R) (s : Stream)
          → IsU128 id
          → (Stream.new M R basin_id name id o.meta_storage o.record_storage).0 ≡ ok s
          → IsStored name
              (Stream.new M R basin_id name id o.meta_storage o.record_storage).1
              (some s.metadata.stream_id)
      made-IsStored name id o s hi e =
          let (same, named) =
            new-eq-ok M R basin_id name id o.meta_storage o.record_storage LM s e in
          (
            Stream.serialise _,
            record { basin_id = basin_id; stream_id = id },
            named,
            metadata_read _ hb hi,
            ap (λ (t : Stream). t.metadata.stream_id) (sym same),
          )

      abbrev pub stream_source-IsSource : IsSource stream_source
      stream_source-IsSource = record {
        Stored = λ name o k. IsStored name o.meta_storage k;
        same_name = same_text;
        unique = λ name o. stored_unique name o.meta_storage;
        load_present = λ name create o s e. loaded-IsStored name o s (found_stream create _ s e);
        load_absent = λ name create o k e.
            let (other, absent) = missing_stream create _ e in
            absent-not-IsStored name o k other absent;
        zero_id = zero-IsU128;
        create-cached = λ name id other o. refl;
        create_ok = λ name id o s h e. made-IsStored name id o s h (map_err-eq-ok stream _ e);
        create_others =
            λ name id other o k differs e. made_others never name id other o k differs e;
        insert-cached = λ name s o. cached-insert name s o;
        insert_others = λ name s other o differs. insert_others name s other o differs;
        insert-Stored = λ name s other o k e. e;
      }

      module _ {name : ℕ → Str} {create : ℕ → Bool} {o : Opening M R} {t : System stream_source}
          (agrees : Agrees stream_source stream_source-IsSource o)
          (r : Reach stream_source stream_source-IsSource name create o t) where
        -- Any number of tasks ask for streams of one basin, of any names and some of them only for one that exists, and their
        -- reads of the cache, of the stores and of the one lock interleave in any way; the store of metadata never panics.
        -- If the actors in the cache at the start are alive and have the id that is stored, then at most one of the tasks
        -- at a name puts an actor in the cache; a task that has got a handle has it of a live actor with the id that is
        -- stored under the stream's name, and two such tasks at one name of the same id; and no step from here replaces
        -- the id that is stored under any name.
        pub one_actor :
            ((i j : ℕ)
              → name i ≡ name j
              → is_opened stream_source (t.pc i) ≡ true
              → is_opened stream_source (t.pc j) ≡ true
              → i ≡ j)
            × ((i j : ℕ) (k l : Option ℕ)
                → name i ≡ name j
                → handle_key stream_source (t.pc i) ≡ some k
                → handle_key stream_source (t.pc j) ≡ some l
                → (k ≡ l)
                  × (stream_source.cached (name i) t.mem.state ≡ some k)
                  × IsStored (name i) t.mem.state.meta_storage k)
            × ((u : System stream_source)
                → Step stream_source stream_source-IsSource name create t u
                → (any : Str) (k : Option ℕ) → IsStored any t.mem.state.meta_storage k
                → IsStored any u.mem.state.meta_storage k)
        one_actor = (
          Safety.opened_once stream_source stream_source-IsSource agrees r,
          Safety.one_handle stream_source stream_source-IsSource agrees r,
          λ u st. Safety.Step-Stored stream_source stream_source-IsSource agrees r st,
        )

        -- From every state that such a run reaches in which only the first `n` tasks have started, some 7 n moves of them
        -- at most bring each of them to its return.
        pub streams_return :
            (n : ℕ)
            → ((j : ℕ) → n ≤ j → t.pc j ≡ start)
            → AllReturn stream_source stream_source-IsSource name create t n (7 * n)
        streams_return = Progress.all_return stream_source stream_source-IsSource agrees r
