-- ===== src/Stream.antt =====
-- stream.rs: a stream of a basin over the two stores, of metadata and of records.
pub mod Keys
pub mod Sizes
pub mod Codec
pub mod Append
pub mod Recovery
pub mod Create
pub mod Listing
mod Tests
mod FailureTests
mod UnitTests
use concrete.Prelude.{
  else_eq, refl, ltb→le, arith, ℕ, ◌+◌, ◌≡◌, Bool, Option, none, some, List, [], ◌∷◌, ◌++◌, length,
  take, drop, ltb, ◌==◌, if◌then◌else◌,
}
use concrete.Prelude.Order.{cmp}
use concrete.Prelude.Result.{Result, ok, err, panic, ◌>>=◌, map_err, map_ok}
use concrete.Bytes.{slice, int_from, Bytes, Buffers, from_be_bytes, slice_from}
use concrete.Bytes.Slices.{int_at}
use concrete.Text.{Str, text}
use concrete.Text.Utf8.{from_utf8, utf8_message}
use concrete.Storage.Error.{StorageError, DeserializeError}
use concrete.Storage.Interface.{StorageRecord, Storage}
use concrete.Storage.Scan.{scan_loop}
use concrete.Key.{
  builder, add_u8, add_u64, add_u128, put_str, build, prefix_range,
  record_sequence_number_prefix_key, record_stream_record_prefix_key, meta_stream_prefix_key,
  seq_stream_prefix_key,
}
use concrete.Sequence
use concrete.Sequence.{SeqBlock, SequenceAllocator, allocate, allocation}
use concrete.Error.{
  StreamError, stream_does_not_exist, deserialise_error, storage_error, stream_message,
}
use concrete.Record
use concrete.Record.{Record}
use mathlib.Core.Option
use concrete.Prelude.Sort.{sort_by}

pub record StreamView : Type 0 where
  pub stream_name : Str

-- `stored` is the field `record`.
pub record AppendResult : Type 0 where
  pub stored : Record
  pub next_seq_num : ℕ

pub record StreamMetadata : Type 0 where
  pub basin_id : ℕ
  pub stream_id : ℕ

-- The handle of the record store is an argument of the methods.
pub record Stream : Type 0 where
  pub sequence_number_allocator : SequenceAllocator
  pub metadata : StreamMetadata

abbrev pub metadata_size : ℕ
metadata_size = 16 + 16

unfoldable pub serialise : ⦃b : Buffers⦄ → StreamMetadata → Bytes
serialise ⦃b⦄ m =
    b.freeze (b.put_u128 (b.put_u128 (b.with_capacity metadata_size) m.basin_id) m.stream_id)

unfoldable pub deserialise : Bytes → Result StreamError StreamMetadata
deserialise bytes =
    if ltb (length bytes) metadata_size
    then err (deserialise_error (text "data buffer smaller than StreamMetadata size"))
    else slice bytes 0 16 >>= int_from 16 >>= λ basin_id.
        slice bytes 16 32 >>= int_from 16 >>= λ stream_id.
        ok (record { basin_id = basin_id; stream_id = stream_id })

-- Behind the guard the slices of the two ids are in bounds.
pub deserialise-eq :
    (bytes : Bytes)
    → deserialise bytes ≡ (
        if ltb (length bytes) metadata_size
        then err (deserialise_error (text "data buffer smaller than StreamMetadata size"))
        else ok (record {
          basin_id = from_be_bytes (take 16 bytes);
          stream_id = from_be_bytes (take 16 (drop 16 bytes));
        }))
unfolding deserialise
deserialise-eq bytes = else_eq (ltb (length bytes) metadata_size) _ _ _ (λ long.
    let enough = ltb→le (length bytes) metadata_size long in
    (rw (int_at bytes 0 16 (omega arith) (omega (arith, enough)))
      (rw (int_at bytes 16 32 (omega arith) (omega (arith, enough))) refl)))

-- `PartialEq for Stream`
unfoldable pub stream_eq : Stream → Stream → Bool
stream_eq s t = s.metadata.basin_id == t.metadata.basin_id

-- `Hash for Stream`; `write_u128` is what the hasher makes of a `u128`.
unfoldable pub hash : {H : Type 0} → (ℕ → H → H) → Stream → H → H
hash write_u128 s state = write_u128 s.metadata.basin_id state

module _ ⦃b : Buffers⦄ where
  unfoldable pub construct_sequence_block_key : ℕ → ℕ → Bytes
  construct_sequence_block_key basin_id stream_id = build (
      add_u128 stream_id (
        add_u128 basin_id (
          add_u8 seq_stream_prefix_key
            (add_u8 record_sequence_number_prefix_key (builder (1 + 1 + 16 + 16))))))

  unfoldable pub construct_stream_record_key : ℕ → ℕ → ℕ → Bytes
  construct_stream_record_key basin_id stream_id sequence_number = build (
      add_u64 sequence_number (
        add_u128 stream_id
          (add_u128 basin_id (add_u8 record_stream_record_prefix_key (builder (1 + 16 + 16 + 8))))))

  unfoldable pub construct_metadata_key : ℕ → Str → Bytes
  construct_metadata_key basin_id stream_name = build (
      put_str stream_name
        (add_u128 basin_id (add_u8 meta_stream_prefix_key (builder (1 + 16 + length stream_name)))))

  unfoldable pub metadata_prefix : ℕ → Bytes
  metadata_prefix basin_id =
      build (add_u128 basin_id (add_u8 meta_stream_prefix_key (builder (1 + 16))))

  -- `Stream::new`; `stream_id` is what `Uuid::new_v4` returned.
  unfoldable pub new :
      (M R : Storage)
      → ℕ
      → Str
      → ℕ
      → M.State
      → R.State
      → Result StreamError Stream × M.State × R.State
  new M R basin_id stream_name stream_id meta records =
      let metadata : StreamMetadata = record { basin_id = basin_id; stream_id = stream_id } in
      let stream : Stream = record {
        sequence_number_allocator = Sequence.default;
        metadata = metadata;
      } in
      let (written, meta') = M.apply meta (
        record { key = construct_metadata_key basin_id stream_name; value = serialise metadata }
        ∷ []) in
      elim written [
        | ok _ ↦
            let (written', records') = R.apply records (
              record {
                key = construct_sequence_block_key basin_id stream_id;
                value = Sequence.serialise (allocation Sequence.default);
              }
              ∷ []) in
            (map_ok (λ _. stream) (map_err storage_error written'), meta', records')
        | err e ↦ (err (storage_error e), meta', records)
        | panic ↦ (panic, meta', records)
      ]

  unfoldable pub load_metadata :
      (M : Storage) → ℕ → Str → M.State → Result StreamError StreamMetadata
  load_metadata M basin_id stream_name meta =
      map_err storage_error (M.get meta (construct_metadata_key basin_id stream_name)) >>= λ found.
      elim found [ some r ↦ deserialise r.value | none ↦ err (stream_does_not_exist stream_name) ]

  -- The allocator of a stored block, or the first one where there is none.
  unfoldable pub load_allocator : Option StorageRecord → Result StreamError SequenceAllocator
  load_allocator (some r) = map_ok Sequence.new (
      map_err (λ (e : DeserializeError). deserialise_error e.message)
        (Sequence.deserialize r.value))
  load_allocator none = ok Sequence.default

  unfoldable pub load : (M R : Storage) → ℕ → Str → M.State → R.State → Result StreamError Stream
  load M R basin_id stream_name meta records = do
    metadata ← load_metadata M basin_id stream_name meta
    found ←
        map_err storage_error
          (R.get records (construct_sequence_block_key basin_id metadata.stream_id))
    allocator ← load_allocator found
    ok (record { sequence_number_allocator = allocator; metadata = metadata })

  -- The batch of an append: the new block, if one was entered, before the record.
  block_records : StreamMetadata → Option SeqBlock → List StorageRecord
  block_records m none = []
  block_records m (some block) =
      record {
        key = construct_sequence_block_key m.basin_id m.stream_id;
        value = Sequence.serialise block;
      }
      ∷ []

  unfoldable pub append_batch : StreamMetadata → Option SeqBlock → Record → List StorageRecord
  unfolding block_records
  append_batch m block r =
      block_records m block
      ++ record {
        key = construct_stream_record_key m.basin_id m.stream_id r.seq_num;
        value = Record.serialise r;
      }
        ∷ []

  -- The allocator has moved on when the write begins, and stays so if the write fails.
  unfoldable pub append :
      (R : Storage) → Stream → Bytes → R.State → Result StreamError AppendResult × Stream × R.State
  append R s payload records = elim (allocate 1 s.sequence_number_allocator) [
    | none ↦ (panic, s, records)
    | some ((seq_num, block), allocator) ↦
        let s' : Stream = record s { sequence_number_allocator = allocator } in
        let write_record : Record = record { seq_num = seq_num; payload = payload } in
        let (written, records') = R.apply records (append_batch s.metadata block write_record) in
        (
          map_ok
              (λ _. record { stored = write_record; next_seq_num = allocator.next_sequence_number })
              (map_err storage_error written),
          s',
          records',
        )
  ]

  -- What `read` makes of the value in the store.
  abbrev pub read_value : Option StorageRecord → Result StreamError (Option Record)
  read_value (some r) =
      map_ok some (map_err (λ e. deserialise_error (stream_message e)) (Record.deserialise r.value))
  read_value none = ok none

  unfoldable pub read : (R : Storage) → Stream → ℕ → R.State → Result StreamError (Option Record)
  read R s seq_num records =
      map_err storage_error (
        R.get records
          (construct_stream_record_key s.metadata.basin_id s.metadata.stream_id seq_num))
      >>= read_value

  -- The body of the loop of `list`: the metadata must be readable, and the name valid UTF-8.
  unfoldable pub name_of : ℕ → StorageRecord → Result StreamError StreamView
  name_of basin_id r = slice_from r.key (length (metadata_prefix basin_id)) >>= λ name.
      map_ok (λ name. record { stream_name = name })
        (map_err (λ e. deserialise_error (utf8_message e)) (from_utf8 name))

  unfoldable pub view_of : ℕ → StorageRecord → Result StreamError StreamView
  view_of basin_id r = deserialise r.value >>= λ _. name_of basin_id r

  -- From the iterator on; `none` says that `fuel` rounds of the loop are not enough.
  unfoldable pub list_from :
      (M : Storage)
      → ℕ
      → ℕ
      → Result StorageError M.Iter
      → Option (Result StreamError (List StreamView))
  list_from M fuel basin_id (ok it) =
      Option.map (map_ok (sort_by (λ v. v.stream_name)))
        (scan_loop M (view_of basin_id) storage_error fuel it)
  list_from M fuel basin_id (err e) = some (err (storage_error e))
  list_from M fuel basin_id panic = some panic

  unfoldable pub list :
      (M : Storage) → ℕ → ℕ → M.State → Option (Result StreamError (List StreamView))
  unfolding list_from
  list M fuel basin_id meta =
      list_from M fuel basin_id (M.scan_iter meta (prefix_range (metadata_prefix basin_id)))

abbrev pub next_seq_num : Stream → ℕ
next_seq_num s = s.sequence_number_allocator.next_sequence_number
