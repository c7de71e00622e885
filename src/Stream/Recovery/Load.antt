-- ===== src/Stream/Recovery/Load.antt =====
-- What `load` makes of the two stores.
use concrete.Prelude.{
  ℕ, ◌≡◌, sym, ap, ◌∙◌, Option, none, some, [], append-nil, arith, Option-cases, inl, inr, refl,
}
use concrete.Prelude.Result.{Result-cases, err, ok, >>=-eq-err, >>=-eq-ok, map_err-eq-ok}
use concrete.Bytes.{Bytes, Buffers, IsU64, IsU128}
use concrete.Text.{Str}
use concrete.Storage.Interface.{StorageRecord, Storage}
use concrete.Storage.Laws.{IsStorage, get_stored, get_missing}
use concrete.Sequence
use concrete.Sequence.{SeqBlock, SequenceAllocator}
use concrete.Sequence.Codec.{deserialize-serialise}
use concrete.Error.{storage_error, stream_does_not_exist}
use concrete.Stream
use concrete.Stream.{
  Stream, StreamMetadata, construct_metadata_key, construct_sequence_block_key, deserialise,
  deserialise-eq, load, load_metadata, load_allocator,
}
use concrete.Stream.Codec.{deserialise-serialise_metadata}

module _ ⦃b : Buffers⦄ where
  -- The metadata and the block that are stored decide what a load that succeeds returns.
  pub metadata_read :
      (md : StreamMetadata)
      → IsU128 md.basin_id
      → IsU128 md.stream_id
      → deserialise (Stream.serialise md) ≡ ok md
  metadata_read md hb hs =
      ap deserialise (sym (append-nil (Stream.serialise md)))
      ∙ deserialise-serialise_metadata md [] hb hs

  block_read :
      (block : SeqBlock)
      → IsU64 block.start
      → IsU64 block.block_size
      → Sequence.deserialize (Sequence.serialise block) ≡ ok block
  block_read block hs hb =
      ap Sequence.deserialize (sym (append-nil (Sequence.serialise block)))
      ∙ deserialize-serialise block [] hs hb

  deserialise-err :
      (v : Bytes) (other : Str) → deserialise v ≡ err (stream_does_not_exist other) → ⊥
  deserialise-err v other e = absurd (ground (arith, sym (deserialise-eq v) ∙ e))

  load_allocator-err :
      (found : Option StorageRecord) (other : Str)
      → load_allocator found ≡ err (stream_does_not_exist other)
      → ⊥
  unfolding load_allocator
  load_allocator-err none other e = cc
  load_allocator-err (some r) other e = ground arith

  module _ (M R : Storage) (LM : IsStorage M) (LR : IsStorage R) where
    load_metadata_ok :
        (basin : ℕ) (name : Str) (md : StreamMetadata) (meta : M.State)
        → LM.contents meta (construct_metadata_key basin name) ≡ some (Stream.serialise md)
        → IsU128 md.basin_id
        → IsU128 md.stream_id
        → (t : StreamMetadata) → load_metadata M basin name meta ≡ ok t
        → t ≡ md
    unfolding load_metadata
    load_metadata_ok basin name md meta stored hb hs t e =
        let (found, got, rest) = >>=-eq-ok _ _ e in
        let same : found
            ≡ some
                (record { key = construct_metadata_key basin name; value = Stream.serialise md }) =
          get_stored LM meta _ _ stored found (map_err-eq-ok storage_error _ got) in
        ground (arith, same, rest, metadata_read md hb hs)

    load_parts :
        (basin : ℕ) (name : Str) (meta : M.State) (records : R.State) (t : Stream)
        → load M R basin name meta records ≡ ok t
        → (load_metadata M basin name meta ≡ ok t.metadata)
          × (found : Option StorageRecord) × (R.get records
                (construct_sequence_block_key basin t.metadata.stream_id)
              ≡ ok found)
          × (load_allocator found ≡ ok t.sequence_number_allocator)
    unfolding load
    load_parts basin name meta records t e =
        let (md, first, rest) = >>=-eq-ok _ _ e in
        let (found, got, rest') = >>=-eq-ok _ _ rest in
        let (a, made, built) = >>=-eq-ok _ _ rest' in
        let same_md : md ≡ t.metadata = ground arith in
        let same_a : a ≡ t.sequence_number_allocator = ground arith in
        (
          first ∙ ap ok same_md,
          found,
          ap
                (λ (x : StreamMetadata).
                  R.get records (construct_sequence_block_key basin x.stream_id))
                (sym same_md)
              ∙ map_err-eq-ok storage_error _ got,
          made ∙ ap ok same_a,
        )

    -- A stream that is loaded has the metadata that is stored under its name.
    pub load-eq-ok :
        (basin : ℕ) (name : Str) (meta : M.State) (records : R.State) (t : Stream)
        → load M R basin name meta records ≡ ok t
        → (v : Bytes) × (LM.contents meta (construct_metadata_key basin name) ≡ some v)
          × (deserialise v ≡ ok t.metadata)
    unfolding load_metadata
    load-eq-ok basin name meta records t e =
        let (found, got, rest) = >>=-eq-ok _ _ (load_parts basin name meta records t e).0 in
        let read = LM.get_ok meta _ found (map_err-eq-ok storage_error _ got) in
        elim (Option-cases (LM.contents meta (construct_metadata_key basin name))) [
          | inl missing ↦
              let none_found : found ≡ none = read ∙ rw missing refl in
              absurd (ground (arith, none_found, rest))
          | inr (v, stored) ↦
              let same : found
                  ≡ some (record { key = construct_metadata_key basin name; value = v }) =
                read ∙ rw stored refl in
              (v, stored, ground (arith, same, rest))
        ]

    load_metadata-not_found :
        (basin : ℕ) (name other : Str) (meta : M.State)
        → load_metadata M basin name meta ≡ err (stream_does_not_exist other)
        → LM.contents meta (construct_metadata_key basin name) ≡ none
    unfolding load_metadata
    load_metadata-not_found basin name other meta e =
        elim (Option-cases (LM.contents meta (construct_metadata_key basin name))) [
          | inl missing ↦ missing
          | inr (v, stored) ↦ elim (Result-cases (M.get meta (construct_metadata_key basin name))) [
            | inl (found, got) ↦
                let read = LM.get_ok meta _ found got in
                absurd (ground (arith, got, read, stored, deserialise-err v other, e))
            | inr (inl (c, failed)) ↦ absurd (ground (arith, failed, e))
            | inr (inr gone) ↦ absurd (ground (arith, gone, e))
          ]
        ]

    -- A load that says that the stream does not exist has found nothing under its name.
    pub load-not_found :
        (basin : ℕ) (name other : Str) (meta : M.State) (records : R.State)
        → load M R basin name meta records ≡ err (stream_does_not_exist other)
        → LM.contents meta (construct_metadata_key basin name) ≡ none
    unfolding load
    load-not_found basin name other meta records e =
        elim (>>=-eq-err (load_metadata M basin name meta) _ e) [
          | inl first ↦ load_metadata-not_found basin name other meta first
          | inr (md, _, rest) ↦
              elim (Result-cases
                (R.get records (construct_sequence_block_key basin md.stream_id))) [
                  | inl (found, got) ↦ elim (Result-cases (load_allocator found)) [
                    | inl (a, made) ↦ absurd (ground (arith, got, made, rest))
                    | inr (inl (c, failed)) ↦
                        absurd (ground (arith, got, failed, rest, load_allocator-err found other))
                    | inr (inr gone) ↦ absurd (ground (arith, got, gone, rest))
                  ]
                  | inr (inl (c, failed)) ↦ absurd (ground (arith, failed, rest))
                  | inr (inr gone) ↦ absurd (ground (arith, gone, rest))
                ]
        ]

    allocator_of_block :
        (block : SeqBlock) (k : Bytes) (records : R.State) (found : Option StorageRecord)
        (a : SequenceAllocator)
        → LR.contents records k ≡ some (Sequence.serialise block)
        → IsU64 block.start
        → IsU64 block.block_size
        → R.get records k ≡ ok found
        → load_allocator found ≡ ok a
        → a ≡ Sequence.new block
    unfolding load_allocator
    allocator_of_block block k records found a stored hs hb got made =
        let same : found ≡ some (record { key = k; value = Sequence.serialise block }) =
          get_stored LR records k _ stored found got in
        ground (arith, same, made, block_read block hs hb)

    allocator_without_block :
        (k : Bytes) (records : R.State) (found : Option StorageRecord) (a : SequenceAllocator)
        → LR.contents records k ≡ none
        → R.get records k ≡ ok found
        → load_allocator found ≡ ok a
        → a ≡ Sequence.default
    unfolding load_allocator
    allocator_without_block k records found a missing got made =
        let same : found ≡ none = get_missing LR records k missing found got in
        ground (arith, same, made)

    module _ (s t : Stream) (name : Str) (meta : M.State) (records : R.State)
        (stored : LM.contents meta (construct_metadata_key s.metadata.basin_id name)
          ≡ some (Stream.serialise s.metadata))
        (hb : IsU128 s.metadata.basin_id) (hs : IsU128 s.metadata.stream_id)
        (loaded : load M R s.metadata.basin_id name meta records ≡ ok t) where
      pub load-metadata : t.metadata ≡ s.metadata
      load-metadata =
          load_metadata_ok _ name s.metadata meta stored hb hs t.metadata
            (load_parts _ name meta records t loaded).0

      found_block :
          (found : Option StorageRecord) × (R.get records
              (construct_sequence_block_key s.metadata.basin_id s.metadata.stream_id)
            ≡ ok found)
          × (load_allocator found ≡ ok t.sequence_number_allocator)
      found_block =
          let (_, found, got, made) = load_parts _ name meta records t loaded in
          (
            found,
            ap
                  (λ (x : StreamMetadata).
                    R.get records (construct_sequence_block_key s.metadata.basin_id x.stream_id))
                  (sym load-metadata)
                ∙ got,
            made,
          )

      -- From a stored block, a load counts the whole block as used up.
      pub load-block :
          (block : SeqBlock)
          → LR.contents records
              (construct_sequence_block_key s.metadata.basin_id s.metadata.stream_id)
            ≡ some (Sequence.serialise block)
          → IsU64 block.start
          → IsU64 block.block_size
          → t.sequence_number_allocator ≡ Sequence.new block
      load-block block there hs' hb' =
          allocator_of_block block _ records found_block.0 _ there hs' hb' found_block.1
            found_block.2

      -- Without one, it starts at 0.
      pub load-without_block :
          LR.contents records
              (construct_sequence_block_key s.metadata.basin_id s.metadata.stream_id)
            ≡ none
          → t.sequence_number_allocator ≡ Sequence.default
      load-without_block missing =
          allocator_without_block _ records found_block.0 _ missing found_block.1 found_block.2
