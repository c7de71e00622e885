-- ===== src/Stream/Create.antt =====
-- `Stream::new`: the two writes, and what a failure between them leaves.
use concrete.Prelude.{◌≢◌, inl, inr, ℕ, ◌≡◌, refl, sym, ap, ◌∙◌, none, some, List, [], ◌∷◌, arith}
use concrete.Prelude.Order.{bytes_eq_refl, bytes_eq-of_ne}
use concrete.Prelude.Result.{
  Result, Result-cases, panic, ok, err, map_ok, map_err, map_err-eq-ok, map_ok-eq-ok,
}
use concrete.Bytes.{Bytes, Buffers, IsU128}
use concrete.Text.{Str}
use concrete.Storage.Error.{StorageError}
use concrete.Storage.Interface.{StorageRecord, WriteResult, Storage}
use concrete.Storage.Laws.{IsStorage}
use concrete.Sequence
use concrete.Sequence.{allocation}
use concrete.Error.{StreamError, storage_error}
use concrete.Stream
use concrete.Stream.{
  Stream, StreamMetadata, AppendResult, new, load, append, next_seq_num, construct_metadata_key,
  construct_sequence_block_key, construct_stream_record_key,
}
use concrete.Stream.Keys.{metadata_key-injective, record_key-ne-block_key}
use concrete.Stream.Append.{IsReady, block_key, record_key}
use concrete.Stream.Recovery.Load.{load-metadata, load-without_block}
use concrete.Stream.Recovery.Run.{IsSafe}
use concrete.Stream.Recovery.Restart.{IsNamed}
use concrete.Stream.Recovery.Reissue.{reissued_without_block}

module _ ⦃b : Buffers⦄ (M R : Storage) (basin : ℕ) (name : Str) (id : ℕ) (meta : M.State)
    (records : R.State) where
  -- The stream that is made.
  abbrev pub fresh_stream : Stream
  fresh_stream = record {
    sequence_number_allocator = Sequence.default;
    metadata = record { basin_id = basin; stream_id = id };
  }

  abbrev pub metadata_batch : List StorageRecord
  metadata_batch =
      record {
        key = construct_metadata_key basin name;
        value = Stream.serialise fresh_stream.metadata;
      }
      ∷ []

  abbrev pub block_batch : List StorageRecord
  block_batch =
      record {
        key = construct_sequence_block_key basin id;
        value = Sequence.serialise (allocation Sequence.default);
      }
      ∷ []

  abbrev made : Result StreamError Stream × M.State × R.State
  made = new M R basin name id meta records

  -- The first write succeeded: the outcome is that of the second.
  new_second_write :
      (w : WriteResult)
      → (M.apply meta metadata_batch).0 ≡ ok w
      → made ≡ (
        map_ok (λ _. fresh_stream) (map_err storage_error (R.apply records block_batch).0),
        (M.apply meta metadata_batch).1,
        (R.apply records block_batch).1,
      )
  unfolding new
  new_second_write w e = rw (e, new)

  new_first_ok :
      (s : Stream) → made.0 ≡ ok s → (w : WriteResult) × ((M.apply meta metadata_batch).0 ≡ ok w)
  unfolding new
  new_first_ok s e = ground arith

  named_after :
      (LM : IsStorage M) (w : WriteResult)
      → (M.apply meta metadata_batch).0 ≡ ok w
      → LM.contents (M.apply meta metadata_batch).1 (construct_metadata_key basin name)
        ≡ some (Stream.serialise fresh_stream.metadata)
  named_after LM w e =
      LM.apply_ok meta metadata_batch w e (construct_metadata_key basin name)
      ∙ rw (bytes_eq_refl (construct_metadata_key basin name))

  block_after :
      (LR : IsStorage R) (w : WriteResult)
      → (R.apply records block_batch).0 ≡ ok w
      → LR.contents (R.apply records block_batch).1 (block_key fresh_stream)
        ≡ some (Sequence.serialise (allocation Sequence.default))
  block_after LR w e =
      LR.apply_ok records block_batch w e (block_key fresh_stream)
      ∙ rw (bytes_eq_refl (block_key fresh_stream))

  records_after :
      (LR : IsStorage R) (w : WriteResult) (n : ℕ)
      → (R.apply records block_batch).0 ≡ ok w
      → LR.contents (R.apply records block_batch).1 (record_key fresh_stream n)
        ≡ LR.contents records (record_key fresh_stream n)
  records_after LR w n e =
      LR.apply_ok records block_batch w e (record_key fresh_stream n)
      ∙ rw (
          bytes_eq-of_ne (block_key fresh_stream) (record_key fresh_stream n)
            (λ same. record_key-ne-block_key _ _ _ _ _ (sym same)))

  fresh-IsReady : IsU128 basin → IsU128 id → IsReady fresh_stream
  unfolding Sequence.default
  fresh-IsReady hb hi = record { basin = hb; stream = hi; allocator = omega arith }

  load_fresh :
      (LM : IsStorage M) (LR : IsStorage R) (s : Stream)
      → IsU128 basin
      → IsU128 id
      → IsNamed M R LM LR name made.1 fresh_stream
      → LR.contents made.2 (block_key fresh_stream) ≡ none
      → load M R basin name made.1 made.2 ≡ ok s
      → s ≡ fresh_stream
  load_fresh LM LR s hb hi named missing loaded = λ i. record {
    sequence_number_allocator =
        load-without_block M R LM LR fresh_stream s name made.1 made.2 named hb hi loaded missing i;
    metadata = load-metadata M R LM LR fresh_stream s name made.1 made.2 named hb hi loaded i;
  }

  -- A stream that is made with an id under which the record store has no record is safe: found by
  -- its name, with its first block stored, and numbering its records from 0.
  pub new-IsSafe :
      (LM : IsStorage M) (LR : IsStorage R) (s : Stream)
      → IsU128 basin
      → IsU128 id
      → ((n : ℕ) → LR.contents records (construct_stream_record_key basin id n) ≡ none)
      → (new M R basin name id meta records).0 ≡ ok s
      → IsSafe M R LM LR name
          (new M R basin name id meta records).1
          s
          (new M R basin name id meta records).2
        × (next_seq_num s ≡ 0)
  new-IsSafe LM LR s hb hi fresh e =
      let (w, first) = new_first_ok s e in
      let call = new_second_write w first in
      let (w', second, same) = map_ok-eq-ok _ _ (sym (ap (λ t. t.0) call) ∙ e) in
      rw call (
        rw (← same) (
          record {
            durable = record {
              ready = fresh-IsReady hb hi;
              block = block_after LR w' (map_err-eq-ok storage_error _ second);
              below = λ n h stored.
                  absurd (
                    stored
                      (records_after LR w' n (map_err-eq-ok storage_error _ second) ∙ fresh n));
            };
            named = named_after LM w first;
          },
          unfold Sequence.default in refl,
        ))

  new-metadata : (new M R basin name id meta records).1 ≡ (M.apply meta metadata_batch).1
  unfolding new
  new-metadata = elim (Result-cases (M.apply meta metadata_batch).0) [
    | inl (w, done) ↦ rw (done, new) refl
    | inr (inl (e, failed)) ↦ rw (failed, new) refl
    | inr (inr gone) ↦ rw (gone, new) refl
  ]

  -- The metadata of the basin's other streams is kept.
  pub new_others :
      (LM : IsStorage M) (other : Str)
      → name ≢ other
      → (M.apply meta metadata_batch).0 ≢ panic
      → LM.contents (new M R basin name id meta records).1 (construct_metadata_key basin other)
        ≡ LM.contents meta (construct_metadata_key basin other)
  new_others LM other differs alive =
      let kept =
        bytes_eq-of_ne (construct_metadata_key basin name) (construct_metadata_key basin other)
          (λ same. differs (metadata_key-injective basin name other same)) in
      rw new-metadata (elim (Result-cases (M.apply meta metadata_batch).0) [
        | inl (w, done) ↦
            LM.apply_ok meta metadata_batch w done (construct_metadata_key basin other)
            ∙ rw kept refl
        | inr (inl (e, failed)) ↦ elim (LM.apply_err meta metadata_batch e failed) [
          | inl unchanged ↦ unchanged (construct_metadata_key basin other)
          | inr written ↦ written (construct_metadata_key basin other) ∙ rw kept refl
        ]
        | inr (inr gone) ↦ absurd (alive gone)
      ])

  -- A stream that is made has the id that was drawn, and its name leads to it.
  pub new-eq-ok :
      (LM : IsStorage M) (s : Stream)
      → (new M R basin name id meta records).0 ≡ ok s
      → (s ≡ fresh_stream)
        × (LM.contents (new M R basin name id meta records).1 (construct_metadata_key basin name)
            ≡ some (Stream.serialise fresh_stream.metadata))
  new-eq-ok LM s e =
      let (w, first) = new_first_ok s e in
      let call = new_second_write w first in
      let (w', second, same) = map_ok-eq-ok _ _ (sym (ap (λ t. t.0) call) ∙ e) in
      (sym same, rw call (named_after LM w first))

  -- Where the second write of `Stream::new` fails and writes nothing, the stream is still found by
  -- its name and appends from 0; after a restart it starts at 0 again, over the record that it has
  -- acknowledged.
  pub reissued_after_failed_new :
      (LM : IsStorage M) (LR : IsStorage R) (w : WriteResult) (c : StorageError) (s t : Stream)
      (payload : Bytes) (res : AppendResult)
      → IsU128 basin
      → IsU128 id
      → (M.apply meta metadata_batch).0 ≡ ok w
      → (R.apply records block_batch).0 ≡ err c
      → ((k : Bytes) → LR.contents (R.apply records block_batch).1 k ≡ LR.contents records k)
      → LR.contents records (construct_sequence_block_key basin id) ≡ none
      → load M R basin name
          (new M R basin name id meta records).1
          (new M R basin name id meta records).2
        ≡ ok s
      → (append R s payload (new M R basin name id meta records).2).0 ≡ ok res
      → load M R basin name
          (new M R basin name id meta records).1
          (append R s payload (new M R basin name id meta records).2).2
        ≡ ok t
      → ((new M R basin name id meta records).0 ≡ err (storage_error c))
        × (res.stored.seq_num ≡ 0)
        × (next_seq_num t ≡ 0)
  reissued_after_failed_new LM LR w c s t payload res hb hi first second unwritten missing loaded
        done reloaded =
      let call = new_second_write w first in
      let named : IsNamed M R LM LR name made.1 fresh_stream = rw call (named_after LM w first) in
      let none_there : LR.contents made.2 (block_key fresh_stream) ≡ none =
        rw call (unwritten (block_key fresh_stream) ∙ missing) in
      let same : s ≡ fresh_stream = load_fresh LM LR s hb hi named none_there loaded in
      let (zero_first, zero_next) =
        reissued_without_block M R LM LR name made.1 fresh_stream made.2 payload res t
          (fresh-IsReady hb hi) named none_there refl
          (ap (λ u. (append R u payload made.2).0) (sym same) ∙ done)
          (ap (λ u. load M R basin name made.1 (append R u payload made.2).2) (sym same)
            ∙ reloaded) in
      (ap (λ x. x.0) call ∙ rw second refl, zero_first, zero_next)
