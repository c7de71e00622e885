-- ===== src/Stream/Append.antt =====
-- What `append` returns and writes, and what `read` then finds.
use concrete.Prelude.{
  ℕ, ◌+◌, ◌≡◌, refl, sym, ap, ◌∙◌, ◌⊎◌, inl, inr, Option, none, some, List, [], ◌∷◌, ◌++◌, arith,
  if◌then◌else◌,
}
use concrete.Prelude.Order.{bytes_eq}
use concrete.Prelude.Result.{
  Result, ok, err, panic, map_ok, map_err, >>=-eq-ok, map_err-eq-ok, map_ok-eq-ok,
}
use concrete.Bytes.{Bytes, Buffers, IsU64, IsU128}
use concrete.Storage.Error.{StorageError}
use concrete.Storage.Interface.{StorageRecord, Storage}
use concrete.Storage.Laws.{Contents, write_all, IsStorage, get_stored, get_missing}
use concrete.Sequence
use concrete.Sequence.{SeqBlock, SequenceAllocator, u64_mod, allocate}
use concrete.Sequence.Allocate.{IsValid, advanced, entered, allocate-advanced, next-advanced}
use concrete.Error.{StreamError, storage_error}
use concrete.Record
use concrete.Record.{Record}
use concrete.Stream.{
  Stream, AppendResult, append, append_batch, block_records, read, read_value, next_seq_num,
  construct_sequence_block_key, construct_stream_record_key,
}

-- A stream that can append: its ids are `u128`s, and its allocator has room.
pub record IsReady (s : Stream) : Type 0 where
  pub basin : IsU128 s.metadata.basin_id
  pub stream : IsU128 s.metadata.stream_id
  pub allocator : IsValid s.sequence_number_allocator

-- What an append makes of the stream and of its next record, with or without an error.
abbrev pub appended : Stream → Stream
appended s = record s { sequence_number_allocator = advanced 1 s.sequence_number_allocator }

abbrev pub next_record : Stream → Bytes → Record
next_record s payload = record { seq_num = next_seq_num s; payload = payload }

abbrev pub new_block : Stream → Option SeqBlock
new_block s = entered 1 s.sequence_number_allocator

module _ ⦃b : Buffers⦄ where
  abbrev pub block_key : Stream → Bytes
  block_key s = construct_sequence_block_key s.metadata.basin_id s.metadata.stream_id

  abbrev pub record_key : Stream → ℕ → Bytes
  record_key s n = construct_stream_record_key s.metadata.basin_id s.metadata.stream_id n

  abbrev pub batch_of : Stream → Bytes → List StorageRecord
  batch_of s payload = append_batch s.metadata (new_block s) (next_record s payload)

  -- The call on a stream that can append: one atomic write, whose outcome is that of the call.
  pub append-eq :
      (R : Storage) (s : Stream) (payload : Bytes) (records : R.State)
      → IsReady s
      → append R s payload records ≡ (
        map_ok
            (λ _. record {
              stored = next_record s payload;
              next_seq_num = next_seq_num (appended s);
            })
            (map_err storage_error (R.apply records (batch_of s payload)).0),
        appended s,
        (R.apply records (batch_of s payload)).1,
      )
  unfolding append
  append-eq R s payload records h =
      rw (allocate-advanced 1 s.sequence_number_allocator h.allocator h.allocator.size, append)

  -- The batch, at each key: the record at its own, a new block at the block's, and nothing else.
  abbrev pub block_written : Option SeqBlock → Option Bytes → Option Bytes
  block_written none old = old
  block_written (some block) old = some (Sequence.serialise block)

  write_block :
      (s : Stream) (block : Option SeqBlock) (r : StorageRecord) (m : Contents) (k : Bytes)
      → write_all (block_records s.metadata block ++ r ∷ []) m k ≡ (
          if bytes_eq r.key k
          then some r.value
          else if bytes_eq (block_key s) k
          then block_written block (m k)
          else m k)
  unfolding block_records
  write_block s none r m k = ground arith
  write_block s (some block) r m k = ground arith

  pub batch-contents :
      (s : Stream) (payload : Bytes) (m : Contents) (k : Bytes)
      → write_all (batch_of s payload) m k ≡ (
          if bytes_eq (record_key s (next_seq_num s)) k
          then some (Record.serialise (next_record s payload))
          else if bytes_eq (block_key s) k
          then block_written (new_block s) (m k)
          else m k)
  unfolding append_batch
  batch-contents s payload m k = write_block s (new_block s) _ m k

  next-IsU64 : (s : Stream) → IsReady s → IsU64 (next_seq_num s)
  next-IsU64 s h = omega (arith, h.allocator.room)

  -- Where a record is stored, `read` returns it or fails; where none is, it returns none or fails.
  pub read_stored :
      (R : Storage) (L : IsStorage R) (s : Stream) (n : ℕ) (r : Record) (records : R.State)
      → IsU64 r.seq_num
      → L.contents records (record_key s n) ≡ some (Record.serialise r)
      → (x : Option Record) → read R s n records ≡ ok x
      → x ≡ some r
  unfolding read
  read_stored R L s n r records h stored x e =
      let (found, got, rest) = >>=-eq-ok _ read_value e in
      let same : found ≡ some (record { key = record_key s n; value = Record.serialise r }) =
        get_stored L records _ _ stored found (map_err-eq-ok storage_error _ got) in
      ground (arith, same, rest, Record.deserialise-serialise r h)

  pub read_missing :
      (R : Storage) (L : IsStorage R) (s : Stream) (n : ℕ) (records : R.State)
      → L.contents records (record_key s n) ≡ none
      → (x : Option Record) → read R s n records ≡ ok x
      → x ≡ none
  unfolding read
  read_missing R L s n records missing x e =
      let (found, got, rest) = >>=-eq-ok _ read_value e in
      let same : found ≡ none =
        get_missing L records _ missing found (map_err-eq-ok storage_error _ got) in
      ground (arith, same, rest)

  failed_write :
      {A B : Type 0} {error : StreamError} (f : A → B) (m : Result StorageError A)
      → map_ok f (map_err storage_error m) ≡ err error
      → (c : StorageError) × (m ≡ err c)
  failed_write f (ok a) e = cc
  failed_write f (err c) e = (c, refl)
  failed_write f panic e = cc

  module _ (R : Storage) (L : IsStorage R) (s : Stream) (payload : Bytes) (records : R.State) where
    -- A successful append has written its batch, and nothing else.
    pub append_ok :
        (res : AppendResult)
        → IsReady s
        → (append R s payload records).0 ≡ ok res
        → (res ≡ record { stored = next_record s payload; next_seq_num = next_seq_num s + 1 })
          × ((append R s payload records).1 ≡ appended s)
          × ((k : Bytes)
              → L.contents (append R s payload records).2 k
                ≡ write_all (batch_of s payload) (L.contents records) k)
    append_ok res h e =
        let call = append-eq R s payload records h in
        let (r, done, same) = map_ok-eq-ok _ _ (sym (ap (λ t. t.0) call) ∙ e) in
        (
          sym same
              ∙ ap (λ n. record { stored = next_record s payload; next_seq_num = n })
                  (next-advanced 1 s.sequence_number_allocator),
          ap (λ t. t.1) call,
          λ k.
              ap (λ t. L.contents t.2 k) call
              ∙ L.apply_ok records (batch_of s payload) r (map_err-eq-ok storage_error _ done) k,
        )

    -- A failed append has written its whole batch or nothing; the stream has moved on all the same.
    pub append_err :
        (error : StreamError)
        → IsReady s
        → (append R s payload records).0 ≡ err error
        → ((append R s payload records).1 ≡ appended s)
          × (((k : Bytes) → L.contents (append R s payload records).2 k ≡ L.contents records k)
              ⊎ ((k : Bytes)
                  → L.contents (append R s payload records).2 k
                    ≡ write_all (batch_of s payload) (L.contents records) k))
    append_err error h e =
        let call = append-eq R s payload records h in
        let (c, failed) = failed_write _ _ (sym (ap (λ t. t.0) call) ∙ e) in
        (
          ap (λ t. t.1) call,
          elim (L.apply_err records (batch_of s payload) c failed) [
            | inl unchanged ↦ inl (λ k. ap (λ t. L.contents t.2 k) call ∙ unchanged k)
            | inr written ↦ inr (λ k. ap (λ t. L.contents t.2 k) call ∙ written k)
          ],
        )
