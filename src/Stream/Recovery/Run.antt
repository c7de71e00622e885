-- ===== src/Stream/Recovery/Run.antt =====
-- Runs of one stream: appends, failed appends that needed no new block, and restarts, in any order.
use concrete.Prelude.{
  ℕ, ◌≡◌, sym, ap, ◌∙◌, inl, inr, Option, none, some, arith, Bool-cases, subst, true,
}
use concrete.Prelude.Order.{bytes_eq, bytes_eq_iff, bytes_eq_refl}
use concrete.Prelude.Result.{ok, err}
use concrete.Bytes.{Bytes, Buffers, IsU64}
use concrete.Text.{Str}
use concrete.Storage.Interface.{Storage}
use concrete.Storage.Laws.{Contents, IsStorage, write_all}
use concrete.Error.{StreamError}
use concrete.Record
use concrete.Record.{Record}
use concrete.Stream
use mathlib.Core.Option.{some-ne-none}
use concrete.Stream.Keys.{stream_record_key-injective, record_key-ne-block_key}
use concrete.Stream.{
  Stream, StreamMetadata, AppendResult, construct_stream_record_key, append, read, load,
  next_seq_num, construct_metadata_key,
}
use concrete.Stream.Append.{
  appended, new_block, record_key, batch_of, next_record, read_stored, append_ok, append_err,
}
use concrete.Stream.Recovery.{
  IsDurable, HasRoom, batch-IsDurable, batch-record, unwritten-IsDurable,
}
use concrete.Stream.Recovery.Restart.{IsNamed, same_metadata, restart-IsDurable}

module _ ⦃b : Buffers⦄ (M R : Storage) (LM : IsStorage M) (LR : IsStorage R) (name : Str)
    (meta : M.State) where
  pub data Step : Stream → R.State → Stream → R.State → Type 0 where
    append_done :
        (s : Stream) (records : R.State) (payload : Bytes) (res : AppendResult)
        → HasRoom s
        → (append R s payload records).0 ≡ ok res
        → Step s records (append R s payload records).1 (append R s payload records).2
    append_failed :
        (s : Stream) (records : R.State) (payload : Bytes) (e : StreamError)
        → HasRoom s
        → new_block s ≡ none
        → (append R s payload records).0 ≡ err e
        → Step s records (append R s payload records).1 (append R s payload records).2
    restart :
        (s t : Stream) (records : R.State)
        → HasRoom s
        → load M R s.metadata.basin_id name meta records ≡ ok t
        → Step s records t records

  pub data Run (s : Stream) (records : R.State) : Stream → R.State → Type 0 where
    here : Run s records s records
    then_step :
        {t u : Stream} {records' records'' : R.State}
        → Run s records t records'
        → Step t records' u records''
        → Run s records u records''

  -- A stream whose store is durable and which is found by its name.
  pub record IsSafe (s : Stream) (records : R.State) : Type 0 where
    pub durable : IsDurable (LR.contents records) s
    pub named : IsNamed M R LM LR name meta s

  appended-IsSafe :
      (s t : Stream) (records records' : R.State)
      → IsSafe s records
      → t ≡ appended s
      → IsDurable (LR.contents records') (appended s)
      → IsSafe t records'
  appended-IsSafe s t records records' safe e d =
      subst (λ u. IsSafe u records') (sym e) (record { durable = d; named = safe.named })

  pub Step-IsSafe :
      {s : Stream} {records : R.State} {t : Stream} {records' : R.State}
      → Step s records t records'
      → IsSafe s records
      → IsSafe t records'
  Step-IsSafe (append_done s records payload res room e) safe =
      let (_, moved, written) = append_ok R LR s payload records res safe.durable.ready e in
      appended-IsSafe s _ records _ safe moved
        (batch-IsDurable s payload _ _ safe.durable room written)
  Step-IsSafe (append_failed s records payload error room same e) safe =
      let (moved, outcome) = append_err R LR s payload records error safe.durable.ready e in
      appended-IsSafe s _ records _ safe moved (elim outcome [
        | inl unchanged ↦ unwritten-IsDurable s _ _ safe.durable room same unchanged
        | inr written ↦ batch-IsDurable s payload _ _ safe.durable room written
      ])
  Step-IsSafe (restart s t records room loaded) safe = record {
    durable = restart-IsDurable M R LM LR name meta s t records safe.durable room safe.named loaded;
    named =
        subst
          (λ (m : StreamMetadata).
            LM.contents meta (construct_metadata_key m.basin_id name) ≡ some (Stream.serialise m))
          (sym (same_metadata M R LM LR name meta s t records safe.durable room safe.named loaded))
          safe.named;
  }

  -- Along every run the record store stays durable for the stream: a restart at any point resumes
  -- behind all that is stored.
  pub Run-IsSafe :
      {s : Stream} {records : R.State} {t : Stream} {records' : R.State}
      → IsSafe s records
      → Run s records t records'
      → IsSafe t records'
  Run-IsSafe safe here = safe
  Run-IsSafe safe (then_step run step) = Step-IsSafe step (Run-IsSafe safe run)

  -- A batch keeps every record that is stored: the next number has none.
  batch_keeps :
      (s : Stream) (payload : Bytes) (m m' : Contents) (n : ℕ) (v : Bytes)
      → IsDurable m s
      → IsU64 n
      → ((k : Bytes) → m' k ≡ write_all (batch_of s payload) m k)
      → m (record_key s n) ≡ some v
      → m' (record_key s n) ≡ some v
  batch_keeps s payload m m' n v d hn w stored =
      w (record_key s n)
      ∙ batch-record s payload m (record_key s n) (record_key-ne-block_key _ _ _ _ _)
      ∙ elim (Bool-cases (bytes_eq (record_key s (next_seq_num s)) (record_key s n))) [
        | inl e ↦ absurd (fresh e)
        | inr e ↦ rw e stored
      ]
    where
      fresh : bytes_eq (record_key s (next_seq_num s)) (record_key s n) ≡ true → ⊥
      fresh e =
          let same =
            (stream_record_key-injective _ _ _ _ _ _ d.ready.basin d.ready.basin d.ready.stream
              d.ready.stream (omega (arith, d.ready.allocator.room)) hn
              ((bytes_eq_iff _ _).0 e)).2 in
          let below = d.below n hn (λ e. some-ne-none v (sym stored ∙ e)) in omega arith

  Step-keeps :
      {s : Stream} {records : R.State} {t : Stream} {records' : R.State} (n : ℕ) (v : Bytes)
      → Step s records t records'
      → IsSafe s records
      → IsU64 n
      → LR.contents records (record_key s n) ≡ some v
      → (LR.contents records' (record_key t n) ≡ some v)
  Step-keeps n v (append_done s records payload res room e) safe hn stored =
      let (_, moved, written) = append_ok R LR s payload records res safe.durable.ready e in
      ap (λ u. LR.contents (append R s payload records).2 (record_key u n)) moved
      ∙ batch_keeps s payload _ _ n v safe.durable hn written stored
  Step-keeps n v (append_failed s records payload error room same e) safe hn stored =
      let (moved, outcome) = append_err R LR s payload records error safe.durable.ready e in
      ap (λ u. LR.contents (append R s payload records).2 (record_key u n)) moved ∙ elim outcome [
        | inl unchanged ↦ unchanged (record_key s n) ∙ stored
        | inr written ↦ batch_keeps s payload _ _ n v safe.durable hn written stored
      ]
  Step-keeps n v (restart s t records room loaded) safe hn stored =
      ap
        (λ (m : StreamMetadata).
          LR.contents records (construct_stream_record_key m.basin_id m.stream_id n))
        (same_metadata M R LM LR name meta s t records safe.durable room safe.named loaded)
      ∙ stored

  -- A record that is stored stays as it is, along every run.
  pub Run-keeps :
      {s : Stream} {records : R.State} {t : Stream} {records' : R.State} (n : ℕ) (v : Bytes)
      → IsSafe s records
      → Run s records t records'
      → IsU64 n
      → LR.contents records (record_key s n) ≡ some v
      → LR.contents records' (record_key t n) ≡ some v
  Run-keeps n v safe here hn stored = stored
  Run-keeps n v safe (then_step run step) hn stored =
      Step-keeps n v step (Run-IsSafe safe run) hn (Run-keeps n v safe run hn stored)

  appended_record :
      (s : Stream) (records : R.State) (payload : Bytes) (res : AppendResult)
      → IsSafe s records
      → (append R s payload records).0 ≡ ok res
      → (res.stored ≡ next_record s payload)
        × (LR.contents
              (append R s payload records).2
              (record_key (append R s payload records).1 (next_seq_num s))
            ≡ some (Record.serialise (next_record s payload)))
  appended_record s records payload res safe e =
      let (same, moved, written) = append_ok R LR s payload records res safe.durable.ready e in
      (
        ap (λ (r : AppendResult). r.stored) same,
        ap (λ u. LR.contents (append R s payload records).2 (record_key u (next_seq_num s))) moved
            ∙ written (record_key s (next_seq_num s))
            ∙ batch-record s payload _ _ (record_key-ne-block_key _ _ _ _ _)
            ∙ rw (bytes_eq_refl (record_key s (next_seq_num s))),
      )

  -- A record whose append returned is what a read of its number finds, after any run of appends,
  -- failed appends that needed no block, and restarts; the read may fail, but finds nothing else.
  pub read_after-Run :
      (s : Stream) (records : R.State) (payload : Bytes) (res : AppendResult) (t : Stream)
      (records' : R.State) (x : Option Record)
      → IsSafe s records
      → HasRoom s
      → (append R s payload records).0 ≡ ok res
      → Run (append R s payload records).1 (append R s payload records).2 t records'
      → read R t res.stored.seq_num records' ≡ ok x
      → x ≡ some res.stored
  read_after-Run s records payload res t records' x safe room e run got =
      let (same, stored) = appended_record s records payload res safe e in
      let fits : IsU64 (next_seq_num s) = omega (arith, safe.durable.ready.allocator.room) in
      let kept =
        Run-keeps (next_seq_num s) _ (Step-IsSafe (append_done s records payload res room e) safe)
          run fits stored in
      read_stored R LR t (next_seq_num s) (next_record s payload) records' fits kept x
        (ap (λ (r : Record). read R t r.seq_num records') (sym same) ∙ got)
      ∙ ap some (sym same)
