-- ===== src/Stream/Recovery/Reissue.antt =====
-- Two ways in which the code reissues a number: the block of the handle is not in the store.
use concrete.Prelude.{◌+◌, ◌<◌, ◌≡◌, refl, sym, ap, ◌∙◌, none, some, arith}
use concrete.Prelude.Result.{ok, err}
use concrete.Bytes.{Bytes, Buffers}
use concrete.Text.{Str}
use concrete.Storage.Interface.{Storage}
use concrete.Storage.Laws.{IsStorage}
use concrete.Sequence
use concrete.Sequence.{SeqBlock, SequenceAllocator, u64_mod}
use concrete.Sequence.Allocate.{IsValid, end_of, advanced, entered}
use concrete.Error.{StreamError}
use concrete.Stream.{Stream, AppendResult, append, load, next_seq_num}
use concrete.Stream.Append.{IsReady, appended, block_key, append_ok, append_err}
use concrete.Stream.Recovery.{HasRoom, IsReady-appended, batch-block}
use concrete.Stream.Recovery.Load.{load-block, load-without_block}
use concrete.Stream.Recovery.Run.{IsSafe}
use concrete.Stream.Recovery.Restart.{IsNamed}

module _ ⦃b : Buffers⦄ (M R : Storage) (LM : IsStorage M) (LR : IsStorage R) (name : Str)
    (meta : M.State) where
  no_second_block :
      (a : SequenceAllocator)
      → IsValid a
      → a.next_sequence_number + 1 ≡ end_of a
      → 1 < a.current_block.block_size
      → entered 1 (advanced 1 a) ≡ none
  no_second_block a v last big = ground arith

  next_of_new :
      (a : SequenceAllocator)
      → IsValid a
      → a.next_sequence_number + 1 ≡ end_of a
      → (Sequence.new a.current_block).next_sequence_number ≡ (advanced 1 a).next_sequence_number
  unfolding Sequence.new
  next_of_new a v last = ground arith

  -- Where the handle has moved on into a block that the store does not have.
  resumed_over :
      (s : Stream) (records : R.State) (first second : Bytes) (res : AppendResult) (t : Stream)
      → IsSafe M R LM LR name meta s records
      → HasRoom s
      → next_seq_num s + 1 ≡ end_of s.sequence_number_allocator
      → 1 < s.sequence_number_allocator.current_block.block_size
      → ((k : Bytes) → LR.contents (append R s first records).2 k ≡ LR.contents records k)
      → (append R (appended s) second (append R s first records).2).0 ≡ ok res
      → load M R s.metadata.basin_id name meta
          (append R (appended s) second (append R s first records).2).2
        ≡ ok t
      → next_seq_num t ≡ res.stored.seq_num
  resumed_over s records first second res t safe room last big unwritten done loaded =
      let a = s.sequence_number_allocator in
      let (same, _, written) =
        append_ok R LR (appended s) second (append R s first records).2 res
          (IsReady-appended s safe.durable.ready room) done in
      let kept : LR.contents (append R (appended s) second (append R s first records).2).2
            (block_key s)
          ≡ some (Sequence.serialise a.current_block) =
        written (block_key s)
        ∙ batch-block (appended s) second _
        ∙ rw (no_second_block a safe.durable.ready.allocator last big)
            (unwritten (block_key s) ∙ safe.durable.block) in
      ap (λ (x : SequenceAllocator). x.next_sequence_number)
        (load-block M R LM LR s t name meta _ safe.named safe.durable.ready.basin
          safe.durable.ready.stream loaded a.current_block kept
          (omega (arith, safe.durable.ready.allocator.room, safe.durable.ready.allocator.from))
          (omega (arith, safe.durable.ready.allocator.room, safe.durable.ready.allocator.from)))
      ∙ next_of_new a safe.durable.ready.allocator last
      ∙ sym (ap (λ (x : AppendResult). x.stored.seq_num) same)

  -- A failed append that was to enter a new block, and wrote nothing, leaves the handle in a block
  -- that the store does not have. The next append returns; a restart then resumes at its number.
  pub reissued_after_failed_block :
      (s : Stream) (records : R.State) (first second : Bytes) (e : StreamError) (res : AppendResult)
      (t : Stream)
      → IsSafe M R LM LR name meta s records
      → HasRoom s
      → next_seq_num s + 1 ≡ end_of s.sequence_number_allocator
      → 1 < s.sequence_number_allocator.current_block.block_size
      → (append R s first records).0 ≡ err e
      → ((k : Bytes) → LR.contents (append R s first records).2 k ≡ LR.contents records k)
      → (append R (append R s first records).1 second (append R s first records).2).0 ≡ ok res
      → load M R s.metadata.basin_id name meta
          (append R (append R s first records).1 second (append R s first records).2).2
        ≡ ok t
      → next_seq_num t ≡ res.stored.seq_num
  reissued_after_failed_block s records first second e res t safe room last big failed unwritten
        done loaded =
      let (moved, _) = append_err R LR s first records e safe.durable.ready failed in
      resumed_over s records first second res t safe room last big unwritten (rw moved at done)
        (rw moved at loaded)

  -- The handle of a stream whose block was never written, as after a `Stream::new` that failed at its
  -- second write, starts at 0 again after each restart, over the record that it has acknowledged.
  pub reissued_without_block :
      (s : Stream) (records : R.State) (payload : Bytes) (res : AppendResult) (t : Stream)
      → IsReady s
      → IsNamed M R LM LR name meta s
      → LR.contents records (block_key s) ≡ none
      → s.sequence_number_allocator ≡ Sequence.default
      → (append R s payload records).0 ≡ ok res
      → load M R s.metadata.basin_id name meta (append R s payload records).2 ≡ ok t
      → (res.stored.seq_num ≡ 0) × (next_seq_num t ≡ 0)
  reissued_without_block s records payload res t ready named missing start done loaded =
      let (same, _, written) = append_ok R LR s payload records res ready done in
      let kept =
        written (block_key s)
        ∙ batch-block s payload _
        ∙ rw start (unfold Sequence.default in missing) in
      (
        ap (λ (x : AppendResult). x.stored.seq_num) same
            ∙ rw start (unfold Sequence.default in refl),
        ap (λ (x : SequenceAllocator). x.next_sequence_number)
              (load-without_block M R LM LR s t name meta _ named ready.basin ready.stream loaded
                kept)
            ∙ (unfold Sequence.default in refl),
      )
