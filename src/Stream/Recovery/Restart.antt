-- ===== src/Stream/Recovery/Restart.antt =====
-- A restart of a stream resumes at or behind the next number.
use concrete.Prelude.{◌+◌, ◌*◌, ◌<◌, ◌≤◌, ◌≡◌, sym, some, arith, subst}
use concrete.Prelude.Result.{ok}
use concrete.Bytes.{Buffers}
use concrete.Text.{Str}
use concrete.Storage.Interface.{Storage}
use concrete.Storage.Laws.{IsStorage}
use concrete.Sequence
use concrete.Sequence.{SeqBlock, SequenceAllocator, u64_mod}
use concrete.Sequence.Allocate.{IsValid}
use concrete.Stream
use concrete.Stream.{
  Stream, StreamMetadata, AppendResult, construct_stream_record_key, append, read, load,
  next_seq_num, construct_metadata_key,
}
use concrete.Stream.Recovery.{IsDurable, HasRoom}
use concrete.Stream.Recovery.Load.{load-metadata, load-block}

module _ ⦃b : Buffers⦄ (M R : Storage) (LM : IsStorage M) (LR : IsStorage R) (name : Str)
    (meta : M.State) where
  -- The metadata store knows the stream by its name.
  abbrev pub IsNamed : Stream → Type 0
  IsNamed s =
      LM.contents meta (construct_metadata_key s.metadata.basin_id name)
      ≡ some (Stream.serialise s.metadata)

  new-next :
      (a : SequenceAllocator)
      → IsValid a
      → a.next_sequence_number + 1 + 3 * a.current_block.block_size < u64_mod
      → (a.next_sequence_number ≤ (Sequence.new a.current_block).next_sequence_number)
        × IsValid (Sequence.new a.current_block)
  unfolding Sequence.new
  new-next a v room = ground arith

  -- A restart resumes at or behind the next number, and what is stored stays durable for it.
  module _ (s t : Stream) (records : R.State) (d : IsDurable (LR.contents records) s)
      (room : HasRoom s) (named : IsNamed s)
      (loaded : load M R s.metadata.basin_id name meta records ≡ ok t) where
    pub same_metadata : t.metadata ≡ s.metadata
    same_metadata =
        load-metadata M R LM LR s t name meta records named d.ready.basin d.ready.stream loaded

    reloaded : t.sequence_number_allocator ≡ Sequence.new s.sequence_number_allocator.current_block
    reloaded =
        load-block M R LM LR s t name meta records named d.ready.basin d.ready.stream loaded
          s.sequence_number_allocator.current_block d.block
          (omega (arith, d.ready.allocator.room, d.ready.allocator.from))
          (omega (arith, d.ready.allocator.room, d.ready.allocator.from))

    pub restart-next : next_seq_num s ≤ next_seq_num t
    restart-next = rw reloaded (new-next s.sequence_number_allocator d.ready.allocator room).0

    resumed : Stream
    resumed = record s {
      sequence_number_allocator = Sequence.new s.sequence_number_allocator.current_block;
    }

    resumed-IsDurable : IsDurable (LR.contents records) resumed
    unfolding resumed
    resumed-IsDurable = record {
      ready = record {
        basin = d.ready.basin;
        stream = d.ready.stream;
        allocator = (new-next s.sequence_number_allocator d.ready.allocator room).1;
      };
      block = unfold Sequence.new in d.block;
      below = λ n h stored. omega (
        arith,
        d.below n h stored,
        (new-next s.sequence_number_allocator d.ready.allocator room).0,
      );
    }

    t-eq-resumed : t ≡ resumed
    unfolding resumed
    t-eq-resumed =
        λ i. record { sequence_number_allocator = reloaded i; metadata = same_metadata i }

    pub restart-IsDurable : IsDurable (LR.contents records) t
    restart-IsDurable = subst (IsDurable (LR.contents records)) (sym t-eq-resumed) resumed-IsDurable
