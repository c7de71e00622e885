-- ===== src/Stream/Sizes.antt =====
-- The lengths of the keys and the values of a stream.
use concrete.Prelude.{ℕ, ◌+◌, ◌≡◌, length, length-append, arith}
use concrete.Bytes.{Buffers}
use concrete.Bytes.BigEndian.{length-to_be_bytes}
use concrete.Text.{Str}
use concrete.Record
use concrete.Record.{Record}
use concrete.Sequence
use concrete.Sequence.{SeqBlock, block_capacity}
use concrete.Stream
use concrete.Stream.{
  StreamMetadata, metadata_size, construct_sequence_block_key, construct_stream_record_key,
  construct_metadata_key, metadata_prefix,
}
use concrete.Sequence.Codec.{length-serialise}
use concrete.Stream.Codec
use concrete.Stream.Keys.{
  sequence_block_key-eq, stream_record_key-eq, metadata_key-eq, metadata_prefix-eq,
}

module _ ⦃b : Buffers⦄ where
  length-metadata_prefix : (basin : ℕ) → length (metadata_prefix basin) ≡ 17
  length-metadata_prefix basin = rw metadata_prefix-eq (omega (arith, length-to_be_bytes 16 basin))

  -- The lengths of the keys and the values of a stream; a stored block and stored metadata are exactly as long as
  -- their readers demand.
  lengths :
      (basin stream n : ℕ) (name : Str) (md : StreamMetadata) (block : SeqBlock) (r : Record)
      → (length (construct_sequence_block_key basin stream) ≡ 1 + 1 + 16 + 16)
        × (length (construct_stream_record_key basin stream n) ≡ 1 + 16 + 16 + 8)
        × (length (construct_metadata_key basin name) ≡ 1 + 16 + length name)
        × (length (metadata_prefix basin) ≡ 1 + 16)
        × (length (Stream.serialise md) ≡ metadata_size)
        × (length (Sequence.serialise block) ≡ block_capacity)
        × (length (Record.serialise r) ≡ 8 + length r.payload)
  lengths basin stream n name md block r = (
    rw sequence_block_key-eq (
        rw length-append
          (omega (arith, length-to_be_bytes 16 basin, length-to_be_bytes 16 stream))),
    rw stream_record_key-eq (
        rw length-append (
          rw length-append (
            omega (
              arith,
              length-to_be_bytes 16 basin,
              length-to_be_bytes 16 stream,
              length-to_be_bytes 8 n,
            )))),
    rw metadata_key-eq (rw length-append (omega (arith, length-metadata_prefix basin))),
    length-metadata_prefix basin,
    rw Stream.Codec.serialise-eq (
        rw length-append
          (omega (arith, length-to_be_bytes 16 md.basin_id, length-to_be_bytes 16 md.stream_id))),
    length-serialise block,
    rw Record.serialise-eq (rw length-append (omega (arith, length-to_be_bytes 8 r.seq_num))),
  )
