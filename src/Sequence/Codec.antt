-- ===== src/Sequence/Codec.antt =====
-- A block is stored in 16 bytes and read back.
use concrete.Prelude.{◌≡◌, ◌++◌, length, length-append, append_assoc, arith, le→ltb, ◌≤◌}
use concrete.Prelude.Result.{ok}
use concrete.Bytes.{Bytes, Buffers, IsU64, to_be_bytes}
use concrete.Bytes.BigEndian.{length-to_be_bytes, read_front, drop-to_be_bytes}
use concrete.Sequence.{SeqBlock, serialise, deserialize, deserialize-eq}

module _ ⦃b : Buffers⦄ where
  pub serialise-eq :
      (block : SeqBlock)
      → serialise block ≡ to_be_bytes 8 block.start ++ to_be_bytes 8 block.block_size
  unfolding serialise
  serialise-eq block = simp (b.puts_u64, b.starts_empty)

  pub length-serialise : (block : SeqBlock) → length (serialise block) ≡ 16
  length-serialise block = rw serialise-eq (
      rw length-append
        (omega (arith, length-to_be_bytes 8 block.start, length-to_be_bytes 8 block.block_size)))

  -- Reading what `serialise` wrote, whatever follows it, gives the block.
  pub deserialize-serialise :
      (block : SeqBlock) (rest : Bytes)
      → IsU64 block.start
      → IsU64 block.block_size
      → deserialize (serialise block ++ rest) ≡ ok block
  deserialize-serialise block rest hs hb = rw deserialize-eq (
      rw (le→ltb (length (serialise block ++ rest)) 16 long) (
        rw serialise-eq (
          rw append_assoc (
            rw (read_front 8 block.start _ (omega arith))
              (rw drop-to_be_bytes (rw (read_front 8 block.block_size rest (omega arith))))))))
    where
      long : 16 ≤ length (serialise block ++ rest)
      long = rw length-append (omega (arith, length-serialise block))
