-- ===== src/Stream/Codec.antt =====
-- The metadata of a stream is stored in 32 bytes and read back.
use concrete.Prelude.{◌≡◌, ◌≤◌, ◌++◌, length, length-append, append_assoc, arith, le→ltb}
use concrete.Prelude.Result.{ok}
use concrete.Bytes.{Bytes, Buffers, IsU128, to_be_bytes}
use concrete.Bytes.BigEndian.{length-to_be_bytes, read_front, drop-to_be_bytes}
use concrete.Stream.{StreamMetadata, serialise, deserialise, deserialise-eq}

module _ ⦃b : Buffers⦄ where
  pub serialise-eq :
      (m : StreamMetadata) → serialise m ≡ to_be_bytes 16 m.basin_id ++ to_be_bytes 16 m.stream_id
  unfolding serialise
  serialise-eq m = simp (b.puts_u128, b.starts_empty)

  -- Reading the metadata that was written, whatever follows it, gives the two ids.
  pub deserialise-serialise_metadata :
      (m : StreamMetadata) (rest : Bytes)
      → IsU128 m.basin_id
      → IsU128 m.stream_id
      → deserialise (serialise m ++ rest) ≡ ok m
  deserialise-serialise_metadata m rest hb hs = rw deserialise-eq (
      rw (le→ltb (length (serialise m ++ rest)) 32 long) (
        rw serialise-eq (
          rw append_assoc (
            rw (read_front 16 m.basin_id _ (omega arith))
              (rw drop-to_be_bytes (rw (read_front 16 m.stream_id rest (omega arith))))))))
    where
      long : 32 ≤ length (serialise m ++ rest)
      long = rw serialise-eq (
          rw length-append (
            rw length-append
              (omega (arith, length-to_be_bytes 16 m.basin_id, length-to_be_bytes 16 m.stream_id))))
