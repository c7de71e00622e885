-- ===== src/Stream/Keys.antt =====
-- The keys of a stream, as bytes: no two of them meet.
pub mod Order
use concrete.Prelude.{ℕ, ◌≡◌, ◌≢◌, ◌++◌, ap, ◌∷◌, append_assoc, arith, sym, ◌∙◌}
use concrete.Bytes.{Buffers, IsU64, IsU128, to_be_bytes, IsBytes}
use concrete.Bytes.BigEndian.{
  to_be_bytes-append_injective, to_be_bytes-injective, to_be_bytes-IsBytes,
}
use concrete.Text.{Str}
use concrete.Prelude.Lists.{head_or_zero, append-cancel}
use concrete.Key.{buffer_laws}
use concrete.Stream.{
  construct_sequence_block_key, construct_stream_record_key, construct_metadata_key,
  metadata_prefix,
}

module _ ⦃b : Buffers⦄ where
  pub sequence_block_key-eq :
      (basin stream : ℕ)
      → construct_sequence_block_key basin stream
        ≡ 1 ∷ 2 ∷ to_be_bytes 16 basin ++ to_be_bytes 16 stream
  unfolding construct_sequence_block_key
  sequence_block_key-eq basin stream = simp buffer_laws

  pub stream_record_key-eq :
      (basin stream n : ℕ)
      → construct_stream_record_key basin stream n
        ≡ 3 ∷ to_be_bytes 16 basin ++ (to_be_bytes 16 stream ++ to_be_bytes 8 n)
  unfolding construct_stream_record_key
  stream_record_key-eq basin stream n = simp (buffer_laws, append_assoc)

  pub metadata_prefix-eq : (basin : ℕ) → metadata_prefix basin ≡ 1 ∷ to_be_bytes 16 basin
  unfolding metadata_prefix
  metadata_prefix-eq basin = simp buffer_laws

  pub metadata_key-eq :
      (basin : ℕ) (name : Str) → construct_metadata_key basin name ≡ metadata_prefix basin ++ name
  unfolding construct_metadata_key
  metadata_key-eq basin name = rw metadata_prefix-eq (simp buffer_laws)

  -- Two records have one key only if they are one record of one stream.
  pub stream_record_key-injective :
      (basin basin' stream stream' n n' : ℕ)
      → IsU128 basin
      → IsU128 basin'
      → IsU128 stream
      → IsU128 stream'
      → IsU64 n
      → IsU64 n'
      → construct_stream_record_key basin stream n ≡ construct_stream_record_key basin' stream' n'
      → (basin ≡ basin') × (stream ≡ stream') × (n ≡ n')
  stream_record_key-injective basin basin' stream stream' n n' hb hb' hs hs' hn hn' e =
      let (first, rest) = to_be_bytes-append_injective 16 basin basin' hb hb' (tails e) in
      let (second, third) = to_be_bytes-append_injective 16 stream stream' hs hs' rest in
      (first, second, to_be_bytes-injective 8 n n' hn hn' third)
    where
      tails :
          construct_stream_record_key basin stream n ≡ construct_stream_record_key basin' stream' n'
          → to_be_bytes 16 basin ++ (to_be_bytes 16 stream ++ to_be_bytes 8 n)
            ≡ to_be_bytes 16 basin' ++ (to_be_bytes 16 stream' ++ to_be_bytes 8 n')
      tails e = cc (stream_record_key-eq basin stream n, stream_record_key-eq basin' stream' n')

  -- No record lies under the key of a block.
  pub record_key-ne-block_key :
      (basin basin' stream stream' n : ℕ)
      → construct_stream_record_key basin stream n ≢ construct_sequence_block_key basin' stream'
  record_key-ne-block_key basin basin' stream stream' n e = omega (
    arith,
    ap head_or_zero
        (sym (stream_record_key-eq basin stream n) ∙ e ∙ sequence_block_key-eq basin' stream'),
  )

  pub sequence_block_key-injective :
      (basin basin' stream stream' : ℕ)
      → IsU128 basin
      → IsU128 basin'
      → IsU128 stream
      → IsU128 stream'
      → construct_sequence_block_key basin stream ≡ construct_sequence_block_key basin' stream'
      → (basin ≡ basin') × (stream ≡ stream')
  sequence_block_key-injective basin basin' stream stream' hb hb' hs hs' e =
      let (first, rest) = to_be_bytes-append_injective 16 basin basin' hb hb' (tails e) in
      (first, to_be_bytes-injective 16 stream stream' hs hs' rest)
    where
      tails :
          construct_sequence_block_key basin stream ≡ construct_sequence_block_key basin' stream'
          → to_be_bytes 16 basin ++ to_be_bytes 16 stream
            ≡ to_be_bytes 16 basin' ++ to_be_bytes 16 stream'
      tails e = cc (sequence_block_key-eq basin stream, sequence_block_key-eq basin' stream')

  pub metadata_prefix-IsBytes : (basin : ℕ) → IsBytes (metadata_prefix basin)
  metadata_prefix-IsBytes basin = rw metadata_prefix-eq (omega arith, to_be_bytes-IsBytes 16 basin)

  pub metadata_key-injective :
      (basin : ℕ) (m n : Str)
      → construct_metadata_key basin m ≡ construct_metadata_key basin n
      → m ≡ n
  metadata_key-injective basin m n e =
      append-cancel (metadata_prefix basin)
        (sym (metadata_key-eq basin m) ∙ e ∙ metadata_key-eq basin n)
