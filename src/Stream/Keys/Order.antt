-- ===== src/Stream/Keys/Order.antt =====
-- The order of the keys of records.
use Prim.Native.Nat.{compare, Ordering}
use concrete.Prelude.{ℕ, ◌<◌, ◌≡◌, true, ◌++◌, ◌↔◌, ◌⊎◌, arith}
use concrete.Prelude.Order.{cmp, bytes_lt}
use concrete.Bytes.{Buffers, IsU64, IsU128, to_be_bytes}
use concrete.Bytes.BigEndian.{length-to_be_bytes}
use concrete.Bytes.Order.{cmp-append, cmp-to_be_bytes}
use concrete.Stream.{construct_stream_record_key}
use concrete.Stream.Keys.{stream_record_key-eq}

-- One record is in front of another: by the basin, then the stream, then the number.
abbrev pub IsBefore : ℕ × ℕ × ℕ → ℕ × ℕ × ℕ → Type 0
IsBefore (basin, stream, n) (basin', stream', n') =
    (basin < basin') ⊎ ((basin ≡ basin') × ((stream < stream') ⊎ ((stream ≡ stream') × (n < n'))))

module _ ⦃b : Buffers⦄ (basin basin' stream stream' n n' : ℕ) where
  tails :
      IsU128 stream
      → IsU128 stream'
      → IsU64 n
      → IsU64 n'
      → cmp (to_be_bytes 16 stream ++ to_be_bytes 8 n) (to_be_bytes 16 stream' ++ to_be_bytes 8 n')
        ≡ elim (compare stream stream') [
          | Ordering.lt ↦ Ordering.lt
          | Ordering.eq ↦ compare n n'
          | Ordering.gt ↦ Ordering.gt
        ]
  tails hs hs' hn hn' = ground (
    arith,
    cmp-append (to_be_bytes 16 stream) (to_be_bytes 16 stream') (to_be_bytes 8 n) (to_be_bytes 8 n')
        (omega (arith, length-to_be_bytes 16 stream, length-to_be_bytes 16 stream')),
    cmp-to_be_bytes 16 stream stream' hs hs',
    cmp-to_be_bytes 8 n n' hn hn',
  )

  -- The keys of records sort as byte strings, in the stores, by basin, then by stream, and in one stream by the
  -- sequence number, for all `u128` ids and `u64` numbers.
  pub stream_record_key-lt :
      IsU128 basin
      → IsU128 basin'
      → IsU128 stream
      → IsU128 stream'
      → IsU64 n
      → IsU64 n'
      → (bytes_lt
            (construct_stream_record_key basin stream n)
            (construct_stream_record_key basin' stream' n')
          ≡ true)
        ↔ IsBefore (basin, stream, n) (basin', stream', n')
  stream_record_key-lt hb hb' hs hs' hn hn' =
      (λ e. ground (arith, whole, e), λ e. ground (arith, whole, e))
    where
      whole :
          cmp
            (construct_stream_record_key basin stream n)
            (construct_stream_record_key basin' stream' n')
          ≡ elim (compare basin basin') [
            | Ordering.lt ↦ Ordering.lt
            | Ordering.eq ↦ elim (compare stream stream') [
              | Ordering.lt ↦ Ordering.lt
              | Ordering.eq ↦ compare n n'
              | Ordering.gt ↦ Ordering.gt
            ]
            | Ordering.gt ↦ Ordering.gt
          ]
      whole =
          rw (stream_record_key-eq basin stream n, stream_record_key-eq basin' stream' n')
            (ground (
              arith,
              cmp-append (to_be_bytes 16 basin) (to_be_bytes 16 basin')
                  (to_be_bytes 16 stream ++ to_be_bytes 8 n)
                  (to_be_bytes 16 stream' ++ to_be_bytes 8 n')
                  (omega (arith, length-to_be_bytes 16 basin, length-to_be_bytes 16 basin')),
              cmp-to_be_bytes 16 basin basin' hb hb',
              tails hs hs' hn hn',
            ))
