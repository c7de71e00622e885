-- ===== src/Record.antt =====
-- record.rs: a record of a stream, and its bytes in the store.
mod Tests
mod UnitTests
use concrete.Prelude.{
  ℕ, ◌+◌, ◌<◌, ◌≤◌, ◌≡◌, ◌++◌, take, drop, length, length-append, ltb, if◌then◌else◌, arith, le→ltb,
  ltb→le, Bool-cases, inl, inr, refl,
}
use concrete.Prelude.Result.{Result, ok, err, ◌>>=◌}
use concrete.Bytes.{Bytes, Buffers, IsU64, to_be_bytes, from_be_bytes, split_at, int_from}
use concrete.Bytes.Slices.{first_int}
use concrete.Bytes.BigEndian.{read_front, drop-to_be_bytes, length-to_be_bytes}
use concrete.Text.{Str, text, decimal}
use concrete.Error.{StreamError, deserialise_error}

-- `payload` is the field `data`.
pub record Record : Type 0 where
  pub seq_num : ℕ
  pub payload : Bytes

unfoldable pub serialise : ⦃b : Buffers⦄ → Record → Bytes
serialise ⦃b⦄ r =
    b.freeze (b.extend (b.put_u64 (b.with_capacity (8 + length r.payload)) r.seq_num) r.payload)

unfoldable pub deserialise : Bytes → Result StreamError Record
deserialise buf =
    if ltb (length buf) 8
    then err (
        deserialise_error
          (text "record should at least have 8 bytes, got " ++ decimal (length buf)))
    else split_at buf 8 >>= λ (parts : Bytes × Bytes).
        int_from 8 parts.0 >>= λ seq_num. ok (record { seq_num = seq_num; payload = parts.1 })

-- Behind the guard the split and the integer are in bounds.
pub deserialise-eq :
    (buf : Bytes)
    → deserialise buf ≡ (
        if ltb (length buf) 8
        then err (
            deserialise_error
              (text "record should at least have 8 bytes, got " ++ decimal (length buf)))
        else ok (record { seq_num = from_be_bytes (take 8 buf); payload = drop 8 buf }))
unfolding deserialise
deserialise-eq buf = elim (Bool-cases (ltb (length buf) 8)) [
  | inl short ↦ rw short refl
  | inr long ↦ rw long (rw (first_int buf 8 (ltb→le (length buf) 8 long)) refl)
]

module _ ⦃b : Buffers⦄ where
  pub serialise-eq : (r : Record) → serialise r ≡ to_be_bytes 8 r.seq_num ++ r.payload
  unfolding serialise
  serialise-eq r = simp (b.puts_u64, b.starts_empty, b.extends_by)

  -- A record with a `u64` number is read back as it was written, whatever its data.
  pub deserialise-serialise : (r : Record) → IsU64 r.seq_num → deserialise (serialise r) ≡ ok r
  deserialise-serialise r h = rw deserialise-eq (
      rw (le→ltb (length (serialise r)) 8 long) (
        rw serialise-eq
          (rw (read_front 8 r.seq_num r.payload (omega arith)) (rw drop-to_be_bytes))))
    where
      long : 8 ≤ length (serialise r)
      long = rw serialise-eq (rw length-append (omega (arith, length-to_be_bytes 8 r.seq_num)))
