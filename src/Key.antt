-- ===== src/Key.antt =====
-- key/key.rs: the tags of the key space, the builder of keys, and the range of a key prefix.
pub mod Range
mod Tests
mod UnitTests
use concrete.Prelude.{
  ℕ, zero, suc, ◌+◌, ◌≡◌, ◌==◌, Option, none, some, List, [], ◌∷◌, ◌++◌, arith, length, get_elem?,
  set, take, if◌then◌else◌,
}
use concrete.Bytes.{Bytes, Buffers, to_be_bytes}
use concrete.Text.{Str}
use concrete.Storage.Range.{BytesRange, Bound, included, excluded, unbounded}

abbrev pub record_sequence_number_prefix_key : ℕ
record_sequence_number_prefix_key = 0x01

abbrev pub record_basin_prefix_key : ℕ
record_basin_prefix_key = 0x02

abbrev pub record_stream_record_prefix_key : ℕ
record_stream_record_prefix_key = 0x03

abbrev pub meta_stream_prefix_key : ℕ
meta_stream_prefix_key = 0x01

abbrev pub meta_basin_prefix_key : ℕ
meta_basin_prefix_key = 0x02

abbrev pub seq_basin_prefix_key : ℕ
seq_basin_prefix_key = 0x01

abbrev pub seq_stream_prefix_key : ℕ
seq_stream_prefix_key = 0x02

-- `end[idx]` of an index in range
byte_at : Bytes → ℕ → ℕ
byte_at end idx = elim (get_elem? end idx) [ none ↦ 0 | some b ↦ b ]

-- `for idx in (0..n).rev()`
next_prefix_loop : ℕ → Bytes → Option Bytes
unfolding byte_at
next_prefix_loop zero end = none
next_prefix_loop (suc idx) end =
    let rest = next_prefix_loop idx end in
    if byte_at end idx == 255
    then rest
    else some (take (idx + 1) (set end idx (byte_at end idx + 1)))

unfoldable pub next_prefix : Bytes → Option Bytes
unfolding next_prefix_loop
next_prefix prefix = next_prefix_loop (length prefix) prefix

unfoldable pub upper_bound : Option Bytes → Bound
upper_bound (some end) = excluded end
upper_bound none = unbounded

unfoldable pub prefix_range : Bytes → BytesRange
unfolding upper_bound
prefix_range prefix = record { start = included prefix; end = upper_bound (next_prefix prefix) }

module _ ⦃b : Buffers⦄ where
  pub record BytesBuilder : Type 0 where
    pub buf : b.BytesMut

  unfoldable pub builder : ℕ → BytesBuilder
  builder capacity = record { buf = b.with_capacity capacity }

  unfoldable pub add_u8 : ℕ → BytesBuilder → BytesBuilder
  add_u8 v k = record { buf = b.put_u8 k.buf v }

  unfoldable pub add_u64 : ℕ → BytesBuilder → BytesBuilder
  add_u64 v k = record { buf = b.put_u64 k.buf v }

  unfoldable pub add_u128 : ℕ → BytesBuilder → BytesBuilder
  add_u128 v k = record { buf = b.put_u128 k.buf v }

  unfoldable pub put_str : Str → BytesBuilder → BytesBuilder
  put_str s k = record { buf = b.extend_from_slice k.buf s }

  unfoldable pub build : BytesBuilder → Bytes
  build k = b.freeze k.buf

  pub build_bytes : ℕ → Str → Bytes
  build_bytes prefix s =
      b.freeze (b.extend_from_slice (b.put_u8 (b.with_capacity (1 + length s)) prefix) s)

  pub build_bytes_from_string : Str → Bytes
  build_bytes_from_string s = b.freeze (b.extend_from_slice (b.with_capacity (length s)) s)

  pub build-builder : (n : ℕ) → build (builder n) ≡ []
  unfolding build builder
  build-builder n = b.starts_empty n

  pub build-add_u8 : (v : ℕ) (k : BytesBuilder) → build (add_u8 v k) ≡ build k ++ v ∷ []
  unfolding build add_u8
  build-add_u8 v k = b.puts_u8 k.buf v

  pub build-add_u64 : (v : ℕ) (k : BytesBuilder) → build (add_u64 v k) ≡ build k ++ to_be_bytes 8 v
  unfolding build add_u64
  build-add_u64 v k = b.puts_u64 k.buf v

  pub build-add_u128 :
      (v : ℕ) (k : BytesBuilder) → build (add_u128 v k) ≡ build k ++ to_be_bytes 16 v
  unfolding build add_u128
  build-add_u128 v k = b.puts_u128 k.buf v

  pub build-put_str : (s : Str) (k : BytesBuilder) → build (put_str s k) ≡ build k ++ s
  unfolding build put_str
  build-put_str s k = b.extends k.buf s

pub ruleset buffer_laws =
    (build-builder, build-add_u8, build-add_u64, build-add_u128, build-put_str)
