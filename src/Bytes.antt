-- ===== src/Bytes.antt =====
-- Byte strings: the big-endian conversions of Rust's unsigned integers, and the buffers of the
-- `bytes` crate, through which every key and value of the store is built.
pub mod BigEndian
pub mod Order
pub mod ListBuffers
pub mod Slices
use concrete.Prelude.{
  ℕ, suc, zero, ◌+◌, ◌*◌, ◌/◌, ◌%◌, ◌<◌, ◌^◌, ◌≡◌, List, [], ◌∷◌, ◌++◌, All, length, ltb, drop,
  take, ◌-◌, ◌==◌, if◌then◌else◌, arith,
}
use concrete.Prelude.Result.{Result, ok, panic}
use mathlib.Core.List.{foldl}

abbrev pub Bytes : Type 0
Bytes = List ℕ

abbrev pub IsByte : ℕ → Type 0
IsByte b = b < 256

abbrev pub IsBytes : Bytes → Type 0
IsBytes = All IsByte

abbrev pub IsU64 : ℕ → Type 0
IsU64 v = v < 2 ^ 64

abbrev pub IsU128 : ℕ → Type 0
IsU128 v = v < 2 ^ 128

-- `v.to_be_bytes()` of an integer of `n` bytes
unfoldable pub to_be_bytes : ℕ → ℕ → Bytes
to_be_bytes zero v = []
to_be_bytes (suc n) v = to_be_bytes n (v / 256) ++ (v % 256) ∷ []

-- `from_be_bytes(data)`
unfoldable pub from_be_bytes : Bytes → ℕ
from_be_bytes = foldl (λ acc b. acc * 256 + b) 0

-- `&bytes[n..]`, which panics where the bytes are fewer than `n`
abbrev pub slice_from : {E : Type 0} → Bytes → ℕ → Result E Bytes
slice_from bs n = if ltb (length bs) n then panic else ok (drop n bs)

-- `&bytes[i..j]`, which panics where `j` is behind the end
abbrev pub slice : {E : Type 0} → Bytes → ℕ → ℕ → Result E Bytes
slice bs i j = if ltb (length bs) j then panic else ok (take (j - i) (drop i bs))

-- `bytes.split_at(n)`, which panics where the bytes are fewer than `n`
abbrev pub split_at : {E : Type 0} → Bytes → ℕ → Result E (Bytes × Bytes)
split_at bs n = if ltb (length bs) n then panic else ok (take n bs, drop n bs)

-- `from_be_bytes(bytes.try_into().unwrap())` of an integer of `n` bytes, which panics where the
-- bytes are not `n`
abbrev pub int_from : {E : Type 0} → ℕ → Bytes → Result E ℕ
int_from n bs = if length bs == n then ok (from_be_bytes bs) else panic

-- `bytes::BytesMut` with `BufMut` and `Extend`: documented to append, the integers in big-endian
-- order.
pub record Buffers : Type 1 where
  pub BytesMut : Type 0
  pub with_capacity : ℕ → BytesMut
  pub put_u8 : BytesMut → ℕ → BytesMut
  pub put_u64 : BytesMut → ℕ → BytesMut
  pub put_u128 : BytesMut → ℕ → BytesMut
  pub extend_from_slice : BytesMut → Bytes → BytesMut
  pub extend : BytesMut → Bytes → BytesMut
  pub freeze : BytesMut → Bytes
  pub starts_empty : (n : ℕ) → freeze (with_capacity n) ≡ []
  pub puts_u8 : (b : BytesMut) (v : ℕ) → freeze (put_u8 b v) ≡ freeze b ++ v ∷ []
  pub puts_u64 : (b : BytesMut) (v : ℕ) → freeze (put_u64 b v) ≡ freeze b ++ to_be_bytes 8 v
  pub puts_u128 : (b : BytesMut) (v : ℕ) → freeze (put_u128 b v) ≡ freeze b ++ to_be_bytes 16 v
  pub extends : (b : BytesMut) (s : Bytes) → freeze (extend_from_slice b s) ≡ freeze b ++ s
  pub extends_by : (b : BytesMut) (s : Bytes) → freeze (extend b s) ≡ freeze b ++ s

pub slice_from-ok :
    {E : Type 0} (bs : Bytes) (n : ℕ) (cut : Bytes)
    → slice_from {E = E} bs n ≡ ok cut
    → cut ≡ drop n bs
slice_from-ok bs n cut h = ground arith
