-- ===== src/Bytes/ListBuffers.antt =====
-- Lists as buffers: the documented behaviour of `BytesMut` can be met.
use concrete.Prelude.{refl, ◌∷◌, [], ◌++◌}
use concrete.Bytes.{Bytes, Buffers, to_be_bytes}

instance abbrev pub list_buffers : Buffers
list_buffers = record {
  BytesMut = Bytes;
  with_capacity = λ n. [];
  put_u8 = λ b v. b ++ v ∷ [];
  put_u64 = λ b v. b ++ to_be_bytes 8 v;
  put_u128 = λ b v. b ++ to_be_bytes 16 v;
  extend_from_slice = λ b s. b ++ s;
  extend = λ b s. b ++ s;
  freeze = λ b. b;
  starts_empty = λ n. refl;
  puts_u8 = λ b v. refl;
  puts_u64 = λ b v. refl;
  puts_u128 = λ b v. refl;
  extends = λ b s. refl;
  extends_by = λ b s. refl;
}
