-- ===== src/Storage/Range.antt =====
-- storage/storage.rs: ranges of keys.
use concrete.Prelude.{Bool, true, ◌&&◌}
use concrete.Prelude.Order.{bytes_lt, bytes_le}
use concrete.Bytes.{Bytes}

-- `std::ops::Bound<Bytes>`
pub data Bound : Type 0 where
  included excluded : Bytes → Bound
  unbounded : Bound

pub record BytesRange : Type 0 where
  pub start : Bound
  pub end : Bound

above : Bound → Bytes → Bool
above (included s) k = bytes_le s k
above (excluded s) k = bytes_lt s k
above unbounded k = true

below : Bound → Bytes → Bool
below (included e) k = bytes_le k e
below (excluded e) k = bytes_lt k e
below unbounded k = true

unfoldable pub contains : BytesRange → Bytes → Bool
unfolding above below
contains r k = above r.start k && below r.end k

abbrev pub unbounded_range : BytesRange
unbounded_range = record { start = unbounded; end = unbounded }
