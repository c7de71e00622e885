-- ===== src/Basin/Views.antt =====
-- The entries that the two listings read.
use concrete.Prelude.{
  ℕ, ◌≡◌, ◌≢◌, refl, ◌≤◌, ◌==◌, ◌&&◌, [], ◌∷◌, le→ltb, arith, length, ltb, Bool, true, false,
  if◌then◌else◌,
}
use concrete.Prelude.Result.{Result, ok, err, panic, ◌>>=◌, map_err}
use concrete.Prelude.Lists.{starts_with}
use concrete.Bytes.{Bytes, Buffers, slice_from}
use concrete.Text.Utf8.Total.{from_utf8-ne-panic, map_ok-ne-panic}
use concrete.Storage.Interface.{StorageRecord}
use concrete.Stream
use concrete.Basin

and_right : (x y : Bool) → x && y ≡ true → y ≡ true
and_right true y h = h
and_right false y h = cc

map_err-ne-panic : {E F A : Type 0} (f : E → F) (m : Result E A) → m ≢ panic → map_err f m ≢ panic
map_err-ne-panic f (ok a) h = λ e. cc
map_err-ne-panic f (err x) h = λ e. cc
map_err-ne-panic f panic h = λ e. h refl

bind-ne-panic :
    {E A B : Type 0} (m : Result E A) (f : A → Result E B)
    → m ≢ panic
    → ((a : A) → f a ≢ panic)
    → (m >>= f) ≢ panic
bind-ne-panic (ok a) f h k = k a
bind-ne-panic (err x) f h k = λ e. cc
bind-ne-panic panic f h k = λ e. h refl

if-ne-panic : {E A : Type 0} (t : Bool) (x : E) (a : A) → (if t then err x else ok a) ≢ panic
if-ne-panic true x a = λ e. cc
if-ne-panic false x a = λ e. cc

starts_with-length : (k p : Bytes) → starts_with k p ≡ true → length p ≤ length k
starts_with-length k [] h = omega arith
starts_with-length [] (c ∷ p) h = cc
starts_with-length (d ∷ k) (c ∷ p) h =
    omega (arith, starts_with-length k p (and_right (d == c) (starts_with k p) h))

slice-ne-panic :
    {E : Type 0} (k p : Bytes) → starts_with k p ≡ true → slice_from {E = E} k (length p) ≢ panic
slice-ne-panic k p h = rw (le→ltb (length k) (length p) (starts_with-length k p h)) (λ e. cc)

readable_metadata : (v : Bytes) → Stream.deserialise v ≢ panic
readable_metadata v =
    rw Stream.deserialise-eq (if-ne-panic (ltb (length v) Stream.metadata_size) _ _)

readable_id : (v : Bytes) → Basin.deserialise_basin_id v ≢ panic
readable_id v = rw Basin.deserialise_basin_id-eq (if-ne-panic (ltb (length v) 16) _ _)

module _ ⦃b : Buffers⦄ where
  stream_view :
      (basin : ℕ) (r : StorageRecord)
      → starts_with r.key (Stream.metadata_prefix basin) ≡ true
      → Stream.view_of basin r ≢ panic
  unfolding Stream.view_of Stream.name_of
  stream_view basin r h = bind-ne-panic _ _ (readable_metadata r.value) (λ m.
      bind-ne-panic _ _ (slice-ne-panic r.key (Stream.metadata_prefix basin) h)
        (λ name. map_ok-ne-panic _ _ (map_err-ne-panic _ _ (from_utf8-ne-panic name))))

  basin_view :
      (r : StorageRecord) → starts_with r.key Basin.metadata_prefix ≡ true → Basin.view_of r ≢ panic
  unfolding Basin.view_of Basin.name_of
  basin_view r h = bind-ne-panic _ _ (readable_id r.value) (λ m.
      bind-ne-panic _ _ (slice-ne-panic r.key Basin.metadata_prefix h)
        (λ name. map_ok-ne-panic _ _ (map_err-ne-panic _ _ (from_utf8-ne-panic name))))

  -- Whatever else the key and the value of an entry are, each of the two listings makes a view or an error of it if the
  -- key starts with the prefix of the listing: the slices of the value and of the key stay in bounds, and the decoder of its name ends.
  pub view_of-ne-panic :
      (basin : ℕ) (r r' : StorageRecord)
      → starts_with r.key (Stream.metadata_prefix basin) ≡ true
      → starts_with r'.key Basin.metadata_prefix ≡ true
      → (Stream.view_of basin r ≢ panic) × (Basin.view_of r' ≢ panic)
  view_of-ne-panic basin r r' h h' = (stream_view basin r h, basin_view r' h')
