-- ===== src/Stream/Listing.antt =====
-- `Stream::list`: the names of the streams of a basin.
use concrete.Prelude.{ℕ, ◌<◌, ◌≡◌, refl, sym, ap, ◌∙◌, Option, none, some, List, map, length}
use concrete.Prelude.Sort.{IsAscendingBy, sort_by}
use concrete.Prelude.Result.{Result, ok, err, panic, map_ok, >>=-eq-ok, map_err-eq-ok, map_ok-eq-ok}
use concrete.Bytes.{slice_from, slice_from-ok, Buffers, IsBytes}
use concrete.Text.{Str}
use concrete.Text.Utf8.{from_utf8-eq-ok}
use concrete.Storage.Error.{StorageError}
use concrete.Storage.Range.{BytesRange}
use concrete.Storage.Interface.{StorageRecord, Storage}
use concrete.Storage.Laws.{Yields, IsStorage}
use concrete.Storage.Scan.{visit_all, scan_loop, scan_loop-visit_all, scan_loop-some}
use concrete.Storage.Listing.{has, is_some, HasByteKeys, suffix, listed_names}
use concrete.Key.{prefix_range}
use concrete.Error.{StreamError, storage_error}
use concrete.Stream.{
  StreamView, deserialise, view_of, name_of, list, list_from, metadata_prefix,
  construct_metadata_key,
}
use concrete.Stream.Keys.{metadata_key-eq, metadata_prefix-IsBytes}
use mathlib.Core.Option

module _ ⦃b : Buffers⦄ where
  view_of-name :
      (basin : ℕ) (r : StorageRecord) (v : StreamView)
      → view_of basin r ≡ ok v
      → v.stream_name ≡ suffix (metadata_prefix basin) r
  unfolding view_of name_of
  view_of-name basin r v e =
      let (_, _, rest) = >>=-eq-ok (deserialise r.value) (λ _. name_of basin r) e in
      let (bytes, cut, shown) = >>=-eq-ok (slice_from r.key _) _ rest in
      let (name, read, built) = map_ok-eq-ok (λ (n : Str). record { stream_name = n }) _ shown in
      ap (λ (w : StreamView). w.stream_name) (sym built)
      ∙ from_utf8-eq-ok bytes name (map_err-eq-ok _ _ read)
      ∙ slice_from-ok r.key _ bytes cut

  module _ (M : Storage) (LM : IsStorage M) (basin : ℕ) (meta : M.State)
      (valid : LM.IsValid meta) where
    abbrev range : BytesRange
    range = prefix_range (metadata_prefix basin)

    -- The loop over what a scan yields.
    loop_result :
        (fuel : ℕ) (it : M.Iter) (rs : List StorageRecord) (end : Option StorageError)
        → Yields M it rs end
        → length rs < fuel
        → list_from M fuel basin (ok it)
          ≡ some (
              map_ok
                (sort_by (λ (v : StreamView). v.stream_name))
                (visit_all M (view_of basin) storage_error rs end))
    unfolding list_from
    loop_result fuel it rs end y h =
        rw (scan_loop-visit_all M (view_of basin) storage_error fuel y h)

    loop_views :
        (fuel : ℕ) (it : M.Iter) (views : List StreamView)
        → Option.map
            (map_ok (sort_by (λ (v : StreamView). v.stream_name)))
            (scan_loop M (view_of basin) storage_error fuel it)
          ≡ some (ok views)
        → (unsorted : List StreamView) × (scan_loop M (view_of basin) storage_error fuel it
            ≡ some (ok unsorted))
          × (sort_by (λ (v : StreamView). v.stream_name) unsorted ≡ views)
    loop_views fuel it views e = go (scan_loop M (view_of basin) storage_error fuel it) e
      where
        go :
            (o : Option (Result StreamError (List StreamView)))
            → Option.map (map_ok (sort_by (λ (v : StreamView). v.stream_name))) o ≡ some (ok views)
            → (unsorted : List StreamView) × (o ≡ some (ok unsorted))
              × (sort_by (λ (v : StreamView). v.stream_name) unsorted ≡ views)
        go none e = cc
        go (some (ok vs)) e = (vs, refl, cc)
        go (some (err c)) e = cc
        go (some panic) e = cc

    -- The listing ends: some number of rounds is enough, and then more rounds change nothing.
    pub list_ends :
        (n : ℕ) × (result : Result StreamError (List StreamView)) × ((fuel : ℕ)
          → n < fuel
          → list M fuel basin meta ≡ some result)
    unfolding list
    list_ends = go (M.scan_iter meta range) refl
      where
        go :
            (got : Result StorageError M.Iter)
            → M.scan_iter meta range ≡ got
            → (n : ℕ) × (result : Result StreamError (List StreamView)) × ((fuel : ℕ)
                → n < fuel
                → list_from M fuel basin got ≡ some result)
        go (ok it) e =
            let (rs, end, y, _) = LM.scan_ok meta range it valid e in
            (length rs, _, λ fuel h. loop_result fuel it rs end y h)
        go (err c) e = (0, _, λ fuel h. refl)
        go panic e = (0, _, λ fuel h. refl)

    -- A listing that returns names the streams whose metadata the store has under the basin: in
    -- ascending order, each once, and no other.
    pub list_names :
        (fuel : ℕ) (views : List StreamView)
        → HasByteKeys (LM.contents meta)
        → list M fuel basin meta ≡ some (ok views)
        → IsAscendingBy (λ (v : StreamView). v.stream_name) views
          × ((name : Str)
              → IsBytes name
              → has name (map (λ v. v.stream_name) views)
                ≡ is_some (LM.contents meta (construct_metadata_key basin name)))
    unfolding list
    list_names fuel views keys e = go (M.scan_iter meta range) refl e
      where
        go :
            (got : Result StorageError M.Iter)
            → M.scan_iter meta range ≡ got
            → list_from M fuel basin got ≡ some (ok views)
            → IsAscendingBy (λ (v : StreamView). v.stream_name) views
              × ((name : Str)
                  → IsBytes name
                  → has name (map (λ v. v.stream_name) views)
                    ≡ is_some (LM.contents meta (construct_metadata_key basin name)))
        go (ok it) g e =
            let (rs, end, y, scans) = LM.scan_ok meta range it valid g in
            let (unsorted, looped, sorted) = loop_views fuel it views (unfold list_from in e) in
            let (ascending, named) =
              listed_names M (view_of basin) storage_error (λ (v : StreamView). v.stream_name)
                (metadata_prefix basin) (view_of-name basin) (LM.contents meta) rs end unsorted
                (metadata_prefix-IsBytes basin) keys scans
                (scan_loop-some M (view_of basin) storage_error fuel (ok unsorted) y looped) in
            rw (← sorted) (
              ascending,
              λ name hn.
                  named name hn
                  ∙ ap (λ k. is_some (LM.contents meta k)) (sym (metadata_key-eq basin name)),
            )
        go (err c) g e = unfold list_from in cc
        go panic g e = unfold list_from in cc
