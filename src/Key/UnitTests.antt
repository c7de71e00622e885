-- ===== src/Key/UnitTests.antt =====
-- The unit tests of key/key.rs, run on the model.
use concrete.Prelude.{◌≡◌, refl, Bool, true, false, not, ◌&&◌, [], ◌∷◌}
use concrete.Storage.Range.{Bound, included, unbounded, contains}
use concrete.Key.{prefix_range, next_prefix, upper_bound}

abbrev prefix_range_ends_at_next_lexicographic_prefix : Bool
prefix_range_ends_at_next_lexicographic_prefix =
    let range = prefix_range (0x01 ∷ 0x02 ∷ []) in
    contains range (0x01 ∷ 0x02 ∷ [])
    && (contains range (0x01 ∷ 0x02 ∷ 0x00 ∷ []) && not (contains range (0x01 ∷ 0x03 ∷ [])))

abbrev is_included : Bound → Bool
is_included (included k) = true
is_included _ = false

abbrev is_unbounded : Bound → Bool
is_unbounded unbounded = true
is_unbounded _ = false

abbrev prefix_range_without_successor_is_unbounded_at_end : Bool
prefix_range_without_successor_is_unbounded_at_end =
    let range = prefix_range (0xff ∷ []) in is_included range.start && is_unbounded range.end

ends_passes : prefix_range_ends_at_next_lexicographic_prefix ≡ true
unfolding prefix_range next_prefix upper_bound contains
ends_passes = refl

unbounded_passes : prefix_range_without_successor_is_unbounded_at_end ≡ true
unfolding prefix_range next_prefix upper_bound
unbounded_passes = refl
