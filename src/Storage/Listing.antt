-- ===== src/Storage/Listing.antt =====
-- The scan of a key prefix lists, in order, what the keys hold behind it: the part that the listings
-- of basins and of streams share.
use Prim.Native.Nat.{Ordering}
use concrete.Prelude.{
  ap₂, subst, ◌≡◌, ◌≢◌, refl, sym, ap, ◌∙◌, Bool, true, false, ◌||◌, Option, none, some, List, [],
  ◌∷◌, ◌++◌, map, length, drop, All, All-append, starts_with, arith, Bool-cases, inl, inr,
}
use concrete.Prelude.Order.{bytes_eq, bytes_eq_refl, bytes_lt, bytes_eq_iff, cmp-append}
use concrete.Prelude.Sort.{IsAscendingBy, sort_by, sort_by_ascending}
use concrete.Prelude.Result.{Result, ok, err, panic, map_ok, map_ok-eq-ok}
use concrete.Bytes.{Bytes, IsByte, IsBytes}
use concrete.Text.{Str}
use concrete.Storage.Error.{StorageError}
use concrete.Storage.Range.{contains}
use concrete.Storage.Interface.{StorageRecord, Storage}
use concrete.Storage.Laws.{Contents, lookup, IsBelow, IsAscending, IsScan}
use concrete.Storage.Scan.{visit_all}
use concrete.Key.{prefix_range}
use concrete.Key.Range.{prefix_range-contains}

abbrev pub has : Str → List Str → Bool
has n [] = false
has n (x ∷ xs) = bytes_eq x n || has n xs

abbrev pub is_some : Option Bytes → Bool
is_some none = false
is_some (some v) = true

-- The keys of a store are byte strings.
abbrev pub HasByteKeys : Contents → Type 0
HasByteKeys m = (k : Bytes) → m k ≢ none → IsBytes k

-- What a key holds behind a prefix.
abbrev pub suffix : Bytes → StorageRecord → Str
suffix p r = drop (length p) r.key

abbrev HasPrefix : Bytes → StorageRecord → Type 0
HasPrefix p r = r.key ≡ p ++ suffix p r

starts_with-append : (p k : Bytes) → starts_with k p ≡ true → k ≡ p ++ drop (length p) k
starts_with-append [] k h = refl
starts_with-append (b ∷ p) [] h = cc
starts_with-append (b ∷ p) (c ∷ k) h = ground (arith, starts_with-append p k)

append-starts_with : (p n : Bytes) → starts_with (p ++ n) p ≡ true
append-starts_with [] [] = refl
append-starts_with [] (c ∷ n) = refl
append-starts_with (b ∷ p) n = ground (arith, append-starts_with p n)

-- What holds of every key that a list of records has, holds of each record.
All-of_lookup :
    {P : Bytes → Type 0} (rs : List StorageRecord)
    → ((k : Bytes) → lookup k rs ≢ none → P k)
    → All (λ r. P r.key) rs
All-of_lookup [] h = tt
All-of_lookup (r ∷ rs) h =
    (h r.key (here r rs), All-of_lookup rs (λ k found. h k (there r rs k found)))
  where
    here : (r : StorageRecord) (rs : List StorageRecord) → lookup r.key (r ∷ rs) ≢ none
    here r rs e = ground (arith, bytes_eq_refl r.key)

    there :
        (r : StorageRecord) (rs : List StorageRecord) (k : Bytes)
        → lookup k rs ≢ none
        → lookup k (r ∷ rs) ≢ none
    there r rs k found e = ground arith

module _ (p : Bytes) (hp : IsBytes p) (m : Contents) (keys : HasByteKeys m)
    (rs : List StorageRecord) (scan : IsScan m (prefix_range p) rs) where
  prefixed_key : (k : Bytes) → lookup k rs ≢ none → k ≡ p ++ drop (length p) k
  prefixed_key k found = elim (Bool-cases (contains (prefix_range p) k)) [
    | inl e ↦
        let there : m k ≢ none = λ h. found (scan.finds k ∙ rw e h) in
        starts_with-append p k (sym (prefix_range-contains p k hp (keys k there)) ∙ e)
    | inr e ↦ absurd (found (scan.finds k ∙ rw e))
  ]

  pub All-prefixed : All (HasPrefix p) rs
  All-prefixed = All-of_lookup rs prefixed_key

  pub lookup_prefixed : (n : Str) → IsBytes n → lookup (p ++ n) rs ≡ m (p ++ n)
  lookup_prefixed n hn =
      scan.finds (p ++ n)
      ∙ rw (prefix_range-contains p (p ++ n) hp (All-append IsByte p n hp hn))
          (rw (append-starts_with p n))

bytes_eq-append : (p j k : Bytes) → bytes_eq (p ++ j) (p ++ k) ≡ bytes_eq j k
bytes_eq-append p j k = ap (elim [ Ordering.eq ↦ true | _ ↦ false ]) (cmp-append p j k)

bytes_lt-append : (p j k : Bytes) → bytes_lt (p ++ j) (p ++ k) ≡ bytes_lt j k
bytes_lt-append p j k = ap (elim [ Ordering.lt ↦ true | _ ↦ false ]) (cmp-append p j k)

pub has-suffix :
    (p n : Bytes) (rs : List StorageRecord)
    → All (HasPrefix p) rs
    → has n (map (suffix p) rs) ≡ is_some (lookup (p ++ n) rs)
has-suffix p n [] h = refl
has-suffix p n (r ∷ rs) h =
    let same : bytes_eq r.key (p ++ n) ≡ bytes_eq (suffix p r) n =
      ap (λ k. bytes_eq k (p ++ n)) h.0 ∙ bytes_eq-append p (suffix p r) n in
    ground (arith, same, has-suffix p n rs h.1)

below-suffix :
    (p : Bytes) (r : StorageRecord) (rs : List StorageRecord)
    → HasPrefix p r
    → All (HasPrefix p) rs
    → IsBelow r.key rs
    → All (λ y. bytes_lt (suffix p r) y ≡ true) (map (suffix p) rs)
below-suffix p r [] hr h below = tt
below-suffix p r (q ∷ rs) hr h below = (
  sym (bytes_lt-append p (suffix p r) (suffix p q)) ∙ sym (ap₂ bytes_lt hr h.0) ∙ below.0,
  below-suffix p r rs hr h.1 below.1,
)

pub ascending-suffix :
    (p : Bytes) (rs : List StorageRecord)
    → All (HasPrefix p) rs
    → IsAscending rs
    → IsAscendingBy (λ (s : Str). s) (map (suffix p) rs)
ascending-suffix p [] h a = tt
ascending-suffix p (r ∷ rs) h a = (below-suffix p r rs h.0 h.1 a.0, ascending-suffix p rs h.1 a.1)

-- A loop whose body names each view by what the key holds behind the prefix lists just that.
module _ (S : Storage) {E A : Type 0} (visit : StorageRecord → Result E A) (fail : StorageError → E)
    (name : A → Str) (p : Bytes)
    (named : (r : StorageRecord) (a : A) → visit r ≡ ok a → name a ≡ suffix p r) where
  visit_all-names :
      (rs : List StorageRecord) (end : Option StorageError) (views : List A)
      → visit_all S visit fail rs end ≡ ok views
      → (map name views ≡ map (suffix p) rs) × (end ≡ none)
  unfolding visit_all
  visit_all-names [] none views e = ground arith
  visit_all-names [] (some c) views e = cc
  visit_all-names (r ∷ rs) end views e = step (visit_all-names rs end) (visit r) refl e
    where
      step :
          ((views : List A)
            → visit_all S visit fail rs end ≡ ok views
            → (map name views ≡ map (suffix p) rs) × (end ≡ none))
          → (v : Result E A) → visit r ≡ v
          → elim v [
            | ok a ↦ map_ok (◌∷◌ a) (visit_all S visit fail rs end)
            | err e ↦ err e
            | panic ↦ panic
          ]
            ≡ ok views
          → (map name views ≡ map (suffix p) (r ∷ rs)) × (end ≡ none)
      step ih (ok a) v e =
          let (rest, listed, same) = map_ok-eq-ok _ _ e in
          let (names, ended) = ih rest listed in
          (ap (map name) (sym same) ∙ ap₂ ◌∷◌ (named r a v) names, ended)
      step ih (err c) v e = cc
      step ih panic v e = cc

  below-names :
      (x : A) (views : List A)
      → All (λ y. bytes_lt (name x) y ≡ true) (map name views)
      → All (λ y. bytes_lt (name x) (name y) ≡ true) views
  below-names x [] h = tt
  below-names x (y ∷ views) h = (h.0, below-names x views h.1)

  ascending-names :
      (views : List A) → IsAscendingBy (λ (s : Str). s) (map name views) → IsAscendingBy name views
  ascending-names [] h = tt
  ascending-names (x ∷ views) h = (below-names x views h.0, ascending-names views h.1)

  -- The names come sorted and without repetition, and are those that stand behind the prefix.
  pub listed_names :
      (m : Contents) (rs : List StorageRecord) (end : Option StorageError) (views : List A)
      → IsBytes p
      → HasByteKeys m
      → (end ≡ none → IsScan m (prefix_range p) rs)
      → visit_all S visit fail rs end ≡ ok views
      → IsAscendingBy name (sort_by name views)
        × ((n : Str) → IsBytes n → has n (map name (sort_by name views)) ≡ is_some (m (p ++ n)))
  listed_names m rs end views hp keys scans e =
      let (names, ended) = visit_all-names rs end views e in
      let scan = scans ended in
      let all = All-prefixed p hp m keys rs scan in
      let ascending : IsAscendingBy name views = ascending-names views (
        subst (IsAscendingBy (λ (s : Str). s)) (sym names)
          (ascending-suffix p rs all scan.ascending)) in
      let sorted : sort_by name views ≡ views = sort_by_ascending name views ascending in
      rw sorted (
        ascending,
        λ n hn.
            ap (has n) names
            ∙ has-suffix p n rs all
            ∙ ap is_some (lookup_prefixed p hp m keys rs scan n hn),
      )

-- A list of records with byte strings for keys finds nothing under other keys.
pub HasByteKeys-lookup :
    (rs : List StorageRecord) → All (λ r. IsBytes r.key) rs → HasByteKeys (λ k. lookup k rs)
HasByteKeys-lookup [] h k found = absurd (found refl)
HasByteKeys-lookup (r ∷ rs) h k found = elim (Bool-cases (bytes_eq r.key k)) [
  | inl e ↦ subst IsBytes ((bytes_eq_iff r.key k).0 e) h.0
  | inr e ↦ HasByteKeys-lookup rs h.1 k (λ missing. found (rw e missing))
]
