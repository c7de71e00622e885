-- ===== src/Storage/InMemory/Tree.antt =====
-- The map's entries stay in order, and a read returns what was written last.
use concrete.Prelude.{
  ◌≡◌, refl, ◌∙◌, ap, true, none, some, List, [], ◌∷◌, arith, if◌then◌else◌, Bool-cases, inl, inr,
}
use concrete.Prelude.Order.{
  cmp, bytes_lt, bytes_eq, cmp-eq, cmp-gt, cmp_refl, cmp_trans, bytes_eq_iff, bytes_eq_refl,
  Ordering-cases,
}
use concrete.Bytes.{Bytes}
use concrete.Storage.Range.{BytesRange, contains}
use concrete.Storage.Interface.{StorageRecord}
use concrete.Storage.Laws.{Contents, lookup, write, write_all, IsBelow, IsAscending, IsScan}
use concrete.Storage.InMemory.{insert, insert_all, within}

pub lookup-insert :
    (k v : Bytes) (tree : List StorageRecord) (j : Bytes)
    → lookup j (insert k v tree) ≡ (if bytes_eq k j then some v else lookup j tree)
unfolding insert
lookup-insert k v [] j = refl
lookup-insert k v (r ∷ tree) j =
    ground (arith, lookup-insert k v tree j, cmp-eq k r.key, cmp-eq k j, cmp-eq r.key j, cmp_refl k)

pub lookup-insert_all :
    (batch tree : List StorageRecord) (m : Contents)
    → ((k : Bytes) → lookup k tree ≡ m k)
    → (k : Bytes) → lookup k (insert_all batch tree) ≡ write_all batch m k
unfolding insert_all
lookup-insert_all [] tree m h k = h k
lookup-insert_all (r ∷ batch) tree m h k =
    lookup-insert_all batch (insert r.key r.value tree) (write r m)
      (λ j.
        lookup-insert r.key r.value tree j
        ∙ ap (λ o. if bytes_eq r.key j then some r.value else o) (h j))
      k

IsBelow-trans :
    (j k : Bytes) (tree : List StorageRecord)
    → bytes_lt j k ≡ true
    → IsBelow k tree
    → IsBelow j tree
IsBelow-trans j k [] h below = tt
IsBelow-trans j k (r ∷ tree) h below =
    (ground (arith, below.0, cmp_trans j k r.key), IsBelow-trans j k tree h below.1)

IsBelow-insert :
    (j k v : Bytes) (tree : List StorageRecord)
    → bytes_lt j k ≡ true
    → IsBelow j tree
    → IsBelow j (insert k v tree)
unfolding insert
IsBelow-insert j k v [] h below = (h, tt)
IsBelow-insert j k v (r ∷ tree) h below = elim (Ordering-cases (cmp k r.key)) [
  | inl e ↦ rw (e, insert) (h, below)
  | inr (inl e) ↦ rw (e, insert) below
  | inr (inr e) ↦ rw (e, insert) (below.0, IsBelow-insert j k v tree h below.1)
]

IsAscending-insert :
    (k v : Bytes) (tree : List StorageRecord) → IsAscending tree → IsAscending (insert k v tree)
unfolding insert
IsAscending-insert k v [] h = (tt, tt)
IsAscending-insert k v (r ∷ tree) h = elim (Ordering-cases (cmp k r.key)) [
  | inl e ↦
      let before : bytes_lt k r.key ≡ true = rw (e, bytes_lt) in
      rw (e, insert) ((before, IsBelow-trans k r.key tree before h.0), h)
  | inr (inl e) ↦ rw (e, insert) h
  | inr (inr e) ↦
      rw (e, insert)
        (
          IsBelow-insert r.key k v tree (ground (arith, cmp-gt k r.key)) h.0,
          IsAscending-insert k v tree h.1,
        )
]

pub IsAscending-insert_all :
    (batch tree : List StorageRecord) → IsAscending tree → IsAscending (insert_all batch tree)
unfolding insert_all
IsAscending-insert_all [] tree h = h
IsAscending-insert_all (r ∷ batch) tree h =
    IsAscending-insert_all batch (insert r.key r.value tree)
      (IsAscending-insert r.key r.value tree h)

IsBelow-within :
    (k : Bytes) (range : BytesRange) (tree : List StorageRecord)
    → IsBelow k tree
    → IsBelow k (within range tree)
unfolding within
IsBelow-within k range [] h = tt
IsBelow-within k range (r ∷ tree) h = elim (Bool-cases (contains range r.key)) [
  | inl e ↦ rw e (h.0, IsBelow-within k range tree h.1)
  | inr e ↦ rw e (IsBelow-within k range tree h.1)
]

IsAscending-within :
    (range : BytesRange) (tree : List StorageRecord)
    → IsAscending tree
    → IsAscending (within range tree)
unfolding within
IsAscending-within range [] h = tt
IsAscending-within range (r ∷ tree) h = elim (Bool-cases (contains range r.key)) [
  | inl e ↦ rw e (IsBelow-within r.key range tree h.0, IsAscending-within range tree h.1)
  | inr e ↦ rw e (IsAscending-within range tree h.1)
]

lookup-within :
    (range : BytesRange) (tree : List StorageRecord) (k : Bytes)
    → lookup k (within range tree) ≡ (if contains range k then lookup k tree else none)
unfolding within
lookup-within range [] k = ground arith
lookup-within range (r ∷ tree) k = elim (Bool-cases (bytes_eq r.key k)) [
  | inl e ↦
      let same : r.key ≡ k = (bytes_eq_iff r.key k).0 e in
      rw same (ground (arith, lookup-within range tree k, bytes_eq_refl k))
  | inr e ↦ ground (arith, lookup-within range tree k)
]

-- The entries of a range are its scan.
pub within-IsScan :
    (range : BytesRange) (tree : List StorageRecord)
    → IsAscending tree
    → IsScan (λ k. lookup k tree) range (within range tree)
within-IsScan range tree h = record {
  ascending = IsAscending-within range tree h;
  finds = lookup-within range tree;
}
