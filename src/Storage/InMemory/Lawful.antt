-- ===== src/Storage/InMemory/Lawful.antt =====
-- The in-memory store keeps the contract of a store.
use concrete.Prelude.{
  false, ap, ◌≡◌, refl, inl, inr, Option, some, none, List, arith, Bool-cases, ◌≢◌,
}
use concrete.Prelude.Result.{panic, ok, err}
use concrete.Bytes.{Bytes}
use concrete.Storage.Error.{StorageError}
use concrete.Storage.Range.{BytesRange, included}
use concrete.Storage.Interface.{StorageRecord, WriteResult}
use concrete.Storage.Laws.{
  NeverPanics, Contents, lookup, write_all, IsAscending, IsStorage, IsScan, Yields,
}
use concrete.Storage.InMemory.{
  range_panics, InMemoryStorage, InMemoryIterator, in_memory, within, apply, get, scan_iter,
}
use concrete.Key.{prefix_range, next_prefix, upper_bound}
use concrete.Key.Range.{lt-next_prefix}
use concrete.Prelude.Order.{cmp-lt}
use concrete.Storage.InMemory.Tree.{lookup-insert_all, IsAscending-insert_all, within-IsScan}
use concrete.Storage.InMemory.Iterator.{yields_from}
use mathlib.Core.Option

abbrev pub stored : InMemoryStorage → Contents
stored s k = lookup k s.tree

pub apply-IsAscending :
    (s : InMemoryStorage) (batch : List StorageRecord)
    → IsAscending s.tree
    → IsAscending (apply s batch).1.tree
unfolding apply
apply-IsAscending s batch h = elim (Bool-cases s.poisoned) [
  | inl e ↦ rw e h
  | inr e ↦ rw e (IsAscending-insert_all batch s.tree h)
]

pub apply-stored :
    (s : InMemoryStorage) (batch : List StorageRecord) (w : WriteResult)
    → (apply s batch).0 ≡ ok w
    → (k : Bytes) → stored (apply s batch).1 k ≡ write_all batch (stored s) k
unfolding apply
apply-stored s batch w h k = elim (Bool-cases s.poisoned) [
  | inl e ↦ ground arith
  | inr e ↦ rw e (lookup-insert_all batch s.tree (stored s) (λ j. refl) k)
]

pub apply-unchanged :
    (s : InMemoryStorage) (batch : List StorageRecord) (e : StorageError)
    → (apply s batch).0 ≡ err e
    → (k : Bytes) → stored (apply s batch).1 k ≡ stored s k
unfolding apply
apply-unchanged s batch e h k = ground arith

pub get-stored :
    (s : InMemoryStorage) (k : Bytes) (found : Option StorageRecord)
    → get s k ≡ ok found
    → found ≡ Option.map (λ v. record { key = k; value = v }) (stored s k)
unfolding get
get-stored s k found h = ground arith

pub scan-within :
    (s : InMemoryStorage) (range : BytesRange) (it : InMemoryIterator)
    → scan_iter s range ≡ ok it
    → it ≡ record { records = within range s.tree; position = 0 }
unfolding scan_iter
scan-within s range it h = ground arith

-- The in-memory store keeps the contract: a batch is written as a whole and in its order, a read
-- finds what was written last, and a scan yields the range in the order of the keys.
unfoldable pub in_memory-IsStorage : IsStorage in_memory
in_memory-IsStorage = record {
  IsValid = λ s. IsAscending s.tree;
  contents = stored;
  apply-IsValid = apply-IsAscending;
  apply_ok = apply-stored;
  apply_err = λ s batch e h. inl (apply-unchanged s batch e h);
  get_ok = get-stored;
  scan_ok = λ s range it valid h. (
    within range s.tree,
    none,
    rw (scan-within s range it h) (yields_from (within range s.tree) 0 _ refl),
    λ _. within-IsScan range s.tree valid,
  );
}

-- After a batch, a read finds the last value that the batch writes to the key, or else the value from
-- before; a lock that is not poisoned stays so.
pub get-apply :
    (s : InMemoryStorage) (batch : List StorageRecord) (k : Bytes)
    → s.poisoned ≡ false
    → get (apply s batch).1 k
      ≡ ok (Option.map (λ v. record { key = k; value = v }) (write_all batch (stored s) k))
unfolding get apply
get-apply s batch k h = rw h (
    ap (λ (o : Option Bytes). ok (Option.map (λ v. record { key = k; value = v }) o))
      (lookup-insert_all batch s.tree (stored s) (λ j. refl) k))

-- A scan of an ordered map yields the entries of the range, in the order of their keys, without an
-- error; they are found under the keys of the range and no others.
pub scan_iter-IsScan :
    (s : InMemoryStorage) (range : BytesRange) (it : InMemoryIterator)
    → IsAscending s.tree
    → scan_iter s range ≡ ok it
    → Yields in_memory it (within range s.tree) none × IsScan (stored s) range (within range s.tree)
scan_iter-IsScan s range it valid h = (
  rw (scan-within s range it h) (yields_from (within range s.tree) 0 _ refl),
  within-IsScan range s.tree valid,
)

prefix-ordered :
    (p : Bytes) (end : Option Bytes)
    → next_prefix p ≡ end
    → range_panics (included p) (upper_bound end) ≡ false
unfolding range_panics upper_bound
prefix-ordered p (some q) e = ground (arith, lt-next_prefix p q e, cmp-lt p q)
prefix-ordered p none e = refl

-- The scan of a key prefix never panics.
pub scan_prefix-ne-panic : (s : InMemoryStorage) (p : Bytes) → scan_iter s (prefix_range p) ≢ panic
unfolding scan_iter prefix_range
scan_prefix-ne-panic s p h = ground (arith, prefix-ordered p (next_prefix p) refl)

pub in_memory-NeverPanics : NeverPanics in_memory
unfolding apply get
in_memory-NeverPanics = record {
  apply = λ s batch e. ground (arith, e);
  get = λ s k e. ground (arith, e);
}
