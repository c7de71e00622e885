-- ===== src/Storage/InMemory.antt =====
-- storage/in_memory.rs: a `BTreeMap` behind a lock, with its counter of writes.
pub mod Tree
pub mod Iterator
pub mod Lawful
mod Tests
use concrete.Prelude.{
  ℕ, zero, suc, ◌+◌, ◌%◌, ◌^◌, Bool, true, false, ◌&&◌, ◌||◌, not, Option, none, some, List, [],
  ◌∷◌, ◌++◌, length, get_elem?, leb, if◌then◌else◌,
}
use concrete.Prelude.Order.{cmp, bytes_lt, bytes_eq}
use concrete.Prelude.Result.{Result, ok, err, panic}
use concrete.Text.{Str, text}
use concrete.Bytes.{Bytes}
use concrete.Storage.Error.{StorageError, internal}
use concrete.Storage.Range.{BytesRange, Bound, included, excluded, unbounded, contains}
use concrete.Storage.Interface.{StorageRecord, WriteResult, Storage}
use concrete.Storage.Laws.{lookup}
use Prim.Native.Nat.{Ordering}
use mathlib.Core.Option

-- `BTreeMap::insert`, on the entries in the order of their keys
unfoldable pub insert : Bytes → Bytes → List StorageRecord → List StorageRecord
insert k v [] = record { key = k; value = v } ∷ []
insert k v (r ∷ tree) = elim (cmp k r.key) [
  | Ordering.lt ↦ record { key = k; value = v } ∷ r ∷ tree
  | Ordering.eq ↦ record r { value = v } ∷ tree
  | Ordering.gt ↦ r ∷ insert k v tree
]

-- The entries that `BTreeMap::range` visits.
unfoldable pub within : BytesRange → List StorageRecord → List StorageRecord
within range [] = []
within range (r ∷ tree) =
    let rest = within range tree in if contains range r.key then r ∷ rest else rest

-- `BTreeMap::range` panics on a range whose start lies behind its end, and on one that excludes
-- its one point twice.
pub range_panics : Bound → Bound → Bool
range_panics (included s) (included e) = bytes_lt e s
range_panics (included s) (excluded e) = bytes_lt e s
range_panics (excluded s) (included e) = bytes_lt e s
range_panics (excluded s) (excluded e) = bytes_lt e s || bytes_eq e s
range_panics _ _ = false

-- The lock is poisoned once a writer has panicked while it held it.
pub record InMemoryStorage : Type 0 where
  pub tree : List StorageRecord
  pub poisoned : Bool
  pub seqnum : ℕ

unfoldable pub new : InMemoryStorage
new = record { tree = []; poisoned = false; seqnum = 0 }

abbrev lock_poisoned : StorageError
lock_poisoned = internal (text "lock poisoned: poisoned lock: another task failed inside")

-- the `for` over the batch
pub insert_all : List StorageRecord → List StorageRecord → List StorageRecord
insert_all [] tree = tree
insert_all (r ∷ batch) tree = insert_all batch (insert r.key r.value tree)

-- `fetch_add` returns the counter's old value, and wraps.
unfoldable pub apply :
    InMemoryStorage → List StorageRecord → Result StorageError WriteResult × InMemoryStorage
unfolding insert_all insert
apply s batch = if s.poisoned then (err lock_poisoned, s) else (
  ok (record { seqnum = (s.seqnum + 1) % 2 ^ 64 }),
  record s { tree = insert_all batch s.tree; seqnum = (s.seqnum + 1) % 2 ^ 64 },
)

unfoldable pub get : InMemoryStorage → Bytes → Result StorageError (Option StorageRecord)
get s k =
    if s.poisoned
    then err lock_poisoned
    else ok (Option.map (λ v. record { key = k; value = v }) (lookup k s.tree))

pub record InMemoryIterator : Type 0 where
  pub records : List StorageRecord
  pub position : ℕ

unfoldable pub scan_iter : InMemoryStorage → BytesRange → Result StorageError InMemoryIterator
unfolding within range_panics contains
scan_iter s range =
    if s.poisoned
    then err lock_poisoned
    else if range_panics range.start range.end
    then panic
    else ok (record { records = within range s.tree; position = 0 })

unfoldable pub next :
    InMemoryIterator → Result StorageError (Option StorageRecord) × InMemoryIterator
next it =
    if leb (length it.records) it.position
    then (ok none, it)
    else elim (get_elem? it.records it.position) [
      | none ↦ (panic, it)
      | some r ↦ (ok (some r), record it { position = it.position + 1 })
    ]

abbrev pub in_memory : Storage
in_memory = record {
  State = InMemoryStorage;
  Iter = InMemoryIterator;
  apply = apply;
  get = get;
  scan_iter = scan_iter;
  next = next;
}
