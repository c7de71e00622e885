-- ===== src/Storage/InMemory/Tests.antt =====
-- The in-memory store at a small state.
use concrete.Prelude.{◌≡◌, ◌≢◌, refl, false, none, some, [], ◌∷◌}
use concrete.Prelude.Result.{ok, panic}
use concrete.Bytes.{Bytes}
use concrete.Storage.Range.{BytesRange, included, excluded}
use concrete.Storage.Interface.{StorageRecord}
use concrete.Storage.Laws.{Yields, IsScan}
use concrete.Storage.InMemory.{
  InMemoryStorage, InMemoryIterator, in_memory, within, apply, get, scan_iter,
}
use concrete.Storage.InMemory.Lawful.{stored, get-apply, scan_iter-IsScan, scan_prefix-ne-panic}
use concrete.Key.{prefix_range}

abbrev entry : Bytes → Bytes → StorageRecord
entry k v = record { key = k; value = v }

abbrev store : InMemoryStorage
store = record {
  tree = entry (1 ∷ []) (7 ∷ []) ∷ entry (3 ∷ []) (8 ∷ []) ∷ [];
  poisoned = false;
  seqnum = 0;
}

get-apply_example :
    get (apply store (entry (2 ∷ []) (5 ∷ []) ∷ entry (1 ∷ []) (6 ∷ []) ∷ [])).1 (1 ∷ [])
    ≡ ok (some (entry (1 ∷ []) (6 ∷ [])))
get-apply_example =
    get-apply store (entry (2 ∷ []) (5 ∷ []) ∷ entry (1 ∷ []) (6 ∷ []) ∷ []) (1 ∷ []) refl

abbrev middle : BytesRange
middle = record { start = included (2 ∷ []); end = excluded (4 ∷ []) }

abbrev over_middle : InMemoryIterator
over_middle = record { records = entry (3 ∷ []) (8 ∷ []) ∷ []; position = 0 }

scanned : scan_iter store middle ≡ ok over_middle
unfolding scan_iter
scanned = refl

scan_iter-IsScan_example :
    Yields in_memory over_middle (within middle store.tree) none
    × IsScan (stored store) middle (within middle store.tree)
scan_iter-IsScan_example = scan_iter-IsScan store middle over_middle ((refl, tt), (tt, tt)) scanned

scan_prefix-ne-panic_example : scan_iter store (prefix_range (3 ∷ [])) ≢ panic
scan_prefix-ne-panic_example = scan_prefix-ne-panic store (3 ∷ [])
