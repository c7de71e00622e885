-- ===== src/Storage/Flaky.antt =====
-- A store for tests: the in-memory store, with writes that fail as a script says.
use concrete.Prelude.{◌≡◌, refl, inl, Bool, true, false, Option, none, List, [], ◌∷◌}
use concrete.Prelude.Result.{Result, ok, err}
use concrete.Bytes.{Bytes}
use concrete.Text.{text}
use concrete.Storage.Error.{StorageError, storage}
use concrete.Storage.Interface.{StorageRecord, WriteResult, Storage}
use concrete.Storage.Laws.{IsAscending, IsStorage, Yields, finished, failed, yielded, write_all}
use concrete.Storage.InMemory
use concrete.Storage.InMemory.{InMemoryStorage, in_memory, within}
use concrete.Storage.InMemory.Lawful.{
  scan_iter-IsScan, stored, apply-IsAscending, apply-stored, apply-unchanged, get-stored,
}

-- `true` in the script lets a write fail; behind its end no write does.
pub record Flaky : Type 0 where
  pub script : List Bool
  pub store : InMemoryStorage

run_apply :
    List Bool → InMemoryStorage → List StorageRecord → Result StorageError WriteResult × Flaky
run_apply (true ∷ script) s batch =
    (err (storage (text "unreachable")), record { script = script; store = s })
run_apply (false ∷ script) s batch =
    let (w, s') = InMemory.apply s batch in (w, record { script = script; store = s' })
run_apply [] s batch =
    let (w, s') = InMemory.apply s batch in (w, record { script = []; store = s' })

unfoldable pub apply : Flaky → List StorageRecord → Result StorageError WriteResult × Flaky
unfolding run_apply
apply f batch = run_apply f.script f.store batch

abbrev pub flaky : Storage
flaky = record {
  State = Flaky;
  Iter = InMemory.InMemoryIterator;
  apply = apply;
  get = λ f. InMemory.get f.store;
  scan_iter = λ f. InMemory.scan_iter f.store;
  next = InMemory.next;
}

run_apply-IsAscending :
    (script : List Bool) (s : InMemoryStorage) (batch : List StorageRecord)
    → IsAscending s.tree
    → IsAscending (run_apply script s batch).1.store.tree
unfolding run_apply
run_apply-IsAscending (true ∷ script) s batch h = h
run_apply-IsAscending (false ∷ script) s batch h = apply-IsAscending s batch h
run_apply-IsAscending [] s batch h = apply-IsAscending s batch h

run_apply-stored :
    (script : List Bool) (s : InMemoryStorage) (batch : List StorageRecord) (w : WriteResult)
    → (run_apply script s batch).0 ≡ ok w
    → (k : Bytes) → stored (run_apply script s batch).1.store k ≡ write_all batch (stored s) k
unfolding run_apply
run_apply-stored (true ∷ script) s batch w h k = cc
run_apply-stored (false ∷ script) s batch w h k = apply-stored s batch w h k
run_apply-stored [] s batch w h k = apply-stored s batch w h k

run_apply-unchanged :
    (script : List Bool) (s : InMemoryStorage) (batch : List StorageRecord) (e : StorageError)
    → (run_apply script s batch).0 ≡ err e
    → (k : Bytes) → stored (run_apply script s batch).1.store k ≡ stored s k
unfolding run_apply
run_apply-unchanged (true ∷ script) s batch e h k = refl
run_apply-unchanged (false ∷ script) s batch e h k = apply-unchanged s batch e h k
run_apply-unchanged [] s batch e h k = apply-unchanged s batch e h k

yields_too :
    {it : InMemory.InMemoryIterator} {rs : List StorageRecord} {end : Option StorageError}
    → Yields in_memory it rs end
    → Yields flaky it rs end
yields_too (finished e) = finished e
yields_too (failed e) = failed e
yields_too (yielded e y) = yielded e (yields_too y)

unfoldable pub flaky-IsStorage : IsStorage flaky
unfolding apply run_apply-IsAscending run_apply-stored run_apply-unchanged yields_too
flaky-IsStorage = record {
  IsValid = λ f. IsAscending f.store.tree;
  contents = λ f. stored f.store;
  apply-IsValid = λ f batch h. run_apply-IsAscending f.script f.store batch h;
  apply_ok = λ f batch w h k. run_apply-stored f.script f.store batch w h k;
  apply_err = λ f batch e h. inl (run_apply-unchanged f.script f.store batch e h);
  get_ok = λ f. get-stored f.store;
  scan_ok = λ f range it valid h.
      let (y, scan) = scan_iter-IsScan f.store range it valid h in
      (within range f.store.tree, none, yields_too y, λ _. scan);
}
