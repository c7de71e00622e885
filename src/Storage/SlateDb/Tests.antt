-- ===== src/Storage/SlateDb/Tests.antt =====
-- A database in memory that does what the crate documents, and the store over it.
use concrete.Prelude.{ℕ, ◌≡◌, refl, sym, ap, ◌∙◌, inl, inr, Option, none, some, List, [], ◌∷◌, ◌++◌}
use concrete.Prelude.Result.{Result, ok, err, panic, map_ok, map_ok-eq-ok}
use concrete.Bytes.{Bytes}
use concrete.Storage.Error.{StorageError, storage_message}
use concrete.Storage.Interface.{StorageRecord, WriteResult}
use concrete.Storage.Laws.{Contents, write, write_all, Yields, finished, failed, yielded, IsStorage}
use concrete.Storage.InMemory
use concrete.Storage.InMemory.{InMemoryStorage, InMemoryIterator, in_memory}
use concrete.Storage.InMemory.Lawful.{in_memory-IsStorage}
use concrete.Storage.SlateDb.{Db, slatedb}
use concrete.Storage.SlateDb.Lawful.{
  Scans, scan_ends, scan_fails, scan_yields, IsDb, slatedb-IsStorage,
}
use mathlib.Core.Option

abbrev number : Result StorageError WriteResult → Result StorageError ℕ
number = map_ok (λ (w : WriteResult). w.seqnum)

abbrev value_of : Result StorageError (Option StorageRecord) → Result StorageError (Option Bytes)
value_of = map_ok (Option.map (λ (r : StorageRecord). r.value))

abbrev memory_db : Db
memory_db = record {
  State = InMemoryStorage;
  WriteBatch = List StorageRecord;
  DbIterator = InMemoryIterator;
  Error = StorageError;
  to_string = storage_message;
  new_batch = [];
  put = λ wb k v. wb ++ record { key = k; value = v } ∷ [];
  write = λ s wb. (number (InMemory.apply s wb).0, (InMemory.apply s wb).1);
  get = λ s k. value_of (InMemory.get s k);
  scan = InMemory.scan_iter;
  next = InMemory.next;
}

put_last :
    (wb : List StorageRecord) (r : StorageRecord) (m : Contents)
    → write_all (wb ++ r ∷ []) m ≡ write r (write_all wb m)
put_last [] r m = refl
put_last (w ∷ wb) r m = put_last wb r (write w m)

scans :
    {it : InMemoryIterator} {rs : List StorageRecord} {end : Option StorageError}
    → Yields in_memory it rs end
    → Scans memory_db it rs end
scans (finished e) = scan_ends e
scans (failed e) = scan_fails e
scans (yielded e y) = scan_yields e (scans y)

number_err : (m : Result StorageError WriteResult) (e : StorageError) → number m ≡ err e → m ≡ err e
number_err (ok w) e h = cc
number_err (err x) e h = cc
number_err panic e h = cc

stored_value :
    (k : Bytes) (v : Option Bytes)
    → Option.map
        (λ (r : StorageRecord). r.value)
        (Option.map (λ w. record { key = k; value = w }) v)
      ≡ v
stored_value k none = refl
stored_value k (some v) = refl

memory_db-IsDb : IsDb memory_db
memory_db-IsDb = record {
  IsValid = in_memory-IsStorage.IsValid;
  write-IsValid = λ s wb v. in_memory-IsStorage.apply-IsValid s wb v;
  contents = in_memory-IsStorage.contents;
  effect = write_all;
  new_effect = λ m. refl;
  put_effect = λ wb k v m. put_last wb (record { key = k; value = v }) m;
  write_ok = λ s wb n e.
      let (w, done, same) = map_ok-eq-ok _ (InMemory.apply s wb).0 e in
      λ i k. in_memory-IsStorage.apply_ok s wb w done k i;
  write_err = λ s wb e h. elim (in_memory-IsStorage.apply_err s wb e (number_err _ e h)) [
    | inl same ↦ inl (λ i k. same k i)
    | inr same ↦ inr (λ i k. same k i)
  ];
  get_ok = λ s k v e.
      let (found, done, same) = map_ok-eq-ok _ (InMemory.get s k) e in
      sym same
      ∙ ap (Option.map (λ (r : StorageRecord). r.value)) (in_memory-IsStorage.get_ok s k found done)
      ∙ stored_value k (in_memory-IsStorage.contents s k);
  scan_ok = λ s range it v e.
      let (rs, end, y, done) = in_memory-IsStorage.scan_ok s range it v e in
      (rs, end, scans y, done);
}

slatedb-IsStorage_example :
    (K : IsStorage (slatedb memory_db)) × (K.IsValid ≡ memory_db-IsDb.IsValid)
    × (K.contents ≡ memory_db-IsDb.contents)
slatedb-IsStorage_example = slatedb-IsStorage memory_db memory_db-IsDb
