-- ===== src/Storage/SlateDb.antt =====
-- storage/slatedb.rs: the store over the `slatedb` crate. The crate's database is a parameter.
pub mod Lawful
mod Tests
use concrete.Prelude.{ℕ, Option, none, some, List, [], ◌∷◌}
use concrete.Prelude.Result.{Result, ok, err, map_ok, map_err}
use concrete.Bytes.{Bytes}
use concrete.Text.{Str}
use concrete.Storage.Error.{StorageError, from_storage}
use concrete.Storage.Range.{BytesRange}
use concrete.Storage.Interface.{StorageRecord, WriteResult, Storage}
use mathlib.Core.Option

-- `slatedb::Db`, `WriteBatch`, `DbIterator` and `Error`. A `KeyValue` has the fields of a record.
pub record Db : Type 1 where
  pub State : Type 0
  pub WriteBatch : Type 0
  pub DbIterator : Type 0
  pub Error : Type 0
  pub to_string : Error → Str
  pub new_batch : WriteBatch
  pub put : WriteBatch → Bytes → Bytes → WriteBatch
  pub write : State → WriteBatch → Result Error ℕ × State
  pub get : State → Bytes → Result Error (Option Bytes)
  pub scan : State → BytesRange → Result Error DbIterator
  pub next : DbIterator → Result Error (Option StorageRecord) × DbIterator

module _ (D : Db) where
  abbrev pub storage_error : D.Error → StorageError
  storage_error e = from_storage (D.to_string e)

  -- the `for` over the batch
  unfoldable pub put_all : D.WriteBatch → List StorageRecord → D.WriteBatch
  put_all wb [] = wb
  put_all wb (r ∷ batch) = put_all (D.put wb r.key r.value) batch

  unfoldable pub apply : D.State → List StorageRecord → Result StorageError WriteResult × D.State
  apply db batch =
      let (written, db') = D.write db (put_all D.new_batch batch) in
      (map_ok (λ n. record { seqnum = n }) (map_err storage_error written), db')

  unfoldable pub get : D.State → Bytes → Result StorageError (Option StorageRecord)
  get db k =
      map_ok (Option.map (λ v. record { key = k; value = v })) (map_err storage_error (D.get db k))

  unfoldable pub scan_iter : D.State → BytesRange → Result StorageError D.DbIterator
  scan_iter db range = map_err storage_error (D.scan db range)

  unfoldable pub next : D.DbIterator → Result StorageError (Option StorageRecord) × D.DbIterator
  next it = let (found, it') = D.next it in (map_err storage_error found, it')

  abbrev pub slatedb : Storage
  slatedb = record {
    State = D.State;
    Iter = D.DbIterator;
    apply = apply;
    get = get;
    scan_iter = scan_iter;
    next = next;
  }
