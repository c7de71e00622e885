-- ===== src/Storage/Interface.antt =====
-- storage/storage.rs: the traits `Storage`, `StorageRead` and `StorageIterator`.
use concrete.Prelude.{ℕ, Option, List, []}
use concrete.Prelude.Result.{Result}
use concrete.Bytes.{Bytes}
use concrete.Storage.Error.{StorageError}
use concrete.Storage.Range.{BytesRange}

pub record StorageRecord : Type 0 where
  pub key : Bytes
  pub value : Bytes

-- `Record::empty`
pub empty_record : Bytes → StorageRecord
empty_record k = record { key = k; value = [] }

pub record WriteResult : Type 0 where
  pub seqnum : ℕ

-- `dyn Storage`: a write takes the state of the store to another; a read leaves it.
pub record Storage : Type 1 where
  pub State : Type 0
  pub Iter : Type 0
  pub apply : State → List StorageRecord → Result StorageError WriteResult × State
  pub get : State → Bytes → Result StorageError (Option StorageRecord)
  pub scan_iter : State → BytesRange → Result StorageError Iter
  pub next : Iter → Result StorageError (Option StorageRecord) × Iter
