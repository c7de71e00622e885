-- ===== src/Storage/Error.antt =====
-- storage/storage.rs and storage/error.rs: the errors of a store, and how they are shown.
use concrete.Prelude.{◌++◌}
use concrete.Text.{Str, text}

pub data StorageError : Type 0 where
  storage internal : Str → StorageError

-- `Display`
unfoldable pub storage_message : StorageError → Str
storage_message (storage msg) = text "Storage error: " ++ msg
storage_message (internal msg) = text "Internal error: " ++ msg

-- `StorageError::from_storage`, of an error that shows itself as `e`
pub from_storage : Str → StorageError
from_storage e = storage e

pub record DeserializeError : Type 0 where
  pub message : Str

-- `Display`
unfoldable pub deserialize_message : DeserializeError → Str
deserialize_message e = e.message
