-- ===== src/Storage.antt =====
-- storage/: the interface of a key-value store, what its documentation promises, and the two stores.
pub mod Error
pub mod Range
pub mod Interface
pub mod Laws
pub mod Scan
pub mod Listing
pub mod Flaky
pub mod InMemory
pub mod SlateDb
pub use Interface.{StorageRecord, WriteResult, Storage, empty_record}
pub use Error.{StorageError, DeserializeError}
