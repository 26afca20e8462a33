-- ===== src/Storage.antt =====
-- src/storage: the versions of a key, the index of all keys, the data file, and the store over them.
pub mod KeyIndex
pub mod Mvcc
pub mod Backend
pub mod KvStore
