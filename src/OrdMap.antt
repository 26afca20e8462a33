-- ===== src/OrdMap.antt =====
-- `std::map` as the list of its pairs in key order, as the storage, raft, lease and watch code
-- uses it.
mod Laws
mod Walks
unfoldable pub use Laws.*
unfoldable pub use Walks.*
