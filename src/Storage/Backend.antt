-- ===== src/Storage/Backend.antt =====
-- src/storage/backend.h and backend.cpp: `Backend`, the current value of every key. Its lock makes each
-- method atomic. Its data file is in Backend/DataFile.
pub mod DataFile
pub mod Reload
pub mod Rounds
use my_etcd.Base.{ℕ, List, [], ◌∷◌, Option, some, Bytes, str_lt, has_prefix, bytes_key, map}
use my_etcd.OrdMap.{OrdMap, lookup, insert, erase, range_loop, lower_bound}
use my_etcd.Types.{KeyValue, default_key_value}

-- `store_`
abbrev pub Backend : Type 0
Backend = OrdMap Bytes Bytes

unfoldable pub put : Bytes → Bytes → Backend → Backend
put key value b = insert key value b

unfoldable pub get : Bytes → Backend → Option Bytes
get key b = lookup key b

unfoldable pub delete : Bytes → Backend → Backend
delete key b = erase key b

abbrev pub pair_value : Bytes → Bytes → Option KeyValue
pair_value key value = some (record default_key_value { key = key; value = value })

unfoldable pub range : Bytes → Bytes → ℕ → Backend → List KeyValue
range start end limit b = range_loop (λ k. str_lt k end) pair_value limit 0 (lower_bound start b)

unfoldable pub prefix_range : Bytes → ℕ → Backend → List KeyValue
prefix_range prefix limit b =
    range_loop (has_prefix prefix) pair_value limit 0 (lower_bound prefix b)

unfoldable pub batch_put : OrdMap Bytes Bytes → Backend → Backend
batch_put [] b = b
batch_put ((key, value) ∷ kvs) b = batch_put kvs (insert key value b)

unfoldable pub keys : Backend → List Bytes
keys b = map (λ (k, v). k) b
