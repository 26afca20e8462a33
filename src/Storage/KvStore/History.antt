-- ===== src/Storage/KvStore/History.antt =====
-- Which values the range queries of the store return at a revision.
use my_etcd.Base.{ℕ, ◌≡◌, Option, none, some, List, [], ◌∷◌, map, All, Bytes, ap, sym, ◌∙◌, refl}
use my_etcd.Types.{KeyValue}
use my_etcd.Storage.Mvcc
use my_etcd.Storage.Backend
use my_etcd.Storage.Backend.{Backend}
use my_etcd.Storage.KvStore.{KvStore, range, prefix_range, refresh, with_value}

-- The pair has the backend's current value, where there is one.
abbrev pub IsCurrent : Backend → KeyValue → Type 0
IsCurrent b kv = (v : Bytes) → Backend.get kv.key b ≡ some v → kv.value ≡ v

with_value-key : (o : Option Bytes) (kv : KeyValue) → (with_value o kv).key ≡ kv.key
with_value-key none kv = refl
with_value-key (some v) kv = refl

refresh-IsCurrent : (b : Backend) (kv : KeyValue) → IsCurrent b (refresh b kv)
refresh-IsCurrent b kv v e =
    ap (λ o. (with_value o kv).value)
      (ap (λ k. Backend.get k b) (sym (with_value-key (Backend.get kv.key b) kv)) ∙ e)

All-IsCurrent : (b : Backend) (kvs : List KeyValue) → All (IsCurrent b) (map (refresh b) kvs)
All-IsCurrent b [] = tt
All-IsCurrent b (kv ∷ kvs) = (refresh-IsCurrent b kv, All-IsCurrent b kvs)

-- Whatever the revision of a range or prefix query is, a past one included, every pair that it returns has
-- the backend's current value of its key, where the backend has one.
pub queries-IsCurrent :
    (start end prefix : Bytes) (at_rev limit : ℕ) (s : KvStore)
    → All (IsCurrent s.backend) (range start end at_rev limit s)
      × All (IsCurrent s.backend) (prefix_range prefix at_rev limit s)
unfolding range prefix_range
queries-IsCurrent start end prefix at_rev limit s = (
  All-IsCurrent s.backend (Mvcc.range start end at_rev limit s.mvcc),
  All-IsCurrent s.backend (Mvcc.prefix_range prefix at_rev limit s.mvcc),
)
