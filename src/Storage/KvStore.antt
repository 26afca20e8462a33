-- ===== src/Storage/KvStore.antt =====
-- src/storage/kvstore.h and kvstore.cpp: `KVStore`, the index and the backend under one lock, which makes
-- each method atomic. `open` and `close` only pass to the data file, in `recover` and `stop` of Server.
pub mod Agreement
pub mod Encoding
pub mod History
use my_etcd.Base.{
  ℕ, zero, suc, ◌+◌, ◌*◌, ◌/◌, ◌%◌, ◌^◌, Bool, true, false, List, [], ◌∷◌, ◌++◌, Option, none, some,
  ltb, ◌==◌, if◌then◌else◌, length, take, drop, map, Bytes, bytes_key, get_or_else, ◌>>=◌,
}
use my_etcd.OrdMap.{OrdMap, insert}
use my_etcd.Types.{KeyValue, RaftEntry, EventType}
use my_etcd.Storage.Mvcc
use my_etcd.Storage.Mvcc.{Mvcc, empty_mvcc, allocate_revision}
use my_etcd.Storage.Backend
use my_etcd.Storage.Backend.{Backend, batch_put}

pub record KvStore : Type 0 where
  pub mvcc : Mvcc
  pub backend : Backend

abbrev pub empty_store : KvStore
empty_store = record { mvcc = empty_mvcc; backend = [] }

pub record PutWithPrevResult : Type 0 where
  pub rev : ℕ
  pub prev_kv : Option KeyValue
  pub new_kv : Option KeyValue

unfoldable pub put : Bytes → Bytes → ℕ → KvStore → KvStore × ℕ
unfolding allocate_revision
put key value lease_id s =
    let (m, rev) = allocate_revision s.mvcc in
    (
      record {
        mvcc = Mvcc.put key rev value lease_id m;
        backend = Backend.put key value s.backend;
      },
      rev,
    )

-- The value of a found pair is replaced by that of the backend, where it has one.
abbrev pub with_value : Option Bytes → KeyValue → KeyValue
with_value none kv = kv
with_value (some v) kv = record kv { value = v }

abbrev pub refresh : Backend → KeyValue → KeyValue
refresh b kv = with_value (Backend.get kv.key b) kv

abbrev pub refresh_found : Bytes → Backend → Option KeyValue → Option KeyValue
refresh_found key b none = none
refresh_found key b (some kv) = some (with_value (Backend.get key b) kv)

abbrev pub set_value : Bytes → Option KeyValue → Option KeyValue
set_value value none = none
set_value value (some kv) = some (record kv { value = value })

unfoldable pub put_with_prev : Bytes → Bytes → ℕ → KvStore → KvStore × PutWithPrevResult
unfolding put
put_with_prev key value lease_id s =
    let prev = refresh_found key s.backend (Mvcc.get key 0 s.mvcc) in
    let (s', rev) = put key value lease_id s in
    (s', record { rev = rev; prev_kv = prev; new_kv = set_value value (Mvcc.get key 0 s'.mvcc) })

unfoldable pub delete : Bytes → KvStore → KvStore × ℕ
unfolding allocate_revision
delete key s =
    let (m, rev) = allocate_revision s.mvcc in
    (record { mvcc = Mvcc.delete key rev m; backend = Backend.delete key s.backend }, rev)

unfoldable pub get : Bytes → ℕ → KvStore → Option KeyValue
get key at_rev s =
    if at_rev == 0
    then refresh_found key s.backend (Mvcc.get key 0 s.mvcc)
    else Mvcc.get key at_rev s.mvcc

unfoldable pub range : Bytes → Bytes → ℕ → ℕ → KvStore → List KeyValue
range start end at_rev limit s = map (refresh s.backend) (Mvcc.range start end at_rev limit s.mvcc)

unfoldable pub prefix_range : Bytes → ℕ → ℕ → KvStore → List KeyValue
prefix_range prefix at_rev limit s =
    map (refresh s.backend) (Mvcc.prefix_range prefix at_rev limit s.mvcc)

unfoldable pub keys : KvStore → List Bytes
keys s = Mvcc.keys s.mvcc

unfoldable pub compact : ℕ → KvStore → KvStore
compact rev s = record s { mvcc = Mvcc.compact rev s.mvcc }

abbrev pub restore_by_type : EventType → RaftEntry → KvStore → KvStore
restore_by_type EventType.put e s = record {
  mvcc = Mvcc.put e.key e.index e.value e.lease_id s.mvcc;
  backend = Backend.put e.key e.value s.backend;
}
restore_by_type EventType.delete e s = record {
  mvcc = Mvcc.delete e.key e.index s.mvcc;
  backend = Backend.delete e.key s.backend;
}
restore_by_type EventType.conf_change e s = s
restore_by_type (EventType.unknown n) e s = s

unfoldable pub restore_from_entries : List RaftEntry → KvStore → KvStore
restore_from_entries [] s = s
restore_from_entries (e ∷ es) s = restore_from_entries es (restore_by_type e.type e s)

-- The four low bytes, least significant first.
unfoldable pub write_u32 : ℕ → Bytes
write_u32 v = v % 256 ∷ (v / 256) % 256 ∷ (v / 65536) % 256 ∷ (v / 16777216) % 256 ∷ []

-- The length as `static_cast<uint32_t>`, then the bytes.
unfoldable pub write_str : Bytes → Bytes
unfolding write_u32
write_str s = write_u32 (length s % 2 ^ 32) ++ s

unfoldable pub write_pairs : Backend → List Bytes → Bytes
unfolding write_str
write_pairs b [] = []
write_pairs b (k ∷ ks) =
    write_str k ++ (write_str (get_or_else (Backend.get k b) []) ++ write_pairs b ks)

unfoldable pub serialize : KvStore → Bytes
unfolding write_pairs write_u32
serialize s =
    let ks = Backend.keys s.backend in write_u32 (length ks % 2 ^ 32) ++ write_pairs s.backend ks

-- The reader's state is the bytes from `offset` on. `none` is a read past the end of the vector, which has
-- no defined behaviour.
unfoldable pub read_u32 : Bytes → Option (ℕ × Bytes)
read_u32 (a ∷ b ∷ c ∷ d ∷ rest) = some (a + b * 256 + c * 65536 + d * 16777216, rest)
read_u32 (a ∷ b ∷ c ∷ []) = none
read_u32 (a ∷ b ∷ []) = none
read_u32 (a ∷ []) = none
read_u32 [] = none

-- Where the length goes past the end, the result is empty and nothing more is consumed.
abbrev pub read_body : ℕ × Bytes → Bytes × Bytes
read_body (len, rest) = if ltb (length rest) len then ([], rest) else (take len rest, drop len rest)

unfoldable pub read_str : Bytes → Option (Bytes × Bytes)
unfolding read_u32
read_str bytes = do header ← read_u32 bytes; some (read_body header)

unfoldable pub read_pairs : ℕ → OrdMap Bytes Bytes → Bytes → Option (OrdMap Bytes Bytes)
unfolding read_str
read_pairs zero kvs bytes = some kvs
read_pairs (suc n) kvs [] = some kvs
read_pairs (suc n) kvs (x ∷ bytes) = do
  (key, rest) ← read_str (x ∷ bytes)
  (value, rest') ← read_str rest
  read_pairs n (insert key value kvs) rest'

unfoldable pub index_pairs : OrdMap Bytes Bytes → Mvcc → Mvcc
unfolding allocate_revision
index_pairs [] m = m
index_pairs ((key, value) ∷ kvs) m =
    let (m', rev) = allocate_revision m in index_pairs kvs (Mvcc.put key rev value 0 m')

abbrev pub load_pairs : KvStore → OrdMap Bytes Bytes → KvStore
load_pairs s kvs = record { mvcc = index_pairs kvs s.mvcc; backend = batch_put kvs s.backend }

-- The result is `none` where the code reads past the end of its input.
unfoldable pub deserialize : Bytes → KvStore → Option (KvStore × Bool)
unfolding read_u32 read_pairs
deserialize bytes s = if ltb (length bytes) 4 then some (s, false) else do
  (count, rest) ← read_u32 bytes
  kvs ← read_pairs count [] rest
  some (load_pairs s kvs, true)

unfoldable pub current_revision : KvStore → ℕ
current_revision s = s.mvcc.current_rev
