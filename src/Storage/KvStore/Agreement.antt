-- ===== src/Storage/KvStore/Agreement.antt =====
-- The backend and the index agree on the latest value of every key.
use my_etcd.Base.{
  ℕ, zero, suc, ◌≡◌, refl, ap, sym, subst, ◌∙◌, arith, Bool, Bool-cases, inl, inr, List, [], ◌∷◌,
  Option, none, some, if◌then◌else◌, Option-cases, length, ltb, Bytes, bytes_key, str_eq,
}
use my_etcd.OrdMap.{OrdMap, lookup, lookup-insert, lookup-erase}
use my_etcd.Types.{KeyValue, RaftEntry, EventType}
use my_etcd.Storage.Mvcc
use my_etcd.Storage.Mvcc.{key_value, index_of, Mvcc, empty_mvcc, allocate_revision}
use my_etcd.Storage.Mvcc.Laws.{get-put, get-delete, get-compact}
use my_etcd.Storage.Mvcc.Ranges.{
  MvccReach, no_writes, after_put, after_delete, after_compact, after_allocate, MvccReach-IsOrdered,
}
use my_etcd.Storage.Backend
use my_etcd.Storage.KeyIndex.{put_version}
use my_etcd.Storage.Backend.{Backend, batch_put}
use my_etcd.Storage.KvStore.{
  KvStore, empty_store, put, put_with_prev, delete, get, compact, restore_from_entries,
  restore_by_type, deserialize, read_u32, read_pairs, index_pairs, load_pairs, with_value,
  refresh_found,
}

abbrev pub value_of : Option KeyValue → Option Bytes
value_of none = none
value_of (some kv) = some kv.value

-- For every key, the backend holds exactly the value that the index's latest read has.
abbrev pub Agree : KvStore → Type 0
Agree s = (k : Bytes) → Backend.get k s.backend ≡ value_of (Mvcc.get k 0 s.mvcc)

abbrev pub IsWf : KvStore → Type 0
IsWf s = MvccReach s.mvcc × Agree s

put-Agree :
    (key value : Bytes) (rev lease_id : ℕ) (s : KvStore)
    → Agree s
    → Agree (record {
      mvcc = Mvcc.put key rev value lease_id s.mvcc;
      backend = Backend.put key value s.backend;
    })
unfolding Backend.put Backend.get
put-Agree key value rev lease_id s h k = elim (Bool-cases (str_eq key k)) [
  | inl same ↦
      let stored : Backend.get k (Backend.put key value s.backend) ≡ some value =
        lookup-insert key k value s.backend ∙ rw same refl in
      let read : Mvcc.get k 0 (Mvcc.put key rev value lease_id s.mvcc)
          ≡ some (key_value k (put_version rev value lease_id (index_of key s.mvcc).versions)) =
        (get-put k key 0 rev value lease_id s.mvcc).0 ∙ rw same refl in
      stored ∙ sym (ap value_of read)
  | inr differ ↦
      let read : Mvcc.get k 0 (Mvcc.put key rev value lease_id s.mvcc) ≡ Mvcc.get k 0 s.mvcc =
        (get-put k key 0 rev value lease_id s.mvcc).0 ∙ rw differ refl in
      lookup-insert key k value s.backend ∙ rw differ refl ∙ h k ∙ sym (ap value_of read)
]

delete-Agree :
    (key : Bytes) (rev : ℕ) (s : KvStore)
    → Agree s
    → Agree (record { mvcc = Mvcc.delete key rev s.mvcc; backend = Backend.delete key s.backend })
unfolding Backend.delete Backend.get
delete-Agree key rev s h k = elim (Bool-cases (str_eq key k)) [
  | inl same ↦
      let stored : Backend.get k (Backend.delete key s.backend) ≡ none =
        lookup-erase key k s.backend ∙ rw same refl in
      let read : Mvcc.get k 0 (Mvcc.delete key rev s.mvcc) ≡ none =
        get-delete k key 0 rev s.mvcc ∙ rw same refl in
      stored ∙ sym (ap value_of read)
  | inr differ ↦
      let read : Mvcc.get k 0 (Mvcc.delete key rev s.mvcc) ≡ Mvcc.get k 0 s.mvcc =
        get-delete k key 0 rev s.mvcc ∙ rw differ refl in
      lookup-erase key k s.backend ∙ rw differ refl ∙ h k ∙ sym (ap value_of read)
]

compact-Agree : (rev : ℕ) (s : KvStore) → IsWf s → Agree (compact rev s)
unfolding compact
compact-Agree rev s h k =
    h.1 k ∙ sym (ap value_of (get-compact k rev s.mvcc (MvccReach-IsOrdered s.mvcc h.0)))

allocate-Agree : (s : KvStore) → Agree s → Agree (record s { mvcc = (allocate_revision s.mvcc).0 })
unfolding allocate_revision Mvcc.get
allocate-Agree s h k = h k

put-IsWf :
    (key value : Bytes) (lease_id : ℕ) (s : KvStore) → IsWf s → IsWf (put key value lease_id s).0
unfolding put
put-IsWf key value lease_id s h = (
  after_put key s.mvcc.current_rev value lease_id (after_allocate h.0),
  put-Agree key value s.mvcc.current_rev lease_id (record s { mvcc = (allocate_revision s.mvcc).0 })
      (allocate-Agree s h.1),
)

delete-IsWf : (key : Bytes) (s : KvStore) → IsWf s → IsWf (delete key s).0
unfolding delete
delete-IsWf key s h = (
  after_delete key s.mvcc.current_rev (after_allocate h.0),
  delete-Agree key s.mvcc.current_rev (record s { mvcc = (allocate_revision s.mvcc).0 })
      (allocate-Agree s h.1),
)

restore_by_type-IsWf :
    (t : EventType) (e : RaftEntry) (s : KvStore) → IsWf s → IsWf (restore_by_type t e s)
restore_by_type-IsWf EventType.put e s h = (
  after_put e.key e.index e.value e.lease_id h.0,
  put-Agree e.key e.value e.index e.lease_id s h.1,
)
restore_by_type-IsWf EventType.delete e s h =
    (after_delete e.key e.index h.0, delete-Agree e.key e.index s h.1)
restore_by_type-IsWf EventType.conf_change e s h = h
restore_by_type-IsWf (EventType.unknown n) e s h = h

pub restore-IsWf : (es : List RaftEntry) (s : KvStore) → IsWf s → IsWf (restore_from_entries es s)
unfolding restore_from_entries
restore-IsWf [] s h = h
restore-IsWf (e ∷ es) s h =
    restore-IsWf es (restore_by_type e.type e s) (restore_by_type-IsWf e.type e s h)

load_pairs-IsWf : (kvs : OrdMap Bytes Bytes) (s : KvStore) → IsWf s → IsWf (load_pairs s kvs)
unfolding index_pairs batch_put Mvcc.put put Backend.put
load_pairs-IsWf [] s h = h
load_pairs-IsWf ((k, v) ∷ kvs) s h = load_pairs-IsWf kvs (put k v 0 s).0 (put-IsWf k v 0 s h)

-- The store of a result, or another where there is none.
abbrev store_of : KvStore → Option (KvStore × Bool) → KvStore
store_of s none = s
store_of s (some (s', ok)) = s'

store_of-deserialize :
    (bytes : Bytes) (s : KvStore) → IsWf s → IsWf (store_of s (deserialize bytes s))
unfolding deserialize
store_of-deserialize bytes s h = elim (Bool-cases (ltb (length bytes) 4)) [
  | inl short ↦ rw short h
  | inr enough ↦ elim (Option-cases (read_u32 bytes)) [
    | inl past ↦ rw (enough, past) h
    | inr ((count, rest), header) ↦ elim (Option-cases (read_pairs count [] rest)) [
      | inl past ↦ rw (enough, header, past) h
      | inr (kvs, body) ↦ rw (enough, header, body) (load_pairs-IsWf kvs s h)
    ]
  ]
]

deserialize-IsWf :
    (bytes : Bytes) (s s' : KvStore) (ok : Bool)
    → deserialize bytes s ≡ some (s', ok)
    → IsWf s
    → IsWf s'
deserialize-IsWf bytes s s' ok e h = subst IsWf (ap (store_of s) e) (store_of-deserialize bytes s h)

-- One call of a method of the store.
pub data KvStep : KvStore → KvStore → Type 0 where
  puts : (key value : Bytes) (lease_id : ℕ) (s : KvStore) → KvStep s (put key value lease_id s).0
  puts_with_prev :
      (key value : Bytes) (lease_id : ℕ) (s : KvStore)
      → KvStep s (put_with_prev key value lease_id s).0
  deletes : (key : Bytes) (s : KvStore) → KvStep s (delete key s).0
  compacts : (rev : ℕ) (s : KvStore) → KvStep s (compact rev s)
  restores : (es : List RaftEntry) (s : KvStore) → KvStep s (restore_from_entries es s)
  deserializes :
      (bytes : Bytes) (s s' : KvStore) (ok : Bool)
      → deserialize bytes s ≡ some (s', ok)
      → KvStep s s'
  allocates : (s : KvStore) → KvStep s (record s { mvcc = (allocate_revision s.mvcc).0 })

pub data KvReach : KvStore → Type 0 where
  at_start : KvReach empty_store
  then_call : {s s' : KvStore} → KvReach s → KvStep s s' → KvReach s'

KvStep-IsWf : (s s' : KvStore) → KvStep s s' → IsWf s → IsWf s'
unfolding put_with_prev compact
KvStep-IsWf s s' (puts key value lease_id _) h = put-IsWf key value lease_id s h
KvStep-IsWf s s' (puts_with_prev key value lease_id _) h = put-IsWf key value lease_id s h
KvStep-IsWf s s' (deletes key _) h = delete-IsWf key s h
KvStep-IsWf s s' (compacts rev _) h = (after_compact rev h.0, compact-Agree rev s h)
KvStep-IsWf s s' (restores es _) h = restore-IsWf es s h
KvStep-IsWf s s' (deserializes bytes _ _ ok e) h = deserialize-IsWf bytes s s' ok e h
KvStep-IsWf s s' (allocates _) h = (after_allocate h.0, allocate-Agree s h.1)

start-Agree : Agree empty_store
unfolding Backend.get Mvcc.get lookup
start-Agree k = refl

KvReach-IsWf : (s : KvStore) → KvReach s → IsWf s
KvReach-IsWf s at_start = (no_writes 1, start-Agree)
KvReach-IsWf s (then_call r t) = KvStep-IsWf _ s t (KvReach-IsWf _ r)

-- In every state that calls reach from the empty store (restoring from log entries and from a snapshot
-- included), the backend holds, for every key, exactly the value of the index's latest read: a value
-- where there is one, nothing where the key is absent or deleted.
pub KvReach-Agree : (s : KvStore) → KvReach s → Agree s
KvReach-Agree s r = (KvReach-IsWf s r).1

with_value-same : (kv : KeyValue) (v : Option Bytes) → v ≡ some kv.value → with_value v kv ≡ kv
with_value-same kv v e = ap (λ o. with_value o kv) e

refresh-same :
    (key : Bytes) (b : Backend) (found : Option KeyValue)
    → Backend.get key b ≡ value_of found
    → refresh_found key b found ≡ found
refresh-same key b none e = refl
refresh-same key b (some kv) e = ap some (with_value-same kv (Backend.get key b) e)

-- In every reachable state a read of a key is the index's read at the same revision: the value that the
-- latest read takes from the backend is always the one that the index has.
pub get-index :
    (key : Bytes) (at_rev : ℕ) (s : KvStore)
    → KvReach s
    → get key at_rev s ≡ Mvcc.get key at_rev s.mvcc
unfolding get
get-index key zero s r = refresh-same key s.backend (Mvcc.get key 0 s.mvcc) (KvReach-Agree s r key)
get-index key (suc n) s r = ground arith

-- The backend holds what a latest read sees.
pub seen : (j : Bytes) (s : KvStore) → KvReach s → value_of (get j 0 s) ≡ Backend.get j s.backend
seen j s r = ap value_of (get-index j 0 s r) ∙ sym (KvReach-Agree s r j)

backend_put :
    (j key value : Bytes) (lease_id : ℕ) (s : KvStore)
    → Backend.get j (put key value lease_id s).0.backend
      ≡ (if str_eq key j then some value else Backend.get j s.backend)
unfolding put Backend.put Backend.get
backend_put j key value lease_id s = lookup-insert key j value s.backend

backend_delete :
    (j key : Bytes) (s : KvStore)
    → Backend.get j (delete key s).0.backend
      ≡ (if str_eq key j then none else Backend.get j s.backend)
unfolding delete Backend.delete Backend.get
backend_delete j key s = lookup-erase key j s.backend

-- Seen from outside, the store is a map of keys to values: in every reachable state, a put sets the value
-- that a read of its key finds and leaves the reads of the other keys, a delete leaves nothing at its key
-- and the reads of the other keys as they were, and a compaction changes no latest read.
pub map_refinement :
    (j key value : Bytes) (lease_id rev : ℕ) (s : KvStore)
    → KvReach s
    → (value_of (get j 0 (put key value lease_id s).0)
        ≡ (if str_eq key j then some value else value_of (get j 0 s)))
      × (value_of (get j 0 (delete key s).0)
          ≡ (if str_eq key j then none else value_of (get j 0 s)))
      × (value_of (get j 0 (compact rev s)) ≡ value_of (get j 0 s))
map_refinement j key value lease_id rev s r = (
  seen j _ (then_call r (puts key value lease_id s))
      ∙ backend_put j key value lease_id s
      ∙ ap (λ o. if str_eq key j then some value else o) (sym (seen j s r)),
  seen j _ (then_call r (deletes key s))
      ∙ backend_delete j key s
      ∙ ap (λ o. if str_eq key j then none else o) (sym (seen j s r)),
  seen j _ (then_call r (compacts rev s)) ∙ (unfold compact in sym (seen j s r)),
)
