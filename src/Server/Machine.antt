-- ===== src/Server/Machine.antt =====
-- The server as a replicated state machine: what committed entries do to the values that clients read, when they
-- are processed and when they are replayed at a start.
use my_etcd.Base.{
  ℕ, ◌≡◌, refl, ap, sym, ◌∙◌, subst, List, [], ◌∷◌, Option, none, some, ltb, if◌then◌else◌, Bytes,
  bytes_key, str_eq, Bool-cases, inl, inr, Option-cases,
}
use my_etcd.OrdMap.{lookup-insert, lookup-erase}
use my_etcd.Types.{RaftEntry, EventType, KeyValue}
use my_etcd.Storage.Backend
use my_etcd.Storage.KvStore
use my_etcd.Storage.KvStore.{
  KvStore, PutWithPrevResult, put_with_prev, restore_from_entries, restore_by_type,
}
use my_etcd.Storage.KvStore.Agreement.{
  KvReach, value_of, map_refinement, seen, then_call, puts, deletes, restores,
}
use my_etcd.Server.{
  EtcdServer, process_put, process_delete, process_by_type, process_raft_entries, notify_put,
  attach_lease, detach_lease, prev_of,
}

-- The map of keys to values that a client sees.
abbrev pub values : KvStore → Bytes → Option Bytes
values s key = value_of (KvStore.get key 0 s)

-- What an entry does to such a map.
abbrev pub write : EventType → RaftEntry → (Bytes → Option Bytes) → Bytes → Option Bytes
write EventType.put e m key = if str_eq e.key key then some e.value else m key
write EventType.delete e m key = if str_eq e.key key then none else m key
write EventType.conf_change e m key = m key
write (EventType.unknown n) e m key = m key

unfoldable pub written : List RaftEntry → (Bytes → Option Bytes) → Bytes → Option Bytes
written [] m = m
written (e ∷ es) m = written es (write e.type e m)

write-same :
    (t : EventType) (e : RaftEntry) (m m' : Bytes → Option Bytes)
    → ((key : Bytes) → m key ≡ m' key)
    → (key : Bytes) → write t e m key ≡ write t e m' key
write-same EventType.put e m m' h key =
    ap (λ o. if str_eq e.key key then some e.value else o) (h key)
write-same EventType.delete e m m' h key = ap (λ o. if str_eq e.key key then none else o) (h key)
write-same EventType.conf_change e m m' h key = h key
write-same (EventType.unknown n) e m m' h key = h key

pub written-same :
    (es : List RaftEntry) (m m' : Bytes → Option Bytes)
    → ((key : Bytes) → m key ≡ m' key)
    → (key : Bytes) → written es m key ≡ written es m' key
unfolding written
written-same [] m m' h key = h key
written-same (e ∷ es) m m' h key =
    written-same es (write e.type e m) (write e.type e m') (write-same e.type e m m' h) key

notify_put-kvstore :
    (key : Bytes) (result : PutWithPrevResult) (s : EtcdServer)
    → (notify_put key result s).kvstore ≡ s.kvstore
notify_put-kvstore key result s = elim (Option-cases result.new_kv) [
  | inl absent ↦ rw absent refl
  | inr (kv, found) ↦ rw found refl
]

attach_lease-kvstore : (e : RaftEntry) (s : EtcdServer) → (attach_lease e s).kvstore ≡ s.kvstore
attach_lease-kvstore e s = elim (Bool-cases (ltb 0 e.lease_id)) [
  | inl leased ↦ rw leased refl
  | inr not_leased ↦ rw not_leased refl
]

detach_lease-kvstore :
    (prev : KeyValue) (key : Bytes) (s : EtcdServer) → (detach_lease prev key s).kvstore ≡ s.kvstore
detach_lease-kvstore prev key s = elim (Bool-cases (ltb 0 prev.lease_id)) [
  | inl leased ↦ rw leased refl
  | inr not_leased ↦ rw not_leased refl
]

-- The store that one entry leaves.
abbrev stored : EventType → RaftEntry → KvStore → KvStore
stored EventType.put e kv = (KvStore.put e.key e.value e.lease_id kv).0
stored EventType.delete e kv = (KvStore.delete e.key kv).0
stored EventType.conf_change e kv = kv
stored (EventType.unknown n) e kv = kv

put_with_prev-put :
    (key value : Bytes) (lease_id : ℕ) (kv : KvStore)
    → (put_with_prev key value lease_id kv).0 ≡ (KvStore.put key value lease_id kv).0
unfolding put_with_prev
put_with_prev-put key value lease_id kv = refl

process_by_type-kvstore :
    (t : EventType) (e : RaftEntry) (s : EtcdServer)
    → (process_by_type t e s).kvstore ≡ stored t e s.kvstore
unfolding process_put process_delete
process_by_type-kvstore EventType.put e s =
    let p = put_with_prev e.key e.value e.lease_id s.kvstore in
    let s' = record s { kvstore = p.0 } in
    notify_put-kvstore e.key p.1 (attach_lease e s')
    ∙ attach_lease-kvstore e s'
    ∙ put_with_prev-put e.key e.value e.lease_id s.kvstore
process_by_type-kvstore EventType.delete e s =
    ap (λ kv. (KvStore.delete e.key kv).0)
      (detach_lease-kvstore (prev_of e.key (KvStore.get e.key 0 s.kvstore)) e.key s)
process_by_type-kvstore EventType.conf_change e s = refl
process_by_type-kvstore (EventType.unknown n) e s = refl

stored-KvReach :
    (t : EventType) (e : RaftEntry) (kv : KvStore) → KvReach kv → KvReach (stored t e kv)
stored-KvReach EventType.put e kv r = then_call r (puts e.key e.value e.lease_id kv)
stored-KvReach EventType.delete e kv r = then_call r (deletes e.key kv)
stored-KvReach EventType.conf_change e kv r = r
stored-KvReach (EventType.unknown n) e kv r = r

stored-write :
    (t : EventType) (e : RaftEntry) (kv : KvStore)
    → KvReach kv
    → (key : Bytes) → values (stored t e kv) key ≡ write t e (values kv) key
stored-write EventType.put e kv r key = (map_refinement key e.key e.value e.lease_id 0 kv r).0
stored-write EventType.delete e kv r key = (map_refinement key e.key e.value 0 0 kv r).1
stored-write EventType.conf_change e kv r key = refl
stored-write (EventType.unknown n) e kv r key = refl

-- Processing committed entries does to the values that reads find exactly what the entries say, in order: a
-- put sets the value of its key, a delete leaves none, and nothing else is changed, whatever the leases and
-- the watchers are. The store is reachable before, and is so after.
pub process_raft_entries_lem :
    (es : List RaftEntry) (s : EtcdServer)
    → KvReach s.kvstore
    → KvReach (process_raft_entries es s).kvstore
      × ((key : Bytes)
          → values (process_raft_entries es s).kvstore key ≡ written es (values s.kvstore) key)
unfolding process_raft_entries written
process_raft_entries_lem [] s r = (r, λ key. refl)
process_raft_entries_lem (e ∷ es) s r =
    let same = process_by_type-kvstore e.type e s in
    let r' = subst KvReach (sym same) (stored-KvReach e.type e s.kvstore r) in
    let later = process_raft_entries_lem es (process_by_type e.type e s) r' in
    (
      later.0,
      λ key.
          later.1 key
          ∙ written-same es (values (process_by_type e.type e s).kvstore)
              (write e.type e (values s.kvstore))
              (λ k. ap (λ kv. values kv k) same ∙ stored-write e.type e s.kvstore r k) key,
    )

restored_backend :
    (t : EventType) (e : RaftEntry) (kv : KvStore) (key : Bytes)
    → Backend.get key (restore_by_type t e kv).backend
      ≡ write t e (λ k. Backend.get k kv.backend) key
unfolding Backend.put Backend.get Backend.delete
restored_backend EventType.put e kv key = lookup-insert e.key key e.value kv.backend
restored_backend EventType.delete e kv key = lookup-erase e.key key kv.backend
restored_backend EventType.conf_change e kv key = refl
restored_backend (EventType.unknown n) e kv key = refl

replayed_backend :
    (es : List RaftEntry) (kv : KvStore) (key : Bytes)
    → Backend.get key (restore_from_entries es kv).backend
      ≡ written es (λ k. Backend.get k kv.backend) key
unfolding restore_from_entries written
replayed_backend [] kv key = refl
replayed_backend (e ∷ es) kv key =
    replayed_backend es (restore_by_type e.type e kv) key
    ∙ written-same es (λ k. Backend.get k (restore_by_type e.type e kv).backend)
        (write e.type e (λ k. Backend.get k kv.backend)) (restored_backend e.type e kv) key

-- A server that replays entries at a start finds the same value at every key as one that processed them while
-- it ran, if both stores are reachable and had the same values before.
pub replay-process :
    (es : List RaftEntry) (kv : KvStore) (s : EtcdServer)
    → KvReach kv
    → KvReach s.kvstore
    → ((key : Bytes) → values kv key ≡ values s.kvstore key)
    → (key : Bytes)
    → values (restore_from_entries es kv) key ≡ values (process_raft_entries es s).kvstore key
replay-process es kv s r q h key =
    seen key _ (then_call r (restores es kv))
    ∙ replayed_backend es kv key
    ∙ written-same es (λ k. Backend.get k kv.backend) (values s.kvstore)
        (λ k. sym (seen k kv r) ∙ h k) key
    ∙ sym ((process_raft_entries_lem es s q).1 key)
