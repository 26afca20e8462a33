-- ===== src/Server/Events.antt =====
-- Which events the server's handler of committed entries makes.
use my_etcd.Base.{◌≡◌, refl, ◌∙◌, Bool-cases, inl, inr, ltb, Bytes}
use my_etcd.Types.{RaftEntry, KeyValue}
use my_etcd.Storage.KvStore
use my_etcd.Watch.Delivery.{notify_without_revision}
use my_etcd.Server.{EtcdServer, process_delete, detach_lease, delete_event, prev_of}

detach_lease-watch_mgr :
    (prev : KeyValue) (key : Bytes) (s : EtcdServer)
    → (detach_lease prev key s).watch_mgr ≡ s.watch_mgr
detach_lease-watch_mgr prev key s = elim (Bool-cases (ltb 0 prev.lease_id)) [
  | inl leased ↦ rw leased refl
  | inr not_leased ↦ rw not_leased refl
]

-- A committed delete reaches no watcher of the server, whatever it watches: the watchers and their queues are
-- as they were.
pub process_delete-watch_mgr :
    (e : RaftEntry) (s : EtcdServer) → (process_delete e s).watch_mgr ≡ s.watch_mgr
unfolding process_delete
process_delete-watch_mgr e s =
    let prev = prev_of e.key (KvStore.get e.key 0 s.kvstore) in
    notify_without_revision (delete_event e.key prev) (detach_lease prev e.key s).watch_mgr refl
    ∙ detach_lease-watch_mgr prev e.key s
