-- ===== src/Server.antt =====
-- src/server/etcd_server.h and etcd_server.cpp: `EtcdServer`, which composes the node, the store, the leases,
-- the watchers and the files. Its lock makes each handler atomic. Writes of files succeed. The state of a
-- file of the store stands in `data_file`, none before it is first written.
pub mod Json
pub mod Requests
pub mod Txn
pub mod Answers
pub mod Events
pub mod Members
pub mod Sections
pub mod Numbers
pub mod Machine
pub mod Applied
pub mod Durability
pub mod Runs
pub mod Invariant
pub mod Rounds
pub mod Recovery
use my_etcd.Base.{
  ℕ, zero, suc, ◌+◌, Bool, true, false, List, [], ◌∷◌, Option, none, some, ltb, ◌==◌, if◌then◌else◌,
  length, Bytes, ◌>>=◌, nat_key, get_or_else,
}
use my_etcd.OrdMap.{OrdMap, insert}
use my_etcd.Types.{
  RaftEntry, RaftHardState, EventType, KeyValue, WatchEvent, ConfChange, ConfChangeType, Snapshot,
  default_entry, default_key_value,
}
use my_etcd.Raft.Log.{last_index}
use my_etcd.Raft.Node
use my_etcd.Raft.Node.{RaftNode, HandlerCall, is_leader, propose, apply_committed_entries}
use my_etcd.Storage.KvStore
use my_etcd.Storage.KvStore.{
  KvStore, PutWithPrevResult, put_with_prev, serialize, deserialize, restore_from_entries,
}
use my_etcd.Storage.Backend.DataFile.{load_from_disk, flush_to_disk}
use my_etcd.Lease
use my_etcd.Lease.{LeaseManager, attach, detach, check_expiry}
use my_etcd.Watch
use my_etcd.Watch.{WatchManager, notify}
use my_etcd.Transport.Client.{set_peer_address}
use my_etcd.Wal.{
  Wal, open_wal, close, append_entries, save_hard_state, read_all_entries, truncate_from,
}
use my_etcd.Snapshots.{SnapshotManager, create_snapshot, load_latest_snapshot, should_snapshot}

-- `transport` holds the peer addresses where there is a transport, and `pending_commits` the indices that
-- were applied.
pub record EtcdServer : Type 0 where
  pub raft_node : RaftNode
  pub kvstore : KvStore
  pub data_file : Option Bytes
  pub lease_mgr : LeaseManager
  pub watch_mgr : WatchManager
  pub wal : Wal
  pub snapshot_mgr : SnapshotManager
  pub snapshot_index : ℕ
  pub transport : Option (OrdMap ℕ Bytes)
  pub pending_commits : OrdMap ℕ Bool

abbrev pub attach_lease : RaftEntry → EtcdServer → EtcdServer
attach_lease e s =
    if ltb 0 e.lease_id then record s { lease_mgr = (attach e.lease_id e.key s.lease_mgr).0 } else s

-- The old pair of an event, or one that has only the key.
abbrev pub prev_of : Bytes → Option KeyValue → KeyValue
prev_of key none = record default_key_value { key = key }
prev_of key (some kv) = kv

abbrev pub notify_put : Bytes → PutWithPrevResult → EtcdServer → EtcdServer
notify_put key result s = elim result.new_kv [
  | none ↦ s
  | some kv ↦ record s {
    watch_mgr =
        notify (record { type = EventType.put; kv = kv; prev_kv = prev_of key result.prev_kv })
          s.watch_mgr;
  }
]

unfoldable pub process_put : RaftEntry → EtcdServer → EtcdServer
process_put e s =
    let (kv, result) = put_with_prev e.key e.value e.lease_id s.kvstore in
    notify_put e.key result (attach_lease e (record s { kvstore = kv }))

abbrev pub detach_lease : KeyValue → Bytes → EtcdServer → EtcdServer
detach_lease prev key s =
    if ltb 0 prev.lease_id
    then record s { lease_mgr = (detach prev.lease_id key s.lease_mgr).0 }
    else s

abbrev pub delete_event : Bytes → KeyValue → WatchEvent
delete_event key prev = record {
  type = EventType.delete;
  kv = record default_key_value { key = key };
  prev_kv = prev;
}

unfoldable pub process_delete : RaftEntry → EtcdServer → EtcdServer
process_delete e s =
    let prev = prev_of e.key (KvStore.get e.key 0 s.kvstore) in
    let s' = detach_lease prev e.key s in
    record s' {
      kvstore = (KvStore.delete e.key s'.kvstore).0;
      watch_mgr = notify (delete_event e.key prev) s'.watch_mgr;
    }

abbrev pub process_by_type : EventType → RaftEntry → EtcdServer → EtcdServer
process_by_type EventType.put e s = process_put e s
process_by_type EventType.delete e s = process_delete e s
process_by_type EventType.conf_change e s = s
process_by_type (EventType.unknown n) e s = s

unfoldable pub process_raft_entries : List RaftEntry → EtcdServer → EtcdServer
unfolding process_put process_delete
process_raft_entries [] s = s
process_raft_entries (e ∷ es) s = process_raft_entries es (process_by_type e.type e s)

-- `for (entry : entries) pending_commits_[entry.index] = true`
unfoldable pub mark_commits : List RaftEntry → OrdMap ℕ Bool → OrdMap ℕ Bool
mark_commits [] m = m
mark_commits (e ∷ es) m = mark_commits es (insert e.index true m)

-- The hard state of the handler: no vote is set in it.
abbrev pub ready_state : RaftNode → RaftHardState
ready_state n = record {
  current_term = n.current_term;
  voted_for = none;
  commit_index = last_index n.log;
}

unfoldable pub raft_ready_handler : List RaftEntry → EtcdServer → EtcdServer
unfolding process_raft_entries mark_commits
raft_ready_handler es s =
    let s' = process_raft_entries es s in
    record s' {
      wal = save_hard_state (ready_state s'.raft_node) (append_entries es s'.wal).0;
      pending_commits = mark_commits es s'.pending_commits;
    }

abbrev pub change_address :
    ConfChangeType → ConfChange → Option (OrdMap ℕ Bytes) → Option (OrdMap ℕ Bytes)
change_address ConfChangeType.add_node cc none = none
change_address ConfChangeType.add_node cc (some peers) =
    some (set_peer_address cc.node_id cc.peer_addr peers)
change_address ConfChangeType.remove_node cc peers = peers
change_address (ConfChangeType.unknown n) cc peers = peers

unfoldable pub on_conf_change_applied : ConfChange → EtcdServer → EtcdServer
on_conf_change_applied cc s = record s { transport = change_address cc.type cc s.transport }

-- A handler that the node calls; the server sets none for a change of state.
abbrev pub handle_call : HandlerCall → EtcdServer → EtcdServer
handle_call (HandlerCall.state_changed state) s = s
handle_call (HandlerCall.ready es) s = raft_ready_handler es s
handle_call (HandlerCall.conf_changed cc) s = on_conf_change_applied cc s

unfoldable pub handle_calls : List HandlerCall → EtcdServer → EtcdServer
unfolding raft_ready_handler on_conf_change_applied
handle_calls [] s = s
handle_calls (c ∷ cs) s = handle_calls cs (handle_call c s)

-- The node applies what is committed, and the server's handlers run. The trace starts empty.
unfoldable pub apply_committed : EtcdServer → EtcdServer
unfolding handle_calls
apply_committed s =
    let n = apply_committed_entries (record s.raft_node { calls = [] }) in
    handle_calls n.calls (record s { raft_node = n })

abbrev pub threshold : ℕ
threshold = 10000

-- The body of the loop of `SnapshotLoop`.
unfoldable pub snapshot_round : EtcdServer → Option EtcdServer
snapshot_round s =
    let last_applied = last_index s.raft_node.log in
    let snaps =
      (create_snapshot last_applied s.raft_node.current_term (serialize s.kvstore)
        s.snapshot_mgr).0 in
    if should_snapshot last_applied s.snapshot_index threshold
    then (truncate_from last_applied s.wal >>= λ w.
        some (record s { wal = w; snapshot_mgr = snaps; snapshot_index = last_applied }))
    else some s

-- `OnLeaseExpired`, the callback of the leases.
unfoldable pub on_lease_expired : Bytes → EtcdServer → EtcdServer
on_lease_expired key s =
    if is_leader s.raft_node
    then record s {
      raft_node =
          (propose (record default_entry { type = EventType.delete; key = key }) s.raft_node).0;
    }
    else s

unfoldable pub expire_keys : List Bytes → EtcdServer → EtcdServer
unfolding on_lease_expired
expire_keys [] s = s
expire_keys (key ∷ keys) s = expire_keys keys (on_lease_expired key s)

-- A round of the leases' thread, with the callbacks it makes.
unfoldable pub check_leases : ℕ → EtcdServer → EtcdServer
unfolding expire_keys
check_leases now s =
    let m = check_expiry now (record s.lease_mgr { notified = [] }) in
    expire_keys m.notified (record s { lease_mgr = m })

-- The store reads a snapshot's content, where there is any.
abbrev pub load_content : Bytes → EtcdServer → Option EtcdServer
load_content [] s = some s
load_content (c ∷ content) s =
    deserialize (c ∷ content) s.kvstore >>= λ r. some (record s { kvstore = r.0 })

abbrev pub apply_loaded : Option Snapshot → EtcdServer → Option EtcdServer
apply_loaded none s = some s
apply_loaded (some snap) s =
    load_content snap.content (record s { raft_node = Node.apply_snapshot snap s.raft_node })

abbrev pub restored : Wal → List RaftEntry → EtcdServer → EtcdServer
restored w es s =
    let kv = restore_from_entries es s.kvstore in
    record s { wal = w; kvstore = record kv { backend = load_from_disk s.data_file kv.backend } }

-- Steps 1 to 5 of `Start`: what the files give back. The loaded hard state is only printed. `none` where a
-- file makes the code read past the end of a buffer.
unfoldable pub recover : EtcdServer → Option EtcdServer
recover s = do
  s' ← apply_loaded (load_latest_snapshot s.snapshot_mgr) (record s { wal = open_wal s.wal })
  (w, es) ← read_all_entries s'.wal
  some (restored w es s')

-- What `Stop` writes: the log is closed, and the store, which `Start` opened, writes its file.
unfoldable pub stop : EtcdServer → EtcdServer
stop s = record s { wal = close s.wal; data_file = some (flush_to_disk s.kvstore.backend) }
