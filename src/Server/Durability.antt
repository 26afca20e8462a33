-- ===== src/Server/Durability.antt =====
-- What the files hold after the server's handlers, and what a start takes from them.
use my_etcd.Base.{
  ℕ, ◌+◌, ◌^◌, ◌<◌, ◌≡◌, refl, ap, sym, ◌∙◌, arith, Bool, true, false, List, [], ◌∷◌, Option, none,
  some, ltb, ◌==◌, if◌then◌else◌, Bytes, bytes_key, nat_key, length, ◌>>=◌, Bool-cases, inl, inr,
  Option-cases, ◌||◌,
}
use my_etcd.OrdMap.{OrdMap, lookup, insert, lookup-insert, IsOrdered}
use my_etcd.Types.{RaftEntry, EventType, Snapshot}
use my_etcd.Raft.Log.{last_index}
use my_etcd.Raft.Node
use my_etcd.Raft.Node.{RaftNode}
use my_etcd.Storage.KvStore
use my_etcd.Storage.KvStore.{
  KvStore, PutWithPrevResult, put_with_prev, serialize, deserialize, load_pairs,
}
use my_etcd.Storage.KvStore.Encoding.{Fits, deserialize-serialize}
use my_etcd.Wal.{
  open_wal, read_files, read_all_entries, save_hard_state, load_hard_state, append_entries,
}
use my_etcd.Wal.HardState.{load_hard_state-save_hard_state}
use my_etcd.Snapshots.{SnapshotManager, create_snapshot, load_latest_snapshot}
use my_etcd.Snapshots.Laws.{UpTo, create_snapshot_lem}
use my_etcd.Server.{
  EtcdServer, process_raft_entries, process_by_type, process_put, process_delete,
  raft_ready_handler, mark_commits, ready_state, notify_put, attach_lease, recover, restored,
  load_content, apply_loaded, prev_of,
}

-- The parts of the server that processing entries leaves as they are.
record IsKept (s t : EtcdServer) : Type 0 where
  pub node : t.raft_node ≡ s.raft_node
  pub log : t.wal ≡ s.wal
  pub pending : t.pending_commits ≡ s.pending_commits

IsKept-trans : (s t u : EtcdServer) → IsKept s t → IsKept t u → IsKept s u
IsKept-trans s t u h k = record {
  node = k.node ∙ h.node;
  log = k.log ∙ h.log;
  pending = k.pending ∙ h.pending;
}

notify_put-IsKept :
    (key : Bytes) (result : PutWithPrevResult) (s : EtcdServer) → IsKept s (notify_put key result s)
notify_put-IsKept key result s = elim (Option-cases result.new_kv) [
  | inl absent ↦ rw absent (record { node = refl; log = refl; pending = refl })
  | inr (kv, found) ↦ rw found (record { node = refl; log = refl; pending = refl })
]

attach_lease-IsKept : (e : RaftEntry) (s : EtcdServer) → IsKept s (attach_lease e s)
attach_lease-IsKept e s = elim (Bool-cases (ltb 0 e.lease_id)) [
  | inl leased ↦ rw leased (record { node = refl; log = refl; pending = refl })
  | inr not_leased ↦ rw not_leased (record { node = refl; log = refl; pending = refl })
]

process_delete-IsKept : (e : RaftEntry) (s : EtcdServer) → IsKept s (process_delete e s)
unfolding process_delete
process_delete-IsKept e s =
    elim (Bool-cases (ltb 0 (prev_of e.key (KvStore.get e.key 0 s.kvstore)).lease_id)) [
      | inl leased ↦ rw leased (record { node = refl; log = refl; pending = refl })
      | inr not_leased ↦ rw not_leased (record { node = refl; log = refl; pending = refl })
    ]

process_put-IsKept : (e : RaftEntry) (s : EtcdServer) → IsKept s (process_put e s)
unfolding process_put
process_put-IsKept e s =
    let p = put_with_prev e.key e.value e.lease_id s.kvstore in
    let s' = record s { kvstore = p.0 } in
    IsKept-trans s s' (notify_put e.key p.1 (attach_lease e s'))
      (record { node = refl; log = refl; pending = refl })
      (IsKept-trans s' (attach_lease e s') (notify_put e.key p.1 (attach_lease e s'))
        (attach_lease-IsKept e s') (notify_put-IsKept e.key p.1 (attach_lease e s')))

process_by_type-IsKept :
    (t : EventType) (e : RaftEntry) (s : EtcdServer) → IsKept s (process_by_type t e s)
process_by_type-IsKept EventType.put e s = process_put-IsKept e s
process_by_type-IsKept EventType.delete e s = process_delete-IsKept e s
process_by_type-IsKept EventType.conf_change e s = record {
  node = refl;
  log = refl;
  pending = refl;
}
process_by_type-IsKept (EventType.unknown n) e s = record {
  node = refl;
  log = refl;
  pending = refl;
}

process_raft_entries-IsKept :
    (es : List RaftEntry) (s : EtcdServer) → IsKept s (process_raft_entries es s)
unfolding process_raft_entries
process_raft_entries-IsKept [] s = record { node = refl; log = refl; pending = refl }
process_raft_entries-IsKept (e ∷ es) s =
    IsKept-trans s (process_by_type e.type e s)
      (process_raft_entries es (process_by_type e.type e s)) (process_by_type-IsKept e.type e s)
      (process_raft_entries-IsKept es (process_by_type e.type e s))

-- After the handler of committed entries, the hard state that the log loads has no vote, and its commit index
-- is the last index of the node's log, committed or not. The term and the index fit 64 bits.
pub raft_ready_handler-load_hard_state :
    (es : List RaftEntry) (s : EtcdServer)
    → s.raft_node.current_term < 2 ^ 64
    → last_index s.raft_node.log < 2 ^ 64
    → load_hard_state (raft_ready_handler es s).wal
      ≡ some (record {
        current_term = s.raft_node.current_term;
        voted_for = none;
        commit_index = last_index s.raft_node.log;
      })
unfolding raft_ready_handler
raft_ready_handler-load_hard_state es s h k =
    let s' = process_raft_entries es s in
    let same = (process_raft_entries-IsKept es s).node in
    ap (λ n. load_hard_state (save_hard_state (ready_state n) (append_entries es s'.wal).0)) same
    ∙ load_hard_state-save_hard_state (ready_state s.raft_node) (append_entries es s'.wal).0 h
        (omega arith) k

abbrev pub has_index : ℕ → List RaftEntry → Bool
has_index idx [] = false
has_index idx (e ∷ es) = e.index == idx || has_index idx es

lookup-mark_commits :
    (idx : ℕ) (es : List RaftEntry) (m : OrdMap ℕ Bool)
    → lookup idx (mark_commits es m) ≡ (if has_index idx es then some true else lookup idx m)
unfolding mark_commits
lookup-mark_commits idx [] m = refl
lookup-mark_commits idx (e ∷ es) m =
    lookup-mark_commits idx es (insert e.index true m)
    ∙ ground (arith, lookup-insert e.index idx true m)

-- The handler marks the indices of the entries it was given, and no others: a request that waits for the
-- commit of one of them goes on.
pub raft_ready_handler-pending :
    (idx : ℕ) (es : List RaftEntry) (s : EtcdServer)
    → lookup idx (raft_ready_handler es s).pending_commits
      ≡ (if has_index idx es then some true else lookup idx s.pending_commits)
unfolding raft_ready_handler
raft_ready_handler-pending idx es s =
    lookup-mark_commits idx es (process_raft_entries es s).pending_commits
    ∙ ap (λ m. if has_index idx es then some true else lookup idx m)
        (process_raft_entries-IsKept es s).pending

-- A snapshot of the store that is created and then loaded puts every pair of the store, in key order, into the
-- one that reads it. The snapshot is no older than those of the directory, its index is positive, its words
-- and sizes fit their fields, and at least one file is allowed.
pub snapshot_store :
    (idx term : ℕ) (kv t : KvStore) (mgr : SnapshotManager)
    → 0 < idx
    → idx < 2 ^ 64
    → term < 2 ^ 64
    → length (serialize kv) < 2 ^ 32
    → 0 < mgr.max_snapshots
    → IsOrdered mgr.files
    → UpTo idx mgr.files
    → IsOrdered kv.backend
    → Fits kv.backend
    → length kv.backend < 2 ^ 32
    → (load_latest_snapshot (create_snapshot idx term (serialize kv) mgr).0 >>= λ snap.
        deserialize snap.content t)
      ≡ some (load_pairs t kv.backend, true)
snapshot_store idx term kv t mgr pos h k l allowed o up ord fits few =
    ap (λ o. o >>= λ (snap : Snapshot). deserialize snap.content t)
      (create_snapshot_lem idx term (serialize kv) mgr pos h k l allowed o up).1.0
    ∙ deserialize-serialize kv t ord fits few

-- The node that a start recovers.
abbrev pub recovered_node : EtcdServer → Option RaftNode
recovered_node s = recover s >>= λ s'. some s'.raft_node

abbrev with_hard_state : Option Bytes → EtcdServer → EtcdServer
with_hard_state saved s = record s { wal = record s.wal { hard_state = saved } }

-- The node of a server whose log's entries were read and replayed.
abbrev replayed_node : EtcdServer → Option RaftNode
replayed_node s =
    read_all_entries s.wal >>= λ r. some (restored r.0 r.1 s) >>= λ s'. some s'.raft_node

replayed_node-with_hard_state :
    (s : EtcdServer) (saved : Option Bytes)
    → replayed_node (with_hard_state saved s) ≡ replayed_node s
unfolding read_all_entries
replayed_node-with_hard_state s saved =
    elim (Option-cases (read_files (s.wal.wal_seq + 1) 0 s.wal.files)) [
      | inl undefined ↦ rw undefined refl
      | inr (es, read) ↦ rw read refl
    ]

load_content-with_hard_state :
    (content : Bytes) (s : EtcdServer) (saved : Option Bytes)
    → (load_content content (with_hard_state saved s) >>= replayed_node)
      ≡ (load_content content s >>= replayed_node)
load_content-with_hard_state [] s saved = replayed_node-with_hard_state s saved
load_content-with_hard_state (c ∷ content) s saved =
    elim (Option-cases (deserialize (c ∷ content) s.kvstore)) [
      | inl undefined ↦ rw undefined refl
      | inr (loaded, read) ↦
          rw read (replayed_node-with_hard_state (record s { kvstore = loaded.0 }) saved)
    ]

apply_loaded-with_hard_state :
    (o : Option Snapshot) (s : EtcdServer) (saved : Option Bytes)
    → (apply_loaded o (with_hard_state saved s) >>= replayed_node)
      ≡ (apply_loaded o s >>= replayed_node)
apply_loaded-with_hard_state none s saved = replayed_node-with_hard_state s saved
apply_loaded-with_hard_state (some snap) s saved =
    load_content-with_hard_state snap.content
      (record s { raft_node = Node.apply_snapshot snap s.raft_node }) saved

-- The start up to the reading of the log, and what is done behind it.
recovered_node-replayed_node :
    (s : EtcdServer)
    → recovered_node s ≡ (
        apply_loaded (load_latest_snapshot s.snapshot_mgr) (record s { wal = open_wal s.wal })
        >>= replayed_node)
unfolding recover
recovered_node-replayed_node s =
    elim (Option-cases
      (apply_loaded (load_latest_snapshot s.snapshot_mgr) (record s { wal = open_wal s.wal }))) [
        | inl undefined ↦ rw undefined refl
        | inr (s', found) ↦ rw found (elim (Option-cases (read_all_entries s'.wal)) [
          | inl undefined ↦ rw undefined refl
          | inr (r, read) ↦ rw read refl
        ])
      ]

-- The node that a start recovers is the same whatever hard state the files hold: the saved term, vote and
-- commit index do not come back.
pub recover-hard_state :
    (s : EtcdServer) (saved : Option Bytes)
    → recovered_node (record s { wal = record s.wal { hard_state = saved } }) ≡ recovered_node s
unfolding open_wal
recover-hard_state s saved =
    recovered_node-replayed_node (with_hard_state saved s)
    ∙ apply_loaded-with_hard_state (load_latest_snapshot s.snapshot_mgr)
        (record s { wal = open_wal s.wal }) saved
    ∙ sym (recovered_node-replayed_node s)
