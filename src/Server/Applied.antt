-- ===== src/Server/Applied.antt =====
-- The node and the server together: what one round of applying committed entries does.
use my_etcd.Base.{
  ◌≡◌, refl, ap, sym, ◌∙◌, subst, false, List, append-nil, [], ◌∷◌, ◌++◌, Option, ltb, ◌==◌,
  if◌then◌else◌, Bytes, length, nat_key, Bool-cases, inl, inr, ◌+◌, ◌^◌, ◌<◌, arith, add64,
}
use my_etcd.OrdMap.{has_key}
use my_etcd.Types.{RaftEntry, EventType, ConfChange, ConfChangeType, no_node_id}
use my_etcd.Raft.Node.{
  RaftNode, HandlerCall, call_ready, to_apply, apply_committed_entries, apply_conf_changes,
  apply_if_conf, apply_conf_change, apply_by_type, add_peer, remove_peer, drop_peer, loses_quorum,
  is_leader,
}
use my_etcd.Raft.Log.Contiguous.{IsWf}
use my_etcd.Raft.Log.Interval.{indexed_within, slice-indexed_within, none_between}
use my_etcd.Storage.KvStore.Agreement.{KvReach}
use my_etcd.Server.{
  EtcdServer, handle_calls, raft_ready_handler, on_conf_change_applied, apply_committed,
  process_raft_entries,
}
use my_etcd.Server.Machine.{values, written, process_raft_entries_lem}

-- The calls are about changes of the membership only.
abbrev AllConf : List HandlerCall → Type 0
AllConf [] = Unit
AllConf (HandlerCall.conf_changed change ∷ cs) = AllConf cs
AllConf (HandlerCall.ready es ∷ cs) = ⊥
AllConf (HandlerCall.state_changed state ∷ cs) = ⊥

AllConf-snoc :
    (cs : List HandlerCall) (change : ConfChange)
    → AllConf cs
    → AllConf (cs ++ HandlerCall.conf_changed change ∷ [])
AllConf-snoc [] change h = tt
AllConf-snoc (HandlerCall.conf_changed c ∷ cs) change h = AllConf-snoc cs change h
AllConf-snoc (HandlerCall.ready es ∷ cs) change h = absurd h
AllConf-snoc (HandlerCall.state_changed state ∷ cs) change h = absurd h

add_peer-AllConf :
    (change : ConfChange) (n : RaftNode) → AllConf n.calls → AllConf (add_peer change n).calls
unfolding add_peer
add_peer-AllConf change n h = elim (Bool-cases (has_key change.node_id n.peers)) [
  | inl there ↦ rw there h
  | inr absent ↦ elim (Bool-cases (is_leader n)) [
    | inl leader ↦ rw (absent, leader) (AllConf-snoc n.calls change h)
    | inr follower ↦ rw (absent, follower) (AllConf-snoc n.calls change h)
  ]
]

remove_peer-AllConf :
    (change : ConfChange) (n : RaftNode) → AllConf n.calls → AllConf (remove_peer change n).calls
unfolding remove_peer drop_peer
remove_peer-AllConf change n h = elim (Bool-cases (change.node_id == n.node_id)) [
  | inl own ↦ rw own h
  | inr other ↦
      elim (Bool-cases
        (if has_key change.node_id n.peers then loses_quorum (length n.peers) else false)) [
          | inl refused ↦ rw (other, refused) h
          | inr allowed ↦ rw (other, allowed) (AllConf-snoc n.calls change h)
        ]
]

apply_by_type-AllConf :
    (t : ConfChangeType) (change : ConfChange) (n : RaftNode)
    → AllConf n.calls
    → AllConf (apply_by_type t change n).calls
unfolding apply_by_type
apply_by_type-AllConf ConfChangeType.add_node change n h = add_peer-AllConf change n h
apply_by_type-AllConf ConfChangeType.remove_node change n h = remove_peer-AllConf change n h
apply_by_type-AllConf (ConfChangeType.unknown t) change n h = h

apply_conf_change-AllConf :
    (change : ConfChange) (n : RaftNode)
    → AllConf n.calls
    → AllConf (apply_conf_change change n).calls
unfolding apply_conf_change
apply_conf_change-AllConf change n h = elim (Bool-cases (change.node_id == no_node_id)) [
  | inl nobody ↦ rw nobody h
  | inr someone ↦ rw someone (apply_by_type-AllConf change.type change n h)
]

apply_if_conf-AllConf :
    (t : EventType) (change : ConfChange) (n : RaftNode)
    → AllConf n.calls
    → AllConf (apply_if_conf t change n).calls
unfolding apply_if_conf
apply_if_conf-AllConf EventType.conf_change change n h = apply_conf_change-AllConf change n h
apply_if_conf-AllConf EventType.put change n h = h
apply_if_conf-AllConf EventType.delete change n h = h
apply_if_conf-AllConf (EventType.unknown t) change n h = h

apply_conf_changes-AllConf :
    (es : List RaftEntry) (n : RaftNode) → AllConf n.calls → AllConf (apply_conf_changes es n).calls
unfolding apply_conf_changes
apply_conf_changes-AllConf [] n h = h
apply_conf_changes-AllConf (e ∷ es) n h =
    apply_conf_changes-AllConf es (apply_if_conf e.type e.conf_change n)
      (apply_if_conf-AllConf e.type e.conf_change n h)

-- The handlers of the membership leave the store.
handle_calls-AllConf :
    (cs later : List HandlerCall) (s : EtcdServer)
    → AllConf cs
    → (t : EtcdServer) × ((handle_calls (cs ++ later) s ≡ handle_calls later t)
        × (t.kvstore ≡ s.kvstore))
unfolding handle_calls on_conf_change_applied
handle_calls-AllConf [] later s h = (s, (refl, refl))
handle_calls-AllConf (HandlerCall.conf_changed change ∷ cs) later s h =
    handle_calls-AllConf cs later (on_conf_change_applied change s) h
handle_calls-AllConf (HandlerCall.ready es ∷ cs) later s h = absurd h
handle_calls-AllConf (HandlerCall.state_changed state ∷ cs) later s h = absurd h

handle_no_calls : (s : EtcdServer) → handle_calls [] s ≡ s
unfolding handle_calls
handle_no_calls s = refl

handle_ready :
    (es : List RaftEntry) (s : EtcdServer)
    → handle_calls (HandlerCall.ready es ∷ []) s ≡ raft_ready_handler es s
unfolding handle_calls
handle_ready es s = refl

raft_ready_handler-kvstore :
    (es : List RaftEntry) (s : EtcdServer)
    → (raft_ready_handler es s).kvstore ≡ (process_raft_entries es s).kvstore
unfolding raft_ready_handler
raft_ready_handler-kvstore es s = refl

written_nothing : (m : Bytes → Option Bytes) (key : Bytes) → written [] m key ≡ m key
unfolding written
written_nothing m key = refl

handle_calls-call_ready :
    (es : List RaftEntry) (n : RaftNode) (s : EtcdServer) (key : Bytes)
    → AllConf n.calls
    → KvReach s.kvstore
    → values (handle_calls (call_ready es n).calls s).kvstore key
      ≡ written es (values s.kvstore) key
handle_calls-call_ready [] n s key h r =
    let (t, handled) = handle_calls-AllConf n.calls [] s h in
    ap (λ cs. values (handle_calls cs s).kvstore key) (sym (append-nil n.calls))
    ∙ ap (λ u. values u.kvstore key) (handled.0 ∙ handle_no_calls t)
    ∙ ap (λ kv. values kv key) handled.1
    ∙ sym (written_nothing (values s.kvstore) key)
handle_calls-call_ready (e ∷ es) n s key h r =
    let (t, handled) = handle_calls-AllConf n.calls (HandlerCall.ready (e ∷ es) ∷ []) s h in
    ap (λ u. values u.kvstore key) (handled.0 ∙ handle_ready (e ∷ es) t)
    ∙ ap (λ kv. values kv key) (raft_ready_handler-kvstore (e ∷ es) t)
    ∙ (process_raft_entries_lem (e ∷ es) t (subst KvReach (sym handled.1) r)).1 key
    ∙ ap (λ kv. written (e ∷ es) (values kv) key) handled.1

-- The node, once it applied the entries and their changes of the membership.
abbrev applied : RaftNode → RaftNode
applied n =
    let m = apply_conf_changes (to_apply n) n in
    record m {
      pending_committed = m.pending_committed ++ to_apply n;
      last_applied = n.commit_index;
    }

applied-handled :
    (n : RaftNode) (s : EtcdServer) (key : Bytes)
    → AllConf n.calls
    → KvReach s.kvstore
    → values (handle_calls (call_ready (to_apply n) (applied n)).calls s).kvstore key
      ≡ written (to_apply n) (values s.kvstore) key
applied-handled n s key h r =
    handle_calls-call_ready (to_apply n) (applied n) s key
      (apply_conf_changes-AllConf (to_apply n) n h) r

to_apply-indexed_within :
    (n : RaftNode)
    → IsWf n.log
    → n.last_applied + 1 < 2 ^ 64
    → n.commit_index + 1 < 2 ^ 64
    → to_apply n ≡ indexed_within n.last_applied n.commit_index n.log.entries
to_apply-indexed_within n w applied_fits commit_fits =
    let start : add64 n.last_applied 1 ≡ n.last_applied + 1 = omega arith in
    let end : add64 n.commit_index 1 ≡ n.commit_index + 1 = omega arith in
    rw (start, end) (slice-indexed_within n.log n.last_applied n.commit_index w)

-- A round that applies committed entries does to the values that reads find exactly what the log's entries with an
-- index after the last applied one and up to the commit index say, in the order of the log, and with no such entry
-- nothing. The log is well-formed, the store is reachable, and the indices behind both bounds fit 64 bits.
pub apply_committed_lem :
    (s : EtcdServer)
    → KvReach s.kvstore
    → IsWf s.raft_node.log
    → s.raft_node.last_applied + 1 < 2 ^ 64
    → s.raft_node.commit_index + 1 < 2 ^ 64
    → (key : Bytes)
    → values (apply_committed s).kvstore key
      ≡ written
          (indexed_within s.raft_node.last_applied s.raft_node.commit_index s.raft_node.log.entries)
          (values s.kvstore)
          key
unfolding apply_committed apply_committed_entries
apply_committed_lem s r w applied_fits commit_fits key =
    elim (Bool-cases (ltb s.raft_node.last_applied s.raft_node.commit_index)) [
      | inl behind ↦
          let n = record s.raft_node { calls = [] } in
          rw behind (
            applied-handled n (record s { raft_node = call_ready (to_apply n) (applied n) }) key tt
              r
            ∙ ap (λ es. written es (values s.kvstore) key)
                (to_apply-indexed_within s.raft_node w applied_fits commit_fits))
      | inr done ↦
          rw
            (
              done,
              none_between s.raft_node.last_applied s.raft_node.commit_index s.raft_node.log.entries
                  (ground arith),
            )
            (ap (λ u. values u.kvstore key)
                (handle_no_calls (record s { raft_node = record s.raft_node { calls = [] } }))
              ∙ sym (written_nothing (values s.kvstore) key))
    ]
