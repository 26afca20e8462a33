-- ===== src/Server/Rounds.antt =====
-- What the entries that are applied, the leases' thread and the snapshots' thread of src/server/etcd_server.cpp keep.
use my_etcd.Base.{
  ℕ, ◌≡◌, refl, subst, arith, Bool-cases, inl, inr, List, [], ◌∷◌, Option, Option-cases, none, some,
  ltb, nat_key, Bytes, ◌>>=◌,
}
use mathlib.Core.Option.{some-injective}
use my_etcd.Types.{RaftEntry, EventType, KeyValue}
use my_etcd.Raft.Log.{last_index}
use my_etcd.Raft.Node.{RaftNode, HandlerCall, is_leader, apply_committed_entries}
use my_etcd.Raft.Steps
use my_etcd.Raft.Steps.{NodeStep, NodeReach, Advances, Advances-trans}
use my_etcd.Raft.Safety.{step-Advances}
use my_etcd.Storage.KvStore
use my_etcd.Storage.KvStore.{KvStore, PutWithPrevResult, put_with_prev}
use my_etcd.Lease.{check_expiry}
use my_etcd.Lease.Laws.{attaches, detaches, checks}
use my_etcd.Watch.Registry.{notifies}
use my_etcd.Wal.{Wal, truncate_from}
use my_etcd.Snapshots.{should_snapshot}
use my_etcd.Server.{
  EtcdServer, notify_put, attach_lease, detach_lease, delete_event, prev_of, process_put,
  process_delete, process_by_type, process_raft_entries, raft_ready_handler, on_conf_change_applied,
  handle_call, handle_calls, apply_committed, snapshot_round, threshold, on_lease_expired,
  expire_keys, check_leases,
}
use my_etcd.Server.Machine.{process_raft_entries_lem}
use my_etcd.Server.Invariant.{IsTidy, IsSound, node-IsTidy, lease-IsTidy, watch-IsTidy, same-IsTidy}

module _ (n : RaftNode) where
  -- The entries that are applied.
  attach-IsTidy : (e : RaftEntry) (s : EtcdServer) → IsTidy n s → IsTidy n (attach_lease e s)
  attach-IsTidy e s h = elim (Bool-cases (ltb 0 e.lease_id)) [
    | inl leased ↦ rw leased (lease-IsTidy n _ s (attaches e.lease_id e.key s.lease_mgr) h)
    | inr free ↦ rw free h
  ]

  detach-IsTidy :
      (prev : KeyValue) (key : Bytes) (s : EtcdServer)
      → IsTidy n s
      → IsTidy n (detach_lease prev key s)
  detach-IsTidy prev key s h = elim (Bool-cases (ltb 0 prev.lease_id)) [
    | inl leased ↦ rw leased (lease-IsTidy n _ s (detaches prev.lease_id key s.lease_mgr) h)
    | inr free ↦ rw free h
  ]

  notify-IsTidy :
      (key : Bytes) (result : PutWithPrevResult) (s : EtcdServer)
      → IsTidy n s
      → IsTidy n (notify_put key result s)
  notify-IsTidy key result s h = elim (Option-cases result.new_kv) [
    | inl absent ↦ rw absent h
    | inr (kv, found) ↦ rw found (watch-IsTidy n _ s (notifies _ s.watch_mgr) h)
  ]

  process-IsTidy :
      (t : EventType) (e : RaftEntry) (s : EtcdServer)
      → IsTidy n s
      → IsTidy n (process_by_type t e s)
  unfolding process_put process_delete
  process-IsTidy EventType.put e s h =
      let p = put_with_prev e.key e.value e.lease_id s.kvstore in
      let s' : EtcdServer = record s { kvstore = p.0 } in
      notify-IsTidy e.key p.1 (attach_lease e s')
        (attach-IsTidy e s' (same-IsTidy n s s' refl refl refl refl h))
  process-IsTidy EventType.delete e s h =
      let prev = prev_of e.key (KvStore.get e.key 0 s.kvstore) in
      let s' = detach_lease prev e.key s in
      let kv = (KvStore.delete e.key s'.kvstore).0 in
      watch-IsTidy n _ (record s' { kvstore = kv })
        (notifies (delete_event e.key prev) s'.watch_mgr)
        (same-IsTidy n s' (record s' { kvstore = kv }) refl refl refl refl
          (detach-IsTidy prev e.key s h))
  process-IsTidy EventType.conf_change e s h = h
  process-IsTidy (EventType.unknown k) e s h = h

  process_all-IsTidy :
      (es : List RaftEntry) (s : EtcdServer) → IsTidy n s → IsTidy n (process_raft_entries es s)
  unfolding process_raft_entries
  process_all-IsTidy [] s h = h
  process_all-IsTidy (e ∷ es) s h =
      process_all-IsTidy es (process_by_type e.type e s) (process-IsTidy e.type e s h)

  ready-IsSound :
      (es : List RaftEntry) (s : EtcdServer) → IsSound n s → IsSound n (raft_ready_handler es s)
  unfolding raft_ready_handler
  ready-IsSound es s h = (
    same-IsTidy n (process_raft_entries es s) _ refl refl refl refl (process_all-IsTidy es s h.0),
    (process_raft_entries_lem es s h.1).0,
  )

  handle_call-IsSound :
      (c : HandlerCall) (s : EtcdServer) → IsSound n s → IsSound n (handle_call c s)
  unfolding on_conf_change_applied
  handle_call-IsSound (HandlerCall.state_changed state) s h = h
  handle_call-IsSound (HandlerCall.ready es) s h = ready-IsSound es s h
  handle_call-IsSound (HandlerCall.conf_changed cc) s h =
      (same-IsTidy n s _ refl refl refl refl h.0, h.1)

  pub handle_calls-IsSound :
      (cs : List HandlerCall) (s : EtcdServer) → IsSound n s → IsSound n (handle_calls cs s)
  unfolding handle_calls
  handle_calls-IsSound [] s h = h
  handle_calls-IsSound (c ∷ cs) s h =
      handle_calls-IsSound cs (handle_call c s) (handle_call-IsSound c s h)

  -- A step of the node, and the handlers that it calls.
  pub step-IsSound :
      (m : RaftNode) (s : EtcdServer)
      → NodeStep (record s.raft_node { calls = [] }) m
      → IsSound n s
      → IsSound n (handle_calls m.calls (record s { raft_node = m }))
  step-IsSound m s step h =
      let same : Advances s.raft_node (record s.raft_node { calls = [] }) = record {
        term = omega arith;
        vote = λ _ _. refl;
      } in
      handle_calls-IsSound m.calls (record s { raft_node = m })
        (node-IsTidy n m s (Advances-trans s.raft_node _ m same (step-Advances step)) h.0, h.1)

  pub apply_committed-IsSound : (s : EtcdServer) → IsSound n s → IsSound n (apply_committed s)
  unfolding apply_committed
  apply_committed-IsSound s =
      step-IsSound (apply_committed_entries (record s.raft_node { calls = [] })) s Steps.applies

  expired-IsSound :
      (key : Bytes) (s : EtcdServer) → IsSound n s → IsSound n (on_lease_expired key s)
  unfolding on_lease_expired
  expired-IsSound key s h = elim (Bool-cases (is_leader s.raft_node)) [
    | inl leads ↦ rw leads (node-IsTidy n _ s (step-Advances (Steps.proposes _)) h.0, h.1)
    | inr other ↦ rw other h
  ]

  expire_keys-IsSound :
      (keys : List Bytes) (s : EtcdServer) → IsSound n s → IsSound n (expire_keys keys s)
  unfolding expire_keys
  expire_keys-IsSound [] s h = h
  expire_keys-IsSound (key ∷ keys) s h =
      expire_keys-IsSound keys (on_lease_expired key s) (expired-IsSound key s h)

  pub check_leases-IsSound :
      (now : ℕ) (s : EtcdServer) → IsSound n s → IsSound n (check_leases now s)
  unfolding check_leases
  check_leases-IsSound now s h =
      let fresh = record s.lease_mgr { notified = [] } in
      let m = check_expiry now fresh in
      expire_keys-IsSound m.notified (record s { lease_mgr = m })
        (
          same-IsTidy n (record (record s { lease_mgr = fresh }) { lease_mgr = m }) _ refl refl refl
              refl
              (lease-IsTidy n m (record s { lease_mgr = fresh }) (checks now fresh)
                (same-IsTidy n s (record s { lease_mgr = fresh }) refl refl refl refl h.0)),
          h.1,
        )

  cut_off-IsSound :
      (t : EtcdServer) (o : Option Wal) (f : Wal → EtcdServer)
      → ((w : Wal) → IsSound n (f w))
      → (o >>= λ w. some (f w)) ≡ some t
      → IsSound n t
  cut_off-IsSound t none f h e = absurd cc
  cut_off-IsSound t (some w) f h e = subst (IsSound n) (some-injective (f w) t e) (h w)

  pub snapshot_round-IsSound :
      (s t : EtcdServer) → snapshot_round s ≡ some t → IsSound n s → IsSound n t
  unfolding snapshot_round
  snapshot_round-IsSound s t e h =
      elim (Bool-cases (should_snapshot (last_index s.raft_node.log) s.snapshot_index threshold)) [
        | inl due ↦
            cut_off-IsSound t (truncate_from (last_index s.raft_node.log) s.wal) _
              (λ w. (same-IsTidy n s _ refl refl refl refl h.0, h.1)) (rw due at e)
        | inr early ↦ subst (IsSound n) (some-injective s t (rw early at e)) h
      ]
