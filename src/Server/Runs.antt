-- ===== src/Server/Runs.antt =====
-- What a request's thread does to the server of src/server/etcd_server.cpp, as the calls of the parts that it makes.
use my_etcd.Base.{
  ℕ, ◌*◌, Bool, true, false, Bool-cases, inl, inr, List, [], ◌∷◌, Option, none, some, ◌==◌,
  if◌then◌else◌, Bytes, nat_key, is_some,
}
use my_etcd.OrdMap.{insert, erase, lookup, has_key}
use my_etcd.Types.{RaftEntry, ConfChange}
use my_etcd.Raft.Node.{
  RaftNode, ProposalResult, accepted, not_leader, conf_not_leader, is_leader, propose,
  propose_conf_change,
}
use my_etcd.Lease
use my_etcd.Lease.{LeaseManager, grant, revoke, renew}
use my_etcd.Lease.Laws.{LeaseStep, grants, revokes, renews}
use my_etcd.Watch.{Watcher, WatchManager, watch, cancel, get_watcher, take_event}
use my_etcd.Watch.Registry.{WatchStep, watches, cancels}
use my_etcd.Server.{EtcdServer, on_lease_expired, expire_keys}
use my_etcd.Server.Requests
use my_etcd.Server.Requests.{
  Reply, committed_reply, with_node, put_entry, delete_entry, watched, taken_events, renew_found,
  member_reply, new_member, added_json,
}
use my_etcd.Server.Txn.{
  is_put, is_delete, execute, execute_all, executed, operations, conditions_met, txn,
}

-- Calls of the parts, in any order, and the waits, in which other threads work.
pub data RequestRun (meanwhile : EtcdServer → EtcdServer) : EtcdServer → EtcdServer → Type 0 where
  rests : (s : EtcdServer) → RequestRun meanwhile s s
  follows :
      {s t u : EtcdServer}
      → RequestRun meanwhile s t
      → RequestRun meanwhile t u
      → RequestRun meanwhile s u
  proposes :
      (e : RaftEntry) (s : EtcdServer)
      → RequestRun meanwhile s (record s { raft_node = (propose e s.raft_node).0 })
  proposes_conf :
      (change : ConfChange) (s : EtcdServer)
      → RequestRun meanwhile s (record s { raft_node = (propose_conf_change change s.raft_node).0 })
  calls_leases :
      (m : LeaseManager) (s : EtcdServer)
      → LeaseStep s.lease_mgr m
      → RequestRun meanwhile s (record s { lease_mgr = m })
  starts_trace :
      (s : EtcdServer)
      → RequestRun meanwhile s (record s { lease_mgr = record s.lease_mgr { notified = [] } })
  calls_watchers :
      (m : WatchManager) (s : EtcdServer)
      → WatchStep s.watch_mgr m
      → RequestRun meanwhile s (record s { watch_mgr = m })
  keeps_watcher :
      (id : ℕ) (w : Watcher) (s : EtcdServer)
      → RequestRun meanwhile s (record s {
        watch_mgr = record s.watch_mgr { objects = insert id w s.watch_mgr.objects };
      })
  forgets_commit :
      (index : ℕ) (s : EtcdServer)
      → RequestRun meanwhile s (record s { pending_commits = erase index s.pending_commits })
  waits : (s : EtcdServer) → RequestRun meanwhile s (meanwhile s)

module _ (meanwhile : EtcdServer → EtcdServer) where
  -- Either branch of a test.
  pub either-RequestRun :
      (b : Bool) (s : EtcdServer) (r r' : Reply)
      → RequestRun meanwhile s r.0
      → RequestRun meanwhile s r'.0
      → RequestRun meanwhile s (if b then r else r').0
  either-RequestRun true s r r' h k = h
  either-RequestRun false s r r' h k = k

  committed_reply-RequestRun :
      (tail : Bytes) (s : EtcdServer) (n : RaftNode) (result : ProposalResult)
      → RequestRun meanwhile s (record s { raft_node = n })
      → RequestRun meanwhile s (committed_reply meanwhile tail (with_node s (n, result))).0
  committed_reply-RequestRun tail s n (accepted idx) h = follows h (
      follows (waits (record s { raft_node = n }))
        (forgets_commit idx (meanwhile (record s { raft_node = n }))))
  committed_reply-RequestRun tail s n (not_leader leader) h = h
  committed_reply-RequestRun tail s n conf_not_leader h = h

  member_reply-RequestRun :
      (json : Bytes) (s : EtcdServer) (n : RaftNode) (result : ProposalResult)
      → RequestRun meanwhile s (record s { raft_node = n })
      → RequestRun meanwhile s (member_reply json (with_node s (n, result))).0
  member_reply-RequestRun json s n (accepted idx) h = h
  member_reply-RequestRun json s n (not_leader leader) h = h
  member_reply-RequestRun json s n conf_not_leader h = h

  pub put-RequestRun :
      (key value : Bytes) (lease_id : ℕ) (s : EtcdServer)
      → RequestRun meanwhile s (Requests.put meanwhile key value lease_id s).0
  unfolding Requests.put
  put-RequestRun key value lease_id s =
      either-RequestRun (is_leader s.raft_node) s _ _
        (committed_reply-RequestRun _ s _ _ (proposes (put_entry key value lease_id) s)) (rests s)

  pub delete-RequestRun :
      (key : Bytes) (s : EtcdServer) → RequestRun meanwhile s (Requests.delete meanwhile key s).0
  unfolding Requests.delete
  delete-RequestRun key s =
      either-RequestRun (is_leader s.raft_node) s _ _
        (committed_reply-RequestRun _ s _ _ (proposes (delete_entry key) s)) (rests s)

  watched-RequestRun :
      (id : ℕ) (s : EtcdServer) (w : Option Watcher) → RequestRun meanwhile s (watched id s w).0
  watched-RequestRun id s none = rests s
  watched-RequestRun id s (some w) = keeps_watcher id (taken_events (take_event w)).0 s

  pub watch-RequestRun :
      (key : Bytes) (start_rev : ℕ) (prefix : Bool) (s : EtcdServer)
      → RequestRun meanwhile s (Requests.watch_request meanwhile key start_rev prefix s).0
  unfolding Requests.watch_request
  watch-RequestRun key start_rev prefix s =
      let r = watch key start_rev prefix s.watch_mgr in
      let s' = record s { watch_mgr = r.0 } in
      follows (calls_watchers r.0 s (watches key start_rev prefix s.watch_mgr)) (
        either-RequestRun (is_some (get_watcher r.1 r.0)) s' _ _
          (follows (waits s')
            (watched-RequestRun r.1 (meanwhile s') (lookup r.1 (meanwhile s').watch_mgr.objects)))
          (rests s'))

  pub cancel-RequestRun :
      (id : ℕ) (s : EtcdServer) → RequestRun meanwhile s (Requests.watch_cancel id s).0
  unfolding Requests.watch_cancel
  cancel-RequestRun id s = calls_watchers (cancel id s.watch_mgr).0 s (cancels id s.watch_mgr)

  pub grant-RequestRun :
      (now ttl : ℕ) (s : EtcdServer) → RequestRun meanwhile s (Requests.lease_grant now ttl s).0
  unfolding Requests.lease_grant
  grant-RequestRun now ttl s =
      calls_leases (grant now (ttl * 1000) s.lease_mgr).0 s (grants now (ttl * 1000) s.lease_mgr)

  expired-RequestRun :
      (key : Bytes) (s : EtcdServer) → RequestRun meanwhile s (on_lease_expired key s)
  unfolding on_lease_expired
  expired-RequestRun key s = elim (Bool-cases (is_leader s.raft_node)) [
    | inl leads ↦ rw leads (proposes (delete_entry key) s)
    | inr other ↦ rw other (rests s)
  ]

  expire_keys-RequestRun :
      (keys : List Bytes) (s : EtcdServer) → RequestRun meanwhile s (expire_keys keys s)
  unfolding expire_keys
  expire_keys-RequestRun [] s = rests s
  expire_keys-RequestRun (key ∷ keys) s =
      follows (expired-RequestRun key s) (expire_keys-RequestRun keys (on_lease_expired key s))

  pub revoke-RequestRun :
      (id : ℕ) (s : EtcdServer) → RequestRun meanwhile s (Requests.lease_revoke id s).0
  unfolding Requests.lease_revoke
  revoke-RequestRun id s =
      let fresh = record s.lease_mgr { notified = [] } in
      let m = (revoke id fresh).0 in
      follows (starts_trace s) (
        follows (calls_leases m (record s { lease_mgr = fresh }) (revokes id fresh))
          (expire_keys-RequestRun m.notified (record s { lease_mgr = m })))

  renewed-RequestRun :
      (now id : ℕ) (s : EtcdServer) (found : Option Lease.Lease)
      → RequestRun meanwhile s (renew_found now id s found).0
  renewed-RequestRun now id s none = rests s
  renewed-RequestRun now id s (some lease) =
      calls_leases (renew now id s.lease_mgr).0 s (renews now id s.lease_mgr)

  pub renew-RequestRun :
      (now id : ℕ) (s : EtcdServer) → RequestRun meanwhile s (Requests.lease_renew now id s).0
  unfolding Requests.lease_renew
  renew-RequestRun now id s = renewed-RequestRun now id s (Lease.get now id s.lease_mgr)

  pub member_add-RequestRun :
      (peer : Bytes) (s : EtcdServer) → RequestRun meanwhile s (Requests.member_add peer s).0
  unfolding Requests.member_add
  member_add-RequestRun peer s =
      either-RequestRun (is_leader s.raft_node) s _ _
        (member_reply-RequestRun _ s _ _ (proposes_conf _ s)) (rests s)

  pub member_remove-RequestRun :
      (id : ℕ) (s : EtcdServer) → RequestRun meanwhile s (Requests.member_remove id s).0
  unfolding Requests.member_remove
  member_remove-RequestRun id s =
      either-RequestRun (is_leader s.raft_node) s _ _
        (either-RequestRun (id == s.raft_node.node_id) s _ _ (rests s) (
          either-RequestRun (has_key id s.raft_node.peers) s _ _
            (member_reply-RequestRun _ s _ _ (proposes_conf _ s)) (rests s)))
        (rests s)

  execute-RequestRun : (obj : Bytes) (s : EtcdServer) → RequestRun meanwhile s (execute obj s)
  unfolding execute
  execute-RequestRun obj s = elim (Bool-cases (is_put obj)) [
    | inl puts ↦ rw puts (proposes _ s)
    | inr other ↦ elim (Bool-cases (is_delete obj)) [
      | inl deletes ↦ rw (other, deletes) (proposes _ s)
      | inr unknown ↦ rw (other, unknown) (rests s)
    ]
  ]

  execute_all-RequestRun :
      (objs : List Bytes) (s : EtcdServer) → RequestRun meanwhile s (execute_all objs s)
  unfolding execute_all
  execute_all-RequestRun [] s = rests s
  execute_all-RequestRun (obj ∷ objs) s =
      follows (execute-RequestRun obj s) (execute_all-RequestRun objs (execute obj s))

  executed-RequestRun :
      (met : Bool) (s : EtcdServer) (objs : Option (List Bytes))
      → RequestRun meanwhile s (executed met s objs).0
  executed-RequestRun met s none = rests s
  executed-RequestRun met s (some objs) = execute_all-RequestRun objs s

  pub txn-RequestRun :
      (stoll : Bytes → Option (Bool × ℕ)) (body : Bytes) (s : EtcdServer)
      → RequestRun meanwhile s (txn stoll body s).0
  unfolding txn
  txn-RequestRun stoll body s =
      let met = conditions_met stoll body s.kvstore in
      executed-RequestRun met s (operations met body)
