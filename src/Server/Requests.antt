-- ===== src/Server/Requests.antt =====
-- src/server/etcd_server.cpp: the handlers of the requests. The node's two locks in a handler, for the test of
-- its role and for the proposal, are taken as one. `meanwhile` is what other threads do to the server
-- while a handler waits.
use my_etcd.Base.{
  ℕ, zero, suc, ◌+◌, ◌*◌, Bool, List, [], ◌∷◌, ◌++◌, map, Option, none, some, ◌==◌, if◌then◌else◌,
  length, Bytes, nat_key, is_some,
}
use my_etcd.OrdMap.{insert, erase, lookup, has_key}
use my_etcd.Types.{
  RaftEntry, EventType, KeyValue, WatchEvent, ConfChangeType, NodeState, default_entry,
  default_conf_change,
}
use my_etcd.Raft.Node.{
  RaftNode, IdSet, ProposalResult, accepted, not_leader, conf_not_leader, is_leader, propose,
  propose_conf_change,
}
use my_etcd.Storage.KvStore
use my_etcd.Storage.KvStore.{current_revision}
use my_etcd.Lease
use my_etcd.Lease.{grant, revoke, renew}
use my_etcd.Watch.{Watcher, watch, cancel, get_watcher, take_event}
use my_etcd.Server.Json.{
  codes, decimal, digits, escape, kv_list_to_json, lease_to_json, watch_event_to_json, separated,
  HttpResponse, no_response, set_json, set_error,
}
use my_etcd.Server.{EtcdServer, expire_keys}

abbrev pub Reply : Type 0
Reply = EtcdServer × HttpResponse

abbrev pub error_of : ProposalResult → Bytes
error_of (accepted idx) = []
error_of (not_leader leader) = codes "not leader, current leader is " ++ decimal leader
error_of conf_not_leader = codes "not leader"

-- The wait for the commit, and the answer.
abbrev pub committed_reply : (EtcdServer → EtcdServer) → Bytes → EtcdServer × ProposalResult → Reply
committed_reply meanwhile tail (s, accepted idx) =
    let s' = meanwhile s in
    (
      record s' { pending_commits = erase idx s'.pending_commits },
      set_json (codes "{\"header\":{\"revision\":" ++ (decimal idx ++ tail)) no_response,
    )
committed_reply meanwhile tail (s, not_leader leader) =
    (s, set_error 500 (error_of (not_leader leader)) no_response)
committed_reply meanwhile tail (s, conf_not_leader) =
    (s, set_error 500 (error_of conf_not_leader) no_response)

-- A proposal to the server's node.
abbrev pub with_node : EtcdServer → RaftNode × ProposalResult → EtcdServer × ProposalResult
with_node s (n, result) = (record s { raft_node = n }, result)

abbrev pub put_entry : Bytes → Bytes → ℕ → RaftEntry
put_entry key value lease_id = record default_entry {
  type = EventType.put;
  key = key;
  value = value;
  lease_id = lease_id;
}

abbrev pub delete_entry : Bytes → RaftEntry
delete_entry key = record default_entry { type = EventType.delete; key = key }

unfoldable pub put : (EtcdServer → EtcdServer) → Bytes → Bytes → ℕ → EtcdServer → Reply
unfolding set_error set_json digits
put meanwhile key value lease_id s =
    if is_leader s.raft_node
    then committed_reply meanwhile (codes "},\"succeeded\":true}")
        (with_node s (propose (put_entry key value lease_id) s.raft_node))
    else (
      s,
      set_error 503 (codes "not leader, current leader is " ++ decimal s.raft_node.leader_id)
          no_response,
    )

unfoldable pub delete : (EtcdServer → EtcdServer) → Bytes → EtcdServer → Reply
unfolding set_error set_json digits
delete meanwhile key s =
    if is_leader s.raft_node
    then committed_reply meanwhile (codes "},\"deleted\":1}")
        (with_node s (propose (delete_entry key) s.raft_node))
    else (s, set_error 503 (codes "not leader") no_response)

abbrev pub found_list : Option KeyValue → List KeyValue
found_list none = []
found_list (some kv) = kv ∷ []

-- The pairs of a range request; an empty end asks for one key.
unfoldable pub range_pairs : Bytes → Bytes → ℕ → ℕ → EtcdServer → List KeyValue
range_pairs key [] revision limit s = found_list (KvStore.get key revision s.kvstore)
range_pairs key (c ∷ range_end) revision limit s =
    KvStore.range key (c ∷ range_end) revision limit s.kvstore

unfoldable pub range : Bytes → Bytes → ℕ → ℕ → EtcdServer → HttpResponse
unfolding range_pairs set_json kv_list_to_json
range key range_end revision limit s =
    let kvs = range_pairs key range_end revision limit s in
    set_json (kv_list_to_json kvs (length kvs)) no_response

-- The events that are already queued, up to 64 with the first.
unfoldable pub queued : ℕ → Watcher → Watcher × List WatchEvent
queued zero w = (w, [])
queued (suc room) w =
    let (w', found) = take_event w in
    elim found [ none ↦ (w', []) | some e ↦ let (w'', es) = queued room w' in (w'', e ∷ es) ]

abbrev pub taken_events : Watcher × Option WatchEvent → Watcher × List WatchEvent
taken_events (w, none) = (w, [])
taken_events (w, some e) = let (w', es) = queued 63 w in (w', e ∷ es)

abbrev pub events_json : ℕ → List WatchEvent → Bytes
events_json id es =
    codes "{\"watch_id\":"
    ++ (decimal id
        ++ (codes ",\"events\":[" ++ (separated (map watch_event_to_json es) ++ codes "]}")))

-- The request's thread takes the events from the object of the watcher it made, after the wait.
abbrev pub watched : ℕ → EtcdServer → Option Watcher → Reply
watched id s none = (s, set_error 500 (codes "failed to create watcher") no_response)
watched id s (some w) =
    let (w', es) = taken_events (take_event w) in
    (
      record s { watch_mgr = record s.watch_mgr { objects = insert id w' s.watch_mgr.objects } },
      set_json (events_json id es) no_response,
    )

unfoldable pub watch_request : (EtcdServer → EtcdServer) → Bytes → ℕ → Bool → EtcdServer → Reply
unfolding queued set_json set_error watch_event_to_json separated digits
watch_request meanwhile key start_rev prefix s =
    let (m, id) = watch key start_rev prefix s.watch_mgr in
    let s' = record s { watch_mgr = m } in
    if is_some (get_watcher id m)
    then (let later = meanwhile s' in watched id later (lookup id later.watch_mgr.objects))
    else watched id s' none

unfoldable pub watch_cancel : ℕ → EtcdServer → Reply
unfolding set_error set_json digits
watch_cancel id s =
    let (m, ok) = cancel id s.watch_mgr in
    (
      record s { watch_mgr = m },
      if ok
          then set_json (codes "{\"watch_id\":" ++ (decimal id ++ codes ",\"canceled\":true}"))
              no_response
          else set_error 404 (codes "watcher not found") no_response,
    )

unfoldable pub lease_grant : ℕ → ℕ → EtcdServer → Reply
unfolding set_json lease_to_json
lease_grant now ttl_seconds s =
    let (m, id) = grant now (ttl_seconds * 1000) s.lease_mgr in
    (record s { lease_mgr = m }, set_json (lease_to_json id (ttl_seconds * 1000)) no_response)

-- The callback runs for each attached key.
unfoldable pub lease_revoke : ℕ → EtcdServer → Reply
unfolding set_json set_error digits
lease_revoke id s =
    let (m, ok) = revoke id (record s.lease_mgr { notified = [] }) in
    (
      expire_keys m.notified (record s { lease_mgr = m }),
      if ok
          then set_json (codes "{\"header\":{},\"revoked\":true}") no_response
          else set_error 404 (codes "lease not found") no_response,
    )

abbrev pub renew_found : ℕ → ℕ → EtcdServer → Option Lease.Lease → Reply
renew_found now id s none = (s, set_error 404 (codes "lease not found") no_response)
renew_found now id s (some lease) = (
  record s { lease_mgr = (renew now id s.lease_mgr).0 },
  set_json (lease_to_json id lease.ttl_ms) no_response,
)

-- `LeaseKeepAlive` is the same call.
unfoldable pub lease_renew : ℕ → ℕ → EtcdServer → Reply
unfolding set_json set_error lease_to_json digits
lease_renew now id s = renew_found now id s (Lease.get now id s.lease_mgr)

abbrev pub state_name : NodeState → Bytes
state_name NodeState.follower = codes "Follower"
state_name NodeState.candidate = codes "Candidate"
state_name NodeState.leader = codes "Leader"

unfoldable pub cluster_info : Bytes → EtcdServer → HttpResponse
unfolding set_json escape digits
cluster_info name s =
    let n = s.raft_node in
    set_json
      (codes "{\"node_id\":"
        ++ (decimal n.node_id
            ++ (codes ",\"name\":\""
                ++ (escape name
                    ++ (codes "\",\"state\":\""
                        ++ (state_name n.state
                            ++ (codes "\",\"term\":"
                                ++ (decimal n.current_term
                                    ++ (codes ",\"leader_id\":"
                                        ++ (decimal n.leader_id
                                            ++ (codes ",\"revision\":"
                                                ++ (decimal (current_revision s.kvstore)
                                                    ++ (codes ",\"keys\":"
                                                        ++ (decimal
                                                            (length (KvStore.keys s.kvstore))
                                                            ++ codes "}"))))))))))))))
      no_response

-- The first identifier from `id` on that is no peer's and not the node's own.
unfoldable pub free_id : ℕ → ℕ → ℕ → IdSet → ℕ
free_id zero id self peers = id
free_id (suc fuel) id self peers =
    let later = free_id fuel (id + 1) self peers in
    if has_key id peers then later else if id == self then later else id

abbrev pub member_reply : Bytes → EtcdServer × ProposalResult → Reply
member_reply json (s, accepted idx) = (s, set_json json no_response)
member_reply json (s, not_leader leader) =
    (s, set_error 500 (error_of (not_leader leader)) no_response)
member_reply json (s, conf_not_leader) = (s, set_error 500 (error_of conf_not_leader) no_response)

abbrev pub new_member : EtcdServer → ℕ
new_member s = free_id (length s.raft_node.peers + 2) 1 s.raft_node.node_id s.raft_node.peers

abbrev pub added_json : ℕ → Bytes → Bytes
added_json id peer_addr =
    codes "{\"header\":{\"revision\":0},\"member\":{\"ID\":"
    ++ (decimal id ++ (codes ",\"peerURLs\":[\"" ++ (peer_addr ++ codes "\"]}}")))

unfoldable pub member_add : Bytes → EtcdServer → Reply
unfolding free_id set_json set_error digits
member_add peer_addr s =
    let id = new_member s in
    if is_leader s.raft_node
    then member_reply (added_json id peer_addr) (
        with_node s (
          propose_conf_change
            (record { type = ConfChangeType.add_node; node_id = id; peer_addr = peer_addr })
            s.raft_node))
    else (s, set_error 503 (codes "not leader") no_response)

unfoldable pub member_remove : ℕ → EtcdServer → Reply
unfolding set_json set_error digits
member_remove id s =
    if is_leader s.raft_node
    then if id == s.raft_node.node_id
      then (s, set_error 400 (codes "cannot remove self") no_response)
      else if has_key id s.raft_node.peers
      then member_reply
          (codes "{\"header\":{\"revision\":0},\"member\":{\"ID\":" ++ (decimal id ++ codes "}}"))
          (with_node s (
            propose_conf_change
              (record default_conf_change { type = ConfChangeType.remove_node; node_id = id })
              s.raft_node))
      else (s, set_error 404 (codes "member not found") no_response)
    else (s, set_error 503 (codes "not leader") no_response)
