-- ===== src/Raft/Node.antt =====
-- src/raft/raft_node.h and raft.cpp: the state of a node, its role changes, its proposals, and how it
-- applies what is committed. `calls` is the trace of the handlers that the node calls.
pub mod Apply
pub mod Proposals
use my_etcd.Base.{
  ℕ, suc, ◌+◌, ◌-◌, ◌/◌, Bool, true, false, List, [], ◌∷◌, ◌++◌, map, Option, none, some, ltb, leb,
  ◌==◌, if◌then◌else◌, length, add64, last?, nat_key,
}
use my_etcd.OrdMap.{OrdMap, lookup, insert, erase, has_key}
use my_etcd.Types.{
  RaftEntry, ConfChange, ConfChangeType, NodeState, EventType, Snapshot, no_node_id, no_index,
  default_entry,
}
use my_etcd.Raft.Log.{RaftLog, last_index, last_term, append, append_all, slice, restore, index_or}

-- `std::set<NodeId>`: the keys of a map.
abbrev pub IdSet : Type 0
IdSet = OrdMap ℕ (Unit {0})

abbrev pub ids : IdSet → List ℕ
ids = map (λ p. p.0)

pub data HandlerCall : Type 0 where
  state_changed : NodeState → HandlerCall
  ready : List RaftEntry → HandlerCall
  conf_changed : ConfChange → HandlerCall

pub record RaftNode : Type 0 where
  pub node_id : ℕ
  pub current_term : ℕ
  pub voted_for : ℕ
  pub log : RaftLog
  pub commit_index : ℕ
  pub last_applied : ℕ
  pub state : NodeState
  pub leader_id : ℕ
  pub next_index : OrdMap ℕ ℕ
  pub match_index : OrdMap ℕ ℕ
  pub peers : IdSet
  pub pending_committed : List RaftEntry
  pub batch_buffer : List RaftEntry
  pub calls : List HandlerCall

abbrev pub call : HandlerCall → RaftNode → RaftNode
call c n = record n { calls = n.calls ++ c ∷ [] }

abbrev pub is_leader_state : NodeState → Bool
is_leader_state NodeState.leader = true
is_leader_state NodeState.follower = false
is_leader_state NodeState.candidate = false

abbrev pub is_leader : RaftNode → Bool
is_leader n = is_leader_state n.state

unfoldable pub become_follower : ℕ → RaftNode → RaftNode
become_follower term n =
    let m =
      if ltb n.current_term term
      then record n { current_term = term; voted_for = no_node_id }
      else n in
    call (state_changed NodeState.follower) (record m { state = NodeState.follower })

unfoldable pub become_candidate : RaftNode → RaftNode
become_candidate n = call (state_changed NodeState.candidate) (record n {
  state = NodeState.candidate;
  current_term = add64 n.current_term 1;
  voted_for = n.node_id;
  leader_id = no_node_id;
})

-- `for (auto peer : peers_) m[peer] = v`
unfoldable pub set_all : List ℕ → ℕ → OrdMap ℕ ℕ → OrdMap ℕ ℕ
set_all [] v m = m
set_all (p ∷ ps) v m = set_all ps v (insert p v m)

unfoldable pub become_leader : RaftNode → RaftNode
unfolding set_all
become_leader n = call (state_changed NodeState.leader) (record n {
  state = NodeState.leader;
  leader_id = n.node_id;
  next_index = set_all (ids n.peers) (add64 (last_index n.log) 1) [];
  match_index = set_all (ids n.peers) 0 [];
})

-- A rejected proposal has an error text, and an index that was never set.
pub data ProposalResult : Type 0 where
  accepted : ℕ → ProposalResult
  not_leader : ℕ → ProposalResult
  conf_not_leader : ProposalResult

-- `log_.Append(e); match_index_[node_id_] = e.index;`
unfoldable pub append_own : RaftEntry → RaftNode → RaftNode
unfolding append
append_own e n = record n {
  log = (append n.log e).0;
  match_index = insert n.node_id e.index n.match_index;
}

unfoldable pub propose : RaftEntry → RaftNode → RaftNode × ProposalResult
unfolding append_own
propose entry n =
    if is_leader n
    then (let e = record entry { term = n.current_term; index = add64 (last_index n.log) 1 } in
        (append_own e n, accepted e.index))
    else (n, not_leader n.leader_id)

unfoldable pub propose_batch : RaftEntry → RaftNode → RaftNode × ProposalResult
propose_batch entry n =
    if is_leader n
    then (let i = add64 (add64 (last_index n.log) 1) (length n.batch_buffer) in
        let e = record entry { term = n.current_term; index = i } in
        (record n { batch_buffer = n.batch_buffer ++ e ∷ [] }, accepted i))
    else (n, not_leader n.leader_id)

-- The entries get the indices base, base + 1, ….
unfoldable pub renumber : ℕ → List RaftEntry → List RaftEntry
renumber base [] = []
renumber base (e ∷ es) = record e { index = base } ∷ renumber (add64 base 1) es

unfoldable pub flush_entries : List RaftEntry → RaftNode → RaftNode
unfolding renumber
flush_entries [] n = n
flush_entries (b ∷ bs) n =
    let batch = renumber (add64 (last_index n.log) 1) (b ∷ bs) in
    record n {
      log = append_all n.log batch;
      batch_buffer = [];
      match_index = insert n.node_id (index_or no_index (last? batch)) n.match_index;
    }

unfoldable pub flush_batch : RaftNode → RaftNode
unfolding flush_entries
flush_batch n = flush_entries n.batch_buffer n

unfoldable pub propose_conf_change : ConfChange → RaftNode → RaftNode × ProposalResult
unfolding append_own
propose_conf_change change n =
    if is_leader n
    then (let e = record default_entry {
      term = n.current_term;
      index = add64 (last_index n.log) 1;
      type = EventType.conf_change;
      conf_change = change;
    } in
        (append_own e n, accepted e.index))
    else (n, conf_not_leader)

unfoldable pub add_peer : ConfChange → RaftNode → RaftNode
add_peer change n =
    if has_key change.node_id n.peers
    then n
    else let m = record n { peers = insert change.node_id tt n.peers } in
      call (conf_changed change) (
        if is_leader n
        then record m {
          next_index = insert change.node_id (add64 (last_index n.log) 1) n.next_index;
          match_index = insert change.node_id 0 n.match_index;
        }
        else m)

-- The test for a majority after the removal: `remaining + 1 < (remaining + 1) / 2 + 1`.
unfoldable pub loses_quorum : ℕ → Bool
loses_quorum peer_count = let total = peer_count - 1 + 1 in ltb total (total / 2 + 1)

unfoldable pub drop_peer : ℕ → RaftNode → RaftNode
drop_peer id n = record n {
  peers = erase id n.peers;
  next_index = erase id n.next_index;
  match_index = erase id n.match_index;
}

unfoldable pub remove_peer : ConfChange → RaftNode → RaftNode
unfolding loses_quorum drop_peer
remove_peer change n =
    if change.node_id == n.node_id
    then n
    else if (if has_key change.node_id n.peers then loses_quorum (length n.peers) else false)
    then n
    else call (conf_changed change) (drop_peer change.node_id n)

unfoldable pub apply_by_type : ConfChangeType → ConfChange → RaftNode → RaftNode
unfolding add_peer remove_peer
apply_by_type ConfChangeType.add_node change n = add_peer change n
apply_by_type ConfChangeType.remove_node change n = remove_peer change n
apply_by_type (ConfChangeType.unknown t) change n = n

unfoldable pub apply_conf_change : ConfChange → RaftNode → RaftNode
unfolding apply_by_type
apply_conf_change change n =
    if change.node_id == no_node_id then n else apply_by_type change.type change n

-- `AddNode` and `RemoveNode`, which bypass the log.
unfoldable pub add_node : ℕ → RaftNode → RaftNode
add_node id n = if has_key id n.peers then n else record n { peers = insert id tt n.peers }

unfoldable pub remove_node : ℕ → RaftNode → RaftNode
unfolding drop_peer
remove_node id n = drop_peer id n

unfoldable pub apply_if_conf : EventType → ConfChange → RaftNode → RaftNode
apply_if_conf EventType.conf_change change n = apply_conf_change change n
apply_if_conf EventType.put change n = n
apply_if_conf EventType.delete change n = n
apply_if_conf (EventType.unknown t) change n = n

unfoldable pub apply_conf_changes : List RaftEntry → RaftNode → RaftNode
unfolding apply_if_conf
apply_conf_changes [] n = n
apply_conf_changes (e ∷ es) n = apply_conf_changes es (apply_if_conf e.type e.conf_change n)

abbrev pub call_ready : List RaftEntry → RaftNode → RaftNode
call_ready [] n = n
call_ready (e ∷ es) n = call (ready (e ∷ es)) n

-- What the next call of `ApplyCommittedEntries` delivers.
abbrev pub to_apply : RaftNode → List RaftEntry
to_apply n = slice n.log (add64 n.last_applied 1) (add64 n.commit_index 1)

unfoldable pub apply_committed_entries : RaftNode → RaftNode
apply_committed_entries n =
    if ltb n.last_applied n.commit_index
    then (let m = apply_conf_changes (to_apply n) n in
        call_ready (to_apply n) (record m {
          pending_committed = m.pending_committed ++ to_apply n;
          last_applied = n.commit_index;
        }))
    else n

unfoldable pub apply_snapshot : Snapshot → RaftNode → RaftNode
apply_snapshot s n = if ltb s.last_index n.commit_index then n else record n {
  log = restore n.log s.last_index;
  commit_index = s.last_index;
  last_applied = s.last_index;
  current_term = if ltb n.current_term s.last_term then s.last_term else n.current_term;
}

unfoldable pub create_snapshot : RaftNode → Snapshot
create_snapshot n = record {
  last_index = last_index n.log;
  last_term = last_term n.log;
  content = [];
}

unfoldable pub get_committed_entries : RaftNode → RaftNode × List RaftEntry
get_committed_entries n = (record n { pending_committed = [] }, n.pending_committed)

-- The constructor: the peers are the other nodes of `peer_addresses`.
unfoldable pub insert_others : ℕ → List ℕ → IdSet → IdSet
insert_others self [] s = s
insert_others self (id ∷ rest) s =
    insert_others self rest (if id == self then s else insert id tt s)

unfoldable pub init : ℕ → List ℕ → RaftNode
unfolding insert_others
init self addresses = record {
  node_id = self;
  current_term = 0;
  voted_for = no_node_id;
  log = record { entries = []; first_index = 1 };
  commit_index = 0;
  last_applied = 0;
  state = NodeState.follower;
  leader_id = no_node_id;
  next_index = [];
  match_index = [];
  peers = insert_others self addresses [];
  pending_committed = [];
  batch_buffer = [];
  calls = [];
}
