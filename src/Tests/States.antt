-- ===== src/Tests/States.antt =====
-- The states that the examples start from.
use my_etcd.Base.{ℕ, ◌+◌, refl, arith, [], ◌∷◌, Bytes, true}
use my_etcd.Types.{
  RaftEntry, default_entry, NodeState, EventType, default_key_value, WatchEvent, Snapshot,
}
use my_etcd.Codec.{event_byte, event_of_byte, conf_byte, conf_of_byte}
use my_etcd.Transport.Wire.Laws.{IsCarried}
use my_etcd.Raft.Log.{RaftLog}
use my_etcd.Raft.Log.Contiguous.{IsWf}
use my_etcd.Raft.Messages.{RequestVoteRequest, RequestVoteResponse, AppendEntriesRequest}
use my_etcd.Raft.Node.{RaftNode}

abbrev pub entry_of : ℕ → ℕ → RaftEntry
entry_of term index = record default_entry { term = term; index = index }

abbrev pub log3 : RaftLog
log3 = record { entries = entry_of 1 1 ∷ entry_of 1 2 ∷ entry_of 2 3 ∷ []; first_index = 1 }

pub log3-IsWf : IsWf log3
log3-IsWf = record {
  positive = omega arith;
  numbered = (refl, (refl, (refl, tt)));
  fits = omega arith;
}

-- A follower of a cluster of three.
abbrev pub node3 : RaftNode
node3 = record {
  node_id = 1;
  current_term = 2;
  voted_for = 0;
  log = log3;
  commit_index = 1;
  last_applied = 0;
  state = NodeState.follower;
  leader_id = 0;
  next_index = [];
  match_index = [];
  peers = (2, tt) ∷ (3, tt) ∷ [];
  pending_committed = [];
  batch_buffer = [];
  calls = [];
}

-- A leader that has just been elected.
abbrev pub leader3 : RaftNode
leader3 = record node3 {
  state = NodeState.leader;
  leader_id = 1;
  next_index = (2, 4) ∷ (3, 4) ∷ [];
  match_index = (2, 0) ∷ (3, 0) ∷ [];
}

abbrev pub vote_for : ℕ → RequestVoteRequest
vote_for candidate = record {
  term = 3;
  candidate_id = candidate;
  last_log_index = 3;
  last_log_term = 2;
}

abbrev pub grant_of : ℕ → RequestVoteResponse
grant_of peer = record { term = 2; vote_granted = true }

abbrev pub append_after : ℕ → ℕ → ℕ → AppendEntriesRequest
append_after prev prev_term commit = record {
  term = 3;
  leader_id = 2;
  prev_log_index = prev;
  prev_log_term = prev_term;
  entries = entry_of 3 (prev + 1) ∷ [];
  leader_commit = commit;
}

abbrev pub snapshot5 : Snapshot
snapshot5 = record { last_index = 5; last_term = 2; content = [] }

abbrev pub key_a : Bytes
key_a = 97 ∷ []

abbrev pub key_b : Bytes
key_b = 98 ∷ []

abbrev pub delete_of : Bytes → WatchEvent
delete_of key = record {
  type = EventType.delete;
  kv = record default_key_value { key = key };
  prev_kv = default_key_value;
}

pub entry_of-IsCarried : IsCarried (entry_of 3 4)
unfolding event_of_byte event_byte conf_of_byte conf_byte
entry_of-IsCarried = record {
  term = omega arith;
  index = omega arith;
  type = refl;
  key = omega arith;
  value = omega arith;
  lease_id = omega arith;
  no_conf = λ h. refl;
  conf_type = refl;
  node_id = omega arith;
  peer_addr = omega arith;
}
