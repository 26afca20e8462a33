-- ===== src/Raft/Messages.antt =====
-- src/raft/transport.h: the requests and responses of the two RPCs.
use my_etcd.Base.{ℕ, Bool, List}
use my_etcd.Types.{RaftEntry}

pub record RequestVoteRequest : Type 0 where
  pub term : ℕ
  pub candidate_id : ℕ
  pub last_log_index : ℕ
  pub last_log_term : ℕ

pub record RequestVoteResponse : Type 0 where
  pub term : ℕ
  pub vote_granted : Bool

pub record AppendEntriesRequest : Type 0 where
  pub term : ℕ
  pub leader_id : ℕ
  pub prev_log_index : ℕ
  pub prev_log_term : ℕ
  pub entries : List RaftEntry
  pub leader_commit : ℕ

pub record AppendEntriesResponse : Type 0 where
  pub term : ℕ
  pub success : Bool
  pub last_log_index : ℕ
  pub conflict_index : ℕ
  pub conflict_term : ℕ
