-- ===== src/Raft/Worker/Rounds.antt =====
-- The loop of `Run` of src/raft/raft.cpp as steps of the node.
use my_etcd.Base.{ℕ, Option, none, some, nat_key}
use my_etcd.Raft.Messages.{RequestVoteRequest, AppendEntriesRequest}
use my_etcd.Raft.Node.{RaftNode}
use my_etcd.Raft.Vote.{VoteRpc}
use my_etcd.Raft.Replicate.{AppendRpc}
use my_etcd.Raft.Steps.{NodeReach}

-- While a request for a vote waits, the node's other threads take steps.
abbrev pub VotesWait : Option VoteRpc → Type 0
VotesWait none = Unit
VotesWait (some send) =
    (peer : ℕ) (req : RequestVoteRequest) (n : RaftNode) → NodeReach n (send peer req n).0

abbrev pub EntriesWait : Option AppendRpc → Type 0
EntriesWait none = Unit
EntriesWait (some send) =
    (peer : ℕ) (req : AppendEntriesRequest) (n : RaftNode) → NodeReach n (send peer req n).0
