-- ===== src/Raft/Worker.antt =====
-- src/raft/raft.cpp: `Run`, the loop of the node's own thread. `meanwhile` is what other threads do to the node in
-- a round's wait, and `running` what `running_` is when the wait ends.
pub mod Rounds
use my_etcd.Base.{Bool, Option, if◌then◌else◌}
use my_etcd.Types.{NodeState}
use my_etcd.Raft.Node.{RaftNode, become_follower, become_candidate, apply_committed_entries}
use my_etcd.Raft.Vote.{VoteRpc, start_election}
use my_etcd.Raft.Replicate.{AppendRpc, broadcast_heartbeat, advance_commit_index}

-- In front of the loop.
abbrev pub run_start : RaftNode → RaftNode
run_start n = become_follower 0 n

module _ (votes : Option VoteRpc) (entries : Option AppendRpc) (meanwhile : RaftNode → RaftNode)
    (running : Bool) where
  -- A follower's wait ends only by its time or by a stop.
  abbrev pub run_case : NodeState → RaftNode → RaftNode
  run_case NodeState.follower n = let m = meanwhile n in if running then become_candidate m else m
  run_case NodeState.candidate n = meanwhile (start_election votes n)
  run_case NodeState.leader n =
      meanwhile (apply_committed_entries (advance_commit_index (broadcast_heartbeat entries n)))

  -- A round of the loop, which is entered while `running_` is set.
  unfoldable pub run_round : RaftNode → RaftNode
  unfolding start_election broadcast_heartbeat advance_commit_index
  run_round n = run_case n.state n
