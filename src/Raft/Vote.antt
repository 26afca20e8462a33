-- ===== src/Raft/Vote.antt =====
-- src/raft/raft.cpp: `HandleRequestVote` and `StartElection`.
pub mod Election
pub mod Votes
use my_etcd.Base.{
  ℕ, suc, ◌+◌, ◌/◌, Bool, true, false, List, [], ◌∷◌, Option, none, some, ltb, leb, ◌==◌, ◌&&◌,
  ◌||◌, if◌then◌else◌, length,
}
use my_etcd.Types.{no_node_id}
use my_etcd.Raft.Log.{last_index, last_term}
use my_etcd.Raft.Messages.{RequestVoteRequest, RequestVoteResponse}
use my_etcd.Raft.Node.{RaftNode, IdSet, ids, become_follower, become_leader}

-- The candidate's log is at least as new as the node's.
unfoldable pub log_ok : RequestVoteRequest → RaftNode → Bool
log_ok req n =
    ltb (last_term n.log) req.last_log_term
    || (req.last_log_term == last_term n.log && leb (last_index n.log) req.last_log_index)

-- The part under the mutex: check `voted_for_`, then record the vote. The answer has the term that was found
-- before the mutex was taken; the current term is not compared with it again.
unfoldable pub cast_vote : RequestVoteRequest → ℕ → RaftNode → RaftNode × RequestVoteResponse
unfolding log_ok
cast_vote req term n =
    if (n.voted_for == no_node_id || n.voted_for == req.candidate_id) && log_ok req n
    then (record n { voted_for = req.candidate_id }, record { term = term; vote_granted = true })
    else (n, record { term = term; vote_granted = false })

-- `HandleRequestVote` reads the current term three times and may become follower before it takes the mutex for
-- the vote. `meanwhile` is what other threads do in front of each later access: to the second reading, to the
-- third, to the change to follower, and to the vote.
module _ (meanwhile : ℕ → RaftNode → RaftNode) (req : RequestVoteRequest) where
  abbrev pub catch_up : ℕ → RaftNode → RaftNode × ℕ
  catch_up term n =
      if ltb n.current_term req.term
      then (become_follower req.term (meanwhile 3 n), req.term)
      else (n, term)

  abbrev pub vote_after : RaftNode × ℕ → RaftNode × RequestVoteResponse
  vote_after (n, term) = cast_vote req term (meanwhile 4 n)

  unfoldable pub handle_request_vote : RaftNode → RaftNode × RequestVoteResponse
  unfolding cast_vote
  handle_request_vote n =
      let m = meanwhile 1 n in
      if ltb req.term m.current_term
      then (m, record { term = n.current_term; vote_granted = false })
      else vote_after (catch_up n.current_term (meanwhile 2 m))

-- No other thread changes the node.
abbrev pub undisturbed : ℕ → RaftNode → RaftNode
undisturbed access n = n

-- One synchronous RPC. Other threads of the node handle requests while it waits, so it also says
-- which state the node is in when the response arrives.
abbrev pub VoteRpc : Type 0
VoteRpc = ℕ → RequestVoteRequest → RaftNode → RaftNode × RequestVoteResponse

abbrev pub vote_request : RaftNode → RequestVoteRequest
vote_request n = record {
  term = n.current_term;
  candidate_id = n.node_id;
  last_log_index = last_index n.log;
  last_log_term = last_term n.log;
}

-- The loop over the peers: the votes, or `none` where a response of a later term ended the election.
unfoldable pub gather_votes :
    VoteRpc → RequestVoteRequest → List ℕ → ℕ → RaftNode → RaftNode × Option ℕ
gather_votes send req [] votes n = (n, some votes)
gather_votes send req (peer ∷ rest) votes n =
    let (m, resp) = send peer req n in
    let later = gather_votes send req rest (if resp.vote_granted then suc votes else votes) m in
    if ltb m.current_term resp.term then (become_follower resp.term m, none) else later

-- More than half of the cluster, which is the peers and the node itself.
abbrev pub majority : ℕ → ℕ
majority peer_count = (peer_count + 1) / 2 + 1

unfoldable pub conclude : ℕ → RaftNode × Option ℕ → RaftNode
conclude needed (n, none) = n
conclude needed (n, some votes) = if leb needed votes then become_leader n else n

-- With no transport no request is sent.
unfoldable pub gather_over :
    Option VoteRpc → RequestVoteRequest → List ℕ → RaftNode → RaftNode × Option ℕ
unfolding gather_votes
gather_over none req peers n = (n, some 1)
gather_over (some send) req peers n = gather_votes send req peers 1 n

unfoldable pub start_election : Option VoteRpc → RaftNode → RaftNode
unfolding conclude gather_over
start_election transport n =
    if length n.peers == 0
    then become_leader n
    else conclude (majority (length n.peers))
        (gather_over transport (vote_request n) (ids n.peers) n)
