-- ===== src/Tests/RaftTests.antt =====
-- The theorems of a node at a cluster of three.
use my_etcd.Base.{◌<◌, ◌≡◌, refl, arith, [], some, inr, true, nat_key, ◌⊎◌, ◌∷◌}
use my_etcd.Types.{NodeState}
use my_etcd.Raft.Log.{last_index, last_term, term_at}
use my_etcd.Raft.Log.Contiguous.{next_index_of}
use my_etcd.Raft.Node.{
  RaftNode, become_follower, become_candidate, become_leader, propose, accepted,
}
use my_etcd.Raft.Node.Proposals.{propose_after_snapshot, elected_after}
use my_etcd.Raft.Vote.{handle_request_vote, undisturbed, cast_vote, log_ok, start_election}
use my_etcd.Raft.Vote.Votes.{vote_once, votes_twice, overtaking}
use my_etcd.Raft.Vote.Election.{start_election_quiet, overtaken_election, overtaken}
use my_etcd.Raft.Replicate.{handle_append_entries, prev_differs, advance_commit_index}
use my_etcd.Raft.Replicate.Commit.{Commits, advance_commit_index_lem, commit_alone}
use my_etcd.Raft.Replicate.Follower.{handle_append_entries_stores, handle_append_entries_uncommits}
use my_etcd.Raft.Node.{become_follower}
use my_etcd.Raft.Steps.{here, next, campaigns, casts, Advances}
use my_etcd.Raft.Safety.{reach-Advances}
use my_etcd.Tests.States.{
  entry_of, log3-IsWf, node3, leader3, vote_for, grant_of, append_after, snapshot5,
}

abbrev in_term_3 : RaftNode
in_term_3 = record node3 { current_term = 3 }

-- Candidate 2 gets the vote, candidate 3 is refused, and candidate 2 asks again.
vote_once_example : (vote_for 2).candidate_id ≡ (vote_for 2).candidate_id
unfolding cast_vote log_ok last_term last_index
vote_once_example =
    vote_once (vote_for 2) (vote_for 2) 3 in_term_3 _ (omega arith) refl refl
      (next here (casts (vote_for 3) 3)) refl refl

votes_twice_example :
    (handle_request_vote
      (overtaking 4)
      (vote_for 3)
      (handle_request_vote undisturbed (vote_for 2) in_term_3).0).1.vote_granted
    ≡ true
unfolding log_ok last_term last_index
votes_twice_example =
    (votes_twice (vote_for 2) (vote_for 3) 4 in_term_3 refl (omega arith) refl refl refl refl).2

reach-Advances_example : Advances node3 (become_candidate node3)
reach-Advances_example = reach-Advances (next here (campaigns (omega arith)))

handle_append_entries_stores_example :
    next_index_of (handle_append_entries (append_after 2 1 2) node3).0.log ≡ 4
unfolding prev_differs term_at
handle_append_entries_stores_example =
    (handle_append_entries_stores (append_after 2 1 2) node3 (entry_of 3 3) [] log3-IsWf
      (omega arith) refl (inr (omega arith)) refl (refl, tt) (omega arith)).4

handle_append_entries_uncommits_example :
    last_index
      (handle_append_entries (append_after 1 1 0) (record node3 { commit_index = 3 })).0.log
    < 3
unfolding prev_differs term_at handle_append_entries become_follower
handle_append_entries_uncommits_example =
    (handle_append_entries_uncommits (append_after 1 1 0) (record node3 { commit_index = 3 })
      (entry_of 3 2) [] log3-IsWf (omega arith) refl (inr (omega arith)) refl (refl, tt)
      (omega arith) (omega arith) (omega arith)).2

advance_commit_index_lem_example :
    (advance_commit_index leader3 ≡ leader3) ⊎ Commits leader3 (advance_commit_index leader3)
advance_commit_index_lem_example = advance_commit_index_lem leader3

commit_alone_example : (advance_commit_index (propose (entry_of 0 0) leader3).0).commit_index ≡ 4
unfolding last_index
commit_alone_example =
    (commit_alone leader3 (entry_of 0 0) 2 3 refl log3-IsWf refl (omega arith) refl refl
      (omega arith) (omega arith)).0

start_election_quiet_example :
    start_election (some (λ p r k. (k, grant_of p))) node3 ≡ become_leader node3
start_election_quiet_example =
    ((start_election_quiet grant_of node3 (omega arith)).0 refl).0 (omega arith)

overtaken_election_example :
    (start_election (some (overtaken 2 (vote_for 3) grant_of)) node3).state ≡ NodeState.leader
unfolding log_ok last_index last_term
overtaken_election_example =
    (overtaken_election node3 2 3 (vote_for 3) grant_of refl (omega arith) (omega arith) refl refl
      (omega arith) (omega arith)).0

propose_after_snapshot_example :
    (propose (entry_of 0 0) (elected_after snapshot5 1 (1 ∷ 2 ∷ 3 ∷ []))).1 ≡ accepted 1
propose_after_snapshot_example =
    (propose_after_snapshot snapshot5 1 (1 ∷ 2 ∷ 3 ∷ []) (entry_of 0 0) (omega arith)
      (omega arith)).0

-- A follower that stays in touch with its leader, which its loop does not ask.
abbrev heard_leader : RaftNode → RaftNode
heard_leader n = (handle_append_entries (append_after 3 2 1) n).0
