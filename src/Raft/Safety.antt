-- ===== src/Raft/Safety.antt =====
-- Terms and votes over any sequence of steps of a node: src/raft/raft.cpp.
use my_etcd.Base.{ℕ, Option, none, some, arith, ltb, Bool-cases, inl, inr}
use my_etcd.Raft.Messages.{RequestVoteRequest, AppendEntriesRequest}
use my_etcd.Raft.Node.{
  RaftNode, become_follower, become_candidate, become_leader, propose, propose_batch,
  propose_conf_change, flush_batch, apply_snapshot, add_node, remove_node, get_committed_entries,
  append_own, drop_peer,
}
use my_etcd.Raft.Vote.{cast_vote}
use my_etcd.Raft.Replicate.{
  handle_append_entries, accept_entries, store_entries, advance_commit_index, commit_to,
  majority_index, prev_differs,
}
use my_etcd.Raft.Steps.{
  NodeStep, follows, campaigns, leads, casts, appends, proposes, batches, proposes_conf, flushes,
  touches, hears, commits, applies, restores, adds, removes, drains, NodeReach, here, next,
  Advances, SameVote, SameVote-Advances, SameVote-refl, Advances-trans, apply-SameVote,
  flush-SameVote, follow-SameVote, reply-SameVote,
}

follower-Advances : (term : ℕ) (n : RaftNode) → Advances n (become_follower term n)
unfolding become_follower
follower-Advances term n = ground arith

vote-Advances :
    (req : RequestVoteRequest) (term : ℕ) (n : RaftNode) → Advances n (cast_vote req term n).0
unfolding cast_vote
vote-Advances req term n = ground arith

accept-SameVote : (req : AppendEntriesRequest) (n : RaftNode) → SameVote n (accept_entries req n).0
unfolding accept_entries
accept-SameVote req n =
    let s =
      follow-SameVote req.leader_commit (record n { log = store_entries req.entries n.log }) in
    record { term = s.term; vote = s.vote }

append-Advances :
    (req : AppendEntriesRequest) (n : RaftNode) → Advances n (handle_append_entries req n).0
unfolding handle_append_entries
append-Advances req n = elim (Bool-cases (ltb req.term n.current_term)) [
  | inl stale ↦ rw stale (SameVote-Advances n n (SameVote-refl n))
  | inr fresh ↦ elim (Bool-cases (prev_differs req m.log)) [
    | inl differ ↦ rw (fresh, differ) followed
    | inr match ↦
        rw (fresh, match)
          (Advances-trans n m _ followed (SameVote-Advances m _ (accept-SameVote req m)))
  ]
]
  where
    m : RaftNode
    m = record (become_follower req.term n) { leader_id = req.leader_id }

    followed : Advances n m
    followed = let a = follower-Advances req.term n in record { term = a.term; vote = a.vote }

commit_to-SameVote : (o : Option ℕ) (n : RaftNode) → SameVote n (commit_to o n)
unfolding commit_to
commit_to-SameVote none n = SameVote-refl n
commit_to-SameVote (some i) n = ground arith

commit-SameVote : (n : RaftNode) → SameVote n (advance_commit_index n)
unfolding advance_commit_index
commit-SameVote n = ground (arith, commit_to-SameVote (majority_index n) n)

pub step-Advances : {n m : RaftNode} → NodeStep n m → Advances n m
unfolding become_candidate become_leader propose propose_batch propose_conf_change apply_snapshot
    add_node remove_node drop_peer get_committed_entries append_own flush_batch
step-Advances {n} (follows term) = follower-Advances term n
step-Advances {n} (campaigns fits) = record {
  term = omega arith;
  vote = λ e h. absurd (omega (arith, e));
}
step-Advances {n} leads = ground arith
step-Advances {n} (casts req term) = vote-Advances req term n
step-Advances {n} (appends req) = append-Advances req n
step-Advances {n} (proposes e) = ground arith
step-Advances {n} (batches e) = ground arith
step-Advances {n} (proposes_conf change) = ground arith
step-Advances {n} flushes = SameVote-Advances n _ (flush-SameVote n.batch_buffer n)
step-Advances {n} (touches peer) = ground arith
step-Advances {n} (hears peer sent resp) = SameVote-Advances n _ (reply-SameVote peer sent resp n)
step-Advances {n} commits = SameVote-Advances n _ (commit-SameVote n)
step-Advances {n} applies = SameVote-Advances n _ (apply-SameVote n)
step-Advances {n} (restores s) = ground arith
step-Advances {n} (adds id) = ground arith
step-Advances {n} (removes id) = ground arith
step-Advances {n} drains = ground arith

-- Over any sequence of steps of a node, in which it becomes a candidate only while the next term
-- fits 64 bits, the current term never falls, and within one term a vote that has been cast is never
-- changed.
pub reach-Advances : {n m : RaftNode} → NodeReach n m → Advances n m
reach-Advances {n} here = SameVote-Advances n n (SameVote-refl n)
reach-Advances {n} (next {m} {k} r st) = Advances-trans n m k (reach-Advances r) (step-Advances st)
