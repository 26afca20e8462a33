-- ===== src/Raft/Vote/Votes.antt =====
-- Votes of a node among the steps of its other threads: `HandleRequestVote` of src/raft/raft.cpp.
use my_etcd.Base.{
  ℕ, ◌<◌, ◌≡◌, ◌≢◌, true, arith, sym, ◌∙◌, ltb, Bool-cases, inl, inr, ◌==◌, if◌then◌else◌, nat_key,
}
use my_etcd.Types.{no_node_id}
use my_etcd.Raft.Messages.{RequestVoteRequest}
use my_etcd.Raft.Node.{RaftNode, become_follower}
use my_etcd.Raft.Vote.{handle_request_vote, cast_vote, vote_after, log_ok, undisturbed}
use my_etcd.Raft.Steps.{NodeReach, NodeReach-trans, here, next, follows, casts}
use my_etcd.Raft.Safety.{reach-Advances}

granted_vote :
    (req : RequestVoteRequest) (term : ℕ) (n : RaftNode)
    → (cast_vote req term n).1.vote_granted ≡ true
    → (cast_vote req term n).0.voted_for ≡ req.candidate_id
unfolding cast_vote
granted_vote req term n h = ground arith

answered_term :
    (req : RequestVoteRequest) (term : ℕ) (n : RaftNode)
    → ((cast_vote req term n).1.term ≡ term)
      × ((cast_vote req term n).0.current_term ≡ n.current_term)
unfolding cast_vote
answered_term req term n = ground arith

-- Whatever steps its threads take in between (a step to candidate while the next term fits 64 bits), a node never
-- grants its vote to two candidates with answers of one term, if each vote is cast while that term still is the
-- node's current one: after a vote for a candidate whose id is not 0, the id that stands for no node, another vote
-- is for the same candidate.
pub vote_once :
    (first second : RequestVoteRequest) (term : ℕ) (n m : RaftNode)
    → first.candidate_id ≢ no_node_id
    → n.current_term ≡ term
    → (cast_vote first term n).1.vote_granted ≡ true
    → NodeReach (cast_vote first term n).0 m
    → m.current_term ≡ term
    → (cast_vote second term m).1.vote_granted ≡ true
    → second.candidate_id ≡ first.candidate_id
vote_once first second term n m named before granted r still again =
    let same =
      (answered_term second term m).1 ∙ still ∙ sym before ∙ sym (answered_term first term n).1 in
    sym (granted_vote second term m again)
    ∙ (reach-Advances (next r (casts second term))).vote same
        (λ z. named (sym (granted_vote first term n granted) ∙ z))
    ∙ granted_vote first term n granted

-- What other threads do is steps.
abbrev pub AreSteps : (ℕ → RaftNode → RaftNode) → Type 0
AreSteps meanwhile = (access : ℕ) (n : RaftNode) → NodeReach n (meanwhile access n)

-- Handling a vote request is a sequence of steps of the node, with those of the other threads among them.
pub handle_request_vote-NodeReach :
    (meanwhile : ℕ → RaftNode → RaftNode) (req : RequestVoteRequest) (n : RaftNode)
    → AreSteps meanwhile
    → NodeReach n (handle_request_vote meanwhile req n).0
unfolding handle_request_vote
handle_request_vote-NodeReach meanwhile req n steps =
    elim (Bool-cases (ltb req.term (meanwhile 1 n).current_term)) [
      | inl stale ↦ rw stale (steps 1 n)
      | inr fresh ↦ rw fresh (elim (Bool-cases (ltb third.current_term req.term)) [
        | inl later ↦ rw later (
            vote (become_follower req.term (meanwhile 3 third)) req.term
              (next (NodeReach-trans to_third (steps 3 third)) (follows req.term)))
        | inr same ↦ rw same (vote third n.current_term to_third)
      ])
    ]
  where
    third : RaftNode
    third = meanwhile 2 (meanwhile 1 n)

    to_third : NodeReach n third
    to_third = NodeReach-trans (steps 1 n) (steps 2 (meanwhile 1 n))

    vote :
        (m : RaftNode) (term : ℕ)
        → NodeReach n m
        → NodeReach n (vote_after meanwhile req (m, term)).0
    vote m term r = next (NodeReach-trans r (steps 4 m)) (casts req term)

-- Another thread learns of a later term just before the handler takes the mutex for the vote.
abbrev pub overtaking : ℕ → ℕ → RaftNode → RaftNode
overtaking later access n = if access == 4 then become_follower later n else n

overtaking-AreSteps : (later : ℕ) → AreSteps (overtaking later)
overtaking-AreSteps later access n = elim (Bool-cases (access == 4)) [
  | inl last ↦ rw last (next here (follows later))
  | inr earlier ↦ rw earlier here
]

vote_overtaken :
    (later : ℕ) (req : RequestVoteRequest) (n : RaftNode)
    → n.current_term ≡ req.term
    → req.term < later
    → log_ok req n ≡ true
    → let (m, answer) = handle_request_vote (overtaking later) req n in
      (answer.vote_granted ≡ true) × (answer.term ≡ req.term)
unfolding handle_request_vote cast_vote become_follower log_ok
vote_overtaken later req n same above newer = ground arith

vote_undisturbed :
    (req : RequestVoteRequest) (n : RaftNode)
    → n.current_term ≡ req.term
    → n.voted_for ≡ no_node_id
    → log_ok req n ≡ true
    → let (m, answer) = handle_request_vote undisturbed req n in
      (answer.vote_granted ≡ true)
      × (answer.term ≡ req.term)
      × (m.current_term ≡ req.term)
      × (m.log ≡ n.log)
unfolding handle_request_vote cast_vote
vote_undisturbed req n same free newer = ground arith

log_ok-log :
    (req : RequestVoteRequest) (n m : RaftNode)
    → m.log ≡ n.log
    → log_ok req n ≡ true
    → log_ok req m ≡ true
unfolding log_ok
log_ok-log req n m same newer = rw same newer

-- A node gives its vote of one term to two candidates, whichever they are: it has not voted yet in the term of their
-- requests, both candidates' logs are new enough, and while it handles the second request, behind the comparison of
-- the terms, another of its threads follows a later term. Both answers grant the vote in the requests' term, and all
-- this is a sequence of steps of the node.
pub votes_twice :
    (first second : RequestVoteRequest) (later : ℕ) (n : RaftNode)
    → second.term ≡ first.term
    → first.term < later
    → n.current_term ≡ first.term
    → n.voted_for ≡ no_node_id
    → log_ok first n ≡ true
    → log_ok second n ≡ true
    → let (m, answer) = handle_request_vote undisturbed first n in
      let (k, again) = handle_request_vote (overtaking later) second m in
      (answer.vote_granted ≡ true)
      × (answer.term ≡ first.term)
      × (again.vote_granted ≡ true)
      × (again.term ≡ first.term)
      × NodeReach n k
votes_twice first second later n one_term above same free newer newer' =
    let u = vote_undisturbed first n same free newer in
    let m = (handle_request_vote undisturbed first n).0 in
    let o =
      vote_overtaken later second m (u.2 ∙ sym one_term) (omega (arith, one_term, above))
        (log_ok-log second n m u.3 newer') in
    (
      u.0,
      u.1,
      o.0,
      o.1 ∙ one_term,
      NodeReach-trans (handle_request_vote-NodeReach undisturbed first n (λ access x. here))
          (handle_request_vote-NodeReach (overtaking later) second m (overtaking-AreSteps later)),
    )
