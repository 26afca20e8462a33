-- ===== src/Raft/Vote/Election.antt =====
-- Elections: who becomes leader, and what an election that is overtaken by a later term does.
use my_etcd.Base.{
  ℕ, suc, ◌+◌, ◌*◌, ◌<◌, ◌≤◌, ◌≡◌, ◌≢◌, refl, Bool, true, false, List, [], ◌∷◌, Option, none, some,
  arith, ◌∙◌, ltb, leb, ◌==◌, if◌then◌else◌, ap, length, length-map,
}
use my_etcd.Types.{NodeState}
use my_etcd.Raft.Messages.{RequestVoteRequest, RequestVoteResponse}
use my_etcd.Raft.Node.{RaftNode, ids, become_follower, become_leader}
use my_etcd.Raft.Vote.{
  VoteRpc, log_ok, handle_request_vote, undisturbed, cast_vote, gather_votes, conclude,
  start_election, vote_request, majority,
}

abbrev pub count_granted : (ℕ → RequestVoteResponse) → List ℕ → ℕ
count_granted answer [] = 0
count_granted answer (p ∷ ps) =
    let rest = count_granted answer ps in if (answer p).vote_granted then suc rest else rest

-- Some answer has a later term than `term`.
abbrev pub some_later : (ℕ → RequestVoteResponse) → ℕ → List ℕ → Bool
some_later answer term [] = false
some_later answer term (p ∷ ps) =
    let rest = some_later answer term ps in if ltb term (answer p).term then true else rest

length-ids : (n : RaftNode) → length (ids n.peers) ≡ length n.peers
length-ids n = length-map n.peers (λ p. p.0)

gather-quiet :
    (answer : ℕ → RequestVoteResponse) (req : RequestVoteRequest) (ps : List ℕ) (votes : ℕ)
    (n : RaftNode)
    → some_later answer n.current_term ps ≡ false
    → gather_votes (λ p r m. (m, answer p)) req ps votes n
      ≡ (n, some (votes + count_granted answer ps))
unfolding gather_votes
gather-quiet answer req [] votes n none_later = ground arith
gather-quiet answer req (p ∷ ps) votes n none_later =
    ground (arith, gather-quiet answer req ps votes n, gather-quiet answer req ps (suc votes) n)

gather-later :
    (answer : ℕ → RequestVoteResponse) (req : RequestVoteRequest) (ps : List ℕ) (votes : ℕ)
    (n : RaftNode)
    → some_later answer n.current_term ps ≡ true
    → ((gather_votes (λ p r m. (m, answer p)) req ps votes n).1 ≡ none)
      × ((gather_votes (λ p r m. (m, answer p)) req ps votes n).0.state ≡ NodeState.follower)
      × (n.current_term < (gather_votes (λ p r m. (m, answer p)) req ps votes n).0.current_term)
unfolding gather_votes become_follower
gather-later answer req [] votes n some_is = cc
gather-later answer req (p ∷ ps) votes n some_is =
    ground (arith, gather-later answer req ps votes n, gather-later answer req ps (suc votes) n)

conclude-none : (needed : ℕ) (r : RaftNode × Option ℕ) → r.1 ≡ none → conclude needed r ≡ r.0
unfolding conclude
conclude-none needed (n, none) h = refl
conclude-none needed (n, some v) h = cc

election_of :
    (send : VoteRpc) (n : RaftNode)
    → 0 < length n.peers
    → start_election (some send) n
      ≡ conclude (majority (length n.peers)) (gather_votes send (vote_request n) (ids n.peers) 1 n)
unfolding start_election
election_of send n peers_there =
    let nonempty : (length n.peers == 0) ≡ false = ground arith in rw nonempty

-- An election of a node with peers, while no other thread changes the node: if no answer has a later
-- term, the node becomes leader when its own vote and the granted ones are more than half of the
-- cluster, and is unchanged otherwise; if one has, the node is a follower of a later term.
pub start_election_quiet :
    (answer : ℕ → RequestVoteResponse) (n : RaftNode)
    → 0 < length n.peers
    → let m = start_election (some (λ p r k. (k, answer p))) n in
      let granted = count_granted answer (ids n.peers) in
      (some_later answer n.current_term (ids n.peers) ≡ false
        → (length n.peers + 1 < 2 * (1 + granted) → m ≡ become_leader n)
          × (2 * (1 + granted) ≤ length n.peers + 1 → m ≡ n))
      × (some_later answer n.current_term (ids n.peers) ≡ true
          → (m.state ≡ NodeState.follower) × (n.current_term < m.current_term))
unfolding conclude
start_election_quiet answer n peers_there = (
  (λ none_later.
      let counted : start_election (some (λ p r k. (k, answer p))) n ≡ (
          if leb (majority (length n.peers)) (1 + count_granted answer (ids n.peers))
          then become_leader n
          else n) =
        election_of (λ p r k. (k, answer p)) n peers_there
        ∙ ap (conclude (majority (length n.peers)))
            (gather-quiet answer (vote_request n) (ids n.peers) 1 n none_later) in
      (λ more. counted ∙ ground arith, λ fewer. counted ∙ ground arith)),
  (λ some_is.
      let r = gather-later answer (vote_request n) (ids n.peers) 1 n some_is in
      let ended =
        election_of (λ p r k. (k, answer p)) n peers_there
        ∙ conclude-none (majority (length n.peers))
            (gather_votes (λ p r k. (k, answer p)) (vote_request n) (ids n.peers) 1 n) r.0 in
      rw ended (r.1, r.2)),
)

-- An election that is overtaken: while node n of a cluster of three waits for the answer of peer a, it
-- handles a vote request of a later term, from a candidate whose log is new enough.
abbrev pub overtaken : ℕ → RequestVoteRequest → (ℕ → RequestVoteResponse) → VoteRpc
overtaken a req answer p r n =
    (if p == a then (handle_request_vote undisturbed req n).0 else n, answer p)

overtaken-handled :
    (n : RaftNode) (req : RequestVoteRequest)
    → n.current_term < req.term
    → log_ok req n ≡ true
    → ((handle_request_vote undisturbed req n).0.current_term ≡ req.term)
      × ((handle_request_vote undisturbed req n).0.voted_for ≡ req.candidate_id)
unfolding handle_request_vote cast_vote become_follower
overtaken-handled n req later newer = ground arith

overtaken-gather :
    (n : RaftNode) (a b : ℕ) (own req : RequestVoteRequest) (answer : ℕ → RequestVoteResponse)
    → a ≢ b
    → (handle_request_vote undisturbed req n).0.current_term ≡ req.term
    → (answer a).vote_granted ≡ true
    → (answer a).term ≤ req.term
    → (answer b).term ≤ req.term
    → gather_votes (overtaken a req answer) own (a ∷ b ∷ []) 1 n
      ≡ ((handle_request_vote undisturbed req n).0, some (if (answer b).vote_granted then 3 else 2))
unfolding gather_votes
overtaken-gather n a b own req answer distinct term granted ta tb = ground arith

-- In a cluster of three, let a candidate's peers both answer with terms at most that of a later
-- request, the first granting its vote, and let the node handle that later vote request, of a
-- candidate whose log is new enough, while it waits for the first peer's answer. Then the election
-- makes the node leader of the later term, in which it has voted for the other candidate.
pub overtaken_election :
    (n : RaftNode) (a b : ℕ) (req : RequestVoteRequest) (answer : ℕ → RequestVoteResponse)
    → n.peers ≡ (a, tt) ∷ (b, tt) ∷ []
    → a ≢ b
    → n.current_term < req.term
    → log_ok req n ≡ true
    → (answer a).vote_granted ≡ true
    → (answer a).term ≤ req.term
    → (answer b).term ≤ req.term
    → let m = start_election (some (overtaken a req answer)) n in
      (m.state ≡ NodeState.leader) × (m.current_term ≡ req.term) × (m.voted_for ≡ req.candidate_id)
unfolding become_leader
overtaken_election n a b req answer two distinct later newer granted ta tb =
    let h = overtaken-handled n req later newer in rw elected (refl, h.0, h.1)
  where
    handled : RaftNode
    handled = (handle_request_vote undisturbed req n).0

    three : ℕ
    three = majority (length n.peers)

    enough :
        conclude three (handled, some (if (answer b).vote_granted then 3 else 2))
        ≡ become_leader handled
    enough = unfold conclude in ground (arith, ap length two)

    elected : start_election (some (overtaken a req answer)) n ≡ become_leader handled
    elected =
        election_of (overtaken a req answer) n (ground (arith, ap length two))
        ∙ ap (λ ps. conclude three (gather_votes (overtaken a req answer) (vote_request n) ps 1 n))
            (ap ids two)
        ∙ ap (conclude three) (
            overtaken-gather n a b (vote_request n) req answer distinct
              (overtaken-handled n req later newer).0 granted ta tb)
        ∙ enough
