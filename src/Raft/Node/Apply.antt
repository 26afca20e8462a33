-- ===== src/Raft/Node/Apply.antt =====
-- `ApplyCommittedEntries` and the membership changes: what they touch, and what they deliver.
use my_etcd.Base.{
  ℕ, ◌+◌, ◌<◌, ◌≤◌, ◌≡◌, refl, ap, sym, ◌∙◌, Bool, true, false, arith, ltb, ◌==◌, if◌then◌else◌,
  Bool-cases, inl, inr, List, [], ◌∷◌, ◌++◌, none, get_elem?, add64, min, max, nat_key, append-nil,
}
use my_etcd.OrdMap.{has_key, OrdMap}
use my_etcd.Types.{RaftEntry, ConfChange, ConfChangeType, EventType}
use my_etcd.Raft.Log.{entry_at}
use my_etcd.Raft.Log.Contiguous.{IsWf, next_index_of}
use my_etcd.Raft.Log.Access.{slice-entry_at}
use my_etcd.Raft.Node.{
  RaftNode, apply_conf_change, apply_conf_changes, apply_if_conf, apply_by_type, add_peer,
  remove_peer, apply_committed_entries, to_apply, call_ready, loses_quorum, IdSet, HandlerCall,
  ready, call, is_leader,
}

-- `m` has the log, the term, the vote, the role and the progress of `n`; the peers may differ.
pub record SameCore (n m : RaftNode) : Type 0 where
  pub node_id : m.node_id ≡ n.node_id
  pub term : m.current_term ≡ n.current_term
  pub vote : m.voted_for ≡ n.voted_for
  pub log : m.log ≡ n.log
  pub commit : m.commit_index ≡ n.commit_index
  pub applied : m.last_applied ≡ n.last_applied
  pub state : m.state ≡ n.state
  pub leader : m.leader_id ≡ n.leader_id
  pub pending : m.pending_committed ≡ n.pending_committed
  pub batch : m.batch_buffer ≡ n.batch_buffer

pub SameCore-refl : (n : RaftNode) → SameCore n n
SameCore-refl n = record {
  node_id = refl;
  term = refl;
  vote = refl;
  log = refl;
  commit = refl;
  applied = refl;
  state = refl;
  leader = refl;
  pending = refl;
  batch = refl;
}

SameCore-trans : (n m k : RaftNode) → SameCore n m → SameCore m k → SameCore n k
SameCore-trans n m k s t = record {
  node_id = t.node_id ∙ s.node_id;
  term = t.term ∙ s.term;
  vote = t.vote ∙ s.vote;
  log = t.log ∙ s.log;
  commit = t.commit ∙ s.commit;
  applied = t.applied ∙ s.applied;
  state = t.state ∙ s.state;
  leader = t.leader ∙ s.leader;
  pending = t.pending ∙ s.pending;
  batch = t.batch ∙ s.batch;
}

if-SameCore :
    (b : Bool) (n m k : RaftNode) → SameCore n m → SameCore n k → SameCore n (if b then m else k)
if-SameCore true n m k s t = s
if-SameCore false n m k s t = t

peers-SameCore :
    (n : RaftNode) (peers : IdSet) (next match : OrdMap ℕ ℕ)
    → SameCore n (record n { peers = peers; next_index = next; match_index = match })
peers-SameCore n peers next match = record {
  node_id = refl;
  term = refl;
  vote = refl;
  log = refl;
  commit = refl;
  applied = refl;
  state = refl;
  leader = refl;
  pending = refl;
  batch = refl;
}

call-SameCore : (c : HandlerCall) (n m : RaftNode) → SameCore n m → SameCore n (call c m)
call-SameCore c n m s = record {
  node_id = s.node_id;
  term = s.term;
  vote = s.vote;
  log = s.log;
  commit = s.commit;
  applied = s.applied;
  state = s.state;
  leader = s.leader;
  pending = s.pending;
  batch = s.batch;
}

by_type-SameCore :
    (t : ConfChangeType) (change : ConfChange) (n : RaftNode)
    → SameCore n (apply_by_type t change n)
unfolding apply_by_type add_peer remove_peer
by_type-SameCore ConfChangeType.add_node change n =
    if-SameCore (has_key change.node_id n.peers) n n _ (SameCore-refl n) (
      call-SameCore _ n _ (
        if-SameCore (is_leader n) n _ _ (peers-SameCore n _ _ _)
          (peers-SameCore n _ n.next_index n.match_index)))
by_type-SameCore ConfChangeType.remove_node change n =
    if-SameCore _ n n _ (SameCore-refl n)
      (if-SameCore _ n n _ (SameCore-refl n) (call-SameCore _ n _ (peers-SameCore n _ _ _)))
by_type-SameCore (ConfChangeType.unknown t) change n = SameCore-refl n

pub conf_change-SameCore :
    (change : ConfChange) (n : RaftNode) → SameCore n (apply_conf_change change n)
unfolding apply_conf_change
conf_change-SameCore change n =
    if-SameCore (change.node_id == 0) n n _ (SameCore-refl n)
      (by_type-SameCore change.type change n)

if_conf-SameCore :
    (t : EventType) (change : ConfChange) (n : RaftNode) → SameCore n (apply_if_conf t change n)
unfolding apply_if_conf
if_conf-SameCore EventType.conf_change change n = conf_change-SameCore change n
if_conf-SameCore _ change n = SameCore-refl n

-- Membership changes leave the log, the term, the vote, the role and the progress as they are.
pub conf_changes-SameCore :
    (es : List RaftEntry) (n : RaftNode) → SameCore n (apply_conf_changes es n)
unfolding apply_conf_changes
conf_changes-SameCore [] n = SameCore-refl n
conf_changes-SameCore (e ∷ es) n =
    let m = apply_if_conf e.type e.conf_change n in
    SameCore-trans n m _ (if_conf-SameCore e.type e.conf_change n) (conf_changes-SameCore es m)

-- What a call of `ApplyCommittedEntries` leaves.
pub record Applied (n m : RaftNode) : Type 0 where
  pub log : m.log ≡ n.log
  pub term : m.current_term ≡ n.current_term
  pub vote : m.voted_for ≡ n.voted_for
  pub state : m.state ≡ n.state
  pub leader : m.leader_id ≡ n.leader_id
  pub commit : m.commit_index ≡ n.commit_index
  pub applied : m.last_applied ≡ max n.last_applied n.commit_index
  pub pending :
      m.pending_committed
      ≡ n.pending_committed ++ (if ltb n.last_applied n.commit_index then to_apply n else [])

ready-SameCore : (es : List RaftEntry) (n : RaftNode) → SameCore n (call_ready es n)
ready-SameCore [] n = SameCore-refl n
ready-SameCore (e ∷ es) n = call-SameCore (ready (e ∷ es)) n n (SameCore-refl n)

-- `ApplyCommittedEntries` appends the newly committed entries, and nothing else, to those that wait to
-- be fetched, raises `last_applied` to the commit index, and leaves the log, the term, the vote and the
-- role as they are.
pub apply_committed_entries_lem : (n : RaftNode) → Applied n (apply_committed_entries n)
unfolding apply_committed_entries
apply_committed_entries_lem n = elim (Bool-cases (ltb n.last_applied n.commit_index)) [
  | inr none_new ↦ rw none_new (record {
    log = refl;
    term = refl;
    vote = refl;
    state = refl;
    leader = refl;
    commit = refl;
    applied = ground arith;
    pending = nothing none_new;
  })
  | inl some_new ↦ rw some_new (record {
    log = r.log ∙ c.log;
    term = r.term ∙ c.term;
    vote = r.vote ∙ c.vote;
    state = r.state ∙ c.state;
    leader = r.leader ∙ c.leader;
    commit = r.commit ∙ c.commit;
    applied = r.applied ∙ ground arith;
    pending = r.pending ∙ ap (λ xs. xs ++ to_apply n) c.pending ∙ newly some_new;
  })
]
  where
    newly :
        ltb n.last_applied n.commit_index ≡ true
        → n.pending_committed ++ to_apply n
          ≡ n.pending_committed ++ (if ltb n.last_applied n.commit_index then to_apply n else [])
    newly e = rw e

    nothing :
        ltb n.last_applied n.commit_index ≡ false
        → n.pending_committed
          ≡ n.pending_committed ++ (if ltb n.last_applied n.commit_index then to_apply n else [])
    nothing e = rw e (sym (append-nil n.pending_committed))

    confs : RaftNode
    confs = apply_conf_changes (to_apply n) n

    c : SameCore n confs
    c = conf_changes-SameCore (to_apply n) n

    delivered : RaftNode
    delivered = record confs {
      pending_committed = confs.pending_committed ++ to_apply n;
      last_applied = n.commit_index;
    }

    r : SameCore delivered (call_ready (to_apply n) delivered)
    r = ready-SameCore (to_apply n) delivered

-- On a well-formed log that holds every index after `last_applied` up to the commit index, the newly
-- committed entries are those at these indices in order: element j of what a call delivers is the
-- log's entry at last_applied + 1 + j.
pub to_apply-entry_at :
    (n : RaftNode) (j : ℕ)
    → IsWf n.log
    → n.log.first_index ≤ n.last_applied + 1
    → n.last_applied ≤ n.commit_index
    → n.commit_index < next_index_of n.log
    → get_elem? (to_apply n) j ≡ (
        if ltb (n.last_applied + j) n.commit_index
        then entry_at n.log (n.last_applied + 1 + j)
        else none)
to_apply-entry_at n j w from le upto =
    let start : max (add64 n.last_applied 1) n.log.first_index ≡ n.last_applied + 1 =
      omega (arith, w.fits) in
    let end : min (add64 n.commit_index 1) (next_index_of n.log) ≡ n.commit_index + 1 =
      omega (arith, w.fits) in
    slice-entry_at n.log (add64 n.last_applied 1) (add64 n.commit_index 1) j w
    ∙ rw (start, end) (ground arith)

-- The test that should keep a majority when a node is removed never fires, whatever the cluster's size.
pub loses_quorum-never : (peer_count : ℕ) → loses_quorum peer_count ≡ false
unfolding loses_quorum
loses_quorum-never peer_count = ground arith
