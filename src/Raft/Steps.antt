-- ===== src/Raft/Steps.antt =====
-- The steps of a node of src/raft/raft.cpp, in any order, and what they keep: terms only rise, and a
-- vote stands for the rest of its term.
use my_etcd.Base.{
  ℕ, ◌+◌, ◌<◌, ◌≤◌, ◌^◌, ◌≡◌, ◌≢◌, refl, Bool, true, false, List, [], ◌∷◌, Option, none, some,
  arith, sym, ◌∙◌, if◌then◌else◌, min, nat_key,
}
use my_etcd.OrdMap.{insert}
use my_etcd.Raft.Log.{last_index}
use my_etcd.Types.{RaftEntry, ConfChange, Snapshot}
use my_etcd.Raft.Messages.{RequestVoteRequest, AppendEntriesRequest, AppendEntriesResponse}
use my_etcd.Raft.Node.{
  RaftNode, become_follower, become_candidate, become_leader, propose, propose_batch,
  propose_conf_change, flush_batch, flush_entries, apply_committed_entries, apply_snapshot,
  add_node, remove_node, get_committed_entries,
}
use my_etcd.Raft.Node.Apply.{apply_committed_entries_lem}
use my_etcd.Raft.Vote.{cast_vote}
use my_etcd.Raft.Replicate.{
  handle_append_entries, follow_commit, advance_commit_index, record_reply, record_success, touch,
  sent_index, next_after_reject, at,
}

-- One action of one of the node's threads. A vote request is up to two: the change to follower, and the vote.
pub data NodeStep (n : RaftNode) : RaftNode → Type 0 where
  follows : (term : ℕ) → NodeStep n (become_follower term n)
  campaigns : n.current_term + 1 < 2 ^ 64 → NodeStep n (become_candidate n)
  leads : NodeStep n (become_leader n)
  casts : (req : RequestVoteRequest) (term : ℕ) → NodeStep n (cast_vote req term n).0
  appends : (req : AppendEntriesRequest) → NodeStep n (handle_append_entries req n).0
  proposes : (e : RaftEntry) → NodeStep n (propose e n).0
  batches : (e : RaftEntry) → NodeStep n (propose_batch e n).0
  proposes_conf : (change : ConfChange) → NodeStep n (propose_conf_change change n).0
  flushes : NodeStep n (flush_batch n)
  touches : (peer : ℕ) → NodeStep n (record n { next_index = touch peer n.next_index })
  hears :
      (peer : ℕ) (sent : List RaftEntry) (resp : AppendEntriesResponse)
      → NodeStep n (record_reply peer sent resp n)
  commits : NodeStep n (advance_commit_index n)
  applies : NodeStep n (apply_committed_entries n)
  restores : (s : Snapshot) → NodeStep n (apply_snapshot s n)
  adds : (id : ℕ) → NodeStep n (add_node id n)
  removes : (id : ℕ) → NodeStep n (remove_node id n)
  drains : NodeStep n (get_committed_entries n).0

pub data NodeReach (n : RaftNode) : RaftNode → Type 0 where
  here : NodeReach n n
  next : {m k : RaftNode} → NodeReach n m → NodeStep m k → NodeReach n k

pub NodeReach-trans : {n m k : RaftNode} → NodeReach n m → NodeReach m k → NodeReach n k
NodeReach-trans r here = r
NodeReach-trans r (next s st) = next (NodeReach-trans r s) st

-- The term does not fall, and while it stays the same a vote that was cast stays cast.
pub record Advances (n m : RaftNode) : Type 0 where
  pub term : n.current_term ≤ m.current_term
  pub vote : m.current_term ≡ n.current_term → n.voted_for ≢ 0 → m.voted_for ≡ n.voted_for

-- Neither the term nor the vote changes.
pub record SameVote (n m : RaftNode) : Type 0 where
  pub term : m.current_term ≡ n.current_term
  pub vote : m.voted_for ≡ n.voted_for

pub SameVote-Advances : (n m : RaftNode) → SameVote n m → Advances n m
SameVote-Advances n m s = record { term = omega (arith, s.term); vote = λ _ _. s.vote }

pub SameVote-refl : (n : RaftNode) → SameVote n n
SameVote-refl n = record { term = refl; vote = refl }

pub SameVote-trans : (n m k : RaftNode) → SameVote n m → SameVote m k → SameVote n k
SameVote-trans n m k s t = record { term = t.term ∙ s.term; vote = t.vote ∙ s.vote }

pub Advances-trans : (n m k : RaftNode) → Advances n m → Advances m k → Advances n k
Advances-trans n m k a b = record {
  term = omega (arith, a.term, b.term);
  vote = λ e h.
      let back : m.current_term ≡ n.current_term = omega (arith, a.term, b.term) in
      let kept = a.vote back h in b.vote (e ∙ sym back) (λ z. h (sym kept ∙ z)) ∙ kept;
}

pub apply-SameVote : (n : RaftNode) → SameVote n (apply_committed_entries n)
apply-SameVote n = let a = apply_committed_entries_lem n in record { term = a.term; vote = a.vote }

pub flush-SameVote : (bs : List RaftEntry) (n : RaftNode) → SameVote n (flush_entries bs n)
unfolding flush_entries
flush-SameVote [] n = SameVote-refl n
flush-SameVote (b ∷ bs) n = record { term = refl; vote = refl }

pub follow-SameVote : (c : ℕ) (n : RaftNode) → SameVote n (follow_commit c n)
unfolding follow_commit
follow-SameVote c n =
    ground (arith, apply-SameVote (record n { commit_index = min c (last_index n.log) }))

pub reply-SameVote :
    (peer : ℕ) (sent : List RaftEntry) (resp : AppendEntriesResponse) (n : RaftNode)
    → SameVote n (record_reply peer sent resp n)
unfolding record_reply record_success
reply-SameVote peer sent resp n = go resp.success (sent_index sent)
  where
    go :
        (b : Bool) (s : Option ℕ)
        → SameVote n (
            if b then record_success peer s resp n else record n {
              next_index =
                  insert peer (next_after_reject n.log resp (at peer n.next_index)) n.next_index;
            })
    go true none = record { term = refl; vote = refl }
    go true (some i) = record { term = refl; vote = refl }
    go false s = record { term = refl; vote = refl }
