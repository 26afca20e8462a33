-- ===== src/Raft/Replicate.antt =====
-- src/raft/raft.cpp: `HandleAppendEntries` of a follower, and `BroadcastHeartbeat` and
-- `AdvanceCommitIndex` of a leader.
pub mod Bisect
pub mod Follower
pub mod Commit
use my_etcd.Base.{
  ℕ, zero, suc, ◌+◌, ◌-◌, ◌/◌, Bool, true, false, not, List, [], ◌∷◌, map, Option, none, some, ltb,
  leb, ◌==◌, ◌&&◌, if◌then◌else◌, length, add64, sub64, min, max, get_elem?, take, last?,
  get_or_else, nat_key,
}
use my_etcd.OrdMap.{OrdMap, lookup, insert}
use my_etcd.Types.{RaftEntry, no_term, no_index}
use my_etcd.Raft.Log.{RaftLog, last_index, term_at, truncate_to, append_all, entries_from, index_or}
use my_etcd.Raft.Messages.{AppendEntriesRequest, AppendEntriesResponse}
use my_etcd.Raft.Node.{
  RaftNode, ids, is_leader, become_follower, flush_batch, apply_committed_entries,
}
use my_etcd.Raft.Vote.{majority}

-- `for (i = prev_log_index; i >= first_idx && i > 0; --i)`: the index after the first one, going
-- down, whose term differs; 0 where the loop ends without one.
unfoldable pub conflict_scan : RaftLog → ℕ → ℕ → ℕ
conflict_scan l conflict_term zero = 0
conflict_scan l conflict_term (suc i) =
    let below = conflict_scan l conflict_term i in
    if leb l.first_index (suc i)
    then (if not (term_at l (suc i) == conflict_term) then add64 (suc i) 1 else below)
    else 0

unfoldable pub conflict_index_of : RaftLog → ℕ → ℕ
unfolding conflict_scan
conflict_index_of l prev =
    let i = conflict_scan l (term_at l prev) prev in if i == 0 then l.first_index else i

unfoldable pub reject_conflict : AppendEntriesRequest → ℕ → RaftNode → AppendEntriesResponse
unfolding conflict_index_of
reject_conflict req last n = record {
  term = req.term;
  success = false;
  last_log_index = last;
  conflict_index = conflict_index_of n.log req.prev_log_index;
  conflict_term = term_at n.log req.prev_log_index;
}

unfoldable pub store_entries : List RaftEntry → RaftLog → RaftLog
store_entries [] l = l
store_entries (e ∷ es) l = append_all (truncate_to l (sub64 e.index 1)) (e ∷ es)

unfoldable pub follow_commit : ℕ → RaftNode → RaftNode
follow_commit leader_commit n =
    if ltb n.commit_index leader_commit
    then apply_committed_entries (record n { commit_index = min leader_commit (last_index n.log) })
    else n

unfoldable pub accept_entries : AppendEntriesRequest → RaftNode → RaftNode × AppendEntriesResponse
unfolding follow_commit store_entries
accept_entries req n =
    let m = follow_commit req.leader_commit (record n { log = store_entries req.entries n.log }) in
    (
      m,
      record {
        term = req.term;
        success = true;
        last_log_index = last_index m.log;
        conflict_index = 0;
        conflict_term = 0;
      },
    )

-- The log of the node does not have the entry that the new entries follow.
unfoldable pub prev_differs : AppendEntriesRequest → RaftLog → Bool
prev_differs req l =
    ltb 0 req.prev_log_index && not (term_at l req.prev_log_index == req.prev_log_term)

unfoldable pub handle_append_entries :
    AppendEntriesRequest → RaftNode → RaftNode × AppendEntriesResponse
unfolding prev_differs reject_conflict accept_entries
handle_append_entries req n =
    if ltb req.term n.current_term
    then (
      n,
      record {
        term = n.current_term;
        success = false;
        last_log_index = last_index n.log;
        conflict_index = 0;
        conflict_term = 0;
      },
    )
    else (let m = record (become_follower req.term n) { leader_id = req.leader_id } in
        if prev_differs req m.log
        then (m, reject_conflict req (last_index n.log) m)
        else accept_entries req m)

-- The first loop of `FindConflictTermIndex`, over `rounds` indices from `i` on.
unfoldable pub has_term : RaftLog → ℕ → ℕ → ℕ → Bool
has_term l term zero i = false
has_term l term (suc rounds) i =
    let later = has_term l term rounds (i + 1) in if term_at l i == term then true else later

-- Its second loop, a binary search. `hi - lo` falls in each round, so `hi - lo` is fuel enough.
unfoldable pub bisect : RaftLog → ℕ → ℕ → ℕ → ℕ → ℕ
bisect l term zero lo hi = lo
bisect l term (suc fuel) lo hi =
    let mid = lo + (hi - lo) / 2 in
    elim (ltb lo hi) [
      | true ↦ elim (ltb (term_at l mid) term) [
        | true ↦ bisect l term fuel (mid + 1) hi
        | false ↦ bisect l term fuel lo mid
      ]
      | false ↦ lo
    ]

unfoldable pub find_conflict_term_index : ℕ → ℕ → RaftLog → ℕ
unfolding has_term bisect
find_conflict_term_index term hint l =
    let first = l.first_index in
    let last = last_index l in
    if not (has_term l term (last + 1 - first) first)
    then (if ltb 0 hint then hint else 1)
    else (let result = bisect l term (last + 1 - first) first (last + 1) in
        if leb first result && (leb result last && (term_at l result == term))
        then result
        else if ltb 0 hint
        then hint
        else if ltb 0 first
        then first
        else 1)

-- `m[k]` inserts a 0 where the key is missing.
abbrev pub touch : ℕ → OrdMap ℕ ℕ → OrdMap ℕ ℕ
touch k m = elim (lookup k m) [ none ↦ insert k 0 m | some v ↦ m ]

abbrev pub at : ℕ → OrdMap ℕ ℕ → ℕ
at k m = get_or_else (lookup k m) 0

abbrev pub max_entries_per_msg : ℕ
max_entries_per_msg = 128

abbrev pub append_request : RaftNode → ℕ → ℕ → AppendEntriesRequest
append_request n commit prev = record {
  term = n.current_term;
  leader_id = n.node_id;
  prev_log_index = prev;
  prev_log_term = term_at n.log prev;
  entries = take max_entries_per_msg (entries_from n.log (add64 prev 1) 0);
  leader_commit = commit;
}

-- `if (next_index_[peer] > 1) next_index_[peer]--;`
abbrev pub step_back : ℕ → ℕ
step_back next = if ltb 1 next then next - 1 else next

-- Where to go on after a rejection.
unfoldable pub next_after_reject : RaftLog → AppendEntriesResponse → ℕ → ℕ
next_after_reject l resp next =
    if ltb 0 resp.conflict_term
    then (let new_next = find_conflict_term_index resp.conflict_term resp.conflict_index l in
        if ltb 0 new_next && ltb new_next next
        then new_next
        else if ltb 0 resp.conflict_index && ltb resp.conflict_index next
        then resp.conflict_index
        else step_back next)
    else if ltb 0 resp.conflict_index
    then (if ltb resp.conflict_index next then resp.conflict_index else step_back next)
    else step_back next

abbrev pub sent_index : List RaftEntry → Option ℕ
sent_index es = elim (last? es) [ none ↦ none | some e ↦ some e.index ]

unfoldable pub record_success : ℕ → Option ℕ → AppendEntriesResponse → RaftNode → RaftNode
record_success peer (some sent) resp n = record n {
  match_index = insert peer sent n.match_index;
  next_index = insert peer (add64 sent 1) n.next_index;
}
record_success peer none resp n = record n {
  match_index = insert peer (max (at peer n.match_index) resp.last_log_index) n.match_index;
}

unfoldable pub record_reply : ℕ → List RaftEntry → AppendEntriesResponse → RaftNode → RaftNode
unfolding record_success next_after_reject
record_reply peer sent resp n =
    if resp.success then record_success peer (sent_index sent) resp n else record n {
      next_index = insert peer (next_after_reject n.log resp (at peer n.next_index)) n.next_index;
    }

-- One synchronous RPC; the node's other threads run while it waits.
abbrev pub AppendRpc : Type 0
AppendRpc = ℕ → AppendEntriesRequest → RaftNode → RaftNode × AppendEntriesResponse

-- The loop over the peers. A response of a later term ends it.
unfoldable pub send_to_peers : Option AppendRpc → ℕ → List ℕ → RaftNode → RaftNode
unfolding record_reply
send_to_peers transport commit [] n = n
send_to_peers none commit (peer ∷ rest) n =
    send_to_peers none commit rest (record n { next_index = touch peer n.next_index })
send_to_peers (some send) commit (peer ∷ rest) n =
    let t = record n { next_index = touch peer n.next_index } in
    let req = append_request t commit (sub64 (at peer t.next_index) 1) in
    let (m, resp) = send peer req t in
    let later = send_to_peers (some send) commit rest (record_reply peer req.entries resp m) in
    if ltb m.current_term resp.term then become_follower resp.term m else later

unfoldable pub broadcast_heartbeat : Option AppendRpc → RaftNode → RaftNode
unfolding send_to_peers
broadcast_heartbeat transport n =
    let m = flush_batch n in send_to_peers transport m.commit_index (ids m.peers) m

-- `std::sort(…, std::greater<Index>())`
unfoldable pub insert_desc : ℕ → List ℕ → List ℕ
insert_desc a [] = a ∷ []
insert_desc a (b ∷ bs) = let rest = insert_desc a bs in if leb b a then a ∷ b ∷ bs else b ∷ rest

unfoldable pub sort_desc : List ℕ → List ℕ
unfolding insert_desc
sort_desc [] = []
sort_desc (a ∷ as') = insert_desc a (sort_desc as')

-- The node's own last index, and what `match_index_` holds.
abbrev pub match_indices : RaftNode → List ℕ
match_indices n = last_index n.log ∷ map (λ p. p.1) n.match_index

-- The match index that a majority reaches, if enough of them are known.
unfoldable pub majority_index : RaftNode → Option ℕ
majority_index n = get_elem? (sort_desc (match_indices n)) (majority (length n.peers) - 1)

unfoldable pub commit_to : Option ℕ → RaftNode → RaftNode
commit_to none n = n
commit_to (some new_commit) n =
    if ltb n.commit_index new_commit && (term_at n.log new_commit == n.current_term)
    then record n { commit_index = new_commit }
    else n

unfoldable pub advance_commit_index : RaftNode → RaftNode
unfolding commit_to
advance_commit_index n = if is_leader n then commit_to (majority_index n) n else n
