-- ===== src/Raft/Replicate/Follower.antt =====
-- `HandleAppendEntries`: what a follower's log holds after a request.
use my_etcd.Base.{
  ℕ, ◌+◌, ◌-◌, ◌<◌, ◌≤◌, ◌≡◌, ◌≢◌, ◌^◌, ◌⊎◌, refl, ap, sym, ◌∙◌, true, false, arith, ltb,
  if◌then◌else◌, Option-cases, inl, inr, List, ◌∷◌, none, some, length, get_elem?, sub64, min,
  subst,
}
use my_etcd.Types.{RaftEntry, no_term}
use my_etcd.Raft.Log.{RaftLog, entry_at, last_index, append_all, truncate_to}
use my_etcd.Raft.Log.Contiguous.{IsWf, Numbered, next_index_of}
use my_etcd.Raft.Log.Access.{entry_at-IsWf, last_index-next, last_index-lt}
use my_etcd.Raft.Log.Overwrite.{overwrite-entry_at, overwrite_gap}
use my_etcd.Raft.Messages.{AppendEntriesRequest}
use my_etcd.Raft.Node.{RaftNode, become_follower}
use my_etcd.Raft.Node.Apply.{apply_committed_entries_lem}
use my_etcd.Raft.Replicate.{
  handle_append_entries, accept_entries, store_entries, follow_commit, prev_differs,
}

log-follow_commit : (c : ℕ) (n : RaftNode) → (follow_commit c n).log ≡ n.log
unfolding follow_commit
log-follow_commit c n = ground (
  arith,
  (apply_committed_entries_lem (record n { commit_index = min c (last_index n.log) })).log,
)

commit-follow_commit :
    (c : ℕ) (n : RaftNode)
    → (follow_commit c n).commit_index
      ≡ (if ltb n.commit_index c then min c (last_index n.log) else n.commit_index)
unfolding follow_commit
commit-follow_commit c n = ground (
  arith,
  (apply_committed_entries_lem (record n { commit_index = min c (last_index n.log) })).commit,
)

-- The node as the request finds it, once it is a follower of the sender.
abbrev followed : AppendEntriesRequest → RaftNode → RaftNode
followed req n = record (become_follower req.term n) { leader_id = req.leader_id }

log-followed : (req : AppendEntriesRequest) (n : RaftNode) → (followed req n).log ≡ n.log
unfolding become_follower
log-followed req n = ground arith

commit-followed :
    (req : AppendEntriesRequest) (n : RaftNode) → (followed req n).commit_index ≡ n.commit_index
unfolding become_follower
commit-followed req n = ground arith

-- A request of a current term whose previous entry matches is accepted.
handle-accepts :
    (req : AppendEntriesRequest) (n : RaftNode)
    → n.current_term ≤ req.term
    → prev_differs req n.log ≡ false
    → handle_append_entries req n ≡ accept_entries req (followed req n)
unfolding handle_append_entries
handle-accepts req n fresh match =
    let stale : ltb req.term n.current_term ≡ false = ground arith in
    let match' : prev_differs req (followed req n).log ≡ false = rw (log-followed req n) match in
    rw (stale, match')

accepted-log :
    (req : AppendEntriesRequest) (n : RaftNode)
    → n.current_term ≤ req.term
    → prev_differs req n.log ≡ false
    → (handle_append_entries req n).0.log ≡ store_entries req.entries n.log
accepted-log req n fresh match =
    ap (λ r. r.0.log) (handle-accepts req n fresh match)
    ∙ unfold accept_entries in
      log-follow_commit req.leader_commit _ ∙ ap (store_entries req.entries) (log-followed req n)

-- The response to an accepted request.
accepted-response :
    (req : AppendEntriesRequest) (n : RaftNode)
    → n.current_term ≤ req.term
    → prev_differs req n.log ≡ false
    → ((handle_append_entries req n).1.success ≡ true)
      × ((handle_append_entries req n).1.last_log_index
          ≡ last_index (handle_append_entries req n).0.log)
accepted-response req n fresh match =
    rw (handle-accepts req n fresh match) (accepts (followed req n))
  where
    accepts :
        (m : RaftNode)
        → ((accept_entries req m).1.success ≡ true)
          × ((accept_entries req m).1.last_log_index ≡ last_index (accept_entries req m).0.log)
    accepts m = unfold accept_entries in (refl, refl)

-- The previous entry of the request is in the log, or it is the start of the log.
abbrev pub HasPrev : AppendEntriesRequest → Type 0
HasPrev req = (req.prev_log_index ≡ 0) ⊎ (req.prev_log_term ≢ no_term)

prev-near :
    (req : AppendEntriesRequest) (l : RaftLog)
    → IsWf l
    → prev_differs req l ≡ false
    → HasPrev req
    → req.prev_log_index + 1 ≤ next_index_of l
unfolding prev_differs
prev-near req l w match (inl start) = omega (arith, start, w.positive)
prev-near req l w match (inr named) = elim (Option-cases (entry_at l req.prev_log_index)) [
  | inl missing ↦
      ground (arith, (entry_at-IsWf l req.prev_log_index w).2 missing, named, w.positive)
  | inr (e, found) ↦ let r = (entry_at-IsWf l req.prev_log_index w).0 e found in omega (arith, r.3)
]

store_entries_lem :
    (l : RaftLog) (xs : List RaftEntry) (e : RaftEntry) (es : List RaftEntry) (prev : ℕ)
    → xs ≡ e ∷ es
    → e.index ≡ prev + 1
    → prev + 1 < 2 ^ 64
    → store_entries xs l ≡ append_all (truncate_to l (prev + 1 - 1)) (e ∷ es)
unfolding store_entries
store_entries_lem l xs e es prev batch first fits =
    let back : sub64 e.index 1 ≡ prev + 1 - 1 = omega arith in rw (batch, back)

-- A follower with a well-formed log, given a request of a term that is not older, whose previous
-- entry matches and is named by a term other than 0 or is the start of the log, and whose entries
-- are a non-empty batch numbered after it that fits 64 bits, reports success and the batch's last
-- index; afterwards its log is well-formed, holds exactly the batch after the previous entry, and up
-- to the previous entry is as it was (if the log's first index is at most the next).
pub handle_append_entries_stores :
    (req : AppendEntriesRequest) (n : RaftNode) (e : RaftEntry) (es : List RaftEntry)
    → IsWf n.log
    → n.current_term ≤ req.term
    → prev_differs req n.log ≡ false
    → HasPrev req
    → req.entries ≡ e ∷ es
    → Numbered (req.prev_log_index + 1) (e ∷ es)
    → req.prev_log_index + 1 + length (e ∷ es) < 2 ^ 64
    → let (m, resp) = handle_append_entries req n in
      (resp.success ≡ true)
      × (resp.last_log_index ≡ req.prev_log_index + length (e ∷ es))
      × ((i : ℕ)
          → i ≤ req.prev_log_index
          → n.log.first_index ≤ req.prev_log_index + 1
          → entry_at m.log i ≡ entry_at n.log i)
      × ((i : ℕ) → entry_at m.log (req.prev_log_index + 1 + i) ≡ get_elem? (e ∷ es) i)
      × (next_index_of m.log ≡ req.prev_log_index + 1 + length (e ∷ es))
      × IsWf m.log
handle_append_entries_stores req n e es w fresh match prev batch num fits =
    let over =
      overwrite-entry_at n.log (req.prev_log_index + 1) e es w (omega arith) num fits
        (prev-near req n.log w match prev) in
    let resp = accepted-response req n fresh match in
    (
      resp.0,
      resp.1
          ∙ last (subst IsWf (sym stored) over.3) (ap next stored ∙ over.2)
              (ap (λ l. entry_at l (req.prev_log_index + 1 + 0)) stored ∙ over.1 0),
      (λ i le lo. ap (λ l. entry_at l i) stored ∙ over.0 i (omega arith) lo),
      (λ i. ap (λ l. entry_at l (req.prev_log_index + 1 + i)) stored ∙ over.1 i),
      ap next stored ∙ over.2,
      subst IsWf (sym stored) over.3,
    )
  where
    m : RaftLog
    m = (handle_append_entries req n).0.log

    next : RaftLog → ℕ
    next l = next_index_of l

    stored : m ≡ append_all (truncate_to n.log (req.prev_log_index + 1 - 1)) (e ∷ es)
    stored =
        accepted-log req n fresh match
        ∙ store_entries_lem n.log req.entries e es req.prev_log_index batch num.0 (omega arith)

    last :
        IsWf m
        → next_index_of m ≡ req.prev_log_index + 1 + length (e ∷ es)
        → entry_at m (req.prev_log_index + 1 + 0) ≡ some e
        → last_index m ≡ req.prev_log_index + length (e ∷ es)
    last wf end found =
        let r = (entry_at-IsWf m (req.prev_log_index + 1 + 0) wf).0 e found in
        omega (arith, last_index-next m wf (omega (arith, r.2, r.3)), end)

-- The commit index after an accepted request.
accepted-commit :
    (req : AppendEntriesRequest) (n : RaftNode)
    → n.current_term ≤ req.term
    → prev_differs req n.log ≡ false
    → req.leader_commit ≤ n.commit_index
    → (handle_append_entries req n).0.commit_index ≡ n.commit_index
accepted-commit req n fresh match le =
    ap (λ r. r.0.commit_index) (handle-accepts req n fresh match)
    ∙ unfold accept_entries in
      commit-follow_commit req.leader_commit _ ∙ ground (arith, commit-followed req n)

-- An accepted request may cut off entries that are already committed: under the conditions of a
-- request that is stored (a well-formed log, a term not older, a matching previous entry, a numbered
-- non-empty batch), if the batch ends before the commit index and the leader's commit index is not
-- higher than the node's, the request succeeds, the commit index stays, and the log ends before it.
pub handle_append_entries_uncommits :
    (req : AppendEntriesRequest) (n : RaftNode) (e : RaftEntry) (es : List RaftEntry)
    → IsWf n.log
    → n.current_term ≤ req.term
    → prev_differs req n.log ≡ false
    → HasPrev req
    → req.entries ≡ e ∷ es
    → Numbered (req.prev_log_index + 1) (e ∷ es)
    → req.prev_log_index + 1 + length (e ∷ es) < 2 ^ 64
    → req.prev_log_index + length (e ∷ es) < n.commit_index
    → req.leader_commit ≤ n.commit_index
    → let (m, resp) = handle_append_entries req n in
      (resp.success ≡ true)
      × (m.commit_index ≡ n.commit_index)
      × (last_index m.log < m.commit_index)
handle_append_entries_uncommits req n e es w fresh match prev batch num fits short le =
    let r = handle_append_entries_stores req n e es w fresh match prev batch num fits in
    let commit = accepted-commit req n fresh match le in
    let resp = accepted-response req n fresh match in
    (r.0, commit, omega (arith, commit, r.1, resp.1))

-- If a request of a term not older names term 0 for its previous entry, and that entry is at or past
-- the end of the follower's well-formed log, then the follower reports success although its log is
-- unchanged and ends before the first of the request's numbered entries.
pub handle_append_entries_gap :
    (req : AppendEntriesRequest) (n : RaftNode) (e : RaftEntry) (es : List RaftEntry)
    → IsWf n.log
    → n.current_term ≤ req.term
    → req.prev_log_term ≡ no_term
    → next_index_of n.log ≤ req.prev_log_index
    → req.entries ≡ e ∷ es
    → Numbered (req.prev_log_index + 1) (e ∷ es)
    → req.prev_log_index + 1 + length (e ∷ es) < 2 ^ 64
    → let (m, resp) = handle_append_entries req n in
      (resp.success ≡ true) × (m.log ≡ n.log) × (last_index m.log < e.index)
handle_append_entries_gap req n e es w fresh unknown past batch num fits = (
  (accepted-response req n fresh match).0,
  same,
  rw same (omega (arith, last_index-lt n.log w, num.0)),
)
  where
    missing : entry_at n.log req.prev_log_index ≡ none
    missing = elim (Option-cases (entry_at n.log req.prev_log_index)) [
      | inl none_there ↦ none_there
      | inr (x, found) ↦
          let r = (entry_at-IsWf n.log req.prev_log_index w).0 x found in
          absurd (omega (arith, r.3))
    ]

    match : prev_differs req n.log ≡ false
    match =
        unfold prev_differs in
        ground (arith, (entry_at-IsWf n.log req.prev_log_index w).2 missing, unknown)

    same : (handle_append_entries req n).0.log ≡ n.log
    same =
        accepted-log req n fresh match
        ∙ store_entries_lem n.log req.entries e es req.prev_log_index batch num.0 (omega arith)
        ∙ overwrite_gap n.log (req.prev_log_index + 1) e es w (omega arith) num fits (omega arith)
