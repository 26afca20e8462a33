-- ===== src/Raft/Node/Proposals.antt =====
-- `Propose`, `ProposeBatch` and `FlushBatch`: what a leader's log holds afterwards, and what goes wrong
-- on a log that a snapshot has emptied.
use my_etcd.Base.{
  ℕ, suc, ◌+◌, ◌<◌, ◌≡◌, ◌^◌, refl, ap, sym, true, arith, List, [], ◌∷◌, ◌++◌, none, some, length,
  add64, nat_key, append-nil, subst,
}
use my_etcd.Types.{RaftEntry, Snapshot}
use my_etcd.Raft.Log.{RaftLog, last_index, entry_at, append, append_all, restore, expected_index}
use my_etcd.Raft.Log.Contiguous.{IsWf, Numbered, next_index_of, append-IsWf, expected_index-next}
use my_etcd.Raft.Log.Access.{append-entry_at}
use my_etcd.Raft.Node.{
  RaftNode, is_leader, propose, propose_batch, flush_batch, flush_entries, append_own, renumber,
  accepted, apply_snapshot, become_follower, become_candidate, become_leader, init,
}
use my_etcd.Raft.Worker.{run_start}

-- A leader with a well-formed log that is numbered up to its last index, with room for the next one,
-- accepts a proposal at the next index: the log stays well-formed and holds the entry there, with
-- the leader's term.
pub propose_lem :
    (n : RaftNode) (e : RaftEntry)
    → is_leader n ≡ true
    → IsWf n.log
    → next_index_of n.log ≡ last_index n.log + 1
    → next_index_of n.log + 1 < 2 ^ 64
    → let (m, result) = propose e n in
      let i = last_index n.log + 1 in
      (result ≡ accepted i)
      × (entry_at m.log i ≡ some (record e { term = n.current_term; index = i }))
      × IsWf m.log
unfolding propose append_own
propose_lem n e lead w dense fits =
    let at : add64 (last_index n.log) 1 ≡ last_index n.log + 1 = omega (arith, w.fits) in
    rw (lead, at)
      (
        refl,
        subst (λ i. entry_at (append n.log own).0 i ≡ some own) dense (append-entry_at n.log own),
        append-IsWf n.log w own (sym dense) (omega (arith, dense)),
      )
  where
    own : RaftEntry
    own = record e { term = n.current_term; index = last_index n.log + 1 }

renumber-Numbered :
    (base : ℕ) (es : List RaftEntry) → base + length es < 2 ^ 64 → Numbered base (renumber base es)
unfolding renumber
renumber-Numbered base [] fits = tt
renumber-Numbered base (e ∷ es) fits =
    let next : add64 base 1 ≡ suc base = omega arith in
    (refl, rw next (renumber-Numbered (suc base) es (omega arith)))

length-renumber : (base : ℕ) (es : List RaftEntry) → length (renumber base es) ≡ length es
unfolding renumber
length-renumber base [] = refl
length-renumber base (e ∷ es) = ap suc (length-renumber (add64 base 1) es)

append_all-expected :
    (l : RaftLog) (e : RaftEntry) (es : List RaftEntry)
    → e.index ≡ expected_index l
    → append_all l (e ∷ es) ≡ record l { entries = l.entries ++ e ∷ es }
unfolding append_all
append_all-expected l e es h = ground arith

flush_entries-log :
    (n : RaftNode) (bs : List RaftEntry)
    → IsWf n.log
    → next_index_of n.log ≡ last_index n.log + 1
    → next_index_of n.log + length bs < 2 ^ 64
    → (flush_entries bs n).log.entries ≡ n.log.entries ++ renumber (next_index_of n.log) bs
unfolding flush_entries
flush_entries-log n [] w dense fits = sym (append-nil n.log.entries)
flush_entries-log n (b ∷ bs) w dense fits =
    let base : add64 (last_index n.log) 1 ≡ next_index_of n.log = omega (arith, dense) in
    rw base (
      ap (λ (l : RaftLog). l.entries)
        (append_all-expected n.log (record b { index = next_index_of n.log })
          (renumber (add64 (next_index_of n.log) 1) bs) (sym (expected_index-next n.log w))))

flush_entries-buffer :
    (n : RaftNode) (bs : List RaftEntry)
    → n.batch_buffer ≡ bs
    → (flush_entries bs n).batch_buffer ≡ []
unfolding flush_entries
flush_entries-buffer n [] e = e
flush_entries-buffer n (b ∷ bs) e = refl

-- With a well-formed log that is numbered up to its last index, and room for the buffer,
-- `FlushBatch` appends the whole buffer, in order and under consecutive indices from the next one
-- on, whatever indices were predicted, and empties the buffer.
pub flush_batch_lem :
    (n : RaftNode)
    → IsWf n.log
    → next_index_of n.log ≡ last_index n.log + 1
    → next_index_of n.log + length n.batch_buffer < 2 ^ 64
    → ((flush_batch n).log.entries ≡ n.log.entries ++ renumber (next_index_of n.log) n.batch_buffer)
      × Numbered (next_index_of n.log) (renumber (next_index_of n.log) n.batch_buffer)
      × (length (renumber (next_index_of n.log) n.batch_buffer) ≡ length n.batch_buffer)
      × ((flush_batch n).batch_buffer ≡ [])
unfolding flush_batch
flush_batch_lem n w dense fits = (
  flush_entries-log n n.batch_buffer w dense fits,
  renumber-Numbered (next_index_of n.log) n.batch_buffer fits,
  length-renumber (next_index_of n.log) n.batch_buffer,
  flush_entries-buffer n n.batch_buffer refl,
)

-- A node whose log is empty and starts at k, with nothing in its buffer.
abbrev emptied : ℕ → RaftNode → RaftNode
emptied k n = record n { log = record { entries = []; first_index = k }; batch_buffer = [] }

module _ (k : ℕ) (n : RaftNode) (e : RaftEntry) (lead : is_leader n ≡ true) (far : 1 < k) where
  emptied-propose :
      ((propose e (emptied k n)).1 ≡ accepted 1)
      × (entry_at (propose e (emptied k n)).0.log 1 ≡ none)
      × (¬ IsWf (propose e (emptied k n)).0.log)
  unfolding propose append_own entry_at last_index append
  emptied-propose = rw lead (refl, ground arith, λ w. omega (arith, w.numbered))

  emptied-batch :
      ((propose_batch e (emptied k n)).1 ≡ accepted 1)
      × ((flush_batch (propose_batch e (emptied k n)).0).log.entries ≡ [])
      × ((flush_batch (propose_batch e (emptied k n)).0).batch_buffer ≡ [])
  unfolding propose_batch flush_batch flush_entries renumber append_all last_index
  emptied-batch = rw lead (refl, ground arith, refl)

-- A server's node that starts on a snapshot and, before a leader sends it entries, wins an election.
abbrev pub elected_after : Snapshot → ℕ → List ℕ → RaftNode
elected_after s self addresses =
    become_leader (become_candidate (run_start (apply_snapshot s (init self addresses))))

elected-emptied :
    (s : Snapshot) (self : ℕ) (addresses : List ℕ)
    → s.last_index + 1 < 2 ^ 64
    → elected_after s self addresses ≡ emptied (s.last_index + 1) (elected_after s self addresses)
unfolding init become_follower become_candidate become_leader apply_snapshot restore
elected-emptied s self addresses fits = ground arith

elected-leader :
    (s : Snapshot) (self : ℕ) (addresses : List ℕ)
    → is_leader (elected_after s self addresses) ≡ true
unfolding become_leader
elected-leader s self addresses = refl

-- A node that starts on a snapshot, of a last index above 0 whose successor fits 64 bits, and wins an election
-- before it gets entries, numbers its proposals from 1 again: a proposal is accepted at index 1, where the log does
-- not find it, and the log is no longer well-formed; and a batched proposal is accepted at 1, but the flush
-- loses it.
pub propose_after_snapshot :
    (s : Snapshot) (self : ℕ) (addresses : List ℕ) (e : RaftEntry)
    → 0 < s.last_index
    → s.last_index + 1 < 2 ^ 64
    → let leader = elected_after s self addresses in
      ((propose e leader).1 ≡ accepted 1)
      × (entry_at (propose e leader).0.log 1 ≡ none)
      × (¬ IsWf (propose e leader).0.log)
      × ((propose_batch e leader).1 ≡ accepted 1)
      × ((flush_batch (propose_batch e leader).0).log.entries ≡ [])
      × ((flush_batch (propose_batch e leader).0).batch_buffer ≡ [])
propose_after_snapshot s self addresses e named fits =
    rw (elected-emptied s self addresses fits) (p.0, p.1, p.2, b.0, b.1, b.2)
  where
    m : RaftNode
    m = elected_after s self addresses

    k : ℕ
    k = s.last_index + 1

    p :
        ((propose e (emptied k m)).1 ≡ accepted 1)
        × (entry_at (propose e (emptied k m)).0.log 1 ≡ none)
        × (¬ IsWf (propose e (emptied k m)).0.log)
    p = emptied-propose k m e (elected-leader s self addresses) (omega arith)

    b :
        ((propose_batch e (emptied k m)).1 ≡ accepted 1)
        × ((flush_batch (propose_batch e (emptied k m)).0).log.entries ≡ [])
        × ((flush_batch (propose_batch e (emptied k m)).0).batch_buffer ≡ [])
    b = emptied-batch k m e (elected-leader s self addresses) (omega arith)
