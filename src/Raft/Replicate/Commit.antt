-- ===== src/Raft/Replicate/Commit.antt =====
-- `AdvanceCommitIndex`: which indices a leader commits.
use my_etcd.Base.{
  ℕ, zero, suc, ◌+◌, ◌-◌, ◌<◌, ◌≤◌, ◌≡◌, ◌≢◌, refl, ap, true, arith, ltb, leb, ◌==◌, if◌then◌else◌,
  Bool-cases, inl, inr, ◌⊎◌, ◌&&◌, List, [], ◌∷◌, map, Option, none, some, length, get_elem?,
  nat_key, add64, ◌∙◌, sym,
}
use my_etcd.OrdMap.{insert, lookup}
use my_etcd.Types.{RaftEntry, NodeState, no_term}
use my_etcd.Raft.Log.{term_at, term_or, last_index}
use my_etcd.Raft.Log.Access.{append-last_index, append-entry_at, term_at-entry_at}
use my_etcd.Raft.Log.Contiguous.{IsWf, next_index_of}
use my_etcd.Raft.Node.{RaftNode, is_leader, propose, append_own}
use my_etcd.Raft.Vote.{majority}
use my_etcd.Raft.Replicate.{
  insert_desc, sort_desc, match_indices, majority_index, commit_to, advance_commit_index,
}

-- How many elements are at least v.
abbrev pub count_ge : ℕ → List ℕ → ℕ
count_ge v [] = 0
count_ge v (x ∷ xs) = let rest = count_ge v xs in if leb v x then suc rest else rest

abbrev AllLe : ℕ → List ℕ → Type 0
AllLe b [] = Unit
AllLe b (x ∷ xs) = (x ≤ b) × AllLe b xs

abbrev Falls : List ℕ → Type 0
Falls [] = Unit
Falls (x ∷ xs) = AllLe x xs × Falls xs

AllLe-insert_desc : (b a : ℕ) (xs : List ℕ) → a ≤ b → AllLe b xs → AllLe b (insert_desc a xs)
unfolding insert_desc
AllLe-insert_desc b a [] h k = (h, tt)
AllLe-insert_desc b a (x ∷ xs) h k = ground (arith, AllLe-insert_desc b a xs h k.1)

AllLe-weaken : (b c : ℕ) (xs : List ℕ) → b ≤ c → AllLe b xs → AllLe c xs
AllLe-weaken b c [] h k = tt
AllLe-weaken b c (x ∷ xs) h k = (omega arith, AllLe-weaken b c xs h k.1)

Falls-insert_desc : (a : ℕ) (xs : List ℕ) → Falls xs → Falls (insert_desc a xs)
unfolding insert_desc
Falls-insert_desc a [] f = (tt, tt)
Falls-insert_desc a (x ∷ xs) f =
    ground (arith, Falls-insert_desc a xs f.1, AllLe-weaken x a xs, AllLe-insert_desc x a xs)

Falls-sort_desc : (xs : List ℕ) → Falls (sort_desc xs)
unfolding sort_desc
Falls-sort_desc [] = tt
Falls-sort_desc (x ∷ xs) = Falls-insert_desc x (sort_desc xs) (Falls-sort_desc xs)

count_ge-insert_desc : (v a : ℕ) (xs : List ℕ) → count_ge v (insert_desc a xs) ≡ count_ge v (a ∷ xs)
unfolding insert_desc
count_ge-insert_desc v a [] = refl
count_ge-insert_desc v a (x ∷ xs) = ground (arith, count_ge-insert_desc v a xs)

count_ge-sort_desc : (v : ℕ) (xs : List ℕ) → count_ge v (sort_desc xs) ≡ count_ge v xs
unfolding sort_desc
count_ge-sort_desc v [] = refl
count_ge-sort_desc v (x ∷ xs) =
    ground (arith, count_ge-insert_desc v x (sort_desc xs), count_ge-sort_desc v xs)

AllLe-get_elem? : (b k v : ℕ) (xs : List ℕ) → AllLe b xs → get_elem? xs k ≡ some v → v ≤ b
AllLe-get_elem? b k v [] h e = cc
AllLe-get_elem? b zero v (x ∷ xs) h e = ground arith
AllLe-get_elem? b (suc k) v (x ∷ xs) h e = AllLe-get_elem? b k v xs h.1 e

-- In a falling list the elements up to position k are at least the one at k.
count_ge-get_elem? :
    (k v : ℕ) (xs : List ℕ) → Falls xs → get_elem? xs k ≡ some v → k < count_ge v xs
count_ge-get_elem? k v [] f e = cc
count_ge-get_elem? zero v (x ∷ xs) f e = ground arith
count_ge-get_elem? (suc k) v (x ∷ xs) f e =
    ground (arith, count_ge-get_elem? k v xs f.1 e, AllLe-get_elem? x k v xs f.0 e)

-- `m` is `n` with a higher commit index of the current term, which a majority of the match indices reach.
pub record Commits (n m : RaftNode) : Type 0 where
  pub only : m ≡ record n { commit_index = m.commit_index }
  pub leads : n.state ≡ NodeState.leader
  pub higher : n.commit_index < m.commit_index
  pub own_term : term_at n.log m.commit_index ≡ n.current_term
  pub reached : majority (length n.peers) ≤ count_ge m.commit_index (match_indices n)

commit_to-Commits :
    (o : Option ℕ) (n : RaftNode)
    → n.state ≡ NodeState.leader
    → majority_index n ≡ o
    → (commit_to o n ≡ n) ⊎ Commits n (commit_to o n)
unfolding commit_to
commit_to-Commits none n lead e = inl refl
commit_to-Commits (some i) n lead e =
    elim (Bool-cases (ltb n.commit_index i && (term_at n.log i == n.current_term))) [
      | inr stay ↦ inl (rw stay)
      | inl go ↦ inr (
          rw go (record {
            only = refl;
            leads = lead;
            higher = ground arith;
            own_term = ground arith;
            reached = reach;
          }))
    ]
  where
    reach : majority (length n.peers) ≤ count_ge i (match_indices n)
    reach = omega (
      arith,
      count_ge-sort_desc i (match_indices n),
      count_ge-get_elem? (majority (length n.peers) - 1) i (sort_desc (match_indices n))
          (Falls-sort_desc (match_indices n)) (unfold majority_index in e),
    )

-- `AdvanceCommitIndex` either changes nothing, or it raises the commit index of a leader, and nothing
-- else, to an index of the current term which at least a majority of the collected match indices reach.
pub advance_commit_index_lem :
    (n : RaftNode) → (advance_commit_index n ≡ n) ⊎ Commits n (advance_commit_index n)
unfolding advance_commit_index
advance_commit_index_lem n = elim (Bool-cases (is_leader n)) [
  | inl lead ↦ rw lead (commit_to-Commits (majority_index n) n (ground arith) refl)
  | inr other ↦ inl (rw other)
]

-- What a leader's proposal leaves.
propose-leader :
    (n : RaftNode) (e : RaftEntry)
    → is_leader n ≡ true
    → (propose e n).0
      ≡ append_own (record e { term = n.current_term; index = add64 (last_index n.log) 1 }) n
unfolding propose
propose-leader n e lead = rw lead

-- The sorted match indices of a leader with two peers at 0: its own index stands there twice.
own_twice :
    (x self a b : ℕ)
    → 0 < x
    → a ≢ self
    → b ≢ self
    → get_elem? (sort_desc (x ∷ map (λ (p : ℕ × ℕ). p.1) (insert self x ((a, 0) ∷ (b, 0) ∷ [])))) 1
      ≡ some x
unfolding sort_desc insert_desc insert
own_twice x self a b pos na nb = ground arith

module _ (n : RaftNode) (e : RaftEntry) (a b : ℕ) (lead : is_leader n ≡ true) (w : IsWf n.log)
    (dense : next_index_of n.log ≡ last_index n.log + 1)
    (behind : n.commit_index ≤ last_index n.log) (three : length n.peers ≡ 2)
    (fresh : n.match_index ≡ (a, 0) ∷ (b, 0) ∷ []) (na : a ≢ n.node_id) (nb : b ≢ n.node_id) where
  own : RaftEntry
  own = record e { term = n.current_term; index = add64 (last_index n.log) 1 }

  proposed : RaftNode
  unfolding append_own own
  proposed = append_own own n

  index-own : own.index ≡ last_index n.log + 1
  unfolding own
  index-own = omega (arith, w.fits)

  last_index-proposed : last_index proposed.log ≡ last_index n.log + 1
  unfolding proposed
  last_index-proposed = append-last_index n.log own ∙ index-own

  term_at-proposed : term_at proposed.log (last_index n.log + 1) ≡ n.current_term
  unfolding proposed
  term_at-proposed =
      ap (term_at proposed.log) (sym dense)
      ∙ term_at-entry_at proposed.log (next_index_of n.log)
      ∙ ap (term_or no_term) (append-entry_at n.log own)

  match_index-proposed :
      proposed.match_index ≡ insert n.node_id (last_index n.log + 1) ((a, 0) ∷ (b, 0) ∷ [])
  unfolding proposed
  match_index-proposed = cc (fresh, index-own)

  majority_index-proposed : majority_index proposed ≡ some (last_index n.log + 1)
  unfolding majority_index
  majority_index-proposed =
      let at : majority (length proposed.peers) - 1 ≡ 1 = unfold proposed in omega (arith, three) in
      rw (at, last_index-proposed, match_index-proposed)
        (own_twice (last_index n.log + 1) n.node_id a b (omega arith) na nb)

  proposed-same :
      (is_leader proposed ≡ true)
      × (proposed.commit_index ≡ n.commit_index)
      × (proposed.current_term ≡ n.current_term)
  unfolding proposed
  proposed-same = (lead, refl, refl)

  commit-proposed :
      advance_commit_index proposed ≡ record proposed { commit_index = last_index n.log + 1 }
  unfolding advance_commit_index
  commit-proposed =
      rw (proposed-same.0, majority_index-proposed)
        (ground (arith, proposed-same.1, proposed-same.2, term_at-proposed))

  peers_at_zero :
      (c : ℕ)
      → (c ≡ a) ⊎ (c ≡ b)
      → lookup c (insert n.node_id (last_index n.log + 1) ((a, 0) ∷ (b, 0) ∷ [])) ≡ some 0
  unfolding lookup insert
  peers_at_zero c h = ground arith

  committed :
      advance_commit_index (propose e n).0 ≡ record proposed { commit_index = last_index n.log + 1 }
  unfolding proposed own
  committed = ap advance_commit_index (propose-leader n e lead) ∙ commit-proposed

  -- Take a leader of a cluster of three with two peers other than itself, both with match index 0
  -- and no entry of its own there, a well-formed log that is numbered up to its last index, and a
  -- commit index within it. When it appends one proposal and then advances the commit index, the
  -- proposal is committed at once, although both match indices are still 0: the leader is counted
  -- twice.
  pub commit_alone :
      let m = advance_commit_index (propose e n).0 in
      (m.commit_index ≡ last_index n.log + 1)
      × (last_index m.log ≡ last_index n.log + 1)
      × (lookup a m.match_index ≡ some 0)
      × (lookup b m.match_index ≡ some 0)
  commit_alone = rw committed (refl, last_index-proposed, at a (inl refl), at b (inr refl))
    where
      at : (c : ℕ) → (c ≡ a) ⊎ (c ≡ b) → lookup c proposed.match_index ≡ some 0
      at c h = ap (lookup c) match_index-proposed ∙ peers_at_zero c h
