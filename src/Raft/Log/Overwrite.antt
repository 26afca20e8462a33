-- ===== src/Raft/Log/Overwrite.antt =====
-- `TruncateTo` followed by `Append`, as a follower uses them to take over a leader's entries.
use my_etcd.Base.{
  ℕ, ◌+◌, ◌-◌, ◌<◌, ◌≤◌, ◌≡◌, ◌^◌, List, ◌∷◌, ◌++◌, arith, ltb, leb, ◌==◌, length, get_elem?, take,
  add64, length-append, length-take, ap, ◌∙◌, Bool-cases, inl, inr, min, true, false,
  get_elem?-take, subst, take_all, get_elem?-append_left, get_elem?-append_right,
}
use my_etcd.Types.{RaftEntry}
use my_etcd.Raft.Log.{RaftLog, append_all, truncate_to, entry_at, expected_index}
use my_etcd.Raft.Log.Contiguous.{
  IsWf, Numbered, next_index_of, truncate_to-IsWf, append_all-IsWf, expected_index-next,
}

-- The log cut before index n, whatever n is: below `first_index` it is emptied, and starts at n.
abbrev pub cut_log : RaftLog → ℕ → RaftLog
cut_log l n = record {
  entries = take (n - l.first_index) l.entries;
  first_index = min n l.first_index;
}

truncate_to_lem :
    (l : RaftLog) (n : ℕ) → IsWf l → 0 < n → n < 2 ^ 64 → truncate_to l (n - 1) ≡ cut_log l n
unfolding truncate_to
truncate_to_lem l n w pos h = elim (Bool-cases (ltb (n - 1) l.first_index)) [
  | inl before ↦ let z : n - l.first_index ≡ 0 = ground arith in rw (before, z) (ground arith)
  | inr within ↦
      rw (within, keep within)
        (elim (Bool-cases (leb (length l.entries) (n - l.first_index))) [
          | inl all ↦ rw all (ground (arith, take_all (n - l.first_index) l.entries))
          | inr cut ↦ rw cut (ground arith)
        ])
]
  where
    keep : ltb (n - 1) l.first_index ≡ false → add64 (n - 1 - l.first_index) 1 ≡ n - l.first_index
    keep within = ground arith

module _ (l : RaftLog) (n : ℕ) (e : RaftEntry) (es : List RaftEntry) (w : IsWf l) (pos : 0 < n)
    (num : Numbered n (e ∷ es)) (fits : n + length (e ∷ es) < 2 ^ 64) where
  cut_log-IsWf : IsWf (cut_log l n)
  cut_log-IsWf =
      subst IsWf (truncate_to_lem l n w pos (omega arith))
        (truncate_to-IsWf l w (n - 1) (omega arith))

  -- A batch that starts within the log, or just after it, replaces everything from its first index.
  pub overwrite_lem :
      n ≤ next_index_of l
      → append_all (truncate_to l (n - 1)) (e ∷ es) ≡ record {
        entries = take (n - l.first_index) l.entries ++ e ∷ es;
        first_index = min n l.first_index;
      }
  unfolding append_all
  overwrite_lem near =
      ap (λ m. append_all m (e ∷ es)) (truncate_to_lem l n w pos (omega arith)) ∙ rw starts
    where
      starts : (e.index == expected_index (cut_log l n)) ≡ true
      starts = ground (
        arith,
        expected_index-next (cut_log l n) cut_log-IsWf,
        length-take (n - l.first_index) l.entries,
      )

  -- A batch that starts past the end of the log, which would leave a gap, changes nothing.
  pub overwrite_gap : next_index_of l < n → append_all (truncate_to l (n - 1)) (e ∷ es) ≡ l
  unfolding append_all
  overwrite_gap far =
      ap (λ m. append_all m (e ∷ es)) whole ∙ ground (arith, expected_index-next l w)
    where
      whole : truncate_to l (n - 1) ≡ l
      whole =
          truncate_to_lem l n w pos (omega arith)
          ∙ ground (arith, take_all (n - l.first_index) l.entries)

  overwrite-IsWf : IsWf (append_all (truncate_to l (n - 1)) (e ∷ es))
  overwrite-IsWf =
      append_all-IsWf (truncate_to l (n - 1)) (truncate_to-IsWf l w (n - 1) (omega arith)) n
        (e ∷ es) num fits

  front : List RaftEntry
  front = take (n - l.first_index) l.entries

  overwritten : RaftLog
  unfolding front
  overwritten = record { entries = front ++ e ∷ es; first_index = min n l.first_index }

  length-front : n ≤ next_index_of l → min n l.first_index + length front ≡ n
  unfolding front
  length-front near = omega (arith, length-take (n - l.first_index) l.entries)

  overwritten-old :
      n ≤ next_index_of l
      → (i : ℕ) → i < n
      → l.first_index ≤ n
      → entry_at overwritten i ≡ entry_at l i
  unfolding entry_at overwritten
  overwritten-old near i lt lo =
      let off : ℕ = i - min n l.first_index in
      ground (
        arith,
        length-front near,
        get_elem?-append_left front (e ∷ es) off,
        get_elem?-take l.entries (n - l.first_index) off,
      )

  overwritten-new :
      n ≤ next_index_of l → (i : ℕ) → entry_at overwritten (n + i) ≡ get_elem? (e ∷ es) i
  unfolding entry_at overwritten
  overwritten-new near i =
      let within : ltb (n + i) (min n l.first_index) ≡ false = ground arith in
      let at : n + i - min n l.first_index ≡ length front + i = omega (arith, length-front near) in
      rw (within, at) (get_elem?-append_right front (e ∷ es) i)

  -- Overwriting from index n on: if a well-formed log is truncated to n - 1, where n is at least 1
  -- and at most the log's next index, and a non-empty batch numbered from n is appended that fits 64
  -- bits, then the entries of the batch stand at their own indices, those before n are unchanged if
  -- the log's first index is at most n, nothing follows the batch, and the log is well-formed.
  pub overwrite-entry_at :
      n ≤ next_index_of l
      → let m = append_all (truncate_to l (n - 1)) (e ∷ es) in
        ((i : ℕ) → i < n → l.first_index ≤ n → entry_at m i ≡ entry_at l i)
        × ((i : ℕ) → entry_at m (n + i) ≡ get_elem? (e ∷ es) i)
        × (next_index_of m ≡ n + length (e ∷ es))
        × IsWf m
  unfolding overwritten front
  overwrite-entry_at near = (
    (λ i lt lo. ap (λ m. entry_at m i) same ∙ overwritten-old near i lt lo),
    (λ i. ap (λ m. entry_at m (n + i)) same ∙ overwritten-new near i),
    ap (λ (m : RaftLog). next_index_of m) same
        ∙ omega (arith, length-front near, length-append front (e ∷ es)),
    overwrite-IsWf,
  )
    where
      same : append_all (truncate_to l (n - 1)) (e ∷ es) ≡ overwritten
      same = overwrite_lem near
