-- ===== src/Raft/Replicate/Bisect.antt =====
-- `FindConflictTermIndex`: the binary search finds the first entry of a term.
use my_etcd.Base.{
  ℕ, zero, suc, ◌+◌, ◌-◌, ◌/◌, ◌<◌, ◌≤◌, ◌≡◌, ◌≢◌, true, false, arith, ltb, ◌==◌, if◌then◌else◌,
  Bool-cases, inl, inr,
}
use my_etcd.Raft.Log.{RaftLog, term_at, last_index}
use my_etcd.Raft.Replicate.{bisect, has_term, find_conflict_term_index}

-- The terms of the indices from a up to b do not fall.
abbrev pub TermsRise : RaftLog → ℕ → ℕ → Type 0
TermsRise l a b = (i j : ℕ) → a ≤ i → i ≤ j → j < b → term_at l i ≤ term_at l j

pub record FirstOf (l : RaftLog) (term lo hi r : ℕ) : Type 0 where
  pub from : lo ≤ r
  pub upto : r ≤ hi
  pub before : (i : ℕ) → lo ≤ i → i < r → term_at l i < term
  pub after : (i : ℕ) → r ≤ i → i < hi → term ≤ term_at l i

bisect_lem :
    (l : RaftLog) (term fuel lo hi : ℕ)
    → hi - lo ≤ fuel
    → lo ≤ hi
    → TermsRise l lo hi
    → FirstOf l term lo hi (bisect l term fuel lo hi)
unfolding bisect
bisect_lem l term zero lo hi enough le rise = record {
  from = omega arith;
  upto = le;
  before = λ i p q. absurd (omega arith);
  after = λ i p q. absurd (omega arith);
}
bisect_lem l term (suc fuel) lo hi enough le rise = elim (Bool-cases (ltb lo hi)) [
  | inr done ↦
      rw (done, bisect)
        (record {
          from = omega arith;
          upto = le;
          before = λ i p q. absurd (omega arith);
          after = λ i p q. absurd (ground arith);
        })
  | inl more ↦ elim (Bool-cases (ltb (term_at l mid) term)) [
    | inl low ↦
        let ih =
          bisect_lem l term fuel (mid + 1) hi (ground arith) (ground arith)
            (λ i j p q r. rise i j (omega arith) q r) in
        rw (more, low, bisect)
          (record {
            from = omega (arith, ih.from);
            upto = ih.upto;
            before = λ i p q.
                below (bisect l term fuel (mid + 1) hi) (ground arith) low i p q (ih.before i);
            after = ih.after;
          })
    | inr high ↦
        let ih =
          bisect_lem l term fuel lo mid (ground arith) (ground arith)
            (λ i j p q r. rise i j p q (ground arith)) in
        rw (more, high, bisect)
          (record {
            from = ih.from;
            upto = ground (arith, ih.upto);
            before = ih.before;
            after = λ i p q.
                above (bisect l term fuel lo mid) (ground arith) high ih.from i p q (ih.after i);
          })
  ]
]
  where
    mid : ℕ
    mid = lo + (hi - lo) / 2

    below :
        (r : ℕ)
        → mid < hi
        → ltb (term_at l mid) term ≡ true
        → (i : ℕ) → lo ≤ i
        → i < r
        → (mid + 1 ≤ i → i < r → term_at l i < term)
        → term_at l i < term
    below r inside low i p q ih = ground (arith, ih, rise i mid p)

    above :
        (r : ℕ)
        → lo ≤ mid
        → ltb (term_at l mid) term ≡ false
        → lo ≤ r
        → (i : ℕ) → r ≤ i
        → i < hi
        → (r ≤ i → i < mid → term ≤ term_at l i)
        → term ≤ term_at l i
    above r inside high lo_r i p q ih = ground (arith, ih, rise mid i)

has_term_found :
    (l : RaftLog) (term rounds i : ℕ)
    → has_term l term rounds i ≡ true
    → (k : ℕ) × (i ≤ k) × (k < i + rounds) × (term_at l k ≡ term)
unfolding has_term
has_term_found l term zero i h = cc
has_term_found l term (suc rounds) i h = elim (Bool-cases (term_at l i == term)) [
  | inl here ↦ (i, omega arith, omega arith, ground arith)
  | inr differs ↦
      let r = has_term_found l term rounds (i + 1) (ground arith) in
      (r.0, omega (arith, r.1), omega (arith, r.2), r.3)
]

has_term_missing :
    (l : RaftLog) (term rounds i k : ℕ)
    → has_term l term rounds i ≡ false
    → i ≤ k
    → k < i + rounds
    → term_at l k ≢ term
unfolding has_term
has_term_missing l term zero i k h lo hi = absurd (omega arith)
has_term_missing l term (suc rounds) i k h lo hi =
    ground (arith, has_term_missing l term rounds (i + 1) k)

module _ (l : RaftLog) (term : ℕ) (rise : TermsRise l l.first_index (last_index l + 1)) (k : ℕ)
    (lo : l.first_index ≤ k) (hi : k ≤ last_index l) (same : term_at l k ≡ term) where
  rounds : ℕ
  rounds = last_index l + 1 - l.first_index

  result : ℕ
  unfolding rounds
  result = bisect l term rounds l.first_index (last_index l + 1)

  result-FirstOf : FirstOf l term l.first_index (last_index l + 1) result
  unfolding result
  result-FirstOf =
      bisect_lem l term rounds l.first_index (last_index l + 1) (omega arith) (omega arith) rise

  result-le : result ≤ k
  result-le = elim (Bool-cases (ltb k result)) [
    | inl past ↦ absurd (ground (arith, result-FirstOf.before k lo))
    | inr fine ↦ ground arith
  ]

  term_at-result : term_at l result ≡ term
  term_at-result =
      let f = result-FirstOf in
      omega (
        arith,
        f.after result (omega arith) (omega (arith, result-le)),
        rise result k f.from result-le (omega arith),
      )

  term_there : has_term l term rounds l.first_index ≡ true
  unfolding rounds
  term_there = elim (Bool-cases (has_term l term rounds l.first_index)) [
    | inl found ↦ found
    | inr missed ↦
        absurd (has_term_missing l term rounds l.first_index k missed lo (omega arith) same)
  ]

  find-result : (hint : ℕ) → find_conflict_term_index term hint l ≡ result
  unfolding find_conflict_term_index result rounds
  find-result hint = ground (arith, term_there, result-FirstOf.from, result-le, term_at-result)

find-missing :
    (l : RaftLog) (term hint : ℕ)
    → ((k : ℕ) → l.first_index ≤ k → k ≤ last_index l → term_at l k ≢ term)
    → find_conflict_term_index term hint l ≡ (if ltb 0 hint then hint else 1)
unfolding find_conflict_term_index
find-missing l term hint missing =
    elim (Bool-cases (has_term l term (last_index l + 1 - l.first_index) l.first_index)) [
      | inl found ↦
          let r = has_term_found l term (last_index l + 1 - l.first_index) l.first_index found in
          absurd (missing r.0 r.1 (omega (arith, r.1, r.2)) r.3)
      | inr missed ↦ rw missed
    ]

-- In a log whose terms do not fall from its first to its last index, `FindConflictTermIndex` returns
-- the index of the first entry of the conflicting term if the log has one (all entries before have
-- lower terms), and otherwise the hint, or 1 if the hint is 0.
pub find_conflict_term_index_lem :
    (l : RaftLog) (term hint : ℕ)
    → TermsRise l l.first_index (last_index l + 1)
    → let r = find_conflict_term_index term hint l in
      ((k : ℕ)
        → l.first_index ≤ k
        → k ≤ last_index l
        → term_at l k ≡ term
        → (l.first_index ≤ r)
          × (r ≤ last_index l)
          × (term_at l r ≡ term)
          × ((i : ℕ) → l.first_index ≤ i → i < r → term_at l i < term))
      × (((k : ℕ) → l.first_index ≤ k → k ≤ last_index l → term_at l k ≢ term)
          → r ≡ (if ltb 0 hint then hint else 1))
find_conflict_term_index_lem l term hint rise = (
  (λ k lo hi same.
      let f = result-FirstOf l term rise k lo hi same in
      rw (find-result l term rise k lo hi same hint) (
        f.from,
        omega (arith, result-le l term rise k lo hi same),
        term_at-result l term rise k lo hi same,
        f.before,
      )),
  find-missing l term hint,
)
