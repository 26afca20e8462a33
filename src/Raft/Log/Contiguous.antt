-- ===== src/Raft/Log/Contiguous.antt =====
-- Well-formed logs: entry i of the vector carries the index `first_index + i`, and every operation of
-- `RaftLog` keeps that.
use my_etcd.Base.{
  ℕ, zero, suc, ◌+◌, ◌-◌, ◌<◌, ◌≡◌, refl, ◌^◌, List, [], ◌∷◌, ◌++◌, none, some, arith, ltb, leb,
  ◌==◌, length, get_elem?, take, drop, last?, add64, length-append, length-take, length-drop,
  Bool-cases, ◌⊎◌, inl, inr, subst, true,
}
use my_etcd.Types.{RaftEntry}
use my_etcd.Raft.Log.{
  RaftLog, empty_log, last_index_unsafe, append, append_all, truncate_from, truncate_to, reset,
  restore, expected_index,
}

-- The indices of the list are n, n + 1, ….
abbrev pub Numbered : ℕ → List RaftEntry → Type 0
Numbered n [] = Unit
Numbered n (e ∷ es) = (e.index ≡ n) × Numbered (suc n) es

pub record IsWf (l : RaftLog) : Type 0 where
  pub positive : 0 < l.first_index
  pub numbered : Numbered l.first_index l.entries
  pub fits : l.first_index + length l.entries < 2 ^ 64

-- The index that the next entry must have.
abbrev pub next_index_of : RaftLog → ℕ
next_index_of l = l.first_index + length l.entries

pub Numbered-append :
    (n : ℕ) (xs ys : List RaftEntry)
    → Numbered n xs
    → Numbered (n + length xs) ys
    → Numbered n (xs ++ ys)
Numbered-append n [] ys h k = let e : n + 0 ≡ n = omega arith in rw e at k
Numbered-append n (x ∷ xs) ys h k =
    let e : n + suc (length xs) ≡ suc n + length xs = omega arith in
    (h.0, Numbered-append (suc n) xs ys h.1 (rw e at k))

pub Numbered-take : (n k : ℕ) (xs : List RaftEntry) → Numbered n xs → Numbered n (take k xs)
Numbered-take n zero xs h = tt
Numbered-take n (suc k) [] h = tt
Numbered-take n (suc k) (x ∷ xs) h = (h.0, Numbered-take (suc n) k xs h.1)

pub Numbered-drop : (n k : ℕ) (xs : List RaftEntry) → Numbered n xs → Numbered (n + k) (drop k xs)
Numbered-drop n zero xs h = let e : n + 0 ≡ n = omega arith in rw e h
Numbered-drop n (suc k) [] h = tt
Numbered-drop n (suc k) (x ∷ xs) h =
    let e : n + suc k ≡ suc n + k = omega arith in rw e (Numbered-drop (suc n) k xs h.1)

pub Numbered-get_elem? :
    (n i : ℕ) (xs : List RaftEntry) (e : RaftEntry)
    → Numbered n xs
    → get_elem? xs i ≡ some e
    → e.index ≡ n + i
Numbered-get_elem? n i [] e h p = cc
Numbered-get_elem? n zero (x ∷ xs) e h p = ground arith
Numbered-get_elem? n (suc i) (x ∷ xs) e h p = omega (arith, Numbered-get_elem? (suc n) i xs e h.1 p)

-- A numbered list is empty, or its last entry comes just before the next index.
pub last?-Numbered :
    (n : ℕ) (xs : List RaftEntry)
    → Numbered n xs
    → ((xs ≡ []) × (length xs ≡ 0) × (last? xs ≡ none))
      ⊎ ((e : RaftEntry) × (last? xs ≡ some e) × (suc e.index ≡ n + length xs) × (0 < length xs))
last?-Numbered n [] h = inl (refl, refl, refl)
last?-Numbered n (x ∷ []) h = inr (x, refl, omega arith, omega arith)
last?-Numbered n (x ∷ y ∷ xs) h = elim (last?-Numbered (suc n) (y ∷ xs) h.1) [
  | inl r ↦ absurd (omega (arith, r.1))
  | inr r ↦ inr (r.0, r.1, omega (arith, r.2), omega arith)
]

module _ (l : RaftLog) (w : IsWf l) where
  pub last_index_unsafe-suc : suc (last_index_unsafe l) ≡ next_index_of l
  unfolding last_index_unsafe
  last_index_unsafe-suc = ground (arith, last?-Numbered l.first_index l.entries w.numbered)

  pub expected_index-next : expected_index l ≡ next_index_of l
  expected_index-next = ground (arith, last?-Numbered l.first_index l.entries w.numbered)

  pub append-IsWf :
      (e : RaftEntry) → e.index ≡ next_index_of l → e.index + 1 < 2 ^ 64 → IsWf (append l e).0
  unfolding append
  append-IsWf e h fits = record {
    positive = w.positive;
    numbered = Numbered-append l.first_index l.entries (e ∷ []) w.numbered (h, tt);
    fits = omega (arith, length-append l.entries (e ∷ []));
  }

  pub append_all-IsWf :
      (n : ℕ) (es : List RaftEntry)
      → Numbered n es
      → n + length es < 2 ^ 64
      → IsWf (append_all l es)
  unfolding append_all
  append_all-IsWf n [] h fits = w
  append_all-IsWf n (e ∷ es) h fits = elim (Bool-cases (e.index == expected_index l)) [
    | inl same ↦ rw same (record {
      positive = w.positive;
      numbered =
          Numbered-append l.first_index l.entries (e ∷ es) w.numbered
            (subst (λ k. Numbered k (e ∷ es)) (starts same) h);
      fits = omega (arith, length-append l.entries (e ∷ es), starts same);
    })
    | inr differ ↦ rw differ w
  ]
    where
      starts : (e.index == expected_index l) ≡ true → n ≡ l.first_index + length l.entries
      starts same = ground (arith, expected_index-next, h.0)

  pub truncate_from-IsWf : (idx : ℕ) → idx < 2 ^ 64 → IsWf (truncate_from l idx)
  unfolding truncate_from
  truncate_from-IsWf idx h = elim (Bool-cases (leb idx l.first_index)) [
    | inl old ↦ rw old w
    | inr new ↦ elim (Bool-cases (leb (length l.entries) (idx - l.first_index))) [
      | inl all ↦
          rw (new, all) (record { positive = ground arith; numbered = tt; fits = omega arith })
      | inr some_left ↦
          rw (new, some_left)
            (record {
              positive = ground arith;
              numbered = moved (ground arith);
              fits = ground (arith, length-drop (idx - l.first_index) l.entries);
            })
    ]
  ]
    where
      moved :
          l.first_index + (idx - l.first_index) ≡ idx
          → Numbered idx (drop (idx - l.first_index) l.entries)
      moved e =
          subst (λ k. Numbered k (drop (idx - l.first_index) l.entries)) e
            (Numbered-drop l.first_index (idx - l.first_index) l.entries w.numbered)

  pub truncate_to-IsWf : (idx : ℕ) → idx < 2 ^ 64 → IsWf (truncate_to l idx)
  unfolding truncate_to
  truncate_to-IsWf idx h = elim (Bool-cases (ltb idx l.first_index)) [
    | inl before ↦
        rw before (record { positive = ground arith; numbered = tt; fits = ground arith })
    | inr within ↦ elim (Bool-cases (leb (length l.entries) (add64 (idx - l.first_index) 1))) [
      | inl all ↦ rw (within, all) w
      | inr cut ↦
          rw (within, cut)
            (record {
              positive = w.positive;
              numbered =
                  Numbered-take l.first_index (add64 (idx - l.first_index) 1) l.entries w.numbered;
              fits = omega (arith, length-take (add64 (idx - l.first_index) 1) l.entries);
            })
    ]
  ]

  pub restore-IsWf : (last : ℕ) → last + 1 < 2 ^ 64 → IsWf (restore l last)
  unfolding restore
  restore-IsWf last h = record { positive = omega arith; numbered = tt; fits = omega arith }

  pub reset-IsWf : (start : ℕ) → 0 < start → start < 2 ^ 64 → IsWf (reset l start)
  unfolding reset
  reset-IsWf start pos h = record { positive = pos; numbered = tt; fits = omega arith }

-- One use of a log by its node: a single entry is given the next index, a batch is numbered.
pub data LogStep (l : RaftLog) : RaftLog → Type 0 where
  appends :
      (e : RaftEntry) → e.index ≡ next_index_of l → e.index + 1 < 2 ^ 64 → LogStep l (append l e).0
  appends_all :
      (n : ℕ) (es : List RaftEntry)
      → Numbered n es
      → n + length es < 2 ^ 64
      → LogStep l (append_all l es)
  truncates_from : (idx : ℕ) → idx < 2 ^ 64 → LogStep l (truncate_from l idx)
  truncates_to : (idx : ℕ) → idx < 2 ^ 64 → LogStep l (truncate_to l idx)
  restores : (last : ℕ) → last + 1 < 2 ^ 64 → LogStep l (restore l last)
  resets : (start : ℕ) → 0 < start → start < 2 ^ 64 → LogStep l (reset l start)

pub data LogReach (l : RaftLog) : RaftLog → Type 0 where
  here : LogReach l l
  next : {m k : RaftLog} → LogReach l m → LogStep m k → LogReach l k

LogStep-IsWf : {l m : RaftLog} → LogStep l m → IsWf l → IsWf m
LogStep-IsWf {l} (appends e h fits) w = append-IsWf l w e h fits
LogStep-IsWf {l} (appends_all n es h fits) w = append_all-IsWf l w n es h fits
LogStep-IsWf {l} (truncates_from idx h) w = truncate_from-IsWf l w idx h
LogStep-IsWf {l} (truncates_to idx h) w = truncate_to-IsWf l w idx h
LogStep-IsWf {l} (restores last h) w = restore-IsWf l w last h
LogStep-IsWf {l} (resets start pos h) w = reset-IsWf l w start pos h

-- From a well-formed log, any sequence of appends of the next index, of numbered batches (which the
-- log may refuse), truncations, restores and resets, at indices within 64 bits, leads to a well-
-- formed log: entry i of the vector carries the index first_index + i, and no index overflows 64
-- bits.
pub LogReach-IsWf : {l m : RaftLog} → LogReach l m → IsWf l → IsWf m
LogReach-IsWf here w = w
LogReach-IsWf (next r st) w = LogStep-IsWf st (LogReach-IsWf r w)

pub empty_log-IsWf : IsWf empty_log
empty_log-IsWf = record { positive = omega arith; numbered = tt; fits = omega arith }
