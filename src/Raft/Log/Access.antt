-- ===== src/Raft/Log/Access.antt =====
-- What the reads of a well-formed log return: `EntryAt`, `TermAt`, `Slice` and `EntriesFrom` agree.
use my_etcd.Base.{
  ℕ, ◌+◌, ◌-◌, ◌<◌, ◌≤◌, ◌≡◌, List, [], ◌∷◌, none, some, arith, ltb, leb, if◌then◌else◌, length,
  get_elem?, drop, add64, length-take, ap, ◌∙◌, Bool-cases, inl, inr, min, max, false,
  get_elem?-past, get_elem?-take, get_elem?-drop, get_elem?-within, subst, last?-snoc,
  get_elem?-append_right,
}
use my_etcd.Types.{RaftEntry, no_term}
use my_etcd.Raft.Log.{
  RaftLog, last_index_unsafe, term_at, entry_at, slice, append, sub_vector, term_or, clamp_below,
  last_index,
}
use my_etcd.Raft.Log.Contiguous.{
  IsWf, Numbered, next_index_of, Numbered-get_elem?, last_index_unsafe-suc, Numbered-take,
  Numbered-drop, last?-Numbered,
}

-- In a well-formed log, an entry that `EntryAt` finds carries the index that was asked for, that
-- index is in the log's range, and `TermAt` has the entry's term; every index of the range has an
-- entry; and where there is none `TermAt` is 0.
pub entry_at-IsWf :
    (l : RaftLog) (i : ℕ)
    → IsWf l
    → ((e : RaftEntry)
        → entry_at l i ≡ some e
        → (e.index ≡ i) × (term_at l i ≡ e.term) × (l.first_index ≤ i) × (i < next_index_of l))
      × (l.first_index ≤ i → i < next_index_of l → (e : RaftEntry) × (entry_at l i ≡ some e))
      × (entry_at l i ≡ none → term_at l i ≡ no_term)
unfolding entry_at term_at
entry_at-IsWf l i w = (
  (λ e h. (index e h, ground arith, ground arith, range e h)),
  (λ lo hi. found lo hi),
  ground arith,
)
  where
    off : ℕ
    off = i - l.first_index

    hit : (e : RaftEntry) → entry_at l i ≡ some e → get_elem? l.entries off ≡ some e
    hit e h = ground arith

    index : (e : RaftEntry) → entry_at l i ≡ some e → e.index ≡ i
    index e h =
        ground (arith, Numbered-get_elem? l.first_index off l.entries e w.numbered (hit e h))

    range : (e : RaftEntry) → entry_at l i ≡ some e → i < next_index_of l
    range e h = ground (arith, hit e h, get_elem?-past l.entries off)

    found : l.first_index ≤ i → i < next_index_of l → (e : RaftEntry) × (entry_at l i ≡ some e)
    found lo hi = let r = get_elem?-within l.entries off (omega arith) in (r.0, ground (arith, r.1))

sub_vector-get_elem? :
    (es : List RaftEntry) (s e j : ℕ)
    → get_elem? (sub_vector es s e) j ≡ (if ltb j (e - s) then get_elem? es (s + j) else none)
sub_vector-get_elem? es s e j = elim (Bool-cases (ltb j (e - s))) [
  | inl within ↦
      rw within (get_elem?-take (drop s es) (e - s) j (ground arith) ∙ get_elem?-drop es s j)
  | inr past ↦
      rw past
        (get_elem?-past (sub_vector es s e) j (ground (arith, length-take (e - s) (drop s es))))
]

pub slice_lem :
    (l : RaftLog) (start end : ℕ)
    → IsWf l
    → slice l start end
      ≡ sub_vector l.entries
          (max start l.first_index - l.first_index)
          (min end (next_index_of l) - l.first_index)
unfolding slice
slice_lem l start end w =
    rw (ends, starts)
      (elim (Bool-cases (leb hi lo)) [
        | inl none_left ↦ let z : hi - first - (lo - first) ≡ 0 = ground arith in rw (none_left, z)
        | inr some_left ↦ rw some_left
      ])
  where
    first : ℕ
    first = l.first_index

    lo : ℕ
    lo = max start l.first_index

    hi : ℕ
    hi = min end (next_index_of l)

    past : ℕ → ℕ
    past n = if ltb (add64 (last_index_unsafe l) 1) n then add64 (last_index_unsafe l) 1 else n

    ends : past end ≡ min end (next_index_of l)
    ends = ground (arith, last_index_unsafe-suc l w)

    starts : clamp_below l start ≡ max start l.first_index
    starts = ground arith

-- On a well-formed log, `Slice(start, end)` clamps the interval to the log and returns its entries
-- in order: element j is the entry at the j-th index of the interval, and there is none past its
-- end.
pub slice-entry_at :
    (l : RaftLog) (start end j : ℕ)
    → IsWf l
    → get_elem? (slice l start end) j ≡ (
        if ltb (max start l.first_index + j) (min end (next_index_of l))
        then entry_at l (max start l.first_index + j)
        else none)
unfolding slice entry_at
slice-entry_at l start end j w =
    ap (λ xs. get_elem? xs j) (slice_lem l start end w)
    ∙ sub_vector-get_elem? l.entries (max start l.first_index - l.first_index)
        (min end (next_index_of l) - l.first_index) j
    ∙ shift
  where
    lo : ℕ
    lo = max start l.first_index

    hi : ℕ
    hi = min end (next_index_of l)

    shift :
        (if ltb j (hi - l.first_index - (lo - l.first_index))
          then get_elem? l.entries (lo - l.first_index + j)
          else none)
        ≡ (if ltb (lo + j) hi then entry_at l (lo + j) else none)
    shift = let e : lo - l.first_index + j ≡ lo + j - l.first_index = omega arith in ground arith

sub_vector-Numbered :
    (n s e : ℕ) (es : List RaftEntry) → Numbered n es → Numbered (n + s) (sub_vector es s e)
sub_vector-Numbered n s e es h = Numbered-take (n + s) (e - s) (drop s es) (Numbered-drop n s es h)

-- A slice of a well-formed log is numbered from the start of the clamped interval.
pub slice-Numbered :
    (l : RaftLog) (start end : ℕ) → IsWf l → Numbered (max start l.first_index) (slice l start end)
slice-Numbered l start end w = rw (slice_lem l start end w) (
    subst (λ k. Numbered k part) e
      (sub_vector-Numbered l.first_index off (min end (next_index_of l) - l.first_index) l.entries
        w.numbered))
  where
    off : ℕ
    off = max start l.first_index - l.first_index

    part : List RaftEntry
    part = sub_vector l.entries off (min end (next_index_of l) - l.first_index)

    e : l.first_index + off ≡ max start l.first_index
    e = omega arith

-- An appended entry is the last one, and on a well-formed log it stands at the next index, with all
-- other indices as before.
pub append-last_index : (l : RaftLog) (e : RaftEntry) → last_index (append l e).0 ≡ e.index
unfolding last_index append
append-last_index l e = rw (last?-snoc l.entries e)

pub append-entry_at :
    (l : RaftLog) (e : RaftEntry) → entry_at (append l e).0 (next_index_of l) ≡ some e
unfolding entry_at append
append-entry_at l e =
    let inside : ltb (next_index_of l) l.first_index ≡ false = ground arith in
    let at : next_index_of l - l.first_index ≡ length l.entries + 0 = omega arith in
    rw (inside, at) (get_elem?-append_right l.entries (e ∷ []) 0)

pub term_at-entry_at : (l : RaftLog) (i : ℕ) → term_at l i ≡ term_or no_term (entry_at l i)
unfolding term_at entry_at
term_at-entry_at l i = ground arith

-- In a log that holds an entry, the last index comes just before the next one.
pub last_index-next :
    (l : RaftLog) → IsWf l → l.first_index < next_index_of l → last_index l + 1 ≡ next_index_of l
unfolding last_index
last_index-next l w some_there = ground (arith, last?-Numbered l.first_index l.entries w.numbered)

pub last_index-lt : (l : RaftLog) → IsWf l → last_index l < next_index_of l
unfolding last_index
last_index-lt l w = ground (arith, last?-Numbered l.first_index l.entries w.numbered, w.positive)
