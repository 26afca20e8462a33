-- ===== src/Raft/Log/Interval.antt =====
-- The entries that a slice of a log holds, told by their indices alone: src/raft/raft_log.cpp.
use my_etcd.Base.{
  ℕ, zero, suc, true, false, ◌+◌, ◌-◌, ◌<◌, ◌≤◌, ◌≡◌, refl, ap, sym, ◌∙◌, arith, Bool-cases, inl,
  inr, List, [], ◌∷◌, ltb, leb, ◌&&◌, if◌then◌else◌, length, take, drop, take_all, length-drop, min,
  max, nat_key,
}
use my_etcd.Types.{RaftEntry}
use my_etcd.Raft.Log.{RaftLog, slice, sub_vector}
use my_etcd.Raft.Log.Contiguous.{IsWf, Numbered, next_index_of}
use my_etcd.Raft.Log.Access.{slice_lem}

-- The entries with an index after `low` and up to `high`, in order.
unfoldable pub indexed_within : ℕ → ℕ → List RaftEntry → List RaftEntry
indexed_within low high [] = []
indexed_within low high (e ∷ es) =
    let rest = indexed_within low high es in
    if ltb low e.index && leb e.index high then e ∷ rest else rest

pub none_between :
    (low high : ℕ) (es : List RaftEntry) → high ≤ low → indexed_within low high es ≡ []
unfolding indexed_within
none_between low high [] h = refl
none_between low high (e ∷ es) h = ground (arith, none_between low high es h)

none_within :
    (low high n : ℕ) (es : List RaftEntry)
    → Numbered n es
    → high < n
    → indexed_within low high es ≡ []
unfolding indexed_within
none_within low high n [] h past = refl
none_within low high n (e ∷ es) h past =
    ground (arith, none_within low high (suc n) es h.1 (omega arith), h.0)

first_within :
    (low high n : ℕ) (es : List RaftEntry)
    → Numbered n es
    → low < n
    → indexed_within low high es ≡ take (high + 1 - n) es
unfolding indexed_within
first_within low high n [] h from = sym (take_all (high + 1 - n) [] (omega arith))
first_within low high n (e ∷ es) h from = elim (Bool-cases (leb n high)) [
  | inl inside ↦
      let here : high + 1 - n ≡ suc (high + 1 - suc n) = ground arith in
      let kept : leb e.index high ≡ true = ground (arith, h.0) in
      let after : ltb low e.index ≡ true = ground (arith, h.0) in
      rw (here, kept, after) (ap (◌∷◌ e) (first_within low high (suc n) es h.1 (omega arith)))
  | inr past ↦
      let here : high + 1 - n ≡ 0 = ground arith in
      rw here (none_within low high n (e ∷ es) h (ground arith))
]

sub_vector_nil : (s e : ℕ) → sub_vector [] s e ≡ []
sub_vector_nil zero e = take_all (e - 0) [] (omega arith)
sub_vector_nil (suc s) e = take_all (e - suc s) [] (omega arith)

indexed_within-sub_vector :
    (low high n : ℕ) (es : List RaftEntry)
    → Numbered n es
    → indexed_within low high es ≡ sub_vector es (low + 1 - n) (high + 1 - n)
unfolding indexed_within
indexed_within-sub_vector low high n [] h = sym (sub_vector_nil (low + 1 - n) (high + 1 - n))
indexed_within-sub_vector low high n (e ∷ es) h = elim (Bool-cases (ltb low n)) [
  | inl from ↦
      let start : low + 1 - n ≡ 0 = ground arith in
      let size : high + 1 - n - 0 ≡ high + 1 - n = omega arith in
      rw (start, size) (first_within low high n (e ∷ es) h (ground arith))
  | inr before ↦
      let start : low + 1 - n ≡ suc (low + 1 - suc n) = ground arith in
      let size : high + 1 - n - suc (low + 1 - suc n) ≡ high + 1 - suc n - (low + 1 - suc n) =
        ground arith in
      let skipped : ltb low e.index ≡ false = ground (arith, h.0) in
      rw (start, size, skipped) (indexed_within-sub_vector low high (suc n) es h.1)
]

-- A slice takes no more than there is.
sub_vector-past :
    (s e : ℕ) (es : List RaftEntry) → sub_vector es s (min e (length es)) ≡ sub_vector es s e
sub_vector-past s e es = elim (Bool-cases (leb e (length es))) [
  | inl within ↦ let same : min e (length es) ≡ e = ground arith in rw same refl
  | inr past ↦
      take_all (min e (length es) - s) (drop s es) (ground (arith, length-drop s es))
      ∙ sym (take_all (e - s) (drop s es) (ground (arith, length-drop s es)))
]

-- On a well-formed log, the slice that starts behind `low` and ends with `high` holds the entries of the log with
-- an index after `low` and up to `high`, in order, whatever part of the interval the log has.
pub slice-indexed_within :
    (l : RaftLog) (low high : ℕ)
    → IsWf l
    → slice l (low + 1) (high + 1) ≡ indexed_within low high l.entries
slice-indexed_within l low high w =
    let start : max (low + 1) l.first_index - l.first_index ≡ low + 1 - l.first_index =
      omega arith in
    let end : min (high + 1) (next_index_of l) - l.first_index
        ≡ min (high + 1 - l.first_index) (length l.entries) =
      omega arith in
    slice_lem l (low + 1) (high + 1) w
    ∙ rw (start, end)
        (sub_vector-past (low + 1 - l.first_index) (high + 1 - l.first_index) l.entries)
    ∙ sym (indexed_within-sub_vector low high l.first_index l.entries w.numbered)
