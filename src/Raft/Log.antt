-- ===== src/Raft/Log.antt =====
-- src/raft/raft_log.h: `RaftLog`, the log of a node in memory. Its mutex makes each method atomic, so
-- a method is a function of the log. The proofs are in the modules below.
pub mod Contiguous
pub mod Access
pub mod Overwrite
pub mod Interval
use my_etcd.Base.{
  ℕ, ◌+◌, ◌-◌, Bool, List, [], ◌∷◌, ◌++◌, Option, none, some, ltb, leb, ◌==◌, ◌&&◌, if◌then◌else◌,
  length, get_elem?, take, drop, last?, add64,
}
use my_etcd.Types.{RaftEntry, no_index, no_term}

pub record RaftLog : Type 0 where
  pub entries : List RaftEntry
  pub first_index : ℕ

-- `RaftLog() = default`
abbrev pub empty_log : RaftLog
empty_log = record { entries = []; first_index = 1 }

abbrev pub index_or : ℕ → Option RaftEntry → ℕ
index_or d none = d
index_or d (some e) = e.index

abbrev pub term_or : ℕ → Option RaftEntry → ℕ
term_or d none = d
term_or d (some e) = e.term

unfoldable pub last_index : RaftLog → ℕ
last_index l = index_or no_index (last? l.entries)

unfoldable pub last_term : RaftLog → ℕ
last_term l = term_or no_term (last? l.entries)

-- An index at or past the end has no element, as the test `offset >= entries_.size()` has it.
unfoldable pub term_at : RaftLog → ℕ → ℕ
term_at l idx =
    if ltb idx l.first_index
    then no_term
    else term_or no_term (get_elem? l.entries (idx - l.first_index))

unfoldable pub append : RaftLog → RaftEntry → RaftLog × ℕ
append l e = (record l { entries = l.entries ++ e ∷ [] }, e.index)

-- The index that a batch must start with.
abbrev pub expected_index : RaftLog → ℕ
expected_index l = elim (last? l.entries) [ none ↦ l.first_index | some e ↦ add64 e.index 1 ]

unfoldable pub append_all : RaftLog → List RaftEntry → RaftLog
append_all l [] = l
append_all l (e ∷ es) =
    if e.index == expected_index l then record l { entries = l.entries ++ e ∷ es } else l

unfoldable pub last_index_unsafe : RaftLog → ℕ
last_index_unsafe l =
    index_or (if ltb 0 l.first_index then l.first_index - 1 else no_index) (last? l.entries)

-- The vector of the elements from `offset` up to `end`.
abbrev pub sub_vector : List RaftEntry → ℕ → ℕ → List RaftEntry
sub_vector es offset end = take (end - offset) (drop offset es)

abbrev pub clamp_below : RaftLog → ℕ → ℕ
clamp_below l start = if ltb start l.first_index then l.first_index else start

unfoldable pub entries_from : RaftLog → ℕ → ℕ → List RaftEntry
unfolding last_index_unsafe
entries_from l start' limit =
    let start = clamp_below l start' in
    if ltb (last_index_unsafe l) start
    then []
    else let offset = start - l.first_index in
      let size = length l.entries in
      sub_vector l.entries offset
        (if ltb 0 limit && ltb (add64 offset limit) size then add64 offset limit else size)

unfoldable pub slice : RaftLog → ℕ → ℕ → List RaftEntry
unfolding last_index_unsafe
slice l start' end' =
    let start = clamp_below l start' in
    let past = add64 (last_index_unsafe l) 1 in
    let end = if ltb past end' then past else end' in
    if leb end start then [] else sub_vector l.entries (start - l.first_index) (end - l.first_index)

unfoldable pub truncate_from : RaftLog → ℕ → RaftLog
truncate_from l idx =
    if leb idx l.first_index
    then l
    else if leb (length l.entries) (idx - l.first_index)
    then record { entries = []; first_index = idx }
    else record { entries = drop (idx - l.first_index) l.entries; first_index = idx }

unfoldable pub truncate_to : RaftLog → ℕ → RaftLog
truncate_to l idx =
    if ltb idx l.first_index
    then record { entries = []; first_index = add64 idx 1 }
    else let keep = add64 (idx - l.first_index) 1 in
      if leb (length l.entries) keep then l else record l { entries = take keep l.entries }

unfoldable pub entry_at : RaftLog → ℕ → Option RaftEntry
entry_at l idx = if ltb idx l.first_index then none else get_elem? l.entries (idx - l.first_index)

unfoldable pub size : RaftLog → ℕ
size l = length l.entries

unfoldable pub match_term : RaftLog → ℕ → ℕ → Bool
unfolding term_at
match_term l idx term = term_at l idx == term

unfoldable pub reset : RaftLog → ℕ → RaftLog
reset l start_index = record { entries = []; first_index = start_index }

unfoldable pub restore : RaftLog → ℕ → RaftLog
restore l last = record { entries = []; first_index = add64 last 1 }
