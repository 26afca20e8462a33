-- ===== src/Wal.antt =====
-- src/wal/wal.h and wal.cpp: `WAL`, the files that entries, the hard state and snapshots are kept in. Its
-- lock makes each method atomic. Reads and writes of files succeed: what the code does where one fails is not
-- modelled, and neither is when written bytes reach the disk. The files are written by a little-endian machine.
pub mod Crc
pub mod Entry
pub mod RoundTrip
pub mod Replay
pub mod Contents
pub mod Truncation
pub mod HardState
use my_etcd.Base.{
  ℕ, zero, suc, ◌+◌, ◌-◌, ◌%◌, ◌^◌, Bool, true, false, List, [], ◌∷◌, ◌++◌, Option, none, some, ltb,
  leb, ◌==◌, ◌&&◌, if◌then◌else◌, length, take, drop, last?, Bytes, ◌>>=◌, nat_key, get_or_else,
  max, sub64,
}
use my_etcd.OrdMap.{OrdMap, lookup, insert, erase}
use my_etcd.Types.{RaftEntry, RaftHardState, Snapshot, no_node_id}
use my_etcd.Snapshots.{snapshot_bytes, load_latest}
use my_etcd.Codec.{le_bytes, le_value, read_le}
use my_etcd.Wal.Entry.{serialize_entry, deserialize_entry}

-- `files` are the log files by number, `hard_state` the file of that name, and `snaps` the snapshot files
-- by index.
pub record Wal : Type 0 where
  pub files : OrdMap ℕ Bytes
  pub hard_state : Option Bytes
  pub snaps : OrdMap ℕ Bytes
  pub wal_seq : ℕ
  pub last_index : ℕ
  pub is_open : Bool

-- The largest number of a file.
unfoldable pub last_seq : ℕ → OrdMap ℕ Bytes → ℕ
last_seq found [] = found
last_seq found ((seq, content) ∷ files) = last_seq (if leb found seq then seq else found) files

abbrev pub content_at : ℕ → OrdMap ℕ Bytes → Bytes
content_at seq files = get_or_else (lookup seq files) []

-- A file is created where there is none.
unfoldable pub open_wal : Wal → Wal
unfolding last_seq
open_wal w =
    let seq = last_seq 0 w.files in
    record w { files = insert seq (content_at seq w.files) w.files; wal_seq = seq; is_open = true }

unfoldable pub close : Wal → Wal
close w = record w { is_open = false }

unfoldable pub save_hard_state : RaftHardState → Wal → Wal
save_hard_state st w = record w {
  hard_state = some (
      le_bytes 8 st.current_term
      ++ (le_bytes 8 (get_or_else st.voted_for no_node_id) ++ le_bytes 8 st.commit_index));
}

-- `none` where a read fails; what it leaves in its argument is then not used.
unfoldable pub read_hard_state : Bytes → Option RaftHardState
read_hard_state bytes = do
  (term, r) ← read_le 8 bytes
  (voted, s) ← read_le 8 r
  (commit_index, rest) ← read_le 8 s
  some (record {
    current_term = term;
    voted_for = if voted == no_node_id then none else some voted;
    commit_index = commit_index;
  })

unfoldable pub load_hard_state : Wal → Option RaftHardState
unfolding read_hard_state
load_hard_state w = do bytes ← w.hard_state; read_hard_state bytes

-- The entries that `AppendEntries` does not skip, and the last index after them.
unfoldable pub monotone : ℕ → List RaftEntry → List RaftEntry
monotone last [] = []
monotone last (e ∷ es) =
    let skipped = monotone last es in
    let written = monotone e.index es in
    if leb e.index last && ltb 0 last then skipped else e ∷ written

abbrev pub index_after : ℕ → List RaftEntry → ℕ
index_after last es = elim (last? es) [ none ↦ last | some e ↦ e.index ]

unfoldable pub serialize_all : List RaftEntry → Bytes
serialize_all [] = []
serialize_all (e ∷ es) = serialize_entry e ++ serialize_all es

abbrev pub appended : List RaftEntry → Wal → Wal
appended new w = record w {
  files = insert w.wal_seq (content_at w.wal_seq w.files ++ serialize_all new) w.files;
  last_index = index_after w.last_index new;
}

unfoldable pub append_entries : List RaftEntry → Wal → Wal × Bool
unfolding monotone serialize_all
append_entries es w =
    if w.is_open then (appended (monotone w.last_index es) w, true) else (w, false)

-- An entry of index 0 is dropped: that is what a failed record reads as.
abbrev pub keep_read : RaftEntry → List RaftEntry → List RaftEntry
keep_read e rest = if ltb 0 e.index then e ∷ rest else rest

-- The loop over the records of a file. It goes on past a record of `len` bytes and its length field, so the
-- length of the buffer is fuel enough.
unfoldable pub read_file : ℕ → Bytes → Option (List RaftEntry)
read_file zero bytes = some []
read_file (suc fuel) bytes =
    let len = le_value (take 4 bytes) in
    let later = read_file fuel (drop (4 + len) bytes) in
    if ltb (length bytes) 4
    then some []
    else if len == 0
    then some []
    else if ltb (length bytes) (4 + len)
    then some []
    else (do e ← deserialize_entry bytes; rest ← later; some (keep_read e rest))

-- The files from a number on, up to the current one.
unfoldable pub read_files : ℕ → ℕ → OrdMap ℕ Bytes → Option (List RaftEntry)
unfolding read_file
read_files zero seq files = some []
read_files (suc count) seq files = do
  es ← read_file (length (content_at seq files)) (content_at seq files)
  rest ← read_files count (seq + 1) files
  some (es ++ rest)

unfoldable pub max_index : ℕ → List RaftEntry → ℕ
max_index last [] = last
max_index last (e ∷ es) = max_index (max last e.index) es

unfoldable pub read_all_entries : Wal → Option (Wal × List RaftEntry)
unfolding read_files max_index
read_all_entries w = do
  es ← read_files (w.wal_seq + 1) 0 w.files
  some (record w { last_index = max_index w.last_index es }, es)

unfoldable pub from_index : ℕ → List RaftEntry → List RaftEntry
from_index idx [] = []
from_index idx (e ∷ es) = let rest = from_index idx es in if leb idx e.index then e ∷ rest else rest

-- `for (seq = 0; seq < count; ++seq) remove(…)`
unfoldable pub remove_below : ℕ → OrdMap ℕ Bytes → OrdMap ℕ Bytes
remove_below zero files = files
remove_below (suc count) files = erase count (remove_below count files)

abbrev pub rewritten : ℕ → Wal → List RaftEntry → Wal
rewritten idx w kept = record w {
  files = insert (w.wal_seq + 1) (serialize_all kept) (remove_below w.wal_seq w.files);
  wal_seq = w.wal_seq + 1;
  last_index = index_after (sub64 idx 1) kept;
  is_open = true;
}

unfoldable pub truncate_from : ℕ → Wal → Option Wal
unfolding read_all_entries from_index remove_below serialize_all
truncate_from idx w = do (v, es) ← read_all_entries w; some (rewritten idx v (from_index idx es))

-- The size is cast to 32 bits.
unfoldable pub save_snapshot : Snapshot → Wal → Wal
save_snapshot snap w = record w {
  snaps =
      insert snap.last_index
        (snapshot_bytes snap.last_index snap.last_term (length snap.content % 2 ^ 32) snap.content)
        w.snaps;
}

unfoldable pub load_snapshot : Wal → Option Snapshot
load_snapshot w = load_latest w.snaps
