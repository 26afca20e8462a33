-- ===== src/Snapshots.antt =====
-- src/snapshot/snapshot.h and snapshot.cpp: `SnapshotManager`, the directory of snapshot files. Its lock makes
-- each method atomic. The file operations succeed: what the code does where one fails is not modelled, and
-- neither is the temporary file, which is renamed or removed before a method returns. `max_snapshots_` is not
-- negative. The files are written by a little-endian machine.
pub mod Laws
use my_etcd.Base.{
  ℕ, ◌+◌, ◌-◌, ◌^◌, Bool, true, false, [], ◌∷◌, ◌++◌, Option, none, some, ltb, leb, ◌==◌,
  if◌then◌else◌, length, take, drop, Bytes, ◌>>=◌, nat_key,
}
use my_etcd.OrdMap.{OrdMap, lookup, insert}
use my_etcd.Types.{Snapshot}
use my_etcd.Codec.{le_bytes, read_le}

-- `files` are the snapshot files by the index in their name.
pub record SnapshotManager : Type 0 where
  pub files : OrdMap ℕ Bytes
  pub max_snapshots : ℕ

-- A snapshot file: the index, the term, the size, and the content.
unfoldable pub snapshot_bytes : ℕ → ℕ → ℕ → Bytes → Bytes
snapshot_bytes last_index last_term size content =
    le_bytes 8 last_index ++ (le_bytes 8 last_term ++ (le_bytes 4 size ++ content))

abbrev pub with_content : ℕ → ℕ → ℕ × Bytes → Option Snapshot
with_content last_index last_term (size, rest) =
    if ltb (length rest) size
    then none
    else some (record { last_index = last_index; last_term = last_term; content = take size rest })

-- `none` where a read fails: the loaded snapshot is then not used.
unfoldable pub read_snapshot : Bytes → Option Snapshot
read_snapshot bytes = do
  (last_index, r) ← read_le 8 bytes
  (last_term, s) ← read_le 8 r
  sized ← read_le 4 s
  with_content last_index last_term sized

-- The largest index of a file's name, above one that was found.
unfoldable pub latest : ℕ → OrdMap ℕ Bytes → ℕ
latest found [] = found
latest found ((idx, bytes) ∷ files) = latest (if ltb found idx then idx else found) files

-- A file of index 0 is not found.
unfoldable pub load_latest : OrdMap ℕ Bytes → Option Snapshot
unfolding latest read_snapshot
load_latest files =
    let idx = latest 0 files in if idx == 0 then none else lookup idx files >>= read_snapshot

unfoldable pub load_latest_snapshot : SnapshotManager → Option Snapshot
unfolding load_latest
load_latest_snapshot s = load_latest s.files

-- The files sorted by index, less the first ones: the map is in that order.
unfoldable pub cleanup_old_snapshots : SnapshotManager → SnapshotManager
cleanup_old_snapshots s =
    if leb (length s.files) s.max_snapshots
    then s
    else record s { files = drop (length s.files - s.max_snapshots) s.files }

unfoldable pub create_snapshot : ℕ → ℕ → Bytes → SnapshotManager → SnapshotManager × Bool
unfolding snapshot_bytes cleanup_old_snapshots
create_snapshot last_index last_term content s =
    if ltb (2 ^ 32 - 1) (length content) then (s, false) else (
      cleanup_old_snapshots (record s {
        files =
            insert last_index (snapshot_bytes last_index last_term (length content) content)
              s.files;
      }),
      true,
    )

unfoldable pub should_snapshot : ℕ → ℕ → ℕ → Bool
should_snapshot last_applied snapshot_index threshold =
    if leb last_applied snapshot_index then false else leb threshold (last_applied - snapshot_index)
