-- ===== src/Tests/WalTests.antt =====
-- The theorems of the files at small contents.
use my_etcd.Base.{
  ℕ, ◌<◌, Bytes, ◌≡◌, ◌≤◌, refl, arith, [], ◌∷◌, ◌++◌, some, none, true, false, length, nat_key,
  bytes_key,
}
use my_etcd.OrdMap.{lookup}
use my_etcd.Types.{RaftHardState, RaftEntry, default_entry}
use my_etcd.Codec.{le_bytes, event_byte, event_of_byte, conf_byte, conf_of_byte}
use my_etcd.Wal.Crc.{compute, update, final, table}
use my_etcd.Server.Json.{codes}
use my_etcd.Storage.Backend.{Backend, batch_put}
use my_etcd.Storage.Backend.DataFile.{flush_to_disk, load_from_disk}
use my_etcd.Storage.Backend.Reload.{storable, load_from_disk-flush_to_disk}
use my_etcd.Snapshots.{SnapshotManager, create_snapshot, load_latest_snapshot}
use my_etcd.Snapshots.Laws.{create_snapshot_lem}
use my_etcd.Wal.Entry.{
  entry_record, payload, write_str, conf_bytes, serialize_entry, deserialize_entry,
}
use my_etcd.Wal.RoundTrip.{IsLogged, survives, deserialize_entry-serialize_entry}
use my_etcd.Wal.Replay.{surviving}
use my_etcd.Wal.Contents.{IsLogOf, append_entries-read}
use my_etcd.Wal.Truncation.{truncate_from-keeps}
use my_etcd.Wal.{Wal, serialize_all, read_all_entries, append_entries, truncate_from}
use my_etcd.Tests.States.{entry_of, entry_of-IsCarried, key_a, key_b}

abbrev pub a_log : Wal
a_log = record {
  files = (0, []) ∷ [];
  hard_state = none;
  snaps = [];
  wal_seq = 0;
  last_index = 0;
  is_open = true;
}

record_length : length (entry_record (entry_of 3 4)) ≡ 38
unfolding entry_record payload write_str conf_bytes le_bytes
record_length = refl

entry_of-IsLogged : IsLogged (entry_of 3 4)
entry_of-IsLogged = record {
  carried = entry_of-IsCarried;
  key = omega arith;
  value = omega arith;
  peer_addr = omega arith;
  whole = omega (arith, record_length);
}

-- The check value of CRC-32.
crc_check : compute (codes "123456789") ≡ 0xCBF43926
unfolding compute update final table
crc_check = refl

entry_lost : survives (entry_of 3 4) ≡ false
unfolding survives compute update final table payload write_str conf_bytes le_bytes event_byte
entry_lost = refl

deserialize_entry-serialize_entry_example :
    deserialize_entry (serialize_entry (entry_of 3 4) ++ []) ≡ some default_entry
unfolding survives compute update final table payload write_str conf_bytes le_bytes event_byte
deserialize_entry-serialize_entry_example =
    deserialize_entry-serialize_entry (entry_of 3 4) [] entry_of-IsLogged

-- Entries whose values make the two checksums the same.
abbrev first_kept : RaftEntry
first_kept = record default_entry { term = 1; index = 1; key = key_a; value = codes "BqVJUGAA" }

abbrev second_kept : RaftEntry
second_kept = record default_entry { term = 1; index = 2; key = key_a; value = codes "etvASBAA" }

both_survive : surviving (first_kept ∷ second_kept ∷ []) ≡ first_kept ∷ second_kept ∷ []
unfolding surviving survives compute update final table payload write_str conf_bytes le_bytes
    event_byte
both_survive = refl

first_length : length (entry_record first_kept) ≡ 47
unfolding entry_record payload write_str conf_bytes le_bytes
first_length = refl

second_length : length (entry_record second_kept) ≡ 47
unfolding entry_record payload write_str conf_bytes le_bytes
second_length = refl

kept-IsLogged :
    (i : ℕ) (v : Bytes)
    → i < 100
    → length v ≡ 8
    → length (entry_record (record first_kept { index = i; value = v })) ≡ 47
    → IsLogged (record first_kept { index = i; value = v })
unfolding event_of_byte event_byte conf_of_byte conf_byte
kept-IsLogged i v h k l = record {
  carried = record {
    term = omega arith;
    index = omega (arith, h);
    type = refl;
    key = omega arith;
    value = omega (arith, k);
    lease_id = omega arith;
    no_conf = λ c. refl;
    conf_type = refl;
    node_id = omega arith;
    peer_addr = omega arith;
  };
  key = omega arith;
  value = omega (arith, k);
  peer_addr = omega arith;
  whole = omega (arith, l);
}

a_log-IsLogOf : IsLogOf [] a_log
unfolding serialize_all lookup
a_log-IsLogOf = record { single = refl; opened = refl; content = refl; logged = tt }

abbrev first_written : Wal
first_written = record a_log { files = (0, serialize_all (first_kept ∷ [])) ∷ []; last_index = 1 }

first_written-IsLogOf : IsLogOf (first_kept ∷ []) first_written
unfolding lookup
first_written-IsLogOf = record {
  single = refl;
  opened = refl;
  content = refl;
  logged = (kept-IsLogged 1 (codes "BqVJUGAA") (omega arith) refl first_length, tt);
}

-- The first entry comes again in front of the second one.
append_entries-read_example :
    (v : Wal) × (read_all_entries (append_entries (first_kept ∷ second_kept ∷ []) first_written).0
      ≡ some (v, first_kept ∷ second_kept ∷ []))
unfolding surviving survives compute update final table payload write_str conf_bytes le_bytes
    event_byte
append_entries-read_example =
    append_entries-read (first_kept ∷ []) (first_kept ∷ []) (second_kept ∷ []) first_written
      first_written-IsLogOf
      (kept-IsLogged 2 (codes "etvASBAA") (omega arith) refl second_length, tt)
      ((omega arith, omega arith), tt) (omega arith, tt)

abbrev both_written : Wal
both_written = record a_log { files = (0, serialize_all (first_kept ∷ second_kept ∷ [])) ∷ [] }

both_written-IsLogOf : IsLogOf (first_kept ∷ second_kept ∷ []) both_written
unfolding lookup
both_written-IsLogOf = record {
  single = refl;
  opened = refl;
  content = refl;
  logged = (
    kept-IsLogged 1 (codes "BqVJUGAA") (omega arith) refl first_length,
    (kept-IsLogged 2 (codes "etvASBAA") (omega arith) refl second_length, tt),
  );
}

truncate_from-keeps_example :
    (v : Wal) × ((truncate_from 2 both_written ≡ some v)
      × ((u : Wal) × (read_all_entries v ≡ some (u, first_kept ∷ second_kept ∷ second_kept ∷ []))))
unfolding surviving survives compute update final table payload write_str conf_bytes le_bytes
    event_byte
truncate_from-keeps_example =
    truncate_from-keeps 2 (first_kept ∷ []) (second_kept ∷ []) both_written both_written-IsLogOf
      (omega arith, tt) (omega arith, tt)

abbrev voted : RaftHardState
voted = record { current_term = 3; voted_for = some 2; commit_index = 4 }

abbrev pub one_snapshot : SnapshotManager
one_snapshot = record { files = (2, []) ∷ []; max_snapshots = 1 }

create_snapshot_lem_example :
    ((create_snapshot 5 2 key_a one_snapshot).1 ≡ true)
    × ((load_latest_snapshot (create_snapshot 5 2 key_a one_snapshot).0
          ≡ some (record { last_index = 5; last_term = 2; content = key_a }))
        × (length (create_snapshot 5 2 key_a one_snapshot).0.files ≤ 1))
create_snapshot_lem_example =
    create_snapshot_lem 5 2 key_a one_snapshot (omega arith) (omega arith) (omega arith)
      (omega arith) (omega arith) (tt, tt) (omega arith, tt)

abbrev with_empty_key : Backend
with_empty_key = ([], key_a) ∷ (key_b, key_a) ∷ []

load_from_disk-flush_to_disk_example : load_from_disk (some (flush_to_disk with_empty_key)) [] ≡ []
unfolding storable batch_put
load_from_disk-flush_to_disk_example =
    load_from_disk-flush_to_disk with_empty_key []
      ((omega arith, omega arith), ((omega arith, omega arith), tt))
