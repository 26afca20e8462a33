-- ===== src/Tests/ServerTests.antt =====
-- The theorems of the server at small states.
use my_etcd.Base.{
  ℕ, ◌≡◌, ◌≤◌, ◌<◌, refl, arith, [], ◌∷◌, some, none, true, false, Bytes, length, nat_key,
  bytes_key, ◌>>=◌, ◌==◌, ◌||◌, str_eq, has_prefix,
}
use my_etcd.OrdMap.{lookup, has_key}
use my_etcd.Types.{RaftEntry, EventType, default_entry}
use my_etcd.Raft.Node.{IdSet}
use my_etcd.Raft.Log.{last_index}
use my_etcd.Storage.KvStore
use my_etcd.Storage.KvStore.{
  KvStore, empty_store, serialize, deserialize, load_pairs, restore_from_entries, write_pairs,
  write_u32,
}
use my_etcd.Storage.Backend
use my_etcd.Storage.KvStore.Agreement.{KvReach}
use my_etcd.Snapshots.{create_snapshot, load_latest_snapshot}
use my_etcd.Lease.{no_leases}
use my_etcd.Watch.{no_watchers, watch}
use my_etcd.Wal.{load_hard_state}
use my_etcd.Server.{EtcdServer, process_raft_entries, raft_ready_handler}
use my_etcd.Server.Machine.{values, written, process_raft_entries_lem, replay-process}
use my_etcd.Server.Durability.{raft_ready_handler-load_hard_state, snapshot_store}
use my_etcd.Server.Requests.{free_id}
use my_etcd.Server.Members.{free_id_lem}
use my_etcd.Server.Txn.{txn, conditions_met, all_met, compare_section, split_at, objects}
use my_etcd.Raft.Log.Contiguous.{IsWf}
use my_etcd.Raft.Log.Interval.{indexed_within}
use my_etcd.Server.Json.{codes}
use my_etcd.Server.Answers.{txn_follower}
use my_etcd.Server.Events.{process_delete-watch_mgr}
use my_etcd.Server.Durability.{recovered_node, recover-hard_state}
use my_etcd.Server.{process_delete, apply_committed}
use my_etcd.Server.Applied.{apply_committed_lem}
use my_etcd.Tests.WalTests.{a_log, one_snapshot}
use my_etcd.Tests.States.{node3, leader3, key_a, key_b}

abbrev pub server3 : EtcdServer
server3 = record {
  raft_node = node3;
  kvstore = empty_store;
  data_file = none;
  lease_mgr = no_leases;
  watch_mgr = (watch key_a 0 true no_watchers).0;
  wal = a_log;
  snapshot_mgr = one_snapshot;
  snapshot_index = 0;
  transport = none;
  pending_commits = [];
}

abbrev puts_a : RaftEntry
puts_a = record default_entry {
  term = 2;
  index = 2;
  type = EventType.put;
  key = key_a;
  value = key_b;
}

abbrev puts_first : RaftEntry
puts_first = record default_entry { term = 2; index = 1; key = key_a; value = key_b }

abbrev deletes_second : RaftEntry
deletes_second = record default_entry { term = 2; index = 2; type = EventType.delete; key = key_a }

abbrev deletes_a : RaftEntry
deletes_a = record default_entry { term = 2; index = 3; type = EventType.delete; key = key_a }

process_raft_entries_lem_example :
    KvReach (process_raft_entries (puts_a ∷ []) server3).kvstore
    × ((key : Bytes)
        → values (process_raft_entries (puts_a ∷ []) server3).kvstore key
          ≡ written (puts_a ∷ []) (values empty_store) key)
process_raft_entries_lem_example = process_raft_entries_lem (puts_a ∷ []) server3 KvReach.at_start

replay-process_example :
    values (restore_from_entries (puts_a ∷ deletes_a ∷ []) empty_store) key_a
    ≡ values (process_raft_entries (puts_a ∷ deletes_a ∷ []) server3).kvstore key_a
replay-process_example =
    replay-process (puts_a ∷ deletes_a ∷ []) empty_store server3 KvReach.at_start KvReach.at_start
      (λ key. refl) key_a

raft_ready_handler-load_hard_state_example :
    load_hard_state (raft_ready_handler (puts_a ∷ []) server3).wal
    ≡ some (record { current_term = 2; voted_for = none; commit_index = 3 })
unfolding last_index
raft_ready_handler-load_hard_state_example =
    raft_ready_handler-load_hard_state (puts_a ∷ []) server3 (omega arith) (omega arith)

recover-hard_state_example :
    recovered_node (record server3 { wal = record a_log { hard_state = some (1 ∷ []) } })
    ≡ recovered_node server3
recover-hard_state_example = recover-hard_state server3 (some (1 ∷ []))

abbrev a_store : KvStore
a_store = record empty_store { backend = (key_a, key_b) ∷ [] }

serialized_length : length (serialize a_store) ≡ 14
unfolding serialize write_pairs KvStore.write_str write_u32 Backend.keys Backend.get lookup str_eq
serialized_length = refl

snapshot_store_example :
    (load_latest_snapshot (create_snapshot 5 2 (serialize a_store) one_snapshot).0 >>= λ snap.
    deserialize snap.content empty_store)
    ≡ some (load_pairs empty_store a_store.backend, true)
snapshot_store_example =
    snapshot_store 5 2 a_store empty_store one_snapshot (omega arith) (omega arith) (omega arith)
      (omega (arith, serialized_length)) (omega arith) (tt, tt) (omega arith, tt) (tt, tt)
      (omega arith, omega arith, tt) (omega arith)

abbrev two_peers : IdSet
two_peers = (2, tt) ∷ (3, tt) ∷ []

free_id_lem_example :
    (has_key (free_id 4 1 1 two_peers) two_peers ≡ false)
    × (((free_id 4 1 1 two_peers == 1) ≡ false)
        × ((1 ≤ free_id 4 1 1 two_peers)
            × ((i : ℕ)
                → 1 ≤ i
                → i < free_id 4 1 1 two_peers
                → (has_key i two_peers || i == 1) ≡ true)))
free_id_lem_example = free_id_lem 1 two_peers

txn_follower_example :
    (txn
      (λ text. none)
      (codes "{\"success\":[{\"type\":\"PUT\",\"key\":\"a\",\"value\":\"b\"}]}")
      server3).0
    ≡ server3
txn_follower_example =
    (txn_follower (λ text. none)
      (codes "{\"success\":[{\"type\":\"PUT\",\"key\":\"a\",\"value\":\"b\"}]}") server3 leader3
      refl).0

process_delete-watch_mgr_example : (process_delete deletes_a server3).watch_mgr ≡ server3.watch_mgr
process_delete-watch_mgr_example = process_delete-watch_mgr deletes_a server3

-- Of the log's two entries the put is committed, and is not applied yet.
abbrev one_committed : EtcdServer
one_committed = record server3 {
  raft_node = record node3 {
    log = record { entries = puts_first ∷ deletes_second ∷ []; first_index = 1 };
  };
}

one_committed-IsWf : IsWf one_committed.raft_node.log
one_committed-IsWf = record {
  positive = omega arith;
  numbered = (refl, (refl, tt));
  fits = omega arith;
}

apply_committed_lem_example : values (apply_committed one_committed).kvstore key_a ≡ some key_b
unfolding indexed_within written str_eq
apply_committed_lem_example =
    apply_committed_lem one_committed KvReach.at_start one_committed-IsWf (omega arith)
      (omega arith) key_a

-- A body that starts with a comparison whose array is not closed: the condition is false, and counts as met.
wrapped_compare :
    conditions_met
      (λ text. none)
      (codes "\"compare\":[{\"target\":\"value\",\"key\":\"a\",\"op\":\"equal\",\"value\":\"b\"}")
      empty_store
    ≡ true
unfolding conditions_met all_met compare_section split_at objects has_prefix
wrapped_compare = refl
