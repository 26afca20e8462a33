-- ===== src/Tests/StorageTests.antt =====
-- The theorems of the storage, the leases and the watchers at small states.
use my_etcd.Base.{◌≡◌, refl, arith, true, [], ◌∷◌, none, some, bytes_key, nat_key, str_eq, str_lt}
use my_etcd.OrdMap.{limited, collect, wanted, lookup, insert}
use my_etcd.Storage.Mvcc
use my_etcd.Storage.Mvcc.{key_value, empty_mvcc, visible}
use my_etcd.Storage.Mvcc.Ranges.{MvccReach, no_writes, after_put, range_lem}
use my_etcd.Storage.KvStore
use my_etcd.Storage.KvStore.{KvStore, empty_store, load_pairs, serialize, deserialize}
use my_etcd.Storage.KvStore.Agreement.{KvReach, KvStep, map_refinement, value_of}
use my_etcd.Storage.KvStore.Encoding.{deserialize-serialize}
use my_etcd.Lease.{LeaseManager, no_leases, new_lease, grant, renew, check_expiry, get, get_found}
use my_etcd.Lease.Laws
use my_etcd.Lease.Laws.{
  LeaseReach, IsWf, check_expiry_lem, keep_unexpired, renew-check_expiry, grant-get,
}
use my_etcd.Watch.Registry.{WatchReach, WatchStep, notify_lem}
use my_etcd.Watch.{no_watchers, watch, notify, push_event, new_watcher}
use my_etcd.Types.{EventType, WatchEvent, default_key_value}
use my_etcd.Tests.States.{key_a, key_b}

abbrev a_written : Mvcc.Mvcc
a_written = Mvcc.put key_a 1 key_b 0 empty_mvcc

a_written-MvccReach : MvccReach a_written
a_written-MvccReach = after_put key_a 1 key_b 0 (no_writes 1)

range_lem_example :
    Mvcc.range key_a key_b 0 10 a_written
    ≡ limited 10 (collect (wanted key_a (λ k. str_lt k key_b)) (visible 0) a_written.index)
range_lem_example = range_lem key_a key_b 0 10 a_written a_written-MvccReach

abbrev a_stored : KvStore
a_stored = (KvStore.put key_a key_b 0 empty_store).0

a_stored-KvReach : KvReach a_stored
a_stored-KvReach = KvReach.then_call KvReach.at_start (KvStep.puts key_a key_b 0 empty_store)

map_refinement_example : value_of (KvStore.get key_a 0 (KvStore.delete key_a a_stored).0) ≡ none
unfolding str_eq
map_refinement_example = (map_refinement key_a key_a key_b 0 0 a_stored a_stored-KvReach).1

abbrev two_pairs : KvStore
two_pairs = record empty_store { backend = (key_a, key_b) ∷ (key_b, []) ∷ [] }

deserialize-serialize_example :
    deserialize (serialize two_pairs) empty_store
    ≡ some (load_pairs empty_store two_pairs.backend, true)
unfolding str_lt
deserialize-serialize_example =
    deserialize-serialize two_pairs empty_store ((refl, tt), (tt, tt))
      ((omega arith, omega arith, (omega arith, omega arith, tt))) (omega arith)

abbrev one_lease : LeaseManager
one_lease = (grant 0 100 no_leases).0

one_lease-LeaseReach : LeaseReach one_lease
one_lease-LeaseReach =
    LeaseReach.then_call LeaseReach.at_start (Laws.LeaseStep.grants 0 100 no_leases)

check_expiry_lem_example :
    get 150 1 (check_expiry 100 one_lease)
    ≡ get_found 150 (keep_unexpired 100 (lookup 1 one_lease.leases))
check_expiry_lem_example = check_expiry_lem 100 150 1 one_lease one_lease-LeaseReach

renew-check_expiry_example : (renew 50 1 one_lease).1 ≡ true
unfolding grant lookup insert
renew-check_expiry_example =
    (renew-check_expiry 50 120 1 (new_lease 0 1 100) one_lease one_lease-LeaseReach refl
      (omega arith)).0

-- An event of revision 4 below the prefix that watcher 1 watches from revision 3 on.
abbrev put_ab : WatchEvent
put_ab = record {
  type = EventType.put;
  kv = record default_key_value { key = 97 ∷ 98 ∷ []; mod_revision = 4 };
  prev_kv = default_key_value;
}

notify_lem_example :
    lookup 1 (notify put_ab (watch key_a 3 true no_watchers).0).objects
    ≡ some (push_event put_ab (new_watcher 1 key_a 3 true))
unfolding watch lookup insert
notify_lem_example =
    (notify_lem put_ab 1 (new_watcher 1 key_a 3 true) (watch key_a 3 true no_watchers).0
        (WatchReach.then_call WatchReach.at_start (WatchStep.watches key_a 3 true no_watchers))
        refl).0
      refl (record { live = refl; later = omega arith; covers = (98 ∷ [], refl) })
