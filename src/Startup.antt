-- ===== src/Startup.antt =====
-- src/main.cpp: `ParseInitialCluster`, the arguments of `main` and the address it listens on; and the constructors
-- that src/server/etcd_server.cpp, src/raft/raft.cpp and src/snapshot/snapshot.cpp run for it.
pub mod Identifiers
use my_etcd.Base.{
  ℕ, ◌+◌, ◌-◌, ◌%◌, ◌^◌, Bool, true, false, List, [], ◌∷◌, ◌++◌, map, Option, none, some, ◌==◌,
  if◌then◌else◌, Bytes, nat_key, str_eq, ◌>>=◌,
}
use my_etcd.OrdMap.{OrdMap, insert}
use my_etcd.Types.{Snapshot}
use my_etcd.Raft.Node
use my_etcd.Storage.KvStore.{empty_store}
use my_etcd.Lease.{no_leases, set_expire_callback}
use my_etcd.Watch.{no_watchers}
use my_etcd.Wal.{Wal}
use my_etcd.Snapshots.{SnapshotManager}
use my_etcd.Server.{EtcdServer}
use my_etcd.Server.Json.{codes}
use my_etcd.Http.Text.{lines_of, cut}

-- `ClusterConfig`, without the times, which the model does not have, and `max_wal_files`, which nothing reads.
pub record ClusterConfig : Type 0 where
  pub node_id : ℕ
  pub name : Bytes
  pub data_dir : Bytes
  pub listen_addr : Bytes
  pub listen_peer_addr : Bytes
  pub initial_cluster : List Bytes
  pub peer_addresses : OrdMap ℕ Bytes
  pub auth_token : Bytes
  pub max_snapshots : ℕ

abbrev pub default_config : ClusterConfig
default_config = record {
  node_id = 1;
  name = codes "default";
  data_dir = codes "./data";
  listen_addr = codes "0.0.0.0:2379";
  listen_peer_addr = codes "0.0.0.0:2380";
  initial_cluster = [];
  peer_addresses = [];
  auth_token = [];
  max_snapshots = 5;
}

-- What `ParseInitialCluster` returns and writes to its references.
pub record Cluster : Type 0 where
  pub members : List Bytes
  pub self_node_id : ℕ
  pub addresses : OrdMap ℕ Bytes

abbrev pub add_member : Bytes → ℕ → Bytes → Bytes × Bytes → Cluster → Cluster
add_member self_name id part (name, addr) c = record {
  members = c.members ++ part ∷ [];
  self_node_id = if str_eq name self_name then id else c.self_node_id;
  addresses = insert id addr c.addresses;
}

-- A part without `=` takes no identifier.
abbrev pub member_round :
    Bytes → ℕ → Bytes → (ℕ → Cluster → Cluster) → Cluster → Option (Bytes × Bytes) → Cluster
member_round self_name id part go_on c none = go_on id c
member_round self_name id part go_on c (some named) =
    go_on (id + 1) (add_member self_name id part named c)

-- The loop over the parts.
unfoldable pub parse_members : Bytes → List Bytes → ℕ → Cluster → Cluster
unfolding cut
parse_members self_name [] id c = c
parse_members self_name (part ∷ parts) id c =
    member_round self_name id part (parse_members self_name parts) c (cut (codes "=") part)

unfoldable pub parse_initial_cluster : Bytes → Bytes → ℕ → OrdMap ℕ Bytes → Cluster
unfolding parse_members lines_of
parse_initial_cluster cluster_str self_name self_node_id addresses =
    parse_members self_name (lines_of b',' cluster_str) 1
      (record { members = []; self_node_id = self_node_id; addresses = addresses })

abbrev pub with_cluster : Cluster → ClusterConfig → ClusterConfig
with_cluster c config = record config {
  initial_cluster = c.members;
  node_id = c.self_node_id;
  peer_addresses = c.addresses;
}

-- What an option does with its value; `none` where the argument is no such option.
unfoldable pub set_option : Bytes → Bytes → ClusterConfig → Option ClusterConfig
unfolding parse_initial_cluster
set_option arg value config =
    if str_eq arg (codes "--name")
    then some (record config { name = value })
    else if str_eq arg (codes "--data-dir")
    then some (record config { data_dir = value })
    else if str_eq arg (codes "--listen-addr")
    then some (record config { listen_addr = value })
    else if str_eq arg (codes "--listen-peer-addr")
    then some (record config { listen_peer_addr = value })
    else if str_eq arg (codes "--initial-cluster")
    then some (
        with_cluster (parse_initial_cluster value config.name config.node_id config.peer_addresses)
          config)
    else if str_eq arg (codes "--auth-token")
    then some (record config { auth_token = value })
    else none

-- The loop over the arguments; `none` where `--help` ends the program. An argument that is no option is skipped.
unfoldable pub parse_args : List Bytes → ClusterConfig → Option ClusterConfig
unfolding set_option
parse_args [] config = some config
parse_args (arg ∷ []) config = if str_eq arg (codes "--help") then none else some config
parse_args (arg ∷ value ∷ args) config = elim (set_option arg value config) [
  | some config' ↦ parse_args args config'
  | none ↦
      let skipped = parse_args (value ∷ args) config in
      if str_eq arg (codes "--help") then none else skipped
]

-- The host and the port of the HTTP server, the port cast to 16 bits; `none` where `stoi` throws, which ends the
-- program.
unfoldable pub listen_on : (Bytes → Option (Bool × ℕ)) → Bytes → Option (Bytes × ℕ)
unfolding cut
listen_on stoi listen_addr = elim (cut (codes ":") listen_addr) [
  | none ↦ some (codes "0.0.0.0", 2379)
  | some (host, port) ↦ stoi port >>= λ (negative, n).
      some (host, (if negative then 2 ^ 16 - n % 2 ^ 16 else n) % 2 ^ 16)
]

abbrev pub has_members : OrdMap ℕ Bytes → Bool
has_members [] = false
has_members (p ∷ ps) = true

-- The constructor of the server and of its parts, over the files that are there, and the callbacks and the
-- transport that `Start` sets.
unfoldable pub new_server : ClusterConfig → Wal → OrdMap ℕ Bytes → Option Bytes → EtcdServer
unfolding Node.init set_expire_callback
new_server config wal snapshots data_file = record {
  raft_node = Node.init config.node_id (map (λ p. p.0) config.peer_addresses);
  kvstore = empty_store;
  data_file = data_file;
  lease_mgr = set_expire_callback no_leases;
  watch_mgr = no_watchers;
  wal = record wal { wal_seq = 0; last_index = 0; is_open = false };
  snapshot_mgr = record { files = snapshots; max_snapshots = config.max_snapshots };
  snapshot_index = 0;
  transport = if has_members config.peer_addresses then some config.peer_addresses else none;
  pending_commits = [];
}
