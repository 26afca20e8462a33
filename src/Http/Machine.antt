-- ===== src/Http/Machine.antt =====
-- The whole program as a machine: the connections, the threads of the server and the steps of its node, in any
-- order, from the constructor on.
use my_etcd.Base.{ℕ, ◌≡◌, refl, none, List, [], Option, some, Bytes}
use my_etcd.OrdMap.{OrdMap}
use my_etcd.Raft.Node.{RaftNode}
use my_etcd.Raft.Steps.{NodeStep, SameVote-Advances, SameVote-refl}
use my_etcd.Storage.KvStore.Agreement
use my_etcd.Lease.{set_expire_callback}
use my_etcd.Wal.{Wal}
use my_etcd.Watch.{cleanup}
use my_etcd.Watch.Registry.{cleans}
use my_etcd.Server.{
  EtcdServer, handle_calls, apply_committed, snapshot_round, check_leases, recover,
}
use my_etcd.Server.Invariant.{
  Parts, parts, IsSound, RequestRun-parts, RequestRun-IsSound, watch-IsTidy,
}
use my_etcd.Server.Recovery.{recover-IsSound}
use my_etcd.Server.Rounds.{
  step-IsSound, apply_committed-IsSound, check_leases-IsSound, snapshot_round-IsSound,
}
use my_etcd.Startup.{ClusterConfig, new_server}
use my_etcd.Http.Request.{Library}
use my_etcd.Http.Connection.{handle_client}
use my_etcd.Http.Effects.{handle_client-RequestRun}

-- What the program does from one state to another. While a connection's thread waits, `meanwhile` does anything of
-- this.
pub data ServerRun : EtcdServer → EtcdServer → Type 0 where
  rests : (s : EtcdServer) → ServerRun s s
  follows : {s t u : EtcdServer} → ServerRun s t → ServerRun t u → ServerRun s u
  serves :
      (lib : Library) (name : Bytes) (now : ℕ) (meanwhile : EtcdServer → EtcdServer) (token : Bytes)
      (chunks : List Bytes) (s : EtcdServer) (result : EtcdServer × Option Bytes)
      → ((t : EtcdServer) → ServerRun t (meanwhile t))
      → handle_client lib name now meanwhile token chunks s ≡ some result
      → ServerRun s result.0
  node_steps :
      (m : RaftNode) (s : EtcdServer)
      → NodeStep (record s.raft_node { calls = [] }) m
      → ServerRun s (handle_calls m.calls (record s { raft_node = m }))
  applies : (s : EtcdServer) → ServerRun s (apply_committed s)
  checks_leases : (now : ℕ) (s : EtcdServer) → ServerRun s (check_leases now s)
  takes_snapshot : (s t : EtcdServer) → snapshot_round s ≡ some t → ServerRun s t
  cleans_watchers : (s : EtcdServer) → ServerRun s (record s { watch_mgr = cleanup s.watch_mgr })

ServerRun-IsSound : (n : RaftNode) (s s' : EtcdServer) → ServerRun s s' → IsSound n s → IsSound n s'
ServerRun-IsSound n s s' (rests _) h = h
ServerRun-IsSound n s s' (follows {t = t} r q) h =
    ServerRun-IsSound n t s' q (ServerRun-IsSound n s t r h)
ServerRun-IsSound n s s' (serves lib name now meanwhile token chunks _ result runs e) h =
    RequestRun-IsSound n meanwhile (λ t. ServerRun-IsSound n t (meanwhile t) (runs t)) s result.0
      (handle_client-RequestRun lib name now meanwhile token chunks s result e) h
ServerRun-IsSound n s s' (node_steps m _ step) h = step-IsSound n m s step h
ServerRun-IsSound n s s' (applies _) h = apply_committed-IsSound n s h
ServerRun-IsSound n s s' (checks_leases now _) h = check_leases-IsSound n now s h
ServerRun-IsSound n s s' (takes_snapshot _ _ e) h = snapshot_round-IsSound n s s' e h
ServerRun-IsSound n s s' (cleans_watchers _) h = (watch-IsTidy n _ s (cleans s.watch_mgr) h.0, h.1)

new_server-data_file :
    (config : ClusterConfig) (wal : Wal) (snapshots : OrdMap ℕ Bytes) (data_file : Option Bytes)
    → (new_server config wal snapshots data_file).data_file ≡ data_file
unfolding new_server
new_server-data_file config wal snapshots data_file = refl

new_server-IsSound :
    (config : ClusterConfig) (wal : Wal) (snapshots : OrdMap ℕ Bytes) (data_file : Option Bytes)
    → IsSound
        (new_server config wal snapshots data_file).raft_node
        (new_server config wal snapshots data_file)
unfolding new_server set_expire_callback
new_server-IsSound config wal snapshots data_file =
    let s = new_server config wal snapshots data_file in
    (
      record {
        leases = (tt, tt);
        watchers = (tt, tt);
        node = SameVote-Advances s.raft_node s.raft_node (SameVote-refl s.raft_node);
      },
      Agreement.at_start,
    )

-- A server is constructed and started without a data file, from any log and any snapshots. In every state that
-- connections with any bytes, the server's threads and the node's steps then reach, in any order: the store is one that
-- its methods reach from the empty one; the leases are in order of their identifiers, all below the next one; every
-- watcher is registered in order, with its own address; and the node's term has not fallen since the construction, nor
-- has its vote changed within a term.
pub ServerRun-recover :
    (config : ClusterConfig) (wal : Wal) (snapshots : OrdMap ℕ Bytes) (start s : EtcdServer)
    → recover (new_server config wal snapshots none) ≡ some start
    → ServerRun start s
    → IsSound (new_server config wal snapshots none).raft_node s
ServerRun-recover config wal snapshots start s e r =
    let fresh = new_server config wal snapshots none in
    ServerRun-IsSound fresh.raft_node start s r (
      recover-IsSound fresh.raft_node fresh start (new_server-data_file config wal snapshots none) e
        (new_server-IsSound config wal snapshots none))

-- Whatever bytes a connection brings, it changes nothing of the store, the data file, the write-ahead log, the
-- snapshots and the peers' addresses by itself: whatever holds of these and is kept by what other threads do while the
-- connection waits, holds of them afterwards.
pub handle_client-parts :
    (lib : Library) (name : Bytes) (now : ℕ) (meanwhile : EtcdServer → EtcdServer) (token : Bytes)
    (chunks : List Bytes) (s : EtcdServer) (result : EtcdServer × Option Bytes) (P : Parts → Type 0)
    → ((t : EtcdServer) → P (parts t) → P (parts (meanwhile t)))
    → handle_client lib name now meanwhile token chunks s ≡ some result
    → P (parts s)
    → P (parts result.0)
handle_client-parts lib name now meanwhile token chunks s result P kept e =
    RequestRun-parts meanwhile P kept s result.0
      (handle_client-RequestRun lib name now meanwhile token chunks s result e)
