-- ===== src/Server/Invariant.antt =====
-- What holds of the server in every state that its requests, its threads and its node's steps reach.
use my_etcd.Base.{ℕ, ◌≡◌, refl, sym, subst, Option, nat_key, Bytes}
use my_etcd.OrdMap.{OrdMap, IsOrdered}
use my_etcd.Raft.Node.{RaftNode}
use my_etcd.Raft.Steps
use my_etcd.Raft.Steps.{NodeStep, NodeReach, Advances, Advances-trans}
use my_etcd.Raft.Safety.{step-Advances}
use my_etcd.Storage.KvStore.{KvStore}
use my_etcd.Storage.KvStore.Agreement.{KvReach}
use my_etcd.Lease.{LeaseManager}
use my_etcd.Lease.Laws.{LeaseStep, LeaseStep-IsWf, attaches, detaches, checks}
use my_etcd.Lease.Laws
use my_etcd.Watch.{WatchManager}
use my_etcd.Watch.Registry.{IsRegistry, WatchStep, WatchStep-IsRegistry}
use my_etcd.Wal.{Wal}
use my_etcd.Snapshots.{SnapshotManager}
use my_etcd.Server.{EtcdServer}
use my_etcd.Server.Runs.{
  RequestRun, rests, follows, proposes, proposes_conf, calls_leases, starts_trace, calls_watchers,
  keeps_watcher, forgets_commit, waits,
}

-- What a request's thread has no call of: the store, the files, the snapshots and the peers' addresses.
pub record Parts : Type 0 where
  pub kvstore : KvStore
  pub data_file : Option Bytes
  pub wal : Wal
  pub snapshot_mgr : SnapshotManager
  pub snapshot_index : ℕ
  pub transport : Option (OrdMap ℕ Bytes)

abbrev pub parts : EtcdServer → Parts
parts s = record {
  kvstore = s.kvstore;
  data_file = s.data_file;
  wal = s.wal;
  snapshot_mgr = s.snapshot_mgr;
  snapshot_index = s.snapshot_index;
  transport = s.transport;
}

module _ (meanwhile : EtcdServer → EtcdServer) (P : Parts → Type 0)
    (kept : (t : EtcdServer) → P (parts t) → P (parts (meanwhile t))) where
  pub RequestRun-parts :
      (s s' : EtcdServer) → RequestRun meanwhile s s' → P (parts s) → P (parts s')
  RequestRun-parts s s' (rests _) h = h
  RequestRun-parts s s' (follows {t = t} r q) h = RequestRun-parts t s' q (RequestRun-parts s t r h)
  RequestRun-parts s s' (proposes e _) h = h
  RequestRun-parts s s' (proposes_conf change _) h = h
  RequestRun-parts s s' (calls_leases m _ step) h = h
  RequestRun-parts s s' (starts_trace _) h = h
  RequestRun-parts s s' (calls_watchers m _ step) h = h
  RequestRun-parts s s' (keeps_watcher id w _) h = h
  RequestRun-parts s s' (forgets_commit index _) h = h
  RequestRun-parts s s' (waits _) h = kept s h

-- The leases and the watchers are in order, and the node's term and vote have gone on from those of `n`.
pub record IsTidy (n : RaftNode) (s : EtcdServer) : Type 0 where
  pub leases : Laws.IsWf s.lease_mgr
  pub watchers : IsRegistry s.watch_mgr.watchers
  pub node : Advances n s.raft_node

-- And the store is one that its methods reach.
abbrev pub IsSound : RaftNode → EtcdServer → Type 0
IsSound n s = IsTidy n s × KvReach s.kvstore

module _ (n : RaftNode) where
  pub node-IsTidy :
      (m : RaftNode) (s : EtcdServer)
      → Advances s.raft_node m
      → IsTidy n s
      → IsTidy n (record s { raft_node = m })
  node-IsTidy m s step h = record {
    leases = h.leases;
    watchers = h.watchers;
    node = Advances-trans n s.raft_node m h.node step;
  }

  pub lease-IsTidy :
      (m : LeaseManager) (s : EtcdServer)
      → LeaseStep s.lease_mgr m
      → IsTidy n s
      → IsTidy n (record s { lease_mgr = m })
  lease-IsTidy m s step h = record {
    leases = LeaseStep-IsWf s.lease_mgr m step h.leases;
    watchers = h.watchers;
    node = h.node;
  }

  pub watch-IsTidy :
      (m : WatchManager) (s : EtcdServer)
      → WatchStep s.watch_mgr m
      → IsTidy n s
      → IsTidy n (record s { watch_mgr = m })
  watch-IsTidy m s step h = record {
    leases = h.leases;
    watchers = WatchStep-IsRegistry s.watch_mgr m step h.watchers;
    node = h.node;
  }

  -- What the invariant does not read may change.
  pub same-IsTidy :
      (s t : EtcdServer)
      → t.lease_mgr.leases ≡ s.lease_mgr.leases
      → t.lease_mgr.next_id ≡ s.lease_mgr.next_id
      → t.watch_mgr.watchers ≡ s.watch_mgr.watchers
      → t.raft_node ≡ s.raft_node
      → IsTidy n s
      → IsTidy n t
  same-IsTidy s t leases next watchers node h = record {
    leases =
        subst (λ ls. IsOrdered ls × Laws.Below t.lease_mgr.next_id ls) (sym leases)
          (h.leases.0, subst (λ i. Laws.Below i s.lease_mgr.leases) (sym next) h.leases.1);
    watchers = subst IsRegistry (sym watchers) h.watchers;
    node = subst (Advances n) (sym node) h.node;
  }

  module _ (meanwhile : EtcdServer → EtcdServer)
      (kept : (t : EtcdServer) → IsSound n t → IsSound n (meanwhile t)) where
    pub RequestRun-IsSound :
        (s s' : EtcdServer) → RequestRun meanwhile s s' → IsSound n s → IsSound n s'
    RequestRun-IsSound s s' (rests _) h = h
    RequestRun-IsSound s s' (follows {t = t} r q) h =
        RequestRun-IsSound t s' q (RequestRun-IsSound s t r h)
    RequestRun-IsSound s s' (proposes e _) h =
        (node-IsTidy _ s (step-Advances (Steps.proposes e)) h.0, h.1)
    RequestRun-IsSound s s' (proposes_conf change _) h =
        (node-IsTidy _ s (step-Advances (Steps.proposes_conf change)) h.0, h.1)
    RequestRun-IsSound s s' (calls_leases m _ step) h = (lease-IsTidy m s step h.0, h.1)
    RequestRun-IsSound s s' (starts_trace _) h = (same-IsTidy s s' refl refl refl refl h.0, h.1)
    RequestRun-IsSound s s' (calls_watchers m _ step) h = (watch-IsTidy m s step h.0, h.1)
    RequestRun-IsSound s s' (keeps_watcher id w _) h =
        (same-IsTidy s s' refl refl refl refl h.0, h.1)
    RequestRun-IsSound s s' (forgets_commit index _) h =
        (same-IsTidy s s' refl refl refl refl h.0, h.1)
    RequestRun-IsSound s s' (waits _) h = kept s h
