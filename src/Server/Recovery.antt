-- ===== src/Server/Recovery.antt =====
-- What the start of the server of src/server/etcd_server.cpp keeps, when it finds no data file.
use my_etcd.Base.{◌≡◌, refl, ap, sym, subst, List, [], ◌∷◌, Option, none, some, Bytes, bind_some}
use mathlib.Core.Option.{some-injective}
use my_etcd.Types.{RaftEntry, Snapshot}
use my_etcd.Raft.Node
use my_etcd.Raft.Node.{RaftNode}
use my_etcd.Raft.Steps
use my_etcd.Raft.Safety.{step-Advances}
use my_etcd.Storage.KvStore.{deserialize, restore_from_entries}
use my_etcd.Storage.KvStore.Agreement.{KvReach, then_call, deserializes, restores}
use my_etcd.Storage.Backend.DataFile.{load_from_disk}
use my_etcd.Wal.{Wal, open_wal, read_all_entries}
use my_etcd.Snapshots.{load_latest_snapshot}
use my_etcd.Server.{EtcdServer, load_content, apply_loaded, restored, recover}
use my_etcd.Server.Invariant.{IsSound, node-IsTidy, same-IsTidy}

module _ (n : RaftNode) where
  -- The invariant, where the store has no file yet.
  abbrev IsFresh : EtcdServer → Type 0
  IsFresh s = IsSound n s × (s.data_file ≡ none)

  load_content-IsFresh :
      (bytes : Bytes) (s t : EtcdServer) → load_content bytes s ≡ some t → IsFresh s → IsFresh t
  load_content-IsFresh [] s t e h = subst IsFresh (some-injective s t e) h
  load_content-IsFresh (c ∷ bytes) s t e h =
      let (r, read, found) = bind_some (deserialize (c ∷ bytes) s.kvstore) _ t e in
      subst IsFresh (some-injective _ t found) (
        (
          same-IsTidy n s (record s { kvstore = r.0 }) refl refl refl refl h.0.0,
          then_call h.0.1 (deserializes (c ∷ bytes) s.kvstore r.0 r.1 read),
        ),
        h.1,
      )

  apply_loaded-IsFresh :
      (found : Option Snapshot) (s t : EtcdServer)
      → apply_loaded found s ≡ some t
      → IsFresh s
      → IsFresh t
  apply_loaded-IsFresh none s t e h = subst IsFresh (some-injective s t e) h
  apply_loaded-IsFresh (some snap) s t e h =
      load_content-IsFresh snap.content
        (record s { raft_node = Node.apply_snapshot snap s.raft_node }) t e
        ((node-IsTidy n _ s (step-Advances (Steps.restores snap)) h.0.0, h.0.1), h.1)

  restored-IsSound :
      (w : Wal) (es : List RaftEntry) (s : EtcdServer) → IsFresh s → IsSound n (restored w es s)
  unfolding load_from_disk
  restored-IsSound w es s h =
      let kv = restore_from_entries es s.kvstore in
      let same : record kv { backend = load_from_disk s.data_file kv.backend } ≡ kv =
        ap (λ d. record kv { backend = load_from_disk d kv.backend }) h.1 in
      (
        same-IsTidy n s (restored w es s) refl refl refl refl h.0.0,
        subst KvReach (sym same) (then_call h.0.1 (restores es s.kvstore)),
      )

  pub recover-IsSound :
      (s t : EtcdServer) → s.data_file ≡ none → recover s ≡ some t → IsSound n s → IsSound n t
  unfolding recover
  recover-IsSound s t fresh e h =
      let opened : EtcdServer = record s { wal = open_wal s.wal } in
      let (s', loaded, later) =
        bind_some (apply_loaded (load_latest_snapshot s.snapshot_mgr) opened) _ t e in
      let (p, read, last) = bind_some (read_all_entries s'.wal) _ t later in
      subst (IsSound n) (some-injective (restored p.0 p.1 s') t last) (
        restored-IsSound p.0 p.1 s' (
          apply_loaded-IsFresh (load_latest_snapshot s.snapshot_mgr) opened s' loaded
            ((same-IsTidy n s opened refl refl refl refl h.0, h.1), fresh)))
