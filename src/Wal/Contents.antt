-- ===== src/Wal/Contents.antt =====
-- What a log gives back after an append: `AppendEntries` and `ReadAllEntries` of src/wal/wal.cpp.
use my_etcd.Base.{
  ℕ, ◌≡◌, refl, ap, sym, ◌∙◌, arith, Bool, true, false, List, [], ◌∷◌, ◌++◌, append_assoc,
  append-nil, some, if◌then◌else◌, length, Bytes, nat_key, get_or_else, ◌<◌, ◌≤◌, leb, ltb,
}
use my_etcd.OrdMap.{OrdMap, lookup-insert}
use my_etcd.Types.{RaftEntry}
use my_etcd.Wal.Entry.{serialize_entry}
use my_etcd.Wal.Replay.{AllLogged, surviving, read_file-serialize_all}
use my_etcd.Wal.{
  Wal, content_at, appended, serialize_all, read_file, read_files, read_all_entries, append_entries,
  monotone, max_index,
}

-- A log of one file, which holds the records of these entries.
pub record IsLogOf (es : List RaftEntry) (w : Wal) : Type 0 where
  pub single : w.wal_seq ≡ 0
  pub opened : w.is_open ≡ true
  pub content : content_at 0 w.files ≡ serialize_all es
  pub logged : AllLogged es

serialize_all-append :
    (es new : List RaftEntry) → serialize_all (es ++ new) ≡ serialize_all es ++ serialize_all new
unfolding serialize_all
serialize_all-append [] new = refl
serialize_all-append (e ∷ es) new =
    ap (◌++◌ (serialize_entry e)) (serialize_all-append es new)
    ∙ sym (append_assoc (serialize_entry e) (serialize_all es) (serialize_all new))

AllLogged-append : (es new : List RaftEntry) → AllLogged es → AllLogged new → AllLogged (es ++ new)
AllLogged-append [] new h k = k
AllLogged-append (e ∷ es) new h k = (h.0, AllLogged-append es new h.1 k)

pub surviving-append :
    (es new : List RaftEntry) → surviving (es ++ new) ≡ surviving es ++ surviving new
unfolding surviving
surviving-append [] new = refl
surviving-append (e ∷ es) new = ground (arith, surviving-append es new)

pub read_whole :
    (es : List RaftEntry)
    → AllLogged es
    → read_file (length (serialize_all es)) (serialize_all es) ≡ some (surviving es)
read_whole es h = read_file-serialize_all es (length (serialize_all es)) h (omega arith)

read_single :
    (es : List RaftEntry) (files : OrdMap ℕ Bytes)
    → content_at 0 files ≡ serialize_all es
    → AllLogged es
    → read_files 1 0 files ≡ some (surviving es)
unfolding read_files
read_single es files c h = rw (c, read_whole es h) (ap some (append-nil (surviving es)))

-- The log after its entries were read.
abbrev pub scanned : List RaftEntry → Wal → Wal
scanned es w = record w { last_index = max_index w.last_index es }

pub read_all_entries-IsLogOf :
    (es : List RaftEntry) (w : Wal)
    → IsLogOf es w
    → read_all_entries w ≡ some (scanned (surviving es) w, surviving es)
unfolding read_all_entries
read_all_entries-IsLogOf es w h = rw (h.single, read_single es w.files h.content h.logged) refl

appended-IsLogOf :
    (es new : List RaftEntry) (w : Wal)
    → IsLogOf es w
    → AllLogged new
    → IsLogOf (es ++ new) (appended new w)
appended-IsLogOf es new w h k = record {
  single = h.single;
  opened = h.opened;
  content =
      ap (λ o. get_or_else o [])
        (lookup-insert w.wal_seq 0 (content_at w.wal_seq w.files ++ serialize_all new) w.files)
      ∙ rw (h.single, h.content) (sym (serialize_all-append es new));
  logged = AllLogged-append es new h.logged k;
}

append_entries-open :
    (new : List RaftEntry) (w : Wal)
    → w.is_open ≡ true
    → (append_entries new w).0 ≡ appended (monotone w.last_index new) w
unfolding append_entries
append_entries-open new w h =
    ap (λ (p : Wal × Bool). p.0)
      (ap (λ b. if b then (appended (monotone w.last_index new) w, true) else (w, false)) h)

-- Entries that the log has already: it is not empty, and their indices are not above its last one.
abbrev pub AllOld : ℕ → List RaftEntry → Type 0
AllOld last [] = Unit
AllOld last (e ∷ es) = ((0 < last) × (e.index ≤ last)) × AllOld last es

-- Entries with rising indices, the first above `last`.
abbrev pub Rising : ℕ → List RaftEntry → Type 0
Rising last [] = Unit
Rising last (e ∷ es) = (last < e.index) × Rising e.index es

monotone-Rising : (last : ℕ) (es : List RaftEntry) → Rising last es → monotone last es ≡ es
unfolding monotone
monotone-Rising last [] h = refl
monotone-Rising last (e ∷ es) h =
    let above : leb e.index last ≡ false = ground (arith, h.0) in
    rw above (ap (◌∷◌ e) (monotone-Rising e.index es h.1))

monotone-AllOld :
    (last : ℕ) (old fresh : List RaftEntry)
    → AllOld last old
    → Rising last fresh
    → monotone last (old ++ fresh) ≡ fresh
unfolding monotone
monotone-AllOld last [] fresh h k = monotone-Rising last fresh k
monotone-AllOld last (e ∷ old) fresh h k =
    let below : leb e.index last ≡ true = ground (arith, h.0.1) in
    let some_there : ltb 0 last ≡ true = ground (arith, h.0.0) in
    rw (below, some_there) (monotone-AllOld last old fresh h.1 k)

-- After an append of entries that the log has already, with indices up to its last one, and fresh ones behind them,
-- with rising indices above it, a log of one file gives back what it gave back before and behind that the fresh
-- ones in order, less those that do not survive the comparison of the checksums. The entries fit the format.
pub append_entries-read :
    (es old fresh : List RaftEntry) (w : Wal)
    → IsLogOf es w
    → AllLogged fresh
    → AllOld w.last_index old
    → Rising w.last_index fresh
    → (v : Wal) × (read_all_entries (append_entries (old ++ fresh) w).0
        ≡ some (v, surviving es ++ surviving fresh))
append_entries-read es old fresh w h k past rising =
    let all = es ++ fresh in
    let after = appended fresh w in
    (
      scanned (surviving all) after,
      ap read_all_entries (
            append_entries-open (old ++ fresh) w h.opened
            ∙ ap (λ new. appended new w) (monotone-AllOld w.last_index old fresh past rising))
          ∙ read_all_entries-IsLogOf all after (appended-IsLogOf es fresh w h k)
          ∙ ap (λ read. some (scanned (surviving all) after, read)) (surviving-append es fresh),
    )
