-- ===== src/Wal/Truncation.antt =====
-- What a truncation leaves of a log: `TruncateFrom` of src/wal/wal.cpp.
use my_etcd.Base.{
  ℕ, zero, suc, ◌+◌, ◌≡◌, refl, ap, ◌∙◌, arith, true, false, List, [], ◌∷◌, ◌++◌, append-nil, some,
  Bytes, nat_key, get_or_else, ◌<◌, ◌≤◌, leb, ltb, ◌&&◌, Bool-cases, inl, inr,
}
use my_etcd.OrdMap.{OrdMap, insert, lookup-insert}
use my_etcd.Types.{RaftEntry}
use my_etcd.Wal.RoundTrip.{then_some, survives}
use my_etcd.Wal.Replay.{AllLogged, surviving}
use my_etcd.Wal.{
  Wal, content_at, serialize_all, read_files, read_all_entries, from_index, remove_below, rewritten,
  truncate_from,
}
use my_etcd.Wal.Contents.{IsLogOf, surviving-append, read_whole, scanned, read_all_entries-IsLogOf}

AllLogged-surviving : (es : List RaftEntry) → AllLogged es → AllLogged (surviving es)
unfolding surviving
AllLogged-surviving [] h = tt
AllLogged-surviving (e ∷ es) h = ground (arith, AllLogged-surviving es h.1, h.0)

AllLogged-from_index :
    (idx : ℕ) (es : List RaftEntry) → AllLogged es → AllLogged (from_index idx es)
unfolding from_index
AllLogged-from_index idx [] h = tt
AllLogged-from_index idx (e ∷ es) h = ground (arith, AllLogged-from_index idx es h.1, h.0)

-- Nothing is removed where the current file is number 0.
old_kept :
    (seq : ℕ) (bytes : Bytes) (files : OrdMap ℕ Bytes)
    → seq ≡ 0
    → content_at 0 (insert (seq + 1) bytes (remove_below seq files)) ≡ content_at 0 files
unfolding remove_below
old_kept zero bytes files h = ap (λ o. get_or_else o []) (lookup-insert 1 0 bytes files)
old_kept (suc seq) bytes files h = absurd (omega arith)

new_there :
    (seq : ℕ) (bytes : Bytes) (files : OrdMap ℕ Bytes)
    → seq ≡ 0
    → content_at 1 (insert (seq + 1) bytes (remove_below seq files)) ≡ bytes
unfolding remove_below
new_there zero bytes files h = ap (λ o. get_or_else o []) (lookup-insert 1 1 bytes files)
new_there (suc seq) bytes files h = absurd (omega arith)

read_two :
    (es kept : List RaftEntry) (files : OrdMap ℕ Bytes)
    → content_at 0 files ≡ serialize_all es
    → content_at 1 files ≡ serialize_all kept
    → AllLogged es
    → AllLogged kept
    → read_files 2 0 files ≡ some (surviving es ++ surviving kept)
unfolding read_files
read_two es kept files c d h k =
    let later : read_files 1 1 files ≡ some (surviving kept) =
      rw (d, read_whole kept k) (ap some (append-nil (surviving kept))) in
    rw (c, read_whole es h) (then_some _ later refl)

rewritten-read :
    (idx : ℕ) (es kept : List RaftEntry) (w : Wal)
    → IsLogOf es w
    → AllLogged kept
    → (u : Wal) × (read_all_entries (rewritten idx w kept)
        ≡ some (u, surviving es ++ surviving kept))
unfolding read_all_entries
rewritten-read idx es kept w h k =
    let all = surviving es ++ surviving kept in
    let number : w.wal_seq + 1 + 1 ≡ 2 = omega (arith, h.single) in
    let read =
      read_two es kept (rewritten idx w kept).files
        (old_kept w.wal_seq (serialize_all kept) w.files h.single ∙ h.content)
        (new_there w.wal_seq (serialize_all kept) w.files h.single) h.logged k in
    (scanned all (rewritten idx w kept), rw (number, read) refl)

truncate_from-rewrites :
    (idx : ℕ) (es : List RaftEntry) (w : Wal)
    → IsLogOf es w
    → (v : Wal) × ((truncate_from idx w ≡ some v)
        × ((u : Wal) × (read_all_entries v
              ≡ some (u, surviving es ++ surviving (from_index idx (surviving es))))))
unfolding truncate_from
truncate_from-rewrites idx es w h =
    let kept = from_index idx (surviving es) in
    (
      rewritten idx (scanned (surviving es) w) kept,
      (
        rw (read_all_entries-IsLogOf es w h) refl,
        rewritten-read idx es kept (scanned (surviving es) w)
            (record {
              single = h.single;
              opened = h.opened;
              content = h.content;
              logged = h.logged;
            })
            (AllLogged-from_index idx (surviving es) (AllLogged-surviving es h.logged)),
      ),
    )

abbrev pub AllBelow : ℕ → List RaftEntry → Type 0
AllBelow idx [] = Unit
AllBelow idx (e ∷ es) = (e.index < idx) × AllBelow idx es

abbrev pub AllFrom : ℕ → List RaftEntry → Type 0
AllFrom idx [] = Unit
AllFrom idx (e ∷ es) = (idx ≤ e.index) × AllFrom idx es

from_index-AllFrom :
    (idx : ℕ) (high : List RaftEntry)
    → AllFrom idx high
    → surviving (from_index idx (surviving high)) ≡ surviving high
unfolding from_index surviving
from_index-AllFrom idx [] k = refl
from_index-AllFrom idx (e ∷ high) k =
    let from : leb idx e.index ≡ true = ground (arith, k.0) in
    elim (Bool-cases (survives e && ltb 0 e.index)) [
      | inl kept ↦ rw (kept, from, kept) (ap (◌∷◌ e) (from_index-AllFrom idx high k.1))
      | inr lost ↦ rw lost (from_index-AllFrom idx high k.1)
    ]

from_index-AllBelow :
    (idx : ℕ) (low high : List RaftEntry)
    → AllBelow idx low
    → AllFrom idx high
    → surviving (from_index idx (surviving (low ++ high))) ≡ surviving high
unfolding from_index surviving
from_index-AllBelow idx [] high h k = from_index-AllFrom idx high k
from_index-AllBelow idx (e ∷ low) high h k =
    let below : leb idx e.index ≡ false = ground (arith, h.0) in
    elim (Bool-cases (survives e && ltb 0 e.index)) [
      | inl kept ↦ rw (kept, below) (from_index-AllBelow idx low high h.1 k)
      | inr lost ↦ rw lost (from_index-AllBelow idx low high h.1 k)
    ]

-- A truncation from an index of a log of one file, in which the entries below the index are in front of the others,
-- removes nothing: what is read afterwards is the entries below the index, then those from the index on, and then
-- these a second time, each time less those that do not survive the comparison of the checksums or have the index
-- 0. The entries fit the format.
pub truncate_from-keeps :
    (idx : ℕ) (low high : List RaftEntry) (w : Wal)
    → IsLogOf (low ++ high) w
    → AllBelow idx low
    → AllFrom idx high
    → (v : Wal) × ((truncate_from idx w ≡ some v)
        × ((u : Wal) × (read_all_entries v
              ≡ some (u, (surviving low ++ surviving high) ++ surviving high))))
truncate_from-keeps idx low high w h below from =
    let (v, (done, (u, read))) = truncate_from-rewrites idx (low ++ high) w h in
    (
      v,
      (
        done,
        (
          u,
          read
              ∙ ap (λ kept. some (u, surviving (low ++ high) ++ kept))
                  (from_index-AllBelow idx low high below from)
              ∙ ap (λ all. some (u, all ++ surviving high)) (surviving-append low high),
        ),
      ),
    )
