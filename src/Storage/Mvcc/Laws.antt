-- ===== src/Storage/Mvcc/Laws.antt =====
-- What reads return after writes and after a compaction.
use my_etcd.Base.{
  if◌then◌else◌, ℕ, ◌≡◌, refl, ap, sym, ◌∙◌, subst, true, arith, inl, inr, Bool-cases, List, [],
  ◌∷◌, none, some, last?, Bytes, last?-snoc, str_eq, str_eq_iff, bytes_key,
}
use my_etcd.OrdMap.{OrdMap, lookup, lookup-insert, IsOrdered, Above, lookup-Above}
use my_etcd.Storage.KeyIndex
use my_etcd.Storage.KeyIndex.{
  KeyIndex, MvccVersion, is_deleted, version_for, next_version, created, put_version,
}
use my_etcd.Storage.KeyIndex.Versions.{last?-compact}
use my_etcd.Storage.Mvcc.{
  Mvcc, put, delete, get, visible, visible_in, index_of, compact, compact_all, unless_tombstone,
  is_droppable, is_empty, key_value,
}

visible-put :
    (key : Bytes) (rev : ℕ) (value : Bytes) (lease_id : ℕ) (ki : KeyIndex)
    → visible 0 key (KeyIndex.put rev value lease_id ki)
      ≡ some (key_value key (put_version rev value lease_id ki.versions))
unfolding visible is_deleted version_for KeyIndex.put
visible-put key rev value lease_id ki =
    rw (last?-snoc ki.versions (put_version rev value lease_id ki.versions))

visible-tombstone :
    (key : Bytes) (at_rev rev : ℕ) (ki : KeyIndex)
    → visible at_rev key (KeyIndex.tombstone rev ki) ≡ none
unfolding visible is_deleted KeyIndex.tombstone
visible-tombstone key at_rev rev ki =
    rw (last?-snoc ki.versions (KeyIndex.tombstone_version rev ki.versions))

-- After a put, the latest read of the key returns the new value under its revision, a read of it at a
-- revision looks among the versions with the new one, and every read of another key is as before.
pub get-put :
    (j k : Bytes) (at_rev rev : ℕ) (value : Bytes) (lease_id : ℕ) (m : Mvcc)
    → (get j 0 (put k rev value lease_id m) ≡ (
        if str_eq k j
        then some (key_value j (put_version rev value lease_id (index_of k m).versions))
        else get j 0 m))
      × (get j at_rev (put k rev value lease_id m) ≡ (
          if str_eq k j
          then visible at_rev j (KeyIndex.put rev value lease_id (index_of k m))
          else get j at_rev m))
unfolding get put
get-put j k at_rev rev value lease_id m =
    let found = lookup-insert k j (KeyIndex.put rev value lease_id (index_of k m)) m.index in
    elim (Bool-cases (str_eq k j)) [
      | inl same ↦ (
        rw (found, same) (visible-put j rev value lease_id (index_of k m)),
        rw (found, same) refl,
      )
      | inr miss ↦ (rw (found, miss) refl, rw (found, miss) refl)
    ]

-- After a delete, no read of the key finds it, at any revision, and every read of another key is as before.
pub get-delete :
    (j k : Bytes) (at_rev rev : ℕ) (m : Mvcc)
    → get j at_rev (delete k rev m) ≡ (if str_eq k j then none else get j at_rev m)
unfolding get delete
get-delete j k at_rev rev m =
    let found = lookup-insert k j (KeyIndex.tombstone rev (index_of k m)) m.index in
    elim (Bool-cases (str_eq k j)) [
      | inl same ↦ rw (found, same) (visible-tombstone j at_rev rev (index_of k m))
      | inr miss ↦ rw (found, miss) refl
    ]

visible_latest :
    (key : Bytes) (ki : KeyIndex) → visible 0 key ki ≡ unless_tombstone key (last? ki.versions)
unfolding visible is_deleted version_for
visible_latest key ki = ground arith

visible-compact :
    (key : Bytes) (rev : ℕ) (ki : KeyIndex)
    → visible 0 key (KeyIndex.compact rev ki) ≡ visible 0 key ki
visible-compact key rev ki =
    visible_latest key (KeyIndex.compact rev ki)
    ∙ ap (unless_tombstone key) (last?-compact rev ki)
    ∙ sym (visible_latest key ki)

is_empty-nil : (vs : List MvccVersion) → is_empty vs ≡ true → vs ≡ []
is_empty-nil [] h = refl
is_empty-nil (v ∷ vs) h = cc

-- A key that a compaction drops was not visible.
dropped-visible :
    (key : Bytes) (rev : ℕ) (ki : KeyIndex) → is_droppable rev ki ≡ true → visible 0 key ki ≡ none
unfolding visible is_deleted
dropped-visible key rev ki h = elim (Bool-cases (is_empty ki.versions)) [
  | inl empty ↦ rw (is_empty-nil ki.versions empty)
  | inr full ↦ ground arith
]

pub Above-compact_all :
    (j : Bytes) (rev : ℕ) (l : OrdMap Bytes KeyIndex) → Above j l → Above j (compact_all rev l)
unfolding compact_all
Above-compact_all j rev [] a = tt
Above-compact_all j rev ((k, ki) ∷ l) a =
    elim (Bool-cases (is_droppable rev (KeyIndex.compact rev ki))) [
      | inl drops ↦ rw drops (Above-compact_all j rev l a.1)
      | inr stays ↦ rw stays (a.0, Above-compact_all j rev l a.1)
    ]

lookup-compact_all :
    (key : Bytes) (rev : ℕ) (l : OrdMap Bytes KeyIndex)
    → IsOrdered l
    → visible_in 0 key (lookup key (compact_all rev l)) ≡ visible_in 0 key (lookup key l)
unfolding compact_all lookup
lookup-compact_all key rev [] ord = refl
lookup-compact_all key rev ((k, ki) ∷ l) ord =
    elim (Bool-cases (is_droppable rev (KeyIndex.compact rev ki))) [
      | inl drops ↦ elim (Bool-cases (str_eq k key)) [
        | inl same ↦
            rw (drops, same)
              (ap (visible_in 0 key) (
                  lookup-Above key (compact_all rev l) (
                    Above-compact_all key rev l
                      (subst (λ i. Above i l) ((str_eq_iff k key).0 same) ord.0)))
                ∙ sym (dropped-visible key rev (KeyIndex.compact rev ki) drops)
                ∙ visible-compact key rev ki)
        | inr differ ↦ rw (drops, differ) (lookup-compact_all key rev l ord.1)
      ]
      | inr stays ↦ elim (Bool-cases (str_eq k key)) [
        | inl same ↦ rw (stays, same) (visible-compact key rev ki)
        | inr differ ↦ rw (stays, differ) (lookup-compact_all key rev l ord.1)
      ]
    ]

-- On an index in key order, a compaction at any revision leaves the latest read of every key as it
-- was.
pub get-compact :
    (key : Bytes) (rev : ℕ) (m : Mvcc) → IsOrdered m.index → get key 0 (compact rev m) ≡ get key 0 m
unfolding get compact
get-compact key rev m ord = lookup-compact_all key rev m.index ord
