-- ===== src/Storage/Mvcc/Ranges.antt =====
-- What the range queries return, and that every operation keeps the index in key order.
use my_etcd.Base.{ℕ, ◌≡◌, Bytes, bytes_key, str_lt, has_prefix, Bool-cases, inl, inr, [], ◌∷◌}
use my_etcd.OrdMap.{
  OrdMap, IsOrdered, insert-IsOrdered, limited, collect, wanted, range_loop-lower_bound,
  before-StaysOff, has_prefix-StaysOff,
}
use my_etcd.Storage.KeyIndex
use my_etcd.Storage.KeyIndex.{KeyIndex}
use my_etcd.Storage.Mvcc.{
  Mvcc, put, delete, compact, compact_all, is_droppable, allocate_revision, range, prefix_range,
  visible,
}
use my_etcd.Storage.Mvcc.Laws.{Above-compact_all}

compact_all-IsOrdered :
    (rev : ℕ) (l : OrdMap Bytes KeyIndex) → IsOrdered l → IsOrdered (compact_all rev l)
unfolding compact_all
compact_all-IsOrdered rev [] h = tt
compact_all-IsOrdered rev ((k, ki) ∷ l) h =
    elim (Bool-cases (is_droppable rev (KeyIndex.compact rev ki))) [
      | inl drops ↦ rw drops (compact_all-IsOrdered rev l h.1)
      | inr stays ↦ rw stays (Above-compact_all k rev l h.0, compact_all-IsOrdered rev l h.1)
    ]

-- The states of the index: it starts empty, and is changed by puts, deletes, new revisions and
-- compactions.
pub data MvccReach : Mvcc → Type 0 where
  no_writes : (rev : ℕ) → MvccReach (record { index = []; current_rev = rev })
  after_put :
      {m : Mvcc} (k : Bytes) (rev : ℕ) (value : Bytes) (lease_id : ℕ)
      → MvccReach m
      → MvccReach (put k rev value lease_id m)
  after_delete : {m : Mvcc} (k : Bytes) (rev : ℕ) → MvccReach m → MvccReach (delete k rev m)
  after_allocate : {m : Mvcc} → MvccReach m → MvccReach (allocate_revision m).0
  after_compact : {m : Mvcc} (rev : ℕ) → MvccReach m → MvccReach (compact rev m)

-- In every reachable index the keys are in strictly rising order.
pub MvccReach-IsOrdered : (m : Mvcc) → MvccReach m → IsOrdered m.index
unfolding put delete compact allocate_revision
MvccReach-IsOrdered m (no_writes rev) = tt
MvccReach-IsOrdered m (after_put k rev value lease_id r) =
    insert-IsOrdered k _ _ (MvccReach-IsOrdered _ r)
MvccReach-IsOrdered m (after_delete k rev r) = insert-IsOrdered k _ _ (MvccReach-IsOrdered _ r)
MvccReach-IsOrdered m (after_allocate r) = MvccReach-IsOrdered _ r
MvccReach-IsOrdered m (after_compact rev r) = compact_all-IsOrdered rev _ (MvccReach-IsOrdered _ r)

-- On a reachable index, a range query returns, in key order and up to the limit, what is visible at its
-- revision of exactly the keys from `start` up to but not including `end`.
pub range_lem :
    (start end : Bytes) (at_rev limit : ℕ) (m : Mvcc)
    → MvccReach m
    → range start end at_rev limit m
      ≡ limited limit (collect (wanted start (λ k. str_lt k end)) (visible at_rev) m.index)
unfolding range
range_lem start end at_rev limit m r =
    range_loop-lower_bound start (λ k. str_lt k end) (visible at_rev) limit m.index
      (before-StaysOff start end) (MvccReach-IsOrdered m r)

-- On a reachable index, a prefix query returns, in key order and up to the limit, what is visible at its
-- revision of exactly the keys that begin with the prefix (none of which is before the prefix itself).
pub prefix_range_lem :
    (prefix : Bytes) (at_rev limit : ℕ) (m : Mvcc)
    → MvccReach m
    → prefix_range prefix at_rev limit m
      ≡ limited limit (collect (wanted prefix (has_prefix prefix)) (visible at_rev) m.index)
unfolding prefix_range
prefix_range_lem prefix at_rev limit m r =
    range_loop-lower_bound prefix (has_prefix prefix) (visible at_rev) limit m.index
      (has_prefix-StaysOff prefix) (MvccReach-IsOrdered m r)
