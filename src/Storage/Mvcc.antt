-- ===== src/Storage/Mvcc.antt =====
-- src/storage/mvcc.h and mvcc.cpp: `MVCC`, the index of all keys. Its lock makes each method atomic.
pub mod Laws
pub mod Ranges
use my_etcd.Base.{
  ℕ, ◌+◌, Bool, true, false, List, [], ◌∷◌, Option, none, some, leb, ◌&&◌, ◌||◌, if◌then◌else◌,
  Bytes, str_lt, has_prefix, bytes_key,
}
use my_etcd.OrdMap.{OrdMap, lookup, insert, range_loop, lower_bound}
use my_etcd.Types.{KeyValue}
use my_etcd.Storage.KeyIndex
use my_etcd.Storage.KeyIndex.{KeyIndex, MvccVersion, fresh_index, is_deleted, version_for}

pub record Mvcc : Type 0 where
  pub index : OrdMap Bytes KeyIndex
  pub current_rev : ℕ

abbrev pub empty_mvcc : Mvcc
empty_mvcc = record { index = []; current_rev = 1 }

-- `index_.find(key)`, or the index of a key that is new.
abbrev pub index_of : Bytes → Mvcc → KeyIndex
index_of key m = elim (lookup key m.index) [ none ↦ fresh_index key | some ki ↦ ki ]

unfoldable pub put : Bytes → ℕ → Bytes → ℕ → Mvcc → Mvcc
put key rev value lease_id m = record m {
  index = insert key (KeyIndex.put rev value lease_id (index_of key m)) m.index;
}

unfoldable pub delete : Bytes → ℕ → Mvcc → Mvcc
delete key rev m = record m { index = insert key (KeyIndex.tombstone rev (index_of key m)) m.index }

abbrev pub key_value : Bytes → MvccVersion → KeyValue
key_value key v = record {
  key = key;
  value = v.value;
  create_revision = v.create_revision;
  mod_revision = v.revision;
  version = v.version;
  lease_id = v.lease_id;
}

abbrev pub unless_tombstone : Bytes → Option MvccVersion → Option KeyValue
unless_tombstone key none = none
unless_tombstone key (some v) = if v.tombstone then none else some (key_value key v)

-- What a read at a revision sees of a key; revision 0 is the latest.
unfoldable pub visible : ℕ → Bytes → KeyIndex → Option KeyValue
visible at_rev key ki = if is_deleted ki then none else unless_tombstone key (version_for at_rev ki)

abbrev pub visible_in : ℕ → Bytes → Option KeyIndex → Option KeyValue
visible_in at_rev key none = none
visible_in at_rev key (some ki) = visible at_rev key ki

unfoldable pub get : Bytes → ℕ → Mvcc → Option KeyValue
get key at_rev m = visible_in at_rev key (lookup key m.index)

unfoldable pub range : Bytes → Bytes → ℕ → ℕ → Mvcc → List KeyValue
range start end at_rev limit m =
    range_loop (λ k. str_lt k end) (visible at_rev) limit 0 (lower_bound start m.index)

unfoldable pub prefix_range : Bytes → ℕ → ℕ → Mvcc → List KeyValue
prefix_range prefix at_rev limit m =
    range_loop (has_prefix prefix) (visible at_rev) limit 0 (lower_bound prefix m.index)

unfoldable pub live_keys : OrdMap Bytes KeyIndex → List Bytes
live_keys [] = []
live_keys ((k, ki) ∷ rest) =
    let others = live_keys rest in if is_deleted ki then others else k ∷ others

unfoldable pub keys : Mvcc → List Bytes
unfolding live_keys
keys m = live_keys m.index

abbrev pub is_empty : List MvccVersion → Bool
is_empty [] = true
is_empty (v ∷ vs) = false

-- A key whose compacted index holds nothing but a deletion that is old enough is dropped.
abbrev pub is_droppable : ℕ → KeyIndex → Bool
is_droppable rev ki = is_empty ki.versions || (is_deleted ki && leb ki.last_revision rev)

unfoldable pub compact_all : ℕ → OrdMap Bytes KeyIndex → OrdMap Bytes KeyIndex
compact_all rev [] = []
compact_all rev ((k, ki) ∷ rest) =
    let others = compact_all rev rest in
    let ki' = KeyIndex.compact rev ki in if is_droppable rev ki' then others else (k, ki') ∷ others

unfoldable pub compact : ℕ → Mvcc → Mvcc
unfolding compact_all
compact rev m = record m { index = compact_all rev m.index }

unfoldable pub allocate_revision : Mvcc → Mvcc × ℕ
allocate_revision m = (record m { current_rev = m.current_rev + 1 }, m.current_rev)

unfoldable pub get_key_index : Bytes → Mvcc → Option KeyIndex
get_key_index key m = lookup key m.index
