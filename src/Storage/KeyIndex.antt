-- ===== src/Storage/KeyIndex.antt =====
-- src/storage/mvcc.h and mvcc.cpp: `KeyIndex`, the versions of one key, oldest first. Revisions and
-- versions are counted from small positive numbers, and are not taken near the end of int64.
pub mod Versions
use my_etcd.Base.{
  ℕ, suc, ◌+◌, Bool, true, false, List, [], ◌∷◌, ◌++◌, Option, none, some, leb, ◌==◌, ◌&&◌, not,
  if◌then◌else◌, last?, drop, Bytes,
}
use mathlib.Core.List.{reverse}

pub record MvccVersion : Type 0 where
  pub revision : ℕ
  pub version : ℕ
  pub create_revision : ℕ
  pub tombstone : Bool
  pub lease_id : ℕ
  pub value : Bytes

pub record KeyIndex : Type 0 where
  pub key : Bytes
  pub versions : List MvccVersion
  pub last_revision : ℕ

abbrev pub fresh_index : Bytes → KeyIndex
fresh_index key = record { key = key; versions = []; last_revision = 0 }

unfoldable pub version_at : ℕ → List MvccVersion → Option MvccVersion
version_at rev [] = none
version_at rev (v ∷ vs) = if v.revision == rev then some v else version_at rev vs

unfoldable pub latest : KeyIndex → Option MvccVersion
latest ki = last? ki.versions

-- The version number and the creation revision of a new version.
abbrev pub next_version : List MvccVersion → ℕ
next_version vs = elim (last? vs) [ none ↦ 1 | some v ↦ v.version + 1 ]

abbrev pub created : ℕ → List MvccVersion → ℕ
created rev [] = rev
created rev (v ∷ vs) = v.create_revision

abbrev pub put_version : ℕ → Bytes → ℕ → List MvccVersion → MvccVersion
put_version rev value lease_id vs = record {
  revision = rev;
  version = next_version vs;
  create_revision = created rev vs;
  tombstone = false;
  lease_id = lease_id;
  value = value;
}

-- The source leaves the lease of a tombstone unset, and never reads it.
abbrev pub tombstone_version : ℕ → List MvccVersion → MvccVersion
tombstone_version rev vs = record {
  revision = rev;
  version = next_version vs;
  create_revision = created rev vs;
  tombstone = true;
  lease_id = 0;
  value = [];
}

abbrev pub add_version : MvccVersion → KeyIndex → KeyIndex
add_version v ki = record ki { versions = ki.versions ++ v ∷ []; last_revision = v.revision }

unfoldable pub put : ℕ → Bytes → ℕ → KeyIndex → KeyIndex
put rev value lease_id ki = add_version (put_version rev value lease_id ki.versions) ki

unfoldable pub tombstone : ℕ → KeyIndex → KeyIndex
tombstone rev ki = add_version (tombstone_version rev ki.versions) ki

abbrev pub ends_deleted : Option MvccVersion → Bool
ends_deleted none = true
ends_deleted (some v) = v.tombstone

unfoldable pub is_deleted : KeyIndex → Bool
is_deleted ki = ends_deleted (last? ki.versions)

-- The last position whose revision is at most `rev`; 0 where there is none.
unfoldable pub keep_until : ℕ → ℕ → ℕ → List MvccVersion → ℕ
keep_until rev i kept [] = kept
keep_until rev i kept (v ∷ vs) = keep_until rev (suc i) (if leb v.revision rev then i else kept) vs

unfoldable pub compact : ℕ → KeyIndex → KeyIndex
unfolding keep_until
compact rev ki = record ki { versions = drop (keep_until rev 0 0 ki.versions) ki.versions }

-- The reverse search of the reads at a revision.
unfoldable pub first_visible : ℕ → List MvccVersion → Option MvccVersion
first_visible at_rev [] = none
first_visible at_rev (v ∷ vs) =
    if leb v.revision at_rev && not v.tombstone then some v else first_visible at_rev vs

unfoldable pub version_for : ℕ → KeyIndex → Option MvccVersion
unfolding first_visible
version_for at_rev ki =
    if at_rev == 0 then last? ki.versions else first_visible at_rev (reverse ki.versions)
