-- ===== src/Snapshots/Laws.antt =====
-- What a created snapshot is loaded as, and which snapshots are kept.
use my_etcd.Base.{
  ℕ, zero, suc, ◌-◌, ◌^◌, ◌<◌, ◌≤◌, max, ◌≡◌, refl, ap, ◌∙◌, arith, true, false, List, [], ◌∷◌,
  Option, some, ltb, leb, ◌==◌, if◌then◌else◌, length, drop, last?, Bytes, ◌>>=◌, nat_key, take_all,
  length-drop, get_or_else, Bool-cases, inl, inr, ltb→lt, ==_iff, subst, leb→le,
}
use my_etcd.OrdMap.{OrdMap, Above, IsOrdered, lookup, insert, insert-IsOrdered}
use my_etcd.Codec.Words.{FitsBytes-u32, FitsBytes-u64, read_le-le_bytes}
use my_etcd.Wal.RoundTrip.{then_some, passes}
use my_etcd.Snapshots.{
  SnapshotManager, snapshot_bytes, read_snapshot, latest, load_latest, load_latest_snapshot,
  cleanup_old_snapshots, create_snapshot,
}

pub read_snapshot-snapshot_bytes :
    (idx term : ℕ) (content : Bytes)
    → idx < 2 ^ 64
    → term < 2 ^ 64
    → length content < 2 ^ 32
    → read_snapshot (snapshot_bytes idx term (length content) content)
      ≡ some (record { last_index = idx; last_term = term; content = content })
unfolding read_snapshot snapshot_bytes
read_snapshot-snapshot_bytes idx term content h k l =
    let whole : ltb (length content) (length content) ≡ false = ground arith in
    then_some _ (read_le-le_bytes 8 idx _ (FitsBytes-u64 idx h)) (
      then_some _ (read_le-le_bytes 8 term _ (FitsBytes-u64 term k)) (
        then_some _ (read_le-le_bytes 4 (length content) content (FitsBytes-u32 (length content) l))
          (passes _ whole (
            ap (λ c. some (record { last_index = idx; last_term = term; content = c }))
              (take_all (length content) content (omega arith))))))

-- No file has a larger index.
abbrev pub UpTo : ℕ → OrdMap ℕ Bytes → Type 0
UpTo idx [] = Unit
UpTo idx ((i, bytes) ∷ files) = (i ≤ idx) × UpTo idx files

last?-cons {ℓ} :
    {A : Type ℓ} (y : A) (xs : List A) {x : A} → last? xs ≡ some x → last? (y ∷ xs) ≡ some x
last?-cons y [] h = absurd cc
last?-cons y (z ∷ xs) h = h

Above-UpTo :
    (i idx : ℕ) (files : OrdMap ℕ Bytes)
    → (i == idx) ≡ true
    → Above i files
    → UpTo idx files
    → files ≡ []
Above-UpTo i idx [] same a h = refl
Above-UpTo i idx ((j, b) ∷ files) same a h =
    absurd (omega (arith, ltb→lt i j a.0, h.0, (==_iff i idx).0 same))

last?-insert :
    (idx : ℕ) (bytes : Bytes) (files : OrdMap ℕ Bytes)
    → IsOrdered files
    → UpTo idx files
    → last? (insert idx bytes files) ≡ some (idx, bytes)
unfolding insert
last?-insert idx bytes [] o h = refl
last?-insert idx bytes ((i, b) ∷ files) o h = elim (Bool-cases (i == idx)) [
  | inl same ↦ rw same (ap (λ fs. last? ((idx, bytes) ∷ fs)) (Above-UpTo i idx files same o.0 h.1))
  | inr differ ↦
      let after : ltb idx i ≡ false = ground (arith, h.0) in
      rw (differ, after)
        (last?-cons (i, b) (insert idx bytes files) (last?-insert idx bytes files o.1 h.1))
]

same_pair :
    (j idx : ℕ) (b bytes : Bytes)
    → last? {A = ℕ × Bytes} ((j, b) ∷ []) ≡ some (idx, bytes)
    → (j ≡ idx) × (b ≡ bytes)
same_pair j idx b bytes h = (
  ap (λ (o : Option (ℕ × Bytes)). get_or_else (o >>= λ p. some p.0) 0) h,
  ap (λ (o : Option (ℕ × Bytes)). get_or_else (o >>= λ p. some p.1) []) h,
)

last?-drop {ℓ} : {A : Type ℓ} (n : ℕ) (xs : List A) → n < length xs → last? (drop n xs) ≡ last? xs
last?-drop zero xs h = refl
last?-drop (suc n) [] h = absurd (omega arith)
last?-drop (suc n) (x ∷ []) h = absurd (omega arith)
last?-drop (suc n) (x ∷ y ∷ xs) h = last?-drop n (y ∷ xs) (omega arith)

IsOrdered-drop : (n : ℕ) (files : OrdMap ℕ Bytes) → IsOrdered files → IsOrdered (drop n files)
IsOrdered-drop zero files o = o
IsOrdered-drop (suc n) [] o = tt
IsOrdered-drop (suc n) ((i, b) ∷ files) o = IsOrdered-drop n files o.1

Above-last :
    (i idx : ℕ) (bytes : Bytes) (files : OrdMap ℕ Bytes)
    → Above i files
    → last? files ≡ some (idx, bytes)
    → ltb i idx ≡ true
Above-last i idx bytes [] a h = absurd cc
Above-last i idx bytes ((j, b) ∷ []) a h =
    subst (λ k. ltb i k ≡ true) (same_pair j idx b bytes h).0 a.0
Above-last i idx bytes ((j, b) ∷ (k, c) ∷ files) a h = Above-last i idx bytes ((k, c) ∷ files) a.1 h

lookup-last :
    (idx : ℕ) (bytes : Bytes) (files : OrdMap ℕ Bytes)
    → IsOrdered files
    → last? files ≡ some (idx, bytes)
    → lookup idx files ≡ some bytes
unfolding lookup
lookup-last idx bytes [] o h = absurd cc
lookup-last idx bytes ((j, b) ∷ []) o h = ground (arith, same_pair j idx b bytes h)
lookup-last idx bytes ((j, b) ∷ (k, c) ∷ files) o h = ground (
  arith,
  lookup-last idx bytes ((k, c) ∷ files) o.1 h,
  Above-last j idx bytes ((k, c) ∷ files) o.0 h,
)

latest-last :
    (found idx : ℕ) (bytes : Bytes) (files : OrdMap ℕ Bytes)
    → IsOrdered files
    → last? files ≡ some (idx, bytes)
    → latest found files ≡ max found idx
unfolding latest
latest-last found idx bytes [] o h = absurd cc
latest-last found idx bytes ((j, b) ∷ []) o h = ground (arith, same_pair j idx b bytes h)
latest-last found idx bytes ((j, b) ∷ (k, c) ∷ files) o h =
    latest-last (if ltb found j then j else found) idx bytes ((k, c) ∷ files) o.1 h
    ∙ ground (arith, Above-last j idx bytes ((k, c) ∷ files) o.0 h)

load_latest-last :
    (idx : ℕ) (bytes : Bytes) (files : OrdMap ℕ Bytes)
    → 0 < idx
    → IsOrdered files
    → last? files ≡ some (idx, bytes)
    → load_latest files ≡ read_snapshot bytes
unfolding load_latest
load_latest-last idx bytes files pos o h =
    let found : latest 0 files ≡ idx = latest-last 0 idx bytes files o h ∙ omega arith in
    let nonzero : (idx == 0) ≡ false = ground arith in
    rw (found, nonzero, lookup-last idx bytes files o h) refl

-- What a created snapshot leaves in the directory: at most the files allowed, in order, with the new one last.
record IsKept (idx most : ℕ) (bytes : Bytes) (s : SnapshotManager) : Type 0 where
  pub few : length s.files ≤ most
  pub ordered : IsOrdered s.files
  pub newest : last? s.files ≡ some (idx, bytes)

cleanup-IsKept :
    (idx : ℕ) (bytes : Bytes) (s : SnapshotManager)
    → IsOrdered s.files
    → 0 < s.max_snapshots
    → last? s.files ≡ some (idx, bytes)
    → IsKept idx s.max_snapshots bytes (cleanup_old_snapshots s)
unfolding cleanup_old_snapshots
cleanup-IsKept idx bytes s o pos h = elim (Bool-cases (leb (length s.files) s.max_snapshots)) [
  | inl few ↦
      rw few (record { few = leb→le (length s.files) s.max_snapshots few; ordered = o; newest = h })
  | inr many ↦
      let n = length s.files - s.max_snapshots in
      let over : s.max_snapshots < length s.files = ground arith in
      rw many (record {
        few = omega (arith, length-drop n s.files);
        ordered = IsOrdered-drop n s.files o;
        newest = last?-drop n s.files (omega arith) ∙ h;
      })
]

-- A snapshot no older than those of the directory is created, if its content is shorter than 2^32 bytes, and is
-- then the one that is loaded, as it was saved; no more files are left than allowed. Its index is positive,
-- its words fit 64 bits, and at least one file is allowed.
pub create_snapshot_lem :
    (idx term : ℕ) (content : Bytes) (s : SnapshotManager)
    → 0 < idx
    → idx < 2 ^ 64
    → term < 2 ^ 64
    → length content < 2 ^ 32
    → 0 < s.max_snapshots
    → IsOrdered s.files
    → UpTo idx s.files
    → ((create_snapshot idx term content s).1 ≡ true)
      × ((load_latest_snapshot (create_snapshot idx term content s).0
            ≡ some (record { last_index = idx; last_term = term; content = content }))
          × (length (create_snapshot idx term content s).0.files ≤ s.max_snapshots))
unfolding create_snapshot load_latest_snapshot
create_snapshot_lem idx term content s pos h k l allowed o up =
    let bytes = snapshot_bytes idx term (length content) content in
    let fits : ltb (2 ^ 32 - 1) (length content) ≡ false = ground arith in
    let kept =
      cleanup-IsKept idx bytes (record s { files = insert idx bytes s.files })
        (insert-IsOrdered idx bytes s.files o) allowed (last?-insert idx bytes s.files o up) in
    rw fits (
      refl,
      (
        load_latest-last idx bytes _ pos kept.ordered kept.newest
            ∙ read_snapshot-snapshot_bytes idx term content h k l,
        kept.few,
      ),
    )
