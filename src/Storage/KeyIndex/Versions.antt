-- ===== src/Storage/KeyIndex/Versions.antt =====
-- The versions of a key over any sequence of writes and compactions.
use my_etcd.Base.{
  ℕ, zero, suc, ◌+◌, ◌<◌, ◌≤◌, ◌≡◌, refl, ◌∙◌, arith, leb, if◌then◌else◌, ◌⊎◌, inl, inr, List, [],
  ◌∷◌, ◌++◌, length, last?, drop, Bytes, length-append, length-drop,
}
use my_etcd.Storage.KeyIndex.{
  KeyIndex, MvccVersion, fresh_index, put, tombstone, compact, keep_until, next_version, created,
  add_version,
}

-- The versions were all created at revision c, are numbered k, k + 1, …, and their revisions do not fall
-- below r nor along the list.
abbrev pub Runs : ℕ → ℕ → ℕ → List MvccVersion → Type 0
Runs c k r [] = Unit
Runs c k r (v ∷ vs) =
    (v.create_revision ≡ c) × (v.version ≡ k) × (r ≤ v.revision) × Runs c (suc k) v.revision vs

abbrev last_or : ℕ → List MvccVersion → ℕ
last_or r [] = r
last_or r (v ∷ vs) = last_or v.revision vs

Runs-append :
    (c k r : ℕ) (vs : List MvccVersion) (v : MvccVersion)
    → Runs c k r vs
    → v.create_revision ≡ c
    → v.version ≡ k + length vs
    → last_or r vs ≤ v.revision
    → Runs c k r (vs ++ v ∷ [])
Runs-append c k r [] v h created numbered later = (created, omega arith, later, tt)
Runs-append c k r (x ∷ xs) v h created numbered later =
    (h.0, h.1, h.2, Runs-append c (suc k) x.revision xs v h.3 created (omega arith) later)

Runs-drop :
    (c k r n : ℕ) (vs : List MvccVersion) → Runs c k r vs → (s : ℕ) × Runs c (k + n) s (drop n vs)
Runs-drop c k r zero vs h = let e : k + 0 ≡ k = omega arith in (r, rw e h)
Runs-drop c k r (suc n) [] h = (r, tt)
Runs-drop c k r (suc n) (v ∷ vs) h =
    let ih = Runs-drop c (suc k) v.revision n vs h.3 in
    let e : k + suc n ≡ suc k + n = omega arith in (ih.0, rw e ih.1)

last_or-append :
    (r : ℕ) (vs : List MvccVersion) (v : MvccVersion) → last_or r (vs ++ v ∷ []) ≡ v.revision
last_or-append r [] v = refl
last_or-append r (x ∷ xs) v = last_or-append x.revision xs v

-- The number of the next version, and the position of the newest version that a compaction keeps.
next_version-Runs :
    (c k r : ℕ) (vs : List MvccVersion)
    → Runs c k r vs
    → 0 < length vs
    → next_version vs ≡ k + length vs
next_version-Runs c k r [] h some_there = absurd (omega arith)
next_version-Runs c k r (v ∷ []) h some_there = omega (arith, h.1)
next_version-Runs c k r (v ∷ w ∷ vs) h some_there =
    omega (arith, next_version-Runs c (suc k) v.revision (w ∷ vs) h.3 (omega arith))

keep_until-le :
    (rev i kept : ℕ) (vs : List MvccVersion)
    → (keep_until rev i kept vs ≡ kept) ⊎ (keep_until rev i kept vs < i + length vs)
unfolding keep_until
keep_until-le rev i kept [] = inl refl
keep_until-le rev i kept (v ∷ vs) =
    ground (arith, keep_until-le rev (suc i) (if leb v.revision rev then i else kept) vs)

-- A compaction never drops the newest version.
last?-drop : (n : ℕ) (vs : List MvccVersion) → n < length vs → last? (drop n vs) ≡ last? vs
last?-drop zero vs h = refl
last?-drop (suc n) [] h = absurd (omega arith)
last?-drop (suc n) (v ∷ []) h = absurd (omega arith)
last?-drop (suc n) (v ∷ w ∷ vs) h = last?-drop n (w ∷ vs) (omega arith)

pub last?-compact : (rev : ℕ) (ki : KeyIndex) → last? (compact rev ki).versions ≡ last? ki.versions
unfolding compact
last?-compact rev ki = go ki.versions
  where
    go : (vs : List MvccVersion) → last? (drop (keep_until rev 0 0 vs) vs) ≡ last? vs
    go [] = refl
    go (v ∷ vs) =
        last?-drop (keep_until rev 0 0 (v ∷ vs)) (v ∷ vs)
          (ground (arith, keep_until-le rev 0 0 (v ∷ vs)))

-- One write, at a revision that is not older than the last one, or one compaction.
pub data Write (ki : KeyIndex) : KeyIndex → Type 0 where
  puts :
      (rev : ℕ) (value : Bytes) (lease_id : ℕ)
      → ki.last_revision ≤ rev
      → Write ki (put rev value lease_id ki)
  deletes : (rev : ℕ) → ki.last_revision ≤ rev → Write ki (tombstone rev ki)
  compacts : (rev : ℕ) → Write ki (compact rev ki)

pub data Writes (ki : KeyIndex) : KeyIndex → Type 0 where
  here : Writes ki ki
  next : {kj kk : KeyIndex} → Writes ki kj → Write kj kk → Writes ki kk

-- The index of a key that was written: its versions run on, and end at the last revision.
pub record Chain (ki : KeyIndex) : Type 0 where
  pub created_at : ℕ
  pub first_version : ℕ
  pub since : ℕ
  pub runs : Runs created_at first_version since ki.versions
  pub ends : last_or since ki.versions ≡ ki.last_revision
  pub some_there : 0 < length ki.versions

abbrev pub IsChain : KeyIndex → Type 0
IsChain ki = ((ki.versions ≡ []) × (ki.last_revision ≡ 0)) ⊎ Chain ki

created-Runs :
    (rev c k r : ℕ) (vs : List MvccVersion) → Runs c k r vs → 0 < length vs → created rev vs ≡ c
created-Runs rev c k r [] h some_there = absurd (omega arith)
created-Runs rev c k r (v ∷ vs) h some_there = h.0

add-Chain :
    (ki : KeyIndex) (v : MvccVersion)
    → Chain ki
    → v.create_revision ≡ created v.revision ki.versions
    → v.version ≡ next_version ki.versions
    → ki.last_revision ≤ v.revision
    → Chain (add_version v ki)
add-Chain ki v ch c n later = record {
  created_at = ch.created_at;
  first_version = ch.first_version;
  since = ch.since;
  runs =
      Runs-append ch.created_at ch.first_version ch.since ki.versions v ch.runs
        (c ∙ created-Runs v.revision _ _ _ ki.versions ch.runs ch.some_there)
        (n ∙ next_version-Runs _ _ _ ki.versions ch.runs ch.some_there) (omega (arith, ch.ends));
  ends = last_or-append ch.since ki.versions v;
  some_there = omega (arith, length-append ki.versions (v ∷ []));
}

-- The first write of a key.
first-Chain : (ki : KeyIndex) (v : MvccVersion) → ki.versions ≡ [] → Chain (add_version v ki)
first-Chain ki v e = record {
  created_at = v.create_revision;
  first_version = v.version;
  since = v.revision;
  runs = rw e (refl, refl, omega arith, tt);
  ends = last_or-append v.revision ki.versions v;
  some_there = omega (arith, length-append ki.versions (v ∷ []));
}

last_or-drop :
    (r s n : ℕ) (vs : List MvccVersion) → n < length vs → last_or s (drop n vs) ≡ last_or r vs
last_or-drop r s n [] h = absurd (omega arith)
last_or-drop r s zero (v ∷ vs) h = refl
last_or-drop r s (suc n) (v ∷ vs) h = last_or-drop v.revision s n vs (omega arith)

compact-Chain : (rev : ℕ) (ki : KeyIndex) → Chain ki → Chain (compact rev ki)
unfolding compact
compact-Chain rev ki ch =
    let kept = Runs-drop ch.created_at ch.first_version ch.since k ki.versions ch.runs in
    record {
      created_at = ch.created_at;
      first_version = ch.first_version + k;
      since = kept.0;
      runs = kept.1;
      ends = last_or-drop ch.since kept.0 k ki.versions inside ∙ ch.ends;
      some_there = omega (arith, length-drop k ki.versions, inside);
    }
  where
    k : ℕ
    k = keep_until rev 0 0 ki.versions

    inside : k < length ki.versions
    inside = ground (arith, keep_until-le rev 0 0 ki.versions, ch.some_there)

Write-IsChain : {ki kj : KeyIndex} → Write ki kj → IsChain ki → IsChain kj
unfolding put tombstone compact
Write-IsChain {ki} (puts rev value lease_id later) (inl e) = inr (first-Chain ki _ e.0)
Write-IsChain {ki} (puts rev value lease_id later) (inr ch) =
    inr (add-Chain ki _ ch refl refl later)
Write-IsChain {ki} (deletes rev later) (inl e) = inr (first-Chain ki _ e.0)
Write-IsChain {ki} (deletes rev later) (inr ch) = inr (add-Chain ki _ ch refl refl later)
Write-IsChain {ki} (compacts rev) (inl e) = inl (rw (e.0, keep_until), e.1)
Write-IsChain {ki} (compacts rev) (inr ch) = inr (compact-Chain rev ki ch)

-- However a key is put, deleted and compacted, at revisions that do not fall, its versions that are kept
-- are numbered consecutively, share one creation revision, stand in the order of their revisions, and end
-- with the last one.
Writes-IsChain : (key : Bytes) {ki : KeyIndex} → Writes (fresh_index key) ki → IsChain ki
Writes-IsChain key here = inl (refl, refl)
Writes-IsChain key (next ws w) = Write-IsChain w (Writes-IsChain key ws)
