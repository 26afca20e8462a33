-- ===== src/Server/Sections.antt =====
-- The loop over the objects of a transaction's section ends before its fuel does.
use my_etcd.Base.{
  ℕ, zero, suc, ◌≡◌, ◌≤◌, ◌<◌, refl, ap, sym, ◌∙◌, subst, arith, true, [], ◌∷◌, Option, none, some,
  length, length-drop, Bytes, ◌>>=◌, has_prefix, Bool-cases, Option-cases, inl, inr,
}
use my_etcd.Server.Json.{codes}
use my_etcd.Server.Txn.{split_at, next_object, objects_round, objects}

has_prefix-length : (part s : Bytes) → has_prefix part s ≡ true → length part ≤ length s
unfolding has_prefix
has_prefix-length [] s h = omega arith
has_prefix-length (p ∷ part) [] h = absurd cc
has_prefix-length (p ∷ part) (c ∷ s) h = ground (arith, has_prefix-length part s)

-- What is found is at least as long as what was looked for, and no longer than the text.
abbrev pub IsFound : Bytes → Bytes → Option (Bytes × Bytes) → Type 0
IsFound part s none = Unit
IsFound part s (some (front, rest)) = (length part ≤ length rest) × (length rest ≤ length s)

IsFound-later :
    (part s : Bytes) (c : ℕ) (o : Option (Bytes × Bytes))
    → IsFound part s o
    → IsFound part (c ∷ s) (o >>= λ (front, rest). some (c ∷ front, rest))
IsFound-later part s c none h = tt
IsFound-later part s c (some (front, rest)) h = (h.0, omega (arith, h.1))

pub IsFound-split_at : (part s : Bytes) → IsFound part s (split_at part s)
unfolding split_at
IsFound-split_at part [] = elim (Bool-cases (has_prefix part [])) [
  | inl here ↦ rw here (has_prefix-length part [] here, omega arith)
  | inr absent ↦ rw absent tt
]
IsFound-split_at part (c ∷ s) = elim (Bool-cases (has_prefix part (c ∷ s))) [
  | inl here ↦ rw here (has_prefix-length part (c ∷ s) here, omega arith)
  | inr later ↦ rw later (IsFound-later part s c (split_at part s) (IsFound-split_at part s))
]

-- An object's brace is behind it.
abbrev IsShorter : Bytes → Option (Bytes × Bytes) → Type 0
IsShorter section none = Unit
IsShorter section (some (obj, behind)) = length behind < length section

IsShorter-next_object : (section : Bytes) → IsShorter section (next_object section)
unfolding next_object
IsShorter-next_object section = elim (Option-cases (split_at (codes "{") section)) [
  | inl none_left ↦ rw none_left tt
  | inr ((front, rest), opened) ↦
      let first =
        subst (IsFound (codes "{") section) opened (IsFound-split_at (codes "{") section) in
      elim (Option-cases (split_at (codes "}") rest)) [
        | inl unclosed ↦ rw (opened, unclosed) tt
        | inr ((body, behind), ended) ↦
            let second =
              subst (IsFound (codes "}") rest) ended (IsFound-split_at (codes "}") rest) in
            rw (opened, ended) (omega (arith, first.1, second.0, second.1, length-drop 1 behind))
      ]
]

objects-nothing : (fuel : ℕ) (section : Bytes) → length section ≤ 0 → objects fuel section ≡ []
unfolding objects next_object split_at has_prefix
objects-nothing fuel (c ∷ section) h = absurd (omega arith)
objects-nothing zero [] h = refl
objects-nothing (suc fuel) [] h = refl

objects-next :
    (fuel : ℕ) (section : Bytes) (o : Option (Bytes × Bytes))
    → next_object section ≡ o
    → objects (suc fuel) section ≡ objects_round (objects fuel) o
unfolding objects
objects-next fuel section o found = ap (objects_round (objects fuel)) found

-- A fuel of the length of the section is enough: no other that is as large gives another result.
pub objects-enough :
    (fuel more : ℕ) (section : Bytes)
    → length section ≤ fuel
    → length section ≤ more
    → objects fuel section ≡ objects more section
objects-enough zero more section h k =
    objects-nothing zero section h ∙ sym (objects-nothing more section h)
objects-enough (suc fuel) zero section h k =
    objects-nothing (suc fuel) section k ∙ sym (objects-nothing zero section k)
objects-enough (suc fuel) (suc more) section h k = elim (Option-cases (next_object section)) [
  | inl stop ↦ objects-next fuel section none stop ∙ sym (objects-next more section none stop)
  | inr ((obj, behind), found) ↦
      let shorter : length behind < length section =
        subst (IsShorter section) found (IsShorter-next_object section) in
      objects-next fuel section (some (obj, behind)) found
      ∙ ap (◌∷◌ obj)
          (objects-enough fuel more behind (omega (arith, shorter)) (omega (arith, shorter)))
      ∙ sym (objects-next more section (some (obj, behind)) found)
]
