-- ===== src/Http/Search.antt =====
-- `find` in a text that goes on, as src/main.cpp searches what it has read so far.
use my_etcd.Base.{
  ℕ, ◌+◌, ◌≡◌, ◌≤◌, ◌<◌, refl, ap, sym, subst, ◌∙◌, arith, false, ◌&&◌, Bool-cases, inl, inr, [],
  ◌∷◌, ◌++◌, Option, none, some, ◌==◌, Bytes, has_prefix, length, length-append, ◌>>=◌,
}
use mathlib.Core.Option.{some-injective}
use my_etcd.Server.Txn.{split_at}
use my_etcd.Server.Sections.{IsFound, IsFound-split_at}

has_prefix-append : (p s t : Bytes) → length p ≤ length s → has_prefix p (s ++ t) ≡ has_prefix p s
unfolding has_prefix
has_prefix-append [] s t h = refl
has_prefix-append (c ∷ p) [] t h = absurd (omega arith)
has_prefix-append (c ∷ p) (d ∷ s) t h =
    ap (λ b. (c == d) && b) (has_prefix-append p s t (omega arith))

has_prefix-short : (p s : Bytes) → length s < length p → has_prefix p s ≡ false
unfolding has_prefix
has_prefix-short [] s h = absurd (omega arith)
has_prefix-short (c ∷ p) [] h = refl
has_prefix-short (c ∷ p) (d ∷ s) h = ground (arith, has_prefix-short p s (omega arith))

-- More text behind what was found.
abbrev pub and_more : Bytes → Option (Bytes × Bytes) → Option (Bytes × Bytes)
and_more more none = none
and_more more (some (front, rest)) = some (front, rest ++ more)

and_more-bind :
    (c : ℕ) (t : Bytes) (o o' : Option (Bytes × Bytes)) (r : Bytes × Bytes)
    → (o >>= λ (front, rest). some (c ∷ front, rest)) ≡ some r
    → ((q : Bytes × Bytes) → o ≡ some q → o' ≡ and_more t o)
    → (o' >>= λ (front, rest). some (c ∷ front, rest)) ≡ and_more t (some r)
and_more-bind c t none o' r e h = absurd cc
and_more-bind c t (some q) o' r e h =
    ap (λ (o : Option (Bytes × Bytes)). o >>= λ (front, rest). some (c ∷ front, rest)) (h q refl)
    ∙ ap (and_more t) e

pub split_at-fits : (p s : Bytes) (r : Bytes × Bytes) → split_at p s ≡ some r → length p ≤ length s
split_at-fits p s r e =
    let found : IsFound p s (some r) = subst (IsFound p s) e (IsFound-split_at p s) in
    omega (arith, found.0, found.1)

-- What is found in a text is found at the same place when more stands behind it.
pub split_at-append :
    (x : ℕ) (p s t : Bytes) (r : Bytes × Bytes)
    → split_at (x ∷ p) s ≡ some r
    → split_at (x ∷ p) (s ++ t) ≡ and_more t (some r)
unfolding split_at
split_at-append x p [] t r e =
    let nothing : split_at (x ∷ p) [] ≡ none = rw (has_prefix-short (x ∷ p) [] (omega arith)) in
    absurd cc
split_at-append x p (c ∷ s) t r e =
    let longer = has_prefix-append (x ∷ p) (c ∷ s) t (split_at-fits (x ∷ p) (c ∷ s) r e) in
    elim (Bool-cases (has_prefix (x ∷ p) (c ∷ s))) [
      | inl here ↦
          let found : some ([], c ∷ s) ≡ some r = rw here at e in
          rw (longer, here)
            (ap (λ (q : Bytes × Bytes). some (q.0, q.1 ++ t)) (some-injective ([], c ∷ s) r found))
      | inr later ↦
          rw (longer, later)
            (and_more-bind c t (split_at (x ∷ p) s) (split_at (x ∷ p) (s ++ t)) r (rw later at e)
              (λ q found. split_at-append x p s t q found ∙ ap (and_more t) (sym found)))
    ]

abbrev AreParts : Bytes → Option (Bytes × Bytes) → Type 0
AreParts s none = Unit
AreParts s (some (front, rest)) = front ++ rest ≡ s

AreParts-later :
    (c : ℕ) (s : Bytes) (o : Option (Bytes × Bytes))
    → AreParts s o
    → AreParts (c ∷ s) (o >>= λ (front, rest). some (c ∷ front, rest))
AreParts-later c s none h = tt
AreParts-later c s (some (front, rest)) h = ap (◌∷◌ c) h

AreParts-split_at : (p s : Bytes) → AreParts s (split_at p s)
unfolding split_at
AreParts-split_at p [] = elim (Bool-cases (has_prefix p [])) [
  | inl here ↦ rw here refl
  | inr absent ↦ rw absent tt
]
AreParts-split_at p (c ∷ s) = elim (Bool-cases (has_prefix p (c ∷ s))) [
  | inl here ↦ rw here refl
  | inr later ↦ rw later (AreParts-later c s (split_at p s) (AreParts-split_at p s))
]

pub split_at-parts :
    (p s front rest : Bytes) → split_at p s ≡ some (front, rest) → front ++ rest ≡ s
split_at-parts p s front rest e = subst (AreParts s) e (AreParts-split_at p s)

-- What was looked for lies within the text.
pub split_at-within :
    (p s front rest : Bytes)
    → split_at p s ≡ some (front, rest)
    → length front + length p ≤ length s
split_at-within p s front rest e =
    let found : IsFound p s (some (front, rest)) = subst (IsFound p s) e (IsFound-split_at p s) in
    omega (arith, found.0, length-append front rest, ap length (split_at-parts p s front rest e))
