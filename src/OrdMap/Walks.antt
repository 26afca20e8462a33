-- ===== src/OrdMap/Walks.antt =====
-- Iteration over a `std::map`: the loop of every range query, and what it collects.
use my_etcd.Base.{
  Key, ℕ, suc, zero, Bool, true, false, Option, none, some, List, [], ◌∷◌, ◌&&◌, not, if◌then◌else◌,
  ◌≡◌, refl, arith, ap, Bool-cases, inl, inr, ltb, leb, take, ◌-◌, Bytes, bytes_key, str_lt,
  has_prefix, sym, ◌∙◌, Option-cases,
}
use my_etcd.OrdMap.Laws.{OrdMap, Above, IsOrdered}

-- The `for` loop of the range queries: `go_on` is its condition on the key, `limit` stops it when it
-- is positive and as many results are there, and `pick` is `none` where the body says `continue`.
unfoldable pub range_loop {ℓ κ ι} :
    {K : Type ℓ} {V : Type κ} {R : Type ι}
    → (K → Bool)
    → (K → V → Option R)
    → ℕ
    → ℕ
    → OrdMap K V
    → List R
range_loop go_on pick limit n [] = []
range_loop go_on pick limit n ((k, v) ∷ m) =
    if go_on k
    then if ltb 0 limit && leb limit n then [] else elim (pick k v) [
      | none ↦ range_loop go_on pick limit n m
      | some r ↦ r ∷ range_loop go_on pick limit (suc n) m
    ]
    else []

-- What a query means: the results of all pairs whose key is wanted, in key order.
unfoldable pub collect {ℓ κ ι} :
    {K : Type ℓ} {V : Type κ} {R : Type ι} → (K → Bool) → (K → V → Option R) → OrdMap K V → List R
collect want pick [] = []
collect want pick ((k, v) ∷ m) =
    let rest = collect want pick m in
    if want k then elim (pick k v) [ none ↦ rest | some r ↦ r ∷ rest ] else rest

-- A limit of 0 is no limit.
abbrev pub limited {ℓ} : {R : Type ℓ} → ℕ → List R → List R
limited limit rs = if ltb 0 limit then take limit rs else rs

module _ {ℓ} {K : Type ℓ} ⦃o : Key K⦄ where
  -- Once the condition of the loop fails at a key that is not before `start`, it fails ever after.
  abbrev pub StaysOff : K → (K → Bool) → Type ℓ
  StaysOff start p =
      (a b : K) → o.blt a start ≡ false → p a ≡ false → o.blt a b ≡ true → p b ≡ false

  -- The keys that a query from `start` wants.
  abbrev pub wanted : K → (K → Bool) → K → Bool
  wanted start p k = not (o.blt k start) && p k

  pub before-StaysOff : (start end : K) → StaysOff start (λ k. o.blt k end)
  before-StaysOff start end a b h p q = ground (arith, o.blt_trans a b end q)

-- What is left of a limit after `n` results.
abbrev room {ℓ} : {R : Type ℓ} → ℕ → ℕ → List R → List R
room limit n rs = if ltb 0 limit then take (limit - n) rs else rs

room-cons {ℓ} :
    {R : Type ℓ} (limit n : ℕ) (r : R) (rs : List R)
    → (ltb 0 limit && leb limit n) ≡ false
    → room limit n (r ∷ rs) ≡ r ∷ room limit (suc n) rs
room-cons zero n r rs h = refl
room-cons (suc l) n r rs h =
    let e : suc l - n ≡ suc (suc l - suc n) = ground arith in rw e (ground arith)

room-full {ℓ} :
    {R : Type ℓ} (limit n : ℕ) (rs : List R)
    → (ltb 0 limit && leb limit n) ≡ true
    → room limit n rs ≡ []
room-full zero n rs h = cc
room-full (suc l) n rs h = let e : suc l - n ≡ 0 = ground arith in rw e (ground arith)

room-nil {ℓ} : {R : Type ℓ} (limit n : ℕ) → room {R = R} limit n [] ≡ []
room-nil {R} limit n = go (limit - n)
  where
    go : (l : ℕ) → (if ltb 0 limit then take {A = R} l [] else []) ≡ []
    go zero = ground arith
    go (suc l) = ground arith

room-zero {ℓ} : {R : Type ℓ} (limit : ℕ) (rs : List R) → room limit 0 rs ≡ limited limit rs
room-zero limit rs = let e : limit - 0 ≡ limit = omega arith in rw e

module _ {ℓ κ} {K : Type ℓ} {V : Type κ} ⦃o : Key K⦄ where
  unfoldable pub lower_bound : K → OrdMap K V → OrdMap K V
  lower_bound k [] = []
  lower_bound k ((j, v) ∷ m) = let rest = lower_bound k m in if o.blt j k then rest else (j, v) ∷ m

  lower_bound_here :
      (start k : K) (v : V) (m : OrdMap K V)
      → o.blt k start ≡ false
      → lower_bound start ((k, v) ∷ m) ≡ (k, v) ∷ m
  unfolding lower_bound
  lower_bound_here start k v m h = rw h

  -- No key is before `start`.
  abbrev From : K → OrdMap K V → Type 0
  From start [] = Unit
  From start ((k, v) ∷ m) = (o.blt k start ≡ false) × From start m

  Above-From : (start j : K) (m : OrdMap K V) → o.blt j start ≡ false → Above j m → From start m
  Above-From start j [] h a = tt
  Above-From start j ((k, v) ∷ m) h a =
      (ground (arith, o.blt_trans j k start a.0), Above-From start j m h a.1)

module _ {ℓ κ ι} {K : Type ℓ} {V : Type κ} {R : Type ι} ⦃o : Key K⦄ where
  collect-none :
      (start j : K) (p : K → Bool) (pick : K → V → Option R) (m : OrdMap K V)
      → StaysOff start p
      → o.blt j start ≡ false
      → p j ≡ false
      → Above j m
      → collect (wanted start p) pick m ≡ []
  unfolding collect
  collect-none start j p pick [] off h e a = refl
  collect-none start j p pick ((k, v) ∷ m) off h e a =
      let off_k : p k ≡ false = off j k h e a.0 in
      ground (arith, collect-none start j p pick m off h e a.1)

  -- From the first pair that is not before `start` on, the loop is the filter.
  range_loop-collect :
      (start : K) (p : K → Bool) (pick : K → V → Option R) (limit n : ℕ) (m : OrdMap K V)
      → StaysOff start p
      → IsOrdered m
      → From start m
      → range_loop p pick limit n m ≡ room limit n (collect (wanted start p) pick m)
  unfolding range_loop collect
  range_loop-collect start p pick limit n [] off ord from = sym (room-nil limit n)
  range_loop-collect start p pick limit n ((k, v) ∷ m) off ord from = elim (Bool-cases (p k)) [
    | inl on ↦ elim (Bool-cases (ltb 0 limit && leb limit n)) [
      | inl full ↦ rw (on, full) (sym (room-full limit n _ full))
      | inr more ↦ elim (Option-cases (pick k v)) [
        | inl skip ↦
            rw (on, more, from.0, skip) (range_loop-collect start p pick limit n m off ord.1 from.1)
        | inr (r, hit) ↦
            rw (on, more, from.0, hit)
              (ap (◌∷◌ r) (range_loop-collect start p pick limit (suc n) m off ord.1 from.1)
                ∙ sym (room-cons limit n r _ more))
      ]
    ]
    | inr off_k ↦
        rw (off_k, from.0, collect-none start k p pick m off from.0 off_k ord.0)
          (sym (room-nil limit n))
  ]

  -- A range query collects, in key order and up to the limit, the wanted pairs of the whole map.
  pub range_loop-lower_bound :
      (start : K) (p : K → Bool) (pick : K → V → Option R) (limit : ℕ) (m : OrdMap K V)
      → StaysOff start p
      → IsOrdered m
      → range_loop p pick limit 0 (lower_bound start m)
        ≡ limited limit (collect (wanted start p) pick m)
  unfolding lower_bound collect
  range_loop-lower_bound start p pick limit [] off ord =
      range_loop-collect start p pick limit 0 [] off ord tt ∙ room-zero limit []
  range_loop-lower_bound start p pick limit ((k, v) ∷ m) off ord =
      elim (Bool-cases (o.blt k start)) [
        | inl before ↦ rw before (range_loop-lower_bound start p pick limit m off ord.1)
        | inr here ↦
            ap (range_loop p pick limit 0) (lower_bound_here start k v m here)
            ∙ range_loop-collect start p pick limit 0 ((k, v) ∷ m) off ord
                (here, Above-From start k m here ord.0)
            ∙ room-zero limit _
      ]

-- The keys with a prefix lie together, from the prefix on.
pub has_prefix-StaysOff : (prefix : Bytes) → StaysOff prefix (has_prefix prefix)
unfolding str_lt has_prefix
has_prefix-StaysOff [] a b h p q = cc
has_prefix-StaysOff (x ∷ xs) [] b h p q = cc
has_prefix-StaysOff (x ∷ xs) (y ∷ ys) [] h p q = cc
has_prefix-StaysOff (x ∷ xs) (y ∷ ys) (z ∷ zs) h p q = ground (arith, has_prefix-StaysOff xs ys zs)
