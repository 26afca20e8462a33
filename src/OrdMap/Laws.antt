-- ===== src/OrdMap/Laws.antt =====
-- Lookup, insertion and removal, and their laws.
use my_etcd.Base.{
  Key, Bool, true, false, Option, none, some, List, [], ◌∷◌, if◌then◌else◌, ◌≡◌, refl, arith,
  Bool-cases, inl, inr, subst,
}

abbrev pub OrdMap {ℓ κ} : Type ℓ → Type κ → Type (ℓ ⊔ κ)
OrdMap K V = List (K × V)

module _ {ℓ κ} {K : Type ℓ} {V : Type κ} ⦃o : Key K⦄ where
  -- `find`
  unfoldable pub lookup : K → OrdMap K V → Option V
  lookup k [] = none
  lookup k ((j, v) ∷ m) = if o.beq j k then some v else lookup k m

  -- `m[k] = v`
  unfoldable pub insert : K → V → OrdMap K V → OrdMap K V
  insert k v [] = (k, v) ∷ []
  insert k v ((j, w) ∷ m) =
      let rest = insert k v m in
      if o.beq j k then (k, v) ∷ m else if o.blt k j then (k, v) ∷ (j, w) ∷ m else (j, w) ∷ rest

  -- `erase(k)`
  unfoldable pub erase : K → OrdMap K V → OrdMap K V
  erase k [] = []
  erase k ((j, w) ∷ m) = let rest = erase k m in if o.beq j k then rest else (j, w) ∷ rest

  -- `count(k) > 0`
  abbrev pub has_key : K → OrdMap K V → Bool
  has_key k m = elim (lookup k m) [ none ↦ false | some v ↦ true ]

  pub lookup-insert :
      (k j : K) (v : V) (m : OrdMap K V)
      → lookup j (insert k v m) ≡ (if o.beq k j then some v else lookup j m)
  unfolding lookup insert
  lookup-insert k j v [] = refl
  lookup-insert k j v ((i, w) ∷ m) =
      ground
        (arith, o.beq_iff k j, o.beq_iff i k, o.beq_iff i j, o.blt_irrefl k, lookup-insert k j v m)

  pub lookup-erase :
      (k j : K) (m : OrdMap K V) → lookup j (erase k m) ≡ (if o.beq k j then none else lookup j m)
  unfolding lookup erase
  lookup-erase k j [] = ground arith
  lookup-erase k j ((i, w) ∷ m) =
      ground (arith, o.beq_iff k j, o.beq_iff i k, o.beq_iff i j, lookup-erase k j m)

  -- Every key of the map lies after `k`.
  abbrev pub Above : K → OrdMap K V → Type 0
  Above k [] = Unit
  Above k ((j, w) ∷ m) = (o.blt k j ≡ true) × Above k m

  -- The keys rise strictly, as in a `std::map`.
  abbrev pub IsOrdered : OrdMap K V → Type 0
  IsOrdered [] = Unit
  IsOrdered ((j, w) ∷ m) = Above j m × IsOrdered m

  pub Above-trans : (k j : K) (m : OrdMap K V) → o.blt k j ≡ true → Above j m → Above k m
  Above-trans k j [] h a = tt
  Above-trans k j ((i, w) ∷ m) h a = (o.blt_trans k j i h a.0, Above-trans k j m h a.1)

  Above-insert :
      (i k : K) (v : V) (m : OrdMap K V) → o.blt i k ≡ true → Above i m → Above i (insert k v m)
  unfolding insert
  Above-insert i k v [] h a = (h, tt)
  Above-insert i k v ((j, w) ∷ m) h a = ground (arith, Above-insert i k v m h a.1)

  pub insert-IsOrdered : (k : K) (v : V) (m : OrdMap K V) → IsOrdered m → IsOrdered (insert k v m)
  unfolding insert
  insert-IsOrdered k v [] h = (tt, tt)
  insert-IsOrdered k v ((j, w) ∷ m) h = elim (Bool-cases (o.beq j k)) [
    | inl same ↦ rw same (subst (λ i. Above i m) ((o.beq_iff j k).0 same) h.0, h.1)
    | inr differ ↦ elim (Bool-cases (o.blt k j)) [
      | inl before ↦ rw (differ, before) ((before, Above-trans k j m before h.0), h)
      | inr after ↦
          rw (differ, after)
            (
              Above-insert j k v m
                  (o.blt_total k j after (ground (arith, o.beq_iff j k, o.beq_iff k j))) h.0,
              insert-IsOrdered k v m h.1,
            )
    ]
  ]

  Above-erase : (i k : K) (m : OrdMap K V) → Above i m → Above i (erase k m)
  unfolding erase
  Above-erase i k [] a = tt
  Above-erase i k ((j, w) ∷ m) a = ground (arith, Above-erase i k m a.1)

  pub erase-IsOrdered : (k : K) (m : OrdMap K V) → IsOrdered m → IsOrdered (erase k m)
  unfolding erase
  erase-IsOrdered k [] h = tt
  erase-IsOrdered k ((j, w) ∷ m) h = ground (arith, erase-IsOrdered k m h.1, Above-erase j k m h.0)

  pub lookup-Above : (k : K) (m : OrdMap K V) → Above k m → lookup k m ≡ none
  unfolding lookup
  lookup-Above k [] a = refl
  lookup-Above k ((j, w) ∷ m) a =
      ground (arith, o.beq_iff j k, o.blt_irrefl k, lookup-Above k m a.1)
