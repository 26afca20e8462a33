-- ===== src/Codec/Words.antt =====
-- Words survive the way to bytes and back.
use my_etcd.Base.{
  ℕ, zero, suc, ◌+◌, ◌*◌, ◌/◌, ◌%◌, ◌^◌, ◌<◌, ◌≡◌, refl, ap, sym, ◌∙◌, arith, false, List, [], ◌∷◌,
  ◌++◌, some, ltb, length, take, drop, Bytes, length-append,
}
use my_etcd.Codec.{le_bytes, le_value, be_bytes, be_value, read_le}

-- k bytes hold the number.
abbrev pub FitsBytes : ℕ → ℕ → Type 0
FitsBytes zero v = v ≡ 0
FitsBytes (suc k) v = FitsBytes k (v / 256)

pub FitsBytes-u32 : (v : ℕ) → v < 2 ^ 32 → FitsBytes 4 v
FitsBytes-u32 v h = omega arith

pub FitsBytes-u64 : (v : ℕ) → v < 2 ^ 64 → FitsBytes 8 v
FitsBytes-u64 v h = omega arith

pub length-le_bytes : (k v : ℕ) → length (le_bytes k v) ≡ k
unfolding le_bytes
length-le_bytes zero v = refl
length-le_bytes (suc k) v = ap suc (length-le_bytes k (v / 256))

pub length-be_bytes : (k v : ℕ) → length (be_bytes k v) ≡ k
unfolding be_bytes
length-be_bytes zero v = refl
length-be_bytes (suc k) v =
    omega (arith, length-append (be_bytes k (v / 256)) (v % 256 ∷ []), length-be_bytes k (v / 256))

pub le_value-le_bytes : (k v : ℕ) → FitsBytes k v → le_value (le_bytes k v) ≡ v
unfolding le_bytes le_value
le_value-le_bytes zero v h = sym h
le_value-le_bytes (suc k) v h = omega (arith, le_value-le_bytes k (v / 256) h)

be_value-append : (v : ℕ) (xs ys : Bytes) → be_value v (xs ++ ys) ≡ be_value (be_value v xs) ys
unfolding be_value
be_value-append v [] ys = refl
be_value-append v (x ∷ xs) ys = be_value-append (v * 256 + x) xs ys

pub be_value-be_bytes : (k v : ℕ) → FitsBytes k v → be_value 0 (be_bytes k v) ≡ v
unfolding be_bytes be_value
be_value-be_bytes zero v h = sym h
be_value-be_bytes (suc k) v h =
    be_value-append 0 (be_bytes k (v / 256)) (v % 256 ∷ [])
    ∙ omega (arith, be_value-be_bytes k (v / 256) h)

pub take-prefix {ℓ} : {A : Type ℓ} (k : ℕ) (xs ys : List A) → length xs ≡ k → take k (xs ++ ys) ≡ xs
take-prefix zero [] ys h = refl
take-prefix zero (x ∷ xs) ys h = absurd (omega arith)
take-prefix (suc k) [] ys h = absurd (omega arith)
take-prefix (suc k) (x ∷ xs) ys h = ap (◌∷◌ x) (take-prefix k xs ys (omega arith))

pub drop-prefix {ℓ} : {A : Type ℓ} (k : ℕ) (xs ys : List A) → length xs ≡ k → drop k (xs ++ ys) ≡ ys
drop-prefix zero [] ys h = refl
drop-prefix zero (x ∷ xs) ys h = absurd (omega arith)
drop-prefix (suc k) [] ys h = absurd (omega arith)
drop-prefix (suc k) (x ∷ xs) ys h = drop-prefix k xs ys (omega arith)

-- A list of known length at the front is taken off whole.
pub long_enough : (k : ℕ) (xs ys : Bytes) → length xs ≡ k → ltb (length (xs ++ ys)) k ≡ false
long_enough k xs ys h = ground (arith, length-append xs ys)

pub read_le-le_bytes :
    (k v : ℕ) (rest : Bytes) → FitsBytes k v → read_le k (le_bytes k v ++ rest) ≡ some (v, rest)
unfolding read_le
read_le-le_bytes k v rest h =
    let n = length-le_bytes k v in
    rw
      (
        long_enough k (le_bytes k v) rest n,
        take-prefix k (le_bytes k v) rest n,
        drop-prefix k (le_bytes k v) rest n,
      )
      (ap (λ w. some (w, rest)) (le_value-le_bytes k v h))
