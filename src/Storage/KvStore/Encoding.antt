-- ===== src/Storage/KvStore/Encoding.antt =====
-- The snapshot format of the store: `serialize` and `deserialize` against each other.
use my_etcd.Base.{
  ℕ, suc, ◌+◌, ◌*◌, ◌/◌, ◌%◌, ◌^◌, ◌<◌, ◌≡◌, refl, ap, sym, subst, ◌∙◌, arith, true, false,
  Bool-cases, inl, inr, List, [], ◌∷◌, ◌++◌, append_assoc, append-nil, some, ltb, ◌>>=◌, length,
  take, drop, map, Bytes, bytes_key, get_or_else, str_eq, str_eq_iff, str_lt, str_lt_irrefl,
  str_lt_trans, length-append,
}
use my_etcd.OrdMap.{lookup, insert, IsOrdered, Above}
use my_etcd.Storage.Backend
use my_etcd.Storage.Backend.{Backend, batch_put}
use my_etcd.Storage.KvStore.{
  KvStore, serialize, deserialize, write_u32, write_str, write_pairs, read_u32, read_str, read_body,
  read_pairs, load_pairs,
}

read_u32-write_u32 :
    (v : ℕ) (rest : Bytes) → v < 2 ^ 32 → read_u32 (write_u32 v ++ rest) ≡ some (v, rest)
unfolding read_u32 write_u32
read_u32-write_u32 v rest h =
    let e : v % 256
          + (v / 256) % 256 * 256
          + (v / 65536) % 256 * 65536
          + (v / 16777216) % 256 * 16777216
        ≡ v =
      omega arith in
    rw e refl

take-prefix {ℓ} : {A : Type ℓ} (xs ys : List A) → take (length xs) (xs ++ ys) ≡ xs
take-prefix [] ys = refl
take-prefix (x ∷ xs) ys = ap (◌∷◌ x) (take-prefix xs ys)

drop-prefix {ℓ} : {A : Type ℓ} (xs ys : List A) → drop (length xs) (xs ++ ys) ≡ ys
drop-prefix [] ys = refl
drop-prefix (x ∷ xs) ys = drop-prefix xs ys

read_body-append : (s rest : Bytes) → read_body (length s, s ++ rest) ≡ (s, rest)
read_body-append s rest =
    let long : ltb (length (s ++ rest)) (length s) ≡ false = ground (arith, length-append s rest) in
    rw long (
      ap (λ a. (a, drop (length s) (s ++ rest))) (take-prefix s rest)
      ∙ ap (λ b. (s, b)) (drop-prefix s rest))

read_str-write_str :
    (s rest : Bytes) → length s < 2 ^ 32 → read_str (write_str s ++ rest) ≡ some (s, rest)
unfolding read_str write_str
read_str-write_str s rest h =
    let small : length s % 2 ^ 32 ≡ length s = omega arith in
    ap (λ n. read_u32 ((write_u32 n ++ s) ++ rest) >>= λ p. some (read_body p)) small
    ∙ ap (λ l. read_u32 l >>= λ p. some (read_body p)) (append_assoc (write_u32 (length s)) s rest)
    ∙ ap (λ o. o >>= λ p. some (read_body p)) (read_u32-write_u32 (length s) (s ++ rest) h)
    ∙ ap some (read_body-append s rest)

-- Every key and value is shorter than 2^32 bytes.
abbrev pub Fits : Backend → Type 0
Fits [] = Unit
Fits ((k, v) ∷ m) = (length k < 2 ^ 32) × (length v < 2 ^ 32) × Fits m

-- The pairs, written one by one.
unfoldable encode_pairs : Backend → Bytes
encode_pairs [] = []
encode_pairs ((k, v) ∷ m) = write_str k ++ (write_str v ++ encode_pairs m)

read_pairs_more :
    (n : ℕ) (kvs : Backend) (bytes key rest : Bytes)
    → read_str bytes ≡ some (key, rest)
    → read_pairs (suc n) kvs bytes
      ≡ (read_str rest >>= λ (value, rest'). read_pairs n (insert key value kvs) rest')
unfolding read_pairs read_str read_u32
read_pairs_more n kvs [] key rest h = cc
read_pairs_more n kvs (x ∷ bytes) key rest h =
    ap
      (λ o. o >>= λ (k, r).
        (unfold read_pairs read_str in read_str r) >>= λ (v, r'). read_pairs n (insert k v kvs) r')
      h

read_no_pairs : (kvs : Backend) (bytes : Bytes) → read_pairs 0 kvs bytes ≡ some kvs
unfolding read_pairs
read_no_pairs kvs bytes = refl

read_pairs-encode_pairs :
    (m acc : Backend) → Fits m → read_pairs (length m) acc (encode_pairs m) ≡ some (batch_put m acc)
unfolding encode_pairs batch_put
read_pairs-encode_pairs [] acc h = read_no_pairs acc []
read_pairs-encode_pairs ((k, v) ∷ m) acc h =
    read_pairs_more (length m) acc _ k (write_str v ++ encode_pairs m)
      (read_str-write_str k (write_str v ++ encode_pairs m) h.0)
    ∙ ap (λ o. o >>= λ (value, rest'). read_pairs (length m) (insert k value acc) rest')
        (read_str-write_str v (encode_pairs m) h.1)
    ∙ read_pairs-encode_pairs m (insert k v acc) h.2

differs : (k j : Bytes) → str_lt k j ≡ true → str_eq k j ≡ false
differs k j h = elim (Bool-cases (str_eq k j)) [
  | inl same ↦
      ground (arith, str_lt_irrefl j, subst (λ i. str_lt i j ≡ true) ((str_eq_iff k j).0 same) h)
  | inr differ ↦ differ
]

-- The lookups that the writer makes find the pairs of `m`.
abbrev Finds : Backend → Backend → Type 0
Finds b [] = Unit
Finds b ((k, v) ∷ m) = (lookup k b ≡ some v) × Finds b m

Finds-cons : (k v : Bytes) (b m : Backend) → Above k m → Finds b m → Finds ((k, v) ∷ b) m
unfolding lookup
Finds-cons k v b [] a f = tt
Finds-cons k v b ((j, w) ∷ m) a f =
    (ground (arith, str_eq_iff k j, str_lt_irrefl k, differs k j a.0), Finds-cons k v b m a.1 f.1)

IsOrdered-Finds : (b : Backend) → IsOrdered b → Finds b b
unfolding lookup
IsOrdered-Finds [] h = tt
IsOrdered-Finds ((k, v) ∷ b) h =
    (rw ((str_eq_iff k k).1 refl) refl, Finds-cons k v b b h.0 (IsOrdered-Finds b h.1))

write_pairs-encode_pairs :
    (b m : Backend) → Finds b m → write_pairs b (Backend.keys m) ≡ encode_pairs m
unfolding write_pairs encode_pairs Backend.keys Backend.get
write_pairs-encode_pairs b [] f = refl
write_pairs-encode_pairs b ((k, v) ∷ m) f =
    ap (λ o. write_str k ++ (write_str (get_or_else o []) ++ write_pairs b (map (λ (j, w). j) m)))
      f.0
    ∙ ap (λ l. write_str k ++ (write_str v ++ l)) (write_pairs-encode_pairs b m f.1)

Above-middle :
    (j : Bytes) (acc m : Backend) (k v : Bytes) → Above j (acc ++ (k, v) ∷ m) → str_lt j k ≡ true
Above-middle j [] m k v a = a.0
Above-middle j ((i, w) ∷ acc) m k v a = Above-middle j acc m k v a.1

insert_last :
    (acc m : Backend) (k v : Bytes)
    → IsOrdered (acc ++ (k, v) ∷ m)
    → insert k v acc ≡ acc ++ (k, v) ∷ []
unfolding insert
insert_last [] m k v h = refl
insert_last ((j, w) ∷ acc) m k v h =
    let before : str_lt j k ≡ true = Above-middle j acc m k v h.0 in
    let not_after : str_lt k j ≡ false =
      ground (arith, str_lt_trans j k j before, str_lt_irrefl j) in
    rw (differs j k before, not_after) (ap (◌∷◌ (j, w)) (insert_last acc m k v h.1))

batch_put-append : (m acc : Backend) → IsOrdered (acc ++ m) → batch_put m acc ≡ acc ++ m
unfolding batch_put
batch_put-append [] acc h = sym (append-nil acc)
batch_put-append ((k, v) ∷ m) acc h =
    ap (batch_put m) (insert_last acc m k v h)
    ∙ batch_put-append m (acc ++ (k, v) ∷ [])
        (subst IsOrdered (sym (append_assoc acc ((k, v) ∷ []) m)) h)
    ∙ append_assoc acc ((k, v) ∷ []) m

length-keys : (b : Backend) → length (Backend.keys b) ≡ length b
unfolding Backend.keys
length-keys [] = refl
length-keys ((k, v) ∷ b) = ap suc (length-keys b)

enough : (n : ℕ) (rest : Bytes) → ltb (length (write_u32 n ++ rest)) 4 ≡ false
unfolding write_u32
enough n rest = ground arith

serialize-encode_pairs :
    (s : KvStore)
    → IsOrdered s.backend
    → serialize s ≡ write_u32 (length s.backend % 2 ^ 32) ++ encode_pairs s.backend
unfolding serialize
serialize-encode_pairs s ord =
    ap (λ n. write_u32 (n % 2 ^ 32) ++ write_pairs s.backend (Backend.keys s.backend))
      (length-keys s.backend)
    ∙ ap (λ l. write_u32 (length s.backend % 2 ^ 32) ++ l)
        (write_pairs-encode_pairs s.backend s.backend (IsOrdered-Finds s.backend ord))

deserialize_more :
    (n : ℕ) (rest : Bytes) (t : KvStore)
    → deserialize (write_u32 n ++ rest) t ≡ (
        read_u32 (write_u32 n ++ rest) >>= λ (count, r).
        read_pairs count [] r >>= λ kvs. some (load_pairs t kvs, true))
unfolding deserialize
deserialize_more n rest t = rw (enough n rest) refl

deserialize-encode_pairs :
    (b : Backend) (t : KvStore)
    → Fits b
    → length b < 2 ^ 32
    → deserialize (write_u32 (length b) ++ encode_pairs b) t
      ≡ some (load_pairs t (batch_put b []), true)
deserialize-encode_pairs b t fits few =
    deserialize_more (length b) (encode_pairs b) t
    ∙ ap
        (λ o.
          o >>= λ (count, rest). read_pairs count [] rest >>= λ kvs. some (load_pairs t kvs, true))
        (read_u32-write_u32 (length b) (encode_pairs b) few)
    ∙ ap (λ o. o >>= λ kvs. some (load_pairs t kvs, true)) (read_pairs-encode_pairs b [] fits)

-- What a store whose pairs are in order serialises, any store reads back: the result is success, with every
-- pair of the first, in key order, put into the second. The conditions are that there are fewer than
-- 2^32 pairs and that each key and value is shorter than 2^32 bytes.
pub deserialize-serialize :
    (s t : KvStore)
    → IsOrdered s.backend
    → Fits s.backend
    → length s.backend < 2 ^ 32
    → deserialize (serialize s) t ≡ some (load_pairs t s.backend, true)
deserialize-serialize s t ord fits few =
    ap (λ bytes. deserialize bytes t) (serialize-encode_pairs s ord)
    ∙ ap (λ n. deserialize (write_u32 n ++ encode_pairs s.backend) t) small
    ∙ deserialize-encode_pairs s.backend t fits few
    ∙ ap (λ kvs. some (load_pairs t kvs, true)) (batch_put-append s.backend [] ord)
  where
    small : length s.backend % 2 ^ 32 ≡ length s.backend
    small = omega arith
