-- ===== src/Storage/Backend/Reload.antt =====
-- What a written data file is loaded as.
use my_etcd.Base.{
  ℕ, zero, suc, ◌%◌, ◌^◌, ◌<◌, ◌≤◌, ◌≡◌, refl, ap, ◌∙◌, arith, Bool, ◌&&◌, [], ◌∷◌, ◌++◌,
  append_assoc, none, some, leb, if◌then◌else◌, length, take_all, Bytes, ◌>>=◌, bytes_key,
  length-append, Bool-cases, inl, inr,
}
use my_etcd.OrdMap.{insert}
use my_etcd.Codec.{le_bytes, read_le}
use my_etcd.Codec.Words.{FitsBytes-u32, length-le_bytes, read_le-le_bytes, take-prefix, drop-prefix}
use my_etcd.Wal.RoundTrip.{then_some}
use my_etcd.Storage.Backend.{Backend, batch_put}
use my_etcd.Storage.Backend.DataFile.{
  magic, version, max_key_len, max_value_len, sized, pairs_bytes, flush_to_disk, within, read_sized,
  read_pair, load_round, load_loop, read_header, load_body, load_from_disk,
}

abbrev pub is_storable : Bytes → Bytes → Bool
is_storable key value =
    leb 1 (length key) && (leb (length key) max_key_len && leb (length value) max_value_len)

-- The pairs in front of the first that cannot be stored.
unfoldable pub storable : Backend → Backend
storable [] = []
storable ((key, value) ∷ b) =
    let rest = storable b in if is_storable key value then (key, value) ∷ rest else []

-- Every key and value is shorter than 2^32 bytes.
abbrev pub IsShort : Backend → Type 0
IsShort [] = Unit
IsShort ((key, value) ∷ b) = ((length key < 2 ^ 32) × (length value < 2 ^ 32)) × IsShort b

within-append :
    (least most : ℕ) (s rest : Bytes)
    → within least most (length s, s ++ rest)
      ≡ (if leb least (length s) && leb (length s) most then some (s, rest) else none)
within-append least most s rest =
    rw (take-prefix (length s) s rest refl, drop-prefix (length s) s rest refl)
      (ground (arith, length-append s rest))

sized_whole : (s : Bytes) → length s < 2 ^ 32 → sized s ≡ le_bytes 4 (length s) ++ s
unfolding sized
sized_whole s h =
    let small : length s % 2 ^ 32 ≡ length s = omega arith in
    rw (small, take_all (length s) s (omega arith)) refl

read_sized-sized :
    (least most : ℕ) (s rest : Bytes)
    → length s < 2 ^ 32
    → read_sized least most (sized s ++ rest)
      ≡ (if leb least (length s) && leb (length s) most then some (s, rest) else none)
unfolding read_sized
read_sized-sized least most s rest h =
    rw (sized_whole s h, append_assoc (le_bytes 4 (length s)) s rest)
      (then_some _ (read_le-le_bytes 4 (length s) (s ++ rest) (FitsBytes-u32 (length s) h))
        (within-append least most s rest))

read_pair-sized :
    (key value rest : Bytes)
    → length key < 2 ^ 32
    → length value < 2 ^ 32
    → read_pair (sized key ++ (sized value ++ rest))
      ≡ (if is_storable key value then some ((key, value), rest) else none)
unfolding read_pair
read_pair-sized key value rest h k =
    ap (λ o. o >>= λ u. read_sized 0 max_value_len u.1 >>= λ v. some ((u.0, v.0), v.1))
      (read_sized-sized 1 max_key_len key (sized value ++ rest) h)
    ∙ elim (Bool-cases (leb 1 (length key) && leb (length key) max_key_len)) [
      | inl fine ↦ rw fine (
          ap (λ o. o >>= λ v. some ((key, v.0), v.1))
            (read_sized-sized 0 max_value_len value rest k)
          ∙ ground (arith, fine))
      | inr not_fine ↦ rw not_fine (ground (arith, not_fine))
    ]

pub load_loop-none :
    (fuel : ℕ) (s : Backend) (bytes : Bytes)
    → read_pair bytes ≡ none
    → load_loop (suc fuel) s bytes ≡ s
unfolding load_loop
load_loop-none fuel s bytes e = ap (load_round (load_loop fuel) s) e

pub load_loop-some :
    (fuel : ℕ) (s : Backend) (bytes key value rest : Bytes)
    → read_pair bytes ≡ some ((key, value), rest)
    → load_loop (suc fuel) s bytes ≡ load_loop fuel (insert key value s) rest
unfolding load_loop
load_loop-some fuel s bytes key value rest e = ap (load_round (load_loop fuel) s) e

load_loop-nil : (fuel : ℕ) (s : Backend) → load_loop fuel s [] ≡ s
unfolding load_loop read_pair read_sized read_le
load_loop-nil zero s = refl
load_loop-nil (suc fuel) s = refl

load_loop-pairs_bytes :
    (b s : Backend) (fuel : ℕ)
    → IsShort b
    → length b ≤ fuel
    → load_loop fuel s (pairs_bytes b) ≡ batch_put (storable b) s
unfolding pairs_bytes storable batch_put
load_loop-pairs_bytes [] s fuel h k = load_loop-nil fuel s
load_loop-pairs_bytes ((key, value) ∷ b) s zero h k = absurd (omega arith)
load_loop-pairs_bytes ((key, value) ∷ b) s (suc fuel) h k =
    let read = read_pair-sized key value (pairs_bytes b) h.0.0 h.0.1 in
    elim (Bool-cases (is_storable key value)) [
      | inl ok ↦
          load_loop-some fuel s _ key value (pairs_bytes b) (read ∙ rw ok refl)
          ∙ load_loop-pairs_bytes b (insert key value s) fuel h.1 (omega arith)
          ∙ rw ok refl
      | inr bad ↦ load_loop-none fuel s _ (read ∙ rw bad refl) ∙ rw bad refl
    ]

length-pairs_bytes : (b : Backend) → IsShort b → length b ≤ length (pairs_bytes b)
unfolding pairs_bytes
length-pairs_bytes [] h = omega arith
length-pairs_bytes ((key, value) ∷ b) h = rw (sized_whole key h.0.0) (
    omega (
      arith,
      length-append (le_bytes 4 (length key) ++ key) (sized value ++ pairs_bytes b),
      length-append (le_bytes 4 (length key)) key,
      length-le_bytes 4 (length key),
      length-append (sized value) (pairs_bytes b),
      length-pairs_bytes b h.1,
    ))

-- Loading a written data file puts into the store, in key order, the pairs in front of the first whose key is
-- empty or longer than 1 MB, or whose value is longer than 64 MB: that pair and all behind it are lost. Keys
-- and values are shorter than 2^32 bytes.
pub load_from_disk-flush_to_disk :
    (b s : Backend)
    → IsShort b
    → load_from_disk (some (flush_to_disk b)) s ≡ batch_put (storable b) s
unfolding load_from_disk flush_to_disk read_header
load_from_disk-flush_to_disk b s h =
    let header : read_header (flush_to_disk b) ≡ some (magic, (version, pairs_bytes b)) =
      then_some _
        (read_le-le_bytes 4 magic (le_bytes 4 version ++ pairs_bytes b)
          (FitsBytes-u32 magic (omega arith)))
        (then_some _
          (read_le-le_bytes 4 version (pairs_bytes b) (FitsBytes-u32 version (omega arith)))
          refl) in
    ap (load_body s) header
    ∙ load_loop-pairs_bytes b s (length (pairs_bytes b)) h (length-pairs_bytes b h)
