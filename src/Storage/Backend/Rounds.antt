-- ===== src/Storage/Backend/Rounds.antt =====
-- The loop of `LoadFromDisk` ends before its fuel does.
use my_etcd.Base.{
  ℕ, zero, suc, ◌+◌, ◌≡◌, ◌≤◌, refl, sym, ◌∙◌, subst, arith, ◌||◌, [], ◌∷◌, Option, none, some, ltb,
  length, take, drop, length-drop, Bytes, bytes_key, Bool-cases, Option-cases, inl, inr,
}
use my_etcd.OrdMap.{insert}
use my_etcd.Codec.{read_le, le_value}
use my_etcd.Storage.Backend.{Backend}
use my_etcd.Storage.Backend.DataFile.{
  max_key_len, max_value_len, within, read_sized, read_pair, load_loop,
}
use my_etcd.Storage.Backend.Reload.{load_loop-none, load_loop-some}

-- A read that succeeds goes on by at least k bytes.
abbrev Consumes : {A : Type 0} → ℕ → Bytes → Option (A × Bytes) → Type 0
Consumes k bytes none = Unit
Consumes k bytes (some (a, rest)) = length rest + k ≤ length bytes

Consumes-within :
    (least most len : ℕ) (bytes rest : Bytes)
    → length rest + 4 ≤ length bytes
    → Consumes 4 bytes (within least most (len, rest))
Consumes-within least most len bytes rest h =
    elim (Bool-cases (ltb len least || (ltb most len || ltb (length rest) len))) [
      | inl bad ↦ rw bad tt
      | inr fine ↦ rw fine (omega (arith, length-drop len rest))
    ]

Consumes-read_sized :
    (least most : ℕ) (bytes : Bytes) → Consumes 4 bytes (read_sized least most bytes)
unfolding read_sized read_le
Consumes-read_sized least most bytes = elim (Bool-cases (ltb (length bytes) 4)) [
  | inl short ↦ rw short tt
  | inr enough ↦ rw enough (
      Consumes-within least most (le_value (take 4 bytes)) bytes (drop 4 bytes)
        (ground (arith, length-drop 4 bytes)))
]

Consumes-read_pair : (bytes : Bytes) → Consumes 8 bytes (read_pair bytes)
unfolding read_pair
Consumes-read_pair bytes = elim (Option-cases (read_sized 1 max_key_len bytes)) [
  | inl no_key ↦ rw no_key tt
  | inr (keyed, found) ↦
      let first = subst (Consumes 4 bytes) found (Consumes-read_sized 1 max_key_len bytes) in
      elim (Option-cases (read_sized 0 max_value_len keyed.1)) [
        | inl no_value ↦ rw (found, no_value) tt
        | inr (valued, there) ↦
            let second =
              subst (Consumes 4 keyed.1) there (Consumes-read_sized 0 max_value_len keyed.1) in
            rw (found, there) (omega (arith, first, second))
      ]
]

load_loop-nothing :
    (fuel : ℕ) (b : Backend) (bytes : Bytes) → length bytes ≤ 0 → load_loop fuel b bytes ≡ b
unfolding load_loop read_pair read_sized read_le
load_loop-nothing fuel b (c ∷ bytes) h = absurd (omega arith)
load_loop-nothing zero b [] h = refl
load_loop-nothing (suc fuel) b [] h = refl

-- A fuel of the length of the file is enough: no other that is as large gives another result.
pub load_loop-enough :
    (fuel more : ℕ) (b : Backend) (bytes : Bytes)
    → length bytes ≤ fuel
    → length bytes ≤ more
    → load_loop fuel b bytes ≡ load_loop more b bytes
load_loop-enough zero more b bytes h k =
    load_loop-nothing zero b bytes h ∙ sym (load_loop-nothing more b bytes h)
load_loop-enough (suc fuel) zero b bytes h k =
    load_loop-nothing (suc fuel) b bytes k ∙ sym (load_loop-nothing zero b bytes k)
load_loop-enough (suc fuel) (suc more) b bytes h k = elim (Option-cases (read_pair bytes)) [
  | inl stop ↦ load_loop-none fuel b bytes stop ∙ sym (load_loop-none more b bytes stop)
  | inr (((key, value), rest), found) ↦
      let shorter : length rest + 8 ≤ length bytes =
        subst (Consumes 8 bytes) found (Consumes-read_pair bytes) in
      load_loop-some fuel b bytes key value rest found
      ∙ load_loop-enough fuel more (insert key value b) rest (omega (arith, shorter))
          (omega (arith, shorter))
      ∙ sym (load_loop-some more b bytes key value rest found)
]
