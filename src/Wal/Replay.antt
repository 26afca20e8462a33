-- ===== src/Wal/Replay.antt =====
-- What a log file gives back, and what is left of it after a truncation.
use my_etcd.Base.{
  ℕ, zero, suc, ◌+◌, ◌-◌, ◌%◌, ◌^◌, ◌≤◌, ◌≡◌, refl, ap, sym, ◌∙◌, arith, true, false, Bool-cases,
  inl, inr, List, [], ◌∷◌, ◌++◌, append_assoc, some, ltb, ◌==◌, ◌&&◌, if◌then◌else◌, length, take,
  drop, Bytes, ◌>>=◌, length-append, length-drop, nat_key,
}
use my_etcd.Types.{RaftEntry, default_entry}
use my_etcd.Codec.{le_bytes, le_value}
use my_etcd.Codec.Words.{
  FitsBytes-u32, length-le_bytes, le_value-le_bytes, take-prefix, drop-prefix,
}
use my_etcd.Wal.Entry.{entry_record, serialize_entry}
use my_etcd.Wal.RoundTrip.{
  IsLogged, survives, deserialize_entry-serialize_entry, serialize_split, record_positive,
}
use my_etcd.Wal.{keep_read, serialize_all, read_file}

-- The length of a file is fuel enough for its loop: no fuel that is as large gives another result.
read_file-enough :
    (fuel more : ℕ) (bytes : Bytes)
    → length bytes ≤ fuel
    → length bytes ≤ more
    → read_file fuel bytes ≡ read_file more bytes
unfolding read_file
read_file-enough zero zero bytes h k = refl
read_file-enough zero (suc more) bytes h k =
    let short : ltb (length bytes) 4 ≡ true = ground arith in rw short refl
read_file-enough (suc fuel) zero bytes h k =
    let short : ltb (length bytes) 4 ≡ true = ground arith in rw short refl
read_file-enough (suc fuel) (suc more) bytes h k =
    let shorter : length (drop (4 + le_value (take 4 bytes)) bytes)
        ≡ length bytes - (4 + le_value (take 4 bytes)) =
      length-drop (4 + le_value (take 4 bytes)) bytes in
    rw
      (read_file-enough fuel more (drop (4 + le_value (take 4 bytes)) bytes)
        (omega (arith, shorter)) (omega (arith, shorter)))
      refl

-- The entries that come back.
unfoldable pub surviving : List RaftEntry → List RaftEntry
surviving [] = []
surviving (e ∷ es) =
    let rest = surviving es in if survives e && ltb 0 e.index then e ∷ rest else rest

abbrev pub AllLogged : List RaftEntry → Type 0
AllLogged [] = Unit
AllLogged (e ∷ es) = IsLogged e × AllLogged es

module _ (e : RaftEntry) (rest : Bytes) (h : IsLogged e) where
  size_field : Bytes
  size_field = le_bytes 4 (length (entry_record e) % 2 ^ 32)

  size_field-length : length size_field ≡ 4
  unfolding size_field
  size_field-length = length-le_bytes 4 (length (entry_record e) % 2 ^ 32)

  record_length : le_value (take 4 (serialize_entry e ++ rest)) ≡ length (entry_record e)
  unfolding size_field
  record_length =
      let small : length (entry_record e) % 2 ^ 32 ≡ length (entry_record e) =
        omega (arith, h.whole) in
      ap (λ l. le_value (take 4 l)) (serialize_split e rest)
      ∙ ap le_value (take-prefix 4 size_field (entry_record e ++ rest) size_field-length)
      ∙ ap (λ n. le_value (le_bytes 4 n)) small
      ∙ le_value-le_bytes 4 (length (entry_record e))
          (FitsBytes-u32 (length (entry_record e)) h.whole)

  whole_length : length (serialize_entry e ++ rest) ≡ 4 + length (entry_record e) + length rest
  unfolding size_field
  whole_length =
      ap length (serialize_split e rest)
      ∙ omega (
        arith,
        size_field-length,
        length-append size_field (entry_record e ++ rest),
        length-append (entry_record e) rest,
      )

  next_record : drop (4 + length (entry_record e)) (serialize_entry e ++ rest) ≡ rest
  unfolding size_field
  next_record =
      ap (drop (4 + length (entry_record e)))
        (serialize_split e rest ∙ sym (append_assoc size_field (entry_record e) rest))
      ∙ drop-prefix (4 + length (entry_record e)) (size_field ++ entry_record e) rest
          (omega (arith, size_field-length, length-append size_field (entry_record e)))

  read_file-entry :
      (fuel : ℕ)
      → read_file (suc fuel) (serialize_entry e ++ rest) ≡ (
          read_file fuel rest >>= λ later.
          some (keep_read (if survives e then e else default_entry) later))
  unfolding read_file
  read_file-entry fuel =
      let long : ltb (length (serialize_entry e ++ rest)) 4 ≡ false =
        ground (arith, whole_length) in
      let nonzero : (length (entry_record e) == 0) ≡ false = ground (arith, record_positive e) in
      let whole : ltb (length (serialize_entry e ++ rest)) (4 + length (entry_record e)) ≡ false =
        ground (arith, whole_length) in
      rw
        (
          long,
          record_length,
          nonzero,
          whole,
          next_record,
          deserialize_entry-serialize_entry e rest h,
        )
        refl

keep_read-survives :
    (e : RaftEntry) (es : List RaftEntry)
    → keep_read (if survives e then e else default_entry) es
      ≡ (if survives e && ltb 0 e.index then e ∷ es else es)
keep_read-survives e es = elim (Bool-cases (survives e)) [
  | inl kept ↦ rw kept refl
  | inr lost ↦ rw lost refl
]

no_file : (fuel : ℕ) → read_file fuel [] ≡ some []
unfolding read_file
no_file zero = refl
no_file (suc fuel) = refl

-- A file of written entries reads back as those that survive the comparison of the checksums and have a positive
-- index, in order, if each entry fits the format.
pub read_file-serialize_all :
    (es : List RaftEntry) (fuel : ℕ)
    → AllLogged es
    → length (serialize_all es) ≤ fuel
    → read_file fuel (serialize_all es) ≡ some (surviving es)
unfolding serialize_all surviving
read_file-serialize_all [] zero h k = no_file 0
read_file-serialize_all [] (suc fuel) h k = no_file (suc fuel)
read_file-serialize_all (e ∷ es) zero h k =
    absurd (omega (arith, whole_length e (serialize_all es) h.0))
read_file-serialize_all (e ∷ es) (suc fuel) h k =
    read_file-entry e (serialize_all es) h.0 fuel
    ∙ ap (λ o. o >>= λ later. some (keep_read (if survives e then e else default_entry) later))
        (read_file-serialize_all es fuel h.1 (omega (arith, whole_length e (serialize_all es) h.0)))
    ∙ ap some (keep_read-survives e (surviving es))
