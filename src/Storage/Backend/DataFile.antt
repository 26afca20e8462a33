-- ===== src/Storage/Backend/DataFile.antt =====
-- src/storage/backend.cpp: `FlushToDisk` and `LoadFromDisk`, the file that `Backend` keeps its pairs in. The
-- file operations succeed, and the temporary file, which is renamed over the old one, is not modelled.
use my_etcd.Base.{
  ℕ, zero, suc, ◌*◌, ◌%◌, ◌^◌, ◌||◌, [], ◌∷◌, ◌++◌, Option, none, some, ltb, ◌==◌, not,
  if◌then◌else◌, length, take, drop, Bytes, ◌>>=◌, bytes_key,
}
use my_etcd.OrdMap.{insert}
use my_etcd.Codec.{le_bytes, read_le}
use my_etcd.Storage.Backend.{Backend}

abbrev pub magic : ℕ
magic = 1296389188

abbrev pub version : ℕ
version = 1

abbrev pub max_key_len : ℕ
max_key_len = 1024 * 1024

abbrev pub max_value_len : ℕ
max_value_len = 64 * 1024 * 1024

-- The length is cast to 32 bits, and as many bytes are written.
unfoldable pub sized : Bytes → Bytes
sized s = le_bytes 4 (length s % 2 ^ 32) ++ take (length s % 2 ^ 32) s

unfoldable pub pairs_bytes : Backend → Bytes
unfolding sized
pairs_bytes [] = []
pairs_bytes ((key, value) ∷ b) = sized key ++ (sized value ++ pairs_bytes b)

unfoldable pub flush_to_disk : Backend → Bytes
unfolding pairs_bytes
flush_to_disk b = le_bytes 4 magic ++ (le_bytes 4 version ++ pairs_bytes b)

abbrev pub within : ℕ → ℕ → ℕ × Bytes → Option (Bytes × Bytes)
within least most (len, rest) =
    if ltb len least || (ltb most len || ltb (length rest) len)
    then none
    else some (take len rest, drop len rest)

-- A length and as many bytes; `none` where the loop breaks.
unfoldable pub read_sized : ℕ → ℕ → Bytes → Option (Bytes × Bytes)
read_sized least most bytes = do header ← read_le 4 bytes; within least most header

unfoldable pub read_pair : Bytes → Option ((Bytes × Bytes) × Bytes)
unfolding read_sized
read_pair bytes = do
  (key, r) ← read_sized 1 max_key_len bytes
  (value, rest) ← read_sized 0 max_value_len r
  some ((key, value), rest)

-- What a round of the loop does with the pair it read, and where the loop breaks.
abbrev pub load_round :
    (Backend → Bytes → Backend) → Backend → Option ((Bytes × Bytes) × Bytes) → Backend
load_round go_on b none = b
load_round go_on b (some ((key, value), rest)) = go_on (insert key value b) rest

-- The loop over the pairs. Each round takes at least nine bytes, so the length of the file is fuel enough.
unfoldable pub load_loop : ℕ → Backend → Bytes → Backend
unfolding read_pair
load_loop zero b bytes = b
load_loop (suc fuel) b bytes = load_round (load_loop fuel) b (read_pair bytes)

-- The format and the version, and what is behind them.
unfoldable pub read_header : Bytes → Option (ℕ × (ℕ × Bytes))
read_header bytes = do
  (found, r) ← read_le 4 bytes
  versioned ← read_le 4 r
  some (found, versioned)

abbrev pub load_body : Backend → Option (ℕ × (ℕ × Bytes)) → Backend
load_body b none = b
load_body b (some (found, (file_version, rest))) =
    if not (found == magic)
    then b
    else if ltb version file_version
    then b
    else load_loop (length rest) b rest

-- A missing file, a short one, and one of another format or a later version load nothing.
unfoldable pub load_from_disk : Option Bytes → Backend → Backend
unfolding read_header load_loop
load_from_disk none b = b
load_from_disk (some bytes) b = load_body b (read_header bytes)
