-- ===== src/Wal/Crc.antt =====
-- src/wal/wal.cpp: `CRC32`. The table is computed when it is read; a uint32_t is a number below 2^32.
use Prim.Native.Nat.{bit_and, bit_xor}
use my_etcd.Base.{ℕ, zero, suc, ◌/◌, ◌%◌, ◌^◌, [], ◌∷◌, ◌==◌, if◌then◌else◌, Bytes}

-- One step of the inner loop of `InitTable`.
abbrev pub table_step : ℕ → ℕ
table_step crc = if crc % 2 == 1 then bit_xor (crc / 2) 0xEDB88320 else crc / 2

abbrev pub table_steps : ℕ → ℕ → ℕ
table_steps zero crc = crc
table_steps (suc j) crc = table_steps j (table_step crc)

unfoldable pub table : ℕ → ℕ
table i = table_steps 8 i

unfoldable pub update : ℕ → Bytes → ℕ
unfolding table
update crc [] = crc
update crc (b ∷ bytes) = update (bit_xor (table (bit_and (bit_xor crc b) 0xFF)) (crc / 256)) bytes

unfoldable pub final : ℕ → ℕ
final crc = bit_xor crc 0xFFFFFFFF % 2 ^ 32

unfoldable pub compute : Bytes → ℕ
unfolding update final
compute bytes = final (update 0xFFFFFFFF bytes)
