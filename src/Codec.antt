-- ===== src/Codec.antt =====
-- How words, strings and enumerators become bytes: what src/wal/wal.cpp, src/raft/tcp_transport.cpp,
-- src/storage/backend.cpp and src/snapshot/snapshot.cpp share. A byte is a number below 256, and `|` of
-- shifted bytes is their sum. The files are written by a little-endian machine.
pub mod Words
use my_etcd.Base.{
  ℕ, zero, suc, ◌+◌, ◌*◌, ◌/◌, ◌%◌, ◌^◌, List, [], ◌∷◌, ◌++◌, Option, none, some, ltb,
  if◌then◌else◌, length, take, drop, Bytes, Bool, true, false,
}
use my_etcd.Types.{EventType, ConfChangeType}

-- The k low bytes of a number, least significant first.
unfoldable pub le_bytes : ℕ → ℕ → Bytes
le_bytes zero v = []
le_bytes (suc k) v = v % 256 ∷ le_bytes k (v / 256)

unfoldable pub le_value : Bytes → ℕ
le_value [] = 0
le_value (b ∷ bs) = b + le_value bs * 256

-- The k low bytes, most significant first.
unfoldable pub be_bytes : ℕ → ℕ → Bytes
be_bytes zero v = []
be_bytes (suc k) v = be_bytes k (v / 256) ++ v % 256 ∷ []

-- `v = (v << 8) | b` for each byte.
unfoldable pub be_value : ℕ → Bytes → ℕ
be_value v [] = v
be_value v (b ∷ bs) = be_value (v * 256 + b) bs

-- A read of a whole word at the front of what is left; `none` where there are fewer bytes.
unfoldable pub read_le : ℕ → Bytes → Option (ℕ × Bytes)
unfolding le_value
read_le k bytes =
    if ltb (length bytes) k then none else some (le_value (take k bytes), drop k bytes)

-- `static_cast<uint8_t>` of an enumerator, and the cast back.
unfoldable pub event_byte : EventType → ℕ
event_byte EventType.put = 0
event_byte EventType.delete = 1
event_byte EventType.conf_change = 2
event_byte (EventType.unknown n) = n % 256

unfoldable pub event_of_byte : ℕ → EventType
event_of_byte zero = EventType.put
event_of_byte (suc zero) = EventType.delete
event_of_byte (suc (suc zero)) = EventType.conf_change
event_of_byte (suc (suc (suc n))) = EventType.unknown (n + 3)

unfoldable pub conf_byte : ConfChangeType → ℕ
conf_byte ConfChangeType.add_node = 0
conf_byte ConfChangeType.remove_node = 1
conf_byte (ConfChangeType.unknown n) = n % 256

unfoldable pub conf_of_byte : ℕ → ConfChangeType
conf_of_byte zero = ConfChangeType.add_node
conf_of_byte (suc zero) = ConfChangeType.remove_node
conf_of_byte (suc (suc n)) = ConfChangeType.unknown (n + 2)

abbrev pub is_conf_change : EventType → Bool
is_conf_change EventType.put = false
is_conf_change EventType.delete = false
is_conf_change EventType.conf_change = true
is_conf_change (EventType.unknown n) = false
