-- ===== src/Wal/Entry.antt =====
-- src/wal/wal.cpp: `SerializeEntry` and `DeserializeEntry`.
use my_etcd.Base.{
  ℕ, ◌-◌, ◌%◌, ◌^◌, [], ◌∷◌, ◌++◌, Option, some, ltb, ◌==◌, if◌then◌else◌, length, take, drop,
  Bytes, ◌>>=◌,
}
use my_etcd.Types.{RaftEntry, EventType, ConfChange, default_entry}
use my_etcd.Codec.{
  le_bytes, read_le, event_byte, event_of_byte, conf_byte, conf_of_byte, is_conf_change,
}
use my_etcd.Wal.Crc.{compute}

unfoldable pub write_str : Bytes → Bytes
write_str s = le_bytes 4 (length s % 2 ^ 32) ++ s

unfoldable pub conf_bytes : EventType → ConfChange → Bytes
unfolding write_str
conf_bytes t c =
    if is_conf_change t
    then le_bytes 1 (conf_byte c.type) ++ (le_bytes 8 c.node_id ++ write_str c.peer_addr)
    else []

-- What `SerializeEntry` writes after the record type.
unfoldable pub payload : RaftEntry → Bytes
unfolding write_str conf_bytes
payload e =
    le_bytes 8 e.term
    ++ (le_bytes 8 e.index
        ++ (le_bytes 1 (event_byte e.type)
            ++ (write_str e.key
                ++ (write_str e.value
                    ++ (le_bytes 8 e.lease_id ++ conf_bytes e.type e.conf_change)))))

abbrev pub record_type : ℕ
record_type = 0

-- The record: its type, the payload, and the checksum of the payload.
unfoldable pub entry_record : RaftEntry → Bytes
unfolding payload
entry_record e = record_type ∷ (payload e ++ le_bytes 4 (compute (payload e)))

unfoldable pub serialize_entry : RaftEntry → Bytes
unfolding entry_record
serialize_entry e = le_bytes 4 (length (entry_record e) % 2 ^ 32) ++ entry_record e

-- A length past the end of the buffer gives an empty string and moves to the end.
abbrev pub read_body : ℕ × Bytes → Bytes × Bytes
read_body (len, bytes) =
    if ltb (length bytes) len then ([], []) else (take len bytes, drop len bytes)

unfoldable pub read_str : Bytes → Option (Bytes × Bytes)
read_str bytes = do header ← read_le 4 bytes; some (read_body header)

-- The comparison of the checksums: `start` is the buffer from the record's type on, and `rest` what is
-- left of it after the last field.
unfoldable pub verify : Bytes → RaftEntry → Bytes → Option RaftEntry
verify start e rest = do
  stored ← read_le 4 rest
  some (
      if compute (take (length start - length rest - 4) start) == stored.0
      then e
      else default_entry)

unfoldable pub read_conf : Bytes → RaftEntry → Bytes → Option RaftEntry
unfolding read_str verify
read_conf start e bytes =
    if is_conf_change e.type
    then if ltb (length bytes) 13 then some e else (do
      (type, r) ← read_le 1 bytes
      (node_id, s) ← read_le 8 r
      (peer_addr, rest) ← read_str s
      verify start
          (record e {
            conf_change = record {
              type = conf_of_byte type;
              node_id = node_id;
              peer_addr = peer_addr;
            };
          })
          rest)
    else verify start e bytes

unfoldable pub read_lease : Bytes → RaftEntry → Bytes → Option RaftEntry
unfolding read_conf
read_lease start e bytes = if ltb (length bytes) 12 then some e else (do
  (lease_id, rest) ← read_le 8 bytes
  read_conf start (record e { lease_id = lease_id }) rest)

unfoldable pub read_fields : Bytes → Bytes → Option RaftEntry
unfolding read_str read_lease
read_fields start bytes = if ltb (length bytes) 17 then some default_entry else (do
  (term, r) ← read_le 8 bytes
  (index, s) ← read_le 8 r
  (type, t) ← read_le 1 s
  (key, u) ← read_str t
  (value, rest) ← read_str u
  read_lease start
      (record default_entry {
        term = term;
        index = index;
        type = event_of_byte type;
        key = key;
        value = value;
      })
      rest)

unfoldable pub read_record : Bytes → Option RaftEntry
unfolding read_fields
read_record [] = some default_entry
read_record (type ∷ bytes) =
    if type == record_type then read_fields (type ∷ bytes) bytes else some default_entry

-- The entry at the front of a buffer. `none` is a read past the end of the buffer, which has no defined
-- behaviour.
unfoldable pub deserialize_entry : Bytes → Option RaftEntry
unfolding read_record
deserialize_entry bytes =
    if ltb (length bytes) 4 then some default_entry else read_record (drop 4 bytes)
