-- ===== src/Wal/RoundTrip.antt =====
-- What reading a written record gives.
use my_etcd.Base.{
  ℕ, zero, suc, ◌+◌, ◌-◌, ◌%◌, ◌^◌, ◌<◌, ◌≤◌, ◌≡◌, refl, ap, ◌∙◌, arith, Bool, true, false, [], ◌∷◌,
  ◌++◌, append_assoc, Option, some, ltb, ◌==◌, if◌then◌else◌, length, take, drop, Bytes, ◌>>=◌,
  length-append,
}
use my_etcd.Types.{RaftEntry, EventType, ConfChangeType, default_entry, default_conf_change}
use my_etcd.Codec.{le_bytes, read_le, event_byte, conf_byte, is_conf_change}
use my_etcd.Codec.Words.{
  FitsBytes, FitsBytes-u32, FitsBytes-u64, length-le_bytes, read_le-le_bytes, take-prefix,
  drop-prefix, long_enough,
}
use my_etcd.Transport.Wire.Laws.{IsCarried}
use my_etcd.Wal.Crc.{compute, final}
use my_etcd.Wal.Entry.{
  write_str, conf_bytes, payload, record_type, entry_record, serialize_entry, read_body, read_str,
  verify, read_conf, read_lease, read_fields, read_record, deserialize_entry,
}

-- An entry that a record can hold: the strings are shorter than 2^32 bytes.
pub record IsLogged (e : RaftEntry) : Type 0 where
  pub carried : IsCarried e
  pub key : length e.key < 2 ^ 32
  pub value : length e.value < 2 ^ 32
  pub peer_addr : length e.conf_change.peer_addr < 2 ^ 32
  pub whole : length (entry_record e) < 2 ^ 32

read_body-append : (s rest : Bytes) → read_body (length s, s ++ rest) ≡ (s, rest)
read_body-append s rest =
    let long : ltb (length (s ++ rest)) (length s) ≡ false = ground (arith, length-append s rest) in
    rw (long, take-prefix (length s) s rest refl, drop-prefix (length s) s rest refl) refl

read_str-write_str :
    (s rest : Bytes) → length s < 2 ^ 32 → read_str (write_str s ++ rest) ≡ some (s, rest)
unfolding read_str write_str
read_str-write_str s rest h =
    let small : length s % 2 ^ 32 ≡ length s = omega arith in
    ap (λ n. read_le 4 ((le_bytes 4 n ++ s) ++ rest) >>= λ p. some (read_body p)) small
    ∙ ap (λ l. read_le 4 l >>= λ p. some (read_body p))
        (append_assoc (le_bytes 4 (length s)) s rest)
    ∙ ap (λ o. o >>= λ p. some (read_body p))
        (read_le-le_bytes 4 (length s) (s ++ rest) (FitsBytes-u32 (length s) h))
    ∙ ap some (read_body-append s rest)

event_fits : (t : EventType) → FitsBytes 1 (event_byte t)
unfolding event_byte
event_fits EventType.put = omega arith
event_fits EventType.delete = omega arith
event_fits EventType.conf_change = omega arith
event_fits (EventType.unknown n) = omega arith

conf_fits : (t : ConfChangeType) → FitsBytes 1 (conf_byte t)
unfolding conf_byte
conf_fits ConfChangeType.add_node = omega arith
conf_fits ConfChangeType.remove_node = omega arith
conf_fits (ConfChangeType.unknown n) = omega arith

-- A step of a chain of reads that succeeds, and a bounds check that passes.
pub then_some :
    {A B : Type 0} {o : Option A} {a : A} (f : A → Option B) {z : Option B}
    → o ≡ some a
    → f a ≡ z
    → (o >>= f) ≡ z
then_some f e h = ap (λ x. x >>= f) e ∙ h

pub passes :
    {B : Type 0} {c : Bool} (x : B) {y z : B} → c ≡ false → y ≡ z → (if c then x else y) ≡ z
passes x {y = y} e h = ap (λ b. if b then x else y) e ∙ h

longer :
    (k j v : ℕ) (rest : Bytes)
    → ltb (length rest) j ≡ false
    → ltb (length (le_bytes k v ++ rest)) (k + j) ≡ false
longer k j v rest h = ground (arith, length-append (le_bytes k v) rest, length-le_bytes k v)

behind : (k : ℕ) (xs ys : Bytes) → ltb (length ys) k ≡ false → ltb (length (xs ++ ys)) k ≡ false
behind k xs ys h = ground (arith, length-append xs ys)

-- Each stage, from the last field back to the first, leads to the comparison of the checksums.
module _ (start tail : Bytes) (e : RaftEntry) (h : IsLogged e)
    (crc_there : ltb (length tail) 4 ≡ false) where
  conf_written :
      is_conf_change e.type ≡ true
      → read_conf start
          (record e { conf_change = default_conf_change })
          (le_bytes 1 (conf_byte e.conf_change.type)
            ++ (le_bytes 8 e.conf_change.node_id ++ (write_str e.conf_change.peer_addr ++ tail)))
        ≡ verify start e tail
  unfolding read_conf
  conf_written isc = rw isc (
      passes _
        (longer 1 12 (conf_byte e.conf_change.type) _ (
          longer 8 4 e.conf_change.node_id _
            (behind 4 (write_str e.conf_change.peer_addr) tail crc_there)))
        (then_some _
          (read_le-le_bytes 1 (conf_byte e.conf_change.type) _ (conf_fits e.conf_change.type))
          (then_some _
            (read_le-le_bytes 8 e.conf_change.node_id _
              (FitsBytes-u64 e.conf_change.node_id h.carried.node_id))
            (then_some _ (read_str-write_str e.conf_change.peer_addr tail h.peer_addr) (
              ap
                (λ t.
                  verify start (record e { conf_change = record e.conf_change { type = t } }) tail)
                h.carried.conf_type)))))

  conf_split :
      is_conf_change e.type ≡ true
      → conf_bytes e.type e.conf_change ++ tail
        ≡ le_bytes 1 (conf_byte e.conf_change.type)
          ++ (le_bytes 8 e.conf_change.node_id ++ (write_str e.conf_change.peer_addr ++ tail))
  unfolding conf_bytes
  conf_split isc = rw isc (simp append_assoc)

  conf_absent :
      is_conf_change e.type ≡ false
      → read_conf start
          (record e { conf_change = default_conf_change })
          (conf_bytes e.type e.conf_change ++ tail)
        ≡ verify start e tail
  unfolding read_conf conf_bytes
  conf_absent isc = rw (isc, h.carried.no_conf isc) refl

  read_conf-conf_bytes :
      (b : Bool)
      → is_conf_change e.type ≡ b
      → read_conf start
          (record e { conf_change = default_conf_change })
          (conf_bytes e.type e.conf_change ++ tail)
        ≡ verify start e tail
  read_conf-conf_bytes true isc =
      ap (read_conf start (record e { conf_change = default_conf_change })) (conf_split isc)
      ∙ conf_written isc
  read_conf-conf_bytes false isc = conf_absent isc

  read_lease-lease :
      read_lease start
        (record e { lease_id = 0; conf_change = default_conf_change })
        (le_bytes 8 e.lease_id ++ (conf_bytes e.type e.conf_change ++ tail))
      ≡ verify start e tail
  unfolding read_lease
  read_lease-lease =
      passes _ (longer 8 4 e.lease_id _ (behind 4 (conf_bytes e.type e.conf_change) tail crc_there))
        (then_some _ (read_le-le_bytes 8 e.lease_id _ (FitsBytes-u64 e.lease_id h.carried.lease_id))
          (read_conf-conf_bytes (is_conf_change e.type) refl))

  read_fields-payload :
      read_fields start (
        le_bytes 8 e.term
        ++ (le_bytes 8 e.index
            ++ (le_bytes 1 (event_byte e.type)
                ++ (write_str e.key
                    ++ (write_str e.value
                        ++ (le_bytes 8 e.lease_id ++ (conf_bytes e.type e.conf_change ++ tail)))))))
      ≡ verify start e tail
  unfolding read_fields
  read_fields-payload =
      passes _
        (longer 8 9 e.term _
          (longer 8 1 e.index _ (longer 1 0 (event_byte e.type) _ (ground arith))))
        (then_some _ (read_le-le_bytes 8 e.term _ (FitsBytes-u64 e.term h.carried.term)) (
          then_some _ (read_le-le_bytes 8 e.index _ (FitsBytes-u64 e.index h.carried.index)) (
            then_some _ (read_le-le_bytes 1 (event_byte e.type) _ (event_fits e.type)) (
              then_some _ (read_str-write_str e.key _ h.key) (
                then_some _ (read_str-write_str e.value _ h.value) (
                  ap
                    (λ t.
                      read_lease start
                        (record e { type = t; lease_id = 0; conf_change = default_conf_change })
                        (le_bytes 8 e.lease_id ++ (conf_bytes e.type e.conf_change ++ tail)))
                    h.carried.type
                  ∙ read_lease-lease))))))

-- The bytes whose checksum is compared with the stored one: from the record's type on, and without the last
-- four bytes of the payload.
abbrev pub checked : RaftEntry → Bytes
checked e = take (length (payload e) + 1 - 4) (record_type ∷ payload e)

-- Whether the comparison succeeds.
unfoldable pub survives : RaftEntry → Bool
survives e = compute (checked e) == compute (payload e)

take-within : (n : ℕ) (xs ys : Bytes) → n ≤ length xs → take n (xs ++ ys) ≡ take n xs
take-within zero xs ys h = refl
take-within (suc n) [] ys h = absurd (omega arith)
take-within (suc n) (x ∷ xs) ys h = ap (◌∷◌ x) (take-within n xs ys (omega arith))

crc_fits : (bytes : Bytes) → compute bytes < 2 ^ 32
unfolding compute final
crc_fits bytes = omega arith

module _ (e : RaftEntry) (rest : Bytes) where
  stored : Bytes
  stored = le_bytes 4 (compute (payload e)) ++ rest

  stored_long : ltb (length stored) 4 ≡ false
  unfolding stored
  stored_long =
      long_enough 4 (le_bytes 4 (compute (payload e))) rest
        (length-le_bytes 4 (compute (payload e)))

  region :
      take
        (length (record_type ∷ (payload e ++ stored)) - length stored - 4)
        (record_type ∷ (payload e ++ stored))
      ≡ checked e
  region =
      let n : length (record_type ∷ (payload e ++ stored)) - length stored - 4
          ≡ length (payload e) + 1 - 4 =
        omega (arith, length-append (payload e) stored) in
      ap (λ k. take k (record_type ∷ (payload e ++ stored))) n
      ∙ take-within (length (payload e) + 1 - 4) (record_type ∷ payload e) stored (omega arith)

  read_stored : read_le 4 stored ≡ some (compute (payload e), rest)
  unfolding stored
  read_stored =
      read_le-le_bytes 4 (compute (payload e)) rest
        (FitsBytes-u32 (compute (payload e)) (crc_fits (payload e)))

  verify-stored :
      verify (record_type ∷ (payload e ++ stored)) e stored
      ≡ some (if survives e then e else default_entry)
  unfolding verify survives
  verify-stored =
      ap
        (λ o. o >>= λ p. some (
          if compute (
              take (length (record_type ∷ (payload e ++ stored)) - length stored - 4)
                (record_type ∷ (payload e ++ stored)))
            == p.0
          then e
          else default_entry))
        read_stored
      ∙ ap (λ l. some (if compute l == compute (payload e) then e else default_entry)) region

  payload_split :
      payload e ++ stored
      ≡ le_bytes 8 e.term
        ++ (le_bytes 8 e.index
            ++ (le_bytes 1 (event_byte e.type)
                ++ (write_str e.key
                    ++ (write_str e.value
                        ++ (le_bytes 8 e.lease_id
                            ++ (conf_bytes e.type e.conf_change ++ stored))))))
  unfolding payload
  payload_split = simp append_assoc

  read_record-stored :
      IsLogged e
      → read_record (record_type ∷ (payload e ++ stored))
        ≡ some (if survives e then e else default_entry)
  unfolding read_record
  read_record-stored h =
      ap (read_fields (record_type ∷ (payload e ++ stored))) payload_split
      ∙ read_fields-payload (record_type ∷ (payload e ++ stored)) stored e h stored_long
      ∙ verify-stored

  record_split : drop 4 (serialize_entry e ++ rest) ≡ record_type ∷ (payload e ++ stored)
  unfolding serialize_entry entry_record stored
  record_split =
      ap (drop 4)
        (append_assoc (le_bytes 4 (length (entry_record e) % 2 ^ 32)) (entry_record e) rest)
      ∙ drop-prefix 4 (le_bytes 4 (length (entry_record e) % 2 ^ 32)) (entry_record e ++ rest)
          (length-le_bytes 4 (length (entry_record e) % 2 ^ 32))
      ∙ ap (◌∷◌ record_type) (append_assoc (payload e) (le_bytes 4 (compute (payload e))) rest)

  serialize_long : ltb (length (serialize_entry e ++ rest)) 4 ≡ false
  unfolding serialize_entry
  serialize_long = ground (
    arith,
    length-append (le_bytes 4 (length (entry_record e) % 2 ^ 32) ++ entry_record e) rest,
    length-append (le_bytes 4 (length (entry_record e) % 2 ^ 32)) (entry_record e),
    length-le_bytes 4 (length (entry_record e) % 2 ^ 32),
  )

  -- Reading back a written record gives the entry exactly if the checksum of the bytes from the record's type
  -- on, without the payload's last four, happens to be that of the payload; otherwise it gives the empty
  -- entry. The entry's words, strings and record fit the format.
  pub deserialize_entry-serialize_entry :
      IsLogged e
      → deserialize_entry (serialize_entry e ++ rest)
        ≡ some (if survives e then e else default_entry)
  unfolding deserialize_entry
  deserialize_entry-serialize_entry h =
      passes _ serialize_long (ap read_record record_split ∙ read_record-stored h)

-- A record behind the field of its length.
pub serialize_split :
    (e : RaftEntry) (rest : Bytes)
    → serialize_entry e ++ rest
      ≡ le_bytes 4 (length (entry_record e) % 2 ^ 32) ++ (entry_record e ++ rest)
unfolding serialize_entry
serialize_split e rest =
    append_assoc (le_bytes 4 (length (entry_record e) % 2 ^ 32)) (entry_record e) rest

pub record_positive : (e : RaftEntry) → 0 < length (entry_record e)
unfolding entry_record
record_positive e = omega arith
