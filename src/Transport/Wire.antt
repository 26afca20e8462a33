-- ===== src/Transport/Wire.antt =====
-- `BinaryWriter` and `BinaryReader`, and the messages of src/raft/tcp_transport.cpp.
pub mod Laws
use my_etcd.Base.{
  ℕ, zero, suc, ◌+◌, ◌*◌, ◌%◌, ◌^◌, Bool, true, false, List, [], ◌∷◌, ◌++◌, ltb, if◌then◌else◌,
  length, take, drop, Bytes, not, ◌==◌,
}
use my_etcd.Types.{RaftEntry, EventType, ConfChange, default_conf_change}
use my_etcd.Codec.{be_bytes, event_byte, event_of_byte, conf_byte, conf_of_byte, is_conf_change}
use my_etcd.Raft.Messages.{
  RequestVoteRequest, RequestVoteResponse, AppendEntriesRequest, AppendEntriesResponse,
}

-- What each method of the writer appends to its buffer.
unfoldable pub write_u8 : ℕ → Bytes
write_u8 v = v % 256 ∷ []

unfoldable pub write_u64 : ℕ → Bytes
write_u64 v = be_bytes 8 v

unfoldable pub write_string : Bytes → Bytes
unfolding write_u64
write_string s = write_u64 (length s) ++ s

-- A buffer after a sequence of writes.
unfoldable pub buffer : List Bytes → Bytes
buffer [] = []
buffer (w ∷ ws) = w ++ buffer ws

-- A read of the reader, whose state is the bytes from `pos` to `end`.
abbrev pub Reader : Type 0 → Type 0
Reader A = Bytes → A × Bytes

infixl 5 ◌>>=◌
unfoldable pub ◌>>=◌ : {A B : Type 0} → Reader A → (A → Reader B) → Reader B
m >>= f = λ bytes. f (m bytes).0 (m bytes).1

unfoldable pub pure : {A : Type 0} → A → Reader A
pure a = λ bytes. (a, bytes)

unfoldable pub read_u8 : Reader ℕ
read_u8 [] = (0, [])
read_u8 (b ∷ bytes) = (b, bytes)

-- The loop of `ReadU64`, which stops at the end of the buffer.
unfoldable pub read_loop : ℕ → ℕ → Reader ℕ
read_loop zero v bytes = (v, bytes)
read_loop (suc k) v [] = (v, [])
read_loop (suc k) v (b ∷ bytes) = read_loop k ((v * 256 + b) % 2 ^ 64) bytes

unfoldable pub read_u64 : Reader ℕ
unfolding read_loop
read_u64 bytes = read_loop 8 0 bytes

-- A length past the end is cut to what is left.
abbrev pub read_clamped : ℕ → Reader Bytes
read_clamped len bytes =
    let n = if ltb (length bytes) len then length bytes else len in (take n bytes, drop n bytes)

unfoldable pub read_string : Reader Bytes
unfolding read_u64
read_string = do len ← read_u64; read_clamped len

-- The membership change is sent only with an entry of that type.
unfoldable pub conf_parts : EventType → ConfChange → List Bytes
unfolding write_u8 write_u64 write_string
conf_parts t c =
    if is_conf_change t
    then write_u8 (conf_byte c.type) ∷ write_u64 c.node_id ∷ write_string c.peer_addr ∷ []
    else []

unfoldable pub write_entry : RaftEntry → Bytes
unfolding buffer conf_parts write_u8 write_u64 write_string
write_entry e = buffer (
    write_u64 e.term
    ∷ write_u64 e.index
    ∷ write_u8 (event_byte e.type)
    ∷ write_string e.key
    ∷ write_string e.value
    ∷ write_u64 e.lease_id
    ∷ conf_parts e.type e.conf_change)

unfoldable pub write_entries : List RaftEntry → Bytes
unfolding write_entry
write_entries [] = []
write_entries (e ∷ es) = write_entry e ++ write_entries es

unfoldable pub read_conf : EventType → Reader ConfChange
unfolding read_u8 read_u64 read_string
read_conf t =
    if is_conf_change t
    then (do
      type ← read_u8
      node_id ← read_u64
      peer_addr ← read_string
      pure (record { type = conf_of_byte type; node_id = node_id; peer_addr = peer_addr }))
    else pure default_conf_change

unfoldable pub read_entry : Reader RaftEntry
unfolding read_u8 read_u64 read_string read_conf
read_entry = do
  term ← read_u64
  index ← read_u64
  type ← read_u8
  key ← read_string
  value ← read_string
  lease_id ← read_u64
  change ← read_conf (event_of_byte type)
  pure (record {
    term = term;
    index = index;
    type = event_of_byte type;
    key = key;
    value = value;
    lease_id = lease_id;
    conf_change = change;
  })

unfoldable pub read_entries : ℕ → Reader (List RaftEntry)
unfolding read_entry
read_entries zero = pure []
read_entries (suc n) = do e ← read_entry; es ← read_entries n; pure (e ∷ es)

abbrev pub vote_req_type : ℕ
vote_req_type = 1

abbrev pub vote_resp_type : ℕ
vote_resp_type = 2

abbrev pub append_req_type : ℕ
append_req_type = 3

abbrev pub append_resp_type : ℕ
append_resp_type = 4

abbrev pub bool_byte : Bool → ℕ
bool_byte true = 1
bool_byte false = 0

unfoldable pub write_vote_request : RequestVoteRequest → Bytes
unfolding buffer write_u8 write_u64
write_vote_request r = buffer (
    write_u8 vote_req_type
    ∷ write_u64 r.term
    ∷ write_u64 r.candidate_id
    ∷ write_u64 r.last_log_index
    ∷ write_u64 r.last_log_term
    ∷ [])

unfoldable pub read_vote_request : Reader RequestVoteRequest
unfolding read_u64
read_vote_request = do
  term ← read_u64
  candidate_id ← read_u64
  last_log_index ← read_u64
  last_log_term ← read_u64
  pure (record {
    term = term;
    candidate_id = candidate_id;
    last_log_index = last_log_index;
    last_log_term = last_log_term;
  })

unfoldable pub write_vote_response : RequestVoteResponse → Bytes
unfolding buffer write_u8 write_u64
write_vote_response r =
    buffer (write_u8 vote_resp_type ∷ write_u64 r.term ∷ write_u8 (bool_byte r.vote_granted) ∷ [])

unfoldable pub read_vote_response : Reader RequestVoteResponse
unfolding read_u8 read_u64
read_vote_response = do
  kind ← read_u8
  term ← read_u64
  granted ← read_u8
  pure (record { term = term; vote_granted = not (granted == 0) })

unfoldable pub write_append_request : AppendEntriesRequest → Bytes
unfolding buffer write_u8 write_u64 write_entries
write_append_request r = buffer (
    write_u8 append_req_type
    ∷ write_u64 r.term
    ∷ write_u64 r.leader_id
    ∷ write_u64 r.prev_log_index
    ∷ write_u64 r.prev_log_term
    ∷ write_u64 r.leader_commit
    ∷ write_u64 (length r.entries)
    ∷ write_entries r.entries
    ∷ [])

unfoldable pub read_append_request : Reader AppendEntriesRequest
unfolding read_u64 read_entries
read_append_request = do
  term ← read_u64
  leader_id ← read_u64
  prev_log_index ← read_u64
  prev_log_term ← read_u64
  leader_commit ← read_u64
  entry_count ← read_u64
  entries ← read_entries entry_count
  pure (record {
    term = term;
    leader_id = leader_id;
    prev_log_index = prev_log_index;
    prev_log_term = prev_log_term;
    entries = entries;
    leader_commit = leader_commit;
  })

unfoldable pub write_append_response : AppendEntriesResponse → Bytes
unfolding buffer write_u8 write_u64
write_append_response r = buffer (
    write_u8 append_resp_type
    ∷ write_u64 r.term
    ∷ write_u8 (bool_byte r.success)
    ∷ write_u64 r.last_log_index
    ∷ write_u64 r.conflict_index
    ∷ write_u64 r.conflict_term
    ∷ [])

unfoldable pub read_append_response : Reader AppendEntriesResponse
unfolding read_u8 read_u64
read_append_response = do
  kind ← read_u8
  term ← read_u64
  success ← read_u8
  last_log_index ← read_u64
  conflict_index ← read_u64
  conflict_term ← read_u64
  pure (record {
    term = term;
    success = not (success == 0);
    last_log_index = last_log_index;
    conflict_index = conflict_index;
    conflict_term = conflict_term;
  })
