-- ===== src/Transport/Wire/Laws.antt =====
-- What is written can be read back.
use my_etcd.Base.{
  ℕ, zero, suc, ◌+◌, ◌*◌, ◌/◌, ◌%◌, ◌^◌, ◌<◌, ◌≤◌, ◌≡◌, refl, ap, ◌∙◌, arith, Bool, true, false,
  List, [], ◌∷◌, ◌++◌, append_assoc, append-nil, ltb, length, Bytes, length-append, not, ◌==◌,
}
use my_etcd.Types.{RaftEntry, EventType, ConfChangeType, default_conf_change}
use my_etcd.Codec.{
  be_bytes, be_value, event_byte, event_of_byte, conf_byte, conf_of_byte, is_conf_change,
}
use my_etcd.Codec.Words.{
  FitsBytes-u64, length-be_bytes, be_value-be_bytes, take-prefix, drop-prefix,
}
use my_etcd.Raft.Messages.{
  RequestVoteRequest, RequestVoteResponse, AppendEntriesRequest, AppendEntriesResponse,
}
use my_etcd.Transport.Wire.{
  Reader, ◌>>=◌, pure, buffer, write_u8, write_u64, write_string, read_u8, read_u64, read_loop,
  read_string, read_clamped, conf_parts, write_entry, write_entries, read_conf, read_entry,
  read_entries, bool_byte, write_vote_request, read_vote_request, write_vote_response,
  read_vote_response, write_append_request, read_append_request, write_append_response,
  read_append_response, vote_req_type, vote_resp_type, append_req_type, append_resp_type,
}

-- The reader takes the written bytes off the front and returns the value.
pub record Reads {A : Type 0} (m : Reader A) (w : Bytes) (a : A) : Type 0 where
  pub reads : (rest : Bytes) → m (w ++ rest) ≡ (a, rest)

pub Reads-then :
    {A B : Type 0} {m : Reader A} (f : A → Reader B) {w w' : Bytes} {a : A} {b : B}
    → Reads m w a
    → Reads (f a) w' b
    → Reads (m >>= f) (w ++ w') b
unfolding ◌>>=◌
Reads-then {m = m} f {w = w} {w' = w'} {a = a} r s = record {
  reads = λ rest.
      ap (λ l. f (m l).0 (m l).1) (append_assoc w w' rest)
      ∙ ap (λ p. f p.0 p.1) (r.reads (w' ++ rest))
      ∙ s.reads rest;
}

pub Reads-pure : {A : Type 0} (a : A) → Reads (pure a) [] a
unfolding pure
Reads-pure a = record { reads = λ rest. refl }

-- The last write of a buffer needs no empty rest.
pub Reads-last :
    {A B : Type 0} {m : Reader A} (f : A → Reader B) {w : Bytes} {a : A} {b : B}
    → Reads m w a
    → Reads (f a) [] b
    → Reads (m >>= f) w b
Reads-last f {w = w} r s = rw (append-nil w) at (Reads-then f r s)

pub Reads-u8 : (v : ℕ) → v < 256 → Reads read_u8 (write_u8 v) v
unfolding read_u8 write_u8
Reads-u8 v h = let e : v % 256 ≡ v = omega arith in record { reads = λ rest. rw e refl }

-- All bytes are below 256.
abbrev Small : Bytes → Type 0
Small [] = Unit
Small (b ∷ bs) = (b < 256) × Small bs

Small-append : (xs ys : Bytes) → Small xs → Small ys → Small (xs ++ ys)
Small-append [] ys h k = k
Small-append (x ∷ xs) ys h k = (h.0, Small-append xs ys h.1 k)

be_bytes-Small : (k v : ℕ) → Small (be_bytes k v)
unfolding be_bytes
be_bytes-Small zero v = tt
be_bytes-Small (suc k) v =
    Small-append (be_bytes k (v / 256)) (v % 256 ∷ []) (be_bytes-Small k (v / 256))
      (omega arith, tt)

be_value-ge : (v : ℕ) (bs : Bytes) → v ≤ be_value v bs
unfolding be_value
be_value-ge v [] = omega arith
be_value-ge v (b ∷ bs) = omega (arith, be_value-ge (v * 256 + b) bs)

-- No shift of the loop overflows, if the result does not.
read_loop-be_value :
    (k v : ℕ) (bs rest : Bytes)
    → length bs ≡ k
    → be_value v bs < 2 ^ 64
    → read_loop k v (bs ++ rest) ≡ (be_value v bs, rest)
unfolding read_loop be_value
read_loop-be_value zero v [] rest n h = refl
read_loop-be_value zero v (b ∷ bs) rest n h = absurd (omega arith)
read_loop-be_value (suc k) v [] rest n h = absurd (omega arith)
read_loop-be_value (suc k) v (b ∷ bs) rest n h =
    let e : (v * 256 + b) % 2 ^ 64 ≡ v * 256 + b = omega (arith, be_value-ge (v * 256 + b) bs) in
    rw e (read_loop-be_value k (v * 256 + b) bs rest (omega arith) h)

pub Reads-u64 : (v : ℕ) → v < 2 ^ 64 → Reads read_u64 (write_u64 v) v
unfolding read_u64 write_u64
Reads-u64 v h =
    let e = be_value-be_bytes 8 v (FitsBytes-u64 v h) in
    record {
      reads = λ rest.
          read_loop-be_value 8 0 (be_bytes 8 v) rest (length-be_bytes 8 v) (omega (arith, e))
          ∙ ap (λ w. (w, rest)) e;
    }

reads_clamped : (s rest : Bytes) → read_clamped (length s) (s ++ rest) ≡ (s, rest)
reads_clamped s rest =
    let long : ltb (length (s ++ rest)) (length s) ≡ false = ground (arith, length-append s rest) in
    rw (long, take-prefix (length s) s rest refl, drop-prefix (length s) s rest refl) refl

Reads-clamped : (s : Bytes) → Reads (read_clamped (length s)) s s
Reads-clamped s = record { reads = λ rest. reads_clamped s rest }

pub Reads-string : (s : Bytes) → length s < 2 ^ 64 → Reads read_string (write_string s) s
unfolding read_string write_string
Reads-string s h = Reads-then _ (Reads-u64 (length s) h) (Reads-clamped s)

-- An entry that the format can carry: its numbers are words, its strings have word lengths, its type is
-- an enumerator, and it has no membership change unless its type says so.
pub record IsCarried (e : RaftEntry) : Type 0 where
  pub term : e.term < 2 ^ 64
  pub index : e.index < 2 ^ 64
  pub type : event_of_byte (event_byte e.type) ≡ e.type
  pub key : length e.key < 2 ^ 64
  pub value : length e.value < 2 ^ 64
  pub lease_id : e.lease_id < 2 ^ 64
  pub no_conf : is_conf_change e.type ≡ false → e.conf_change ≡ default_conf_change
  pub conf_type : conf_of_byte (conf_byte e.conf_change.type) ≡ e.conf_change.type
  pub node_id : e.conf_change.node_id < 2 ^ 64
  pub peer_addr : length e.conf_change.peer_addr < 2 ^ 64

event_byte-lt : (t : EventType) → event_byte t < 256
unfolding event_byte
event_byte-lt EventType.put = omega arith
event_byte-lt EventType.delete = omega arith
event_byte-lt EventType.conf_change = omega arith
event_byte-lt (EventType.unknown n) = omega arith

conf_byte-lt : (t : ConfChangeType) → conf_byte t < 256
unfolding conf_byte
conf_byte-lt ConfChangeType.add_node = omega arith
conf_byte-lt ConfChangeType.remove_node = omega arith
conf_byte-lt (ConfChangeType.unknown n) = omega arith

Reads-conf :
    (e : RaftEntry) (b : Bool)
    → is_conf_change e.type ≡ b
    → IsCarried e
    → Reads (read_conf e.type) (buffer (conf_parts e.type e.conf_change)) e.conf_change
unfolding read_conf conf_parts buffer
Reads-conf e true isc h = rw isc (
    Reads-then _ (Reads-u8 (conf_byte e.conf_change.type) (conf_byte-lt e.conf_change.type)) (
      Reads-then _ (Reads-u64 e.conf_change.node_id h.node_id) (
        Reads-then _ (Reads-string e.conf_change.peer_addr h.peer_addr)
          (rw h.conf_type (Reads-pure e.conf_change)))))
Reads-conf e false isc h = rw (isc, h.no_conf isc) (Reads-pure default_conf_change)

pub Reads-entry : (e : RaftEntry) → IsCarried e → Reads read_entry (write_entry e) e
unfolding read_entry write_entry buffer
Reads-entry e h = Reads-then _ (Reads-u64 e.term h.term) (
    Reads-then _ (Reads-u64 e.index h.index) (
      Reads-then _ (Reads-u8 (event_byte e.type) (event_byte-lt e.type)) (
        Reads-then _ (Reads-string e.key h.key) (
          Reads-then _ (Reads-string e.value h.value) (
            Reads-then _ (Reads-u64 e.lease_id h.lease_id) (
              rw h.type
                (Reads-last _ (Reads-conf e (is_conf_change e.type) refl h) (Reads-pure e))))))))

abbrev pub AllCarried : List RaftEntry → Type 0
AllCarried [] = Unit
AllCarried (e ∷ es) = IsCarried e × AllCarried es

pub Reads-entries :
    (es : List RaftEntry) → AllCarried es → Reads (read_entries (length es)) (write_entries es) es
unfolding read_entries write_entries
Reads-entries [] h = Reads-pure []
Reads-entries (e ∷ es) h =
    Reads-then _ (Reads-entry e h.0) (Reads-last _ (Reads-entries es h.1) (Reads-pure (e ∷ es)))

-- The words of the messages fit 64 bits.
abbrev pub IsVoteRequest : RequestVoteRequest → Type 0
IsVoteRequest r =
    (r.term < 2 ^ 64)
    × (r.candidate_id < 2 ^ 64)
    × (r.last_log_index < 2 ^ 64)
    × (r.last_log_term < 2 ^ 64)

pub record IsAppendRequest (r : AppendEntriesRequest) : Type 0 where
  pub term : r.term < 2 ^ 64
  pub leader_id : r.leader_id < 2 ^ 64
  pub prev_log_index : r.prev_log_index < 2 ^ 64
  pub prev_log_term : r.prev_log_term < 2 ^ 64
  pub leader_commit : r.leader_commit < 2 ^ 64
  pub entry_count : length r.entries < 2 ^ 64
  pub entries : AllCarried r.entries

abbrev pub IsAppendResponse : AppendEntriesResponse → Type 0
IsAppendResponse r =
    (r.term < 2 ^ 64)
    × (r.last_log_index < 2 ^ 64)
    × (r.conflict_index < 2 ^ 64)
    × (r.conflict_term < 2 ^ 64)

-- The body of a request is read after the byte that names it.
pub Reads-vote_request :
    (r : RequestVoteRequest)
    → IsVoteRequest r
    → Reads (read_u8 >>= λ kind. read_vote_request) (write_vote_request r) r
unfolding read_vote_request write_vote_request buffer
Reads-vote_request r h = Reads-then _ (Reads-u8 vote_req_type (omega arith)) (
    Reads-then _ (Reads-u64 r.term h.0) (
      Reads-then _ (Reads-u64 r.candidate_id h.1) (
        Reads-then _ (Reads-u64 r.last_log_index h.2)
          (Reads-then _ (Reads-u64 r.last_log_term h.3) (Reads-pure r)))))

Reads-bool : (b : Bool) → Reads read_u8 (write_u8 (bool_byte b)) (bool_byte b)
Reads-bool true = Reads-u8 1 (omega arith)
Reads-bool false = Reads-u8 0 (omega arith)

bool_byte-set : (b : Bool) → not (bool_byte b == 0) ≡ b
bool_byte-set true = refl
bool_byte-set false = refl

pub Reads-vote_response :
    (r : RequestVoteResponse) → r.term < 2 ^ 64 → Reads read_vote_response (write_vote_response r) r
unfolding read_vote_response write_vote_response buffer
Reads-vote_response r h = Reads-then _ (Reads-u8 vote_resp_type (omega arith)) (
    Reads-then _ (Reads-u64 r.term h)
      (Reads-then _ (Reads-bool r.vote_granted) (rw (bool_byte-set r.vote_granted) (Reads-pure r))))

pub Reads-append_request :
    (r : AppendEntriesRequest)
    → IsAppendRequest r
    → Reads (read_u8 >>= λ kind. read_append_request) (write_append_request r) r
unfolding read_append_request write_append_request buffer
Reads-append_request r h = Reads-then _ (Reads-u8 append_req_type (omega arith)) (
    Reads-then _ (Reads-u64 r.term h.term) (
      Reads-then _ (Reads-u64 r.leader_id h.leader_id) (
        Reads-then _ (Reads-u64 r.prev_log_index h.prev_log_index) (
          Reads-then _ (Reads-u64 r.prev_log_term h.prev_log_term) (
            Reads-then _ (Reads-u64 r.leader_commit h.leader_commit) (
              Reads-then _ (Reads-u64 (length r.entries) h.entry_count)
                (Reads-then _ (Reads-entries r.entries h.entries) (Reads-pure r))))))))

pub Reads-append_response :
    (r : AppendEntriesResponse)
    → IsAppendResponse r
    → Reads read_append_response (write_append_response r) r
unfolding read_append_response write_append_response buffer
Reads-append_response r h = Reads-then _ (Reads-u8 append_resp_type (omega arith)) (
    Reads-then _ (Reads-u64 r.term h.0) (
      Reads-then _ (Reads-bool r.success) (
        Reads-then _ (Reads-u64 r.last_log_index h.1) (
          Reads-then _ (Reads-u64 r.conflict_index h.2) (
            Reads-then _ (Reads-u64 r.conflict_term h.3)
              (rw (bool_byte-set r.success) (Reads-pure r)))))))
