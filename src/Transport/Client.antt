-- ===== src/Transport/Client.antt =====
-- The sending side of src/raft/tcp_transport.cpp: `SendAndReceive`, `SendRequestVote` and
-- `SendAppendEntries`. The network is a parameter: given an address and the bytes sent to it, it says what
-- comes back until the connection closes, or `none` where it cannot connect or send.
use my_etcd.Base.{
  ℕ, zero, suc, Bool, true, false, [], ◌∷◌, Option, none, some, ltb, if◌then◌else◌, length, take,
  drop, Bytes, ◌==◌, nat_key,
}
use my_etcd.OrdMap.{OrdMap, lookup, insert}
use my_etcd.Codec.{be_value}
use my_etcd.Raft.Messages.{
  RequestVoteRequest, RequestVoteResponse, AppendEntriesRequest, AppendEntriesResponse,
}
use my_etcd.Transport.Wire.{
  read_vote_response, read_append_response, write_vote_request, write_append_request,
}
use my_etcd.Transport.Server.{max_message_size, frame}

-- `peer_addrs_`
unfoldable pub set_peer_address : ℕ → Bytes → OrdMap ℕ Bytes → OrdMap ℕ Bytes
set_peer_address node_id addr peers = insert node_id addr peers

unfoldable pub has_colon : Bytes → Bool
has_colon [] = false
has_colon (c ∷ cs) = if c == b':' then true else has_colon cs

-- `std::vector<uint8_t>(len)`, filled from the front with what was read.
unfoldable pub fill : ℕ → Bytes → Bytes
fill zero bytes = []
fill (suc n) [] = 0 ∷ fill n []
fill (suc n) (b ∷ bytes) = b ∷ fill n bytes

-- The reply read from a connection; empty where the length is missing or too large.
unfoldable pub receive : Bytes → Bytes
unfolding fill
receive stream =
    let resp_len = be_value 0 (take 4 stream) in
    if ltb (length stream) 4
    then []
    else if ltb max_message_size resp_len
    then []
    else fill resp_len (drop 4 stream)

abbrev pub Network : Type 0 → Type 0
Network S = Bytes → Bytes → S → S × Option Bytes

abbrev pub no_vote : RequestVoteResponse
no_vote = record { term = 0; vote_granted = false }

abbrev pub no_append : AppendEntriesResponse
no_append = record {
  term = 0;
  success = false;
  last_log_index = 0;
  conflict_index = 0;
  conflict_term = 0;
}

module _ {S : Type 0} where
  abbrev pub received : S × Option Bytes → S × Bytes
  received (s, none) = (s, [])
  received (s, some stream) = (s, receive stream)

  unfoldable pub send_and_receive : Network S → Bytes → Bytes → S → S × Bytes
  unfolding has_colon frame receive
  send_and_receive network addr req_data s =
      if has_colon addr then received (network addr (frame req_data) s) else (s, [])

  abbrev pub vote_answer : S × Bytes → S × RequestVoteResponse
  vote_answer (s, bytes) =
      (s, if ltb (length bytes) 2 then no_vote else (read_vote_response bytes).0)

  abbrev pub append_answer : S × Bytes → S × AppendEntriesResponse
  append_answer (s, bytes) =
      (s, if ltb (length bytes) 2 then no_append else (read_append_response bytes).0)

  abbrev pub vote_at : Network S → RequestVoteRequest → S → Option Bytes → S × RequestVoteResponse
  vote_at network req s none = (s, no_vote)
  vote_at network req s (some addr) =
      vote_answer (send_and_receive network addr (write_vote_request req) s)

  abbrev pub append_at :
      Network S → AppendEntriesRequest → S → Option Bytes → S × AppendEntriesResponse
  append_at network req s none = (s, no_append)
  append_at network req s (some addr) =
      append_answer (send_and_receive network addr (write_append_request req) s)

  unfoldable pub send_request_vote :
      Network S → OrdMap ℕ Bytes → ℕ → RequestVoteRequest → S → S × RequestVoteResponse
  unfolding send_and_receive read_vote_response write_vote_request
  send_request_vote network peers target req s = vote_at network req s (lookup target peers)

  unfoldable pub send_append_entries :
      Network S → OrdMap ℕ Bytes → ℕ → AppendEntriesRequest → S → S × AppendEntriesResponse
  unfolding send_and_receive read_append_response write_append_request
  send_append_entries network peers target req s = append_at network req s (lookup target peers)
