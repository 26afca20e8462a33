-- ===== src/Transport/Server.antt =====
-- The receiving side of src/raft/tcp_transport.cpp: `ProcessIncomingMsg` and `HandleClient`. A handler
-- changes the state of the node that it belongs to.
use my_etcd.Base.{
  ℕ, ◌*◌, false, [], ◌∷◌, ◌++◌, Option, none, some, ltb, if◌then◌else◌, length, take, drop, Bytes,
  ◌==◌,
}
use my_etcd.Codec.{be_bytes, be_value}
use my_etcd.Raft.Messages.{
  RequestVoteRequest, RequestVoteResponse, AppendEntriesRequest, AppendEntriesResponse,
}
use my_etcd.Transport.Wire.{
  read_u8, read_vote_request, read_append_request, write_vote_response, write_append_response,
  vote_req_type, append_req_type,
}

abbrev pub max_message_size : ℕ
max_message_size = 4 * 1024 * 1024

-- The four bytes of a message's length.
unfoldable pub frame : Bytes → Bytes
frame message = be_bytes 4 (length message) ++ message

abbrev pub VoteHandler : Type 0 → Type 0
VoteHandler S = RequestVoteRequest → S → S × RequestVoteResponse

abbrev pub AppendHandler : Type 0 → Type 0
AppendHandler S = AppendEntriesRequest → S → S × AppendEntriesResponse

module _ {S : Type 0} where
  -- What is answered while no handler is set.
  abbrev pub answer_vote : Option (VoteHandler S) → VoteHandler S
  answer_vote none req s = (s, record { term = 0; vote_granted = false })
  answer_vote (some handler) req s = handler req s

  abbrev pub answer_append : Option (AppendHandler S) → AppendHandler S
  answer_append none req s = (
    s,
    record { term = 0; success = false; last_log_index = 0; conflict_index = 0; conflict_term = 0 },
  )
  answer_append (some handler) req s = handler req s

  abbrev pub reply_vote : S × RequestVoteResponse → S × Bytes
  reply_vote (s, resp) = (s, write_vote_response resp)

  abbrev pub reply_append : S × AppendEntriesResponse → S × Bytes
  reply_append (s, resp) = (s, write_append_response resp)

  -- The `switch` on the message type; `body` is what the reader has left.
  unfoldable pub dispatch :
      Option (VoteHandler S) → Option (AppendHandler S) → ℕ → Bytes → S → S × Bytes
  unfolding read_vote_request read_append_request write_vote_response write_append_response
  dispatch vote append msg_type body s =
      if msg_type == vote_req_type
      then reply_vote (answer_vote vote (read_vote_request body).0 s)
      else if msg_type == append_req_type
      then reply_append (answer_append append (read_append_request body).0 s)
      else (s, [])

  unfoldable pub process_incoming_msg :
      Option (VoteHandler S) → Option (AppendHandler S) → Bytes → S → S × Bytes
  unfolding read_u8 dispatch
  process_incoming_msg vote append [] s = (s, [])
  process_incoming_msg vote append (b ∷ bytes) s =
      let (msg_type, body) = read_u8 (b ∷ bytes) in dispatch vote append msg_type body s

  abbrev pub framed : S × Bytes → S × Option Bytes
  framed (s, resp) = (s, some (frame resp))

  -- A connection: what the client sends until it closes, and the reply; `none` closes without one.
  unfoldable pub handle_client :
      Option (VoteHandler S) → Option (AppendHandler S) → Bytes → S → S × Option Bytes
  unfolding process_incoming_msg frame
  handle_client vote append stream s =
      let msg_len = be_value 0 (take 4 stream) in
      let rest = drop 4 stream in
      if ltb (length stream) 4
      then (s, none)
      else if ltb max_message_size msg_len
      then (s, none)
      else if ltb (length rest) msg_len
      then (s, none)
      else framed (process_incoming_msg vote append (take msg_len rest) s)
