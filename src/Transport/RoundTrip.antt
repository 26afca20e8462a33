-- ===== src/Transport/RoundTrip.antt =====
-- An RPC from one end to the other.
use my_etcd.Base.{
  ℕ, ◌^◌, ◌<◌, ◌≤◌, ◌≡◌, refl, ap, sym, ◌∙◌, arith, true, false, [], ◌∷◌, append-nil, Option, some,
  ltb, length, take, drop, Bytes, nat_key, take_all,
}
use my_etcd.OrdMap.{OrdMap, lookup}
use my_etcd.Codec.{be_bytes, be_value}
use my_etcd.Codec.Words.{
  FitsBytes-u32, length-be_bytes, be_value-be_bytes, take-prefix, drop-prefix, long_enough,
}
use my_etcd.Raft.Messages.{
  RequestVoteRequest, RequestVoteResponse, AppendEntriesRequest, AppendEntriesResponse,
}
use my_etcd.Transport.Wire.{
  ◌>>=◌, buffer, read_u8, write_u8, write_u64, vote_req_type, append_req_type, write_vote_request,
  read_vote_request, write_vote_response, read_vote_response, write_append_request,
  read_append_request, write_append_response, read_append_response,
}
use my_etcd.Transport.Wire.Laws.{
  Reads-vote_request, Reads-vote_response, Reads-append_request, Reads-append_response,
  IsVoteRequest, IsAppendRequest, IsAppendResponse,
}
use my_etcd.Transport.Server.{
  VoteHandler, AppendHandler, max_message_size, frame, dispatch, process_incoming_msg, framed,
  answer_vote, answer_append, reply_vote, reply_append, handle_client,
}
use my_etcd.Transport.Client.{
  Network, has_colon, fill, receive, received, send_and_receive, send_request_vote,
  send_append_entries, vote_answer, append_answer, vote_at, append_at,
}

fill-length : (bytes : Bytes) → fill (length bytes) bytes ≡ bytes
unfolding fill
fill-length [] = refl
fill-length (b ∷ bytes) = ap (◌∷◌ b) (fill-length bytes)

-- The length of a message, read back from its frame.
length-frame :
    (message : Bytes)
    → length message ≤ max_message_size
    → be_value 0 (take 4 (frame message)) ≡ length message
unfolding frame
length-frame message h =
    ap (be_value 0)
      (take-prefix 4 (be_bytes 4 (length message)) message (length-be_bytes 4 (length message)))
    ∙ be_value-be_bytes 4 (length message) (FitsBytes-u32 (length message) (omega arith))

drop-frame : (message : Bytes) → drop 4 (frame message) ≡ message
unfolding frame
drop-frame message =
    drop-prefix 4 (be_bytes 4 (length message)) message (length-be_bytes 4 (length message))

frame_long : (message : Bytes) → ltb (length (frame message)) 4 ≡ false
unfolding frame
frame_long message =
    long_enough 4 (be_bytes 4 (length message)) message (length-be_bytes 4 (length message))

receive-frame :
    (message : Bytes) → length message ≤ max_message_size → receive (frame message) ≡ message
unfolding receive
receive-frame message h =
    let small : ltb max_message_size (length message) ≡ false = ground arith in
    rw (frame_long message, length-frame message h, small, drop-frame message) (fill-length message)

module _ {S : Type 0} (vote : Option (VoteHandler S)) (append : Option (AppendHandler S)) where
  handle_client-frame :
      (message : Bytes) (s : S)
      → length message ≤ max_message_size
      → handle_client vote append (frame message) s
        ≡ framed (process_incoming_msg vote append message s)
  unfolding handle_client
  handle_client-frame message s h =
      let small : ltb max_message_size (length message) ≡ false = ground arith in
      let whole : ltb (length message) (length message) ≡ false = ground arith in
      rw
        (
          frame_long message,
          length-frame message h,
          small,
          drop-frame message,
          whole,
          take_all (length message) message (omega arith),
        )
        refl

  process_dispatch :
      (bytes : Bytes) (s : S)
      → process_incoming_msg vote append bytes s
        ≡ dispatch vote append (read_u8 bytes).0 (read_u8 bytes).1 s
  unfolding process_incoming_msg dispatch read_u8
  process_dispatch [] s = refl
  process_dispatch (b ∷ bytes) s = refl

  dispatch_vote :
      (bytes : Bytes) (req : RequestVoteRequest) (s : S)
      → (read_u8 bytes).0 ≡ vote_req_type
      → (read_vote_request (read_u8 bytes).1).0 ≡ req
      → process_incoming_msg vote append bytes s ≡ reply_vote (answer_vote vote req s)
  unfolding dispatch
  dispatch_vote bytes req s kind body =
      process_dispatch bytes s
      ∙ ap (λ t. dispatch vote append t (read_u8 bytes).1 s) kind
      ∙ ap (λ r. reply_vote (answer_vote vote r s)) body

  dispatch_append :
      (bytes : Bytes) (req : AppendEntriesRequest) (s : S)
      → (read_u8 bytes).0 ≡ append_req_type
      → (read_append_request (read_u8 bytes).1).0 ≡ req
      → process_incoming_msg vote append bytes s ≡ reply_append (answer_append append req s)
  unfolding dispatch
  dispatch_append bytes req s kind body =
      process_dispatch bytes s
      ∙ ap (λ t. dispatch vote append t (read_u8 bytes).1 s) kind
      ∙ ap (λ r. reply_append (answer_append append r s)) body

vote_kind : (req : RequestVoteRequest) → (read_u8 (write_vote_request req)).0 ≡ vote_req_type
unfolding read_u8 write_vote_request buffer write_u8
vote_kind req = refl

append_kind :
    (req : AppendEntriesRequest) → (read_u8 (write_append_request req)).0 ≡ append_req_type
unfolding read_u8 write_append_request buffer write_u8
append_kind req = refl

vote_body :
    (req : RequestVoteRequest)
    → IsVoteRequest req
    → (read_vote_request (read_u8 (write_vote_request req)).1).0 ≡ req
unfolding ◌>>=◌
vote_body req h =
    ap (λ w. (read_vote_request (read_u8 w).1).0) (sym (append-nil (write_vote_request req)))
    ∙ ap (λ p. p.0) ((Reads-vote_request req h).reads [])

append_body :
    (req : AppendEntriesRequest)
    → IsAppendRequest req
    → (read_append_request (read_u8 (write_append_request req)).1).0 ≡ req
unfolding ◌>>=◌
append_body req h =
    ap (λ w. (read_append_request (read_u8 w).1).0) (sym (append-nil (write_append_request req)))
    ∙ ap (λ p. p.0) ((Reads-append_request req h).reads [])

vote_reply :
    (resp : RequestVoteResponse)
    → resp.term < 2 ^ 64
    → (read_vote_response (write_vote_response resp)).0 ≡ resp
vote_reply resp h =
    ap (λ w. (read_vote_response w).0) (sym (append-nil (write_vote_response resp)))
    ∙ ap (λ p. p.0) ((Reads-vote_response resp h).reads [])

append_reply :
    (resp : AppendEntriesResponse)
    → IsAppendResponse resp
    → (read_append_response (write_append_response resp)).0 ≡ resp
append_reply resp h =
    ap (λ w. (read_append_response w).0) (sym (append-nil (write_append_response resp)))
    ∙ ap (λ p. p.0) ((Reads-append_response resp h).reads [])

vote_lengths :
    (req : RequestVoteRequest) (resp : RequestVoteResponse)
    → (length (write_vote_request req) ≡ 33) × (length (write_vote_response resp) ≡ 10)
unfolding write_vote_request write_vote_response buffer write_u8 write_u64 be_bytes
vote_lengths req resp = (refl, refl)

append_length : (resp : AppendEntriesResponse) → length (write_append_response resp) ≡ 34
unfolding write_append_response buffer write_u8 write_u64 be_bytes
append_length resp = refl

module _ {S : Type 0} (network : Network S) (addr : Bytes) (colon : has_colon addr ≡ true) where
  -- Both ends of a connection whose reply is framed.
  exchange :
      (message reply : Bytes) (s s' : S)
      → network addr (frame message) s ≡ (s', some (frame reply))
      → length reply ≤ max_message_size
      → send_and_receive network addr message s ≡ (s', reply)
  unfolding send_and_receive
  exchange message reply s s' net h =
      rw colon (ap received net ∙ ap (λ r. (s', r)) (receive-frame reply h))

-- The network passes what is sent to an address to the node there, and its reply back.
abbrev pub Delivers : {S : Type 0} → Network S → Bytes → VoteHandler S → AppendHandler S → Type 0
Delivers {S} network addr vote append =
    (stream : Bytes) (s : S)
    → network addr stream s ≡ handle_client (some vote) (some append) stream s

module _ {S : Type 0} (network : Network S) (peers : OrdMap ℕ Bytes) (target : ℕ) (addr : Bytes)
    (vote : VoteHandler S) (append : AppendHandler S) (known : lookup target peers ≡ some addr)
    (colon : has_colon addr ≡ true) (delivers : Delivers network addr vote append) where
  -- A vote request that is sent to a known peer over a network that delivers is answered with exactly what
  -- the peer's handler returns, and changes the peer's state exactly as the handler does; the words of the
  -- request and the term of the answer fit 64 bits.
  pub send_request_vote_lem :
      (req : RequestVoteRequest) (s : S)
      → IsVoteRequest req
      → (vote req s).1.term < 2 ^ 64
      → send_request_vote network peers target req s ≡ vote req s
  unfolding send_request_vote
  send_request_vote_lem req s h small =
      let resp = (vote req s).1 in
      let sent : network addr (frame (write_vote_request req)) s
          ≡ ((vote req s).0, some (frame (write_vote_response resp))) =
        delivers (frame (write_vote_request req)) s
        ∙ handle_client-frame (some vote) (some append) (write_vote_request req) s
            (omega (arith, (vote_lengths req resp).0))
        ∙ ap framed (
            dispatch_vote (some vote) (some append) (write_vote_request req) req s (vote_kind req)
              (vote_body req h)) in
      let long : ltb (length (write_vote_response resp)) 2 ≡ false =
        ground (arith, (vote_lengths req resp).1) in
      ap (vote_at network req s) known
      ∙ ap vote_answer (
          exchange network addr colon (write_vote_request req) (write_vote_response resp) s
            (vote req s).0 sent (omega (arith, (vote_lengths req resp).1)))
      ∙ rw (long, vote_reply resp small) refl

  -- A request to append entries that is sent to a known peer over a network that delivers is answered with
  -- exactly what the peer's handler returns, and changes the peer's state exactly as the handler does. The words
  -- of the request and of the answer fit 64 bits, the format carries the entries, and the message is not over
  -- the size limit.
  pub send_append_entries_lem :
      (req : AppendEntriesRequest) (s : S)
      → IsAppendRequest req
      → length (write_append_request req) ≤ max_message_size
      → IsAppendResponse (append req s).1
      → send_append_entries network peers target req s ≡ append req s
  unfolding send_append_entries
  send_append_entries_lem req s h fits small =
      let resp = (append req s).1 in
      let sent : network addr (frame (write_append_request req)) s
          ≡ ((append req s).0, some (frame (write_append_response resp))) =
        delivers (frame (write_append_request req)) s
        ∙ handle_client-frame (some vote) (some append) (write_append_request req) s fits
        ∙ ap framed (
            dispatch_append (some vote) (some append) (write_append_request req) req s
              (append_kind req) (append_body req h)) in
      let long : ltb (length (write_append_response resp)) 2 ≡ false =
        ground (arith, append_length resp) in
      ap (append_at network req s) known
      ∙ ap append_answer (
          exchange network addr colon (write_append_request req) (write_append_response resp) s
            (append req s).0 sent (omega (arith, append_length resp)))
      ∙ rw (long, append_reply resp small) refl
