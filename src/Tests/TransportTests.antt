-- ===== src/Tests/TransportTests.antt =====
-- The theorems of the transport at a small request.
use my_etcd.Base.{ℕ, ◌+◌, ◌≡◌, refl, arith, [], ◌∷◌, some, true, Bytes, ◌≤◌, nat_key, length}
use my_etcd.OrdMap.{OrdMap, lookup}
use my_etcd.Codec.{be_bytes, event_byte}
use my_etcd.Transport.Wire.{
  write_append_request, write_entries, write_entry, write_u8, write_u64, write_string, conf_parts,
  buffer,
}
use my_etcd.Transport.Wire.Laws.{IsAppendRequest}
use my_etcd.Transport.Server.{VoteHandler, AppendHandler, handle_client, max_message_size}
use my_etcd.Transport.Client.{Network, has_colon, send_append_entries}
use my_etcd.Transport.RoundTrip.{send_append_entries_lem}
use my_etcd.Tests.States.{entry_of-IsCarried, append_after}

abbrev votes : VoteHandler ℕ
votes req s = (req.term, record { term = req.term; vote_granted = true })

abbrev appends : AppendHandler ℕ
appends req s = (
  s + length req.entries,
  record {
    term = req.term;
    success = true;
    last_log_index = 4;
    conflict_index = 0;
    conflict_term = 0;
  },
)

abbrev network : Network ℕ
network addr stream s = handle_client (some votes) (some appends) stream s

abbrev addr : Bytes
addr = b'h' ∷ b':' ∷ b'1' ∷ []

append_after-IsAppendRequest : IsAppendRequest (append_after 3 2 1)
append_after-IsAppendRequest = record {
  term = omega arith;
  leader_id = omega arith;
  prev_log_index = omega arith;
  prev_log_term = omega arith;
  leader_commit = omega arith;
  entry_count = omega arith;
  entries = (entry_of-IsCarried, tt);
}

colon : has_colon addr ≡ true
unfolding has_colon
colon = refl

abbrev addresses : OrdMap ℕ Bytes
addresses = (2, addr) ∷ []

known : lookup 2 addresses ≡ some addr
unfolding lookup
known = refl

fits : length (write_append_request (append_after 3 2 1)) ≤ max_message_size
unfolding write_append_request write_entries write_entry conf_parts write_string write_u64 write_u8
    event_byte be_bytes buffer
fits = omega arith

send_append_entries_lem_example : send_append_entries network addresses 2 (append_after 3 2 1) 7 ≡ (
  8,
  record { term = 3; success = true; last_log_index = 4; conflict_index = 0; conflict_term = 0 },
)
send_append_entries_lem_example =
    send_append_entries_lem network addresses 2 addr votes appends known colon (λ stream s. refl)
      (append_after 3 2 1) 7 append_after-IsAppendRequest fits
      (omega arith, omega arith, omega arith, omega arith)
