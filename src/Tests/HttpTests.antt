-- ===== src/Tests/HttpTests.antt =====
-- The theorems of the HTTP server and of its start at small requests.
use my_etcd.Base.{
  ℕ, ◌+◌, ◌-◌, ◌*◌, ◌/◌, ◌%◌, ◌≡◌, ◌≤◌, ◌<◌, ◌⊎◌, refl, ap, arith, List, [], ◌∷◌, Option, some,
  none, true, false, Bool, Bytes, length, nat_key, bytes_key, ◌>>=◌, ◌==◌, ◌&&◌, leb, if◌then◌else◌,
  has_prefix, str_eq, subst, All, get_or_else,
}
use my_etcd.OrdMap.{insert, lookup}
use my_etcd.Lease.{set_expire_callback, grant}
use my_etcd.Server.{EtcdServer, check_leases, recover}
use my_etcd.Server.Json.{codes, digits, set_error, set_json, no_response, lease_to_json, decimal}
use my_etcd.Server.Invariant.{parts, IsSound}
use my_etcd.Startup.{default_config, parse_initial_cluster, new_server}
use my_etcd.Startup.Identifiers.{Agrees, IsNamed, address_of, parse_initial_cluster-agree}
use my_etcd.Http.Text.{lines_of, to_lower}
use my_etcd.Http.Request.{HttpRequest, Library, parse_request}
use my_etcd.Http.Client.{
  hex_digit, request_text, query_text, url_encode, encode_char, first_request_line, target_text,
  length_field,
}
use my_etcd.Http.Response.{build_response}
use my_etcd.Http.Connection.{handle_client, read_request, max_read}
use my_etcd.Http.Auth.{Carries, IsRefused, handle_client-Carries}
use my_etcd.Http.Bounds.{read_request-bounded}
use my_etcd.Http.Encoding.{ReadsHex, insert_all}
use my_etcd.Http.Arrival.{concat}
use my_etcd.Http.Fields.{IsOther}
use my_etcd.Http.Lines.{NoneOf, crlf_lines}
use my_etcd.Http.Delivery.{read_request-request_text}
use my_etcd.Http.Machine.{
  rests, follows, serves, checks_leases, ServerRun-recover, handle_client-parts,
}
use my_etcd.Wal.{open_wal, read_all_entries}
use my_etcd.Snapshots.{load_latest_snapshot}
use my_etcd.Tests.WalTests.{a_log}
use my_etcd.Tests.ServerTests.{server3}

-- Numbers in decimal digits, and in two hexadecimal ones.
unfoldable digits_value : ℕ → Bytes → Option ℕ
digits_value v [] = some v
digits_value v (c ∷ s) =
    let rest = digits_value (v * 10 + (c - b'0')) s in
    if leb b'0' c && leb c b'9' then rest else none

unfoldable number_of : Bytes → Option (Bool × ℕ)
unfolding digits_value
number_of [] = none
number_of (c ∷ s) =
    let minus = digits_value 0 s >>= λ n. some (true, n) in
    let plus = digits_value 0 (c ∷ s) >>= λ n. some (false, n) in if c == b'-' then minus else plus

abbrev hex_value : ℕ → Option ℕ
hex_value c =
    if leb b'0' c && leb c b'9'
    then some (c - b'0')
    else if leb b'A' c && leb c b'F'
    then some (c - b'A' + 10)
    else none

abbrev hex_of : ℕ → ℕ → Option ℕ
hex_of a b = hex_value a >>= λ high. hex_value b >>= λ low. some (high * 16 + low)

abbrev a_library : Library
a_library = record {
  stoi = number_of;
  stol = number_of;
  stoll = number_of;
  stoull = λ s. number_of s >>= λ n. some n.1;
  hex = hex_of;
}

hex_value-hex_digit : (n : ℕ) → n < 16 → hex_value (hex_digit n) ≡ some n
hex_value-hex_digit n h = ground arith

a_library-ReadsHex : ReadsHex hex_of
a_library-ReadsHex c h =
    rw (hex_value-hex_digit (c / 16) (omega arith), hex_value-hex_digit (c % 16) (omega arith))
      (ap some (omega arith))

abbrev cluster_text : Bytes
cluster_text = codes "a=h1:1,oops,b=h2:2"

parse_initial_cluster-agree_example :
    Agrees
      (parse_initial_cluster cluster_text (codes "b") 1 [])
      (parse_initial_cluster cluster_text (codes "a") 1 [])
    × IsNamed
        (codes "b")
        1
        (parse_initial_cluster cluster_text (codes "b") 1 [])
        (address_of (codes "b") (lines_of b',' cluster_text))
parse_initial_cluster-agree_example =
    parse_initial_cluster-agree cluster_text (codes "b") (codes "a") 1 1 []

abbrev no_wait : EtcdServer → EtcdServer
no_wait s = s

-- A grant of a lease without a token.
abbrev grant_chunks : List Bytes
grant_chunks = codes "POST /v3/lease/grant?TTL=60 HTTP/1.1\r\n" ∷ codes "Host: h\r\n\r\n" ∷ []

abbrev unauthorized : EtcdServer × Option Bytes
unauthorized = (
  server3,
  some (
      build_response
        (set_error 401 (codes "unauthorized: invalid or missing auth token") no_response)),
)

run_unauthorized :
    handle_client a_library (codes "n") 5 no_wait (codes "t") grant_chunks server3
    ≡ some unauthorized
unfolding handle_client has_prefix str_eq insert lookup
run_unauthorized = refl

handle_client-Carries_example :
    ((req : HttpRequest) × ((read_request a_library grant_chunks >>= parse_request a_library)
        ≡ some req)
      × Carries (codes "t") req.headers)
    ⊎ IsRefused server3 unauthorized
handle_client-Carries_example =
    handle_client-Carries a_library (codes "n") 5 no_wait (codes "t") grant_chunks server3
      unauthorized (λ e. absurd cc) run_unauthorized

-- A put with a body, in chunks that cut the header and the body.
abbrev put_chunks : List Bytes
put_chunks =
    codes "PUT /v3/kv/put?key=a HTTP/1.1\r\nContent-Le" ∷ codes "ngth: 3\r\n\r\nx" ∷ codes "yz" ∷ []

abbrev put_text : Bytes
put_text = codes "PUT /v3/kv/put?key=a HTTP/1.1\r\nContent-Length: 3\r\n\r\nxyz"

abbrev put_request : HttpRequest
put_request = record {
  method = codes "PUT";
  path = codes "/v3/kv/put";
  headers = (codes "Content-Length", codes "3") ∷ [];
  body = codes "xyz";
  query_params = (codes "key", codes "a") ∷ [];
}

read_put : read_request a_library put_chunks ≡ some put_text
unfolding read_request has_prefix str_eq number_of
read_put = refl

parse_put : parse_request a_library put_text ≡ some put_request
unfolding parse_request str_eq has_prefix insert number_of
parse_put = refl

read_request-bounded_example :
    (length put_request.body ≤ length put_text) × (length put_text < 69631)
read_request-bounded_example =
    read_request-bounded a_library put_chunks put_text put_request
      (omega arith, (omega arith, (omega arith, tt))) read_put parse_put

-- A test for `NoneOf`.
unfoldable lacks : ℕ → Bytes → Bool
lacks mark [] = true
lacks mark (c ∷ s) = let rest = lacks mark s in if c == mark then false else rest

lacks-NoneOf : (mark : ℕ) (s : Bytes) → lacks mark s ≡ true → NoneOf mark s
unfolding lacks
lacks-NoneOf mark [] h = tt
lacks-NoneOf mark (c ∷ s) h = ground (arith, h, lacks-NoneOf mark s)

abbrev a_param : Bytes × Bytes
a_param = (codes "k", codes "a &")

abbrev a_field : Bytes × Bytes
a_field = (codes "Host", codes "h")

abbrev a_text : Bytes
a_text = request_text (codes "PUT") (codes "/p") (a_param ∷ []) (a_field ∷ []) (codes "xyz")

abbrev pieces : List Bytes
pieces =
    codes "PUT /p?k=a%20%26 HTTP/1.1\r\nContent-Length: 3\r\nHo"
    ∷ codes "st: h\r\n\r"
    ∷ codes "\nx"
    ∷ codes "yz"
    ∷ []

pieces-a_text : concat pieces ≡ a_text
unfolding crlf_lines query_text url_encode encode_char digits
pieces-a_text = refl

pieces-NoneOf : All (NoneOf 0) pieces
unfolding lacks
pieces-NoneOf = (
  lacks-NoneOf 0 (codes "PUT /p?k=a%20%26 HTTP/1.1\r\nContent-Length: 3\r\nHo") refl,
  (
    lacks-NoneOf 0 (codes "st: h\r\n\r") refl,
    (lacks-NoneOf 0 (codes "\nx") refl, (lacks-NoneOf 0 (codes "yz") refl, tt)),
  ),
)

reads_three : number_of (decimal 3) ≡ some (false, 3)
unfolding number_of digits
reads_three = refl

others_than_length : All IsOther (a_field ∷ [])
unfolding to_lower str_eq
others_than_length = (refl, tt)

a_line : NoneOf b':' (first_request_line (codes "PUT") (target_text (codes "/p") (a_param ∷ [])))
unfolding lacks query_text url_encode encode_char
a_line =
    lacks-NoneOf b':' (first_request_line (codes "PUT") (target_text (codes "/p") (a_param ∷ [])))
      refl

read_request-request_text_example :
    (read_request a_library pieces >>= parse_request a_library)
    ≡ some (record {
      method = codes "PUT";
      path = codes "/p";
      headers = insert_all (length_field (codes "xyz") ∷ a_field ∷ []) [];
      body = codes "xyz";
      query_params = insert_all (a_param ∷ []) [];
    })
read_request-request_text_example =
    read_request-request_text a_library (codes "PUT") (codes "/p") (a_param ∷ []) (a_field ∷ [])
      (codes "xyz") (refl, (refl, (refl, tt))) ((refl, (refl, tt)), (refl, (refl, tt)))
      ((((omega arith, tt), (omega arith, (omega arith, (omega arith, tt)))), tt))
      (
        ((refl, (refl, (refl, (refl, tt)))), (refl, (refl, (refl, (refl, tt)))), (refl, tt), refl),
        tt,
      )
      reads_three a_line (subst (λ s. length s < max_read) pieces-a_text (omega arith))
      a_library-ReadsHex others_than_length reads_three pieces pieces-a_text pieces-NoneOf

-- The server that the arguments' defaults start, over a log of its own.
abbrev a_server : EtcdServer
a_server = new_server default_config a_log [] none

abbrev started : EtcdServer
started = get_or_else (recover a_server) a_server

recovers : recover a_server ≡ some started
unfolding recover new_server load_latest_snapshot read_all_entries open_wal lookup insert
recovers = refl

abbrev granted : EtcdServer × Option Bytes
granted = (
  record started {
    lease_mgr = record {
      leases =
          (
            1,
            record {
              id = 1;
              ttl_ms = 60000;
              remaining_ms = 60000;
              expiry = 60005;
              attached_keys = [];
            },
          )
          ∷ [];
      next_id = 2;
      has_callback = true;
      notified = [];
    };
  },
  some (build_response (set_json (lease_to_json 1 60000) no_response)),
)

run_granted : handle_client a_library (codes "n") 5 no_wait [] grant_chunks started ≡ some granted
unfolding handle_client has_prefix str_eq insert lookup number_of new_server set_expire_callback
    grant recover load_latest_snapshot read_all_entries open_wal
run_granted = refl

ServerRun-recover_example :
    IsSound (new_server default_config a_log [] none).raft_node (check_leases 70000 granted.0)
ServerRun-recover_example =
    ServerRun-recover default_config a_log [] started (check_leases 70000 granted.0) recovers (
      follows
        (serves a_library (codes "n") 5 no_wait [] grant_chunks started granted rests run_granted)
        (checks_leases 70000 granted.0))

handle_client-parts_example : parts granted.0 ≡ parts started
handle_client-parts_example =
    handle_client-parts a_library (codes "n") 5 no_wait [] grant_chunks started granted
      (λ p. p ≡ parts started) (λ t h. h) run_granted refl
