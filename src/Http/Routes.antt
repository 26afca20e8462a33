-- ===== src/Http/Routes.antt =====
-- src/main.cpp: `HandleRequest` and the handlers that it dispatches to.
use my_etcd.Base.{
  ℕ, ◌*◌, Bool, true, false, ◌&&◌, ◌||◌, [], ◌∷◌, ◌++◌, Option, none, some, ltb, if◌then◌else◌,
  Bytes, bytes_key, str_eq, take, drop, length, ◌>>=◌,
}
use my_etcd.OrdMap.{OrdMap, lookup, insert}
use my_etcd.Server.Json.{codes, HttpResponse, no_response, set_error}
use my_etcd.Server.{EtcdServer}
use my_etcd.Server.Requests
use my_etcd.Server.Requests.{Reply}
use my_etcd.Server.Txn.{text_or_empty, txn}
use my_etcd.Http.Request.{HttpRequest, Library, signed_or_zero, is_positive}

unfoldable pub get_param : HttpRequest → Bytes → Bytes
get_param req name = text_or_empty (lookup name req.query_params)

-- A response that a handler gives by itself.
abbrev pub refuse : ℕ → Bytes → EtcdServer → Option Reply
refuse code message s = some (s, set_error code message no_response)

abbrev pub dangerous : Bytes → Bool
dangerous method =
    str_eq method (codes "TRACE")
    || (str_eq method (codes "CONNECT") || str_eq method (codes "OPTIONS"))

abbrev pub auth_header : OrdMap Bytes Bytes → Option (Bytes) → Option Bytes
auth_header headers (some value) = some value
auth_header headers none = lookup (codes "authorization") headers

-- `<token>` or `Bearer <token>`
abbrev pub is_token : Bytes → Option Bytes → Bool
is_token token none = false
is_token token (some auth) =
    str_eq auth token
    || (ltb 7 (length auth)
        && (str_eq (take 7 auth) (codes "Bearer ") && str_eq (drop 7 auth) token))

unfoldable pub is_authorized : Bytes → HttpRequest → Bool
is_authorized [] req = true
is_authorized (c ∷ token) req =
    is_token (c ∷ token) (auth_header req.headers (lookup (codes "Authorization") req.headers))

abbrev pub is_route : HttpRequest → Bytes → Bytes → Bool
is_route req method path = str_eq req.method method && str_eq req.path path

abbrev pub max_key_len : ℕ
max_key_len = 1024 * 1024

abbrev pub max_value_len : ℕ
max_value_len = 8 * 1024 * 1024

abbrev pub max_ttl : ℕ
max_ttl = 86400 * 365

abbrev pub is_empty : Bytes → Bool
is_empty [] = true
is_empty (c ∷ s) = false

-- The page of the root: its text is that of the source.
unfoldable pub index_page : Bytes
index_page =
    codes
      "<!DOCTYPE html>\n<html>\n<head><title>my-etcd</title></head>\n<body>\n<h1>my-etcd</h1>\n<p>A distributed key-value store built with C++17</p>\n<h2>API Endpoints</h2>\n<ul>\n  <li>PUT /v3/kv/put?key=xxx - Put a key-value pair</li>\n  <li>POST /v3/kv/range?key=xxx - Range query</li>\n  <li>POST /v3/kv/delete?key=xxx - Delete a key</li>\n  <li>POST /v3/watch?key=xxx - Watch a key</li>\n  <li>POST /v3/lease/grant?TTL=60 - Grant a lease</li>\n  <li>POST /v3/lease/revoke?ID=1 - Revoke a lease</li>\n  <li>POST /v3/lease/keepalive?ID=1 - Keep a lease alive</li>\n  <li>GET /v3/cluster/info - Cluster information</li>\n</ul>\n</body>\n</html>"

unfoldable pub handle_index : HttpResponse
unfolding index_page
handle_index = record no_response {
  headers = insert (codes "Content-Type") (codes "text/html; charset=utf-8") [];
  body = index_page;
}

-- A negative lease is not among the identifiers of the model.
abbrev pub lease_id : Bool × ℕ → Option ℕ
lease_id (negative, magnitude) = if negative && ltb 0 magnitude then none else some magnitude

module _ (lib : Library) where
  abbrev pub parse_number : Option Bytes → Bool × ℕ
  parse_number none = (false, 0)
  parse_number (some text) = signed_or_zero (lib.stoll text)

  unfoldable pub number_param : HttpRequest → Bytes → Bool × ℕ
  number_param req param = parse_number (lookup param req.query_params)

  abbrev pub node_id : Option Bytes → ℕ
  node_id none = 0
  node_id (some text) = elim (lib.stoull text) [ none ↦ 0 | some id ↦ id ]

-- The numbers are those of the library, `name` is the node's, `now` is the time of the leases' clock, and
-- `meanwhile` is what other threads do while a handler waits.
module _ (lib : Library) (name : Bytes) (now : ℕ) (meanwhile : EtcdServer → EtcdServer) where
  unfoldable pub handle_put : HttpRequest → EtcdServer → Option Reply
  unfolding get_param number_param Requests.put set_error
  handle_put req s =
      let key = get_param req (codes "key") in
      if is_empty key
      then refuse 400 (codes "key is required") s
      else if ltb max_key_len (length key)
      then refuse 400 (codes "key too large (max 1MB)") s
      else if ltb max_value_len (length req.body)
      then refuse 400 (codes "value too large (max 8MB)") s
      else (lease_id (number_param lib req (codes "lease")) >>= λ lease.
          some (Requests.put meanwhile key req.body lease s))

  unfoldable pub handle_range : HttpRequest → EtcdServer → Option Reply
  unfolding get_param Requests.range set_error
  handle_range req s =
      let key = get_param req (codes "key") in
      if is_empty key
      then refuse 400 (codes "key is required") s
      else some (s, Requests.range key (get_param req (codes "range_end")) 0 0 s)

  unfoldable pub handle_delete : HttpRequest → EtcdServer → Option Reply
  unfolding get_param Requests.delete set_error
  handle_delete req s =
      let key = get_param req (codes "key") in
      if is_empty key
      then refuse 400 (codes "key is required") s
      else some (Requests.delete meanwhile key s)

  unfoldable pub handle_txn : HttpRequest → EtcdServer → Option Reply
  unfolding txn
  handle_txn req s = some (txn lib.stoll req.body s)

  unfoldable pub handle_watch : HttpRequest → EtcdServer → Option Reply
  unfolding get_param Requests.watch_request set_error
  handle_watch req s =
      let key = get_param req (codes "key") in
      if is_empty key
      then refuse 400 (codes "key is required") s
      else some (
          Requests.watch_request meanwhile key 0
            (str_eq (get_param req (codes "prefix")) (codes "true")) s)

  unfoldable pub handle_watch_cancel : HttpRequest → EtcdServer → Option Reply
  unfolding number_param Requests.watch_cancel set_error
  handle_watch_cancel req s =
      let id = number_param lib req (codes "ID") in
      if is_positive id
      then some (Requests.watch_cancel id.1 s)
      else refuse 400 (codes "ID is required") s

  unfoldable pub handle_lease_grant : HttpRequest → EtcdServer → Option Reply
  unfolding number_param Requests.lease_grant set_error
  handle_lease_grant req s =
      let ttl = number_param lib req (codes "TTL") in
      if is_positive ttl
      then if ltb max_ttl ttl.1
        then refuse 400 (codes "TTL too large (max 31536000 seconds)") s
        else some (Requests.lease_grant now ttl.1 s)
      else refuse 400 (codes "TTL is required and must be positive") s

  unfoldable pub handle_lease_revoke : HttpRequest → EtcdServer → Option Reply
  unfolding number_param Requests.lease_revoke set_error
  handle_lease_revoke req s =
      let id = number_param lib req (codes "ID") in
      if is_positive id
      then some (Requests.lease_revoke id.1 s)
      else refuse 400 (codes "ID is required") s

  unfoldable pub handle_lease_keep_alive : HttpRequest → EtcdServer → Option Reply
  unfolding number_param Requests.lease_renew set_error
  handle_lease_keep_alive req s =
      let id = number_param lib req (codes "ID") in
      if is_positive id
      then some (Requests.lease_renew now id.1 s)
      else refuse 400 (codes "ID is required") s

  unfoldable pub handle_member_add : HttpRequest → EtcdServer → Option Reply
  unfolding get_param Requests.member_add set_error
  handle_member_add req s =
      let peer = get_param req (codes "peer") in
      if is_empty peer
      then refuse 400 (codes "peer address is required") s
      else some (Requests.member_add peer s)

  unfoldable pub handle_member_remove : HttpRequest → EtcdServer → Option Reply
  unfolding Requests.member_remove set_error
  handle_member_remove req s =
      let id = node_id lib (lookup (codes "ID") req.query_params) in
      if ltb 0 id then some (Requests.member_remove id s) else refuse 400 (codes "ID is required") s

  -- The chain of tests on the method and the path.
  unfoldable pub dispatch : HttpRequest → EtcdServer → Option Reply
  unfolding handle_put handle_range handle_delete handle_txn handle_watch handle_watch_cancel
      handle_lease_grant handle_lease_revoke handle_lease_keep_alive handle_member_add
      handle_member_remove handle_index Requests.cluster_info set_error
  dispatch req s =
      if is_route req (codes "PUT") (codes "/v3/kv/put")
      then handle_put req s
      else if is_route req (codes "POST") (codes "/v3/kv/range")
      then handle_range req s
      else if is_route req (codes "POST") (codes "/v3/kv/delete")
      then handle_delete req s
      else if is_route req (codes "POST") (codes "/v3/kv/txn")
      then handle_txn req s
      else if is_route req (codes "POST") (codes "/v3/watch")
      then handle_watch req s
      else if is_route req (codes "POST") (codes "/v3/watch/cancel")
      then handle_watch_cancel req s
      else if is_route req (codes "POST") (codes "/v3/lease/grant")
      then handle_lease_grant req s
      else if is_route req (codes "POST") (codes "/v3/lease/revoke")
      then handle_lease_revoke req s
      else if is_route req (codes "POST") (codes "/v3/lease/keepalive")
      then handle_lease_keep_alive req s
      else if is_route req (codes "GET") (codes "/v3/cluster/info")
      then some (s, Requests.cluster_info name s)
      else if is_route req (codes "POST") (codes "/v3/cluster/member/add")
      then handle_member_add req s
      else if is_route req (codes "POST") (codes "/v3/cluster/member/remove")
      then handle_member_remove req s
      else if is_route req (codes "GET") (codes "/")
      then some (s, handle_index)
      else refuse 404 (codes "not found: " ++ req.path) s

  -- The result is `none` only where a put names a negative lease.
  unfoldable pub handle_request : Bytes → HttpRequest → EtcdServer → Option Reply
  unfolding is_authorized dispatch set_error
  handle_request auth_token req s =
      if dangerous req.method
      then refuse 405 (codes "method not allowed: " ++ req.method) s
      else if is_authorized auth_token req
      then dispatch req s
      else refuse 401 (codes "unauthorized: invalid or missing auth token") s
