-- ===== src/Http/Effects.antt =====
-- What a connection to src/main.cpp does to the server.
use my_etcd.Base.{
  ℕ, ◌≡◌, subst, Bool, true, false, List, Option, none, some, ltb, if◌then◌else◌, Bytes, bytes_key,
  str_eq, length, ◌>>=◌,
}
use mathlib.Core.Option.{some-injective}
use my_etcd.OrdMap.{lookup}
use my_etcd.Server.{EtcdServer}
use my_etcd.Server.Json.{codes}
use my_etcd.Server.Requests
use my_etcd.Server.Requests.{Reply}
use my_etcd.Server.Runs.{
  RequestRun, rests, put-RequestRun, delete-RequestRun, watch-RequestRun, cancel-RequestRun,
  grant-RequestRun, revoke-RequestRun, renew-RequestRun, member_add-RequestRun,
  member_remove-RequestRun, txn-RequestRun,
}
use my_etcd.Http.Request.{HttpRequest, Library, is_positive, parse_request}
use my_etcd.Http.Routes.{
  get_param, dangerous, is_authorized, is_route, max_key_len, max_value_len, max_ttl, is_empty,
  number_param, lease_id, handle_put, handle_range, handle_delete, handle_txn, handle_watch,
  handle_watch_cancel, handle_lease_grant, handle_lease_revoke, handle_lease_keep_alive,
  handle_member_add, node_id, handle_member_remove, dispatch, handle_request,
}
use my_etcd.Http.Connection.{read_request, handle_client, respond, answered}

module _ (lib : Library) (name : Bytes) (now : ℕ) (meanwhile : EtcdServer → EtcdServer) where
  -- A handler's reply, where there is one, leaves a server that such a run reaches.
  abbrev pub Runs : EtcdServer → Option Reply → Type 0
  Runs s none = Unit
  Runs s (some reply) = RequestRun meanwhile s reply.0

  either-Runs :
      (b : Bool) (s : EtcdServer) (o o' : Option Reply)
      → Runs s o
      → Runs s o'
      → Runs s (if b then o else o')
  either-Runs true s o o' h k = h
  either-Runs false s o o' h k = k

  leased-Runs :
      (lease : Option ℕ) (s : EtcdServer) (key value : Bytes)
      → Runs s (lease >>= λ lease. some (Requests.put meanwhile key value lease s))
  leased-Runs none s key value = tt
  leased-Runs (some lease) s key value = put-RequestRun meanwhile key value lease s

  handle_put-Runs :
      (req : HttpRequest) (s : EtcdServer) → Runs s (handle_put lib name now meanwhile req s)
  unfolding handle_put
  handle_put-Runs req s = either-Runs (is_empty (get_param req (codes "key"))) s _ _ (rests s) (
      either-Runs (ltb max_key_len (length (get_param req (codes "key")))) s _ _ (rests s) (
        either-Runs (ltb max_value_len (length req.body)) s _ _ (rests s) (
          leased-Runs (lease_id (number_param lib req (codes "lease"))) s
            (get_param req (codes "key")) req.body)))

  handle_range-Runs :
      (req : HttpRequest) (s : EtcdServer) → Runs s (handle_range lib name now meanwhile req s)
  unfolding handle_range
  handle_range-Runs req s =
      either-Runs (is_empty (get_param req (codes "key"))) s _ _ (rests s) (rests s)

  handle_delete-Runs :
      (req : HttpRequest) (s : EtcdServer) → Runs s (handle_delete lib name now meanwhile req s)
  unfolding handle_delete
  handle_delete-Runs req s =
      either-Runs (is_empty (get_param req (codes "key"))) s _ _ (rests s)
        (delete-RequestRun meanwhile (get_param req (codes "key")) s)

  handle_txn-Runs :
      (req : HttpRequest) (s : EtcdServer) → Runs s (handle_txn lib name now meanwhile req s)
  unfolding handle_txn
  handle_txn-Runs req s = txn-RequestRun meanwhile lib.stoll req.body s

  handle_watch-Runs :
      (req : HttpRequest) (s : EtcdServer) → Runs s (handle_watch lib name now meanwhile req s)
  unfolding handle_watch
  handle_watch-Runs req s = either-Runs (is_empty (get_param req (codes "key"))) s _ _ (rests s) (
      watch-RequestRun meanwhile (get_param req (codes "key")) 0
        (str_eq (get_param req (codes "prefix")) (codes "true")) s)

  handle_watch_cancel-Runs :
      (req : HttpRequest) (s : EtcdServer)
      → Runs s (handle_watch_cancel lib name now meanwhile req s)
  unfolding handle_watch_cancel
  handle_watch_cancel-Runs req s =
      either-Runs (is_positive (number_param lib req (codes "ID"))) s _ _
        (cancel-RequestRun meanwhile (number_param lib req (codes "ID")).1 s) (rests s)

  handle_lease_grant-Runs :
      (req : HttpRequest) (s : EtcdServer)
      → Runs s (handle_lease_grant lib name now meanwhile req s)
  unfolding handle_lease_grant
  handle_lease_grant-Runs req s =
      either-Runs (is_positive (number_param lib req (codes "TTL"))) s _ _
        (either-Runs (ltb max_ttl (number_param lib req (codes "TTL")).1) s _ _ (rests s)
          (grant-RequestRun meanwhile now (number_param lib req (codes "TTL")).1 s))
        (rests s)

  handle_lease_revoke-Runs :
      (req : HttpRequest) (s : EtcdServer)
      → Runs s (handle_lease_revoke lib name now meanwhile req s)
  unfolding handle_lease_revoke
  handle_lease_revoke-Runs req s =
      either-Runs (is_positive (number_param lib req (codes "ID"))) s _ _
        (revoke-RequestRun meanwhile (number_param lib req (codes "ID")).1 s) (rests s)

  handle_lease_keep_alive-Runs :
      (req : HttpRequest) (s : EtcdServer)
      → Runs s (handle_lease_keep_alive lib name now meanwhile req s)
  unfolding handle_lease_keep_alive
  handle_lease_keep_alive-Runs req s =
      either-Runs (is_positive (number_param lib req (codes "ID"))) s _ _
        (renew-RequestRun meanwhile now (number_param lib req (codes "ID")).1 s) (rests s)

  handle_member_add-Runs :
      (req : HttpRequest) (s : EtcdServer) → Runs s (handle_member_add lib name now meanwhile req s)
  unfolding handle_member_add
  handle_member_add-Runs req s =
      either-Runs (is_empty (get_param req (codes "peer"))) s _ _ (rests s)
        (member_add-RequestRun meanwhile (get_param req (codes "peer")) s)

  handle_member_remove-Runs :
      (req : HttpRequest) (s : EtcdServer)
      → Runs s (handle_member_remove lib name now meanwhile req s)
  unfolding handle_member_remove
  handle_member_remove-Runs req s =
      either-Runs (ltb 0 (node_id lib (lookup (codes "ID") req.query_params))) s _ _
        (member_remove-RequestRun meanwhile (node_id lib (lookup (codes "ID") req.query_params)) s)
        (rests s)

  -- A route, or the ones after it.
  routed-Runs :
      (req : HttpRequest) (method path : Bytes) (s : EtcdServer) (o o' : Option Reply)
      → Runs s o
      → Runs s o'
      → Runs s (if is_route req method path then o else o')
  routed-Runs req method path s = either-Runs (is_route req method path) s

  dispatch-Runs :
      (req : HttpRequest) (s : EtcdServer) → Runs s (dispatch lib name now meanwhile req s)
  unfolding dispatch
  dispatch-Runs req s = routed-Runs req _ _ s _ _ (handle_put-Runs req s) (
      routed-Runs req _ _ s _ _ (handle_range-Runs req s) (
        routed-Runs req _ _ s _ _ (handle_delete-Runs req s) (
          routed-Runs req _ _ s _ _ (handle_txn-Runs req s) (
            routed-Runs req _ _ s _ _ (handle_watch-Runs req s) (
              routed-Runs req _ _ s _ _ (handle_watch_cancel-Runs req s) (
                routed-Runs req _ _ s _ _ (handle_lease_grant-Runs req s) (
                  routed-Runs req _ _ s _ _ (handle_lease_revoke-Runs req s) (
                    routed-Runs req _ _ s _ _ (handle_lease_keep_alive-Runs req s) (
                      routed-Runs req _ _ s _ _ (rests s) (
                        routed-Runs req _ _ s _ _ (handle_member_add-Runs req s) (
                          routed-Runs req _ _ s _ _ (handle_member_remove-Runs req s)
                            (routed-Runs req _ _ s _ _ (rests s) (rests s)))))))))))))

  handle_request-Runs :
      (token : Bytes) (req : HttpRequest) (s : EtcdServer)
      → Runs s (handle_request lib name now meanwhile token req s)
  unfolding handle_request
  handle_request-Runs token req s =
      either-Runs (dangerous req.method) s _ _ (rests s)
        (either-Runs (is_authorized token req) s _ _ (dispatch-Runs req s) (rests s))

  replied-Runs :
      (token : Bytes) (s : EtcdServer) (o : Option Reply) (result : EtcdServer × Option Bytes)
      → Runs s o
      → (o >>= λ reply. some (answered reply)) ≡ some result
      → RequestRun meanwhile s result.0
  replied-Runs token s none result h e = absurd cc
  replied-Runs token s (some reply) result h e =
      subst (λ (r : EtcdServer × Option Bytes). RequestRun meanwhile s r.0)
        (some-injective (answered reply) result e) h

  responded-Runs :
      (token : Bytes) (s : EtcdServer) (parsed : Option HttpRequest)
      (result : EtcdServer × Option Bytes)
      → respond (handle_request lib name now meanwhile token) s parsed ≡ some result
      → RequestRun meanwhile s result.0
  responded-Runs token s none result e =
      subst (λ (r : EtcdServer × Option Bytes). RequestRun meanwhile s r.0)
        (some-injective (s, none) result e) (rests s)
  responded-Runs token s (some req) result e =
      replied-Runs token s (handle_request lib name now meanwhile token req s) result
        (handle_request-Runs token req s) e

  -- Whatever bytes a connection brings, what it does to the server is a run of proposals to the node, calls of the
  -- methods of the leases and of the watchers, and waits for other threads.
  pub handle_client-RequestRun :
      (token : Bytes) (chunks : List Bytes) (s : EtcdServer) (result : EtcdServer × Option Bytes)
      → handle_client lib name now meanwhile token chunks s ≡ some result
      → RequestRun meanwhile s result.0
  unfolding handle_client
  handle_client-RequestRun token chunks s =
      responded-Runs token s (read_request lib chunks >>= parse_request lib)
