-- ===== src/Http/Auth.antt =====
-- Who may use the routes of src/main.cpp, when the server has a token.
use my_etcd.Base.{
  ℕ, ◌≡◌, ◌≢◌, ◌⊎◌, refl, ap, sym, subst, ◌∙◌, arith, true, false, Bool-cases, inl, inr, List, [],
  ◌∷◌, ◌++◌, Option, Option-cases, none, some, Bytes, bytes_key, str_eq, str_eq_iff, take, drop,
  take-append-drop, ◌>>=◌,
}
use mathlib.Core.Option.{some-injective}
use my_etcd.OrdMap.{OrdMap, lookup}
use my_etcd.Server.{EtcdServer}
use my_etcd.Server.Json.{codes, no_response, set_error}
use my_etcd.Http.Request.{HttpRequest, Library, parse_request}
use my_etcd.Http.Routes.{dangerous, auth_header, is_token, is_authorized, handle_request, refuse}
use my_etcd.Http.Response.{build_response}
use my_etcd.Http.Connection.{read_request, handle_client, respond, answered}

-- The value is the token, or `Bearer ` and the token.
abbrev pub IsTokenOf : Bytes → Bytes → Type 0
IsTokenOf token value = (value ≡ token) ⊎ (value ≡ codes "Bearer " ++ token)

-- The header `Authorization`, or else `authorization`, carries the token.
abbrev pub Carries : Bytes → OrdMap Bytes Bytes → Type 0
Carries token headers =
    (value : Bytes) × (auth_header headers (lookup (codes "Authorization") headers) ≡ some value)
    × IsTokenOf token value

is_token-IsTokenOf :
    (token value : Bytes) → is_token token (some value) ≡ true → IsTokenOf token value
is_token-IsTokenOf token value h = elim (Bool-cases (str_eq value token)) [
  | inl same ↦ inl ((str_eq_iff value token).0 same)
  | inr differ ↦
      let start : str_eq (take 7 value) (codes "Bearer ") ≡ true = ground arith in
      let rest : str_eq (drop 7 value) token ≡ true = ground arith in
      inr (
        sym (take-append-drop 7 value)
        ∙ ap (λ v. v ++ drop 7 value) ((str_eq_iff (take 7 value) (codes "Bearer ")).0 start)
        ∙ ap (λ v. codes "Bearer " ++ v) ((str_eq_iff (drop 7 value) token).0 rest))
]

is_authorized-Carries :
    (token : Bytes) (req : HttpRequest)
    → token ≢ []
    → is_authorized token req ≡ true
    → Carries token req.headers
unfolding is_authorized
is_authorized-Carries [] req set h = absurd (set refl)
is_authorized-Carries (c ∷ token) req set h =
    elim (Option-cases (auth_header req.headers (lookup (codes "Authorization") req.headers))) [
      | inl missing ↦
          let wrong : false ≡ true = sym (ap (is_token (c ∷ token)) missing) ∙ h in
          absurd (ground (arith, wrong))
      | inr (value, found) ↦ (
        value,
        found,
        is_token-IsTokenOf (c ∷ token) value (sym (ap (is_token (c ∷ token)) found) ∙ h),
      )
    ]

-- The server stays as it is, and sends nothing or one of the two refusals.
abbrev pub IsRefused : EtcdServer → EtcdServer × Option Bytes → Type 0
IsRefused s (s', out) =
    (s' ≡ s)
    × ((out ≡ none)
        ⊎ ((code : ℕ) × (message : Bytes) × ((code ≡ 401) ⊎ (code ≡ 405))
            × (out ≡ some (build_response (set_error code message no_response)))))

module _ (lib : Library) (name : Bytes) (now : ℕ) (meanwhile : EtcdServer → EtcdServer) where
  refuse-IsRefused :
      (code : ℕ) (message : Bytes) (s : EtcdServer) (result : EtcdServer × Option Bytes)
      → (code ≡ 401) ⊎ (code ≡ 405)
      → (refuse code message s >>= λ reply. some (answered reply)) ≡ some result
      → IsRefused s result
  refuse-IsRefused code message s result of_two h =
      subst (IsRefused s) (some-injective _ result h) (refl, inr (code, message, of_two, refl))

  request-Carries :
      (token : Bytes) (req : HttpRequest) (s : EtcdServer) (result : EtcdServer × Option Bytes)
      → token ≢ []
      → respond (handle_request lib name now meanwhile token) s (some req) ≡ some result
      → Carries token req.headers ⊎ IsRefused s result
  unfolding handle_request
  request-Carries token req s result set h = elim (Bool-cases (dangerous req.method)) [
    | inl bad ↦ inr (
        refuse-IsRefused 405 (codes "method not allowed: " ++ req.method) s result (inr refl)
          (rw bad at h))
    | inr good ↦ elim (Bool-cases (is_authorized token req)) [
      | inl authorized ↦ inl (is_authorized-Carries token req set authorized)
      | inr refused ↦ inr (
          refuse-IsRefused 401 (codes "unauthorized: invalid or missing auth token") s result
            (inl refl) (rw (good, refused) at h))
    ]
  ]

  respond-Carries :
      (token : Bytes) (s : EtcdServer) (result : EtcdServer × Option Bytes)
      (parsed : Option HttpRequest)
      → token ≢ []
      → respond (handle_request lib name now meanwhile token) s parsed ≡ some result
      → ((req : HttpRequest) × (parsed ≡ some req) × Carries token req.headers) ⊎ IsRefused s result
  respond-Carries token s result none set h =
      inr (subst (IsRefused s) (some-injective _ result h) (refl, inl refl))
  respond-Carries token s result (some req) set h =
      elim (request-Carries token req s result set h) [
        | inl carries ↦ inl (req, refl, carries)
        | inr refused ↦ inr refused
      ]

  -- Where the server has a token, a connection's request carries it in the header `Authorization`, or `authorization`
  -- if that one is missing, either alone or behind `Bearer `; or else the server's state stays as it is, and the
  -- connection is sent nothing or a refusal with status 401 or 405.
  pub handle_client-Carries :
      (token : Bytes) (chunks : List Bytes) (s : EtcdServer) (result : EtcdServer × Option Bytes)
      → token ≢ []
      → handle_client lib name now meanwhile token chunks s ≡ some result
      → ((req : HttpRequest) × ((read_request lib chunks >>= parse_request lib) ≡ some req)
          × Carries token req.headers)
        ⊎ IsRefused s result
  unfolding handle_client
  handle_client-Carries token chunks s result =
      respond-Carries token s result (read_request lib chunks >>= parse_request lib)
