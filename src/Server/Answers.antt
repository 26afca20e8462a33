-- ===== src/Server/Answers.antt =====
-- What the answers to requests say, and do not say, about what was done.
use my_etcd.Base.{
  ℕ, ◌≡◌, refl, ap, sym, ◌∙◌, Bool, true, false, List, [], ◌∷◌, ◌++◌, Option, none, some, ◌==◌,
  if◌then◌else◌, Bytes, Bool-cases, inl, inr, ==_iff, add64,
}
use my_etcd.Raft.Log.{last_index}
use my_etcd.Types.{RaftEntry}
use my_etcd.Raft.Node.{RaftNode, is_leader, propose}
use my_etcd.Server.Json.{codes, decimal, escape_char, escape, no_response, set_json}
use my_etcd.Server.{EtcdServer}
use my_etcd.Server.Requests.{put}
use my_etcd.Server.Txn.{
  txn, executed, execute, execute_all, proposed, conditions_met, operations, is_put, is_delete,
}

follower_proposed :
    (e : RaftEntry) (s : EtcdServer) → is_leader s.raft_node ≡ false → proposed e s ≡ s
unfolding propose
follower_proposed e s follower = rw follower refl

follower_execute :
    (obj : Bytes) (s : EtcdServer) → is_leader s.raft_node ≡ false → execute obj s ≡ s
unfolding execute
follower_execute obj s follower = elim (Bool-cases (is_put obj)) [
  | inl put ↦ rw put (follower_proposed _ s follower)
  | inr not_put ↦ elim (Bool-cases (is_delete obj)) [
    | inl delete ↦ rw (not_put, delete) (follower_proposed _ s follower)
    | inr other ↦ rw (not_put, other) refl
  ]
]

follower_execute_all :
    (objs : List Bytes) (s : EtcdServer) → is_leader s.raft_node ≡ false → execute_all objs s ≡ s
unfolding execute_all
follower_execute_all [] s follower = refl
follower_execute_all (obj ∷ objs) s follower =
    ap (execute_all objs) (follower_execute obj s follower) ∙ follower_execute_all objs s follower

executed_follower :
    (met : Bool) (s : EtcdServer) (ops : Option (List Bytes))
    → is_leader s.raft_node ≡ false
    → (executed met s ops).0 ≡ s
executed_follower met s none follower = refl
executed_follower met s (some objs) follower = follower_execute_all objs s follower

executed_response :
    (met : Bool) (s t : EtcdServer) (ops : Option (List Bytes))
    → (executed met s ops).1 ≡ (executed met t ops).1
executed_response met s t none = refl
executed_response met s t (some objs) = refl

-- On a server that is no leader, a transaction changes nothing, and its answer is the one that a leader with the
-- same store gives.
pub txn_follower :
    (stoll : Bytes → Option (Bool × ℕ)) (body : Bytes) (s : EtcdServer) (leader : RaftNode)
    → is_leader s.raft_node ≡ false
    → ((txn stoll body s).0 ≡ s)
      × ((txn stoll body s).1 ≡ (txn stoll body (record s { raft_node = leader })).1)
unfolding txn
txn_follower stoll body s leader follower =
    let met = conditions_met stoll body s.kvstore in
    (
      executed_follower met s (operations met body) follower,
      executed_response met s (record s { raft_node = leader }) (operations met body),
    )

-- A leader answers a put with success and the index of the new entry whatever happens while it waits: also
-- where the entry is never committed.
pub put_unconditional :
    (meanwhile : EtcdServer → EtcdServer) (key value : Bytes) (lease_id : ℕ) (s : EtcdServer)
    → is_leader s.raft_node ≡ true
    → (put meanwhile key value lease_id s).1
      ≡ set_json
          (codes "{\"header\":{\"revision\":"
            ++ (decimal (add64 (last_index s.raft_node.log) 1) ++ codes "},\"succeeded\":true}"))
          no_response
unfolding put propose
put_unconditional meanwhile key value lease_id s leader = rw leader refl

-- What the second character of a JSON escape stands for.
unfoldable decoded : ℕ → ℕ
decoded c = if c == b'n' then b'\n' else if c == b'r' then b'\r' else if c == b't' then b'\t' else c

-- A reader of JSON strings.
unfoldable pub unescape : Bytes → Bytes
unfolding decoded
unescape [] = []
unescape (c ∷ []) = c ∷ []
unescape (c ∷ d ∷ s) =
    let plain = unescape (d ∷ s) in
    let coded = unescape s in if c == b'\\' then decoded d ∷ coded else c ∷ plain

nothing : unescape [] ≡ []
unfolding unescape
nothing = refl

unescape-plain : (c : ℕ) (s : Bytes) → (c == b'\\') ≡ false → unescape (c ∷ s) ≡ c ∷ unescape s
unfolding unescape
unescape-plain c [] h = refl
unescape-plain c (d ∷ s) h = rw h refl

unescape-coded : (c d : ℕ) (s : Bytes) → decoded d ≡ c → unescape (b'\\' ∷ d ∷ s) ≡ c ∷ unescape s
unfolding unescape
unescape-coded c d s h = ap (λ k. k ∷ unescape s) h

unescape-escape_char : (c : ℕ) (s : Bytes) → unescape (escape_char c ++ s) ≡ c ∷ unescape s
unfolding escape_char decoded
unescape-escape_char c s = elim (Bool-cases (c == b'"')) [
  | inl quote ↦ rw quote (unescape-coded c b'"' s (sym ((==_iff c b'"').0 quote)))
  | inr a ↦ elim (Bool-cases (c == b'\\')) [
    | inl slash ↦ rw (a, slash) (unescape-coded c b'\\' s (sym ((==_iff c b'\\').0 slash)))
    | inr b ↦ elim (Bool-cases (c == b'\n')) [
      | inl newline ↦
          rw (a, b, newline) (unescape-coded c b'n' s (sym ((==_iff c b'\n').0 newline)))
      | inr d ↦ elim (Bool-cases (c == b'\r')) [
        | inl return ↦
            rw (a, b, d, return) (unescape-coded c b'r' s (sym ((==_iff c b'\r').0 return)))
        | inr e ↦ elim (Bool-cases (c == b'\t')) [
          | inl tab ↦ rw (a, b, d, e, tab) (unescape-coded c b't' s (sym ((==_iff c b'\t').0 tab)))
          | inr f ↦ rw (a, b, d, e, f) (unescape-plain c s b)
        ]
      ]
    ]
  ]
]

-- Reading an escaped string as JSON gives the string back.
unescape-escape : (s : Bytes) → unescape (escape s) ≡ s
unfolding escape
unescape-escape [] = nothing
unescape-escape (c ∷ s) = unescape-escape_char c (escape s) ∙ ap (◌∷◌ c) (unescape-escape s)
