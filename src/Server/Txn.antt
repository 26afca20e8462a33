-- ===== src/Server/Txn.antt =====
-- src/server/etcd_server.cpp: `Txn`, which finds its way in the request's text by searching. `stoll` is the
-- library's: the sign and the magnitude of the number at the front of a text, `none` where it throws.
use my_etcd.Base.{
  ℕ, zero, suc, Bool, true, false, not, ◌&&◌, ◌||◌, List, [], ◌∷◌, ◌++◌, Option, none, some, ltb,
  ◌==◌, if◌then◌else◌, length, drop, Bytes, str_eq, has_prefix, ◌>>=◌, get_or_else,
}
use my_etcd.Types.{RaftEntry, KeyValue}
use my_etcd.Raft.Node.{propose}
use my_etcd.Storage.KvStore
use my_etcd.Storage.KvStore.{KvStore}
use my_etcd.Server.Json.{codes, escape, separated, HttpResponse, no_response, set_json}
use my_etcd.Server.{EtcdServer}
use my_etcd.Server.Requests.{put_entry, delete_entry}

-- `find`: what is in front of the first occurrence, and the text from there on.
unfoldable pub split_at : Bytes → Bytes → Option (Bytes × Bytes)
split_at part [] = if has_prefix part [] then some ([], []) else none
split_at part (c ∷ s) =
    let later = split_at part s in
    if has_prefix part (c ∷ s)
    then some ([], c ∷ s)
    else (later >>= λ (front, rest). some (c ∷ front, rest))

abbrev pub text_or_empty : Option Bytes → Bytes
text_or_empty found = get_or_else found []

-- The lambda of that name: the text between the quotes behind `"key":`.
unfoldable pub parse_str : Bytes → Bytes → Bytes
unfolding split_at
parse_str s key =
    let search = codes "\"" ++ (key ++ codes "\":\"") in
    text_or_empty (
      split_at search s >>= λ (front, rest).
      split_at (codes "\"") (drop (length search) rest) >>= λ (value, quote). some value)

abbrev pub closed : Bytes → Bytes → Option (Bytes × Bytes) → Bytes
closed text mark none = text
closed text mark (some (front, rest)) = front ++ mark

-- The text up to the first closing bracket with it, or all of it.
unfoldable pub up_to_bracket : Bytes → Bytes
unfolding split_at
up_to_bracket text = closed text (codes "]") (split_at (codes "]") text)

-- `substr(cmp_start, cmp_end - cmp_start + 1)`, for the array behind `front`. Without a closing bracket the
-- length is 2^64 less `cmp_start`: at the start of the body it wraps to 0, and the section is empty.
unfoldable pub compare_section : Bytes → Bytes → Bytes
unfolding split_at up_to_bracket
compare_section [] rest = elim (split_at (codes "]") rest) [
  | none ↦ []
  | some found ↦ up_to_bracket rest
]
compare_section (c ∷ front) rest = up_to_bracket rest

-- The next object of a section, from a brace to the next closing one, and what is behind it.
unfoldable pub next_object : Bytes → Option (Bytes × Bytes)
unfolding split_at
next_object section = do
  (front, rest) ← split_at (codes "{") section
  (body, behind) ← split_at (codes "}") rest
  some (body ++ codes "}", drop 1 behind)

abbrev pub objects_round : (Bytes → List Bytes) → Option (Bytes × Bytes) → List Bytes
objects_round go_on none = []
objects_round go_on (some (obj, behind)) = obj ∷ go_on behind

-- The objects of a section. Each round goes on behind a brace, so the length of the section is fuel enough.
unfoldable pub objects : ℕ → Bytes → List Bytes
unfolding next_object
objects zero section = []
objects (suc fuel) section = objects_round (objects fuel) (next_object section)

abbrev pub objects_of : Bytes → List Bytes
objects_of section = objects (length section) section

abbrev pub value_or_empty : Option KeyValue → Bytes
value_or_empty none = []
value_or_empty (some kv) = kv.value

abbrev pub version_or_zero : Option KeyValue → ℕ
version_or_zero none = 0
version_or_zero (some kv) = kv.version

-- A text that is no number reads as 0.
abbrev pub is_version : Option (Bool × ℕ) → ℕ → Bool
is_version none current = current == 0
is_version (some (negative, magnitude)) current =
    magnitude == current && (not negative || magnitude == 0)

module _ (stoll : Bytes → Option (Bool × ℕ)) where
  -- Whether a condition of the request holds.
  unfoldable pub is_met : Bytes → KvStore → Bool
  unfolding parse_str
  is_met obj kvs =
      let target = parse_str obj (codes "target") in
      let expected = parse_str obj (codes "value") in
      let kv = KvStore.get (parse_str obj (codes "key")) 0 kvs in
      let negated = str_eq (parse_str obj (codes "op")) (codes "notequal") in
      if str_eq target (codes "value")
      then (let same = str_eq (value_or_empty kv) expected in if negated then not same else same)
      else if str_eq target (codes "version")
      then (let same = is_version (stoll expected) (version_or_zero kv) in
          if negated then not same else same)
      else false

  unfoldable pub all_met : List Bytes → KvStore → Bool
  unfolding is_met
  all_met [] kvs = true
  all_met (obj ∷ objs) kvs = is_met obj kvs && all_met objs kvs

  abbrev pub compared : KvStore → Option (Bytes × Bytes) → Bool
  compared kvs none = true
  compared kvs (some (front, rest)) = all_met (objects_of (compare_section front rest)) kvs

  unfoldable pub conditions_met : Bytes → KvStore → Bool
  unfolding all_met compare_section objects split_at
  conditions_met body kvs = compared kvs (split_at (codes "\"compare\":[") body)

abbrev pub is_put : Bytes → Bool
is_put obj =
    str_eq (parse_str obj (codes "type")) (codes "PUT")
    && ltb 0 (length (parse_str obj (codes "key")))

abbrev pub is_delete : Bytes → Bool
is_delete obj =
    str_eq (parse_str obj (codes "type")) (codes "DELETE")
    && ltb 0 (length (parse_str obj (codes "key")))

abbrev pub proposed : RaftEntry → EtcdServer → EtcdServer
proposed e s = record s { raft_node = (propose e s.raft_node).0 }

-- An operation is proposed, and whether the node takes it is not asked.
unfoldable pub execute : Bytes → EtcdServer → EtcdServer
unfolding parse_str
execute obj s =
    if is_put obj
    then proposed (put_entry (parse_str obj (codes "key")) (parse_str obj (codes "value")) 0) s
    else if is_delete obj
    then proposed (delete_entry (parse_str obj (codes "key"))) s
    else s

unfoldable pub execute_all : List Bytes → EtcdServer → EtcdServer
unfolding execute
execute_all [] s = s
execute_all (obj ∷ objs) s = execute_all objs (execute obj s)

abbrev pub result_of : Bytes → Bytes → Bytes
result_of name obj =
    codes "{\"type\":\""
    ++ (name ++ (codes "\",\"key\":\"" ++ (escape (parse_str obj (codes "key")) ++ codes "\"}")))

unfoldable pub results : List Bytes → List Bytes
unfolding parse_str escape
results [] = []
results (obj ∷ objs) =
    let rest = results objs in
    if is_put obj
    then result_of (codes "PUT") obj ∷ rest
    else if is_delete obj
    then result_of (codes "DELETE") obj ∷ rest
    else rest

abbrev pub succeeded : Bool → Bytes
succeeded met = codes "{\"succeeded\":" ++ (if met then codes "true" else codes "false")

abbrev pub branch : Bool → Bytes
branch met = if met then codes "\"success\":[" else codes "\"failure\":["

-- The operations of the branch, where the request has it: the array goes from the next bracket on.
unfoldable pub operations : Bool → Bytes → Option (List Bytes)
unfolding split_at up_to_bracket objects
operations met body = do
  (front, rest) ← split_at (branch met) body
  (name, array) ← split_at (codes "[") rest
  some (objects_of (up_to_bracket array))

abbrev pub executed : Bool → EtcdServer → Option (List Bytes) → EtcdServer × HttpResponse
executed met s none = (s, set_json (succeeded met ++ codes ",\"results\":[]}") no_response)
executed met s (some objs) = (
  execute_all objs s,
  set_json (succeeded met ++ (codes ",\"results\":[" ++ (separated (results objs) ++ codes "]}")))
      no_response,
)

unfoldable pub txn : (Bytes → Option (Bool × ℕ)) → Bytes → EtcdServer → EtcdServer × HttpResponse
unfolding conditions_met operations execute_all results set_json separated
txn stoll body s =
    let met = conditions_met stoll body s.kvstore in executed met s (operations met body)
