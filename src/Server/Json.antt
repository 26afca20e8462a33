-- ===== src/Server/Json.antt =====
-- src/server/http_handler.h and http_handler.cpp: responses and their JSON.
use Prim.Native.Char.{code}
use Prim.Native.String.{String}
use my_etcd.Base.{
  ℕ, zero, suc, ◌+◌, ◌/◌, ◌%◌, List, [], ◌∷◌, ◌++◌, map, ltb, ◌==◌, if◌then◌else◌, length, Bytes,
  bytes_key,
}
use my_etcd.OrdMap.{OrdMap, insert}
use my_etcd.Types.{KeyValue, WatchEvent, EventType}

-- The bytes of an ASCII text. `String` has its own `[]` and `∷`.
abbrev pub codes : String → Bytes
codes String.[] = []
codes (String.◌∷◌ c s) = code c ∷ codes s

-- The decimal digits that a stream writes: a 64-bit number has at most 20.
unfoldable pub digits : ℕ → ℕ → Bytes
digits zero n = []
digits (suc fuel) n =
    let front = digits fuel (n / 10) in
    if ltb n 10 then (b'0' + n) ∷ [] else front ++ (b'0' + n % 10) ∷ []

abbrev pub decimal : ℕ → Bytes
decimal n = digits 20 n

unfoldable pub escape_char : ℕ → Bytes
escape_char c =
    if c == b'"'
    then b'\\' ∷ b'"' ∷ []
    else if c == b'\\'
    then b'\\' ∷ b'\\' ∷ []
    else if c == b'\n'
    then b'\\' ∷ b'n' ∷ []
    else if c == b'\r'
    then b'\\' ∷ b'r' ∷ []
    else if c == b'\t'
    then b'\\' ∷ b't' ∷ []
    else c ∷ []

unfoldable pub escape : Bytes → Bytes
unfolding escape_char
escape [] = []
escape (c ∷ s) = escape_char c ++ escape s

-- Texts with commas between them.
unfoldable pub separated : List Bytes → Bytes
separated [] = []
separated (x ∷ []) = x
separated (x ∷ y ∷ xs) = x ++ (b',' ∷ separated (y ∷ xs))

abbrev pub member : Bytes × Bytes → Bytes
member (k, v) = codes "\"" ++ (escape k ++ (codes "\":\"" ++ (escape v ++ codes "\"")))

unfoldable pub stringify : OrdMap Bytes Bytes → Bytes
unfolding escape separated
stringify obj = codes "{" ++ (separated (map member obj) ++ codes "}")

unfoldable pub stringify_all : List (OrdMap Bytes Bytes) → Bytes
unfolding stringify
stringify_all arr = codes "[" ++ (separated (map stringify arr) ++ codes "]")

unfoldable pub kv_to_json : KeyValue → Bytes
unfolding digits escape
kv_to_json kv =
    codes "{\"key\":\""
    ++ (escape kv.key
        ++ (codes "\",\"value\":\""
            ++ (escape kv.value
                ++ (codes "\",\"create_revision\":"
                    ++ (decimal kv.create_revision
                        ++ (codes ",\"mod_revision\":"
                            ++ (decimal kv.mod_revision
                                ++ (codes ",\"version\":"
                                    ++ (decimal kv.version
                                        ++ (codes ",\"lease\":"
                                            ++ (decimal kv.lease_id ++ codes "}")))))))))))

unfoldable pub kv_list_to_json : List KeyValue → ℕ → Bytes
unfolding kv_to_json separated
kv_list_to_json kvs count =
    codes "{\"count\":"
    ++ (decimal (if ltb 0 count then count else length kvs)
        ++ (codes ",\"kvs\":[" ++ (separated (map kv_to_json kvs) ++ codes "]}")))

abbrev pub event_name : EventType → Bytes
event_name EventType.put = codes "PUT"
event_name EventType.delete = codes "DELETE"
event_name EventType.conf_change = codes "DELETE"
event_name (EventType.unknown n) = codes "DELETE"

unfoldable pub watch_event_to_json : WatchEvent → Bytes
unfolding kv_to_json
watch_event_to_json ev =
    codes "{\"type\":\""
    ++ (event_name ev.type ++ (codes "\",\"kv\":" ++ (kv_to_json ev.kv ++ codes "}")))

unfoldable pub lease_to_json : ℕ → ℕ → Bytes
unfolding digits
lease_to_json id ttl_ms =
    codes "{\"ID\":"
    ++ (decimal id ++ (codes ",\"TTL\":" ++ (decimal (ttl_ms / 1000) ++ codes "}")))

pub record HttpResponse : Type 0 where
  pub status_code : ℕ
  pub headers : OrdMap Bytes Bytes
  pub body : Bytes

abbrev pub no_response : HttpResponse
no_response = record { status_code = 200; headers = []; body = [] }

unfoldable pub set_json : Bytes → HttpResponse → HttpResponse
set_json json resp = record resp {
  headers = insert (codes "Content-Type") (codes "application/json") resp.headers;
  body = json;
}

unfoldable pub set_error : ℕ → Bytes → HttpResponse → HttpResponse
unfolding escape digits
set_error code message resp = record resp {
  status_code = code;
  headers = insert (codes "Content-Type") (codes "application/json") resp.headers;
  body =
      codes "{\"error\":\""
      ++ (escape message ++ (codes "\",\"code\":" ++ (decimal code ++ codes "}")));
}
