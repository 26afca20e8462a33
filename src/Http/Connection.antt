-- ===== src/Http/Connection.antt =====
-- src/main.cpp: `HandleClientImpl`. What the calls of `recv` give is a list of chunks, each of 1 to 4095 bytes; the
-- client closes behind the last one. Writes to the socket succeed.
use my_etcd.Base.{
  ℕ, ◌+◌, ◌-◌, ◌*◌, Bool, ◌&&◌, ◌||◌, List, [], ◌∷◌, ◌++◌, Option, none, some, ltb, ◌==◌,
  if◌then◌else◌, Bytes, bytes_key, str_eq, take, length, ◌>>=◌, is_some,
}
use my_etcd.Server.Json.{codes}
use my_etcd.Server.{EtcdServer}
use my_etcd.Server.Txn.{split_at}
use my_etcd.Server.Requests.{Reply}
use my_etcd.Http.Text.{lines_of, chomp, trim, to_lower, cut}
use my_etcd.Http.Request.{Library, HttpRequest, separator, parse_request}
use my_etcd.Http.Routes.{handle_request}
use my_etcd.Http.Response.{build_response}

abbrev pub max_read : ℕ
max_read = 4096 * 16

-- `request_str += buffer` of a buffer that ends with a zero.
unfoldable pub c_string : Bytes → Bytes
c_string [] = []
c_string (c ∷ s) = let rest = c_string s in if c == 0 then [] else c ∷ rest

-- The text read, the number of bytes read, and the chunks that are left.
pub record Incoming : Type 0 where
  pub text : Bytes
  pub total_read : ℕ
  pub chunks : List Bytes

abbrev pub has_separator : Bytes → Bool
has_separator text = is_some (split_at separator text)

unfoldable pub read_header : Bytes → ℕ → List Bytes → Incoming
unfolding c_string split_at
read_header text total [] = record { text = text; total_read = total; chunks = [] }
read_header text total (chunk ∷ chunks) =
    let text' = text ++ c_string chunk in
    let total' = total + length chunk in
    let more = read_header text' total' chunks in
    if ltb total max_read
    then if has_separator text'
      then record { text = text'; total_read = total'; chunks = chunks }
      else more
    else record { text = text; total_read = total; chunks = chunk ∷ chunks }

abbrev pub max_content : ℕ
max_content = 64 * 1024 * 1024

abbrev pub length_or_zero : Option (Bool × ℕ) → ℕ
length_or_zero none = 0
length_or_zero (some (negative, magnitude)) =
    if (negative && ltb 0 magnitude) || ltb max_content magnitude then 0 else magnitude

abbrev pub answered : Reply → EtcdServer × Option Bytes
answered (s, resp) = (s, some (build_response resp))

abbrev pub respond :
    (HttpRequest → EtcdServer → Option Reply)
    → EtcdServer
    → Option HttpRequest
    → Option (EtcdServer × Option Bytes)
respond handler s none = some (s, none)
respond handler s (some req) = handler req s >>= λ reply. some (answered reply)

module _ (lib : Library) where
  abbrev pub field_length : Option (Bytes × Bytes) → ℕ → ℕ
  field_length none later = later
  field_length (some (key, value)) later =
      if str_eq (to_lower key) (codes "content-length")
      then length_or_zero (lib.stol (trim value))
      else later

  -- The length of the first header of that name.
  unfoldable pub announced_length : List Bytes → ℕ
  unfolding chomp cut to_lower trim
  announced_length [] = 0
  announced_length (line ∷ lines) =
      field_length (cut (codes ":") (chomp line)) (announced_length lines)

  unfoldable pub read_body : ℕ → ℕ → Incoming → List Bytes → Incoming
  unfolding c_string
  read_body header_end len got [] = record got { chunks = [] }
  read_body header_end len got (chunk ∷ chunks) =
      let more =
        read_body header_end len
          (record {
            text = got.text ++ c_string chunk;
            total_read = got.total_read + length chunk;
            chunks = chunks;
          })
          chunks in
      if ltb (length got.text - header_end) len && ltb got.total_read max_read then more else got

  -- The text that is parsed, `none` where the header does not end.
  abbrev pub whole_text : Incoming → Option (Bytes × Bytes) → Option Bytes
  whole_text got none = none
  whole_text got (some (front, rest)) =
      let header_end = length front + 4 in
      let len = announced_length (lines_of b'\n' (take header_end got.text)) in
      some (read_body header_end len got got.chunks).text

  unfoldable pub read_request : List Bytes → Option Bytes
  unfolding read_header announced_length read_body split_at lines_of
  read_request chunks =
      let got = read_header [] 0 chunks in whole_text got (split_at separator got.text)

  -- The server's state and the bytes sent back; no bytes where the header does not end or the parser throws.
  -- `none` as in `handle_request`.
  unfoldable pub handle_client :
      Bytes
      → ℕ
      → (EtcdServer → EtcdServer)
      → Bytes
      → List Bytes
      → EtcdServer
      → Option (EtcdServer × Option Bytes)
  unfolding read_request parse_request handle_request build_response
  handle_client name now meanwhile auth_token chunks s =
      respond (handle_request lib name now meanwhile auth_token) s
        (read_request chunks >>= parse_request lib)
