-- ===== src/Http/Request.antt =====
-- src/server/http_handler.h: `HttpRequest`; src/main.cpp: `ParseRequest`.
use my_etcd.Base.{
  ℕ, Bool, false, not, ◌&&◌, List, [], ◌∷◌, Option, none, some, ltb, if◌then◌else◌, Bytes,
  bytes_key, str_eq, take, drop, length, ◌>>=◌,
}
use my_etcd.OrdMap.{OrdMap, insert}
use my_etcd.Server.Json.{codes}
use my_etcd.Server.Txn.{split_at}
use my_etcd.Http.Text.{lines_of, chomp, trim, to_lower, read_word, cut, url_decode}

pub record HttpRequest : Type 0 where
  pub method : Bytes
  pub path : Bytes
  pub headers : OrdMap Bytes Bytes
  pub body : Bytes
  pub query_params : OrdMap Bytes Bytes

-- What the program uses of the C++ library, whose code is not in the repository: the numbers at the front of a
-- text, as sign and magnitude, `none` where the function throws; and a hexadecimal number of two characters.
pub record Library : Type 0 where
  pub stoi : Bytes → Option (Bool × ℕ)
  pub stol : Bytes → Option (Bool × ℕ)
  pub stoll : Bytes → Option (Bool × ℕ)
  pub stoull : Bytes → Option ℕ
  pub hex : ℕ → ℕ → Option ℕ

abbrev pub signed_or_zero : Option (Bool × ℕ) → Bool × ℕ
signed_or_zero none = (false, 0)
signed_or_zero (some v) = v

abbrev pub is_positive : Bool × ℕ → Bool
is_positive (negative, magnitude) = not negative && ltb 0 magnitude

abbrev pub separator : Bytes
separator = codes "\r\n\r\n"

abbrev pub add_header : Option (Bytes × Bytes) → OrdMap Bytes Bytes → OrdMap Bytes Bytes
add_header none headers = headers
add_header (some (key, value)) headers = insert key (trim value) headers

-- `while (std::getline(iss, line) && line != "\r" && !line.empty())`
unfoldable pub parse_headers : List Bytes → OrdMap Bytes Bytes → OrdMap Bytes Bytes
unfolding chomp cut trim
parse_headers [] headers = headers
parse_headers (line ∷ lines) headers =
    let more = parse_headers lines (add_header (cut (codes ":") (chomp line)) headers) in
    if str_eq line (codes "\r") then headers else if str_eq line [] then headers else more

-- Behind the first empty line; from the fourth byte on where there is none, which throws on a shorter text.
abbrev pub from_separator : Bytes → Option (Bytes × Bytes) → Option Bytes
from_separator raw none = if ltb (length raw) 3 then none else some (drop 3 raw)
from_separator raw (some (front, rest)) = some (drop 4 rest)

unfoldable pub parse_body : Bytes → Bool × ℕ → Option Bytes
unfolding split_at
parse_body raw len =
    if is_positive len
    then (from_separator raw (split_at separator raw) >>= λ rest. some (take len.1 rest))
    else some []

abbrev pub request_line : List Bytes → Bytes
request_line [] = []
request_line (line ∷ lines) = chomp line

abbrev pub header_lines : List Bytes → List Bytes
header_lines [] = []
header_lines (line ∷ lines) = lines

module _ (lib : Library) where
  abbrev pub add_param : Option (Bytes × Bytes) → OrdMap Bytes Bytes → OrdMap Bytes Bytes
  add_param none params = params
  add_param (some (key, value)) params =
      insert (url_decode lib.hex key) (url_decode lib.hex value) params

  unfoldable pub parse_params : List Bytes → OrdMap Bytes Bytes → OrdMap Bytes Bytes
  unfolding cut url_decode
  parse_params [] params = params
  parse_params (param ∷ more) params = parse_params more (add_param (cut (codes "=") param) params)

  -- The path and the parameters behind it.
  abbrev pub parse_target : Bytes → Option (Bytes × Bytes) → Bytes × OrdMap Bytes Bytes
  parse_target target none = (target, [])
  parse_target target (some (path, query)) = (path, parse_params (lines_of b'&' query) [])

  -- The length of the first header of that name.
  unfoldable pub content_length : OrdMap Bytes Bytes → Bool × ℕ
  unfolding to_lower
  content_length [] = (false, 0)
  content_length ((key, value) ∷ headers) =
      let rest = content_length headers in
      if str_eq (to_lower key) (codes "content-length")
      then signed_or_zero (lib.stoi value)
      else rest

  -- `none` where the parser throws.
  unfoldable pub parse_request : Bytes → Option HttpRequest
  unfolding lines_of chomp read_word cut parse_params parse_headers content_length parse_body
  parse_request raw =
      let (method, rest) = read_word (request_line (lines_of b'\n' raw)) in
      let target = (read_word rest).0 in
      let (path, params) = parse_target target (cut (codes "?") target) in
      let headers = parse_headers (header_lines (lines_of b'\n' raw)) [] in
      parse_body raw (content_length headers) >>= λ body. some (record {
        method = method;
        path = path;
        headers = headers;
        body = body;
        query_params = params;
      })
