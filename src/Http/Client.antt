-- ===== src/Http/Client.antt =====
-- The text of a request, as a client of src/main.cpp writes it: the parser is compared with it.
use my_etcd.Base.{
  ℕ, ◌+◌, ◌-◌, ◌/◌, ◌%◌, Bool, ◌||◌, ◌&&◌, List, [], ◌∷◌, ◌++◌, map, ltb, leb, ◌==◌, if◌then◌else◌,
  Bytes, length,
}
use my_etcd.Server.Json.{codes, decimal}
use my_etcd.Http.Lines.{crlf_lines}

abbrev pub hex_digit : ℕ → ℕ
hex_digit n = if ltb n 10 then b'0' + n else b'A' + (n - 10)

abbrev pub is_unreserved : ℕ → Bool
is_unreserved c =
    (leb b'a' c && leb c b'z')
    || ((leb b'A' c && leb c b'Z')
        || ((leb b'0' c && leb c b'9') || (c == b'-' || (c == b'.' || c == b'_'))))

unfoldable pub encode_char : ℕ → Bytes
encode_char c =
    if is_unreserved c then c ∷ [] else b'%' ∷ hex_digit (c / 16) ∷ hex_digit (c % 16) ∷ []

unfoldable pub url_encode : Bytes → Bytes
unfolding encode_char
url_encode [] = []
url_encode (c ∷ s) = encode_char c ++ url_encode s

abbrev pub param_text : Bytes × Bytes → Bytes
param_text (name, value) = url_encode name ++ b'=' ∷ url_encode value

unfoldable pub query_text : Bytes × Bytes → List (Bytes × Bytes) → Bytes
unfolding url_encode
query_text param [] = param_text param
query_text param (next ∷ params) = param_text param ++ b'&' ∷ query_text next params

abbrev pub target_text : Bytes → List (Bytes × Bytes) → Bytes
target_text path [] = path
target_text path (param ∷ params) = path ++ b'?' ∷ query_text param params

abbrev pub field_line : Bytes × Bytes → Bytes
field_line (name, value) = name ++ b':' ∷ b' ' ∷ value

abbrev pub first_request_line : Bytes → Bytes → Bytes
first_request_line method target = method ++ b' ' ∷ (target ++ b' ' ∷ codes "HTTP/1.1")

abbrev pub length_field : Bytes → Bytes × Bytes
length_field body = (codes "Content-Length", decimal (length body))

abbrev pub request_text :
    Bytes → Bytes → List (Bytes × Bytes) → List (Bytes × Bytes) → Bytes → Bytes
request_text method path params fields body =
    crlf_lines
      (first_request_line method (target_text path params)
        ∷ map field_line (length_field body ∷ fields))
      (b'\r' ∷ b'\n' ∷ body)
