-- ===== src/Http/RoundTrip.antt =====
-- What src/main.cpp parses out of a request that a client has written.
use my_etcd.Base.{
  ℕ, suc, ◌≡◌, refl, ap, ◌∙◌, arith, true, false, List, [], ◌∷◌, ◌++◌, map, All, All-append,
  All-imp, take, take_all, Option, some, ◌==◌, Bytes, bytes_key, length, ◌>>=◌,
}
use my_etcd.OrdMap.{OrdMap}
use my_etcd.Server.Json.{codes, decimal}
use my_etcd.Server.Txn.{split_at}
use my_etcd.Http.Text.{cut, lines_of, read_word, is_space}
use my_etcd.Http.Request.{
  HttpRequest, Library, separator, parse_target, parse_headers, header_lines, request_line,
  is_positive, from_separator, parse_body, parse_request, content_length,
}
use my_etcd.Http.Lines.{
  NoneOf, NoneOf-append, IsWord, IsLine, with_return, chomp-snoc, cut-mark, cut-absent,
  read_word-append, read_word-space, lines_of-append, lines_of-crlf_lines, head_text,
  split_at-crlf_lines,
}
use my_etcd.Http.Client.{
  target_text, query_text, first_request_line, field_line, length_field, request_text,
}
use my_etcd.Http.Encoding.{
  ReadsHex, ArePairs, insert_all, parse_params-query_text, query_text-spaceless,
}
use my_etcd.Http.Fields.{
  IsField, IsOther, IsLine-middle, fields-IsLine, length_field-IsField, parse_headers-fields,
  content_length-length_field,
}

-- A path without spaces and question marks.
abbrev pub IsPath : Bytes → Type 0
IsPath path = IsWord path × NoneOf b'?' path

IsWord-append : (s t : Bytes) → IsWord s → All (λ d. is_space d ≡ false) t → IsWord (s ++ t)
IsWord-append [] t h k = absurd h
IsWord-append (c ∷ s) t h k = All-append (λ d. is_space d ≡ false) (c ∷ s) t h k

NoneOf-spaceless :
    (mark : ℕ) (s : Bytes) → is_space mark ≡ true → All (λ d. is_space d ≡ false) s → NoneOf mark s
NoneOf-spaceless mark s h =
    All-imp (λ d. is_space d ≡ false) (λ c. (c == mark) ≡ false) s (λ c k. ground (arith, h, k))

target_text-IsWord :
    (path : Bytes) (params : List (Bytes × Bytes))
    → IsPath path
    → ArePairs params
    → IsWord (target_text path params)
target_text-IsWord path [] h k = h.0
target_text-IsWord path (param ∷ params) h k =
    IsWord-append path (b'?' ∷ query_text param params) h.0
      (refl, query_text-spaceless param params k)

module _ (lib : Library) (reads : ReadsHex lib.hex) where
  parse_target-target_text :
      (path : Bytes) (params : List (Bytes × Bytes))
      → IsPath path
      → ArePairs params
      → parse_target lib (target_text path params) (cut (codes "?") (target_text path params))
        ≡ (path, insert_all params [])
  parse_target-target_text path [] h k = ap (parse_target lib path) (cut-absent b'?' path h.1)
  parse_target-target_text path (param ∷ params) h k =
      ap (parse_target lib (target_text path (param ∷ params)))
        (cut-mark b'?' path (query_text param params) h.1)
      ∙ ap (λ m. (path, m)) (parse_params-query_text lib reads param params [] k)

parse_body-separator :
    (raw front body : Bytes)
    → split_at separator raw ≡ some (front, separator ++ body)
    → parse_body raw (false, length body) ≡ some body
unfolding parse_body
parse_body-separator raw front [] e = refl
parse_body-separator raw front (c ∷ body) e =
    let positive : is_positive (false, suc (length body)) ≡ true = ground arith in
    rw positive (
      ap (λ found. from_separator raw found >>= λ rest. some (take (suc (length body)) rest)) e
      ∙ ap some (take_all (suc (length body)) (c ∷ body) (omega arith)))

module _ (lib : Library) where
  -- The parser's steps, each from what those before it gave.
  abbrev of_body :
      Bytes → Bytes × OrdMap Bytes Bytes → OrdMap Bytes Bytes → Option Bytes → Option HttpRequest
  of_body method (path, params) headers body = body >>= λ body. some (record {
    method = method;
    path = path;
    headers = headers;
    body = body;
    query_params = params;
  })

  abbrev of_target : Bytes → Bytes → Bytes → OrdMap Bytes Bytes → Option HttpRequest
  of_target raw method target headers =
      of_body method (parse_target lib target (cut (codes "?") target)) headers
        (parse_body raw (content_length lib headers))

  abbrev of_method : Bytes → Bytes × Bytes → OrdMap Bytes Bytes → Option HttpRequest
  of_method raw read headers = of_target raw read.0 (read_word read.1).0 headers

  abbrev of_lines : Bytes → List Bytes → Option HttpRequest
  of_lines raw lines =
      of_method raw (read_word (request_line lines)) (parse_headers (header_lines lines) [])

  parse_request-steps : (raw : Bytes) → parse_request lib raw ≡ of_lines raw (lines_of b'\n' raw)
  unfolding parse_request
  parse_request-steps raw = refl

IsWord-spaceless : (s : Bytes) → IsWord s → All (λ d. is_space d ≡ false) s
IsWord-spaceless [] h = absurd h
IsWord-spaceless (c ∷ s) h = h

first_request_line-IsLine :
    (method target : Bytes)
    → IsWord method
    → IsWord target
    → IsLine (first_request_line method target)
first_request_line-IsLine method target h k =
    IsLine-middle method (target ++ b' ' ∷ codes "HTTP/1.1") b' '
      (NoneOf-spaceless b'\n' method refl (IsWord-spaceless method h))
      (
        refl,
        NoneOf-append b'\n' target (codes " HTTP/1.1")
            (NoneOf-spaceless b'\n' target refl (IsWord-spaceless target k))
            (refl, (refl, (refl, (refl, (refl, (refl, (refl, (refl, (refl, tt))))))))),
      )

read_word-first :
    (method target : Bytes)
    → IsWord method
    → read_word (first_request_line method target)
      ≡ (method, b' ' ∷ (target ++ b' ' ∷ codes "HTTP/1.1"))
read_word-first method target h = read_word-append method (target ++ b' ' ∷ codes "HTTP/1.1") h

module _ (lib : Library) (method path : Bytes) (params fields : List (Bytes × Bytes)) (body : Bytes)
    (is_word : IsWord method) (is_path : IsPath path) (are_pairs : ArePairs params)
    (are_fields : All IsField fields) where
  abbrev pub raw : Bytes
  raw = request_text method path params fields body

  abbrev pub first : Bytes
  first = first_request_line method (target_text path params)

  abbrev pub all_fields : List (Bytes × Bytes)
  all_fields = length_field body ∷ fields

  pub first-IsLine : IsLine first
  first-IsLine =
      first_request_line-IsLine method (target_text path params) is_word
        (target_text-IsWord path params is_path are_pairs)

  pub field_lines-IsLine : All IsLine (map field_line all_fields)
  field_lines-IsLine = fields-IsLine all_fields (length_field-IsField body, are_fields)

  lines_of-raw :
      lines_of b'\n' raw
      ≡ with_return first
        ∷ (map with_return (map field_line all_fields) ++ codes "\r" ∷ lines_of b'\n' body)
  lines_of-raw =
      lines_of-crlf_lines (first ∷ map field_line all_fields) (b'\r' ∷ b'\n' ∷ body)
        (first-IsLine, field_lines-IsLine)
      ∙ ap (λ rest. with_return first ∷ (map with_return (map field_line all_fields) ++ rest))
          (lines_of-append b'\n' (codes "\r") body (refl, tt))

  pub split_at-raw :
      split_at separator raw ≡ some (head_text first (map field_line all_fields), separator ++ body)
  split_at-raw =
      split_at-crlf_lines first (map field_line all_fields) body first-IsLine field_lines-IsLine

  body-raw : parse_body raw (false, length body) ≡ some body
  body-raw =
      parse_body-separator raw (head_text first (map field_line all_fields)) body split_at-raw

  module _ (reads : ReadsHex lib.hex) (others : All IsOther fields)
      (reads_length : lib.stoi (decimal (length body)) ≡ some (false, length body)) where
    -- A request that a client has written, with a method and a path without spaces, encoded parameters, a
    -- `Content-Length` and other fields of one line each, and a body, is parsed into just these, if `std::hex` reads
    -- the two digits of a byte and `stoi` the digits of the body's length.
    pub parse_request-request_text :
        parse_request lib raw
        ≡ some (record {
          method = method;
          path = path;
          headers = insert_all all_fields [];
          body = body;
          query_params = insert_all params [];
        })
    parse_request-request_text =
        let headers =
          parse_headers
            (map with_return (map field_line all_fields) ++ codes "\r" ∷ lines_of b'\n' body) [] in
        parse_request-steps lib raw
        ∙ ap (of_lines lib raw) lines_of-raw
        ∙ ap (λ line. of_method lib raw (read_word line) headers) (chomp-snoc first)
        ∙ ap (λ read. of_method lib raw read headers)
            (read_word-first method (target_text path params) is_word)
        ∙ ap (λ (read : Bytes × Bytes). of_target lib raw method read.0 headers)
            (read_word-space (target_text path params ++ b' ' ∷ codes "HTTP/1.1")
              ∙ read_word-append (target_text path params) (codes "HTTP/1.1")
                  (target_text-IsWord path params is_path are_pairs))
        ∙ ap (of_target lib raw method (target_text path params)) (
            parse_headers-fields all_fields (lines_of b'\n' body) []
              (length_field-IsField body, are_fields))
        ∙ ap
            (λ target.
              of_body lib method target (insert_all all_fields [])
                (parse_body raw (content_length lib (insert_all all_fields []))))
            (parse_target-target_text lib reads path params is_path are_pairs)
        ∙ ap
            (λ len.
              of_body lib method (path, insert_all params []) (insert_all all_fields [])
                (parse_body raw len))
            (content_length-length_field lib body fields others reads_length)
        ∙ ap (of_body lib method (path, insert_all params []) (insert_all all_fields [])) body-raw
