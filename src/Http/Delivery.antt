-- ===== src/Http/Delivery.antt =====
-- A client's request, from the pieces that arrive to what src/main.cpp parses out of it.
use my_etcd.Base.{
  ℕ, ◌+◌, ◌≡◌, ◌<◌, refl, ap, ◌∙◌, arith, false, List, [], ◌∷◌, ◌++◌, map, All, some, Bytes,
  bytes_key, str_eq, take, take_all, take-append_left, length, length-append, ◌>>=◌,
}
use my_etcd.Server.Json.{codes, decimal}
use my_etcd.Http.Text.{lines_of, cut, chomp, trim, to_lower}
use my_etcd.Http.Request.{Library, separator, parse_request}
use my_etcd.Http.Lines.{
  NoneOf, IsWord, with_return, chomp-snoc, cut-mark, cut-absent, crlf_lines, crlf_lines-append,
  lines_of-crlf_lines, head_text,
}
use my_etcd.Http.Client.{target_text, first_request_line, field_line, length_field, request_text}
use my_etcd.Http.Encoding.{ReadsHex, ArePairs, insert_all}
use my_etcd.Http.Fields.{IsField, IsOther, trim-IsTrimmed, length_field-IsField}
use my_etcd.Http.Connection.{max_read, length_or_zero, field_length, announced_length, read_request}
use my_etcd.Http.Search.{split_at-parts}
use my_etcd.Http.Arrival.{concat, read_request-raw}
use my_etcd.Http.RoundTrip.{
  IsPath, first-IsLine, field_lines-IsLine, split_at-raw, parse_request-request_text,
}

module _ (lib : Library) where
  announced_length-cons :
      (line : Bytes) (lines : List Bytes)
      → announced_length lib (line ∷ lines)
        ≡ field_length lib (cut (codes ":") (chomp line)) (announced_length lib lines)
  unfolding announced_length
  announced_length-cons line lines = refl

  announced_length-skip :
      (line : Bytes) (lines : List Bytes)
      → NoneOf b':' line
      → announced_length lib (with_return line ∷ lines) ≡ announced_length lib lines
  announced_length-skip line lines h =
      announced_length-cons (with_return line) lines
      ∙ ap (λ l. field_length lib (cut (codes ":") l) (announced_length lib lines))
          (chomp-snoc line)
      ∙ ap (λ o. field_length lib o (announced_length lib lines)) (cut-absent b':' line h)

  field_length-here :
      (value : Bytes) (later : ℕ)
      → field_length lib (some (codes "Content-Length", value)) later
        ≡ length_or_zero (lib.stol (trim value))
  unfolding to_lower str_eq
  field_length-here value later = refl

  announced_length-field :
      (body : Bytes) (lines : List Bytes)
      → lib.stol (decimal (length body)) ≡ some (false, length body)
      → length body < max_read
      → announced_length lib (with_return (field_line (length_field body)) ∷ lines) ≡ length body
  announced_length-field body lines reads small =
      let field = length_field-IsField body in
      let rest = announced_length lib lines in
      announced_length-cons (with_return (field_line (length_field body))) lines
      ∙ ap (λ l. field_length lib (cut (codes ":") l) rest)
          (chomp-snoc (field_line (length_field body)))
      ∙ ap (λ o. field_length lib o rest)
          (cut-mark b':' (codes "Content-Length") (b' ' ∷ decimal (length body)) field.0)
      ∙ field_length-here (b' ' ∷ decimal (length body)) rest
      ∙ ap (λ s. length_or_zero (lib.stol s)) (trim-IsTrimmed (decimal (length body)) field.3)
      ∙ ap length_or_zero reads
      ∙ ground arith

module _ (lib : Library) (method path : Bytes) (params fields : List (Bytes × Bytes)) (body : Bytes)
    (is_word : IsWord method) (is_path : IsPath path) (are_pairs : ArePairs params)
    (are_fields : All IsField fields) where
  abbrev first : Bytes
  first = first_request_line method (target_text path params)

  abbrev lines : List Bytes
  lines = map field_line (length_field body ∷ fields)

  abbrev header : Bytes
  header = crlf_lines (first ∷ lines) (codes "\r\n")

  abbrev head : Bytes
  head = head_text first lines

  raw-header : request_text method path params fields body ≡ header ++ body
  raw-header = crlf_lines-append (first ∷ lines) (codes "\r\n") body

  length-raw :
      length (request_text method path params fields body) ≡ (length head + 4) + length body
  length-raw =
      let parts =
        split_at-parts separator (request_text method path params fields body) head
          (separator ++ body)
          (split_at-raw lib method path params fields body is_word is_path are_pairs are_fields) in
      omega (arith, length-append head (separator ++ body), ap length parts)

  take-raw : take (length head + 4) (request_text method path params fields body) ≡ header
  take-raw =
      let same : length header ≡ length head + 4 =
        omega (arith, length-raw, length-append header body, ap length raw-header) in
      ap (take (length head + 4)) raw-header
      ∙ take-append_left (length head + 4) header body (omega (arith, same))
      ∙ take_all (length head + 4) header (omega (arith, same))

  module _ (reads_long : lib.stol (decimal (length body)) ≡ some (false, length body))
      (plain : NoneOf b':' first)
      (small : length (request_text method path params fields body) < max_read) where
    announced_length-raw :
        announced_length lib
          (lines_of b'\n' (take (length head + 4) (request_text method path params fields body)))
        ≡ length body
    announced_length-raw =
        let first_line =
          first-IsLine lib method path params fields body is_word is_path are_pairs are_fields in
        let other_lines =
          field_lines-IsLine lib method path params fields body is_word is_path are_pairs
            are_fields in
        ap (λ s. announced_length lib (lines_of b'\n' s)) take-raw
        ∙ ap (announced_length lib)
            (lines_of-crlf_lines (first ∷ lines) (codes "\r\n") (first_line, other_lines))
        ∙ announced_length-skip lib first _ plain
        ∙ announced_length-field lib body _ reads_long (omega (arith, length-raw, small))

    module _ (reads : ReadsHex lib.hex) (others : All IsOther fields)
        (reads_length : lib.stoi (decimal (length body)) ≡ some (false, length body)) where
      -- A request that a client has written is received as it was sent, however its text is cut into chunks: with a
      -- method and a path without spaces, encoded parameters, a `Content-Length` and other fields of one line each, and
      -- a body, all in less than 65536 bytes, no byte zero and no colon in the first line, the parser gets just these;
      -- if `std::hex` reads the two digits of a byte, and `stol` and `stoi` the digits of the body's length.
      pub read_request-request_text :
          (chunks : List Bytes)
          → concat chunks ≡ request_text method path params fields body
          → All (NoneOf 0) chunks
          → (read_request lib chunks >>= parse_request lib)
            ≡ some (record {
              method = method;
              path = path;
              headers = insert_all (length_field body ∷ fields) [];
              body = body;
              query_params = insert_all params [];
            })
      read_request-request_text chunks e h =
          ap (λ o. o >>= parse_request lib)
            (read_request-raw lib (request_text method path params fields body) head body
              (split_at-raw lib method path params fields body is_word is_path are_pairs are_fields)
              length-raw announced_length-raw small chunks e h)
          ∙ parse_request-request_text lib method path params fields body is_word is_path are_pairs
              are_fields reads others reads_length
