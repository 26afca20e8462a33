-- ===== src/Http/Bounds.antt =====
-- How much of a request src/main.cpp reads.
use my_etcd.Base.{
  ℕ, ◌+◌, ◌-◌, ◌≡◌, ◌≤◌, ◌<◌, refl, sym, subst, arith, Bool, ◌&&◌, Bool-cases, inl, inr, List, [],
  ◌∷◌, ◌++◌, All, Option, none, some, ltb, Bytes, take, drop, length, length-append, length-take,
  length-drop, ◌>>=◌,
}
use mathlib.Core.Option.{some-injective}
use my_etcd.Server.Txn.{split_at}
use my_etcd.Server.Sections.{IsFound, IsFound-split_at}
use my_etcd.Http.Text.{lines_of}
use my_etcd.Http.Request.{
  HttpRequest, Library, is_positive, from_separator, separator, parse_headers, header_lines,
  parse_body, content_length, parse_request,
}
use my_etcd.Http.Connection.{
  max_read, c_string, Incoming, has_separator, read_header, read_body, announced_length, whole_text,
  read_request,
}

-- The size of the buffer of one `recv`, without the zero behind it.
abbrev pub max_chunk : ℕ
max_chunk = 4095

abbrev pub IsChunk : Bytes → Type 0
IsChunk chunk = length chunk ≤ max_chunk

length-c_string : (s : Bytes) → length (c_string s) ≤ length s
unfolding c_string
length-c_string [] = omega arith
length-c_string (c ∷ s) = ground (arith, length-c_string s)

-- The text is not longer than the bytes read, and these pass the limit by less than a chunk.
abbrev IsBounded : Bytes → ℕ → Type 0
IsBounded text total = (length text ≤ total) × (total < max_read + max_chunk)

IsBounded-more :
    (text chunk : Bytes) (total : ℕ)
    → IsBounded text total
    → IsChunk chunk
    → total < max_read
    → IsBounded (text ++ c_string chunk) (total + length chunk)
IsBounded-more text chunk total h small below =
    (omega (arith, length-append text (c_string chunk), length-c_string chunk), omega arith)

-- What is left of the chunks is small as well.
abbrev IsIncoming : Incoming → Type 0
IsIncoming got = IsBounded got.text got.total_read × All IsChunk got.chunks

IsIncoming-read_header :
    (text : Bytes) (total : ℕ) (chunks : List Bytes)
    → IsBounded text total
    → All IsChunk chunks
    → IsIncoming (read_header text total chunks)
unfolding read_header
IsIncoming-read_header text total [] h small = (h, small)
IsIncoming-read_header text total (chunk ∷ chunks) h small =
    elim (Bool-cases (ltb total max_read)) [
      | inr enough ↦ rw enough (h, small)
      | inl below ↦
          let more = IsBounded-more text chunk total h small.0 (ground (arith, below)) in
          elim (Bool-cases (has_separator (text ++ c_string chunk))) [
            | inl ended ↦ rw (below, ended) (more, small.1)
            | inr on ↦
                rw (below, on)
                  (IsIncoming-read_header (text ++ c_string chunk) (total + length chunk) chunks
                    more small.1)
          ]
    ]

length-from_separator :
    (raw : Bytes) (found : Option (Bytes × Bytes)) (rest : Bytes)
    → IsFound separator raw found
    → from_separator raw found ≡ some rest
    → length rest ≤ length raw
length-from_separator raw none rest h e = elim (Bool-cases (ltb (length raw) 3)) [
  | inl short ↦ let wrong : none ≡ some rest = rw short at e in absurd cc
  | inr long ↦
      let tail : some (drop 3 raw) ≡ some rest = rw long at e in
      subst (λ (r : Bytes). length r ≤ length raw) (some-injective (drop 3 raw) rest tail)
        (omega (arith, length-drop 3 raw))
]
length-from_separator raw (some (front, behind)) rest h e =
    subst (λ (r : Bytes). length r ≤ length raw) (some-injective (drop 4 behind) rest e)
      (omega (arith, length-drop 4 behind))

length-taken :
    (raw : Bytes) (found : Option Bytes) (n : ℕ) (body : Bytes)
    → ((rest : Bytes) → found ≡ some rest → length rest ≤ length raw)
    → (found >>= λ rest. some (take n rest)) ≡ some body
    → length body ≤ length raw
length-taken raw none n body h e = absurd cc
length-taken raw (some rest) n body h e =
    subst (λ (b : Bytes). length b ≤ length raw) (some-injective (take n rest) body e)
      (omega (arith, length-take n rest, h rest refl))

length-parse_body :
    (raw : Bytes) (len : Bool × ℕ) (body : Bytes)
    → parse_body raw len ≡ some body
    → length body ≤ length raw
unfolding parse_body
length-parse_body raw len body e = elim (Bool-cases (is_positive len)) [
  | inl positive ↦
      length-taken raw (from_separator raw (split_at separator raw)) len.1 body
        (λ rest.
          length-from_separator raw (split_at separator raw) rest (IsFound-split_at separator raw))
        (rw positive at e)
  | inr unset ↦
      subst (λ (b : Bytes). length b ≤ length raw) (some-injective [] body (rw unset at e))
        (omega arith)
]

length-body :
    (raw : Bytes) (found : Option Bytes) (f : Bytes → HttpRequest) (req : HttpRequest)
    → ((body : Bytes) → (f body).body ≡ body)
    → ((body : Bytes) → found ≡ some body → length body ≤ length raw)
    → (found >>= λ body. some (f body)) ≡ some req
    → length req.body ≤ length raw
length-body raw none f req kept h e = absurd cc
length-body raw (some body) f req kept h e =
    subst (λ (r : HttpRequest). length r.body ≤ length raw) (some-injective (f body) req e)
      (subst (λ (b : Bytes). length b ≤ length raw) (sym (kept body)) (h body refl))

module _ (lib : Library) where
  IsBounded-read_body :
      (header_end len : ℕ) (got : Incoming) (chunks : List Bytes)
      → IsBounded got.text got.total_read
      → All IsChunk chunks
      → IsBounded
          (read_body lib header_end len got chunks).text
          (read_body lib header_end len got chunks).total_read
  unfolding read_body
  IsBounded-read_body header_end len got [] h small = h
  IsBounded-read_body header_end len got (chunk ∷ chunks) h small =
      elim (Bool-cases (ltb (length got.text - header_end) len && ltb got.total_read max_read)) [
        | inr enough ↦ rw enough h
        | inl below ↦ rw below (
            IsBounded-read_body header_end len
              (record {
                text = got.text ++ c_string chunk;
                total_read = got.total_read + length chunk;
                chunks = chunks;
              })
              chunks
              (IsBounded-more got.text chunk got.total_read h small.0 (ground (arith, below)))
              small.1)
      ]

  length-whole_text :
      (got : Incoming) (found : Option (Bytes × Bytes)) (text : Bytes)
      → IsIncoming got
      → whole_text lib got found ≡ some text
      → length text < max_read + max_chunk
  length-whole_text got none text h e = absurd cc
  length-whole_text got (some (front, rest)) text h e =
      subst (λ (t : Bytes). length t < max_read + max_chunk) (some-injective _ text e)
        (ground (
          arith,
          IsBounded-read_body (length front + 4)
              (announced_length lib (lines_of b'\n' (take (length front + 4) got.text))) got
              got.chunks h.0 h.1,
        ))

  length-parse_request :
      (raw : Bytes) (req : HttpRequest)
      → parse_request lib raw ≡ some req
      → length req.body ≤ length raw
  unfolding parse_request
  length-parse_request raw req e =
      let len = content_length lib (parse_headers (header_lines (lines_of b'\n' raw)) []) in
      length-body raw (parse_body raw len) _ req (λ body. refl) (length-parse_body raw len) e

  -- However the bytes of a request come in, in chunks of at most 4095 bytes, a parsed request's text, and so its
  -- body, is shorter than 69631 bytes.
  pub read_request-bounded :
      (chunks : List Bytes) (text : Bytes) (req : HttpRequest)
      → All IsChunk chunks
      → read_request lib chunks ≡ some text
      → parse_request lib text ≡ some req
      → (length req.body ≤ length text) × (length text < 69631)
  unfolding read_request
  read_request-bounded chunks text req small e parsed = (
    length-parse_request text req parsed,
    length-whole_text (read_header [] 0 chunks) (split_at separator (read_header [] 0 chunks).text)
        text (IsIncoming-read_header [] 0 chunks (omega arith, omega arith) small) e,
  )
