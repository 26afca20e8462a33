-- ===== src/Http/Arrival.antt =====
-- A request that arrives in pieces, as src/main.cpp puts it together.
use my_etcd.Base.{
  ℕ, ◌+◌, ◌-◌, ◌≡◌, ◌≤◌, ◌<◌, refl, ap, sym, ◌∙◌, arith, true, false, ◌&&◌, Bool-cases, inl, inr,
  List, [], ◌∷◌, ◌++◌, append_assoc, append-nil, All, Option-cases, some, ltb, is_some, Bytes, take,
  length, length-append, take-append_left, append-length_all,
}
use mathlib.Core.Option.{some-injective}
use my_etcd.Server.Json.{codes}
use my_etcd.Server.Txn.{split_at}
use my_etcd.Http.Text.{lines_of}
use my_etcd.Http.Request.{Library, separator}
use my_etcd.Http.Lines.{NoneOf}
use my_etcd.Http.Search.{split_at-append, split_at-within}
use my_etcd.Http.Connection.{
  max_read, c_string, Incoming, has_separator, read_header, announced_length, read_body, whole_text,
  read_request,
}

abbrev pub concat : List Bytes → Bytes
concat [] = []
concat (chunk ∷ chunks) = chunk ++ concat chunks

c_string-NoneOf : (s : Bytes) → NoneOf 0 s → c_string s ≡ s
unfolding c_string
c_string-NoneOf [] h = refl
c_string-NoneOf (c ∷ s) h = rw h.0 (ap (◌∷◌ c) (c_string-NoneOf s h.1))

-- The text, the bytes counted and the chunks left belong to the whole.
abbrev IsPart : Bytes → Bytes → ℕ → List Bytes → Type 0
IsPart raw text total chunks =
    (text ++ concat chunks ≡ raw) × (total ≡ length text) × All (NoneOf 0) chunks

IsPart-next :
    (raw text chunk : Bytes) (total : ℕ) (chunks : List Bytes)
    → IsPart raw text total (chunk ∷ chunks)
    → IsPart raw (text ++ c_string chunk) (total + length chunk) chunks
IsPart-next raw text chunk total chunks h =
    let same = c_string-NoneOf chunk h.2.0 in
    (
      ap (λ s. (text ++ s) ++ concat chunks) same ∙ append_assoc text chunk (concat chunks) ∙ h.0,
      omega (arith, length-append text (c_string chunk), ap length same, h.1),
      h.2.1,
    )

length-IsPart :
    (raw text : Bytes) (total : ℕ) (chunks : List Bytes)
    → IsPart raw text total chunks
    → total ≤ length raw
length-IsPart raw text total chunks h =
    omega (arith, length-append text (concat chunks), ap length h.0, h.1)

read_header-IsPart :
    (raw text : Bytes) (total : ℕ) (chunks : List Bytes)
    → length raw < max_read
    → has_separator raw ≡ true
    → IsPart raw text total chunks
    → IsPart raw
        (read_header text total chunks).text
        (read_header text total chunks).total_read
        (read_header text total chunks).chunks
      × (has_separator (read_header text total chunks).text ≡ true)
unfolding read_header
read_header-IsPart raw text total [] small found h =
    (h, ap has_separator (sym (append-nil text) ∙ h.0) ∙ found)
read_header-IsPart raw text total (chunk ∷ chunks) small found h =
    let below : ltb total max_read ≡ true =
      ground (arith, length-IsPart raw text total (chunk ∷ chunks) h) in
    let next = IsPart-next raw text chunk total chunks h in
    elim (Bool-cases (has_separator (text ++ c_string chunk))) [
      | inl ended ↦ rw (below, ended) (next, ended)
      | inr on ↦
          rw (below, on)
            (read_header-IsPart raw (text ++ c_string chunk) (total + length chunk) chunks small
              found next)
    ]

module _ (lib : Library) where
  read_body-whole :
      (raw : Bytes) (header_end len : ℕ) (got : Incoming) (chunks : List Bytes)
      → length raw < max_read
      → length raw ≡ header_end + len
      → header_end ≤ length got.text
      → IsPart raw got.text got.total_read chunks
      → (read_body lib header_end len got chunks).text ≡ raw
  unfolding read_body
  read_body-whole raw header_end len got [] small whole inside h = sym (append-nil got.text) ∙ h.0
  read_body-whole raw header_end len got (chunk ∷ chunks) small whole inside h =
      elim (Bool-cases (ltb (length got.text - header_end) len && ltb got.total_read max_read)) [
        | inl more ↦ rw more (
            read_body-whole raw header_end len
              (record {
                text = got.text ++ c_string chunk;
                total_read = got.total_read + length chunk;
                chunks = chunks;
              })
              chunks small whole (omega (arith, length-append got.text (c_string chunk)))
              (IsPart-next raw got.text chunk got.total_read chunks h))
        | inr enough ↦ rw enough (
            append-length_all got.text (concat (chunk ∷ chunks)) raw h.0 (
              ground (arith, enough, length-IsPart raw got.text got.total_read (chunk ∷ chunks) h)))
      ]

  module _ (raw head body : Bytes)
      (separated : split_at separator raw ≡ some (head, separator ++ body))
      (whole : length raw ≡ (length head + 4) + length body)
      (announced : announced_length lib (lines_of b'\n' (take (length head + 4) raw)) ≡ length body)
      (small : length raw < max_read) where
    whole_text-raw :
        (got : Incoming) (front rest : Bytes)
        → IsPart raw got.text got.total_read got.chunks
        → split_at separator got.text ≡ some (front, rest)
        → whole_text lib got (some (front, rest)) ≡ some raw
    whole_text-raw got front rest h e =
        let more = concat got.chunks in
        let here : split_at separator (got.text ++ more) ≡ some (front, rest ++ more) =
          split_at-append b'\r' (codes "\n\r\n") got.text more (front, rest) e in
        let same : front ≡ head =
          ap (λ (p : Bytes × Bytes). p.0)
            (some-injective (front, rest ++ more) (head, separator ++ body)
              (sym here ∙ ap (split_at separator) h.0 ∙ separated)) in
        let inside : length head + 4 ≤ length got.text =
          omega (arith, split_at-within separator got.text front rest e, ap length same) in
        let header : take (length head + 4) got.text ≡ take (length head + 4) raw =
          sym (take-append_left (length head + 4) got.text more inside)
          ∙ ap (take (length head + 4)) h.0 in
        ap (λ f. whole_text lib got (some (f, rest))) same
        ∙ ap
            (λ s.
              some
                (read_body lib (length head + 4) (announced_length lib (lines_of b'\n' s)) got
                  got.chunks).text)
            header
        ∙ ap (λ n. some (read_body lib (length head + 4) n got got.chunks).text) announced
        ∙ ap some (
            read_body-whole raw (length head + 4) (length body) got got.chunks small whole inside h)

    arrived :
        (got : Incoming)
        → IsPart raw got.text got.total_read got.chunks
        → has_separator got.text ≡ true
        → whole_text lib got (split_at separator got.text) ≡ some raw
    arrived got h found = elim (Option-cases (split_at separator got.text)) [
      | inl absent ↦
          let wrong : false ≡ true = sym (ap is_some absent) ∙ found in
          absurd (ground (arith, wrong))
      | inr ((front, rest), here) ↦
          ap (whole_text lib got) here ∙ whole_text-raw got front rest h here
    ]

    pub read_request-raw :
        (chunks : List Bytes)
        → concat chunks ≡ raw
        → All (NoneOf 0) chunks
        → read_request lib chunks ≡ some raw
    unfolding read_request
    read_request-raw chunks e h =
        let got = read_header-IsPart raw [] 0 chunks small (ap is_some separated) (e, refl, h) in
        arrived (read_header [] 0 chunks) got.0 got.1
