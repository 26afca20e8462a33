-- ===== src/Http/Encoding.antt =====
-- The parameters of a request that a client encodes, as src/main.cpp decodes them.
use my_etcd.Base.{
  ℕ, ◌≡◌, ◌<◌, ◌/◌, ◌%◌, refl, ap, ◌∙◌, arith, Bool, true, false, ◌||◌, Bool-cases, inl, inr, List,
  [], ◌∷◌, ◌++◌, All, All-append, All-imp, Option, some, ◌==◌, Bytes, bytes_key,
}
use my_etcd.OrdMap.{OrdMap, insert}
use my_etcd.Server.Json.{codes}
use my_etcd.Http.Text.{plain_char, url_decode, cut, lines_of, is_space}
use my_etcd.Http.Request.{Library, add_param, parse_params}
use my_etcd.Http.Lines.{NoneOf, NoneOf-append, lines_of-append, lines_of-whole, cut-mark}
use my_etcd.Http.Client.{hex_digit, is_unreserved, encode_char, url_encode, param_text, query_text}

-- What the documentation of `std::hex` says of two digits that stand for a byte.
abbrev pub ReadsHex : (ℕ → ℕ → Option ℕ) → Type 0
ReadsHex hex = (c : ℕ) → c < 256 → hex (hex_digit (c / 16)) (hex_digit (c % 16)) ≡ some c

abbrev pub AreBytes : Bytes → Type 0
AreBytes s = All (λ c. c < 256) s

abbrev is_coded : ℕ → Bool
is_coded c = is_unreserved c || c == b'%'

is_coded-hex_digit : (n : ℕ) → n < 16 → is_coded (hex_digit n) ≡ true
is_coded-hex_digit n h = ground arith

encode_char-coded : (c : ℕ) → c < 256 → All (λ d. is_coded d ≡ true) (encode_char c)
unfolding encode_char
encode_char-coded c h = elim (Bool-cases (is_unreserved c)) [
  | inl plain ↦ rw plain (ground (arith, plain), tt)
  | inr coded ↦ rw coded (
    refl,
    (is_coded-hex_digit (c / 16) (omega arith), (is_coded-hex_digit (c % 16) (omega arith), tt)),
  )
]

url_encode-coded : (s : Bytes) → AreBytes s → All (λ d. is_coded d ≡ true) (url_encode s)
unfolding url_encode
url_encode-coded [] h = tt
url_encode-coded (c ∷ s) h =
    All-append _ (encode_char c) (url_encode s) (encode_char-coded c h.0) (url_encode-coded s h.1)

NoneOf-coded :
    (mark : ℕ) (s : Bytes) → is_coded mark ≡ false → All (λ d. is_coded d ≡ true) s → NoneOf mark s
NoneOf-coded mark s h = All-imp _ (λ c. (c == mark) ≡ false) s (λ c k. ground (arith, h, k))

pub url_encode-NoneOf :
    (mark : ℕ) (s : Bytes) → is_coded mark ≡ false → AreBytes s → NoneOf mark (url_encode s)
url_encode-NoneOf mark s h k = NoneOf-coded mark (url_encode s) h (url_encode-coded s k)

abbrev pub ArePairs : List (Bytes × Bytes) → Type 0
ArePairs pairs = All (λ (p : Bytes × Bytes). AreBytes p.0 × AreBytes p.1) pairs

-- What a query consists of.
abbrev is_query : ℕ → Bool
is_query c = is_coded c || (c == b'=' || c == b'&')

is_query-coded : (s : Bytes) → AreBytes s → All (λ d. is_query d ≡ true) (url_encode s)
is_query-coded s h =
    All-imp (λ d. is_coded d ≡ true) (λ d. is_query d ≡ true) (url_encode s)
      (λ d k. ground (arith, k)) (url_encode-coded s h)

is_query-param_text :
    (param : Bytes × Bytes)
    → AreBytes param.0 × AreBytes param.1
    → All (λ d. is_query d ≡ true) (param_text param)
is_query-param_text (name, value) h =
    All-append (λ d. is_query d ≡ true) (url_encode name) (b'=' ∷ url_encode value)
      (is_query-coded name h.0) (refl, is_query-coded value h.1)

is_query-query_text :
    (param : Bytes × Bytes) (params : List (Bytes × Bytes))
    → ArePairs (param ∷ params)
    → All (λ d. is_query d ≡ true) (query_text param params)
unfolding query_text
is_query-query_text param [] h = is_query-param_text param h.0
is_query-query_text param (next ∷ params) h =
    All-append (λ d. is_query d ≡ true) (param_text param) (b'&' ∷ query_text next params)
      (is_query-param_text param h.0) (refl, is_query-query_text next params h.1)

pub query_text-spaceless :
    (param : Bytes × Bytes) (params : List (Bytes × Bytes))
    → ArePairs (param ∷ params)
    → All (λ d. is_space d ≡ false) (query_text param params)
query_text-spaceless param params h =
    All-imp (λ d. is_query d ≡ true) (λ d. is_space d ≡ false) (query_text param params)
      (λ d k. ground (arith, k)) (is_query-query_text param params h)

plain_char-unreserved : (c : ℕ) → is_unreserved c ≡ true → plain_char c ≡ c
plain_char-unreserved c h = ground (arith, h)

module _ (hex : ℕ → ℕ → Option ℕ) where
  url_decode-plain :
      (c : ℕ) (s : Bytes) → is_unreserved c ≡ true → url_decode hex (c ∷ s) ≡ c ∷ url_decode hex s
  unfolding url_decode
  url_decode-plain c [] h = ap (λ d. d ∷ []) (plain_char-unreserved c h)
  url_decode-plain c (a ∷ []) h = ap (λ d. d ∷ plain_char a ∷ []) (plain_char-unreserved c h)
  url_decode-plain c (a ∷ b ∷ s) h =
      let differ : (c == b'%') ≡ false = ground (arith, h) in
      rw differ (ap (λ d. d ∷ url_decode hex (a ∷ b ∷ s)) (plain_char-unreserved c h))

  url_decode-coded :
      (c : ℕ) (s : Bytes)
      → ReadsHex hex
      → c < 256
      → url_decode hex (b'%' ∷ hex_digit (c / 16) ∷ hex_digit (c % 16) ∷ s) ≡ c ∷ url_decode hex s
  unfolding url_decode
  url_decode-coded c s reads h = rw (reads c h)

  url_decode-encode_char :
      (c : ℕ) (s : Bytes)
      → ReadsHex hex
      → c < 256
      → url_decode hex (encode_char c ++ s) ≡ c ∷ url_decode hex s
  unfolding encode_char
  url_decode-encode_char c s reads h = elim (Bool-cases (is_unreserved c)) [
    | inl plain ↦ rw plain (url_decode-plain c s plain)
    | inr coded ↦ rw coded (url_decode-coded c s reads h)
  ]

  url_decode-url_encode :
      (s : Bytes) → ReadsHex hex → AreBytes s → url_decode hex (url_encode s) ≡ s
  unfolding url_encode url_decode
  url_decode-url_encode [] reads h = refl
  url_decode-url_encode (c ∷ s) reads h =
      url_decode-encode_char c (url_encode s) reads h.0
      ∙ ap (◌∷◌ c) (url_decode-url_encode s reads h.1)

-- The pairs one after the other, a later one in place of an earlier one of its name.
abbrev pub insert_all : List (Bytes × Bytes) → OrdMap Bytes Bytes → OrdMap Bytes Bytes
insert_all [] m = m
insert_all ((k, v) ∷ pairs) m = insert_all pairs (insert k v m)

module _ (lib : Library) (reads : ReadsHex lib.hex) where
  parse_param :
      (param : Bytes × Bytes) (m : OrdMap Bytes Bytes)
      → AreBytes param.0 × AreBytes param.1
      → add_param lib (cut (codes "=") (param_text param)) m ≡ insert param.0 param.1 m
  parse_param (k, v) m h =
      ap (λ o. add_param lib o m)
        (cut-mark b'=' (url_encode k) (url_encode v) (url_encode-NoneOf b'=' k refl h.0))
      ∙ ap (λ k'. insert k' (url_decode lib.hex (url_encode v)) m)
          (url_decode-url_encode lib.hex k reads h.0)
      ∙ ap (λ v'. insert k v' m) (url_decode-url_encode lib.hex v reads h.1)

  param_text-NoneOf :
      (mark : ℕ) (param : Bytes × Bytes)
      → is_coded mark ≡ false
      → (b'=' == mark) ≡ false
      → AreBytes param.0 × AreBytes param.1
      → NoneOf mark (param_text param)
  param_text-NoneOf mark (k, v) h e bytes =
      NoneOf-append mark (url_encode k) (b'=' ∷ url_encode v) (url_encode-NoneOf mark k h bytes.0)
        (e, url_encode-NoneOf mark v h bytes.1)

  parse_params-nil : (m : OrdMap Bytes Bytes) → parse_params lib [] m ≡ m
  unfolding parse_params
  parse_params-nil m = refl

  parse_params-cons :
      (param : Bytes) (params : List Bytes) (m : OrdMap Bytes Bytes)
      → parse_params lib (param ∷ params) m
        ≡ parse_params lib params (add_param lib (cut (codes "=") param) m)
  unfolding parse_params
  parse_params-cons param params m = refl

  pub parse_params-query_text :
      (param : Bytes × Bytes) (params : List (Bytes × Bytes)) (m : OrdMap Bytes Bytes)
      → ArePairs (param ∷ params)
      → parse_params lib (lines_of b'&' (query_text param params)) m ≡ insert_all (param ∷ params) m
  unfolding query_text
  parse_params-query_text param [] m h =
      ap (λ lines. parse_params lib lines m)
        (lines_of-whole b'&' b'=' (url_encode param.0) (url_encode param.1)
          (param_text-NoneOf b'&' param refl refl h.0))
      ∙ parse_params-cons (param_text param) [] m
      ∙ ap (parse_params lib []) (parse_param param m h.0)
      ∙ parse_params-nil (insert param.0 param.1 m)
  parse_params-query_text param (next ∷ params) m h =
      ap (λ lines. parse_params lib lines m)
        (lines_of-append b'&' (param_text param) (query_text next params)
          (param_text-NoneOf b'&' param refl refl h.0))
      ∙ parse_params-cons (param_text param) (lines_of b'&' (query_text next params)) m
      ∙ ap (parse_params lib (lines_of b'&' (query_text next params))) (parse_param param m h.0)
      ∙ parse_params-query_text next params (insert param.0 param.1 m) h.1
