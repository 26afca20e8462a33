-- ===== src/Http/Fields.antt =====
-- The header fields of a request, as the parser of src/main.cpp reads them.
use my_etcd.Base.{
  ℕ, zero, suc, ◌+◌, ◌/◌, ◌%◌, ◌≡◌, ◌<◌, refl, ap, ◌∙◌, arith, true, false, ◌||◌, ◌&&◌, Bool-cases,
  inl, inr, List, [], ◌∷◌, ◌++◌, map, All, some, ltb, leb, ◌==◌, if◌then◌else◌, Bytes, bytes_key,
  str_eq, str_eq_iff, str_lt, length,
}
use my_etcd.OrdMap.{OrdMap, insert}
use my_etcd.Server.Json.{codes, digits, decimal}
use my_etcd.Http.Text.{cut, trim, chomp, to_lower}
use my_etcd.Http.Request.{Library, signed_or_zero, add_header, parse_headers, content_length}
use my_etcd.Http.Lines.{NoneOf, NoneOf-append, IsLine, with_return, chomp-snoc, cut-mark}
use my_etcd.Http.Client.{field_line, length_field}
use my_etcd.Http.Encoding.{insert_all}

-- The text does not begin with a space or a tab.
abbrev pub IsTrimmed : Bytes → Type 0
IsTrimmed [] = Unit
IsTrimmed (c ∷ s) = (c == b' ' || c == b'\t') ≡ false

-- A field on one line, its name without a colon.
abbrev pub IsField : Bytes × Bytes → Type 0
IsField (name, value) = NoneOf b':' name × NoneOf b'\n' name × NoneOf b'\n' value × IsTrimmed value

pub trim-IsTrimmed : (v : Bytes) → IsTrimmed v → trim (b' ' ∷ v) ≡ v
unfolding trim
trim-IsTrimmed [] h = refl
trim-IsTrimmed (c ∷ v) h = rw h

pub IsLine-middle :
    (front back : Bytes) (c : ℕ)
    → NoneOf b'\n' front
    → NoneOf b'\n' (c ∷ back)
    → IsLine (front ++ c ∷ back)
IsLine-middle [] back c h k = k
IsLine-middle (d ∷ front) back c h k = NoneOf-append b'\n' (d ∷ front) (c ∷ back) h k

field_line-IsLine : (field : Bytes × Bytes) → IsField field → IsLine (field_line field)
field_line-IsLine (name, value) h = IsLine-middle name (b' ' ∷ value) b':' h.1 (refl, (refl, h.2))

pub fields-IsLine :
    (fields : List (Bytes × Bytes)) → All IsField fields → All IsLine (map field_line fields)
fields-IsLine [] h = tt
fields-IsLine (field ∷ fields) h = (field_line-IsLine field h.0, fields-IsLine fields h.1)

str_eq-return :
    (front back : Bytes) (c : ℕ)
    → str_eq (with_return (front ++ b':' ∷ c ∷ back)) (codes "\r") ≡ false
unfolding str_eq
str_eq-return [] back c = refl
str_eq-return (d ∷ []) back c = ground arith
str_eq-return (d ∷ e ∷ front) back c = ground arith

str_eq-nil : (front back : Bytes) → str_eq (with_return (front ++ b':' ∷ back)) [] ≡ false
unfolding str_eq
str_eq-nil [] back = refl
str_eq-nil (d ∷ front) back = refl

add_header-field :
    (field : Bytes × Bytes) (m : OrdMap Bytes Bytes)
    → IsField field
    → add_header (cut (codes ":") (chomp (with_return (field_line field)))) m
      ≡ insert field.0 field.1 m
add_header-field (name, value) m h =
    ap (λ line. add_header (cut (codes ":") line) m) (chomp-snoc (field_line (name, value)))
    ∙ ap (λ o. add_header o m) (cut-mark b':' name (b' ' ∷ value) h.0)
    ∙ ap (λ v. insert name v m) (trim-IsTrimmed value h.3)

parse_headers-empty :
    (rest : List Bytes) (m : OrdMap Bytes Bytes) → parse_headers (codes "\r" ∷ rest) m ≡ m
unfolding parse_headers str_eq
parse_headers-empty rest m = refl

pub parse_headers-fields :
    (fields : List (Bytes × Bytes)) (rest : List Bytes) (m : OrdMap Bytes Bytes)
    → All IsField fields
    → parse_headers (map with_return (map field_line fields) ++ codes "\r" ∷ rest) m
      ≡ insert_all fields m
unfolding parse_headers
parse_headers-fields [] rest m h = parse_headers-empty rest m
parse_headers-fields ((name, value) ∷ fields) rest m h =
    rw (str_eq-return name value b' ', str_eq-nil name (b' ' ∷ value))
      (ap (parse_headers (map with_return (map field_line fields) ++ codes "\r" ∷ rest))
          (add_header-field (name, value) m h.0)
        ∙ parse_headers-fields fields rest (insert name value m) h.1)

-- The digits of a length are digits.
abbrev pub AreDigits : Bytes → Type 0
AreDigits s = All (λ c. (leb b'0' c && leb c b'9') ≡ true) s

AreDigits-snoc : (s : Bytes) (d : ℕ) → AreDigits s → d < 10 → AreDigits (s ++ (b'0' + d) ∷ [])
AreDigits-snoc [] d h k = (ground arith, tt)
AreDigits-snoc (c ∷ s) d h k = (h.0, AreDigits-snoc s d h.1 k)

AreDigits-digits : (fuel n : ℕ) → AreDigits (digits fuel n)
unfolding digits
AreDigits-digits zero n = tt
AreDigits-digits (suc fuel) n = elim (Bool-cases (ltb n 10)) [
  | inl small ↦ rw small (AreDigits-snoc [] n tt (ground arith))
  | inr large ↦ rw large (
      AreDigits-snoc (digits fuel (n / 10)) (n % 10) (AreDigits-digits fuel (n / 10)) (omega arith))
]

NoneOf-digits : (s : Bytes) → AreDigits s → NoneOf b'\n' s
NoneOf-digits [] h = tt
NoneOf-digits (c ∷ s) h = (ground (arith, h.0), NoneOf-digits s h.1)

IsTrimmed-digits : (s : Bytes) → AreDigits s → IsTrimmed s
IsTrimmed-digits [] h = tt
IsTrimmed-digits (c ∷ s) h = ground (arith, h.0)

pub length_field-IsField : (body : Bytes) → IsField (length_field body)
length_field-IsField body =
    let are_digits = AreDigits-digits 20 (length body) in
    (
      (
        refl,
        (
          refl,
          (
            refl,
            (
              refl,
              (refl, (refl, (refl, (refl, (refl, (refl, (refl, (refl, (refl, (refl, tt)))))))))),
            ),
          ),
        ),
      ),
      (
        refl,
        (
          refl,
          (
            refl,
            (
              refl,
              (refl, (refl, (refl, (refl, (refl, (refl, (refl, (refl, (refl, (refl, tt)))))))))),
            ),
          ),
        ),
      ),
      NoneOf-digits (decimal (length body)) are_digits,
      IsTrimmed-digits (decimal (length body)) are_digits,
    )

-- The field is not one that announces a length.
abbrev pub IsOther : Bytes × Bytes → Type 0
IsOther (name, value) = str_eq (to_lower name) (codes "content-length") ≡ false

module _ (lib : Library) where
  content_length-insert :
      (name value : Bytes) (m : OrdMap Bytes Bytes)
      → IsOther (name, value)
      → content_length lib (insert name value m) ≡ content_length lib m
  unfolding content_length insert
  content_length-insert name value [] h = rw h
  content_length-insert name value ((key, other) ∷ m) h = elim (Bool-cases (str_eq key name)) [
    | inl same ↦
        let own : str_eq (to_lower key) (codes "content-length") ≡ false =
          ap (λ k. str_eq (to_lower k) (codes "content-length")) ((str_eq_iff key name).0 same)
          ∙ h in
        rw (same, own, h)
    | inr differ ↦ elim (Bool-cases (str_lt name key)) [
      | inl before ↦ rw (differ, before, h)
      | inr behind ↦
          rw (differ, behind)
            (ap
              (λ r.
                if str_eq (to_lower key) (codes "content-length")
                then signed_or_zero (lib.stoi other)
                else r)
              (content_length-insert name value m h))
    ]
  ]

  content_length-alone :
      (value : Bytes)
      → content_length lib (insert (codes "Content-Length") value [])
        ≡ signed_or_zero (lib.stoi value)
  unfolding content_length insert to_lower str_eq
  content_length-alone value = refl

  content_length-insert_all :
      (fields : List (Bytes × Bytes)) (m : OrdMap Bytes Bytes)
      → All IsOther fields
      → content_length lib (insert_all fields m) ≡ content_length lib m
  content_length-insert_all [] m h = refl
  content_length-insert_all ((name, value) ∷ fields) m h =
      content_length-insert_all fields (insert name value m) h.1
      ∙ content_length-insert name value m h.0

  pub content_length-length_field :
      (body : Bytes) (fields : List (Bytes × Bytes))
      → All IsOther fields
      → lib.stoi (decimal (length body)) ≡ some (false, length body)
      → content_length lib (insert_all (length_field body ∷ fields) []) ≡ (false, length body)
  content_length-length_field body fields h e =
      content_length-insert_all fields (insert (codes "Content-Length") (decimal (length body)) [])
        h
      ∙ content_length-alone (decimal (length body))
      ∙ ap signed_or_zero e
