-- ===== src/Http/Lines.antt =====
-- How the parser of src/main.cpp takes a text apart at marks that its parts do not hold.
use my_etcd.Base.{
  ℕ, ◌≡◌, refl, ap, sym, ◌∙◌, arith, false, List, [], ◌∷◌, ◌++◌, All, All-append, append_assoc,
  append-nil, map, Option, none, some, ◌==◌, Bytes, has_prefix, ◌>>=◌,
}
use my_etcd.Server.Txn.{split_at}
use my_etcd.Http.Text.{
  first_line, lines_of, chomp, is_space, skip_space, until_space, read_word, around, cut,
}
use my_etcd.Http.Request.{separator}

-- None of the characters is that one.
abbrev pub NoneOf : ℕ → Bytes → Type 0
NoneOf mark s = All (λ c. (c == mark) ≡ false) s

pub NoneOf-append : (mark : ℕ) (s t : Bytes) → NoneOf mark s → NoneOf mark t → NoneOf mark (s ++ t)
NoneOf-append mark = All-append (λ c. (c == mark) ≡ false)

pub lines_of-append :
    (mark : ℕ) (line rest : Bytes)
    → NoneOf mark line
    → lines_of mark (line ++ mark ∷ rest) ≡ line ∷ lines_of mark rest
unfolding lines_of
lines_of-append mark [] rest h = ground arith
lines_of-append mark (c ∷ line) rest h =
    rw h.0 (ap (first_line c) (lines_of-append mark line rest h.1))

pub lines_of-last :
    (mark c : ℕ) (line : Bytes)
    → NoneOf mark (c ∷ line)
    → lines_of mark (c ∷ line) ≡ (c ∷ line) ∷ []
unfolding lines_of
lines_of-last mark c [] h = rw h.0
lines_of-last mark c (d ∷ line) h = rw h.0 (ap (first_line c) (lines_of-last mark d line h.1))

pub lines_of-whole :
    (mark c : ℕ) (front back : Bytes)
    → NoneOf mark (front ++ c ∷ back)
    → lines_of mark (front ++ c ∷ back) ≡ (front ++ c ∷ back) ∷ []
lines_of-whole mark c [] back h = lines_of-last mark c back h
lines_of-whole mark c (d ∷ front) back h = lines_of-last mark d (front ++ c ∷ back) h

pub chomp-snoc : (line : Bytes) → chomp (line ++ b'\r' ∷ []) ≡ line
unfolding chomp
chomp-snoc [] = refl
chomp-snoc (c ∷ []) = refl
chomp-snoc (c ∷ d ∷ line) = ap (◌∷◌ c) (chomp-snoc (d ∷ line))

split_at-mark :
    (mark : ℕ) (front rest : Bytes)
    → NoneOf mark front
    → split_at (mark ∷ []) (front ++ mark ∷ rest) ≡ some (front, mark ∷ rest)
unfolding split_at has_prefix
split_at-mark mark [] rest h = ground arith
split_at-mark mark (c ∷ front) rest h =
    let differ : (mark == c) ≡ false = ground (arith, h.0) in
    rw (differ, split_at-mark mark front rest h.1)

split_at-absent : (mark : ℕ) (s : Bytes) → NoneOf mark s → split_at (mark ∷ []) s ≡ none
unfolding split_at has_prefix
split_at-absent mark [] h = refl
split_at-absent mark (c ∷ s) h =
    let differ : (mark == c) ≡ false = ground (arith, h.0) in
    rw (differ, split_at-absent mark s h.1)

pub cut-mark :
    (mark : ℕ) (front rest : Bytes)
    → NoneOf mark front
    → cut (mark ∷ []) (front ++ mark ∷ rest) ≡ some (front, rest)
unfolding cut
cut-mark mark front rest h = ap around (split_at-mark mark front rest h)

pub cut-absent : (mark : ℕ) (s : Bytes) → NoneOf mark s → cut (mark ∷ []) s ≡ none
unfolding cut
cut-absent mark s h = ap around (split_at-absent mark s h)

-- A word without spaces.
abbrev pub IsWord : Bytes → Type 0
IsWord [] = ⊥
IsWord (c ∷ s) = All (λ d. is_space d ≡ false) (c ∷ s)

until_space-append :
    (word rest : Bytes)
    → All (λ d. is_space d ≡ false) word
    → until_space (word ++ b' ' ∷ rest) ≡ (word, b' ' ∷ rest)
unfolding until_space
until_space-append [] rest h = refl
until_space-append (c ∷ word) rest h = rw (h.0, until_space-append word rest h.1)

pub read_word-append :
    (word rest : Bytes) → IsWord word → read_word (word ++ b' ' ∷ rest) ≡ (word, b' ' ∷ rest)
unfolding read_word skip_space
read_word-append [] rest h = absurd h
read_word-append (c ∷ word) rest h = rw h.0 (until_space-append (c ∷ word) rest h)

pub read_word-space : (s : Bytes) → read_word (b' ' ∷ s) ≡ read_word s
unfolding read_word skip_space
read_word-space s = refl

-- Lines that end in `\r\n`, in front of a text.
unfoldable pub crlf_lines : List Bytes → Bytes → Bytes
crlf_lines [] rest = rest
crlf_lines (line ∷ lines) rest = line ++ (b'\r' ∷ b'\n' ∷ crlf_lines lines rest)

pub crlf_lines-append :
    (lines : List Bytes) (front back : Bytes)
    → crlf_lines lines (front ++ back) ≡ crlf_lines lines front ++ back
unfolding crlf_lines
crlf_lines-append [] front back = refl
crlf_lines-append (line ∷ lines) front back =
    ap (λ s. line ++ (b'\r' ∷ b'\n' ∷ s)) (crlf_lines-append lines front back)
    ∙ sym (append_assoc line (b'\r' ∷ b'\n' ∷ crlf_lines lines front) back)

abbrev pub IsLine : Bytes → Type 0
IsLine [] = ⊥
IsLine (c ∷ s) = NoneOf b'\n' (c ∷ s)

IsLine-NoneOf : (line : Bytes) → IsLine line → NoneOf b'\n' line
IsLine-NoneOf [] h = absurd h
IsLine-NoneOf (c ∷ line) h = h

abbrev pub with_return : Bytes → Bytes
with_return line = line ++ b'\r' ∷ []

pub lines_of-crlf_lines :
    (lines : List Bytes) (rest : Bytes)
    → All IsLine lines
    → lines_of b'\n' (crlf_lines lines rest) ≡ map with_return lines ++ lines_of b'\n' rest
unfolding crlf_lines
lines_of-crlf_lines [] rest h = refl
lines_of-crlf_lines (line ∷ lines) rest h =
    ap (lines_of b'\n') (sym (append_assoc line (b'\r' ∷ []) (b'\n' ∷ crlf_lines lines rest)))
    ∙ lines_of-append b'\n' (with_return line) (crlf_lines lines rest)
        (NoneOf-append b'\n' line (b'\r' ∷ []) (IsLine-NoneOf line h.0) (refl, tt))
    ∙ ap (◌∷◌ (with_return line)) (lines_of-crlf_lines lines rest h.1)

-- What `find` gives behind more text.
abbrev shifted : Bytes → Option (Bytes × Bytes) → Option (Bytes × Bytes)
shifted front none = none
shifted front (some (more, rest)) = some (front ++ more, rest)

shifted-nil : (found : Option (Bytes × Bytes)) → found ≡ shifted [] found
shifted-nil none = refl
shifted-nil (some (more, rest)) = refl

shifted-shifted :
    (front back : Bytes) (found : Option (Bytes × Bytes))
    → shifted front (shifted back found) ≡ shifted (front ++ back) found
shifted-shifted front back none = refl
shifted-shifted front back (some (more, rest)) =
    ap (λ s. some (s, rest)) (sym (append_assoc front back more))

shifted-bind :
    (c : ℕ) (found : Option (Bytes × Bytes))
    → (found >>= λ (front, rest). some (c ∷ front, rest)) ≡ shifted (c ∷ []) found
shifted-bind c none = refl
shifted-bind c (some (front, rest)) = refl

split_at-skip :
    (c : ℕ) (s : Bytes)
    → has_prefix separator (c ∷ s) ≡ false
    → split_at separator (c ∷ s) ≡ shifted (c ∷ []) (split_at separator s)
unfolding split_at
split_at-skip c s h = rw h (shifted-bind c (split_at separator s))

starts-crlf :
    (line t : Bytes) → IsLine line → has_prefix (b'\r' ∷ b'\n' ∷ []) (line ++ b'\r' ∷ t) ≡ false
unfolding has_prefix
starts-crlf [] t h = absurd h
starts-crlf (c ∷ []) t h = ground arith
starts-crlf (c ∷ d ∷ line) t h = ground (arith, h.0, h.1.0)

starts-separator : (line t : Bytes) → IsLine line → has_prefix separator (line ++ b'\r' ∷ t) ≡ false
unfolding has_prefix
starts-separator [] t h = absurd h
starts-separator (c ∷ []) t h = ground arith
starts-separator (c ∷ d ∷ line) t h = ground (arith, h.0, h.1.0)

split_at-line :
    (line t : Bytes)
    → NoneOf b'\n' line
    → split_at separator (line ++ b'\r' ∷ t) ≡ shifted line (split_at separator (b'\r' ∷ t))
split_at-line [] t h = shifted-nil (split_at separator (b'\r' ∷ t))
split_at-line (c ∷ line) t h =
    split_at-skip c (line ++ b'\r' ∷ t) (starts-separator (c ∷ line) t h)
    ∙ ap (shifted (c ∷ [])) (split_at-line line t h.1)
    ∙ shifted-shifted (c ∷ []) line (split_at separator (b'\r' ∷ t))

split_at-return :
    (t : Bytes)
    → has_prefix (b'\r' ∷ b'\n' ∷ []) t ≡ false
    → split_at separator (b'\r' ∷ b'\n' ∷ t) ≡ shifted (b'\r' ∷ b'\n' ∷ []) (split_at separator t)
unfolding has_prefix
split_at-return t h =
    split_at-skip b'\r' (b'\n' ∷ t) (ground (arith, h))
    ∙ ap (shifted (b'\r' ∷ [])) (split_at-skip b'\n' t refl)
    ∙ shifted-shifted (b'\r' ∷ []) (b'\n' ∷ []) (split_at separator t)

split_at-here :
    (body : Bytes) → split_at separator (separator ++ body) ≡ some ([], separator ++ body)
unfolding split_at has_prefix
split_at-here body = refl

-- The text in front of the empty line.
unfoldable pub head_text : Bytes → List Bytes → Bytes
head_text line [] = line
head_text line (next ∷ lines) = line ++ (b'\r' ∷ b'\n' ∷ head_text next lines)

pub split_at-crlf_lines :
    (line : Bytes) (lines : List Bytes) (body : Bytes)
    → IsLine line
    → All IsLine lines
    → split_at separator (crlf_lines (line ∷ lines) (b'\r' ∷ b'\n' ∷ body))
      ≡ some (head_text line lines, separator ++ body)
unfolding crlf_lines head_text
split_at-crlf_lines line [] body h k =
    split_at-line line (b'\n' ∷ b'\r' ∷ b'\n' ∷ body) (IsLine-NoneOf line h)
    ∙ ap (shifted line) (split_at-here body)
    ∙ ap (λ s. some (s, separator ++ body)) (append-nil line)
split_at-crlf_lines line (next ∷ lines) body h k =
    let later = crlf_lines lines (b'\r' ∷ b'\n' ∷ body) in
    split_at-line line (b'\n' ∷ (next ++ b'\r' ∷ b'\n' ∷ later)) (IsLine-NoneOf line h)
    ∙ ap (shifted line) (
        split_at-return (next ++ b'\r' ∷ b'\n' ∷ later) (starts-crlf next (b'\n' ∷ later) k.0)
        ∙ ap (shifted (b'\r' ∷ b'\n' ∷ [])) (split_at-crlf_lines next lines body k.0 k.1))
