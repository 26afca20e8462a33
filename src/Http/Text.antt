-- ===== src/Http/Text.antt =====
-- src/main.cpp: `UrlDecode`, and what the parser does with `std::getline`, `>>`, `find` and `substr`.
use my_etcd.Base.{
  ℕ, ◌+◌, Bool, ◌&&◌, ◌||◌, List, [], ◌∷◌, Option, none, some, leb, ◌==◌, if◌then◌else◌, Bytes,
  drop,
}
use my_etcd.Server.Txn.{split_at}

-- `while (std::getline(in, line, mark))`: a mark at the end starts no further line.
abbrev pub first_line : ℕ → List Bytes → List Bytes
first_line c [] = (c ∷ []) ∷ []
first_line c (line ∷ lines) = (c ∷ line) ∷ lines

unfoldable pub lines_of : ℕ → Bytes → List Bytes
lines_of mark [] = []
lines_of mark (c ∷ s) =
    let later = lines_of mark s in if c == mark then [] ∷ later else first_line c later

-- `if (!line.empty() && line.back() == '\r') line.pop_back();`
unfoldable pub chomp : Bytes → Bytes
chomp [] = []
chomp (c ∷ []) = if c == b'\r' then [] else c ∷ []
chomp (c ∷ d ∷ s) = c ∷ chomp (d ∷ s)

-- `value.erase(0, value.find_first_not_of(" \t"))`
unfoldable pub trim : Bytes → Bytes
trim [] = []
trim (c ∷ s) = let rest = trim s in if c == b' ' || c == b'\t' then rest else c ∷ s

abbrev pub to_lower_char : ℕ → ℕ
to_lower_char c = if leb b'A' c && leb c b'Z' then c + 32 else c

unfoldable pub to_lower : Bytes → Bytes
to_lower [] = []
to_lower (c ∷ s) = to_lower_char c ∷ to_lower s

abbrev pub is_space : ℕ → Bool
is_space c = c == b' ' || (leb 9 c && leb c 13)

unfoldable pub skip_space : Bytes → Bytes
skip_space [] = []
skip_space (c ∷ s) = let rest = skip_space s in if is_space c then rest else c ∷ s

-- The characters up to the next space, and the rest.
unfoldable pub until_space : Bytes → Bytes × Bytes
until_space [] = ([], [])
until_space (c ∷ s) =
    let (word, rest) = until_space s in if is_space c then ([], c ∷ s) else (c ∷ word, rest)

-- `in >> word`
unfoldable pub read_word : Bytes → Bytes × Bytes
unfolding skip_space until_space
read_word s = until_space (skip_space s)

-- `find(mark)` and the two `substr` around it.
abbrev pub around : Option (Bytes × Bytes) → Option (Bytes × Bytes)
around none = none
around (some (front, rest)) = some (front, drop 1 rest)

unfoldable pub cut : Bytes → Bytes → Option (Bytes × Bytes)
unfolding split_at
cut mark s = around (split_at mark s)

abbrev pub plain_char : ℕ → ℕ
plain_char c = if c == b'+' then b' ' else c

abbrev pub decoded_or : Option ℕ → Bytes → Bytes → Bytes
decoded_or none plain coded = b'%' ∷ plain
decoded_or (some v) plain coded = v ∷ coded

-- `hex` is what the stream reads as a hexadecimal number from two characters, cast to a char; `none` where it
-- fails.
module _ (hex : ℕ → ℕ → Option ℕ) where
  unfoldable pub url_decode : Bytes → Bytes
  url_decode [] = []
  url_decode (c ∷ []) = plain_char c ∷ []
  url_decode (c ∷ a ∷ []) = plain_char c ∷ (plain_char a ∷ [])
  url_decode (c ∷ a ∷ b ∷ s) =
      let plain = url_decode (a ∷ b ∷ s) in
      let coded = url_decode s in
      if c == b'%' then decoded_or (hex a b) plain coded else plain_char c ∷ plain
