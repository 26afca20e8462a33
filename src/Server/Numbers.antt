-- ===== src/Server/Numbers.antt =====
-- The numbers in the server's answers.
use my_etcd.Base.{
  ℕ, zero, suc, ◌+◌, ◌-◌, ◌*◌, ◌/◌, ◌%◌, ◌^◌, ◌≡◌, ◌<◌, refl, ap, ◌∙◌, arith, [], ◌∷◌, ◌++◌, ltb,
  Bytes, Bool-cases, inl, inr,
}
use my_etcd.Server.Json.{digits, decimal}

-- The number that decimal digits stand for, behind those of another.
unfoldable pub decimal_value : ℕ → Bytes → ℕ
decimal_value v [] = v
decimal_value v (c ∷ s) = decimal_value (v * 10 + (c - b'0')) s

decimal_value-append :
    (v : ℕ) (s t : Bytes) → decimal_value v (s ++ t) ≡ decimal_value (decimal_value v s) t
unfolding decimal_value
decimal_value-append v [] t = refl
decimal_value-append v (c ∷ s) t = decimal_value-append (v * 10 + (c - b'0')) s t

decimal_value-digit : (v d : ℕ) → decimal_value v ((b'0' + d) ∷ []) ≡ v * 10 + d
unfolding decimal_value
decimal_value-digit v d = omega arith

decimal_value-digits : (fuel n : ℕ) → n < 10 ^ fuel → decimal_value 0 (digits fuel n) ≡ n
unfolding digits decimal_value
decimal_value-digits zero n h = omega arith
decimal_value-digits (suc fuel) n h = elim (Bool-cases (ltb n 10)) [
  | inl small ↦ rw small (decimal_value-digit 0 n ∙ omega arith)
  | inr large ↦
      let power : 10 ^ suc fuel ≡ 10 * 10 ^ fuel = omega arith in
      let front : decimal_value 0 (digits fuel (n / 10)) ≡ n / 10 =
        decimal_value-digits fuel (n / 10) (omega (arith, power, h)) in
      rw large (
        decimal_value-append 0 (digits fuel (n / 10)) ((b'0' + n % 10) ∷ [])
        ∙ ap (λ v. decimal_value v ((b'0' + n % 10) ∷ [])) front
        ∙ decimal_value-digit (n / 10) (n % 10)
        ∙ omega arith)
]

-- The digits that are written for a number of 64 bits stand for that number: the fuel is enough.
pub decimal_value-decimal : (n : ℕ) → n < 2 ^ 64 → decimal_value 0 (decimal n) ≡ n
decimal_value-decimal n h = decimal_value-digits 20 n (omega (arith, h))
