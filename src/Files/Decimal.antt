-- ===== src/Files/Decimal.antt =====
-- `str` of a number: its decimal digits, as code points.
use pdo_contracts.Base.{
  ℕ, zero, suc, ◌+◌, ◌-◌, ◌*◌, ◌/◌, ◌%◌, ◌<◌, ◌≡◌, refl, sym, ap, ◌∙◌, List, [], ◌∷◌, arith, ltb,
  if◌then◌else◌, Bool-cases, inl, inr,
}

-- The digits before `out`, with fuel for more digits than there are.
decimal_from : ℕ → ℕ → List ℕ → List ℕ
decimal_from zero n out = out
decimal_from (suc f) n out =
    let rest = decimal_from f (n / 10) ((b'0' + n % 10) ∷ out) in
    if ltb n 10 then (b'0' + n) ∷ out else rest

unfoldable pub decimal : ℕ → List ℕ
unfolding decimal_from
decimal n = decimal_from (suc n) n []

value : ℕ → List ℕ → ℕ
value acc [] = acc
value acc (d ∷ ds) = value (acc * 10 + (d - b'0')) ds

value-decimal_from : (f n : ℕ) (out : List ℕ) → n < f → value 0 (decimal_from f n out) ≡ value n out
unfolding decimal_from value
value-decimal_from zero n out h = elim h [ ]
value-decimal_from (suc f) n out h = elim (Bool-cases (ltb n 10)) [
  | inl small ↦ rw small (ap (λ (k : ℕ). value k out) (omega arith))
  | inr large ↦ rw large (
      value-decimal_from f (n / 10) ((b'0' + n % 10) ∷ out) (ground arith)
      ∙ ap (λ (k : ℕ). value k out) (omega arith))
]

value-decimal : (n : ℕ) → value 0 (decimal n) ≡ n
unfolding decimal value
value-decimal n = value-decimal_from (suc n) n [] (omega arith)

-- No two numbers have the same digits.
pub decimal-injective : (m n : ℕ) → decimal m ≡ decimal n → m ≡ n
decimal-injective m n h = sym (value-decimal m) ∙ ap (value 0) h ∙ value-decimal n

decimal_runs : decimal 1024 ≡ b'1' ∷ b'0' ∷ b'2' ∷ b'4' ∷ []
unfolding decimal
decimal_runs = refl
