-- ===== src/Prelude/Decimal.antt =====
-- Numbers as decimal text, and back.
use Prim.Native.Nat.{ℕ, zero, suc, ◌+◌, ◌-◌, ◌*◌, ◌/◌, ◌%◌, ◌<◌}
use Prim.Native.Char.{Char, code}
use Prim.Native.String.{String}
use mathlib.Core.Path.{◌≡◌, refl, ◌∙◌, ap}
use mathlib.Core.Logic.{inl, inr}
use native.Mathlib.Omega.{arith}
use batchflow.Prelude.Tests.{ltb, if◌then◌else◌, Bool-cases}
use batchflow.Prelude.Text.{count_char}

-- strconv.Itoa and fmt's %d on a number that is not negative: decimal digits, most significant first.
digit : ℕ → Char
digit zero = "0"
digit (suc zero) = "1"
digit (suc (suc zero)) = "2"
digit (suc (suc (suc zero))) = "3"
digit (suc (suc (suc (suc zero)))) = "4"
digit (suc (suc (suc (suc (suc zero))))) = "5"
digit (suc (suc (suc (suc (suc (suc zero)))))) = "6"
digit (suc (suc (suc (suc (suc (suc (suc zero))))))) = "7"
digit (suc (suc (suc (suc (suc (suc (suc (suc zero)))))))) = "8"
digit _ = "9"

emit_digits : ℕ → ℕ → String → String
unfolding digit
emit_digits zero n out = out
emit_digits (suc fuel) n out =
    let rest = emit_digits fuel (n / 10) (String.◌∷◌ (digit (n % 10)) out) in
    if ltb n 10 then String.◌∷◌ (digit n) out else rest

-- A number has fewer digits than `suc n`.
unfoldable pub itoa : ℕ → String
unfolding emit_digits
itoa n = emit_digits (suc n) n ""

code-digit : (n : ℕ) → n < 10 → code (digit n) ≡ n + 48
unfolding digit
code-digit zero h = refl
code-digit (suc zero) h = refl
code-digit (suc (suc zero)) h = refl
code-digit (suc (suc (suc zero))) h = refl
code-digit (suc (suc (suc (suc zero)))) h = refl
code-digit (suc (suc (suc (suc (suc zero))))) h = refl
code-digit (suc (suc (suc (suc (suc (suc zero)))))) h = refl
code-digit (suc (suc (suc (suc (suc (suc (suc zero))))))) h = refl
code-digit (suc (suc (suc (suc (suc (suc (suc (suc zero)))))))) h = refl
code-digit (suc (suc (suc (suc (suc (suc (suc (suc (suc n))))))))) h = omega arith

-- strconv.Atoi on digits: the number that a decimal text stands for, after `acc`.
unfoldable pub decimal : ℕ → String → ℕ
decimal acc String.[] = acc
decimal acc (String.◌∷◌ c s) = decimal (acc * 10 + (code c - 48)) s

decimal-emit_digits :
    (fuel n : ℕ) (out : String) → n < fuel → decimal 0 (emit_digits fuel n out) ≡ decimal n out
unfolding emit_digits decimal
decimal-emit_digits zero n out h = absurd (omega arith)
decimal-emit_digits (suc fuel) n out h = elim (Bool-cases (ltb n 10)) [
  | inl last ↦ rw last (ap (λ (a : ℕ). decimal a out) (ground (arith, code-digit n)))
  | inr more ↦ rw more (
      decimal-emit_digits fuel (n / 10) (String.◌∷◌ (digit (n % 10)) out) (ground arith)
      ∙ ap (λ (a : ℕ). decimal a out) (omega (arith, code-digit (n % 10) (omega arith))))
]

-- A number is read back from its digits.
pub decimal-itoa : (n : ℕ) → decimal 0 (itoa n) ≡ n
unfolding itoa decimal
decimal-itoa n = decimal-emit_digits (suc n) n "" (omega arith)

count_char-emit_digits :
    (c : Char) (fuel n : ℕ) (out : String)
    → code c < 48
    → count_char c (emit_digits fuel n out) ≡ count_char c out
unfolding emit_digits count_char
count_char-emit_digits c zero n out h = refl
count_char-emit_digits c (suc fuel) n out h = elim (Bool-cases (ltb n 10)) [
  | inl last ↦ rw last (ground (arith, code-digit n))
  | inr more ↦ rw more (
      count_char-emit_digits c fuel (n / 10) (String.◌∷◌ (digit (n % 10)) out) h
      ∙ ground (arith, code-digit (n % 10) (omega arith)))
]

pub count_char-itoa : (c : Char) (n : ℕ) → code c < 48 → count_char c (itoa n) ≡ 0
unfolding itoa count_char
count_char-itoa c n h = count_char-emit_digits c (suc n) n "" h

itoa_runs : itoa 2048 ≡ "2048"
unfolding itoa
itoa_runs = refl
