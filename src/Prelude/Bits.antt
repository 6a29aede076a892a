-- ===== src/Prelude/Bits.antt =====
-- `(x << k) | r` is a sum if `r` has at most k bits.
use Prim.Native.Nat.{
  ℕ, zero, suc, ◌+◌, ◌*◌, ◌/◌, ◌%◌, ◌^◌, ◌≤◌, ◌<◌, max, digits, bit_or, bit_or-bitwise,
}
use mathlib.Core.Path.{◌≡◌, refl, ap}
use native.Mathlib.Nat.{pow-suc}
use native.Mathlib.Omega.{arith}

-- The digits of a bitwise or, with a bound on their number.
abbrev or_digits : ℕ → ℕ → ℕ → ℕ
or_digits fuel a b = digits (λ y. y) max fuel a b

-- Any fuel from `a` on gives the native operation.
or_digits_enough : (m fuel a b : ℕ) → a ≤ fuel → fuel ≤ m → or_digits fuel a b ≡ bit_or a b
or_digits_enough m zero zero b p q = bit_or_zero_lem b
  where
    bit_or_zero_lem : (b : ℕ) → b ≡ bit_or 0 b
    bit_or_zero_lem b = omega (arith, bit_or-bitwise 0 b)
or_digits_enough m zero (suc a) b p q = absurd (omega arith)
or_digits_enough m (suc fuel) zero b p q = omega (arith, bit_or-bitwise 0 b)
or_digits_enough zero (suc fuel) (suc a) b p q = absurd (omega arith)
or_digits_enough (suc m) (suc fuel) (suc a) b p q = omega (
  arith,
  bit_or-bitwise (suc a) b,
  or_digits_enough m fuel (suc a / 2) (b / 2) (omega arith) (omega arith),
  or_digits_enough m a (suc a / 2) (b / 2) (omega arith) (omega arith),
)

-- One binary digit.
bit_or-halve : (a b : ℕ) → bit_or a b ≡ bit_or (a / 2) (b / 2) * 2 + max (a % 2) (b % 2)
bit_or-halve zero b = omega (arith, bit_or-bitwise 0 b, bit_or-bitwise 0 (b / 2))
bit_or-halve (suc a) b = omega (
  arith,
  bit_or-bitwise (suc a) b,
  or_digits_enough a a (suc a / 2) (b / 2) (omega arith) (omega arith),
)

bit_or_same : (fuel a : ℕ) → a ≤ fuel → bit_or a 0 ≡ a
bit_or_same fuel zero h = refl
bit_or_same zero (suc a) h = absurd (omega arith)
bit_or_same (suc fuel) (suc a) h =
    omega (arith, bit_or-halve (suc a) 0, bit_or_same fuel (suc a / 2) (omega arith))

pub bit_or-shift : (k x r : ℕ) → r < 2 ^ k → bit_or (x * 2 ^ k) r ≡ x * 2 ^ k + r
bit_or-shift zero x r h = ground (arith, bit_or_same x x (omega arith))
bit_or-shift (suc k) x r h =
    let double : x * 2 ^ suc k ≡ x * 2 ^ k * 2 =
      omega (arith, ap (λ (p : ℕ). x * p) (pow-suc 2 k)) in
    let half : r / 2 < 2 ^ k = omega (arith, pow-suc 2 k) in
    ground (arith, double, bit_or-halve (x * 2 ^ suc k) r, bit_or-shift k x (r / 2) half)
