-- ===== src/Executor/Waits.antt =====
-- How long executor.go waits between two attempts.
use batchflow.Prelude.{
  ℕ, zero, suc, ◌+◌, ◌-◌, ◌*◌, ◌%◌, ◌^◌, ◌≤◌, ◌<◌, ◌≡◌, ap, ◌∙◌, ltb, arith, if◌then◌else◌,
  Bool-cases, inl, inr,
}
use native.Mathlib.Nat.{pow-succ'}
use batchflow.Executor.Backoff.{greater, double_up_to, rand_int63n, retry_backoff}

abbrev pub minimum : ℕ → ℕ → ℕ
minimum a b = if ltb b a then b else a

abbrev pub maximum : ℕ → ℕ → ℕ
maximum a b = if ltb a b then b else a

rand_int63n-bound : (nanos n : ℕ) → 0 < n → rand_int63n nanos n < n
unfolding rand_int63n
rand_int63n-bound nanos n h = ground arith

double_up_to-bound :
    (max rounds backoff : ℕ)
    → max < 2 ^ 62
    → backoff < 2 ^ 62
    → double_up_to max rounds backoff ≤ maximum backoff max
unfolding double_up_to
double_up_to-bound max zero backoff hm hb = ground arith
double_up_to-bound max (suc rounds) backoff hm hb =
    ground (arith, double_up_to-bound max rounds (backoff * 2) hm _)

regroup : (a x : ℕ) → a * (2 * x) ≡ a * 2 * x
regroup a x = omega arith

double-suc : (a n : ℕ) → a * 2 ^ suc n ≡ a * 2 * 2 ^ n
double-suc a n = ap (λ (x : ℕ). a * x) (pow-succ' 2 n) ∙ regroup a (2 ^ n)

double_mono : (a n : ℕ) → a ≤ a * 2 ^ n
double_mono a zero = omega arith
double_mono a (suc n) = omega (arith, double_mono (a * 2) n, double-suc a n)

-- The wait before the jitter doubles from the base until it meets the maximum, if the base is no more
-- than the maximum and that is below 2^62 nanoseconds.
pub double_up_to-eq-minimum :
    (max rounds backoff : ℕ)
    → max < 2 ^ 62
    → backoff ≤ max
    → double_up_to max rounds backoff ≡ minimum max (backoff * 2 ^ rounds)
unfolding double_up_to
double_up_to-eq-minimum max zero backoff hm hb = ground arith
double_up_to-eq-minimum max (suc rounds) backoff hm hb =
    let small : (backoff * 2) % 2 ^ 64 ≡ backoff * 2 = omega arith in
    let least = double_mono (backoff * 2) rounds in
    elim (Bool-cases (greater (backoff * 2) max)) [
      | inl over ↦ rw (small, over, double-suc backoff rounds) (ground (arith, least))
      | inr under ↦
          rw (small, under, double-suc backoff rounds)
            (double_up_to-eq-minimum max rounds (backoff * 2) hm (ground arith))
    ]

jitter-bounds :
    (b j r : ℕ)
    → b < 2 ^ 62
    → j ≤ b
    → r < 2 * j + 1
    → (b - j ≤ (b + (2 ^ 64 - j % 2 ^ 64) + r) % 2 ^ 64)
      × ((b + (2 ^ 64 - j % 2 ^ 64) + r) % 2 ^ 64 ≤ b + j)
jitter-bounds b j r hb hj hr = omega arith

-- For a base and a maximum below 2^62 nanoseconds, and a jitter that is no more than the wait that
-- it is taken from, what retryBackoff returns lies within the jitter round the wait before it, does
-- not overflow, and is at most twice the greater of the base and the maximum.
pub retry_backoff-bounds :
    (fifth : ℕ → ℕ) (base max nanos attempt : ℕ)
    → base < 2 ^ 62
    → max < 2 ^ 62
    → ((b : ℕ) → fifth b ≤ b)
    → (double_up_to max (attempt - 1) base - fifth (double_up_to max (attempt - 1) base)
        ≤ retry_backoff fifth base max nanos attempt)
      × (retry_backoff fifth base max nanos attempt
          ≤ double_up_to max (attempt - 1) base + fifth (double_up_to max (attempt - 1) base))
      × (retry_backoff fifth base max nanos attempt ≤ 2 * maximum base max)
unfolding retry_backoff
retry_backoff-bounds fifth base max nanos attempt hb hm part =
    let b = double_up_to max (attempt - 1) base in
    let most : b ≤ maximum base max = double_up_to-bound max (attempt - 1) base hm hb in
    let below : b < 2 ^ 62 = ground (arith, most) in
    let whole : (2 * fifth b + 1) % 2 ^ 64 ≡ 2 * fifth b + 1 = omega (arith, part b, below) in
    let random : rand_int63n nanos ((2 * fifth b + 1) % 2 ^ 64) < 2 * fifth b + 1 =
      rw whole (rand_int63n-bound nanos (2 * fifth b + 1) (omega arith)) in
    let (least, greatest) =
      jitter-bounds b (fifth b) (rand_int63n nanos ((2 * fifth b + 1) % 2 ^ 64)) below (part b)
        random in
    (least, greatest, omega (arith, greatest, part b, most))
