-- ===== src/Executor/Backoff.antt =====
-- retryBackoff and randInt63n of executor.go. A signed 64-bit number is its bit pattern, below 2^64.
use batchflow.Prelude.{ℕ, zero, suc, ◌+◌, ◌-◌, ◌*◌, ◌%◌, ◌^◌, Bool, ltb, ◌==◌, ◌||◌, if◌then◌else◌}

-- a > b, of two signed numbers
abbrev pub greater : ℕ → ℕ → Bool
greater a b = ltb ((b + 2 ^ 63) % 2 ^ 64) ((a + 2 ^ 63) % 2 ^ 64)

-- The loop of retryBackoff, in which `rounds` are left.
unfoldable pub double_up_to : ℕ → ℕ → ℕ → ℕ
double_up_to max zero backoff = backoff
double_up_to max (suc rounds) backoff =
    let doubled = (backoff * 2) % 2 ^ 64 in
    let rest = double_up_to max rounds doubled in if greater doubled max then max else rest

-- randInt63n, where `nanos` is what the clock shows
unfoldable pub rand_int63n : ℕ → ℕ → ℕ
rand_int63n nanos n =
    if n == 0 || ltb (2 ^ 63 - 1) n then 0 else ((nanos * 6364136223846793005 + 1) % 2 ^ 63) % n

-- `fifth` is the product with 0.2 in floating point, cut to a whole number.
unfoldable pub retry_backoff : (ℕ → ℕ) → ℕ → ℕ → ℕ → ℕ → ℕ
unfolding double_up_to rand_int63n
retry_backoff fifth base max nanos attempt =
    let backoff = double_up_to max (attempt - 1) base in
    let jitter = fifth backoff in
    let random = rand_int63n nanos ((2 * jitter + 1) % 2 ^ 64) in
    (backoff + (2 ^ 64 - jitter % 2 ^ 64) + random) % 2 ^ 64
