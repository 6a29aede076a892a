-- ===== src/Driver/Caching.antt =====
-- The placeholder caches of driver.go never change what a driver generates.
use batchflow.Prelude.{
  ℕ, ◌+◌, ◌*◌, ◌%◌, ◌^◌, ◌<◌, ◌≡◌, refl, String, ◌==◌, ==_iff, ◌||◌, [], some, Bool-cases,
  Option-cases, inl, inr, arith, if◌then◌else◌,
}
use batchflow.Prelude.Bits.{bit_or-shift}
use batchflow.Driver.Placeholders.{Cache, load, store, cache_key, generate_placeholders}

abbrev pub word : ℕ
word = 2 ^ 32

-- Below 2^32 the key is a pair of two 32-bit numbers.
cache_key_sum : (c r : ℕ) → c < word → r < word → cache_key c r ≡ c * word + r
unfolding cache_key
cache_key_sum c r hc hr =
    let small : (c * 2 ^ 32) % 2 ^ 64 ≡ c * 2 ^ 32 = omega arith in
    let same : r % 2 ^ 64 ≡ r = omega arith in rw (small, same) (bit_or-shift 32 c r hr)

pub cache_key_inj :
    (c r c' r' : ℕ)
    → c < word
    → r < word
    → c' < word
    → r' < word
    → cache_key c r ≡ cache_key c' r'
    → (c ≡ c') × (r ≡ r')
cache_key_inj c r c' r' hc hr hc' hr' e =
    omega (arith, cache_key_sum c r hc hr, cache_key_sum c' r' hc' hr')

-- Each entry is the text of the numbers that its key is made of.
pub record IsSound (render : ℕ → ℕ → String) (cache : Cache) : Type 0 where
  pub entry :
      (c r : ℕ)
      → c < word
      → r < word
      → (v : String) → load (cache_key c r) cache ≡ some v
      → v ≡ render c r

abbrev pub plain : (ℕ → ℕ → String) → ℕ → ℕ → String
plain render c r = if c == 0 || r == 0 then "" else render c r

module _ (render : ℕ → ℕ → String) where
  pub empty-IsSound : IsSound render []
  unfolding load
  empty-IsSound = record { entry = λ c r hc hr v e. cc }

  store-IsSound :
      (c r : ℕ) (cache : Cache)
      → c < word
      → r < word
      → IsSound render cache
      → IsSound render (store (cache_key c r) (render c r) cache)
  unfolding load store
  store-IsSound c r cache hc hr sound = record {
    entry = λ c' r' hc' hr' v e. elim (Bool-cases (cache_key c r == cache_key c' r')) [
      | inl same ↦
          let parts = cache_key_inj c r c' r' hc hr hc' hr' ((==_iff _ _).0 same) in
          cc (parts.0, parts.1, rw (same, load) at e)
      | inr differ ↦ sound.entry c' r' hc' hr' v (rw (differ, load) at e)
    ];
  }

  -- With a sound cache, and fewer than 2^32 columns and rows, the text is the one that is computed
  -- without a cache, and the cache stays sound.
  pub generate_placeholders-eq-plain :
      (c r : ℕ) (cache : Cache)
      → c < word
      → r < word
      → IsSound render cache
      → ((generate_placeholders render c r cache).0 ≡ plain render c r)
        × IsSound render (generate_placeholders render c r cache).1
  unfolding generate_placeholders
  generate_placeholders-eq-plain c r cache hc hr sound = elim (Bool-cases (c == 0 || r == 0)) [
    | inl none_asked ↦ rw (none_asked, generate_placeholders) (refl, sound)
    | inr some_asked ↦ elim (Option-cases (load (cache_key c r) cache)) [
      | inl miss ↦
          rw (some_asked, generate_placeholders, miss) (refl, store-IsSound c r cache hc hr sound)
      | inr (v, hit) ↦
          rw (some_asked, generate_placeholders, hit) (sound.entry c r hc hr v hit, sound)
    ]
  ]
