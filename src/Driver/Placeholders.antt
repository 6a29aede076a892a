-- ===== src/Driver/Placeholders.antt =====
-- The placeholders of driver.go: one for each argument, kept in a cache by the numbers of columns
-- and rows. A `sync.Map` is a map whose calls are atomic; a driver's calls are taken one by one.
use batchflow.Prelude.{
  ℕ, zero, suc, ◌+◌, ◌-◌, ◌*◌, ◌%◌, ◌^◌, String, ◌^^◌, ◌==◌, ◌||◌, List, [], ◌∷◌, Option, none,
  some, map, join, repeat, itoa, replicate, bit_or, if◌then◌else◌,
}

abbrev pub Cache : Type 0
Cache = List (ℕ × String)

unfoldable pub load : ℕ → Cache → Option String
load k [] = none
load k ((j, v) ∷ cache) = if j == k then some v else load k cache

unfoldable pub store : ℕ → String → Cache → Cache
store k v cache = (k, v) ∷ cache

-- (uint64(columnCount) << 32) | uint64(batchSize)
unfoldable pub cache_key : ℕ → ℕ → ℕ
cache_key columns rows = bit_or ((columns * 2 ^ 32) % 2 ^ 64) (rows % 2 ^ 64)

-- "(?, ?, ?)", of at least one column
unfoldable pub question_row : ℕ → String
unfolding repeat
question_row columns = "(" ^^ (repeat "?, " (columns - 1) ^^ "?)")

unfoldable pub question_marks : ℕ → ℕ → String
unfolding question_row join
question_marks columns rows = join (replicate rows (question_row columns)) ", "

-- "$k" for `count` numbers from `from` on
unfoldable pub dollars : ℕ → ℕ → List String
unfolding itoa
dollars from zero = []
dollars from (suc count) = ("$" ^^ itoa from) ∷ dollars (from + 1) count

-- The numbers of each row: row `i` begins with i*columnCount + 1.
unfoldable pub dollar_groups : ℕ → ℕ → ℕ → List (List String)
unfolding dollars
dollar_groups columns i zero = []
dollar_groups columns i (suc rows) =
    dollars (i * columns + 1) columns ∷ dollar_groups columns (i + 1) rows

unfoldable pub dollar_row : List String → String
unfolding join
dollar_row ph = "(" ^^ (join ph ", " ^^ ")")

unfoldable pub dollar_marks : ℕ → ℕ → String
unfolding dollar_groups dollar_row join
dollar_marks columns rows = join (map dollar_row (dollar_groups columns 0 rows)) ", "

-- generatePlaceholders of a driver whose text is `render`: through the cache.
unfoldable pub generate_placeholders : (ℕ → ℕ → String) → ℕ → ℕ → Cache → String × Cache
unfolding load store cache_key
generate_placeholders render columns rows cache =
    if columns == 0 || rows == 0 then ("", cache) else elim (load (cache_key columns rows) cache) [
      | some v ↦ (v, cache)
      | none ↦ (render columns rows, store (cache_key columns rows) (render columns rows) cache)
    ]

unfoldable pub mysql_placeholders : ℕ → ℕ → Cache → String × Cache
unfolding generate_placeholders question_marks
mysql_placeholders = generate_placeholders question_marks

unfoldable pub postgres_placeholders : ℕ → ℕ → Cache → String × Cache
unfolding generate_placeholders dollar_marks
postgres_placeholders = generate_placeholders dollar_marks

unfoldable pub sqlite_placeholders : ℕ → ℕ → Cache → String × Cache
unfolding generate_placeholders question_marks
sqlite_placeholders = generate_placeholders question_marks

-- MockDriver has no cache.
unfoldable pub mock_placeholders : ℕ → ℕ → Cache → String × Cache
unfolding question_marks
mock_placeholders columns rows cache = (question_marks columns rows, cache)
