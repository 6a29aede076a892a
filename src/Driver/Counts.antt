-- ===== src/Driver/Counts.antt =====
-- The placeholders of driver.go: as many as there are arguments, and numbered in their order.
use Prim.Native.Char.{Char}
use mathlib.Core.Path.{ap₂}
use text.Mathlib.TextLemmas.{nil-append, cons-append}
use batchflow.Prelude.{
  ℕ, zero, suc, ◌+◌, ◌-◌, ◌*◌, ◌<◌, ◌≡◌, refl, ap, sym, ◌∙◌, String, ◌^^◌, List, [], ◌∷◌, ◌++◌, map,
  replicate, join, repeat, itoa, count_char, count_char-itoa, arith,
}
use batchflow.Driver.Placeholders.{
  question_row, question_marks, dollars, dollar_groups, dollar_row, dollar_marks,
}

pub count_char-append :
    (c : Char) (s t : String) → count_char c (s ^^ t) ≡ count_char c s + count_char c t
unfolding count_char
count_char-append c String.[] t = rw (nil-append t) (omega arith)
count_char-append c (String.◌∷◌ d s) t =
    rw (cons-append d s t) (ground (arith, count_char-append c s t))

count_char-repeat : (c : Char) (s : String) (n : ℕ) → count_char c (repeat s n) ≡ n * count_char c s
unfolding repeat count_char
count_char-repeat c s zero = omega arith
count_char-repeat c s (suc n) =
    omega (arith, count_char-append c s (repeat s n), count_char-repeat c s n)

abbrev sum : List ℕ → ℕ
sum [] = 0
sum (x ∷ xs) = x + sum xs

-- A separator without the character adds none.
count_char-join :
    (c : Char) (xs : List String) (sep : String)
    → count_char c sep ≡ 0
    → count_char c (join xs sep) ≡ sum (map (count_char c) xs)
unfolding join count_char
count_char-join c [] sep h = refl
count_char-join c (x ∷ []) sep h = omega arith
count_char-join c (x ∷ y ∷ xs) sep h = omega (
  arith,
  count_char-append c x (sep ^^ join (y ∷ xs) sep),
  count_char-append c sep (join (y ∷ xs) sep),
  count_char-join c (y ∷ xs) sep h,
)

count_question_row : (n : ℕ) → 0 < n → count_char "?" (question_row n) ≡ n
unfolding question_row count_char
count_question_row n h = omega (
  arith,
  count_char-append "?" "(" (repeat "?, " (n - 1) ^^ "?)"),
  count_char-append "?" (repeat "?, " (n - 1)) "?)",
  count_char-repeat "?" "?, " (n - 1),
)

sum-replicate : (n x : ℕ) → sum (replicate n x) ≡ n * x
sum-replicate zero x = omega arith
sum-replicate (suc n) x = omega (arith, sum-replicate n x)

map-replicate : (f : String → ℕ) (n : ℕ) (s : String) → map f (replicate n s) ≡ replicate n (f s)
map-replicate f zero s = refl
map-replicate f (suc n) s = ap (λ (ns : List ℕ). f s ∷ ns) (map-replicate f n s)

-- MySQL and SQLite: one question mark for each column of each row.
pub count_question_marks :
    (columns rows : ℕ) → 0 < columns → count_char "?" (question_marks columns rows) ≡ rows * columns
unfolding question_marks count_char
count_question_marks columns rows h =
    count_char-join "?" (replicate rows (question_row columns)) ", " refl
    ∙ ap sum (map-replicate (count_char "?") rows (question_row columns))
    ∙ sum-replicate rows (count_char "?" (question_row columns))
    ∙ ap (λ (n : ℕ). rows * n) (count_question_row columns h)

sum-dollars : (from count : ℕ) → sum (map (count_char "$") (dollars from count)) ≡ count
unfolding dollars count_char
sum-dollars from zero = refl
sum-dollars from (suc count) = omega (
  arith,
  count_char-append "$" "$" (itoa from),
  count_char-itoa "$" from (omega arith),
  sum-dollars (from + 1) count,
)

count_dollar_row : (from count : ℕ) → count_char "$" (dollar_row (dollars from count)) ≡ count
unfolding dollar_row count_char
count_dollar_row from count = omega (
  arith,
  count_char-append "$" "(" (join (dollars from count) ", " ^^ ")"),
  count_char-append "$" (join (dollars from count) ", ") ")",
  count_char-join "$" (dollars from count) ", " refl,
  sum-dollars from count,
)

sum_groups :
    (columns i rows : ℕ)
    → sum (map (count_char "$") (map dollar_row (dollar_groups columns i rows))) ≡ rows * columns
unfolding dollar_groups
sum_groups columns i zero = omega arith
sum_groups columns i (suc rows) =
    omega (arith, count_dollar_row (i * columns + 1) columns, sum_groups columns (i + 1) rows)

-- PostgreSQL: one numbered placeholder for each column of each row.
pub count_dollar_marks :
    (columns rows : ℕ) → count_char "$" (dollar_marks columns rows) ≡ rows * columns
unfolding dollar_marks count_char
count_dollar_marks columns rows =
    count_char-join "$" (map dollar_row (dollar_groups columns 0 rows)) ", " refl
    ∙ sum_groups columns 0 rows

abbrev pub concat : List (List String) → List String
concat [] = []
concat (xs ∷ xss) = xs ++ concat xss

dollars-add : (a b from : ℕ) → dollars from (a + b) ≡ dollars from a ++ dollars (from + a) b
unfolding dollars
dollars-add zero b from = ap₂ dollars (omega arith) (omega arith)
dollars-add (suc a) b from =
    let count : suc a + b ≡ suc (a + b) = omega arith in
    let next : from + 1 + a ≡ from + suc a = omega arith in
    ap (dollars from) count
    ∙ ap (λ (ph : List String). ("$" ^^ itoa from) ∷ ph)
        (dollars-add a b (from + 1) ∙ ap (λ (k : ℕ). dollars (from + 1) a ++ dollars k b) next)

-- Through the rows, the numbers run from 1 up to the number of arguments without a gap.
pub dollars_consecutive :
    (columns i rows : ℕ)
    → concat (dollar_groups columns i rows) ≡ dollars (i * columns + 1) (rows * columns)
unfolding dollar_groups dollars
dollars_consecutive columns i zero =
    let nothing : zero * columns ≡ 0 = omega arith in sym (ap (dollars (i * columns + 1)) nothing)
dollars_consecutive columns i (suc rows) =
    let next : (i + 1) * columns + 1 ≡ i * columns + 1 + columns = omega arith in
    let more : columns + rows * columns ≡ suc rows * columns = omega arith in
    ap (λ (ph : List String). dollars (i * columns + 1) columns ++ ph)
      (dollars_consecutive columns (i + 1) rows ∙ ap (λ (k : ℕ). dollars k (rows * columns)) next)
    ∙ sym (dollars-add columns (rows * columns) (i * columns + 1))
    ∙ ap (dollars (i * columns + 1)) more
