-- ===== src/Driver/Columns.antt =====
-- Which columns driver.go updates, and which arguments it sends.
use batchflow.Prelude.{
  ℕ, zero, suc, ◌+◌, ◌*◌, ◌≡◌, refl, ap, subst, ◌∙◌, String, Bool, not, ◌&&◌, ◌||◌, List, [], ◌∷◌,
  ◌++◌, some, is_empty, member, length, length-append, get_elem?, arith, Option-cases, inl, inr,
}
use batchflow.Model.{Value, Record, Batch, value_at}
use batchflow.Context.{Context, later}
use batchflow.Errors.{ok, Result-cases}
use batchflow.Driver.{row_args, all_args}

-- Whether a column passes the tests of the loop.
abbrev pub is_updated : Bool → List String → List String → String → Bool
is_updated replace conflict update col =
    not (member col conflict) && (replace || (is_empty update || member col update))

pub length-row_args : (cols : List String) (row : Record) → length (row_args cols row) ≡ length cols
unfolding row_args
length-row_args [] row = refl
length-row_args (c ∷ cols) row = ap suc (length-row_args cols row)

pub row_args-elem :
    (cols : List String) (row : Record) (j : ℕ) (col : String)
    → get_elem? cols j ≡ some col
    → get_elem? (row_args cols row) j ≡ some (value_at row col)
unfolding row_args
row_args-elem [] row j col h = cc
row_args-elem (c ∷ cols) row zero col h = ground arith
row_args-elem (c ∷ cols) row (suc j) col h = row_args-elem cols row j col h

get_elem?-append_left :
    (xs ys : List Value) (j : ℕ) (v : Value)
    → get_elem? xs j ≡ some v
    → get_elem? (xs ++ ys) j ≡ some v
get_elem?-append_left [] ys j v h = cc
get_elem?-append_left (x ∷ xs) ys zero v h = h
get_elem?-append_left (x ∷ xs) ys (suc j) v h = get_elem?-append_left xs ys j v h

get_elem?-append_right :
    (xs ys : List Value) (j : ℕ) → get_elem? (xs ++ ys) (length xs + j) ≡ get_elem? ys j
get_elem?-append_right [] ys j = let same : zero + j ≡ j = omega arith in ap (get_elem? ys) same
get_elem?-append_right (x ∷ xs) ys j =
    let one_more : suc (length xs) + j ≡ suc (length xs + j) = omega arith in
    ap (get_elem? (x ∷ (xs ++ ys))) one_more ∙ get_elem?-append_right xs ys j

-- What the argument list of a batch holds: one value for each column of each row, row after row.
pub record IsLaidOut (cols : List String) (rows : Batch) (args : List Value) : Type 0 where
  pub count : length args ≡ length rows * length cols
  pub cell :
      (i j : ℕ) (row : Record) (col : String)
      → get_elem? rows i ≡ some row
      → get_elem? cols j ≡ some col
      → get_elem? args (i * length cols + j) ≡ some (value_at row col)

cons-IsLaidOut :
    (cols : List String) (row : Record) (rows : Batch) (args : List Value)
    → IsLaidOut cols rows args
    → IsLaidOut cols (row ∷ rows) (row_args cols row ++ args)
cons-IsLaidOut cols row rows args laid = record {
  count =
      omega (arith, laid.count, length-append (row_args cols row) args, length-row_args cols row);
  cell = at;
}
  where
    at :
        (i j : ℕ) (r : Record) (col : String)
        → get_elem? (row ∷ rows) i ≡ some r
        → get_elem? cols j ≡ some col
        → get_elem? (row_args cols row ++ args) (i * length cols + j) ≡ some (value_at r col)
    at zero j r col hr hc =
        let first : zero * length cols + j ≡ j = omega arith in
        ap (get_elem? (row_args cols row ++ args)) first
        ∙ get_elem?-append_left (row_args cols row) args j (value_at r col)
            (row_args-elem cols row j col hc ∙ ground arith)
    at (suc i) j r col hr hc =
        let later_row : suc i * length cols + j
            ≡ length (row_args cols row) + (i * length cols + j) =
          omega (arith, length-row_args cols row) in
        ap (get_elem? (row_args cols row ++ args)) later_row
        ∙ get_elem?-append_right (row_args cols row) args (i * length cols + j)
        ∙ laid.cell i j r col hr hc

args_of : {xs ys : List Value} → ok xs ≡ ok ys → xs ≡ ys
args_of e = cc

-- When the loop over the rows ends without an error, the arguments lie row after row.
pub all_args-IsLaidOut :
    (ctx : Context) (cols : List String) (rows : Batch) (args : List Value)
    → all_args ctx cols rows ≡ ok args
    → IsLaidOut cols rows args
unfolding all_args
all_args-IsLaidOut ctx cols [] args h =
    subst (IsLaidOut cols []) (args_of h)
      (record { count = omega arith; cell = λ i j row col hr hc. cc })
all_args-IsLaidOut ctx cols (row ∷ rows) args h = elim (Option-cases (ctx 0)) [
  | inr (e, done) ↦ cc (rw (done, all_args) at h)
  | inl live ↦ elim (Result-cases (all_args (later 1 ctx) cols rows)) [
    | inr (e, failed) ↦ cc (rw (live, all_args, failed) at h)
    | inl (rest, rest_ok) ↦
        subst (IsLaidOut cols (row ∷ rows)) (args_of (rw (live, all_args, rest_ok) at h)) (
          cons-IsLaidOut cols row rows rest
            (all_args-IsLaidOut (later 1 ctx) cols rows rest rest_ok))
  ]
]
