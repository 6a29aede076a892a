-- ===== src/Driver/Redis.antt =====
-- RedisPipelineDriver of driver.go: one command for each row, whose parts are the row's values.
use batchflow.Prelude.{
  ℕ, zero, suc, get_elem?, length-map, ◌+◌, String, ◌≤◌, ◌≡◌, refl, List, [], ◌∷◌, none, some,
  length, map, ltb, arith, Bool-cases, inl, inr, if◌then◌else◌,
}
use batchflow.Model.{Value, Record, Batch, value_at}
use batchflow.Schema.{SchemaInterface, columns}
use batchflow.Context.{Context, IsLive, later}
use batchflow.Errors.{Error, Result, ok, err, ◌>>=◌}
use batchflow.Driver.{row_args}
use batchflow.Driver.Columns.{length-row_args, row_args-elem}

-- RedisCmd: []any
abbrev pub RedisCmd : Type 0
RedisCmd = List Value

unfoldable pub row_cmds : Context → List String → Batch → Result (List RedisCmd)
unfolding row_args
row_cmds ctx cols [] = ok []
row_cmds ctx cols (row ∷ batch) = elim (ctx 0) [
  | some e ↦ err (Error.context e)
  | none ↦ row_cmds (later 1 ctx) cols batch >>= λ cmds. ok (row_args cols row ∷ cmds)
]

-- GenerateCmds
unfoldable pub generate_cmds : Context → SchemaInterface → Batch → Result (List RedisCmd)
unfolding row_cmds columns
generate_cmds ctx schema batch =
    if ltb (length (columns schema)) 2
    then err (Error.text "redis schema must have at least 2 columns: cmd and key")
    else row_cmds ctx (columns schema) batch

row_cmds-live :
    (ctx : Context) (cols : List String) (batch : Batch)
    → IsLive ctx
    → row_cmds ctx cols batch ≡ ok (map (row_args cols) batch)
unfolding row_cmds
row_cmds-live ctx cols [] live = refl
row_cmds-live ctx cols (row ∷ batch) live =
    rw (live 0, row_cmds, row_cmds-live (later 1 ctx) cols batch (λ t. live (1 + t))) refl

-- One command for each row, in order, which has one part for each column: the row's value there.
pub record IsCommanded (cols : List String) (batch : Batch) (cmds : List RedisCmd) : Type 0 where
  pub count : length cmds ≡ length batch
  pub part :
      (i : ℕ) (row : Record)
      → get_elem? batch i ≡ some row
      → (cmd : RedisCmd) × (get_elem? cmds i ≡ some cmd)
        × (length cmd ≡ length cols)
        × ((j : ℕ) (col : String)
            → get_elem? cols j ≡ some col
            → get_elem? cmd j ≡ some (value_at row col))

get_elem?-map :
    (f : Record → RedisCmd) (rows : Batch) (i : ℕ) (row : Record)
    → get_elem? rows i ≡ some row
    → get_elem? (map f rows) i ≡ some (f row)
get_elem?-map f [] i row h = cc
get_elem?-map f (r ∷ rows) zero row h = ground arith
get_elem?-map f (r ∷ rows) (suc i) row h = get_elem?-map f rows i row h

map-IsCommanded :
    (cols : List String) (batch : Batch) → IsCommanded cols batch (map (row_args cols) batch)
map-IsCommanded cols batch = record {
  count = length-map (row_args cols) batch;
  part = λ i row at. (
    row_args cols row,
    get_elem?-map (row_args cols) batch i row at,
    length-row_args cols row,
    λ j col there. row_args-elem cols row j col there,
  );
}

-- Under a live context and for a schema of at least two columns, GenerateCmds returns one command
-- for each row, in order, which has the row's values in the order of the columns.
pub generate_cmds-live :
    (ctx : Context) (schema : SchemaInterface) (batch : Batch)
    → IsLive ctx
    → 2 ≤ length (columns schema)
    → (cmds : List RedisCmd) × (generate_cmds ctx schema batch ≡ ok cmds)
      × IsCommanded (columns schema) batch cmds
unfolding generate_cmds
generate_cmds-live ctx schema batch live wide = (
  map (row_args (columns schema)) batch,
  elim (Bool-cases (ltb (length (columns schema)) 2)) [
    | inl narrow ↦ absurd (ground arith)
    | inr enough ↦ rw (enough, generate_cmds) (row_cmds-live ctx (columns schema) batch live)
  ],
  map-IsCommanded (columns schema) batch,
)
