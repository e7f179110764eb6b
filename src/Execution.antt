-- ===== src/Execution.antt =====
-- The operators that run a query (src/execution/operator). `next` gives the next record, or none at
-- the end, and the new state of the operator. A failed `assert` is a throw.
pub mod Meaning
pub mod Lists
pub mod Typed
mod Columns
mod Start
mod Gives
mod Loops
mod Positions
mod Pairs
mod Joins
mod LeftBlocks
pub mod Delivers
pub mod Bag
mod Examples
use duck_duck_dbms.Common.{
  ℕ, zero, suc, ◌+◌, Bool, true, false, not, Option, none, some, List, [], ◌∷◌, ◌++◌, leb, ltb,
  if◌then◌else◌, length, get_elem?, Error, assert_failed, out_of_range, Result, ok, err, ◌>>=◌,
}
use duck_duck_dbms.Tuple.Value.{Value, as_bool}
use duck_duck_dbms.Expression.Compare.{FloatOps, is_bool}
use duck_duck_dbms.Expression.Evaluate.{Record, get, concat, Expression, evaluate}
use duck_duck_dbms.Tuple.Schema.{Column}
use duck_duck_dbms.Plan.{Operator, Blocks, reset}

-- What a call that runs on fuel comes to.
pub data Run {ℓ} (A : Type ℓ) : Type ℓ where
  value : A → Run A
  threw : Error → Run A
  out_of_fuel : Run A

abbrev pub and_then {ℓ κ} : {A : Type ℓ} {B : Type κ} → Run A → (A → Run B) → Run B
and_then (value a) f = f a
and_then (threw e) f = threw e
and_then out_of_fuel f = out_of_fuel

abbrev pub of_result {ℓ} : {A : Type ℓ} → Result A → Run A
of_result (ok a) = value a
of_result (err e) = threw e

-- A record and the new state of the operator that gave it.
abbrev pub Answer : Type 0
Answer = Option Record × Operator

abbrev pub block_size : ℕ
block_size = 24

-- The next record of a table.
abbrev pub scan_next : ℕ → List Record → Answer
scan_next t [] = (none, Operator.sequential_scan t [])
scan_next t (r ∷ rest) = (some r, Operator.sequential_scan t rest)

-- The values of a record at some indices.
unfoldable pub select : Record → List ℕ → Result Record
select r [] = ok []
select r (i ∷ is) = do v ← get r i; vs ← select r is; ok (v ∷ vs)

unfoldable pub fetch_block : (Operator → Run Answer) → ℕ → Operator → Run (List Record × Operator)
fetch_block next zero op = value ([], op)
fetch_block next (suc n) op = and_then (next op) λ (a : Answer). elim a.0 [
  | none ↦ value ([], a.1)
  | some r ↦ and_then (fetch_block next n a.1) λ (b : List Record × Operator). value (r ∷ b.0, b.1)
]

abbrev pub is_empty {ℓ} : {A : Type ℓ} → List A → Bool
is_empty [] = true
is_empty (x ∷ xs) = false

-- The children and the blocks of a join.
pub record Join : Type 0 where
  pub left : Operator
  pub right : Operator
  pub blocks : Blocks

-- A left block is loaded when there is none. The right child is then read from its start again.
unfoldable pub load_left : (ℕ → List Record) → (Operator → Run Answer) → Join → Run Join
load_left rows next j =
    if is_empty j.blocks.left_block
    then (and_then (fetch_block next block_size j.left) λ (a : List Record × Operator). value (
        if is_empty a.0 then record j { left = a.1 } else record {
          left = a.1;
          right = reset rows j.right;
          blocks = record { left_block = a.0; right_block = []; left_it = 0; right_it = 0 };
        }))
    else value j

-- A right block is loaded when the last one is exhausted.
unfoldable pub load_right : (Operator → Run Answer) → Join → Run Join
load_right next j =
    if leb (length j.blocks.right_block) j.blocks.right_it
    then (and_then (fetch_block next block_size j.right) λ (a : List Record × Operator).
        value (record j {
          right = a.1;
          blocks = record (j.blocks) { right_block = a.0; right_it = 0 };
        }))
    else value j

module _ (f : FloatOps) where
  -- `comp` is a BOOL that is TRUE: unknown and false are skipped.
  unfoldable pub accepts : Expression → Record → Result Bool
  accepts e r = do
    v ← evaluate f r e
    (if not (is_bool v.type) then err assert_failed else if v.is_null then ok false else as_bool v)

  -- The rest of a round, with both blocks there. `again` is the next round.
  unfoldable pub match_pair :
      Expression → (Blocks → Operator) → (Operator → Run Answer) → Blocks → Run Answer
  match_pair e state again b = elim (get_elem? b.right_block b.right_it) [
    | none ↦ threw out_of_range
    | some right_record ↦ elim (get_elem? b.left_block b.left_it) [
      | none ↦ again (state (record b { left_it = 0; right_it = b.right_it + 1 }))
      | some left_record ↦
          let record_ = concat left_record right_record in
          let b' = record b { left_it = b.left_it + 1 } in
          and_then (of_result (accepts e record_)) λ accepted. elim accepted [
            | true ↦ value (some record_, state b')
            | false ↦ again (state b')
          ]
    ]
  ]

  -- An empty right block ends the left block.
  unfoldable pub match_right :
      Expression → List Column → (Operator → Run Answer) → Join → Run Answer
  match_right e s again j = elim (is_empty j.blocks.right_block) [
    | true ↦
        again (Operator.nested_loop_join j.left j.right e s (record (j.blocks) { left_block = [] }))
    | false ↦ match_pair e (λ b. Operator.nested_loop_join j.left j.right e s b) again j.blocks
  ]

  -- An empty left block ends the join.
  unfoldable pub match_left : Expression → List Column → (Operator → Run Answer) → Join → Run Answer
  match_left e s again j = elim (is_empty j.blocks.left_block) [
    | true ↦ value (none, Operator.nested_loop_join j.left j.right e s j.blocks)
    | false ↦ and_then (load_right again j) (match_right e s again)
  ]

  module _ (rows : ℕ → List Record) where
    -- One round of the loop of the join.
    unfoldable pub join_round :
        Expression → List Column → (Operator → Run Answer) → Join → Run Answer
    join_round e s again j = and_then (load_left rows again j) (match_left e s again)

    unfoldable pub filter_round : Expression → (Operator → Run Answer) → Answer → Run Answer
    filter_round e again (none, c) = value (none, Operator.filter c e)
    filter_round e again (some r, c) = and_then (of_result (accepts e r)) λ accepted.
        elim accepted [
          | true ↦ value (some r, Operator.filter c e)
          | false ↦ again (Operator.filter c e)
        ]

    unfoldable pub project : List ℕ → List Column → Answer → Run Answer
    unfolding select
    project is s (none, c) = value (none, Operator.projection c is s)
    project is s (some r, c) =
        and_then (of_result (select r is)) λ values. value (some values, Operator.projection c is s)

    -- The fuel bounds the rounds of the loops and the depth of the operators together.
    unfoldable pub next : ℕ → Operator → Run Answer
    next zero op = out_of_fuel
    next (suc k) (Operator.sequential_scan t records) = value (scan_next t records)
    next (suc k) (Operator.filter c e) = and_then (next k c) (filter_round e (next k))
    next (suc k) (Operator.projection c is s) = and_then (next k c) (project is s)
    next (suc k) (Operator.limit c n produced) = elim (leb n produced) [
      | true ↦ value (none, Operator.limit c n produced)
      | false ↦ and_then (next k c) λ (a : Answer). value (a.0, Operator.limit a.1 n (produced + 1))
    ]
    next (suc k) (Operator.nested_loop_join l r e s b) =
        join_round e s (next k) (record { left = l; right = r; blocks = b })

    -- A client that takes the records of a result until there are no more.
    unfoldable pub drain : ℕ → Operator → Run (List Record)
    drain zero op = out_of_fuel
    drain (suc k) op = and_then (next k op) λ (a : Answer). elim a.0 [
      | none ↦ value []
      | some r ↦ and_then (drain k a.1) λ rs. value (r ∷ rs)
    ]
