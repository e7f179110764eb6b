-- ===== src/Plan.antt =====
-- Plans, the optimizer and the operators that the executor builds (src/plan, and `build` of
-- src/execution/executor.cpp). A table is named by its number, and its schema and the records that
-- a scan of it gives are parameters.
pub mod Schemas
mod Examples
use duck_duck_dbms.Common.{ℕ, List, [], Result, ok, err, ◌>>=◌}
use duck_duck_dbms.Tuple.Schema.{Column, projected, sum}
use duck_duck_dbms.Expression.Evaluate.{Record, Expression}

pub data LogicalPlan : Type 0 where
  scan : ℕ → LogicalPlan
  join : LogicalPlan → LogicalPlan → Expression → List Column → LogicalPlan
  filter : LogicalPlan → Expression → LogicalPlan
  projection : LogicalPlan → List ℕ → List Column → LogicalPlan
  limit : LogicalPlan → ℕ → LogicalPlan

pub data PhysicalPlan : Type 0 where
  sequential_scan : ℕ → PhysicalPlan
  nested_loop_join : PhysicalPlan → PhysicalPlan → Expression → List Column → PhysicalPlan
  filter : PhysicalPlan → Expression → PhysicalPlan
  projection : PhysicalPlan → List ℕ → List Column → PhysicalPlan
  limit : PhysicalPlan → ℕ → PhysicalPlan

-- The blocks and the positions of a join, which are empty and 0 at first.
pub record Blocks : Type 0 where
  pub left_block : List Record
  pub right_block : List Record
  pub left_it : ℕ
  pub right_it : ℕ

-- A scan has the records that are still to come, and a limit the count of those it has produced.
pub data Operator : Type 0 where
  sequential_scan : ℕ → List Record → Operator
  nested_loop_join : Operator → Operator → Expression → List Column → Blocks → Operator
  filter : Operator → Expression → Operator
  projection : Operator → List ℕ → List Column → Operator
  limit : Operator → ℕ → ℕ → Operator

unfoldable pub optimize : LogicalPlan → PhysicalPlan
optimize (LogicalPlan.scan t) = PhysicalPlan.sequential_scan t
optimize (LogicalPlan.join l r e s) = PhysicalPlan.nested_loop_join (optimize l) (optimize r) e s
optimize (LogicalPlan.filter c e) = PhysicalPlan.filter (optimize c) e
optimize (LogicalPlan.projection c is s) = PhysicalPlan.projection (optimize c) is s
optimize (LogicalPlan.limit c n) = PhysicalPlan.limit (optimize c) n

abbrev pub no_blocks : Blocks
no_blocks = record { left_block = []; right_block = []; left_it = 0; right_it = 0 }

unfoldable pub build : (ℕ → List Record) → PhysicalPlan → Operator
build rows (PhysicalPlan.sequential_scan t) = Operator.sequential_scan t (rows t)
build rows (PhysicalPlan.nested_loop_join l r e s) =
    Operator.nested_loop_join (build rows l) (build rows r) e s no_blocks
build rows (PhysicalPlan.filter c e) = Operator.filter (build rows c) e
build rows (PhysicalPlan.projection c is s) = Operator.projection (build rows c) is s
build rows (PhysicalPlan.limit c n) = Operator.limit (build rows c) n 0

unfoldable pub reset : (ℕ → List Record) → Operator → Operator
reset rows (Operator.sequential_scan t rest) = Operator.sequential_scan t (rows t)
reset rows (Operator.nested_loop_join l r e s b) =
    Operator.nested_loop_join (reset rows l) (reset rows r) e s no_blocks
reset rows (Operator.filter c e) = Operator.filter (reset rows c) e
reset rows (Operator.projection c is s) = Operator.projection (reset rows c) is s
reset rows (Operator.limit c n produced) = Operator.limit (reset rows c) n 0

module _ (schemas : ℕ → List Column) where
  unfoldable pub logical_schema : LogicalPlan → List Column
  logical_schema (LogicalPlan.scan t) = schemas t
  logical_schema (LogicalPlan.join l r e s) = s
  logical_schema (LogicalPlan.filter c e) = logical_schema c
  logical_schema (LogicalPlan.projection c is s) = s
  logical_schema (LogicalPlan.limit c n) = logical_schema c

  unfoldable pub output_schema : Operator → List Column
  output_schema (Operator.sequential_scan t rest) = schemas t
  output_schema (Operator.nested_loop_join l r e s b) = s
  output_schema (Operator.filter c e) = output_schema c
  output_schema (Operator.projection c is s) = s
  output_schema (Operator.limit c n produced) = output_schema c

  -- The constructor of a projection computes its schema.
  unfoldable pub make_projection : LogicalPlan → List ℕ → Result LogicalPlan
  make_projection c is = do s ← projected (logical_schema c) is; ok (LogicalPlan.projection c is s)

  -- The constructor of a join computes its schema.
  unfoldable pub make_join : LogicalPlan → LogicalPlan → Expression → Result LogicalPlan
  make_join l r e = do s ← sum (logical_schema l) (logical_schema r); ok (LogicalPlan.join l r e s)
