-- ===== src/Plan/Schemas.antt =====
-- The operators that run a plan have its schema, and a reset brings them back to the start.
use duck_duck_dbms.Common.{ℕ, ◌≡◌, refl, ap, List}
use mathlib.Core.Path.{ap₂}
use duck_duck_dbms.Tuple.Schema.{Column}
use duck_duck_dbms.Expression.Evaluate.{Record, Expression}
use duck_duck_dbms.Plan.{
  LogicalPlan, PhysicalPlan, Operator, Blocks, no_blocks, optimize, build, reset, logical_schema,
  output_schema,
}

module _ (rows : ℕ → List Record) where
  -- The operators that are built for an optimized plan have the schema of the logical plan.
  pub output_schema-build :
      (schemas : ℕ → List Column) (p : LogicalPlan)
      → output_schema schemas (build rows (optimize p)) ≡ logical_schema schemas p
  unfolding output_schema build optimize logical_schema
  output_schema-build schemas (LogicalPlan.scan t) = refl
  output_schema-build schemas (LogicalPlan.join l r e s) = refl
  output_schema-build schemas (LogicalPlan.filter c e) = output_schema-build schemas c
  output_schema-build schemas (LogicalPlan.projection c is s) = refl
  output_schema-build schemas (LogicalPlan.limit c n) = output_schema-build schemas c

-- Two operators that differ in their state alone: both were built for the same plan.
pub data BuiltFor : PhysicalPlan → Operator → Type 0 where
  for_scan :
      {t : ℕ} {rest : List Record}
      → BuiltFor (PhysicalPlan.sequential_scan t) (Operator.sequential_scan t rest)
  for_join :
      {l r : PhysicalPlan} {a b : Operator} {e : Expression} {s : List Column} {k : Blocks}
      → BuiltFor l a
      → BuiltFor r b
      → BuiltFor (PhysicalPlan.nested_loop_join l r e s) (Operator.nested_loop_join a b e s k)
  for_filter :
      {c : PhysicalPlan} {a : Operator} {e : Expression}
      → BuiltFor c a
      → BuiltFor (PhysicalPlan.filter c e) (Operator.filter a e)
  for_projection :
      {c : PhysicalPlan} {a : Operator} {is : List ℕ} {s : List Column}
      → BuiltFor c a
      → BuiltFor (PhysicalPlan.projection c is s) (Operator.projection a is s)
  for_limit :
      {c : PhysicalPlan} {a : Operator} {n produced : ℕ}
      → BuiltFor c a
      → BuiltFor (PhysicalPlan.limit c n) (Operator.limit a n produced)

module _ (rows : ℕ → List Record) where
  -- Whatever state the operators of a plan have come to, a reset makes them those that the executor
  -- builds, when the tables are the same.
  pub reset-build : {p : PhysicalPlan} {o : Operator} → BuiltFor p o → reset rows o ≡ build rows p
  unfolding reset build
  reset-build for_scan = refl
  reset-build (for_join {e = e} {s = s} l r) =
      ap₂ (λ a b. Operator.nested_loop_join a b e s no_blocks) (reset-build l) (reset-build r)
  reset-build (for_filter {e = e} c) = ap (λ a. Operator.filter a e) (reset-build c)
  reset-build (for_projection {is = is} {s = s} c) =
      ap (λ a. Operator.projection a is s) (reset-build c)
  reset-build (for_limit {n = n} c) = ap (λ a. Operator.limit a n 0) (reset-build c)
