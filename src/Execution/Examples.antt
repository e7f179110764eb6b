-- ===== src/Execution/Examples.antt =====
-- The theorems on running queries, at a join of two small tables of flags.
use duck_duck_dbms.Common.{
  ℕ, zero, suc, ◌≤◌, ◌≡◌, refl, arith, Bool, true, false, List, [], ◌∷◌, All, replicate, ltb,
}
use mathlib.Core.List.{Perm}
use duck_duck_dbms.Tuple.Value.{ValueType, Variant, of, as_bool}
use duck_duck_dbms.Expression.Compare.{FloatOps}
use duck_duck_dbms.Expression.Evaluate.{Record, column, evaluate}
use duck_duck_dbms.Expression.Typing.{HasType, Conforms, of_column}
use duck_duck_dbms.Plan.{PhysicalPlan, Operator, build, reset}
use duck_duck_dbms.Execution.{
  Run, next, drain, accepts, join_round, load_left, load_right, match_left, match_right, match_pair,
  fetch_block,
}
use duck_duck_dbms.Execution.Meaning.{meaning}
use duck_duck_dbms.Execution.Typed.{HasPlan, of_scan, of_join, IsState, at_scan, at_join}
use duck_duck_dbms.Execution.Gives.{Gives}
use duck_duck_dbms.Execution.Delivers.{next-Gives, drain-build}
use duck_duck_dbms.Execution.Bag.{nested_loops, drain-nested_loops}

abbrev floats : FloatOps
floats = record { is_nan = λ x. false; lt = ltb; widen = λ x. x; of_uint64 = λ n. n }

abbrev flag : Bool → Record
flag b = of (Variant.bool b) ∷ []

-- 25 left records, which are more than a block, and two right records.
abbrev rows : ℕ → List Record
rows zero = flag false ∷ replicate 24 (flag true)
rows (suc n) = flag false ∷ flag true ∷ []

abbrev flags : List ValueType
flags = ValueType.bool ∷ []

abbrev both : List ValueType
both = ValueType.bool ∷ ValueType.bool ∷ []

abbrev plan : PhysicalPlan
plan =
    PhysicalPlan.nested_loop_join (PhysicalPlan.sequential_scan 0) (PhysicalPlan.sequential_scan 1)
      (column 1) []

flag-Conforms : (b : Bool) → Conforms flags (flag b)
flag-Conforms b = (refl, λ h. refl, tt)

All-replicate : (n : ℕ) (r : Record) → Conforms flags r → All (Conforms flags) (replicate n r)
All-replicate zero r h = tt
All-replicate (suc n) r h = (h, All-replicate n r h)

left_rows : All (Conforms flags) (rows 0)
left_rows = (flag-Conforms false, All-replicate 24 (flag true) (flag-Conforms true))

right_rows : All (Conforms flags) (rows 1)
right_rows = (flag-Conforms false, (flag-Conforms true, tt))

left_plan : HasPlan rows (PhysicalPlan.sequential_scan 0) flags
left_plan = of_scan left_rows

right_plan : HasPlan rows (PhysicalPlan.sequential_scan 1) flags
right_plan = of_scan right_rows

condition : HasType both (column 1) ValueType.bool
condition = of_column refl

drain_test :
    drain floats rows 200 (build rows plan)
    ≡ Run.value
        ((of (Variant.bool false) ∷ flag true) ∷ replicate 24 (of (Variant.bool true) ∷ flag true))
unfolding drain next join_round load_left load_right match_left match_right match_pair fetch_block
    accepts evaluate as_bool build reset
drain_test = refl

drain-build_example :
    ((n : ℕ) × ((k : ℕ)
        → n ≤ k
        → drain floats rows k (build rows plan) ≡ Run.value (meaning floats rows plan)))
    × All (Conforms both) (meaning floats rows plan)
drain-build_example =
    drain-build floats rows plan both (of_join left_plan right_plan refl condition)

drain-nested_loops_example :
    (records : List Record) × ((n : ℕ) × ((k : ℕ)
        → n ≤ k
        → drain floats rows k (build rows plan) ≡ Run.value records))
    × Perm records (
        nested_loops floats
          (column 1)
          (meaning floats rows (PhysicalPlan.sequential_scan 0))
          (meaning floats rows (PhysicalPlan.sequential_scan 1)))
drain-nested_loops_example =
    drain-nested_loops floats rows (PhysicalPlan.sequential_scan 0) (PhysicalPlan.sequential_scan 1)
      (column 1) [] flags flags left_plan right_plan condition

-- A join in the middle of its blocks.
abbrev middle : Operator
middle =
    Operator.nested_loop_join (Operator.sequential_scan 0 (flag true ∷ []))
      (Operator.sequential_scan 1 []) (column 1) []
      (record {
        left_block = flag false ∷ [];
        right_block = flag false ∷ flag true ∷ [];
        left_it = 1;
        right_it = 0;
      })

middle-IsState : IsState rows plan both middle
middle-IsState =
    at_join {cl = flags} {cr = flags} (at_scan left_rows (flag-Conforms true, tt))
      (at_scan right_rows tt) refl condition (flag-Conforms false, tt) right_rows
      (λ h. absurd (omega arith))

next-Gives_example : Gives floats rows plan both middle
next-Gives_example = next-Gives floats rows plan both middle middle-IsState
