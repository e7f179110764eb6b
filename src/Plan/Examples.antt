-- ===== src/Plan/Examples.antt =====
-- The theorems on plans at a query with a filter and a limit.
use duck_duck_dbms.Common.{ℕ, true, List, [], ◌∷◌}
use duck_duck_dbms.Tuple.Value.{Variant, of}
use duck_duck_dbms.Tuple.Schema.{Column}
use duck_duck_dbms.Expression.Evaluate.{Record, column}
use duck_duck_dbms.Plan.{LogicalPlan, PhysicalPlan, Operator}
use duck_duck_dbms.Plan.Schemas.{BuiltFor, for_scan, for_filter, for_limit}

abbrev flags : List Column
flags = record { name = 102 ∷ []; type = 6; length = 0 } ∷ []

abbrev schemas : ℕ → List Column
schemas t = flags

abbrev rows : ℕ → List Record
rows t = (of (Variant.bool true) ∷ []) ∷ []

abbrev query : LogicalPlan
query = LogicalPlan.limit (LogicalPlan.filter (LogicalPlan.scan 0) (column 0)) 5

-- The operators after the record has been read.
abbrev used : Operator
used = Operator.limit (Operator.filter (Operator.sequential_scan 0 []) (column 0)) 5 1

abbrev physical : PhysicalPlan
physical = PhysicalPlan.limit (PhysicalPlan.filter (PhysicalPlan.sequential_scan 0) (column 0)) 5

used-BuiltFor : BuiltFor physical used
used-BuiltFor = for_limit (for_filter for_scan)
