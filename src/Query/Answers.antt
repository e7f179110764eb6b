-- ===== src/Query/Answers.antt =====
-- What a query asks for, by names and with no plan: choices of a row from each table, one after the
-- other, that meet the conditions of the joins and the predicate, and the columns of them.
use duck_duck_dbms.Common.{
  ℕ, Bool, true, false, not, ◌&&◌, Option, none, some, List, [], ◌∷◌, ◌++◌, map, keep, take,
  if◌then◌else◌, Result, ok, err,
}
use mathlib.Core.List.{flat_map}
use duck_duck_dbms.Tuple.Value.{Variant, Value}
use duck_duck_dbms.Tuple.Schema.{Column}
use duck_duck_dbms.Expression.Compare.{FloatOps, is_bool}
use duck_duck_dbms.Expression.Evaluate.{Record}
use duck_duck_dbms.Query.{ColumnRef, TableRef, UnboundExpression, JoinClause, SelectQuery}
use duck_duck_dbms.Query.Binder.{name_of}
use duck_duck_dbms.Query.Names.{Part, row, lookup}
use duck_duck_dbms.Query.Meaning.{evaluate_named}

-- A row of each table, with the table's name.
abbrev pub Choice : Type 0
Choice = List (Part Value)

abbrev pub payload_true : Variant → Bool
payload_true (Variant.bool b) = b
payload_true _ = false

-- TRUE, and not FALSE, NULL or an error.
unfoldable pub is_true : Result Value → Bool
is_true (err e) = false
is_true (ok v) = is_bool v.type && (not v.is_null && payload_true v.payload)

abbrev pub chosen_fields : List ColumnRef → Choice → Record
chosen_fields [] xs = []
chosen_fields (c ∷ cs) xs = elim (lookup c xs) [
  | none ↦ chosen_fields cs xs
  | some v ↦ v ∷ chosen_fields cs xs
]

unfoldable pub chosen : Option (List ColumnRef) → Choice → Record
chosen none xs = row xs
chosen (some cs) xs = chosen_fields cs xs

unfoldable pub first : Option ℕ → List Record → List Record
first none records = records
first (some n) records = take n records

module _ (schemas : ℕ → List Column) where
  abbrev pub part : TableRef → ℕ → Record → Part Value
  part r t values = record { name = name_of r; schema = schemas t; fields = values }

  unfoldable pub parts : (ℕ → List Record) → TableRef → Option ℕ → List (Part Value)
  parts rows r none = []
  parts rows r (some t) = map (part r t) (rows t)

module _ (f : FloatOps) where
  unfoldable pub is_met : UnboundExpression → Choice → Bool
  is_met u xs = is_true (evaluate_named f xs u)

  -- No predicate is met by every choice.
  unfoldable pub passes : UnboundExpression → Choice → Bool
  passes UnboundExpression.null xs = true
  passes u xs = is_met u xs

  unfoldable pub extended : UnboundExpression → List (Part Value) → Choice → List Choice
  extended on [] xs = []
  extended on (p ∷ ps) xs =
      let rest = extended on ps xs in
      if is_met on (xs ++ p ∷ []) then (xs ++ p ∷ []) ∷ rest else rest

  module _ (schemas : ℕ → List Column) (catalog : List ℕ → Option ℕ) (rows : ℕ → List Record) where
    unfoldable pub joined_choices : List JoinClause → List Choice → List Choice
    joined_choices [] choices = choices
    joined_choices (c ∷ cs) choices =
        joined_choices cs
          (flat_map (extended c.on (parts schemas rows c.table (catalog c.table.name))) choices)

    unfoldable pub from_table : TableRef → List Choice
    from_table r = map (λ (p : Part Value). p ∷ []) (parts schemas rows r (catalog r.name))

    unfoldable pub choices : SelectQuery → Option TableRef → List Choice
    choices q none = []
    choices q (some r) = keep (passes q.predicate) (joined_choices q.joins (from_table r))

    -- The records of a query with no limit, as a bag.
    unfoldable pub answers : SelectQuery → List Record
    answers q = map (chosen q.columns) (choices q q.table)
