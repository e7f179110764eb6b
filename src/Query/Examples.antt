-- ===== src/Query/Examples.antt =====
-- The theorems on queries, at the query of src/main.cpp: the payments of each user over an amount,
-- at most three of them. Here the columns are listed.
use duck_duck_dbms.Common.{
  ℕ, zero, suc, ◌≤◌, ◌≡◌, refl, arith, false, Option, none, some, List, [], ◌∷◌, ◌⊎◌, inr, All,
  get_elem?, ltb, if◌then◌else◌, Error, ok, err,
}
use duck_duck_dbms.Common.Int.{negsuc, pos}
use mathlib.Core.List.{Perm, flat_map}
use duck_duck_dbms.Tuple.Value.{
  ValueType, Variant, Value, of, as_integral, as_int64, as_int32, as_uint64,
}
use duck_duck_dbms.Tuple.Schema.{Column, same_name, index_from, column_index}
use duck_duck_dbms.Expression.Compare.{FloatOps, compare, compare_generic, compare_integral}
use duck_duck_dbms.Expression.Evaluate.{
  Record, Expression, ComparisonOperator, comparison_result, evaluate,
}
use duck_duck_dbms.Expression.Typing.{Conforms, IsConsistent}
use duck_duck_dbms.Plan.{LogicalPlan, Operator}
use duck_duck_dbms.Execution.{Run, drain}
use duck_duck_dbms.Query.{
  TableRef, UnboundExpression, JoinClause, SelectQuery, new_query, star, is_star, select, from,
  filter_by, limit_to, join_with,
}
use duck_duck_dbms.Query.Binder.{
  is_named, add_match, visit, resolve_in, matched, resolve_column, bind_expression, bind_limit,
  bind, execute,
}
use duck_duck_dbms.Query.Names.{Part, row, bindings, field, meant, lookup, resolve_column-lookup}
use duck_duck_dbms.Query.Meaning.{value_of, evaluate_named, evaluate-bind_expression}
use duck_duck_dbms.Query.Typing.{HasNamedType, of_ref, of_value, of_compared}
use duck_duck_dbms.Query.Answers.{
  answers, first, part, parts, choices, joined_choices, from_table, extended, is_met, is_true,
  chosen, passes,
}
use duck_duck_dbms.Query.Joins.{IsTable, typed_part}
use duck_duck_dbms.Query.Typed.{IsTyped, HasJoins, no_joins, one_join}
use duck_duck_dbms.Query.Runs.{execute-answers}
use duck_duck_dbms.Query.Again.{bind_again}

abbrev floats : FloatOps
floats = record { is_nan = λ x. false; lt = ltb; widen = λ x. x; of_uint64 = λ n. n }

abbrev users : List ℕ
users = b'u' ∷ b's' ∷ []

abbrev payments : List ℕ
payments = b'p' ∷ b'a' ∷ b'y' ∷ []

abbrev u : List ℕ
u = b'u' ∷ []

abbrev p : List ℕ
p = b'p' ∷ []

abbrev id : List ℕ
id = b'i' ∷ b'd' ∷ []

abbrev username : List ℕ
username = b'n' ∷ []

abbrev user_id : List ℕ
user_id = b'u' ∷ b'i' ∷ []

abbrev amount : List ℕ
amount = b'a' ∷ []

abbrev column_of : List ℕ → ℕ → Column
column_of name type = record { name = name; type = type; length = 0 }

abbrev schemas : ℕ → List Column
schemas zero = column_of id 3 ∷ column_of username 8 ∷ []
schemas (suc n) = column_of id 3 ∷ column_of user_id 3 ∷ column_of amount 1 ∷ []

abbrev types : ℕ → List ValueType
types zero = ValueType.uint64 ∷ ValueType.string ∷ []
types (suc n) = ValueType.uint64 ∷ ValueType.uint64 ∷ ValueType.int64 ∷ []

abbrev user : ℕ → List ℕ → Record
user n name = of (Variant.uint64 n) ∷ of (Variant.string name) ∷ []

abbrev payment : ℕ → ℕ → Value → Record
payment n by v = of (Variant.uint64 n) ∷ of (Variant.uint64 by) ∷ v ∷ []

abbrev rows : ℕ → List Record
rows zero = user 1 (b'n' ∷ []) ∷ user 2 (b's' ∷ []) ∷ []
rows (suc n) =
    payment 1 2 (of (Variant.int64 (negsuc 5211)))
    ∷ payment 2 2 (of (Variant.int64 (pos 948)))
    ∷ payment 3 1 (of (Variant.int64 (negsuc 464)))
    ∷ []

abbrev catalog : List ℕ → Option ℕ
catalog name =
    if same_name name users then some 0 else if same_name name payments then some 1 else none

abbrev of_table : List ℕ → List ℕ → UnboundExpression
of_table q name = UnboundExpression.column (record { qualifier = some q; name = name })

abbrev on : UnboundExpression
on = UnboundExpression.comparison (of_table u id) ComparisonOperator.equal (of_table p user_id)

abbrev over : UnboundExpression
over =
    UnboundExpression.comparison (of_table p amount) ComparisonOperator.greater
      (UnboundExpression.constant (of (Variant.int32 (negsuc 2999))))

abbrev table_ref : List ℕ → List ℕ → TableRef
table_ref name alias = record { name = name; alias = some alias }

abbrev clause : JoinClause
clause = record { table = table_ref payments p; on = on }

abbrev all_columns : SelectQuery
all_columns = record {
  columns = none;
  table = some (table_ref users u);
  predicate = over;
  limit = some 3;
  joins = clause ∷ [];
}

-- The calls by which src/main.cpp builds it.
built :
    limit_to 3 (
      filter_by over (
        join_with clause (
          from
            (table_ref users u)
            (select (record { qualifier = none; name = star } ∷ []) new_query))))
    ≡ all_columns
unfolding limit_to filter_by join_with from select is_star same_name
built = refl

abbrev listed : SelectQuery
listed = record all_columns {
  columns = some (
      record { qualifier = some u; name = username }
      ∷ record { qualifier = some p; name = amount }
      ∷ []);
}

abbrev both : List (Part ValueType)
both =
    typed_part schemas types (table_ref users u) 0
    ∷ typed_part schemas types (table_ref payments p) 1
    ∷ []

user-Conforms : (n : ℕ) (name : List ℕ) → Conforms (types 0) (user n name)
user-Conforms n name = (refl, λ h. refl, (refl, λ h. refl, tt))

payment-Conforms :
    (n by : ℕ) (v : Value)
    → v.type ≡ ValueType.int64
    → IsConsistent v
    → Conforms (types 1) (payment n by v)
payment-Conforms n by v t c = (refl, λ h. refl, (refl, λ h. refl, (t, c, tt)))

users-IsTable : IsTable schemas types rows 0
users-IsTable =
    (refl, omega arith, (user-Conforms 1 (b'n' ∷ []), (user-Conforms 2 (b's' ∷ []), tt)))

payments-IsTable : IsTable schemas types rows 1
payments-IsTable = (
  refl,
  omega arith,
  (
    payment-Conforms 1 2 (of (Variant.int64 (negsuc 5211))) refl (λ h. refl),
    (
      payment-Conforms 2 2 (of (Variant.int64 (pos 948))) refl (λ h. refl),
      (payment-Conforms 3 1 (of (Variant.int64 (negsuc 464))) refl (λ h. refl), tt),
    ),
  ),
)

on-HasType : HasNamedType both on ValueType.bool
unfolding lookup meant is_named field column_index index_from same_name
on-HasType = of_compared (of_ref {ty = ValueType.uint64} refl) (of_ref {ty = ValueType.uint64} refl)

over-HasType : HasNamedType both over ValueType.bool
unfolding lookup meant is_named field column_index index_from same_name
over-HasType =
    of_compared (of_ref {ty = ValueType.int64} refl)
      (of_value {v = of (Variant.int32 (negsuc 2999))} {ty = ValueType.int32} (λ h. refl) refl)

joins :
    HasJoins schemas types rows catalog
      (typed_part schemas types (table_ref users u) 0 ∷ [])
      (clause ∷ [])
      both
unfolding same_name
joins = one_join {t = 1} refl payments-IsTable on-HasType no_joins

listed-IsTyped : IsTyped schemas types rows catalog listed (ValueType.string ∷ ValueType.int64 ∷ [])
unfolding same_name lookup meant is_named field column_index index_from
listed-IsTyped = record {
  ref = table_ref users u;
  number = 0;
  tables = both;
  from = refl;
  found = refl;
  table = users-IsTable;
  joins = joins;
  predicate = inr over-HasType;
  columns = (refl, (refl, tt));
}

all_columns-IsTyped : IsTyped schemas types rows catalog all_columns (row both)
unfolding same_name
all_columns-IsTyped = record {
  ref = table_ref users u;
  number = 0;
  tables = both;
  from = refl;
  found = refl;
  table = users-IsTable;
  joins = joins;
  predicate = inr over-HasType;
  columns = refl;
}

-- What the query asks for.
asked :
    answers floats schemas catalog rows listed
    ≡ (of (Variant.string (b'n' ∷ [])) ∷ of (Variant.int64 (negsuc 464)) ∷ [])
      ∷ (of (Variant.string (b's' ∷ [])) ∷ of (Variant.int64 (pos 948)) ∷ [])
      ∷ []
unfolding answers choices joined_choices flat_map from_table parts extended is_met is_true
    evaluate_named value_of lookup meant is_named field column_index index_from same_name chosen
    passes compare compare_generic compare_integral comparison_result as_integral as_int64 as_int32
    as_uint64
asked = refl

execute-answers_example :
    (o : Operator) × (records : List Record) × (all : List Record) × ((execute schemas catalog rows
        listed).0
      ≡ ok o)
    × ((n : ℕ) × ((k : ℕ) → n ≤ k → drain floats rows k o ≡ Run.value records))
    × Perm all (answers floats schemas catalog rows listed)
    × (records ≡ first (some 3) all)
    × All (Conforms (ValueType.string ∷ ValueType.int64 ∷ [])) records
execute-answers_example =
    execute-answers schemas types rows catalog floats listed
      (ValueType.string ∷ ValueType.int64 ∷ []) listed-IsTyped

bind_again_example :
    (left : SelectQuery) × ((bind schemas catalog all_columns).1 ≡ left)
    × (left ≡ record all_columns { joins = []; predicate = UnboundExpression.null })
    × ((bind schemas catalog left).0
        ≡ ok (bind_limit (some 3) (LogicalPlan.scan all_columns-IsTyped.number)))
bind_again_example =
    bind_again schemas types rows catalog floats all_columns (row both) all_columns-IsTyped refl

-- A user and a payment side by side.
abbrev pair : List (Part Value)
pair =
    part schemas (table_ref users u) 0 (user 1 (b'n' ∷ []))
    ∷ part schemas (table_ref payments p) 1 (payment 3 1 (of (Variant.int64 (negsuc 464))))
    ∷ []

resolve_column-lookup_example :
    ((i : ℕ) × (v : Value) × (resolve_column
          (record { qualifier = some p; name = amount })
          (bindings 0 pair)
        ≡ ok i)
      × (get_elem? (row pair) i ≡ some v)
      × (lookup (record { qualifier = some p; name = amount }) pair ≡ some v))
    ⊎ ((e : Error) × (resolve_column
            (record { qualifier = some p; name = amount })
            (bindings 0 pair)
          ≡ err e)
        × (lookup (record { qualifier = some p; name = amount }) pair ≡ none))
resolve_column-lookup_example =
    resolve_column-lookup (record { qualifier = some p; name = amount }) pair (refl, (refl, tt))

on_bound :
    bind_expression on (bindings 0 pair)
    ≡ ok
        (Expression.comparison (Expression.column 0) ComparisonOperator.equal (Expression.column 3))
unfolding bind_expression resolve_column resolve_in matched visit add_match is_named column_index
    index_from same_name
on_bound = refl

evaluate-bind_expression_example :
    evaluate floats
      (row pair)
      (Expression.comparison (Expression.column 0) ComparisonOperator.equal (Expression.column 3))
    ≡ evaluate_named floats pair on
evaluate-bind_expression_example =
    evaluate-bind_expression floats pair on
      (Expression.comparison (Expression.column 0) ComparisonOperator.equal (Expression.column 3))
      (refl, (refl, tt)) on_bound
