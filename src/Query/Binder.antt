-- ===== src/Query/Binder.antt =====
-- The binder and the engine (src/query/binder.cpp, query_engine.cpp). The catalog is what it answers
-- to a name, a table number or none; the schemas and the rows of the tables are parameters as in
-- `Plan`. A call of `bind` takes the joins and the predicate out of the query, so it gives back the
-- query that it leaves.
use duck_duck_dbms.Common.{
  ℕ, ◌+◌, Bool, true, false, not, Option, none, some, List, [], ◌∷◌, ◌++◌, ◌==◌, ◌&&◌, ltb,
  if◌then◌else◌, length, Result, ok, err, ◌>>=◌, no_columns, no_from, unknown_table,
  null_expression, no_qualifier, no_such_column, ambiguous, not_in_from,
}
use duck_duck_dbms.Tuple.Schema.{Column, same_name, column_index}
use duck_duck_dbms.Expression.Evaluate.{Record, Expression}
use duck_duck_dbms.Plan.{
  LogicalPlan, Operator, optimize, build, logical_schema, make_projection, make_join,
}
use duck_duck_dbms.Query.{ColumnRef, TableRef, UnboundExpression, JoinClause, SelectQuery}

pub record TableBinding : Type 0 where
  pub name : List ℕ
  pub schema : List Column
  pub offset : ℕ

-- Not `has_value() && *qualifier != name`.
unfoldable pub is_named : Option (List ℕ) → List ℕ → Bool
is_named none name = true
is_named (some q) name = same_name q name

-- The body of the loop for a binding that is not skipped: the new `match` and `matches`.
unfoldable pub add_match : ColumnRef → TableBinding → ℕ × ℕ → Result (ℕ × ℕ)
add_match c b (m, matches) = elim (column_index b.schema c.name) [
  | none ↦ err no_such_column
  | some i ↦ if ltb 0 matches then err ambiguous else ok (b.offset + i, matches + 1)
]

unfoldable pub visit : ColumnRef → TableBinding → ℕ × ℕ → Result (ℕ × ℕ)
visit c b s = if is_named c.qualifier b.name then add_match c b s else ok s

unfoldable pub resolve_in : ColumnRef → List TableBinding → ℕ × ℕ → Result (ℕ × ℕ)
resolve_in c [] s = ok s
resolve_in c (b ∷ bs) s = do s' ← visit c b s; resolve_in c bs s'

abbrev pub has_value {ℓ} : {A : Type ℓ} → Option A → Bool
has_value none = false
has_value (some a) = true

-- The check behind the loop.
unfoldable pub matched : ColumnRef → ℕ × ℕ → Result ℕ
matched c (m, matches) =
    if matches == 0
    then (if has_value c.qualifier then err not_in_from else err no_such_column)
    else ok m

unfoldable pub resolve_column : ColumnRef → List TableBinding → Result ℕ
resolve_column c context =
    if not (has_value c.qualifier) && ltb 1 (length context)
    then err no_qualifier
    else (resolve_in c context (0, 0) >>= matched c)

unfoldable pub bind_expression : UnboundExpression → List TableBinding → Result Expression
bind_expression UnboundExpression.null context = err null_expression
bind_expression (UnboundExpression.column c) context = do
  i ← resolve_column c context
  ok (Expression.column i)
bind_expression (UnboundExpression.constant v) context = ok (Expression.constant v)
bind_expression (UnboundExpression.comparison a op b) context = do
  left ← bind_expression a context
  right ← bind_expression b context
  ok (Expression.comparison left op right)
bind_expression (UnboundExpression.binary a op b) context = do
  left ← bind_expression a context
  right ← bind_expression b context
  ok (Expression.binary left op right)
bind_expression (UnboundExpression.unary a op) context = do
  child ← bind_expression a context
  ok (Expression.unary op child)

unfoldable pub resolve_columns : List ColumnRef → List TableBinding → Result (List ℕ)
resolve_columns [] context = ok []
resolve_columns (c ∷ cs) context = do
  i ← resolve_column c context
  is ← resolve_columns cs context
  ok (i ∷ is)

abbrev pub name_of : TableRef → List ℕ
name_of t = elim t.alias [ none ↦ t.name | some a ↦ a ]

-- The plan and the binding context.
abbrev pub Bound : Type 0
Bound = LogicalPlan × List TableBinding

unfoldable pub bind_filter : UnboundExpression → Bound → Result LogicalPlan
bind_filter UnboundExpression.null (plan, context) = ok plan
bind_filter u (plan, context) = do e ← bind_expression u context; ok (LogicalPlan.filter plan e)

unfoldable pub bind_limit : Option ℕ → LogicalPlan → LogicalPlan
bind_limit none plan = plan
bind_limit (some n) plan = LogicalPlan.limit plan n

module _ (schemas : ℕ → List Column) where
  abbrev pub binding : TableRef → ℕ → ℕ → TableBinding
  binding r t offset = record { name = name_of r; schema = schemas t; offset = offset }

  unfoldable pub join_table : JoinClause → Option ℕ → Bound → Result Bound
  join_table clause none b = err unknown_table
  join_table clause (some t) (plan, context) =
      let bindings =
        context ++ binding clause.table t (length (logical_schema schemas plan)) ∷ [] in
      (bind_expression clause.on bindings >>= λ e.
      make_join schemas plan (LogicalPlan.scan t) e >>= λ p. ok (p, bindings))

  unfoldable pub bind_projection :
      Option (List ColumnRef) → List TableBinding → LogicalPlan → Result LogicalPlan
  bind_projection none context plan = ok plan
  bind_projection (some []) context plan = err no_columns
  bind_projection (some (c ∷ cs)) context plan = do
    is ← resolve_columns (c ∷ cs) context
    make_projection schemas plan is

  -- What follows the joins.
  unfoldable pub bind_clauses : SelectQuery → Bound → Result LogicalPlan
  bind_clauses q b = do
    filtered ← bind_filter q.predicate b
    projected ← bind_projection q.columns b.1 filtered
    ok (bind_limit q.limit projected)

  -- The predicate is taken once the joins are bound.
  unfoldable pub after_joins : SelectQuery → Result Bound → Result LogicalPlan × SelectQuery
  after_joins q (err e) = (err e, q)
  after_joins q (ok b) = (bind_clauses q b, record q { predicate = UnboundExpression.null })

  module _ (catalog : List ℕ → Option ℕ) where
    unfoldable pub bind_joins : List JoinClause → Bound → Result Bound
    bind_joins [] b = ok b
    bind_joins (clause ∷ clauses) b = do
      b' ← join_table clause (catalog clause.table.name) b
      bind_joins clauses b'

    unfoldable pub bind_from : SelectQuery → TableRef → Option ℕ → Result LogicalPlan × SelectQuery
    bind_from q r none = (err unknown_table, q)
    bind_from q r (some t) =
        after_joins (record q { joins = [] })
          (bind_joins q.joins (LogicalPlan.scan t, binding r t 0 ∷ []))

    unfoldable pub bind_table : SelectQuery → Option TableRef → Result LogicalPlan × SelectQuery
    bind_table q none = (err no_from, q)
    bind_table q (some r) = bind_from q r (catalog r.name)

    unfoldable pub bind : SelectQuery → Result LogicalPlan × SelectQuery
    bind q = bind_table q q.table

    -- The operators of the result, from which the client takes records, and the query that is left.
    unfoldable pub execute : (ℕ → List Record) → SelectQuery → Result Operator × SelectQuery
    execute rows q = let (plan, left) = bind q in (plan >>= λ p. ok (build rows (optimize p)), left)
