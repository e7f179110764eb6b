-- ===== src/Query/Again.antt =====
-- A query object that is used twice (`take_joins` and `take_predicate` of
-- include/duck/query/select_query.hpp).
use duck_duck_dbms.Common.{
  ℕ, ◌≡◌, refl, ap, ◌∙◌, Option, none, some, List, [], ◌∷◌, Result, ok, ◌>>=◌,
}
use duck_duck_dbms.Tuple.Value.{ValueType}
use duck_duck_dbms.Tuple.Schema.{Column}
use duck_duck_dbms.Expression.Compare.{FloatOps}
use duck_duck_dbms.Expression.Evaluate.{Record}
use duck_duck_dbms.Plan.{LogicalPlan}
use duck_duck_dbms.Query.{ColumnRef, UnboundExpression, TableRef, SelectQuery}
use duck_duck_dbms.Query.Binder.{
  binding, bind_joins, bind_filter, bind_projection, bind_limit, bind_clauses, after_joins,
  bind_from, bind_table, bind,
}
use duck_duck_dbms.Query.Typed.{IsTyped}
use duck_duck_dbms.Query.Runs.{unlimited}

module _ (schemas : ℕ → List Column) (types : ℕ → List ValueType) (rows : ℕ → List Record)
    (catalog : List ℕ → Option ℕ) (f : FloatOps) where
  scan_alone :
      (q : SelectQuery) (r : TableRef) (t : ℕ)
      → q.table ≡ some r
      → catalog r.name ≡ some t
      → q.columns ≡ none
      → (bind schemas catalog (record q { joins = []; predicate = UnboundExpression.null })).0
        ≡ ok (bind_limit q.limit (LogicalPlan.scan t))
  unfolding bind bind_table bind_from bind_joins after_joins bind_clauses bind_filter
      bind_projection
  scan_alone q r t h e c =
      let again = record q { joins = []; predicate = UnboundExpression.null } in
      let context = binding schemas r t 0 ∷ [] in
      ap (λ (o : Option TableRef). (bind_table schemas catalog again o).0) h
      ∙ ap (λ (o : Option ℕ). (bind_from schemas catalog again r o).0) e
      ∙ ap
          (λ (o : Option (List ColumnRef)).
            bind_projection schemas o context (LogicalPlan.scan t) >>= λ p.
            ok (bind_limit q.limit p))
          c

  -- Binding a typed query leaves the query without its joins and its predicate. So when it asked for
  -- all columns, and is bound again, there is no error, and the plan is that of the first table
  -- alone: all rows of it, up to the limit.
  pub bind_again :
      (q : SelectQuery) (cols : List ValueType) (h : IsTyped schemas types rows catalog q cols)
      → q.columns ≡ none
      → (left : SelectQuery) × ((bind schemas catalog q).1 ≡ left)
        × (left ≡ record q { joins = []; predicate = UnboundExpression.null })
        × ((bind schemas catalog left).0 ≡ ok (bind_limit q.limit (LogicalPlan.scan h.number)))
  bind_again q cols h c =
      let (p, e, g) = unlimited schemas types rows catalog f q cols h in
      (
        record q { joins = []; predicate = UnboundExpression.null },
        ap (λ (x : Result LogicalPlan × SelectQuery). x.1) e,
        refl,
        scan_alone q h.ref h.number h.from h.found c,
      )
