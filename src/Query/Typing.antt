-- ===== src/Query/Typing.antt =====
-- A typing of expressions by their names. A typed expression is bound to one of the same type.
use duck_duck_dbms.Common.{ℕ, ◌≡◌, refl, sym, ◌∙◌, get_elem?, some, List, All, inl, inr, Result, ok}
use duck_duck_dbms.Tuple.Value.{ValueType, Value}
use duck_duck_dbms.Expression.Evaluate.{
  Expression, ComparisonOperator, BinaryOperator, UnaryOperator,
}
use duck_duck_dbms.Expression.Typing.{
  IsConsistent, HasType, of_constant, of_column, of_comparison, of_binary, of_unary,
}
use duck_duck_dbms.Query.{ColumnRef, UnboundExpression}
use duck_duck_dbms.Query.Binder.{resolve_column, bind_expression}
use duck_duck_dbms.Query.Names.{Part, IsWhole, row, bindings, lookup, resolve_column-lookup}

-- Every name means a column, no pointer is null, and the operands of logic are of type BOOL.
pub data HasNamedType (ts : List (Part ValueType)) : UnboundExpression → ValueType → Type 0 where
  of_ref :
      {c : ColumnRef} {ty : ValueType}
      → lookup c ts ≡ some ty
      → HasNamedType ts (UnboundExpression.column c) ty
  of_value :
      {v : Value} {ty : ValueType}
      → IsConsistent v
      → v.type ≡ ty
      → HasNamedType ts (UnboundExpression.constant v) ty
  of_compared :
      {a b : UnboundExpression} {op : ComparisonOperator} {ta tb : ValueType}
      → HasNamedType ts a ta
      → HasNamedType ts b tb
      → HasNamedType ts (UnboundExpression.comparison a op b) ValueType.bool
  of_both :
      {a b : UnboundExpression} {op : BinaryOperator}
      → HasNamedType ts a ValueType.bool
      → HasNamedType ts b ValueType.bool
      → HasNamedType ts (UnboundExpression.binary a op b) ValueType.bool
  of_negated :
      {a : UnboundExpression} {op : UnaryOperator}
      → HasNamedType ts a ValueType.bool
      → HasNamedType ts (UnboundExpression.unary a op) ValueType.bool

-- A bound expression of a type.
abbrev pub BindsAs : List ValueType → ValueType → Result Expression → Type 0
BindsAs cols ty r = (e : Expression) × (r ≡ ok e) × HasType cols e ty

module _ (ts : List (Part ValueType)) (w : All IsWhole ts) where
  pub resolved_type :
      (c : ColumnRef) (ty : ValueType)
      → lookup c ts ≡ some ty
      → (i : ℕ) × (resolve_column c (bindings 0 ts) ≡ ok i) × (get_elem? (row ts) i ≡ some ty)
  resolved_type c ty h = elim (resolve_column-lookup c ts w) [
    | inl (i, t, r, g, l) ↦ (i, r, g ∙ sym l ∙ h)
    | inr (e, r, l) ↦ cc (l, h)
  ]

  -- An expression that its names give a type is bound, and its positions give it the type.
  pub bind_expression-HasType :
      {u : UnboundExpression} {ty : ValueType}
      → HasNamedType ts u ty
      → BindsAs (row ts) ty (bind_expression u (bindings 0 ts))
  unfolding bind_expression
  bind_expression-HasType (of_ref {c = c} {ty = ty} h) =
      let (i, r, g) = resolved_type c ty h in (Expression.column i, rw r refl, of_column g)
  bind_expression-HasType (of_value {v = v} c h) = (Expression.constant v, refl, of_constant c h)
  bind_expression-HasType (of_compared {op = op} a b) =
      let (x, r, h) = bind_expression-HasType a in
      let (y, s, k) = bind_expression-HasType b in
      (Expression.comparison x op y, rw (r, s) refl, of_comparison h k)
  bind_expression-HasType (of_both {op = op} a b) =
      let (x, r, h) = bind_expression-HasType a in
      let (y, s, k) = bind_expression-HasType b in
      (Expression.binary x op y, rw (r, s) refl, of_binary h k)
  bind_expression-HasType (of_negated {op = op} a) =
      let (x, r, h) = bind_expression-HasType a in (Expression.unary op x, rw r refl, of_unary h)
