-- ===== src/Expression/Soundness.antt =====
-- An expression that has a type evaluates to a value of that type and never throws.
use duck_duck_dbms.Common.{ℕ, refl, ap, ◌∙◌, List, Result, ok, ◌>>=◌}
use duck_duck_dbms.Tuple.Value.{ValueType, Value}
use duck_duck_dbms.Expression.Compare.{FloatOps, compare}
use duck_duck_dbms.Expression.Evaluate.{
  Record, ComparisonOperator, Expression, comparison_result, evaluate,
}
use duck_duck_dbms.Expression.Typing.{
  IsConsistent, Yields, Fits, Conforms, HasType, of_constant, of_column, of_comparison, of_binary,
  of_unary, get-Yields, compare_total, comparison_result-Yields,
}
use duck_duck_dbms.Expression.Logic.{HasTruth, evaluate_binary-truth, evaluate_unary-truth}

-- The first step of a block that yields a value hands it on.
bind-Yields :
    {ty : ValueType} (ty' : ValueType) (m : Result Value) (k : Value → Result Value)
    → Yields ty m
    → ((v : Value) → Fits ty v → Yields ty' (k v))
    → Yields ty' (m >>= k)
bind-Yields ty' m k (v, e, t, c) h =
    let (w, f, t', c') = h v (t, c) in (w, ap (λ x. x >>= k) e ∙ f, t', c')

HasTruth-Yields : (n : ℕ) (r : Result Value) → HasTruth n r → Yields ValueType.bool r
HasTruth-Yields n r (v, e, (t, c), _) = (v, e, t, c)

module _ (f : FloatOps) (cols : List ValueType) (r : Record) (conforms : Conforms cols r) where
  compared-Yields :
      (op : ComparisonOperator) (a b : Value)
      → IsConsistent a
      → IsConsistent b
      → Yields ValueType.bool (compare f a b >>= λ c. ok (comparison_result op c))
  compared-Yields op a b ha hb =
      let (c, e) = compare_total f a b ha hb in
      let (v, g, t, k) = comparison_result-Yields op c in
      (v, ap (λ x. x >>= λ c. ok (comparison_result op c)) e ∙ g, t, k)

  -- Evaluating a typed expression on a record whose columns have the types that the typing assumes
  -- yields a value of the expression's type: no step throws.
  pub evaluate-Yields :
      {e : Expression} {ty : ValueType} → HasType cols e ty → Yields ty (evaluate f r e)
  unfolding evaluate
  evaluate-Yields (of_constant {v = v} c t) = (v, refl, t, c)
  evaluate-Yields (of_column {i = i} {ty = ty} h) = get-Yields cols r i ty conforms h
  evaluate-Yields (of_comparison {a = a} {b = b} {op = op} ha hb) =
      bind-Yields ValueType.bool (evaluate f r a) _ (evaluate-Yields ha) λ x fx.
        bind-Yields ValueType.bool (evaluate f r b) _ (evaluate-Yields hb)
          λ y fy. compared-Yields op x y fx.1 fy.1
  evaluate-Yields (of_binary {a = a} {b = b} {op = op} ha hb) =
      bind-Yields ValueType.bool (evaluate f r a) _ (evaluate-Yields ha) λ x fx.
        bind-Yields ValueType.bool (evaluate f r b) _ (evaluate-Yields hb)
          λ y fy. HasTruth-Yields _ _ (evaluate_binary-truth op x y fx fy)
  evaluate-Yields (of_unary {a = a} {op = op} ha) =
      bind-Yields ValueType.bool (evaluate f r a) _ (evaluate-Yields ha)
        λ x fx. HasTruth-Yields _ _ (evaluate_unary-truth op x fx)
