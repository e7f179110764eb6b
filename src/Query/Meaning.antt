-- ===== src/Query/Meaning.antt =====
-- Evaluation of an expression by its names, on tables side by side, with no positions. Binding keeps
-- what an expression means.
use duck_duck_dbms.Common.{
  ℕ, ◌≡◌, refl, sym, ap, ◌∙◌, none, some, List, All, get_elem?, inl, inr, Result, ok, err, ◌>>=◌,
  null_expression, no_such_column, bind-ok,
}
use duck_duck_dbms.Tuple.Value.{Value}
use duck_duck_dbms.Expression.Compare.{FloatOps, compare}
use duck_duck_dbms.Expression.Evaluate.{
  Record, get, Expression, comparison_result, evaluate_binary, evaluate_unary, evaluate,
}
use duck_duck_dbms.Query.{ColumnRef, UnboundExpression}
use duck_duck_dbms.Query.Binder.{resolve_column, bind_expression}
use duck_duck_dbms.Query.Names.{Part, IsWhole, row, bindings, lookup, resolve_column-lookup}

unfoldable pub value_of : ColumnRef → List (Part Value) → Result Value
value_of c xs = elim (lookup c xs) [ none ↦ err no_such_column | some v ↦ ok v ]

pub get-some : (r : Record) (i : ℕ) (v : Value) → get_elem? r i ≡ some v → get r i ≡ ok v
unfolding get
get-some r i v h = rw (h, get) refl

value_of-some :
    (c : ColumnRef) (xs : List (Part Value)) (v : Value)
    → lookup c xs ≡ some v
    → value_of c xs ≡ ok v
unfolding value_of
value_of-some c xs v h = rw (h, value_of) refl

resolved_value :
    (xs : List (Part Value)) (c : ColumnRef) (i : ℕ)
    → All IsWhole xs
    → resolve_column c (bindings 0 xs) ≡ ok i
    → get (row xs) i ≡ value_of c xs
resolved_value xs c i w h = elim (resolve_column-lookup c xs w) [
  | inl (j, v, r, g, l) ↦
      let e : i ≡ j = cc (h, r) in
      get-some (row xs) i v (ap (get_elem? (row xs)) e ∙ g) ∙ sym (value_of-some c xs v l)
  | inr (e, r, l) ↦ cc (h, r)
]

module _ (f : FloatOps) where
  unfoldable pub evaluate_named : List (Part Value) → UnboundExpression → Result Value
  evaluate_named xs UnboundExpression.null = err null_expression
  evaluate_named xs (UnboundExpression.column c) = value_of c xs
  evaluate_named xs (UnboundExpression.constant v) = ok v
  evaluate_named xs (UnboundExpression.comparison a op b) = do
    left ← evaluate_named xs a
    right ← evaluate_named xs b
    cmp ← compare f left right
    ok (comparison_result op cmp)
  evaluate_named xs (UnboundExpression.binary a op b) = do
    left ← evaluate_named xs a
    right ← evaluate_named xs b
    evaluate_binary op left right
  evaluate_named xs (UnboundExpression.unary a op) = do v ← evaluate_named xs a; evaluate_unary op v

  -- An expression that is bound against tables, and evaluated on the record of their values side by
  -- side, gives what its names mean on the tables, and throws what they throw.
  pub evaluate-bind_expression :
      (xs : List (Part Value)) (u : UnboundExpression) (e : Expression)
      → All IsWhole xs
      → bind_expression u (bindings 0 xs) ≡ ok e
      → evaluate f (row xs) e ≡ evaluate_named xs u
  unfolding evaluate evaluate_named bind_expression
  evaluate-bind_expression xs UnboundExpression.null e w h = cc
  evaluate-bind_expression xs (UnboundExpression.column c) e w h =
      let (i, r, k) = bind-ok _ _ e h in
      let q : e ≡ Expression.column i = cc k in
      ap (evaluate f (row xs)) q ∙ resolved_value xs c i w r
  evaluate-bind_expression xs (UnboundExpression.constant v) e w h =
      let q : e ≡ Expression.constant v = cc h in ap (evaluate f (row xs)) q
  evaluate-bind_expression xs (UnboundExpression.comparison a op b) e w h =
      let (x, r, k) = bind-ok _ _ e h in
      let (y, s, m) = bind-ok _ _ e k in
      let q : e ≡ Expression.comparison x op y = cc m in
      ap (evaluate f (row xs)) q
      ∙ simp (evaluate-bind_expression xs a x w r, evaluate-bind_expression xs b y w s)
  evaluate-bind_expression xs (UnboundExpression.binary a op b) e w h =
      let (x, r, k) = bind-ok _ _ e h in
      let (y, s, m) = bind-ok _ _ e k in
      let q : e ≡ Expression.binary x op y = cc m in
      ap (evaluate f (row xs)) q
      ∙ simp (evaluate-bind_expression xs a x w r, evaluate-bind_expression xs b y w s)
  evaluate-bind_expression xs (UnboundExpression.unary a op) e w h =
      let (x, r, k) = bind-ok _ _ e h in
      let q : e ≡ Expression.unary op x = cc k in
      ap (evaluate f (row xs)) q ∙ simp (evaluate-bind_expression xs a x w r)
