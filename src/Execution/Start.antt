-- ===== src/Execution/Start.antt =====
-- The operators that the executor builds, or that a reset leaves, have the whole meaning of their
-- plan still to deliver.
use duck_duck_dbms.Common.{ℕ, ◌-◌, ◌≡◌, refl, ap, List, [], ◌∷◌, keep, map, arith}
use duck_duck_dbms.Tuple.Value.{ValueType}
use duck_duck_dbms.Expression.Compare.{FloatOps}
use duck_duck_dbms.Expression.Evaluate.{Record, Expression}
use duck_duck_dbms.Plan.{PhysicalPlan, Operator, build, reset}
use duck_duck_dbms.Plan.Schemas.{
  BuiltFor, for_scan, for_join, for_filter, for_projection, for_limit, reset-build,
}
use duck_duck_dbms.Execution.Meaning.{
  holds, selected, matches, block_matches, of_right, meaning, rest,
}
use duck_duck_dbms.Execution.Typed.{
  HasPlan, of_scan, of_join, of_filter, of_projection, of_limit, IsState, at_scan, at_join,
  at_filter, at_projection, at_limit,
}

module _ (f : FloatOps) where
  -- No left record, no match.
  pub block_matches-nil : (e : Expression) (rs : List Record) → block_matches f e [] rs ≡ []
  unfolding block_matches matches
  block_matches-nil e [] = refl
  block_matches-nil e (r ∷ rs) = block_matches-nil e rs

module _ (rows : ℕ → List Record) where
  IsState-BuiltFor :
      {p : PhysicalPlan} {cols : List ValueType} {o : Operator}
      → IsState rows p cols o
      → BuiltFor p o
  IsState-BuiltFor (at_scan h k) = for_scan
  IsState-BuiltFor (at_join a b q h x y i) = for_join (IsState-BuiltFor a) (IsState-BuiltFor b)
  IsState-BuiltFor (at_filter c h) = for_filter (IsState-BuiltFor c)
  IsState-BuiltFor (at_projection c s) = for_projection (IsState-BuiltFor c)
  IsState-BuiltFor (at_limit c) = for_limit (IsState-BuiltFor c)

  pub reset-eq :
      {p : PhysicalPlan} {cols : List ValueType} {o : Operator}
      → IsState rows p cols o
      → reset rows o ≡ build rows p
  reset-eq s = reset-build rows (IsState-BuiltFor s)

  pub build-IsState :
      {p : PhysicalPlan} {cols : List ValueType}
      → HasPlan rows p cols
      → IsState rows p cols (build rows p)
  unfolding build
  build-IsState (of_scan h) = at_scan h h
  build-IsState (of_join l r q h) =
      at_join (build-IsState l) (build-IsState r) q h tt tt (λ _. refl)
  build-IsState (of_filter c h) = at_filter (build-IsState c) h
  build-IsState (of_projection c s) = at_projection (build-IsState c) s
  build-IsState (of_limit c) = at_limit (build-IsState c)

  pub rest-build :
      (f : FloatOps) {p : PhysicalPlan} {cols : List ValueType}
      → HasPlan rows p cols
      → rest f rows p (build rows p) ≡ meaning f rows p
  unfolding build rest meaning of_right
  rest-build f (of_scan h) = refl
  rest-build f (of_join {e = e} l r q h) = rw (block_matches-nil f e _, rest-build f l) refl
  rest-build f (of_filter {e = e} c h) = ap (keep (holds f e)) (rest-build f c)
  rest-build f (of_projection {is = is} c s) = ap (map (selected is)) (rest-build f c)
  rest-build f (of_limit {n = n} c) = let e : n - 0 ≡ n = omega arith in rw (e, rest-build f c) refl
