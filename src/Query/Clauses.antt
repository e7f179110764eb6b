-- ===== src/Query/Clauses.antt =====
-- Binding the predicate of a query: the plan means the choices that pass.
use duck_duck_dbms.Common.{
  ℕ, ◌≡◌, refl, sym, ap, ◌∙◌, ◌⊎◌, inl, inr, List, [], ◌∷◌, map, keep, All, Bool-cases, ok,
}
use mathlib.Core.Path.{subst}
use mathlib.Core.List.{Perm}
use duck_duck_dbms.Tuple.Value.{ValueType}
use duck_duck_dbms.Tuple.Schema.{Column}
use duck_duck_dbms.Expression.Compare.{FloatOps}
use duck_duck_dbms.Expression.Evaluate.{Record, Expression}
use duck_duck_dbms.Plan.{LogicalPlan, optimize, logical_schema}
use duck_duck_dbms.Execution.Meaning.{meaning, holds}
use duck_duck_dbms.Execution.Typed.{of_filter}
use duck_duck_dbms.Execution.Lists.{All-keep}
use duck_duck_dbms.Query.{UnboundExpression}
use duck_duck_dbms.Query.Binder.{bind_expression, bind_filter}
use duck_duck_dbms.Query.Names.{row, bindings}
use duck_duck_dbms.Query.Meaning.{evaluate-bind_expression}
use duck_duck_dbms.Query.Typing.{
  HasNamedType, of_ref, of_value, of_compared, of_both, of_negated, bind_expression-HasType,
}
use duck_duck_dbms.Query.Answers.{Choice, is_true, is_met, passes}
use duck_duck_dbms.Query.Alike.{Alike, bindings-Alike, Alike-IsWhole}
use duck_duck_dbms.Query.Bags.{keep-Perm}
use duck_duck_dbms.Query.Choices.{holds-is_true}
use duck_duck_dbms.Query.Joins.{Tables, IsJoined}

module _ (f : FloatOps) where
  -- A typed predicate is there.
  passes_typed :
      {ts : Tables} {u : UnboundExpression} {ty : ValueType}
      → HasNamedType ts u ty
      → (xs : Choice) → passes f u xs ≡ is_met f u xs
  unfolding passes
  passes_typed (of_ref h) xs = refl
  passes_typed (of_value c h) xs = refl
  passes_typed (of_compared a b) xs = refl
  passes_typed (of_both a b) xs = refl
  passes_typed (of_negated a) xs = refl

  passing :
      (ts : Tables) (u : UnboundExpression) (e : Expression)
      → HasNamedType ts u ValueType.bool
      → bind_expression u (bindings 0 ts) ≡ ok e
      → (xs : Choice) → Alike ts xs
      → holds f e (row xs) ≡ passes f u xs
  unfolding is_met
  passing ts u e h b xs a =
      holds-is_true f e (row xs)
      ∙ ap is_true (
          evaluate-bind_expression f xs u e (Alike-IsWhole ts xs a)
            (ap (bind_expression u) (bindings-Alike ts xs a) ∙ b))
      ∙ sym (passes_typed h xs)

  kept :
      (ts : Tables) (u : UnboundExpression) (e : Expression)
      → HasNamedType ts u ValueType.bool
      → bind_expression u (bindings 0 ts) ≡ ok e
      → (cs : List Choice) → All (Alike ts) cs
      → keep (holds f e) (map row cs) ≡ map row (keep (passes f u) cs)
  kept ts u e h b [] w = refl
  kept ts u e h b (c ∷ cs) (a, w) =
      let p = passing ts u e h b c a in
      let rest = kept ts u e h b cs w in
      elim (Bool-cases (passes f u c)) [
        | inl q ↦ rw (p, q) (ap (λ l. row c ∷ l) rest)
        | inr q ↦ rw (p, q) rest
      ]

bind_filter_typed :
    {ts : Tables} {u : UnboundExpression} {ty : ValueType} (plan : LogicalPlan) (e : Expression)
    → HasNamedType ts u ty
    → bind_expression u (bindings 0 ts) ≡ ok e
    → bind_filter u (plan, bindings 0 ts) ≡ ok (LogicalPlan.filter plan e)
unfolding bind_filter
bind_filter_typed plan e (of_ref h) b = rw b refl
bind_filter_typed plan e (of_value c h) b = rw b refl
bind_filter_typed plan e (of_compared x y) b = rw b refl
bind_filter_typed plan e (of_both x y) b = rw b refl
bind_filter_typed plan e (of_negated x) b = rw b refl

module _ (schemas : ℕ → List Column) (types : ℕ → List ValueType) (rows : ℕ → List Record)
    (f : FloatOps) (plan : LogicalPlan) (ts : Tables) (cs : List Choice)
    (j : IsJoined schemas types rows f plan ts cs) where
  filtered :
      (u : UnboundExpression)
      → HasNamedType ts u ValueType.bool
      → (p : LogicalPlan) × (bind_filter u (plan, bindings 0 ts) ≡ ok p)
        × IsJoined schemas types rows f p ts (keep (passes f u) cs)
  unfolding optimize logical_schema meaning
  filtered u h =
      let (e, b, k) = bind_expression-HasType ts j.whole h in
      (
        LogicalPlan.filter plan e,
        bind_filter_typed plan e h b,
        record {
          typed = of_filter j.typed k;
          width = j.width;
          whole = j.whole;
          alike = All-keep (Alike ts) (passes f u) cs j.alike;
          same =
              subst (Perm (keep (holds f e) (meaning f rows (optimize plan))))
                (kept f ts u e h b cs j.alike) (keep-Perm (holds f e) j.same);
        },
      )

  keep_all : (ds : List Choice) → keep (passes f UnboundExpression.null) ds ≡ ds
  unfolding passes
  keep_all [] = refl
  keep_all (d ∷ ds) = ap (λ l. d ∷ l) (keep_all ds)

  -- A predicate of type BOOL, or none, is bound.
  pub bind_filter-IsJoined :
      (u : UnboundExpression)
      → (u ≡ UnboundExpression.null) ⊎ HasNamedType ts u ValueType.bool
      → (p : LogicalPlan) × (bind_filter u (plan, bindings 0 ts) ≡ ok p)
        × IsJoined schemas types rows f p ts (keep (passes f u) cs)
  unfolding bind_filter
  bind_filter-IsJoined u (inr h) = filtered u h
  bind_filter-IsJoined u (inl e) = (plan, rw e refl, rw (e, keep_all cs) j)
