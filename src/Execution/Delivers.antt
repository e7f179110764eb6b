-- ===== src/Execution/Delivers.antt =====
-- A query of a typed plan gives the records that its plan means, in their order, and ends.
use duck_duck_dbms.Common.{ℕ, suc, ◌+◌, ◌≤◌, ◌≡◌, ap, ◌∙◌, List, [], ◌∷◌, All, arith}
use duck_duck_dbms.Tuple.Value.{ValueType}
use duck_duck_dbms.Expression.Compare.{FloatOps}
use duck_duck_dbms.Expression.Evaluate.{Record}
use duck_duck_dbms.Expression.Typing.{Conforms}
use duck_duck_dbms.Plan.{PhysicalPlan, Operator, build}
use duck_duck_dbms.Execution.{Run, drain}
use duck_duck_dbms.Execution.Meaning.{tail, rest, meaning}
use duck_duck_dbms.Execution.Typed.{
  HasPlan, IsState, at_scan, at_join, at_filter, at_projection, at_limit,
}
use duck_duck_dbms.Execution.Columns.{meaning-Conforms}
use duck_duck_dbms.Execution.Start.{build-IsState, rest-build}
use duck_duck_dbms.Execution.Gives.{Gives, from_suc}
use duck_duck_dbms.Execution.Loops.{scan-Gives, filter-Gives, projection-Gives, limit-Gives}
use duck_duck_dbms.Execution.LeftBlocks.{join-Gives}

module _ (f : FloatOps) (rows : ℕ → List Record) where
  -- In every state that the operators of a typed plan can come to, a call of `next` with enough fuel
  -- ends and throws nothing. It gives the head of what the operator has still to deliver, or none
  -- when there is nothing, and leaves an operator that has the tail to deliver.
  pub next-Gives :
      (p : PhysicalPlan) (cols : List ValueType) (o : Operator)
      → IsState rows p cols o
      → Gives f rows p cols o
  next-Gives (PhysicalPlan.sequential_scan t) cols _ (at_scan {records = rs} x y) =
      scan-Gives f rows t cols rs x y
  next-Gives (PhysicalPlan.nested_loop_join l r e s) cols _
        (at_join {a = a} {c = c} {b = b} {cl = cl} {cr = cr} sa sc q h x y z) =
      join-Gives f rows l r e s cl cr cols q h (λ o u. next-Gives l cl o u)
        (λ o u. next-Gives r cr o u) a c b sa sc x y z
  next-Gives (PhysicalPlan.filter p e) cols _ (at_filter {c = c} s h) =
      filter-Gives f rows (λ o u. next-Gives p cols o u) e c h s
  next-Gives (PhysicalPlan.projection p is sch) cols _ (at_projection {c = c} {cs = cs} s h) =
      projection-Gives f rows (λ o u. next-Gives p cs o u) is sch cols c h s
  next-Gives (PhysicalPlan.limit p n) cols _ (at_limit {c = c} {produced = m} s) =
      limit-Gives f rows (λ o u. next-Gives p cols o u) n m c s

  drains :
      (p : PhysicalPlan) (cols : List ValueType) (records : List Record) (o : Operator)
      → rest f rows p o ≡ records
      → IsState rows p cols o
      → (n : ℕ) × ((k : ℕ) → n ≤ k → drain f rows k o ≡ Run.value records)
  unfolding drain
  drains p cols [] o q s =
      let (n, o', g, t, s') = next-Gives p cols o s in
      (suc n, from_suc (λ k. drain f rows k o ≡ Run.value []) n (λ k h. simp (g k h, q)))
  drains p cols (r ∷ rs) o q s =
      let (n, o', g, t, s') = next-Gives p cols o s in
      let (m, d) = drains p cols rs o' (t ∙ ap tail q) s' in
      (
        suc (n + m),
        from_suc (λ k. drain f rows k o ≡ Run.value (r ∷ rs)) (n + m)
            (λ k h. simp (g k (omega arith), q, d k (omega arith))),
      )

  -- A client that takes the records of a typed plan until there are no more comes to an end, with no
  -- throw, for every amount of fuel from some number on. The records are those that the plan means,
  -- and each fits the columns of the plan.
  pub drain-build :
      (p : PhysicalPlan) (cols : List ValueType)
      → HasPlan rows p cols
      → ((n : ℕ) × ((k : ℕ) → n ≤ k → drain f rows k (build rows p) ≡ Run.value (meaning f rows p)))
        × All (Conforms cols) (meaning f rows p)
  drain-build p cols h = (
    drains p cols (meaning f rows p) (build rows p) (rest-build rows f h) (build-IsState rows h),
    meaning-Conforms f rows h,
  )
