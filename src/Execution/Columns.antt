-- ===== src/Execution/Columns.antt =====
-- The records that typed plans mean, and those that their operators have still to deliver, fit the
-- columns of the plan.
use duck_duck_dbms.Common.{
  ℕ, zero, suc, ◌-◌, List, [], ◌∷◌, ◌++◌, map, take, drop, All, Bool-cases, inl, inr,
}
use duck_duck_dbms.Tuple.Value.{ValueType}
use duck_duck_dbms.Expression.Compare.{FloatOps}
use duck_duck_dbms.Expression.Evaluate.{Record, concat, Expression}
use duck_duck_dbms.Expression.Typing.{Conforms}
use duck_duck_dbms.Plan.{PhysicalPlan, Operator}
use duck_duck_dbms.Execution.Lists.{All-append, All-take, All-drop, All-keep}
use duck_duck_dbms.Execution.Meaning.{
  selected, holds, matches, block_matches, blocks_matches, joined, of_right, meaning, rest,
}
use duck_duck_dbms.Execution.Typed.{
  Selects, HasPlan, of_scan, of_join, of_filter, of_projection, of_limit, IsState, at_scan, at_join,
  at_filter, at_projection, at_limit, select_total, concat-Conforms,
}

All-selected :
    (cs ds : List ValueType) (is : List ℕ) (rs : List Record)
    → Selects cs is ds
    → All (Conforms cs) rs
    → All (Conforms ds) (map (selected is) rs)
All-selected cs ds is [] s h = tt
All-selected cs ds is (r ∷ rs) s (p, h) =
    ((select_total cs ds is r p s).1, All-selected cs ds is rs s h)

-- What a join puts together fits the columns of both sides.
module _ (f : FloatOps) (cl cr : List ValueType) (e : Expression) where
  matches-Conforms :
      (r : Record) (ls : List Record)
      → Conforms cr r
      → All (Conforms cl) ls
      → All (Conforms (cl ++ cr)) (matches f e r ls)
  unfolding matches
  matches-Conforms r [] k h = tt
  matches-Conforms r (l ∷ ls) k (p, h) = elim (Bool-cases (holds f e (concat l r))) [
    | inl x ↦ rw x (concat-Conforms cl cr l r p k, matches-Conforms r ls k h)
    | inr x ↦ rw x (matches-Conforms r ls k h)
  ]

  block_matches-Conforms :
      (ls rs : List Record)
      → All (Conforms cl) ls
      → All (Conforms cr) rs
      → All (Conforms (cl ++ cr)) (block_matches f e ls rs)
  unfolding block_matches
  block_matches-Conforms ls [] h k = tt
  block_matches-Conforms ls (r ∷ rs) h (p, k) =
      All-append _ (matches f e r ls) (block_matches f e ls rs) (matches-Conforms r ls p h)
        (block_matches-Conforms ls rs h k)

  blocks_matches-Conforms :
      (n : ℕ) (rs ls : List Record)
      → All (Conforms cr) rs
      → All (Conforms cl) ls
      → All (Conforms (cl ++ cr)) (blocks_matches f n e rs ls)
  unfolding blocks_matches
  blocks_matches-Conforms zero rs ls k h = tt
  blocks_matches-Conforms (suc n) rs ls k h =
      All-append _ _ _ (block_matches-Conforms (take 24 ls) rs (All-take _ 24 ls h) k)
        (blocks_matches-Conforms n rs (drop 24 ls) k (All-drop _ 24 ls h))

  of_right-Conforms :
      (ls : List Record) (i : ℕ) (now later : List Record)
      → All (Conforms cl) ls
      → All (Conforms cr) now
      → All (Conforms cr) later
      → All (Conforms (cl ++ cr)) (of_right f e ls i now later)
  unfolding of_right
  of_right-Conforms ls i [] later h k m = block_matches-Conforms ls later h m
  of_right-Conforms ls i (r ∷ rs) later h (p, k) m =
      All-append _ _ _ (matches-Conforms r (drop i ls) p (All-drop _ i ls h))
        (block_matches-Conforms ls (rs ++ later) h (All-append _ rs later k m))

module _ (f : FloatOps) (rows : ℕ → List Record) where
  -- What a typed plan means fits its columns.
  pub meaning-Conforms :
      {p : PhysicalPlan} {cols : List ValueType}
      → HasPlan rows p cols
      → All (Conforms cols) (meaning f rows p)
  unfolding meaning joined
  meaning-Conforms (of_scan h) = h
  meaning-Conforms (of_join {e = e} {cl = cl} {cr = cr} l r q h) =
      rw q (blocks_matches-Conforms f cl cr e _ _ _ (meaning-Conforms r) (meaning-Conforms l))
  meaning-Conforms (of_filter {e = e} c h) = All-keep _ (holds f e) _ (meaning-Conforms c)
  meaning-Conforms (of_projection {is = is} {cs = cs} {cols = cols} c s) =
      All-selected cs cols is _ s (meaning-Conforms c)
  meaning-Conforms (of_limit {n = n} c) = All-take _ n _ (meaning-Conforms c)

  pub plan_of_state :
      {p : PhysicalPlan} {cols : List ValueType} {o : Operator}
      → IsState rows p cols o
      → HasPlan rows p cols
  plan_of_state (at_scan h k) = of_scan h
  plan_of_state (at_join a b q h _ _ _) = of_join (plan_of_state a) (plan_of_state b) q h
  plan_of_state (at_filter c h) = of_filter (plan_of_state c) h
  plan_of_state (at_projection c s) = of_projection (plan_of_state c) s
  plan_of_state (at_limit c) = of_limit (plan_of_state c)

  -- What an operator has still to deliver fits the columns of its plan.
  pub rest-Conforms :
      {p : PhysicalPlan} {cols : List ValueType} {o : Operator}
      → IsState rows p cols o
      → All (Conforms cols) (rest f rows p o)
  unfolding rest joined
  rest-Conforms (at_scan h k) = k
  rest-Conforms (at_join {e = e} {b = b} {cl = cl} {cr = cr} l r q h x y i) = rw q (
      All-append _ _ _
        (of_right-Conforms f cl cr e b.left_block b.left_it _ _ x
          (All-drop _ b.right_it b.right_block y) (rest-Conforms r))
        (blocks_matches-Conforms f cl cr e _ _ _ (meaning-Conforms (plan_of_state r))
          (rest-Conforms l)))
  rest-Conforms (at_filter {e = e} c h) = All-keep _ (holds f e) _ (rest-Conforms c)
  rest-Conforms (at_projection {is = is} {cs = cs} {cols = cols} c s) =
      All-selected cs cols is _ s (rest-Conforms c)
  rest-Conforms (at_limit {n = n} {produced = m} c) = All-take _ (n - m) _ (rest-Conforms c)
