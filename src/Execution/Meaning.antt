-- ===== src/Execution/Meaning.antt =====
-- What a plan means, and what an operator has still to deliver.
use duck_duck_dbms.Common.{
  ℕ, zero, suc, ◌-◌, Bool, false, Option, none, some, List, [], ◌∷◌, ◌++◌, map, if◌then◌else◌,
  length, take, drop, keep, ok, err,
}
use duck_duck_dbms.Expression.Compare.{FloatOps}
use duck_duck_dbms.Expression.Evaluate.{Record, concat, Expression}
use duck_duck_dbms.Plan.{PhysicalPlan, Operator, Blocks}
use duck_duck_dbms.Execution.{select, accepts, block_size}

abbrev pub head? {ℓ} : {A : Type ℓ} → List A → Option A
head? [] = none
head? (x ∷ xs) = some x

abbrev pub tail {ℓ} : {A : Type ℓ} → List A → List A
tail [] = []
tail (x ∷ xs) = xs

unfoldable pub selected : List ℕ → Record → Record
selected is r = elim (select r is) [ ok values ↦ values | err e ↦ [] ]

module _ (f : FloatOps) where
  unfoldable pub holds : Expression → Record → Bool
  holds e r = elim (accepts f e r) [ ok b ↦ b | err _ ↦ false ]

  -- The records of a block of left records that match one right record.
  unfoldable pub matches : Expression → Record → List Record → List Record
  matches e r [] = []
  matches e r (l ∷ ls) =
      let rest = matches e r ls in if holds e (concat l r) then concat l r ∷ rest else rest

  unfoldable pub block_matches : Expression → List Record → List Record → List Record
  block_matches e ls [] = []
  block_matches e ls (r ∷ rs) = matches e r ls ++ block_matches e ls rs

  -- Block after block of the left records, as many blocks as the number.
  unfoldable pub blocks_matches : ℕ → Expression → List Record → List Record → List Record
  blocks_matches zero e rs ls = []
  blocks_matches (suc n) e rs ls =
      block_matches e (take block_size ls) rs ++ blocks_matches n e rs (drop block_size ls)

  unfoldable pub joined : Expression → List Record → List Record → List Record
  joined e ls rs = blocks_matches (length ls) e rs ls

  -- What is left of the blocks that are loaded, before the right records `rest`.
  unfoldable pub of_right : Expression → List Record → ℕ → List Record → List Record → List Record
  of_right e ls i [] rest = block_matches e ls rest
  of_right e ls i (r ∷ rs) rest = matches e r (drop i ls) ++ block_matches e ls (rs ++ rest)

  abbrev pub of_blocks : Expression → Blocks → List Record → List Record
  of_blocks e b rest = of_right e b.left_block b.left_it (drop b.right_it b.right_block) rest

  module _ (rows : ℕ → List Record) where
    unfoldable pub meaning : PhysicalPlan → List Record
    meaning (PhysicalPlan.sequential_scan t) = rows t
    meaning (PhysicalPlan.nested_loop_join l r e s) = joined e (meaning l) (meaning r)
    meaning (PhysicalPlan.filter c e) = keep (holds e) (meaning c)
    meaning (PhysicalPlan.projection c is s) = map (selected is) (meaning c)
    meaning (PhysicalPlan.limit c n) = take n (meaning c)

    -- What an operator of a plan has still to deliver. With an empty left block the position in the
    -- right child does not matter: it is reset before it is read.
    unfoldable pub rest : PhysicalPlan → Operator → List Record
    rest (PhysicalPlan.sequential_scan t) (Operator.sequential_scan t' records) = records
    rest (PhysicalPlan.nested_loop_join pl pr _ _) (Operator.nested_loop_join l r e s b) =
        of_blocks e b (rest pr r) ++ joined e (rest pl l) (meaning pr)
    rest (PhysicalPlan.filter p _) (Operator.filter c e) = keep (holds e) (rest p c)
    rest (PhysicalPlan.projection p _ _) (Operator.projection c is s) = map (selected is) (rest p c)
    rest (PhysicalPlan.limit p _) (Operator.limit c n produced) = take (n - produced) (rest p c)
    rest _ _ = []
