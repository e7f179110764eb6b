-- ===== src/Execution/Bag.antt =====
-- The join by blocks against the plain nested loops: the same records, in another order.
use duck_duck_dbms.Common.{
  ℕ, zero, suc, ◌≤◌, ◌≡◌, refl, sym, ap, ◌∙◌, List, [], ◌∷◌, ◌++◌, take, drop, length, Bool-cases,
  inl, inr, if◌then◌else◌, arith,
}
use mathlib.Core.Path.{subst}
use mathlib.Core.List.{append_assoc, Perm, perm_middle}
use mathlib.Core.List.Perm
use duck_duck_dbms.Expression.Compare.{FloatOps}
use duck_duck_dbms.Expression.Evaluate.{Record, concat, Expression}
use duck_duck_dbms.Tuple.Value.{ValueType}
use duck_duck_dbms.Tuple.Schema.{Column}
use duck_duck_dbms.Expression.Typing.{HasType}
use duck_duck_dbms.Plan.{PhysicalPlan, build}
use duck_duck_dbms.Execution.{Run, drain}
use duck_duck_dbms.Execution.Typed.{HasPlan, of_join}
use duck_duck_dbms.Execution.Delivers.{drain-build}
use duck_duck_dbms.Execution.Meaning.{meaning, holds, matches, block_matches, joined}
use duck_duck_dbms.Execution.Start.{block_matches-nil}
use duck_duck_dbms.Execution.Positions.{take-drop, joined-nil, joined_block, length-drop_le}

-- One record can be passed over a list of others.
exchange : (a b c : List Record) → Perm (a ++ (b ++ c)) (b ++ (a ++ c))
exchange [] b c = Perm.refl (b ++ c)
exchange (x ∷ a) b c =
    Perm.trans (Perm.cons x (exchange a b c)) (Perm.symm (perm_middle b (a ++ c)))

module _ (f : FloatOps) (e : Expression) where
  -- The records of one left record with the right ones.
  unfoldable pub matched : Record → List Record → List Record
  matched l [] = []
  matched l (r ∷ rs) =
      let rest = matched l rs in if holds f e (concat l r) then concat l r ∷ rest else rest

  -- The join of the two lists as plain nested loops, the left one outside.
  unfoldable pub nested_loops : List Record → List Record → List Record
  nested_loops [] rs = []
  nested_loops (l ∷ ls) rs = matched l rs ++ nested_loops ls rs

  block_cons :
      (l : Record) (ls rs : List Record)
      → Perm (block_matches f e (l ∷ ls) rs) (matched l rs ++ block_matches f e ls rs)
  unfolding block_matches matches matched
  block_cons l ls [] = Perm.refl []
  block_cons l ls (r ∷ rs) =
      let m = matches f e r ls in
      let step =
        Perm.trans (Perm.append_left m (block_cons l ls rs))
          (exchange m (matched l rs) (block_matches f e ls rs)) in
      elim (Bool-cases (holds f e (concat l r))) [
        | inl h ↦ rw h (Perm.cons (concat l r) step)
        | inr h ↦ rw h step
      ]

  block-Perm : (ls rs : List Record) → Perm (block_matches f e ls rs) (nested_loops ls rs)
  unfolding nested_loops
  block-Perm [] rs = rw (block_matches-nil f e rs) (Perm.refl [])
  block-Perm (l ∷ ls) rs =
      Perm.trans (block_cons l ls rs) (Perm.append_left (matched l rs) (block-Perm ls rs))

  nested_loops-append :
      (xs ys rs : List Record)
      → nested_loops (xs ++ ys) rs ≡ nested_loops xs rs ++ nested_loops ys rs
  unfolding nested_loops
  nested_loops-append [] ys rs = refl
  nested_loops-append (x ∷ xs) ys rs =
      ap (λ t. matched x rs ++ t) (nested_loops-append xs ys rs)
      ∙ sym (append_assoc (matched x rs) (nested_loops xs rs) (nested_loops ys rs))

  by_blocks :
      (d : ℕ) (ls rs : List Record) → length ls ≤ d → Perm (joined f e ls rs) (nested_loops ls rs)
  unfolding nested_loops
  by_blocks d [] rs h = rw (joined-nil f e rs) (Perm.refl [])
  by_blocks zero (l ∷ ls) rs h = absurd (omega arith)
  by_blocks (suc d) (l ∷ ls) rs h =
      let k = length-drop_le 23 ls in
      let block = take 24 (l ∷ ls) in
      let whole : nested_loops (l ∷ ls) rs ≡ nested_loops block rs ++ nested_loops (drop 23 ls) rs =
        ap (λ x. nested_loops x rs) (sym (take-drop 24 (l ∷ ls)))
        ∙ nested_loops-append block (drop 23 ls) rs in
      rw (joined_block f e l ls rs) (
        subst (λ x. Perm (block_matches f e block rs ++ joined f e (drop 23 ls) rs) x) (sym whole)
          (Perm.append (block-Perm block rs) (by_blocks d (drop 23 ls) rs (omega arith))))

  pub joined-Perm : (ls rs : List Record) → Perm (joined f e ls rs) (nested_loops ls rs)
  joined-Perm ls rs = by_blocks (length ls) ls rs (omega arith)

-- A client that takes the records of a join of two typed plans, with a predicate of type BOOL on
-- their columns together, comes to an end with no throw. For every amount of fuel from some number
-- on it has the records of the plain nested loops over what the two plans mean, each as often, in
-- some order. So no pair of records is lost or given twice where a block ends.
pub drain-nested_loops :
    (f : FloatOps) (rows : ℕ → List Record) (l r : PhysicalPlan) (e : Expression) (s : List Column)
    (cl cr : List ValueType)
    → HasPlan rows l cl
    → HasPlan rows r cr
    → HasType (cl ++ cr) e ValueType.bool
    → (records : List Record) × ((n : ℕ) × ((k : ℕ)
          → n ≤ k
          → drain f rows k (build rows (PhysicalPlan.nested_loop_join l r e s))
            ≡ Run.value records))
      × Perm records (nested_loops f e (meaning f rows l) (meaning f rows r))
unfolding meaning
drain-nested_loops f rows l r e s cl cr a b t =
    let p = PhysicalPlan.nested_loop_join l r e s in
    let (d, _) = drain-build f rows p (cl ++ cr) (of_join a b refl t) in
    (meaning f rows p, d, joined-Perm f e (meaning f rows l) (meaning f rows r))
