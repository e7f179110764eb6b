-- ===== src/Execution/LeftBlocks.antt =====
-- A join whose left block is used up, and so a join in any state.
use duck_duck_dbms.Common.{
  ℕ, zero, suc, ◌≤◌, ◌≡◌, refl, sym, ap, ◌∙◌, List, [], ◌∷◌, ◌++◌, take, drop, length, All, arith,
}
use mathlib.Core.Path.{subst}
use duck_duck_dbms.Tuple.Value.{ValueType}
use duck_duck_dbms.Tuple.Schema.{Column}
use duck_duck_dbms.Expression.Compare.{FloatOps}
use duck_duck_dbms.Expression.Evaluate.{Record, Expression}
use duck_duck_dbms.Expression.Typing.{HasType, Conforms}
use duck_duck_dbms.Plan.{PhysicalPlan, Operator, Blocks, reset, build}
use duck_duck_dbms.Execution.{
  Run, Answer, next, join_round, load_left, match_left, and_then, fetch_block,
}
use duck_duck_dbms.Execution.Meaning.{rest, meaning}
use duck_duck_dbms.Execution.Typed.{IsState, at_join, IsBlocks}
use duck_duck_dbms.Execution.Columns.{plan_of_state, rest-Conforms}
use duck_duck_dbms.Execution.Lists.{All-take}
use duck_duck_dbms.Execution.Start.{reset-eq, build-IsState, rest-build}
use duck_duck_dbms.Execution.Gives.{Gives, answers, same_round, fetch_block-Fetches}
use duck_duck_dbms.Execution.Positions.{
  length-drop_le, of_right-nil, of_right-start, joined-nil, joined_block,
}
use duck_duck_dbms.Execution.Pairs.{join_state, load_left_loaded, match_left-end}
use duck_duck_dbms.Execution.Joins.{join, Here, right_block, exhausted}

-- Loading a left block.
module _ (rows : ℕ → List Record) (again : Operator → Run Answer) (a a' c : Operator)
    (rb : List Record) (i j : ℕ) where
  load_left_end :
      fetch_block again 24 a ≡ Run.value ([], a')
      → load_left rows again (join a c [] rb i j) ≡ Run.value (join a' c [] rb i j)
  unfolding load_left
  load_left_end g = rw (load_left, g) refl

  load_left_fetched :
      (l : Record) (ls : List Record)
      → fetch_block again 24 a ≡ Run.value (l ∷ ls, a')
      → load_left rows again (join a c [] rb i j)
        ≡ Run.value (join a' (reset rows c) (l ∷ ls) [] 0 0)
  unfolding load_left
  load_left_fetched l ls g = rw (load_left, g) refl

module _ (f : FloatOps) (rows : ℕ → List Record) (pl pr : PhysicalPlan) (e : Expression)
    (s : List Column) (cl cr cols : List ValueType) (q : cols ≡ cl ++ cr)
    (h : HasType cols e ValueType.bool)
    (gives_left : (o : Operator) → IsState rows pl cl o → Gives f rows pl cl o)
    (gives_right : (o : Operator) → IsState rows pr cr o → Gives f rows pr cr o) where
  abbrev J : Operator → Operator → List Record → List Record → ℕ → ℕ → Type 0
  J a c ls rb i j = Here f rows pl pr e s cl cr cols q h a c ls rb i j

  -- The left blocks, one after the other.
  left_blocks :
      (d : ℕ) (records : List Record) (a : Operator)
      → length records ≤ d
      → rest f rows pl a ≡ records
      → IsState rows pl cl a
      → (c : Operator) (rb : List Record) (i j : ℕ) → IsState rows pr cr c
      → All (Conforms cr) rb
      → (length rb ≤ j → i ≡ 0)
      → J a c [] rb i j
  unfolding next rest join_round
  left_blocks d [] a b x sa c rb i j sc hr z =
      let (m, a', g, t, sa') = fetch_block-Fetches f rows pl cl gives_left 24 a sa in
      let y : rest f rows pl a' ≡ [] = t ∙ ap (drop 24) x in
      answers f rows (join_state a c e s [] rb i j) (join_state a' c e s [] rb i j) [] m
        (rw
          (x, of_right-nil f e i (drop j rb) (rest f rows pr c), joined-nil f e (meaning f rows pr))
          refl)
        (λ v u.
          let again = next f rows v in
          ap (λ t. and_then t (match_left f e s again))
            (load_left_end rows again a a' c rb i j
              (g v u ∙ ap (λ xs. Run.value (take 24 xs, a')) x))
          ∙ match_left-end again (join a' c [] rb i j) f e s refl)
        (rw
          (y, of_right-nil f e i (drop j rb) (rest f rows pr c), joined-nil f e (meaning f rows pr))
          refl)
        (at_join sa' sc q h tt hr z)
  left_blocks zero (l ∷ ls) a b x sa c rb i j sc hr z = absurd (omega arith)
  left_blocks (suc d) (l ∷ ls) a b x sa c rb i j sc hr z =
      let (m, a', g, t, sa') = fetch_block-Fetches f rows pl cl gives_left 24 a sa in
      let y : rest f rows pl a' ≡ drop 23 ls = t ∙ ap (drop 24) x in
      let block = take 24 (l ∷ ls) in
      let o = length-drop_le 23 ls in
      let p = plan_of_state f rows sc in
      let c' = reset rows c in
      let w : c' ≡ build rows pr = reset-eq rows sc in
      let sc' : IsState rows pr cr c' = subst (IsState rows pr cr) (sym w) (build-IsState rows p) in
      let whole : rest f rows pr c' ≡ meaning f rows pr =
        ap (rest f rows pr) w ∙ rest-build rows f p in
      let hb : All (Conforms cl) block =
        All-take (Conforms cl) 24 (l ∷ ls)
          (subst (All (Conforms cl)) x (rest-Conforms f rows sa)) in
      same_round f rows (join_state a c e s [] rb i j) (join_state a' c' e s block [] 0 0) m
        (rw
          (
            of_right-nil f e i (drop j rb) (rest f rows pr c),
            x,
            of_right-start f e block [] (rest f rows pr c'),
            whole,
            y,
            joined_block f e l ls (meaning f rows pr),
          )
          refl)
        (λ v u.
          let again = next f rows v in
          ap (λ t. and_then t (match_left f e s again))
            (load_left_fetched rows again a a' c rb i j l (take 23 ls)
                (g v u ∙ ap (λ xs. Run.value (take 24 xs, a')) x)
              ∙ sym (load_left_loaded again (join a' c' block [] 0 0) rows refl)))
        (exhausted f rows pl pr e s cl cr cols q h gives_right a' sa' block hb refl
          (λ c2 sc2. left_blocks d (drop 23 ls) a' (omega arith) y sa' c2 [] 0 0 sc2 tt (λ _. refl))
          (length (rest f rows pr c')) (rest f rows pr c') c' (omega arith) refl sc' [] 0 refl)

  join_of :
      (ls : List Record) (a c : Operator) (rb : List Record) (i j : ℕ)
      → IsState rows pl cl a
      → IsState rows pr cr c
      → All (Conforms cl) ls
      → All (Conforms cr) rb
      → (length rb ≤ j → i ≡ 0)
      → J a c ls rb i j
  join_of [] a c rb i j sa sc hl hr z =
      left_blocks (length (rest f rows pl a)) (rest f rows pl a) a (omega arith) refl sa c rb i j sc
        hr z
  join_of (l ∷ ls) a c rb i j sa sc hl hr z =
      right_block f rows pl pr e s cl cr cols q h a c sa sc (l ∷ ls) rb hl hr refl
        (λ j' w.
          exhausted f rows pl pr e s cl cr cols q h gives_right a sa (l ∷ ls) hl refl
            (λ c2 sc2.
              left_blocks (length (rest f rows pl a)) (rest f rows pl a) a (omega arith) refl sa c2
                [] 0 0 sc2 tt (λ _. refl))
            (length (rest f rows pr c)) (rest f rows pr c) c (omega arith) refl sc rb j' w)
        (drop j rb) i j refl z

  pub join-Gives :
      (a c : Operator) (b : Blocks)
      → IsState rows pl cl a
      → IsState rows pr cr c
      → All (Conforms cl) b.left_block
      → All (Conforms cr) b.right_block
      → IsBlocks b
      → Gives f rows
          (PhysicalPlan.nested_loop_join pl pr e s)
          cols
          (Operator.nested_loop_join a c e s b)
  join-Gives a c b sa sc hl hr z =
      join_of b.left_block a c b.right_block b.left_it b.right_it sa sc hl hr z
