-- ===== src/Execution/Joins.antt =====
-- A join goes through the pairs of the blocks, then through the blocks of the right child, then
-- through the blocks of the left child.
use duck_duck_dbms.Common.{
  ℕ, zero, suc, ◌+◌, ◌≤◌, ◌≡◌, refl, sym, ap, ◌∙◌, true, false, List, [], ◌∷◌, ◌++◌, take, drop,
  length, leb, All, arith,
}
use mathlib.Core.Path.{subst}
use duck_duck_dbms.Tuple.Value.{ValueType}
use duck_duck_dbms.Tuple.Schema.{Column}
use duck_duck_dbms.Expression.Compare.{FloatOps}
use duck_duck_dbms.Expression.Evaluate.{Record, Expression}
use duck_duck_dbms.Expression.Typing.{HasType, Conforms}
use duck_duck_dbms.Plan.{PhysicalPlan, Operator}
use duck_duck_dbms.Execution.{
  Run, Answer, Join, next, is_empty, join_round, load_right, match_left, match_right, and_then,
  fetch_block,
}
use duck_duck_dbms.Execution.Meaning.{rest, block_matches, of_right}
use duck_duck_dbms.Execution.Typed.{IsState}
use duck_duck_dbms.Execution.Columns.{rest-Conforms}
use duck_duck_dbms.Execution.Lists.{All-take}
use duck_duck_dbms.Execution.Start.{block_matches-nil}
use duck_duck_dbms.Execution.Gives.{Gives, next_round, same_round, fetch_block-Fetches}
use duck_duck_dbms.Execution.Positions.{drop_next, length-drop_end, length-drop_le, take-drop}
use duck_duck_dbms.Execution.Pairs.{
  join_state, pairs, load_left_loaded, load_right_loaded, match_left-more, match_right-end,
}

abbrev pub join : Operator → Operator → List Record → List Record → ℕ → ℕ → Join
join a c ls rb i j = record {
  left = a;
  right = c;
  blocks = record { left_block = ls; right_block = rb; left_it = i; right_it = j };
}

-- Loading a right block.
load_right_fetched :
    (again : Operator → Run Answer) (a c c' : Operator) (ls rb records : List Record) (i j : ℕ)
    → length rb ≤ j
    → fetch_block again 24 c ≡ Run.value (records, c')
    → load_right again (join a c ls rb i j) ≡ Run.value (join a c' ls records i 0)
unfolding load_right
load_right_fetched again a c c' ls rb records i j h g =
    let b : leb (length rb) j ≡ true = ground arith in rw (load_right, b, g) refl

module _ (f : FloatOps) (rows : ℕ → List Record) (pl pr : PhysicalPlan) (e : Expression)
    (s : List Column) (cl cr cols : List ValueType) (q : cols ≡ cl ++ cr)
    (h : HasType cols e ValueType.bool) where
  abbrev pub Here : Operator → Operator → List Record → List Record → ℕ → ℕ → Type 0
  Here a c ls rb i j =
      Gives f rows (PhysicalPlan.nested_loop_join pl pr e s) cols (join_state a c e s ls rb i j)

  module _ (v : ℕ) (a c : Operator) where
    -- A round that loads a right block.
    load_right_round :
        (c' : Operator) (ls rb records : List Record) (i j : ℕ)
        → is_empty ls ≡ false
        → length rb ≤ j
        → fetch_block (next f rows v) 24 c ≡ Run.value (records, c')
        → next f rows (suc v) (join_state a c e s ls rb i j)
          ≡ match_right f e s (next f rows v) (join a c' ls records i 0)
    unfolding next join_round
    load_right_round c' ls rb records i j n b g =
        let again = next f rows v in
        ap (λ t. and_then t (match_left f e s again))
          (load_left_loaded again (join a c ls rb i j) rows n)
        ∙ match_left-more again (join a c ls rb i j) f e s n
        ∙ ap (λ t. and_then t (match_right f e s again))
            (load_right_fetched again a c c' ls rb records i j b g)

    -- A round with both blocks there.
    loaded_round :
        (ls rb : List Record) (i j : ℕ)
        → is_empty ls ≡ false
        → suc j ≤ length rb
        → next f rows (suc v) (join_state a c e s ls rb i j)
          ≡ match_right f e s (next f rows v) (join a c ls rb i j)
    unfolding next join_round
    loaded_round ls rb i j n m =
        let again = next f rows v in
        let b : leb (length rb) j ≡ false = ground arith in
        ap (λ t. and_then t (match_left f e s again))
          (load_left_loaded again (join a c ls rb i j) rows n)
        ∙ match_left-more again (join a c ls rb i j) f e s n
        ∙ ap (λ t. and_then t (match_right f e s again))
            (load_right_loaded again (join a c ls rb i j) b)

  -- The right records of a block, one after the other.
  pub right_block :
      (a c : Operator) (sa : IsState rows pl cl a) (sc : IsState rows pr cr c) (ls rb : List Record)
      → All (Conforms cl) ls
      → All (Conforms cr) rb
      → is_empty ls ≡ false
      → ((j : ℕ) → drop j rb ≡ [] → Here a c ls rb 0 j)
      → (rs : List Record) (i j : ℕ) → drop j rb ≡ rs
      → (length rb ≤ j → i ≡ 0)
      → Here a c ls rb i j
  right_block a c sa sc ls rb hl hr n k [] i j w z =
      let x : i ≡ 0 = z (length-drop_end j rb w) in subst (λ i. Here a c ls rb i j) (sym x) (k j w)
  right_block a c sa sc ls rb hl hr n k (r ∷ rs) i j w z =
      pairs f rows pl pr e s cl cr cols q h a c sa sc ls rb hl hr r rs j w n
        (right_block a c sa sc ls rb hl hr n k rs 0 (j + 1) (drop_next j rb r rs w) (λ _. refl))
        (drop i ls) i refl

  module _ (gives_right : (o : Operator) → IsState rows pr cr o → Gives f rows pr cr o) where
    pub exhausted :
        (a : Operator) (sa : IsState rows pl cl a) (ls : List Record)
        → All (Conforms cl) ls
        → is_empty ls ≡ false
        → ((c : Operator) → IsState rows pr cr c → Here a c [] [] 0 0)
        → (d : ℕ) (records : List Record) (c : Operator) → length records ≤ d
        → rest f rows pr c ≡ records
        → IsState rows pr cr c
        → (rb : List Record) (j : ℕ) → drop j rb ≡ []
        → Here a c ls rb 0 j
    unfolding rest of_right block_matches
    exhausted a sa ls hl n k d [] c b x sc rb j w =
        let (m, c', g, t, sc') = fetch_block-Fetches f rows pr cr gives_right 24 c sc in
        next_round f rows (join_state a c e s ls rb 0 j) (join_state a c' e s [] [] 0 0) m
          (rw (w, x, block_matches-nil f e (rest f rows pr c')) refl)
          (λ v u.
            load_right_round v a c c' ls rb [] 0 j n (length-drop_end j rb w)
              (g v u ∙ ap (λ xs. Run.value (take 24 xs, c')) x)
            ∙ match_right-end (next f rows v) (join a c' ls [] 0 0) f e s refl)
          (k c' sc')
    exhausted a sa ls hl n k zero (r ∷ rs) c b x sc rb j w = absurd (omega arith)
    exhausted a sa ls hl n k (suc d) (r ∷ rs) c b x sc rb j w =
        let (m, c', g, t, sc') = fetch_block-Fetches f rows pr cr gives_right 24 c sc in
        let y : rest f rows pr c' ≡ drop 23 rs = t ∙ ap (drop 24) x in
        let block = take 24 (r ∷ rs) in
        let o = length-drop_le 23 rs in
        let hb : All (Conforms cr) block =
          All-take (Conforms cr) 24 (r ∷ rs)
            (subst (All (Conforms cr)) x (rest-Conforms f rows sc)) in
        same_round f rows (join_state a c e s ls rb 0 j) (join_state a c' e s ls block 0 0) m
          (rw (w, x, y, take-drop 23 rs) refl)
          (λ v u.
            load_right_round v a c c' ls rb block 0 j n (length-drop_end j rb w)
              (g v u ∙ ap (λ xs. Run.value (take 24 xs, c')) x)
            ∙ sym (loaded_round v a c' ls block 0 0 n (omega arith)))
          (right_block a c' sa sc' ls block hl hb n
            (λ j' w'. exhausted a sa ls hl n k d (drop 23 rs) c' (omega arith) y sc' block j' w')
            block 0 0 refl (λ _. refl))
