-- ===== src/Execution/Pairs.antt =====
-- The rounds of a join while its blocks last. A state that a round goes on to has the same records
-- still to deliver.
use duck_duck_dbms.Common.{
  ℕ, suc, ◌+◌, ◌≡◌, refl, ap, ◌∙◌, true, false, none, some, List, [], ◌∷◌, ◌++◌, drop, length, leb,
  get_elem?, All, Bool-cases, inl, inr, ok, arith,
}
use mathlib.Core.Path.{subst}
use duck_duck_dbms.Tuple.Value.{ValueType}
use duck_duck_dbms.Tuple.Schema.{Column}
use duck_duck_dbms.Expression.Compare.{FloatOps}
use duck_duck_dbms.Expression.Evaluate.{Record, Expression, concat}
use duck_duck_dbms.Expression.Typing.{HasType, Conforms}
use duck_duck_dbms.Plan.{PhysicalPlan, Operator, Blocks}
use duck_duck_dbms.Execution.{
  Run, Answer, Join, next, accepts, is_empty, join_round, load_left, load_right, match_left,
  match_right, match_pair, and_then,
}
use duck_duck_dbms.Execution.Meaning.{
  rest, holds, matches, block_matches, joined, of_right, meaning,
}
use duck_duck_dbms.Execution.Typed.{IsState, at_join, accepts_total, concat-Conforms}
use duck_duck_dbms.Execution.Lists.{All-drop}
use duck_duck_dbms.Execution.Gives.{Gives, answers, next_round}
use duck_duck_dbms.Execution.Positions.{
  get_elem?-end, get_elem?-drop, drop_next, length-drop_more, is_empty-drop, of_right-start,
}

module _ (again : Operator → Run Answer) (f : FloatOps) (e : Expression) (state : Blocks → Operator)
    (b : Blocks) (r : Record) (w : get_elem? b.right_block b.right_it ≡ some r) where
  match_pair_end :
      get_elem? b.left_block b.left_it ≡ none
      → match_pair f e state again b
        ≡ again (state (record b { left_it = 0; right_it = b.right_it + 1 }))
  unfolding match_pair
  match_pair_end x = rw (match_pair, w, x) refl

  match_pair-true :
      (l : Record)
      → get_elem? b.left_block b.left_it ≡ some l
      → accepts f e (concat l r) ≡ ok true
      → match_pair f e state again b
        ≡ Run.value (some (concat l r), state (record b { left_it = b.left_it + 1 }))
  unfolding match_pair
  match_pair-true l x y = rw (match_pair, w, x, y) refl

  match_pair-false :
      (l : Record)
      → get_elem? b.left_block b.left_it ≡ some l
      → accepts f e (concat l r) ≡ ok false
      → match_pair f e state again b ≡ again (state (record b { left_it = b.left_it + 1 }))
  unfolding match_pair
  match_pair-false l x y = rw (match_pair, w, x, y) refl

abbrev pub join_state :
    Operator → Operator → Expression → List Column → List Record → List Record → ℕ → ℕ → Operator
join_state a c e s ls rb i j =
    Operator.nested_loop_join a c e s
      (record { left_block = ls; right_block = rb; left_it = i; right_it = j })

-- A loaded block is kept.
module _ (again : Operator → Run Answer) (j : Join) where
  pub load_left_loaded :
      (rows : ℕ → List Record)
      → is_empty j.blocks.left_block ≡ false
      → load_left rows again j ≡ Run.value j
  unfolding load_left
  load_left_loaded rows h = rw (load_left, h) refl

  pub load_right_loaded :
      leb (length j.blocks.right_block) j.blocks.right_it ≡ false → load_right again j ≡ Run.value j
  unfolding load_right
  load_right_loaded h = rw (load_right, h) refl

  module _ (f : FloatOps) (e : Expression) (s : List Column) where
    pub match_left-end :
        is_empty j.blocks.left_block ≡ true
        → match_left f e s again j
          ≡ Run.value (none, Operator.nested_loop_join j.left j.right e s j.blocks)
    unfolding match_left
    match_left-end h = rw (match_left, h) refl

    pub match_left-more :
        is_empty j.blocks.left_block ≡ false
        → match_left f e s again j ≡ and_then (load_right again j) (match_right f e s again)
    unfolding match_left
    match_left-more h = rw (match_left, h) refl

    pub match_right-end :
        is_empty j.blocks.right_block ≡ true
        → match_right f e s again j
          ≡ again
              (Operator.nested_loop_join j.left j.right e s (record (j.blocks) { left_block = [] }))
    unfolding match_right
    match_right-end h = rw (match_right, h) refl

    pub match_right-more :
        is_empty j.blocks.right_block ≡ false
        → match_right f e s again j
          ≡ match_pair f e (λ b. Operator.nested_loop_join j.left j.right e s b) again j.blocks
    unfolding match_right
    match_right-more h = rw (match_right, h) refl

module _ (f : FloatOps) (rows : ℕ → List Record) (pl pr : PhysicalPlan) (e : Expression)
    (s : List Column) (cl cr cols : List ValueType) (q : cols ≡ cl ++ cr)
    (h : HasType cols e ValueType.bool) where
  abbrev pub JoinGives : Operator → Operator → List Record → List Record → ℕ → ℕ → Type 0
  JoinGives a c ls rb i j =
      Gives f rows (PhysicalPlan.nested_loop_join pl pr e s) cols (join_state a c e s ls rb i j)

  pair_accepts :
      (l r : Record)
      → Conforms cl l
      → Conforms cr r
      → accepts f e (concat l r) ≡ ok (holds f e (concat l r))
  pair_accepts l r k m =
      accepts_total f (cl ++ cr) e (concat l r) (subst (λ x. HasType x e ValueType.bool) q h)
        (concat-Conforms cl cr l r k m)

  module _ (a c : Operator) (sa : IsState rows pl cl a) (sc : IsState rows pr cr c)
      (ls rb : List Record) (hl : All (Conforms cl) ls) (hr : All (Conforms cr) rb) where
    abbrev state_at : ℕ → ℕ → Blocks
    state_at i j = record { left_block = ls; right_block = rb; left_it = i; right_it = j }

    abbrev state : Blocks → Operator
    state b = Operator.nested_loop_join a c e s b

    -- A round that loads no block.
    round :
        (k i j : ℕ) (r : Record) (later : List Record)
        → is_empty ls ≡ false
        → drop j rb ≡ r ∷ later
        → next f rows (suc k) (join_state a c e s ls rb i j)
          ≡ match_pair f e state (next f rows k) (state_at i j)
    unfolding next join_round
    round k i j r later n w =
        let m = length-drop_more j rb r later w in
        let b : leb (length rb) j ≡ false = ground arith in
        let x : Join = record { left = a; right = c; blocks = state_at i j } in
        let again = next f rows k in
        ap (λ t. and_then t (match_left f e s again)) (load_left_loaded again x rows n)
        ∙ match_left-more again x f e s n
        ∙ ap (λ t. and_then t (match_right f e s again)) (load_right_loaded again x b)
        ∙ match_right-more again x f e s (is_empty-drop j rb r later w)

    -- One right record against the left block.
    pub pairs :
        (r : Record) (later : List Record) (j : ℕ)
        → drop j rb ≡ r ∷ later
        → is_empty ls ≡ false
        → JoinGives a c ls rb 0 (j + 1)
        → (xs : List Record) (i : ℕ) → drop i ls ≡ xs
        → JoinGives a c ls rb i j
    unfolding next rest of_right matches
    pairs r later j w n k [] i x =
        let m = length-drop_more j rb r later w in
        let b : leb (length rb) j ≡ false = ground arith in
        let o : drop (j + 1) rb ≡ later = drop_next j rb r later w in
        next_round f rows (join_state a c e s ls rb i j) (join_state a c e s ls rb 0 (j + 1)) 0
          (rw (w, x, o, of_right-start f e ls later (rest f rows pr c)) refl)
          (λ t _.
            round t i j r later n w
            ∙ match_pair_end (next f rows t) f e state (state_at i j) r
                (get_elem?-drop j rb r later w) (get_elem?-end i ls x))
          k
    pairs r later j w n k (l ∷ xs) i x =
        let m = length-drop_more j rb r later w in
        let b : leb (length rb) j ≡ false = ground arith in
        let u : All (Conforms cl) (l ∷ xs) =
          subst (All (Conforms cl)) x (All-drop (Conforms cl) i ls hl) in
        let v : All (Conforms cr) (r ∷ later) =
          subst (All (Conforms cr)) w (All-drop (Conforms cr) j rb hr) in
        let o : drop (i + 1) ls ≡ xs = drop_next i ls l xs x in
        let y = pair_accepts l r u.0 v.0 in
        let g = get_elem?-drop j rb r later w in
        let d = get_elem?-drop i ls l xs x in
        elim (Bool-cases (holds f e (concat l r))) [
          | inl t ↦
              answers f rows (join_state a c e s ls rb i j) (join_state a c e s ls rb (i + 1) j)
                ((concat l r ∷ matches f e r xs ++ block_matches f e ls (later ++ rest f rows pr c))
                  ++ joined f e (rest f rows pl a) (meaning f rows pr))
                0 (rw (w, x, t) refl)
                (λ k _.
                  round k i j r later n w
                  ∙ match_pair-true (next f rows k) f e state (state_at i j) r g l d (y ∙ ap ok t))
                (rw (w, o) refl) (at_join sa sc q h hl hr (λ z. absurd (omega arith)))
          | inr t ↦
              next_round f rows (join_state a c e s ls rb i j) (join_state a c e s ls rb (i + 1) j)
                0 (rw (w, x, t, o) refl)
                (λ k _.
                  round k i j r later n w
                  ∙ match_pair-false (next f rows k) f e state (state_at i j) r g l d (y ∙ ap ok t))
                (pairs r later j w n k xs (i + 1) o)
        ]
