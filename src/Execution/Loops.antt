-- ===== src/Execution/Loops.antt =====
-- What the next record of each operator is, when its children give theirs.
use duck_duck_dbms.Common.{
  ℕ, zero, suc, ◌+◌, ◌-◌, ◌≡◌, refl, ap, ◌∙◌, true, false, List, [], ◌∷◌, keep, map, take, leb, All,
  Bool-cases, inl, inr, arith,
}
use mathlib.Core.Path.{subst}
use duck_duck_dbms.Tuple.Value.{ValueType}
use duck_duck_dbms.Tuple.Schema.{Column}
use duck_duck_dbms.Expression.Compare.{FloatOps}
use duck_duck_dbms.Expression.Evaluate.{Record, Expression}
use duck_duck_dbms.Expression.Typing.{HasType, Conforms}
use duck_duck_dbms.Plan.{PhysicalPlan, Operator}
use duck_duck_dbms.Execution.{next, filter_round, project}
use duck_duck_dbms.Execution.Meaning.{head?, tail, rest, holds, selected}
use duck_duck_dbms.Execution.Typed.{
  IsState, at_scan, at_filter, at_projection, at_limit, Selects, accepts_total, select_total,
}
use duck_duck_dbms.Execution.Columns.{rest-Conforms}
use duck_duck_dbms.Execution.Gives.{Gives, answers, next_round}

head?-take : {A : Type 0} (n : ℕ) (xs : List A) → head? (take (suc n) xs) ≡ head? xs
head?-take n [] = refl
head?-take n (x ∷ xs) = refl

tail-take : {A : Type 0} (n : ℕ) (xs : List A) → tail (take (suc n) xs) ≡ take n (tail xs)
tail-take zero [] = refl
tail-take (suc n) [] = refl
tail-take n (x ∷ xs) = refl

module _ (f : FloatOps) (rows : ℕ → List Record) where
  pub scan-Gives :
      (t : ℕ) (cols : List ValueType) (records : List Record)
      → All (Conforms cols) (rows t)
      → All (Conforms cols) records
      → Gives f rows (PhysicalPlan.sequential_scan t) cols (Operator.sequential_scan t records)
  unfolding next rest
  scan-Gives t cols [] h k =
      answers f rows (Operator.sequential_scan t []) (Operator.sequential_scan t []) [] 0 refl
        (λ _ _. refl) refl (at_scan h k)
  scan-Gives t cols (r ∷ rs) h (x, k) =
      answers f rows (Operator.sequential_scan t (r ∷ rs)) (Operator.sequential_scan t rs) (r ∷ rs)
        0 refl (λ _ _. refl) refl (at_scan h k)

  module _ {p : PhysicalPlan} {cs : List ValueType}
      (gives : (o : Operator) → IsState rows p cs o → Gives f rows p cs o) where
    filter_loop :
        (e : Expression)
        → HasType cs e ValueType.bool
        → (records : List Record) (c : Operator) → rest f rows p c ≡ records
        → IsState rows p cs c
        → Gives f rows (PhysicalPlan.filter p e) cs (Operator.filter c e)
    unfolding next filter_round rest
    filter_loop e h [] c q s =
        let (n, c', g, t, s') = gives c s in
        answers f rows (Operator.filter c e) (Operator.filter c' e) [] n (rw q refl)
          (λ k x. simp (g k x, q)) (rw (t, q) refl) (at_filter s' h)
    filter_loop e h (r ∷ rs) c q s =
        let (n, c', g, t, s') = gives c s in
        let w : rest f rows p c' ≡ rs = t ∙ ap tail q in
        let all : All (Conforms cs) (r ∷ rs) =
          subst (All (Conforms cs)) q (rest-Conforms f rows s) in
        let a = accepts_total f cs e r h all.0 in
        elim (Bool-cases (holds f e r)) [
          | inl b ↦
              answers f rows (Operator.filter c e) (Operator.filter c' e) (r ∷ keep (holds f e) rs)
                n (rw (q, b) refl) (λ k x. simp (g k x, q, a, b)) (rw w refl) (at_filter s' h)
          | inr b ↦
              next_round f rows (Operator.filter c e) (Operator.filter c' e) n (rw (q, b, w) refl)
                (λ k x. simp (g k x, q, a, b)) (filter_loop e h rs c' w s')
        ]

    pub filter-Gives :
        (e : Expression) (c : Operator)
        → HasType cs e ValueType.bool
        → IsState rows p cs c
        → Gives f rows (PhysicalPlan.filter p e) cs (Operator.filter c e)
    filter-Gives e c h s = filter_loop e h (rest f rows p c) c refl s

    projection_of :
        (is : List ℕ) (sch : List Column) (cols : List ValueType)
        → Selects cs is cols
        → (records : List Record) (c : Operator) → rest f rows p c ≡ records
        → IsState rows p cs c
        → Gives f rows (PhysicalPlan.projection p is sch) cols (Operator.projection c is sch)
    unfolding next project rest
    projection_of is sch cols h [] c q s =
        let (n, c', g, t, s') = gives c s in
        answers f rows (Operator.projection c is sch) (Operator.projection c' is sch) [] n
          (rw q refl) (λ k x. simp (g k x, q)) (rw (t, q) refl) (at_projection s' h)
    projection_of is sch cols h (r ∷ rs) c q s =
        let (n, c', g, t, s') = gives c s in
        let w : rest f rows p c' ≡ rs = t ∙ ap tail q in
        let all : All (Conforms cs) (r ∷ rs) =
          subst (All (Conforms cs)) q (rest-Conforms f rows s) in
        let (a, _) = select_total cs cols is r all.0 h in
        answers f rows (Operator.projection c is sch) (Operator.projection c' is sch)
          (selected is r ∷ map (selected is) rs) n (rw q refl) (λ k x. simp (g k x, q, a))
          (rw w refl) (at_projection s' h)

    pub projection-Gives :
        (is : List ℕ) (sch : List Column) (cols : List ValueType) (c : Operator)
        → Selects cs is cols
        → IsState rows p cs c
        → Gives f rows (PhysicalPlan.projection p is sch) cols (Operator.projection c is sch)
    projection-Gives is sch cols c h s = projection_of is sch cols h (rest f rows p c) c refl s

    limit_of :
        (n m left : ℕ) (c : Operator)
        → n - m ≡ left
        → IsState rows p cs c
        → Gives f rows (PhysicalPlan.limit p n) cs (Operator.limit c n m)
    unfolding next rest
    limit_of n m zero c d s =
        let done : leb n m ≡ true = ground arith in
        answers f rows (Operator.limit c n m) (Operator.limit c n m) [] 0 (rw d refl)
          (λ k x. rw (next, done) refl) (rw d refl) (at_limit s)
    limit_of n m (suc j) c d s =
        let more : leb n m ≡ false = ground arith in
        let less : n - (m + 1) ≡ j = omega arith in
        let (k0, c', g, t, s') = gives c s in
        answers f rows (Operator.limit c n m) (Operator.limit c' n (m + 1))
          (take (suc j) (rest f rows p c)) k0 (rw d refl)
          (λ k x. rw (next, more, g k x, head?-take j (rest f rows p c)) refl)
          (rw (less, t, tail-take j (rest f rows p c)) refl) (at_limit s')

    pub limit-Gives :
        (n m : ℕ) (c : Operator)
        → IsState rows p cs c
        → Gives f rows (PhysicalPlan.limit p n) cs (Operator.limit c n m)
    limit-Gives n m c s = limit_of n m (n - m) c refl s
