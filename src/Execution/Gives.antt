-- ===== src/Execution/Gives.antt =====
-- What a call of `next` gives, for every amount of fuel from some number on: the head of what the
-- operator has still to deliver, and an operator that has the tail still to deliver.
use duck_duck_dbms.Common.{
  ℕ, zero, suc, ◌+◌, ◌≤◌, ◌≡◌, refl, ap, ◌∙◌, List, [], ◌∷◌, take, drop, arith,
}
use duck_duck_dbms.Tuple.Value.{ValueType}
use duck_duck_dbms.Expression.Compare.{FloatOps}
use duck_duck_dbms.Expression.Evaluate.{Record}
use duck_duck_dbms.Plan.{PhysicalPlan, Operator}
use duck_duck_dbms.Execution.{Run, next, fetch_block}
use duck_duck_dbms.Execution.Meaning.{head?, tail, rest}
use duck_duck_dbms.Execution.Typed.{IsState}

-- The fuel is at least one.
pub from_suc : (P : ℕ → Type 0) (n : ℕ) → ((k : ℕ) → n ≤ k → P (suc k)) → (k : ℕ) → suc n ≤ k → P k
from_suc P n h zero q = absurd (omega arith)
from_suc P n h (suc k) q = h k (omega arith)

module _ (f : FloatOps) (rows : ℕ → List Record) where
  abbrev pub Gives : PhysicalPlan → List ValueType → Operator → Type 0
  Gives p cols o =
      (n : ℕ) × (o' : Operator) × ((k : ℕ)
        → n ≤ k
        → next f rows k o ≡ Run.value (head? (rest f rows p o), o'))
      × (rest f rows p o' ≡ tail (rest f rows p o))
      × IsState rows p cols o'

  module _ {p : PhysicalPlan} {cols : List ValueType} where
    -- The call answers in this round.
    pub answers :
        (o o' : Operator) (xs : List Record) (m : ℕ)
        → rest f rows p o ≡ xs
        → ((k : ℕ) → m ≤ k → next f rows (suc k) o ≡ Run.value (head? xs, o'))
        → rest f rows p o' ≡ tail xs
        → IsState rows p cols o'
        → Gives p cols o
    answers o o' xs m q g t s = (
      suc m,
      o',
      from_suc (λ k. next f rows k o ≡ Run.value (head? (rest f rows p o), o')) m
          (λ k h. rw q (g k h)),
      rw q t,
      s,
    )

    -- The round is that of another operator.
    pub same_round :
        (o o1 : Operator) (m : ℕ)
        → rest f rows p o ≡ rest f rows p o1
        → ((k : ℕ) → m ≤ k → next f rows (suc k) o ≡ next f rows (suc k) o1)
        → Gives p cols o1
        → Gives p cols o
    same_round o o1 m q g (n, o', x, t, s) = (
      suc (m + n),
      o',
      from_suc (λ k. next f rows k o ≡ Run.value (head? (rest f rows p o), o')) (m + n)
          (λ k h. rw q (g k (omega arith) ∙ x (suc k) (omega arith))),
      rw q t,
      s,
    )

    -- The next round is that of another operator.
    pub next_round :
        (o o1 : Operator) (m : ℕ)
        → rest f rows p o ≡ rest f rows p o1
        → ((k : ℕ) → m ≤ k → next f rows (suc k) o ≡ next f rows k o1)
        → Gives p cols o1
        → Gives p cols o
    next_round o o1 m q g (n, o', x, t, s) = (
      suc (m + n),
      o',
      from_suc (λ k. next f rows k o ≡ Run.value (head? (rest f rows p o), o')) (m + n)
          (λ k h. rw q (g k (omega arith) ∙ x k (omega arith))),
      rw q t,
      s,
    )

  -- A block takes the first records and leaves the others.
  abbrev pub Fetches : PhysicalPlan → List ValueType → ℕ → Operator → Type 0
  Fetches p cols m o =
      (n : ℕ) × (o' : Operator) × ((k : ℕ)
        → n ≤ k
        → fetch_block (next f rows k) m o ≡ Run.value (take m (rest f rows p o), o'))
      × (rest f rows p o' ≡ drop m (rest f rows p o))
      × IsState rows p cols o'

  module _ (p : PhysicalPlan) (cols : List ValueType)
      (gives : (o : Operator) → IsState rows p cols o → Gives p cols o) where
    fetches :
        (m : ℕ) (records : List Record) (o : Operator)
        → rest f rows p o ≡ records
        → IsState rows p cols o
        → Fetches p cols m o
    unfolding fetch_block
    fetches zero records o q s = (zero, o, (λ k h. refl), refl, s)
    fetches (suc m) [] o q s =
        let (n, o', g, t, s') = gives o s in (n, o', (λ k h. simp (g k h, q)), rw (t, q) refl, s')
    fetches (suc m) (r ∷ rs) o q s =
        let (n, o', g, t, s') = gives o s in
        let e : rest f rows p o' ≡ rs = t ∙ ap tail q in
        let (n2, o2, g2, t2, s2) = fetches m rs o' e s' in
        (
          n + n2,
          o2,
          (λ k h. simp (g k (omega arith), q, g2 k (omega arith), e)),
          rw (t2, e, q) refl,
          s2,
        )

    pub fetch_block-Fetches : (m : ℕ) (o : Operator) → IsState rows p cols o → Fetches p cols m o
    fetch_block-Fetches m o s = fetches m (rest f rows p o) o refl s
