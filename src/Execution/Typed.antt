-- ===== src/Execution/Typed.antt =====
-- Typed plans: their expressions and their columns fit the records that they are run on. No call of
-- a typed plan throws.
use duck_duck_dbms.Common.{
  ℕ, ◌≤◌, ◌≡◌, refl, sym, ap, ◌∙◌, Bool, false, some, List, [], ◌∷◌, ◌++◌, length, All, get_elem?,
  Bool-cases, inl, inr, ok,
}
use duck_duck_dbms.Tuple.Value.{ValueType, Value, as_bool, variant_type, Variant}
use duck_duck_dbms.Tuple.Schema.{Column}
use duck_duck_dbms.Expression.Compare.{FloatOps}
use duck_duck_dbms.Expression.Evaluate.{Record, concat, Expression}
use duck_duck_dbms.Expression.Typing.{HasType, Conforms, IsConsistent, get-Yields}
use duck_duck_dbms.Expression.Soundness.{evaluate-Yields}
use duck_duck_dbms.Plan.{PhysicalPlan, Operator, Blocks}
use duck_duck_dbms.Execution.{select, accepts}
use duck_duck_dbms.Execution.Meaning.{selected, holds}

-- The columns at some indices have some types.
abbrev pub Selects : List ValueType → List ℕ → List ValueType → Type 0
Selects cs [] [] = Unit
Selects cs [] (d ∷ ds) = ⊥
Selects cs (i ∷ is) [] = ⊥
Selects cs (i ∷ is) (d ∷ ds) = (get_elem? cs i ≡ some d) × Selects cs is ds

-- A plan that gives records with columns of some types.
pub data HasPlan (rows : ℕ → List Record) : PhysicalPlan → List ValueType → Type 0 where
  of_scan :
      {t : ℕ} {cols : List ValueType}
      → All (Conforms cols) (rows t)
      → HasPlan rows (PhysicalPlan.sequential_scan t) cols
  of_join :
      {l r : PhysicalPlan} {e : Expression} {s : List Column} {cl cr cols : List ValueType}
      → HasPlan rows l cl
      → HasPlan rows r cr
      → cols ≡ cl ++ cr
      → HasType cols e ValueType.bool
      → HasPlan rows (PhysicalPlan.nested_loop_join l r e s) cols
  of_filter :
      {c : PhysicalPlan} {e : Expression} {cols : List ValueType}
      → HasPlan rows c cols
      → HasType cols e ValueType.bool
      → HasPlan rows (PhysicalPlan.filter c e) cols
  of_projection :
      {c : PhysicalPlan} {is : List ℕ} {s : List Column} {cs cols : List ValueType}
      → HasPlan rows c cs
      → Selects cs is cols
      → HasPlan rows (PhysicalPlan.projection c is s) cols
  of_limit :
      {c : PhysicalPlan} {n : ℕ} {cols : List ValueType}
      → HasPlan rows c cols
      → HasPlan rows (PhysicalPlan.limit c n) cols

-- An exhausted right block is followed by one that is read against the whole left block.
abbrev pub IsBlocks : Blocks → Type 0
IsBlocks b = length b.right_block ≤ b.right_it → b.left_it ≡ 0

-- A state that the operators of a typed plan can come to.
pub data IsState (rows : ℕ → List Record) : PhysicalPlan → List ValueType → Operator → Type 0 where
  at_scan :
      {t : ℕ} {cols : List ValueType} {records : List Record}
      → All (Conforms cols) (rows t)
      → All (Conforms cols) records
      → IsState rows (PhysicalPlan.sequential_scan t) cols (Operator.sequential_scan t records)
  at_join :
      {l r : PhysicalPlan} {a c : Operator} {e : Expression} {s : List Column} {b : Blocks}
      {cl cr cols : List ValueType}
      → IsState rows l cl a
      → IsState rows r cr c
      → cols ≡ cl ++ cr
      → HasType cols e ValueType.bool
      → All (Conforms cl) b.left_block
      → All (Conforms cr) b.right_block
      → IsBlocks b
      → IsState rows
          (PhysicalPlan.nested_loop_join l r e s)
          cols
          (Operator.nested_loop_join a c e s b)
  at_filter :
      {p : PhysicalPlan} {c : Operator} {e : Expression} {cols : List ValueType}
      → IsState rows p cols c
      → HasType cols e ValueType.bool
      → IsState rows (PhysicalPlan.filter p e) cols (Operator.filter c e)
  at_projection :
      {p : PhysicalPlan} {c : Operator} {is : List ℕ} {s : List Column} {cs cols : List ValueType}
      → IsState rows p cs c
      → Selects cs is cols
      → IsState rows (PhysicalPlan.projection p is s) cols (Operator.projection c is s)
  at_limit :
      {p : PhysicalPlan} {c : Operator} {n produced : ℕ} {cols : List ValueType}
      → IsState rows p cols c
      → IsState rows (PhysicalPlan.limit p n) cols (Operator.limit c n produced)

module _ (f : FloatOps) where
  bool_value :
      (v : Value)
      → v.type ≡ ValueType.bool
      → IsConsistent v
      → v.is_null ≡ false
      → (b : Bool) × (as_bool v ≡ ok b)
  unfolding as_bool
  bool_value v t c n = payload v.payload (c n ∙ t) n
    where
      payload :
          (d : Variant)
          → variant_type d ≡ ValueType.bool
          → v.is_null ≡ false
          → (b : Bool) × (as_bool (record v { payload = d }) ≡ ok b)
      payload (Variant.bool b) e n = (b, rw n refl)
      payload (Variant.uint64 _) e n = cc
      payload _ e n = cc

  answer :
      (cols : List ValueType) (e : Expression) (r : Record)
      → HasType cols e ValueType.bool
      → Conforms cols r
      → (b : Bool) × (accepts f e r ≡ ok b)
  unfolding accepts
  answer cols e r h c =
      let (v, g, t, k) = evaluate-Yields f cols r c h in
      elim (Bool-cases v.is_null) [
        | inl n ↦ (false, simp (g, t, n))
        | inr n ↦ let (b, x) = bool_value v t k n in (b, simp (g, t, n, x))
      ]

  answered : (e : Expression) (r : Record) (b : Bool) → accepts f e r ≡ ok b → holds f e r ≡ b
  unfolding holds
  answered e r b x = rw (x, holds)

  -- A predicate of type BOOL has an answer on every record of the columns.
  pub accepts_total :
      (cols : List ValueType) (e : Expression) (r : Record)
      → HasType cols e ValueType.bool
      → Conforms cols r
      → accepts f e r ≡ ok (holds f e r)
  accepts_total cols e r h c =
      let (b, x) = answer cols e r h c in x ∙ ap ok (sym (answered e r b x))

pub concat-Conforms :
    (cs ds : List ValueType) (a b : Record)
    → Conforms cs a
    → Conforms ds b
    → Conforms (cs ++ ds) (concat a b)
concat-Conforms [] ds [] b h k = k
concat-Conforms [] ds (v ∷ vs) b h k = absurd h
concat-Conforms (c ∷ cs) ds [] b h k = absurd h
concat-Conforms (c ∷ cs) ds (v ∷ vs) b (t, n, h) k = (t, n, concat-Conforms cs ds vs b h k)

selected_ok : (is : List ℕ) (r values : Record) → select r is ≡ ok values → selected is r ≡ values
unfolding selected
selected_ok is r values h = rw (h, selected)

chosen :
    (cs ds : List ValueType) (is : List ℕ) (r : Record)
    → Conforms cs r
    → Selects cs is ds
    → (values : Record) × (select r is ≡ ok values) × Conforms ds values
unfolding select
chosen cs [] [] r c h = ([], refl, tt)
chosen cs (d ∷ ds) [] r c h = absurd h
chosen cs [] (i ∷ is) r c h = absurd h
chosen cs (d ∷ ds) (i ∷ is) r c (e, h) =
    let (v, g, t, k) = get-Yields cs r i d c e in
    let (vs, x, y) = chosen cs ds is r c h in (v ∷ vs, rw (g, x) refl, (t, k, y))

-- A record of the columns has values at indices of the columns.
pub select_total :
    (cs ds : List ValueType) (is : List ℕ) (r : Record)
    → Conforms cs r
    → Selects cs is ds
    → (select r is ≡ ok (selected is r)) × Conforms ds (selected is r)
select_total cs ds is r c h =
    let (values, x, y) = chosen cs ds is r c h in
    let e = selected_ok is r values x in (x ∙ ap ok (sym e), rw e y)
