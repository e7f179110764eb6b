-- ===== src/Query/Choices.antt =====
-- Nested loops over the records of tables side by side give the choices of rows that meet a condition
-- by its names.
use duck_duck_dbms.Common.{
  ◌≡◌, refl, sym, ap, ◌∙◌, Bool, false, not, List, [], ◌∷◌, ◌++◌, map, if◌then◌else◌, All,
  Bool-cases, inl, inr, Result, ok, err, ◌>>=◌, arith, assert_failed,
}
use mathlib.Core.Path.{ap₂}
use mathlib.Core.List.{flat_map, map-append}
use duck_duck_dbms.Tuple.Value.{ValueType, Value, as_bool}
use duck_duck_dbms.Expression.Compare.{FloatOps, is_bool}
use duck_duck_dbms.Expression.Evaluate.{Record, concat, Expression, evaluate}
use duck_duck_dbms.Execution.{accepts}
use duck_duck_dbms.Execution.Meaning.{holds}
use duck_duck_dbms.Execution.Lists.{All-append}
use duck_duck_dbms.Execution.Bag.{matched, nested_loops}
use duck_duck_dbms.Query.{UnboundExpression}
use duck_duck_dbms.Query.Binder.{bind_expression}
use duck_duck_dbms.Query.Names.{Part, IsWhole, row, bindings}
use duck_duck_dbms.Query.Meaning.{evaluate-bind_expression}
use duck_duck_dbms.Query.Answers.{Choice, is_true, is_met, extended}
use duck_duck_dbms.Query.Alike.{
  row-snoc, IsWhole-snoc, Alike, bindings-Alike, Alike-IsWhole, Alike-snoc,
}

-- A predicate accepts a record on which it is TRUE.
decided :
    (r : Result Value)
    → (elim (r >>= λ v.
          (if not (is_bool v.type)
            then err assert_failed
            else if v.is_null
            then ok false
            else as_bool v))
        as (λ _. Bool) [ ok b ↦ b | err _ ↦ false ])
      ≡ is_true r
unfolding is_true as_bool
decided (err e) = refl
decided (ok v) = ground arith

-- The rows of a table: each has the name, the schema and as many fields as the table.
abbrev pub Rows : Part ValueType → Part Value → Type 0
Rows t p = (p.name ≡ t.name) × (p.schema ≡ t.schema) × IsWhole p

module _ (f : FloatOps) where
  pub holds-is_true : (e : Expression) (r : Record) → holds f e r ≡ is_true (evaluate f r e)
  unfolding holds accepts
  holds-is_true e r = decided (evaluate f r e)

  module _ (on : UnboundExpression) (e : Expression) where
    met :
        (xs : Choice) (p : Part Value)
        → All IsWhole (xs ++ p ∷ [])
        → bind_expression on (bindings 0 (xs ++ p ∷ [])) ≡ ok e
        → holds f e (concat (row xs) p.fields) ≡ is_met f on (xs ++ p ∷ [])
    unfolding is_met
    met xs p w h =
        ap (holds f e) (sym (row-snoc xs p))
        ∙ holds-is_true e (row (xs ++ p ∷ []))
        ∙ ap is_true (evaluate-bind_expression f (xs ++ p ∷ []) on e w h)

    -- A row that fits behind the choice, and with which the condition is bound to the expression.
    abbrev Fits : Choice → Part Value → Type 0
    Fits xs p = IsWhole p × (bind_expression on (bindings 0 (xs ++ p ∷ [])) ≡ ok e)

    matched-extended :
        (xs : Choice) (ps : List (Part Value))
        → All IsWhole xs
        → All (Fits xs) ps
        → matched f e (row xs) (map (λ (p : Part Value). p.fields) ps)
          ≡ map row (extended f on ps xs)
    unfolding matched extended
    matched-extended xs [] w h = refl
    matched-extended xs (p ∷ ps) w ((v, b), h) =
        let m = met xs p (IsWhole-snoc xs p w v) b in
        let rest = matched-extended xs ps w h in
        elim (Bool-cases (is_met f on (xs ++ p ∷ []))) [
          | inl q ↦ rw (m, q) (ap₂ (λ a b. a ∷ b) (sym (row-snoc xs p)) rest)
          | inr q ↦ rw (m, q) rest
        ]

    module _ (ts : List (Part ValueType)) (t : Part ValueType)
        (b : bind_expression on (bindings 0 (ts ++ t ∷ [])) ≡ ok e) where
      fits :
          (xs : Choice) (ps : List (Part Value)) → Alike ts xs → All (Rows t) ps → All (Fits xs) ps
      fits xs [] a h = tt
      fits xs (p ∷ ps) a ((n, s, w), h) =
          let k : Alike (ts ++ t ∷ []) (xs ++ p ∷ []) = Alike-snoc ts xs t p a n s w in
          (
            (w, ap (bind_expression on) (bindings-Alike (ts ++ t ∷ []) (xs ++ p ∷ []) k) ∙ b),
            fits xs ps a h,
          )

      -- The records of the nested loops are the choices with one more table.
      pub nested_row :
          (cs : List Choice) (ps : List (Part Value))
          → All (Alike ts) cs
          → All (Rows t) ps
          → nested_loops f e (map row cs) (map (λ (p : Part Value). p.fields) ps)
            ≡ map row (flat_map (extended f on ps) cs)
      unfolding nested_loops flat_map
      nested_row [] ps a h = refl
      nested_row (c ∷ cs) ps (a, as') h =
          ap₂ (λ (x y : List Record). x ++ y)
            (matched-extended c ps (Alike-IsWhole ts c a) (fits c ps a h)) (nested_row cs ps as' h)
          ∙ sym (map-append row (extended f on ps c) (flat_map (extended f on ps) cs))

      extended-Alike :
          (xs : Choice) (ps : List (Part Value))
          → Alike ts xs
          → All (Rows t) ps
          → All (Alike (ts ++ t ∷ [])) (extended f on ps xs)
      unfolding extended
      extended-Alike xs [] a h = tt
      extended-Alike xs (p ∷ ps) a ((n, s, w), h) = elim (Bool-cases (is_met f on (xs ++ p ∷ []))) [
        | inl q ↦ rw q (Alike-snoc ts xs t p a n s w, extended-Alike xs ps a h)
        | inr q ↦ rw q (extended-Alike xs ps a h)
      ]

      pub all_Alike :
          (cs : List Choice) (ps : List (Part Value))
          → All (Alike ts) cs
          → All (Rows t) ps
          → All (Alike (ts ++ t ∷ [])) (flat_map (extended f on ps) cs)
      unfolding flat_map
      all_Alike [] ps a h = tt
      all_Alike (c ∷ cs) ps (a, as') h =
          All-append _ (extended f on ps c) _ (extended-Alike c ps a h) (all_Alike cs ps as' h)
