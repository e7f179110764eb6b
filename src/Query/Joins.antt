-- ===== src/Query/Joins.antt =====
-- Binding the tables of a query: a plan that means the choices of rows that the names of the query
-- do.
use duck_duck_dbms.Common.{
  ℕ, suc, ◌<◌, ◌≡◌, refl, sym, ap, ◌∙◌, some, List, [], ◌∷◌, ◌++◌, map, length, length-append, All,
  ok, arith,
}
use mathlib.Core.Path.{subst}
use mathlib.Core.List.{Perm, flat_map}
use mathlib.Core.List.Perm
use duck_duck_dbms.Tuple.Value.{ValueType, Value}
use duck_duck_dbms.Tuple.Schema.{Column, sum, make_schema}
use duck_duck_dbms.Expression.Compare.{FloatOps}
use duck_duck_dbms.Expression.Evaluate.{Record, Expression}
use duck_duck_dbms.Expression.Typing.{Conforms}
use duck_duck_dbms.Plan.{LogicalPlan, optimize, logical_schema, make_join}
use duck_duck_dbms.Execution.Meaning.{meaning, joined}
use duck_duck_dbms.Execution.Typed.{HasPlan, of_scan, of_join}
use duck_duck_dbms.Execution.Bag.{nested_loops, joined-Perm}
use duck_duck_dbms.Query.{TableRef, JoinClause}
use duck_duck_dbms.Query.Binder.{bind_expression, binding, join_table, name_of}
use duck_duck_dbms.Query.Names.{Part, IsWhole, row, bindings}
use duck_duck_dbms.Query.Typing.{HasNamedType, bind_expression-HasType}
use duck_duck_dbms.Query.Answers.{Choice, extended, part, parts}
use duck_duck_dbms.Query.Alike.{row-snoc, bindings-snoc, IsWhole-snoc, Alike}
use duck_duck_dbms.Query.Bags.{nested_loops-Perm}
use duck_duck_dbms.Query.Choices.{Rows, nested_row, all_Alike}

Conforms-length : (cols : List ValueType) (r : Record) → Conforms cols r → length r ≡ length cols
Conforms-length [] [] h = refl
Conforms-length [] (v ∷ vs) h = absurd h
Conforms-length (c ∷ cs) [] h = absurd h
Conforms-length (c ∷ cs) (v ∷ vs) (t, n, h) = ap suc (Conforms-length cs vs h)

sum-some : (a b : List Column) → 0 < length b → sum a b ≡ ok (a ++ b)
unfolding sum make_schema
sum-some [] [] h = absurd (omega (arith, h))
sum-some [] (c ∷ cs) h = refl
sum-some (c ∷ cs) b h = refl

abbrev pub Tables : Type 0
Tables = List (Part ValueType)

module _ (schemas : ℕ → List Column) (types : ℕ → List ValueType) where
  abbrev pub typed_part : TableRef → ℕ → Part ValueType
  typed_part r t = record { name = name_of r; schema = schemas t; fields = types t }

  module _ (rows : ℕ → List Record) where
    -- A table with a column, a type for each column, and rows that fit the types.
    abbrev pub IsTable : ℕ → Type 0
    IsTable t =
        (length (types t) ≡ length (schemas t))
        × (0 < length (schemas t))
        × All (Conforms (types t)) (rows t)

    module _ (f : FloatOps) where
      -- A plan for tables of some types, that means some choices of rows.
      pub record IsJoined (plan : LogicalPlan) (ts : Tables) (choices : List Choice) : Type 0 where
        pub typed : HasPlan rows (optimize plan) (row ts)
        pub width : length (logical_schema schemas plan) ≡ length (row ts)
        pub whole : All IsWhole ts
        pub alike : All (Alike ts) choices
        pub same : Perm (meaning f rows (optimize plan)) (map row choices)

      pub parts-Rows :
          (r : TableRef) (t : ℕ) (records : List Record)
          → length (types t) ≡ length (schemas t)
          → All (Conforms (types t)) records
          → All (Rows (typed_part r t)) (map (part schemas r t) records)
      parts-Rows r t [] n h = tt
      parts-Rows r t (x ∷ xs) n (c, h) =
          ((refl, refl, Conforms-length (types t) x c ∙ n), parts-Rows r t xs n h)

      fields_of :
          (r : TableRef) (t : ℕ) (records : List Record)
          → map (λ (p : Part Value). p.fields) (map (part schemas r t) records) ≡ records
      fields_of r t [] = refl
      fields_of r t (x ∷ xs) = ap (λ l. x ∷ l) (fields_of r t xs)

      bound :
          (c : JoinClause) (t : ℕ) (plan : LogicalPlan) (ts : Tables) (e : Expression)
          → 0 < length (schemas t)
          → bindings 0 ts ++ binding schemas c.table t (length (logical_schema schemas plan)) ∷ []
            ≡ bindings 0 (ts ++ typed_part c.table t ∷ [])
          → bind_expression c.on (bindings 0 (ts ++ typed_part c.table t ∷ [])) ≡ ok e
          → join_table schemas c (some t) (plan, bindings 0 ts)
            ≡ ok (
              LogicalPlan.join plan
                  (LogicalPlan.scan t)
                  e
                  (logical_schema schemas plan ++ schemas t),
              bindings 0 (ts ++ typed_part c.table t ∷ []),
            )
      unfolding join_table make_join logical_schema
      bound c t plan ts e s q b =
          let k = sum-some (logical_schema schemas plan) (schemas t) s in rw (q, b, k) refl

      joined_choices-Perm :
          (c : JoinClause) (t : ℕ) (plan : LogicalPlan) (ts : Tables) (choices : List Choice)
          (e : Expression)
          → IsJoined plan ts choices
          → length (types t) ≡ length (schemas t)
          → All (Conforms (types t)) (rows t)
          → bind_expression c.on (bindings 0 (ts ++ typed_part c.table t ∷ [])) ≡ ok e
          → Perm
              (joined f e (meaning f rows (optimize plan)) (rows t))
              (map row (flat_map (extended f c.on (map (part schemas c.table t) (rows t))) choices))
      joined_choices-Perm c t plan ts choices e j n h b =
          let ps = map (part schemas c.table t) (rows t) in
          let whole = parts-Rows c.table t (rows t) n h in
          let q : nested_loops f e (map row choices) (rows t)
              ≡ map row (flat_map (extended f c.on ps) choices) =
            ap (nested_loops f e (map row choices)) (sym (fields_of c.table t (rows t)))
            ∙ nested_row f c.on e ts (typed_part c.table t) b choices ps j.alike whole in
          subst (Perm (joined f e (meaning f rows (optimize plan)) (rows t))) q (
            Perm.trans (joined-Perm f e (meaning f rows (optimize plan)) (rows t))
              (nested_loops-Perm f e (rows t) j.same))

      -- A join whose condition is typed is bound.
      pub join_table-IsJoined :
          (c : JoinClause) (t : ℕ) (plan : LogicalPlan) (ts : Tables) (choices : List Choice)
          → IsJoined plan ts choices
          → IsTable t
          → HasNamedType (ts ++ typed_part c.table t ∷ []) c.on ValueType.bool
          → (p : LogicalPlan) × (join_table schemas c (some t) (plan, bindings 0 ts)
              ≡ ok (p, bindings 0 (ts ++ typed_part c.table t ∷ [])))
            × IsJoined p
                (ts ++ typed_part c.table t ∷ [])
                (flat_map (extended f c.on (parts schemas rows c.table (some t))) choices)
      unfolding parts optimize logical_schema meaning
      join_table-IsJoined c t plan ts choices j (n, s, h) typed =
          let new = typed_part c.table t in
          let ts' = ts ++ new ∷ [] in
          let w = IsWhole-snoc ts new j.whole n in
          let (e, b, k) = bind_expression-HasType ts' w typed in
          let schema = logical_schema schemas plan in
          (
            LogicalPlan.join plan (LogicalPlan.scan t) e (schema ++ schemas t),
            bound c t plan ts e s (rw j.width (sym (bindings-snoc ts new j.whole))) b,
            record {
              typed = of_join j.typed (of_scan h) (row-snoc ts new) k;
              width = omega (
                arith,
                length-append schema (schemas t),
                length-append (row ts) (types t),
                ap length (row-snoc ts new),
                j.width,
                n,
              );
              whole = w;
              alike =
                  all_Alike f c.on e ts new b choices _ j.alike (parts-Rows c.table t (rows t) n h);
              same = joined_choices-Perm c t plan ts choices e j n h b;
            },
          )
