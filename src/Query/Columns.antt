-- ===== src/Query/Columns.antt =====
-- Binding the columns of a query: the plan gives the values of the columns that are named.
use duck_duck_dbms.Common.{
  ℕ, ◌≡◌, refl, sym, ap, ◌∙◌, inl, inr, Option, none, some, List, [], ◌∷◌, map, length, All,
  get_elem?, get_elem?-lt, bind-ok, ok, arith,
}
use mathlib.Core.Path.{subst}
use mathlib.Core.List.{Perm}
use mathlib.Core.List.Perm
use duck_duck_dbms.Tuple.Value.{ValueType, Value}
use duck_duck_dbms.Tuple.Schema.{Column}
use duck_duck_dbms.Tuple.Schema.Names.{Within, projected-Chosen}
use duck_duck_dbms.Expression.Compare.{FloatOps}
use duck_duck_dbms.Expression.Evaluate.{Record}
use duck_duck_dbms.Plan.{LogicalPlan, optimize, logical_schema, make_projection}
use duck_duck_dbms.Execution.{select}
use duck_duck_dbms.Execution.Meaning.{meaning, selected}
use duck_duck_dbms.Execution.Typed.{HasPlan, of_projection, Selects}
use duck_duck_dbms.Query.{ColumnRef}
use duck_duck_dbms.Query.Binder.{resolve_column, resolve_columns, bind_projection}
use duck_duck_dbms.Query.Names.{IsWhole, row, bindings, lookup, resolve_column-lookup}
use duck_duck_dbms.Query.Meaning.{get-some}
use duck_duck_dbms.Query.Typing.{resolved_type}
use duck_duck_dbms.Query.Answers.{Choice, chosen, chosen_fields}
use duck_duck_dbms.Query.Alike.{Alike, bindings-Alike, Alike-IsWhole}
use duck_duck_dbms.Query.Typed.{Refs, HasColumns}
use duck_duck_dbms.Query.Joins.{Tables, IsJoined}

-- The positions of typed columns.
resolve_columns-Selects :
    (ts : Tables) (refs : List ColumnRef) (cols : List ValueType)
    → All IsWhole ts
    → Refs ts refs cols
    → (is : List ℕ) × (resolve_columns refs (bindings 0 ts) ≡ ok is) × Selects (row ts) is cols
unfolding resolve_columns
resolve_columns-Selects ts [] [] w h = ([], refl, tt)
resolve_columns-Selects ts [] (d ∷ ds) w h = absurd h
resolve_columns-Selects ts (c ∷ cs) [] w h = absurd h
resolve_columns-Selects ts (c ∷ cs) (d ∷ ds) w (e, h) =
    let (i, r, g) = resolved_type ts w c d e in
    let (is, s, k) = resolve_columns-Selects ts cs ds w h in (i ∷ is, rw (r, s) refl, (g, k))

chosen_fields-some :
    (c : ColumnRef) (cs : List ColumnRef) (xs : Choice) (v : Value)
    → lookup c xs ≡ some v
    → chosen_fields (c ∷ cs) xs ≡ v ∷ chosen_fields cs xs
chosen_fields-some c cs xs v h = rw (h, chosen_fields) refl

-- The values at the positions are those of the names.
select_named :
    (xs : Choice) (refs : List ColumnRef) (is : List ℕ)
    → All IsWhole xs
    → resolve_columns refs (bindings 0 xs) ≡ ok is
    → select (row xs) is ≡ ok (chosen_fields refs xs)
unfolding resolve_columns select
select_named xs [] is w h = let e : is ≡ [] = cc h in ap (select (row xs)) e
select_named xs (c ∷ cs) is w h =
    let (i, r, k) = bind-ok (resolve_column c (bindings 0 xs)) _ is h in
    let (js, s, m) = bind-ok (resolve_columns cs (bindings 0 xs)) _ is k in
    let e : is ≡ i ∷ js = cc m in
    elim (resolve_column-lookup c xs w) [
      | inl (j, v, q, g, l) ↦
          let n : j ≡ i = cc (q, r) in
          let x = get-some (row xs) i v (ap (get_elem? (row xs)) (sym n) ∙ g) in
          let rest = select_named xs cs js w s in
          ap (select (row xs)) e ∙ rw (x, rest) (ap ok (sym (chosen_fields-some c cs xs v l)))
      | inr (er, q, l) ↦ cc (q, r)
    ]

selected_named :
    (ts : Tables) (refs : List ColumnRef) (is : List ℕ)
    → resolve_columns refs (bindings 0 ts) ≡ ok is
    → (cs : List Choice) → All (Alike ts) cs
    → map (selected is) (map row cs) ≡ map (chosen_fields refs) cs
unfolding selected
selected_named ts refs is h [] a = refl
selected_named ts refs is h (c ∷ cs) (a, w) =
    let e = ap (resolve_columns refs) (bindings-Alike ts c a) ∙ h in
    let x = select_named c refs is (Alike-IsWhole ts c a) e in
    rw (x, selected) (ap (λ l. chosen_fields refs c ∷ l) (selected_named ts refs is h cs w))

Selects-Within :
    (cols : List ValueType) (schema : List Column) (is : List ℕ) (ds : List ValueType)
    → length schema ≡ length cols
    → Selects cols is ds
    → Within schema is
Selects-Within cols schema [] ds n h = tt
Selects-Within cols schema (i ∷ is) [] n h = absurd h
Selects-Within cols schema (i ∷ is) (d ∷ ds) n (e, h) =
    (omega (arith, n, get_elem?-lt cols i e), Selects-Within cols schema is ds n h)

map-Perm : {A B : Type 0} (g : A → B) {xs ys : List A} → Perm xs ys → Perm (map g xs) (map g ys)
map-Perm g p = Perm.map g p

-- A plan that gives records of some types, and means a bag of records.
pub record Gives (rows : ℕ → List Record) (f : FloatOps) (p : LogicalPlan) (cols : List ValueType)
    (bag : List Record) : Type 0 where
  pub typed : HasPlan rows (optimize p) cols
  pub same : Perm (meaning f rows (optimize p)) bag

module _ (schemas : ℕ → List Column) (types : ℕ → List ValueType) (rows : ℕ → List Record)
    (f : FloatOps) (plan : LogicalPlan) (ts : Tables) (cs : List Choice)
    (j : IsJoined schemas types rows f plan ts cs) where
  projection_of :
      (i : ℕ) (is : List ℕ)
      → Within (logical_schema schemas plan) (i ∷ is)
      → (s : List Column) × (make_projection schemas plan (i ∷ is)
          ≡ ok (LogicalPlan.projection plan (i ∷ is) s))
  unfolding make_projection
  projection_of i is w =
      let (s, e, c) = projected-Chosen (logical_schema schemas plan) i is w in (s, rw e refl)

  listed :
      (c : ColumnRef) (refs : List ColumnRef) (cols : List ValueType) (is : List ℕ)
      → resolve_columns (c ∷ refs) (bindings 0 ts) ≡ ok is
      → Selects (row ts) is cols
      → Refs ts (c ∷ refs) cols
      → (p : LogicalPlan) × (bind_projection schemas (some (c ∷ refs)) (bindings 0 ts) plan ≡ ok p)
        × Gives rows f p cols (map (chosen (some (c ∷ refs))) cs)
  unfolding bind_projection optimize meaning chosen
  listed c refs [] [] r s h = absurd h
  listed c refs (d ∷ ds) [] r s h = absurd s
  listed c refs cols (i ∷ is) r s h =
      let w = Selects-Within (row ts) (logical_schema schemas plan) (i ∷ is) cols j.width s in
      let (sch, e) = projection_of i is w in
      (
        LogicalPlan.projection plan (i ∷ is) sch,
        rw (r, e) refl,
        record {
          typed = of_projection j.typed s;
          same =
              subst (Perm (map (selected (i ∷ is)) (meaning f rows (optimize plan))))
                (selected_named ts (c ∷ refs) (i ∷ is) r cs j.alike)
                (map-Perm (selected (i ∷ is)) j.same);
        },
      )

  -- Columns that are typed, or all of them, are bound.
  pub bind_projection-Gives :
      (refs : Option (List ColumnRef)) (cols : List ValueType)
      → HasColumns ts refs cols
      → (p : LogicalPlan) × (bind_projection schemas refs (bindings 0 ts) plan ≡ ok p)
        × Gives rows f p cols (map (chosen refs) cs)
  unfolding bind_projection chosen
  bind_projection-Gives none cols h = (plan, refl, record { typed = rw h j.typed; same = j.same })
  bind_projection-Gives (some []) cols h = absurd h
  bind_projection-Gives (some (c ∷ refs)) cols h =
      let (is, r, s) = resolve_columns-Selects ts (c ∷ refs) cols j.whole h in
      listed c refs cols is r s h
