-- ===== src/Query/Runs.antt =====
-- A query that its names give a type is bound, planned and run, and gives the records that it asks
-- for (src/query/query_engine.cpp).
use duck_duck_dbms.Common.{
  ℕ, ◌≤◌, ◌≡◌, refl, sym, ap, ◌∙◌, Option, none, some, List, [], ◌∷◌, keep, map, length, All,
  Result, ok,
}
use mathlib.Core.Path.{subst, ap₂}
use mathlib.Core.List.{Perm, append-nil}
use mathlib.Core.List.Perm
use duck_duck_dbms.Tuple.Value.{ValueType, Value}
use duck_duck_dbms.Tuple.Schema.{Column}
use duck_duck_dbms.Expression.Compare.{FloatOps}
use duck_duck_dbms.Expression.Evaluate.{Record}
use duck_duck_dbms.Expression.Typing.{Conforms}
use duck_duck_dbms.Plan.{LogicalPlan, Operator, optimize, build, logical_schema}
use duck_duck_dbms.Execution.{Run, drain}
use duck_duck_dbms.Execution.Meaning.{meaning}
use duck_duck_dbms.Execution.Typed.{HasPlan, of_scan, of_limit}
use duck_duck_dbms.Execution.Delivers.{drain-build}
use duck_duck_dbms.Query.{UnboundExpression, TableRef, JoinClause, SelectQuery}
use duck_duck_dbms.Query.Binder.{
  bind_joins, bind_limit, bind_table, bind_from, after_joins, bind_clauses, bind, execute,
}
use duck_duck_dbms.Query.Names.{Part, row, bindings}
use duck_duck_dbms.Query.Answers.{
  Choice, first, answers, joined_choices, from_table, choices, passes, chosen, parts, part,
}
use duck_duck_dbms.Query.Typed.{HasJoins, no_joins, one_join, IsTyped}
use duck_duck_dbms.Query.Joins.{
  Tables, typed_part, IsTable, IsJoined, join_table-IsJoined, parts-Rows,
}
use duck_duck_dbms.Query.Choices.{Rows}
use duck_duck_dbms.Query.Alike.{Alike}
use duck_duck_dbms.Query.Clauses.{bind_filter-IsJoined}
use duck_duck_dbms.Query.Columns.{Gives, bind_projection-Gives}

module _ (schemas : ℕ → List Column) (types : ℕ → List ValueType) (rows : ℕ → List Record)
    (catalog : List ℕ → Option ℕ) (f : FloatOps) where
  bind_joins-IsJoined :
      {ts us : Tables} {cs : List JoinClause} (plan : LogicalPlan) (now : List Choice)
      → IsJoined schemas types rows f plan ts now
      → HasJoins schemas types rows catalog ts cs us
      → (p : LogicalPlan) × (bind_joins schemas catalog cs (plan, bindings 0 ts)
          ≡ ok (p, bindings 0 us))
        × IsJoined schemas types rows f p us (joined_choices f schemas catalog rows cs now)
  unfolding bind_joins joined_choices
  bind_joins-IsJoined plan now j no_joins = (plan, refl, j)
  bind_joins-IsJoined {ts} plan now j (one_join {c = c} {cs = cs} {t = t} e w h rest) =
      let (p, b, k) = join_table-IsJoined schemas types rows f c t plan ts now j w h in
      let (p', b', k') = bind_joins-IsJoined p _ k rest in (p', rw (e, b) b', rw e k')

  whole_rows :
      (r : TableRef) (t : ℕ) (records : List Record)
      → records ≡ map row (map (λ (p : Part Value). p ∷ []) (map (part schemas r t) records))
  whole_rows r t [] = refl
  whole_rows r t (x ∷ xs) = ap₂ (λ a b. a ∷ b) (sym (append-nil x)) (whole_rows r t xs)

  single :
      (t : Part ValueType) (ps : List (Part Value))
      → All (Rows t) ps
      → All (Alike (t ∷ [])) (map (λ (p : Part Value). p ∷ []) ps)
  single t [] h = tt
  single t (p ∷ ps) ((n, s, w), h) = ((n, s, w, tt), single t ps h)

  -- A scan of the table of the FROM clause means a choice for each of its rows.
  scanned :
      (r : TableRef) (t : ℕ)
      → IsTable schemas types rows t
      → IsJoined schemas types rows f
          (LogicalPlan.scan t)
          (typed_part schemas types r t ∷ [])
          (map (λ (p : Part Value). p ∷ []) (parts schemas rows r (some t)))
  unfolding optimize logical_schema meaning parts
  scanned r t (n, s, h) = record {
    typed = of_scan (rw (append-nil (types t)) h);
    width = sym (ap length (append-nil (types t)) ∙ n);
    whole = (n, tt);
    alike =
        single (typed_part schemas types r t) (map (part schemas r t) (rows t))
          (parts-Rows schemas types rows f r t (rows t) n h);
    same = subst (Perm (rows t)) (whole_rows r t (rows t)) (Perm.refl (rows t));
  }

  asked :
      (q : SelectQuery) (r : TableRef) (t : ℕ)
      → q.table ≡ some r
      → catalog r.name ≡ some t
      → answers f schemas catalog rows q
        ≡ map (chosen q.columns) (
            keep (passes f q.predicate) (
              joined_choices f schemas catalog rows q.joins
                (map (λ (p : Part Value). p ∷ []) (parts schemas rows r (some t)))))
  unfolding answers choices from_table
  asked q r t h e =
      ap (λ (o : Option TableRef). map (chosen q.columns) (choices f schemas catalog rows q o)) h
      ∙ ap
          (λ (o : Option ℕ). map (chosen q.columns) (
            keep (passes f q.predicate) (
              joined_choices f schemas catalog rows q.joins
                (map (λ (p : Part Value). p ∷ []) (parts schemas rows r o)))))
          e

  -- A plan that gives the answers of a typed query, up to its limit.
  pub unlimited :
      (q : SelectQuery) (cols : List ValueType)
      → IsTyped schemas types rows catalog q cols
      → (p : LogicalPlan) × (bind schemas catalog q ≡ (
        ok (bind_limit q.limit p),
        record q { joins = []; predicate = UnboundExpression.null },
      ))
        × Gives rows f p cols (answers f schemas catalog rows q)
  unfolding bind bind_table bind_from after_joins bind_clauses
  unlimited q cols h =
      let (a, ea, ja) = bind_joins-IsJoined _ _ (scanned h.ref h.number h.table) h.joins in
      let (b, eb, jb) =
        bind_filter-IsJoined schemas types rows f a _ _ ja q.predicate h.predicate in
      let (p, ep, g) =
        bind_projection-Gives schemas types rows f b _ _ jb q.columns cols h.columns in
      let left = record q { joins = []; predicate = UnboundExpression.null } in
      let clauses : bind_clauses schemas (record q { joins = [] }) (a, bindings 0 h.tables)
          ≡ ok (bind_limit q.limit p) =
        rw (eb, ep) refl in
      (
        p,
        ap (bind_table schemas catalog q) h.from
            ∙ ap (bind_from schemas catalog q h.ref) h.found
            ∙ ap (after_joins schemas (record q { joins = [] })) ea
            ∙ ap (λ (r : Result LogicalPlan). (r, left)) clauses,
        subst (Gives rows f p cols) (sym (asked q h.ref h.number h.from h.found)) g,
      )

  limited :
      (o : Option ℕ) (p : LogicalPlan) (cols : List ValueType)
      → HasPlan rows (optimize p) cols
      → HasPlan rows (optimize (bind_limit o p)) cols
        × (meaning f rows (optimize (bind_limit o p)) ≡ first o (meaning f rows (optimize p)))
  unfolding bind_limit optimize meaning first
  limited none p cols h = (h, refl)
  limited (some n) p cols h = (of_limit h, refl)

  -- A query that is typed, on tables whose rows fit their types, is bound and executed without a
  -- throw, and a client that takes the records of the result comes to an end without a throw, for
  -- every amount of fuel from some number on. The records are what the query asks for by its names:
  -- the chosen columns of the choices of a row from each table that meet the conditions of the joins
  -- and the predicate, each as often, in some order; or the first of them, up to the limit. Each
  -- record has the types of the query.
  pub execute-answers :
      (q : SelectQuery) (cols : List ValueType)
      → IsTyped schemas types rows catalog q cols
      → (o : Operator) × (records : List Record) × (all : List Record) × ((execute schemas catalog
            rows q).0
          ≡ ok o)
        × ((n : ℕ) × ((k : ℕ) → n ≤ k → drain f rows k o ≡ Run.value records))
        × Perm all (answers f schemas catalog rows q)
        × (records ≡ first q.limit all)
        × All (Conforms cols) records
  unfolding execute
  execute-answers q cols h =
      let (p, e, g) = unlimited q cols h in
      let (t, m) = limited q.limit p cols g.typed in
      let plan = optimize (bind_limit q.limit p) in
      let (d, c) = drain-build f rows plan cols t in
      (
        build rows plan,
        meaning f rows plan,
        meaning f rows (optimize p),
        rw e refl,
        d,
        g.same,
        m,
        c,
      )
