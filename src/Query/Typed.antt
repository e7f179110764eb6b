-- ===== src/Query/Typed.antt =====
-- Typed queries: the catalog has the tables, and the names of the query mean columns of theirs.
use duck_duck_dbms.Common.{ℕ, ◌≡◌, ◌⊎◌, Option, none, some, List, [], ◌∷◌, ◌++◌}
use duck_duck_dbms.Tuple.Value.{ValueType}
use duck_duck_dbms.Tuple.Schema.{Column}
use duck_duck_dbms.Expression.Evaluate.{Record}
use duck_duck_dbms.Query.{ColumnRef, UnboundExpression, TableRef, JoinClause, SelectQuery}
use duck_duck_dbms.Query.Names.{row, lookup}
use duck_duck_dbms.Query.Typing.{HasNamedType}
use duck_duck_dbms.Query.Joins.{Tables, typed_part, IsTable}

-- The columns that are listed, which are one at least, and their types.
abbrev pub Refs : Tables → List ColumnRef → List ValueType → Type 0
Refs ts [] [] = Unit
Refs ts [] (d ∷ ds) = ⊥
Refs ts (c ∷ cs) [] = ⊥
Refs ts (c ∷ cs) (d ∷ ds) = (lookup c ts ≡ some d) × Refs ts cs ds

abbrev pub HasColumns : Tables → Option (List ColumnRef) → List ValueType → Type 0
HasColumns ts none cols = cols ≡ row ts
HasColumns ts (some []) cols = ⊥
HasColumns ts (some (c ∷ cs)) cols = Refs ts (c ∷ cs) cols

module _ (schemas : ℕ → List Column) (types : ℕ → List ValueType) (rows : ℕ → List Record)
    (catalog : List ℕ → Option ℕ) where
  -- The tables of the joins, one after the other, with conditions of type BOOL on those before.
  pub data HasJoins : Tables → List JoinClause → Tables → Type 0 where
    no_joins : {ts : Tables} → HasJoins ts [] ts
    one_join :
        {c : JoinClause} {cs : List JoinClause} {t : ℕ} {ts us : Tables}
        → catalog c.table.name ≡ some t
        → IsTable schemas types rows t
        → HasNamedType (ts ++ typed_part schemas types c.table t ∷ []) c.on ValueType.bool
        → HasJoins (ts ++ typed_part schemas types c.table t ∷ []) cs us
        → HasJoins ts (c ∷ cs) us

  pub record IsTyped (q : SelectQuery) (cols : List ValueType) : Type 0 where
    pub ref : TableRef
    pub number : ℕ
    pub tables : Tables
    pub from : q.table ≡ some ref
    pub found : catalog ref.name ≡ some number
    pub table : IsTable schemas types rows number
    pub joins : HasJoins (typed_part schemas types ref number ∷ []) q.joins tables
    pub predicate :
        (q.predicate ≡ UnboundExpression.null) ⊎ HasNamedType tables q.predicate ValueType.bool
    pub columns : HasColumns tables q.columns cols
