-- ===== src/Query.antt =====
-- Queries as a client builds them (include/duck/query, src/query/select_query.cpp). A name is its
-- bytes. An expression that a pointer leads to is an `UnboundExpression`, with `null` for the pointer
-- that leads to none.
pub mod Binder
pub mod Names
pub mod Meaning
pub mod Typing
pub mod Answers
mod Alike
mod Bags
mod Choices
mod Joins
pub mod Typed
mod Clauses
mod Columns
pub mod Runs
pub mod Again
mod Examples
use duck_duck_dbms.Common.{
  ℕ, Bool, true, false, Option, none, some, List, [], ◌∷◌, ◌++◌, ◌==◌, ◌&&◌, if◌then◌else◌,
}
use duck_duck_dbms.Tuple.Value.{Value}
use duck_duck_dbms.Tuple.Schema.{same_name}
use duck_duck_dbms.Expression.Evaluate.{ComparisonOperator, BinaryOperator, UnaryOperator}

pub record ColumnRef : Type 0 where
  pub qualifier : Option (List ℕ)
  pub name : List ℕ

pub record TableRef : Type 0 where
  pub name : List ℕ
  pub alias : Option (List ℕ)

pub data UnboundExpression : Type 0 where
  null : UnboundExpression
  column : ColumnRef → UnboundExpression
  constant : Value → UnboundExpression
  comparison : UnboundExpression → ComparisonOperator → UnboundExpression → UnboundExpression
  binary : UnboundExpression → BinaryOperator → UnboundExpression → UnboundExpression
  unary : UnboundExpression → UnaryOperator → UnboundExpression

-- There is one type of join, the inner one.
pub record JoinClause : Type 0 where
  pub table : TableRef
  pub on : UnboundExpression

pub record SelectQuery : Type 0 where
  pub columns : Option (List ColumnRef)
  pub table : Option TableRef
  pub predicate : UnboundExpression
  pub limit : Option ℕ
  pub joins : List JoinClause

abbrev pub new_query : SelectQuery
new_query = record { columns = none; table = none; predicate = null; limit = none; joins = [] }

abbrev pub star : List ℕ
star = 42 ∷ []

-- A list of `*` alone.
unfoldable pub is_star : List ColumnRef → Bool
is_star [] = false
is_star (c ∷ []) = elim c.qualifier [ none ↦ same_name c.name star | some q ↦ false ]
is_star (c ∷ d ∷ cs) = false

-- The methods of `SelectQuery`.
unfoldable pub select : List ColumnRef → SelectQuery → SelectQuery
select cs q = if is_star cs then record q { columns = none } else record q { columns = some cs }

unfoldable pub from : TableRef → SelectQuery → SelectQuery
from t q = record q { table = some t }

unfoldable pub filter_by : UnboundExpression → SelectQuery → SelectQuery
filter_by e q = record q { predicate = e }

unfoldable pub limit_to : ℕ → SelectQuery → SelectQuery
limit_to n q = record q { limit = some n }

unfoldable pub join_with : JoinClause → SelectQuery → SelectQuery
join_with c q = record q { joins = q.joins ++ c ∷ [] }
