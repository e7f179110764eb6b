-- ===== src/Expression/Evaluate.antt =====
-- The expression tree and its evaluation (src/expression/*.cpp).
use duck_duck_dbms.Common.{
  ℕ, Bool, true, false, not as bool_not, ◌&&◌, ◌||◌, none, some, List, ◌++◌, if◌then◌else◌,
  get_elem?, out_of_range, bool_operands, Result, ok, err, ◌>>=◌,
}
use duck_duck_dbms.Tuple.Value.{ValueType, Variant, Value, null, of, as_bool}
use duck_duck_dbms.Expression.Compare.{FloatOps, CompareResult, unknown, is_bool, compare}

-- record.hpp
abbrev pub Record : Type 0
Record = List Value

-- `values_.at(index)`
unfoldable pub get : Record → ℕ → Result Value
get r i = elim (get_elem? r i) [ none ↦ err out_of_range | some v ↦ ok v ]

abbrev pub concat : Record → Record → Record
concat a b = a ++ b

pub data ComparisonOperator : Type 0 where
  greater less greater_eq less_eq equal not_eq : ComparisonOperator

pub data BinaryOperator : Type 0 where
  and or : BinaryOperator

pub data UnaryOperator : Type 0 where
  not : UnaryOperator

pub data Expression : Type 0 where
  constant : Value → Expression
  column : ℕ → Expression
  comparison : Expression → ComparisonOperator → Expression → Expression
  binary : Expression → BinaryOperator → Expression → Expression
  unary : UnaryOperator → Expression → Expression

abbrev of_bool : Bool → Value
of_bool b = of (Variant.bool b)

abbrev null_bool : Value
null_bool = null ValueType.bool

-- The `switch` of ComparisonExpression::evaluate, for a result that is not UNKNOWN.
abbrev holds : ComparisonOperator → CompareResult → Bool
holds equal CompareResult.eq = true
holds equal _ = false
holds not_eq CompareResult.eq = false
holds not_eq _ = true
holds ComparisonOperator.greater CompareResult.greater = true
holds ComparisonOperator.greater _ = false
holds ComparisonOperator.less CompareResult.less = true
holds ComparisonOperator.less _ = false
holds greater_eq CompareResult.greater = true
holds greater_eq CompareResult.eq = true
holds greater_eq _ = false
holds less_eq CompareResult.less = true
holds less_eq CompareResult.eq = true
holds less_eq _ = false

unfoldable pub comparison_result : ComparisonOperator → CompareResult → Value
comparison_result op unknown = null_bool
comparison_result op c = of_bool (holds op c)

-- `!v.is_null() && v.as_bool() == b`
abbrev known : Bool → Value → Result Bool
known b v = if v.is_null then ok false else (do x ← as_bool v; ok (if b then x else bool_not x))

-- `short` is the operand that decides: false for AND, true for OR.
abbrev short : BinaryOperator → Bool
short and = false
short or = true

unfoldable pub evaluate_binary : BinaryOperator → Value → Value → Result Value
unfolding as_bool
evaluate_binary op left right =
    if left.is_null && right.is_null
    then ok null_bool
    else if bool_not (is_bool left.type) || bool_not (is_bool right.type)
    then err bool_operands
    else (do
      l ← known (short op) left
      (if l then ok (of_bool (short op)) else (do
        r ← known (short op) right
        (if r
            then ok (of_bool (short op))
            else if left.is_null || right.is_null
            then ok null_bool
            else ok (of_bool (bool_not (short op)))))))

unfoldable pub evaluate_unary : UnaryOperator → Value → Result Value
unfolding as_bool
evaluate_unary UnaryOperator.not v =
    if v.is_null
    then ok null_bool
    else if bool_not (is_bool v.type)
    then err bool_operands
    else (do b ← as_bool v; ok (of_bool (bool_not b)))

module _ (f : FloatOps) where
  unfoldable pub evaluate : Record → Expression → Result Value
  unfolding get comparison_result evaluate_binary evaluate_unary
  evaluate r (constant v) = ok v
  evaluate r (column i) = get r i
  evaluate r (comparison a op b) = do
    left ← evaluate r a
    right ← evaluate r b
    cmp ← compare f left right
    ok (comparison_result op cmp)
  evaluate r (binary a op b) = do
    left ← evaluate r a
    right ← evaluate r b
    evaluate_binary op left right
  evaluate r (unary op a) = do v ← evaluate r a; evaluate_unary op v
