-- ===== src/Expression/Examples.antt =====
-- The theorems on expressions at concrete values and records.
use duck_duck_dbms.Common.{◌^◌, ◌≡◌, refl, arith, false, List, [], ◌∷◌, ltb, ok}
use duck_duck_dbms.Common.Int.{pos, negsuc}
use duck_duck_dbms.Tuple.Value.{ValueType, Variant, Value, null, of}
use duck_duck_dbms.Expression.Compare.{FloatOps, compare}
use duck_duck_dbms.Expression.Evaluate.{
  Record, ComparisonOperator, BinaryOperator, Expression, constant, column, comparison, binary,
  evaluate_binary, evaluate,
}
use duck_duck_dbms.Expression.Typing.{
  Yields, HasType, Conforms, of_constant, of_column, of_comparison, of_binary,
}
use duck_duck_dbms.Expression.Logic.{HasTruth, connective, evaluate_binary-truth}
use duck_duck_dbms.Expression.Soundness.{evaluate-Yields}
use duck_duck_dbms.Expression.Integral.{Denotes, order, compare-order}

-- A processor whose only doubles are the patterns of natural numbers.
abbrev numbers : FloatOps
numbers = record { is_nan = λ x. false; lt = ltb; widen = λ x. x; of_uint64 = λ n. n }

abbrev minus_one : Value
minus_one = of (Variant.int64 (negsuc 0))

abbrev big : Value
big = of (Variant.uint64 (2 ^ 63))

compare-order_example : compare numbers minus_one big ≡ ok (order (negsuc 0) (pos (2 ^ 63)))
compare-order_example =
    compare-order numbers (Denotes.int64 (negsuc 0) (omega arith) (omega arith))
      (Denotes.uint64 (2 ^ 63) (omega arith))

abbrev no : Value
no = of (Variant.bool false)

evaluate_binary-truth_example :
    HasTruth
      (connective BinaryOperator.and 1 0)
      (evaluate_binary BinaryOperator.and (null ValueType.bool) no)
evaluate_binary-truth_example =
    evaluate_binary-truth BinaryOperator.and (null ValueType.bool) no (refl, λ h. cc)
      (refl, λ h. refl)

-- `a < 5 AND b` over the columns a, b.
abbrev condition : Expression
condition =
    binary (comparison (column 0) ComparisonOperator.less (constant (of (Variant.int32 (pos 5)))))
      BinaryOperator.and (column 1)

abbrev columns : List ValueType
columns = ValueType.int32 ∷ ValueType.bool ∷ []

abbrev row : Record
row = of (Variant.int32 (pos 3)) ∷ null ValueType.bool ∷ []

condition-HasType : HasType columns condition ValueType.bool
condition-HasType =
    of_binary {op = BinaryOperator.and}
      (of_comparison (of_column {i = 0} refl)
        (of_constant {v = of (Variant.int32 (pos 5))} (λ h. refl) refl))
      (of_column {i = 1} refl)

row-Conforms : Conforms columns row
row-Conforms = (refl, λ h. refl, (refl, λ h. cc, tt))

evaluate-Yields_example : Yields ValueType.bool (evaluate numbers row condition)
evaluate-Yields_example = evaluate-Yields numbers columns row row-Conforms condition-HasType
