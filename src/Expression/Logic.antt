-- ===== src/Expression/Logic.antt =====
-- The connectives are those of three-valued logic. The truth of a BOOL value is read as a number,
-- 0 for FALSE, 1 for NULL and 2 for TRUE, so that AND is the minimum, OR the maximum, and NOT the
-- reflection.
use Prim.Native.Nat.{min, max}
use mathlib.Core.Path.{subst}
use duck_duck_dbms.Common.{
  ℕ, ◌-◌, ◌≡◌, refl, sym, Bool, true, false, inl, inr, arith, if◌then◌else◌, Result, ok,
}
use duck_duck_dbms.Tuple.Value.{ValueType, Variant, Value, of, variant_type}
use duck_duck_dbms.Expression.Evaluate.{
  BinaryOperator, and, or, UnaryOperator, evaluate_binary, evaluate_unary,
}
use duck_duck_dbms.Expression.Typing.{Fits, of-payload}

abbrev pub truth_of : Variant → ℕ
truth_of (Variant.bool true) = 2
truth_of _ = 0

abbrev pub truth : Value → ℕ
truth v = if v.is_null then 1 else truth_of v.payload

abbrev pub connective : BinaryOperator → ℕ → ℕ → ℕ
connective and a b = min a b
connective or a b = max a b

-- A result that is a BOOL value of the given truth.
abbrev pub HasTruth : ℕ → Result Value → Type 0
HasTruth n r = (v : Value) × (r ≡ ok v) × Fits ValueType.bool v × (truth v ≡ n)

data BoolView : Value → Type 0 where
  unknown : (d : Variant) → BoolView (record { type = ValueType.bool; is_null = true; payload = d })
  known : (b : Bool) → BoolView (of (Variant.bool b))

known_view : (d : Variant) → variant_type d ≡ ValueType.bool → BoolView (of d)
known_view (Variant.bool b) e = known b
known_view (Variant.uint64 _) e = cc
known_view _ e = cc

bool_view : (v : Value) → Fits ValueType.bool v → BoolView v
bool_view v (e, c) = elim (of-payload v c) [
  | inl h ↦ subst BoolView (ground (arith, e, h)) (unknown v.payload)
  | inr h ↦ subst BoolView (sym h) (known_view v.payload (ground (arith, e, h)))
]

binary_truth :
    (op : BinaryOperator) {l r : Value}
    → BoolView l
    → BoolView r
    → HasTruth (connective op (truth l) (truth r)) (evaluate_binary op l r)
unfolding evaluate_binary
binary_truth and (unknown d) (unknown d') = (_, refl, (refl, λ h. cc), refl)
binary_truth and (unknown d) (known true) = (_, refl, (refl, λ h. cc), refl)
binary_truth and (unknown d) (known false) = (_, refl, (refl, λ h. refl), refl)
binary_truth and (known true) (unknown d') = (_, refl, (refl, λ h. cc), refl)
binary_truth and (known true) (known true) = (_, refl, (refl, λ h. refl), refl)
binary_truth and (known true) (known false) = (_, refl, (refl, λ h. refl), refl)
binary_truth and (known false) (unknown d') = (_, refl, (refl, λ h. refl), refl)
binary_truth and (known false) (known true) = (_, refl, (refl, λ h. refl), refl)
binary_truth and (known false) (known false) = (_, refl, (refl, λ h. refl), refl)
binary_truth or (unknown d) (unknown d') = (_, refl, (refl, λ h. cc), refl)
binary_truth or (unknown d) (known true) = (_, refl, (refl, λ h. refl), refl)
binary_truth or (unknown d) (known false) = (_, refl, (refl, λ h. cc), refl)
binary_truth or (known true) (unknown d') = (_, refl, (refl, λ h. refl), refl)
binary_truth or (known true) (known true) = (_, refl, (refl, λ h. refl), refl)
binary_truth or (known true) (known false) = (_, refl, (refl, λ h. refl), refl)
binary_truth or (known false) (unknown d') = (_, refl, (refl, λ h. cc), refl)
binary_truth or (known false) (known true) = (_, refl, (refl, λ h. refl), refl)
binary_truth or (known false) (known false) = (_, refl, (refl, λ h. refl), refl)

-- AND and OR of two BOOL operands, NULL among them, never throw and yield a BOOL value: AND the
-- lesser of the two truths, OR the greater, in the order FALSE, NULL, TRUE.
pub evaluate_binary-truth :
    (op : BinaryOperator) (l r : Value)
    → Fits ValueType.bool l
    → Fits ValueType.bool r
    → HasTruth (connective op (truth l) (truth r)) (evaluate_binary op l r)
evaluate_binary-truth op l r fl fr = binary_truth op (bool_view l fl) (bool_view r fr)

unary_truth :
    (op : UnaryOperator) {v : Value} → BoolView v → HasTruth (2 - truth v) (evaluate_unary op v)
unfolding evaluate_unary
unary_truth UnaryOperator.not (unknown d) = (_, refl, (refl, λ h. cc), refl)
unary_truth UnaryOperator.not (known true) = (_, refl, (refl, λ h. refl), refl)
unary_truth UnaryOperator.not (known false) = (_, refl, (refl, λ h. refl), refl)

-- NOT of a BOOL operand swaps TRUE and FALSE and keeps NULL.
pub evaluate_unary-truth :
    (op : UnaryOperator) (v : Value)
    → Fits ValueType.bool v
    → HasTruth (2 - truth v) (evaluate_unary op v)
evaluate_unary-truth op v fv = unary_truth op (bool_view v fv)
