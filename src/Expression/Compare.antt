-- ===== src/Expression/Compare.antt =====
-- Comparison of values (src/expression/comparison.cpp and comparison.hpp). What the processor does
-- with doubles is a parameter.
use duck_duck_dbms.Common.{
  ℕ, ◌-◌, ◌^◌, Bool, true, false, not, ◌&&◌, ◌||◌, List, [], ◌∷◌, ltb, if◌then◌else◌, Result, ok,
  ◌>>=◌,
}
use duck_duck_dbms.Common.Int.{pos, ltb_ℤ}
use duck_duck_dbms.Tuple.Value.{
  ValueType, Value, as_uint64, as_double, as_float, as_bool, as_string, as_bytes, as_integral,
  is_integral, is_floating, is_numeric, to_pattern,
}

-- Doubles and floats are bit patterns: `widen` is `static_cast<double>` of a float, and
-- `of_uint64` that of a `uint64_t`.
pub record FloatOps : Type 0 where
  pub is_nan : ℕ → Bool
  pub lt : ℕ → ℕ → Bool
  pub widen : ℕ → ℕ
  pub of_uint64 : ℕ → ℕ

pub data CompareResult : Type 0 where
  less eq greater unknown : CompareResult

unfoldable pub compare_generic {ℓ} : {A : Type ℓ} → (A → A → Bool) → A → A → CompareResult
compare_generic lt left right =
    if lt left right then less else if lt right left then greater else eq

-- `operator<` of `bool`, of strings and of byte vectors.
abbrev pub lt_bool : Bool → Bool → Bool
lt_bool a b = not a && b

unfoldable pub lt_bytes : List ℕ → List ℕ → Bool
lt_bytes [] [] = false
lt_bytes [] (y ∷ ys) = true
lt_bytes (x ∷ xs) [] = false
lt_bytes (x ∷ xs) (y ∷ ys) =
    let rest = lt_bytes xs ys in if ltb x y then true else if ltb y x then false else rest

abbrev pub is_uint64 : ValueType → Bool
is_uint64 ValueType.uint64 = true
is_uint64 _ = false

abbrev pub is_float : ValueType → Bool
is_float ValueType.float = true
is_float _ = false

abbrev pub both : (ValueType → Bool) → Value → Value → Bool
both p l r = p l.type && p r.type

abbrev pub is_bool : ValueType → Bool
is_bool ValueType.bool = true
is_bool _ = false

abbrev is_string : ValueType → Bool
is_string ValueType.string = true
is_string _ = false

abbrev is_bytes : ValueType → Bool
is_bytes ValueType.bytes = true
is_bytes _ = false

-- `std::numeric_limits<std::int64_t>::max()`
abbrev pub int64_max : ℕ
int64_max = 2 ^ 63 - 1

module _ (f : FloatOps) where
  -- The operand of a floating comparison that is floating.
  unfoldable pub float_operand : Value → Result ℕ
  unfolding as_float as_double
  float_operand v = if is_float v.type then (do x ← as_float v; ok (f.widen x)) else as_double v

  -- The integral one. The branches of the conditional are `uint64_t` and `int64_t`, so its value is
  -- a `uint64_t`: a negative integer becomes its two's complement pattern.
  unfoldable pub integral_operand : Value → Result ℕ
  unfolding as_uint64 as_integral
  integral_operand v = do
    n ← (if is_uint64 v.type then as_uint64 v else (do z ← as_integral v; ok (to_pattern 64 z)))
    ok (f.of_uint64 n)

  unfoldable pub compare_doubles : ℕ → ℕ → CompareResult
  unfolding compare_generic
  compare_doubles l r = if f.is_nan l || f.is_nan r then unknown else compare_generic f.lt l r

  abbrev two_doubles : Result ℕ → Result ℕ → Result CompareResult
  two_doubles l r = do x ← l; y ← r; ok (compare_doubles x y)

  unfoldable pub compare_integral : Value → Value → Result CompareResult
  unfolding compare_generic as_uint64 as_integral
  compare_integral left right =
      if both is_uint64 left right
      then (do l ← as_uint64 left; r ← as_uint64 right; ok (compare_generic ltb l r))
      else if is_uint64 left.type
      then (do
        l ← as_uint64 left
        (if ltb int64_max l
            then ok greater
            else (do r ← as_integral right; ok (compare_generic ltb_ℤ (pos l) r))))
      else if is_uint64 right.type
      then (do
        r ← as_uint64 right
        (if ltb int64_max r
            then ok less
            else (do l ← as_integral left; ok (compare_generic ltb_ℤ l (pos r)))))
      else (do l ← as_integral left; r ← as_integral right; ok (compare_generic ltb_ℤ l r))

  unfoldable pub compare : Value → Value → Result CompareResult
  unfolding float_operand integral_operand compare_doubles compare_integral as_bool as_string
      as_bytes
  compare left right =
      if left.is_null || right.is_null
      then ok unknown
      else if is_floating left && is_floating right
      then two_doubles (float_operand left) (float_operand right)
      else if is_floating left && is_numeric right
      then two_doubles (float_operand left) (integral_operand right)
      else if is_numeric left && is_floating right
      then two_doubles (integral_operand left) (float_operand right)
      else if is_integral left && is_integral right
      then compare_integral left right
      else if both is_bool left right
      then (do l ← as_bool left; r ← as_bool right; ok (compare_generic lt_bool l r))
      else if both is_string left right
      then (do l ← as_string left; r ← as_string right; ok (compare_generic lt_bytes l r))
      else if both is_bytes left right
      then (do l ← as_bytes left; r ← as_bytes right; ok (compare_generic lt_bytes l r))
      else ok unknown
