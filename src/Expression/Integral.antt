-- ===== src/Expression/Integral.antt =====
-- Comparison of integers of different types and signs, and of a floating value with an integer.
use duck_duck_dbms.Common.{
  ℕ, ◌^◌, ◌≤◌, ◌<◌, ◌≡◌, refl, ap, ltb, if◌then◌else◌, arith, ok, inl, inr, Bool-cases,
}
use duck_duck_dbms.Common.Int.{ℤ, pos, pos_part, neg_part, ltb_ℤ}
use duck_duck_dbms.Tuple.Value.{Variant, Value, of}
use duck_duck_dbms.Expression.Compare.{
  FloatOps, CompareResult, less, eq, greater, compare, compare_generic, int64_max,
}

-- The integer that a payload stands for, in the range of its type.
pub data Denotes : Variant → ℤ → Type 0 where
  uint64 : (n : ℕ) → n < 2 ^ 64 → Denotes (Variant.uint64 n) (pos n)
  uint32 : (n : ℕ) → n < 2 ^ 32 → Denotes (Variant.uint32 n) (pos n)
  int64 : (z : ℤ) → pos_part z ≤ int64_max → neg_part z ≤ 2 ^ 63 → Denotes (Variant.int64 z) z
  int32 : (z : ℤ) → pos_part z < 2 ^ 31 → neg_part z ≤ 2 ^ 31 → Denotes (Variant.int32 z) z

-- The order of two integers.
abbrev pub order : ℤ → ℤ → CompareResult
order a b = if ltb_ℤ a b then less else if ltb_ℤ b a then greater else eq

big_left :
    (n : ℕ) (z : ℤ)
    → pos_part z ≤ int64_max
    → (if ltb int64_max n then ok greater else ok (compare_generic ltb_ℤ (pos n) z))
      ≡ ok (order (pos n) z)
unfolding compare_generic
big_left n z h = elim (Bool-cases (ltb int64_max n)) [ inl e ↦ ground arith | inr e ↦ rw e refl ]

big_right :
    (n : ℕ) (z : ℤ)
    → pos_part z ≤ int64_max
    → (if ltb int64_max n then ok less else ok (compare_generic ltb_ℤ z (pos n)))
      ≡ ok (order z (pos n))
unfolding compare_generic
big_right n z h = elim (Bool-cases (ltb int64_max n)) [ inl e ↦ ground arith | inr e ↦ rw e refl ]

two_unsigned : (a b : ℕ) → compare_generic ltb a b ≡ order (pos a) (pos b)
unfolding compare_generic
two_unsigned a b = ground arith

-- Whatever the two integral types, signed or not, of 32 or 64 bits, the comparison of two values
-- that are not null is the order of the integers that they stand for.
pub compare-order :
    (f : FloatOps) {d e : Variant} {a b : ℤ}
    → Denotes d a
    → Denotes e b
    → compare f (of d) (of e) ≡ ok (order a b)
unfolding compare
compare-order f (uint64 n h) (uint64 m k) = ap ok (two_unsigned n m)
compare-order f (uint64 n h) (uint32 m k) = big_left n (pos m) (omega arith)
compare-order f (uint64 n h) (int64 z k l) = big_left n z k
compare-order f (uint64 n h) (int32 z k l) = big_left n z (omega arith)
compare-order f (uint32 n h) (uint64 m k) = big_right m (pos n) (omega arith)
compare-order f (int64 z h g) (uint64 m k) = big_right m z h
compare-order f (int32 z h g) (uint64 m k) = big_right m z (omega arith)
compare-order f _ _ = refl
