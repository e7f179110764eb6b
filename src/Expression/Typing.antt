-- ===== src/Expression/Typing.antt =====
-- A typing of expressions under which evaluation never throws.
use duck_duck_dbms.Common.{
  ℕ, zero, suc, ◌≡◌, refl, ◌∙◌, Bool, true, false, ◌⊎◌, inl, inr, some, List, [], ◌∷◌,
  if◌then◌else◌, arith, ltb, get_elem?, Bool-cases, Result, ok,
}
use mathlib.Core.Path.{ap₂}
use duck_duck_dbms.Tuple.Value.{ValueType, Variant, Value, of, variant_type}
use duck_duck_dbms.Expression.Compare.{FloatOps, CompareResult, unknown, int64_max, compare}
use duck_duck_dbms.Expression.Evaluate.{
  Record, get, ComparisonOperator, BinaryOperator, UnaryOperator, Expression, constant, column,
  comparison, binary, unary, comparison_result,
}

-- The payload of a value that is not null is the alternative of its type: what the factories of
-- `Value` build.
abbrev pub IsConsistent : Value → Type 0
IsConsistent v = v.is_null ≡ false → variant_type v.payload ≡ v.type

-- `HasType cols e ty`: on records with columns of the types `cols`, `e` yields values of type `ty`.
pub data HasType (cols : List ValueType) : Expression → ValueType → Type 0 where
  of_constant :
      {v : Value} {ty : ValueType} → IsConsistent v → v.type ≡ ty → HasType cols (constant v) ty
  of_column : {i : ℕ} {ty : ValueType} → get_elem? cols i ≡ some ty → HasType cols (column i) ty
  of_comparison :
      {a b : Expression} {op : ComparisonOperator} {ta tb : ValueType}
      → HasType cols a ta
      → HasType cols b tb
      → HasType cols (comparison a op b) ValueType.bool
  of_binary :
      {a b : Expression} {op : BinaryOperator}
      → HasType cols a ValueType.bool
      → HasType cols b ValueType.bool
      → HasType cols (binary a op b) ValueType.bool
  of_unary :
      {a : Expression} {op : UnaryOperator}
      → HasType cols a ValueType.bool
      → HasType cols (unary op a) ValueType.bool

-- A value of a type.
abbrev pub Fits : ValueType → Value → Type 0
Fits ty v = (v.type ≡ ty) × IsConsistent v

-- A result that is a value of a type.
abbrev pub Yields : ValueType → Result Value → Type 0
Yields ty r = (v : Value) × (r ≡ ok v) × (v.type ≡ ty) × IsConsistent v

abbrev pub Conforms : List ValueType → Record → Type 0
Conforms [] [] = Unit
Conforms [] (v ∷ vs) = ⊥
Conforms (c ∷ cs) [] = ⊥
Conforms (c ∷ cs) (v ∷ vs) = (v.type ≡ c) × IsConsistent v × Conforms cs vs

pub get-Yields :
    (cols : List ValueType) (r : Record) (i : ℕ) (ty : ValueType)
    → Conforms cols r
    → get_elem? cols i ≡ some ty
    → Yields ty (get r i)
unfolding get
get-Yields [] r i ty c h = cc
get-Yields (c ∷ cs) [] i ty h e = elim h [ ]
get-Yields (c ∷ cs) (v ∷ vs) zero ty h e = (v, refl, ground arith, h.1)
get-Yields (c ∷ cs) (v ∷ vs) (suc i) ty h e = get-Yields cs vs i ty h.2 e

-- A consistent value is null or built by a factory.
pub of-payload : (v : Value) → IsConsistent v → (v.is_null ≡ true) ⊎ (v ≡ of v.payload)
of-payload v c = elim (Bool-cases v.is_null) [ inl e ↦ inl e | inr e ↦ inr (ground (arith, c e)) ]

ok_if {ℓ} : {A : Type ℓ} (b : Bool) (x y : A) → (a : A) × ((if b then ok x else ok y) ≡ ok a)
ok_if true x y = (x, refl)
ok_if false x y = (y, refl)

module _ (f : FloatOps) where
  compare_of : (d e : Variant) → (c : CompareResult) × (compare f (of d) (of e) ≡ ok c)
  unfolding compare
  compare_of (Variant.uint64 x) (Variant.int64 y) = ok_if (ltb int64_max x) _ _
  compare_of (Variant.uint64 x) (Variant.int32 y) = ok_if (ltb int64_max x) _ _
  compare_of (Variant.uint64 x) (Variant.uint32 y) = ok_if (ltb int64_max x) _ _
  compare_of (Variant.int64 x) (Variant.uint64 y) = ok_if (ltb int64_max y) _ _
  compare_of (Variant.uint32 x) (Variant.uint64 y) = ok_if (ltb int64_max y) _ _
  compare_of (Variant.int32 x) (Variant.uint64 y) = ok_if (ltb int64_max y) _ _
  compare_of (Variant.double x) (Variant.uint64 y) = (_, refl)
  compare_of (Variant.float x) (Variant.uint64 y) = (_, refl)
  compare_of (Variant.bool x) (Variant.uint64 y) = (_, refl)
  compare_of (Variant.string x) (Variant.uint64 y) = (_, refl)
  compare_of (Variant.bytes x) (Variant.uint64 y) = (_, refl)
  compare_of _ _ = (_, refl)

  -- Consistent values of any two types can be compared: no accessor throws.
  pub compare_total :
      (l r : Value) → IsConsistent l → IsConsistent r → (c : CompareResult) × (compare f l r ≡ ok c)
  unfolding compare
  compare_total l r hl hr = elim (of-payload l hl) [
    | inl e ↦ (unknown, rw e)
    | inr e ↦ elim (of-payload r hr) [
      | inl k ↦ (unknown, ground arith)
      | inr k ↦ let (c, h) = compare_of l.payload r.payload in (c, ap₂ (compare f) e k ∙ h)
    ]
  ]

pub comparison_result-Yields :
    (op : ComparisonOperator) (c : CompareResult)
    → Yields ValueType.bool (ok (comparison_result op c))
unfolding comparison_result
comparison_result-Yields op unknown = (_, refl, refl, λ h. cc)
comparison_result-Yields op _ = (_, refl, refl, λ h. refl)
