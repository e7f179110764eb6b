-- ===== src/Common/Throw.antt =====
-- Code that throws returns a `Result`; each constructor of `Error` is one kind of `throw`.
use mathlib.Core.Path.{◌≡◌, refl}

pub data Error : Type 0 where
  null_read bad_variant_access out_of_range not_integral bool_operands : Error
  too_small no_columns : Error
  assert_failed : Error
  wrong_value_count wrong_value_type unknown_type value_too_long : Error
  page_reserved not_allocated short_buffer io_failed : Error
  no_from unknown_table null_expression no_qualifier no_such_column ambiguous not_in_from : Error

pub data Result {ℓ} (A : Type ℓ) : Type ℓ where
  ok : (value : A) → Result A
  err : (thrown : Error) → Result A

infixl 5 ◌>>=◌
abbrev pub ◌>>=◌ {ℓ₁ ℓ₂} : {A : Type ℓ₁} {B : Type ℓ₂} → Result A → (A → Result B) → Result B
err thrown >>= step = err thrown
ok value >>= step = step value

-- A chain that gives a result had one at its first step.
pub bind-ok :
    {A B : Type 0} (r : Result A) (next : A → Result B) (b : B)
    → (r >>= next) ≡ ok b
    → (a : A) × (r ≡ ok a) × (next a ≡ ok b)
bind-ok (ok a) next b h = (a, refl, h)
bind-ok (err e) next b h = cc
