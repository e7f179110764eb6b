-- ===== src/Tuple/Row/Bits.antt =====
-- The bits of a byte.
use duck_duck_dbms.Common.{
  ℕ, zero, suc, ◌+◌, ◌*◌, ◌≤◌, sym, ap, ◌∙◌, Bool-cases, inl, inr, ◌/◌, ◌%◌, ◌^◌, ◌<◌, ◌≡◌, ◌≢◌,
  refl, true, ◌==◌, if◌then◌else◌, arith,
}
use native.Mathlib.Nat.{
  two-pow-succ, div-add-mod, div-eq_of_lt-le, mod-lt, mul-add, add-mul, mul_comm,
}
use duck_duck_dbms.Tuple.Row.{bit}

-- What `set_null` makes of the byte.
abbrev pub with_bit : ℕ → ℕ → ℕ
with_bit k byte = if bit k byte then byte else byte + 2 ^ k

two_pow_pos : (k : ℕ) → 0 < 2 ^ k
two_pow_pos zero = omega arith
two_pow_pos (suc k) = omega (arith, two-pow-succ k, two_pow_pos k)

half_div : (b k : ℕ) → b / 2 ^ suc k ≡ b / 2 / 2 ^ k
half_div b k =
    let p = 2 ^ k in
    let q = b / 2 / p in
    let m = div-add-mod (b / 2) p in
    let l = mod-lt (b / 2) (two_pow_pos k) in
    let lo : q * (p + p) ≤ b = omega (arith, m, mul-add q p p, mul_comm q p) in
    let hi : b < (q + 1) * (p + p) =
      omega (arith, m, l, mul-add (q + 1) p p, add-mul q 1 p, mul_comm q p) in
    ap (λ n. b / n) (two-pow-succ k) ∙ div-eq_of_lt-le (p + p) lo hi

-- The bit `k + 1` is the bit `k` of the half.
bit-suc : (k b : ℕ) → bit (suc k) b ≡ bit k (b / 2)
bit-suc k b = ap (λ n. n % 2 == 1) (half_div b k)

half_with_bit : (k b : ℕ) → with_bit (suc k) b / 2 ≡ with_bit k (b / 2)
half_with_bit k b = elim (Bool-cases (bit k (b / 2))) [
  | inl e ↦ rw (bit-suc k b, e) refl
  | inr e ↦ rw (bit-suc k b, e) (omega (arith, two-pow-succ k))
]

pub bit-with_bit_self : (k b : ℕ) → bit k (with_bit k b) ≡ true
bit-with_bit_self zero b = ground arith
bit-with_bit_self (suc k) b =
    bit-suc k (with_bit (suc k) b) ∙ ap (bit k) (half_with_bit k b) ∙ bit-with_bit_self k (b / 2)

pub bit-with_bit_other : (j k b : ℕ) → j ≢ k → bit j (with_bit k b) ≡ bit j b
bit-with_bit_other zero zero b h = absurd (h refl)
bit-with_bit_other zero (suc k) b h = ground (arith, two-pow-succ k)
bit-with_bit_other (suc j) zero b h =
    bit-suc j (with_bit 0 b) ∙ ap (bit j) (ground arith) ∙ sym (bit-suc j b)
bit-with_bit_other (suc j) (suc k) b h =
    bit-suc j (with_bit (suc k) b)
    ∙ ap (bit j) (half_with_bit k b)
    ∙ bit-with_bit_other j k (b / 2) (λ e. h (ap suc e))
    ∙ sym (bit-suc j b)
