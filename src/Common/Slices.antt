-- ===== src/Common/Slices.antt =====
-- Slices of a byte array: `subspan` reads one, `std::copy` into one writes it.
use Prim.Native.Nat.{ℕ, zero, suc, ◌+◌, ◌≤◌, ◌<◌}
use mathlib.Core.Path.{◌≡◌, refl, sym, ap, ◌∙◌}
use mathlib.Core.List.{List, [], ◌∷◌, ◌++◌}
use native.Mathlib.Omega.{arith}
use duck_duck_dbms.Common.Lists.{length, take, drop}

module _ {ℓ} {A : Type ℓ} where
  unfoldable pub slice : ℕ → ℕ → List A → List A
  slice o n xs = take n (drop o xs)

  -- What would be written past the end is lost.
  unfoldable pub splice : ℕ → List A → List A → List A
  splice o ts [] = []
  splice zero [] (x ∷ xs) = x ∷ xs
  splice zero (t ∷ ts) (x ∷ xs) = t ∷ splice zero ts xs
  splice (suc o) ts (x ∷ xs) = x ∷ splice o ts xs

  pub length-splice : (o : ℕ) (ts xs : List A) → length (splice o ts xs) ≡ length xs
  unfolding splice
  length-splice o ts [] = refl
  length-splice zero [] (x ∷ xs) = refl
  length-splice zero (t ∷ ts) (x ∷ xs) = ap suc (length-splice zero ts xs)
  length-splice (suc o) ts (x ∷ xs) = ap suc (length-splice o ts xs)

  pub slice-splice_self :
      (o : ℕ) (ts xs : List A)
      → o + length ts ≤ length xs
      → slice o (length ts) (splice o ts xs) ≡ ts
  unfolding slice splice
  slice-splice_self zero [] xs h = refl
  slice-splice_self zero (t ∷ ts) [] h = absurd (omega arith)
  slice-splice_self zero (t ∷ ts) (x ∷ xs) h =
      ap (λ l. t ∷ l) (slice-splice_self zero ts xs (omega arith))
  slice-splice_self (suc o) ts [] h = absurd (omega arith)
  slice-splice_self (suc o) ts (x ∷ xs) h = slice-splice_self o ts xs (omega arith)

  -- A slice that ends before the place that is written, or begins after it.
  pub slice-splice_below :
      (p n o : ℕ) (ts xs : List A) → p + n ≤ o → slice p n (splice o ts xs) ≡ slice p n xs
  unfolding slice splice
  slice-splice_below p n o ts [] h = refl
  slice-splice_below zero zero o ts (x ∷ xs) h = refl
  slice-splice_below zero (suc n) zero ts (x ∷ xs) h = absurd (omega arith)
  slice-splice_below zero (suc n) (suc o) ts (x ∷ xs) h =
      ap (λ l. x ∷ l) (slice-splice_below zero n o ts xs (omega arith))
  slice-splice_below (suc p) n zero ts (x ∷ xs) h = absurd (omega arith)
  slice-splice_below (suc p) n (suc o) ts (x ∷ xs) h = slice-splice_below p n o ts xs (omega arith)

  pub slice-splice_above :
      (p n o : ℕ) (ts xs : List A) → o + length ts ≤ p → slice p n (splice o ts xs) ≡ slice p n xs
  unfolding slice splice
  slice-splice_above p n o ts [] h = refl
  slice-splice_above p n zero [] (x ∷ xs) h = refl
  slice-splice_above zero n zero (t ∷ ts) (x ∷ xs) h = absurd (omega arith)
  slice-splice_above (suc p) n zero (t ∷ ts) (x ∷ xs) h =
      slice-splice_above p n zero ts xs (omega arith)
  slice-splice_above zero n (suc o) ts (x ∷ xs) h = absurd (omega arith)
  slice-splice_above (suc p) n (suc o) ts (x ∷ xs) h = slice-splice_above p n o ts xs (omega arith)

  pub length-slice : (o n : ℕ) (xs : List A) → o + n ≤ length xs → length (slice o n xs) ≡ n
  unfolding slice
  length-slice zero zero xs h = refl
  length-slice zero (suc n) [] h = absurd (omega arith)
  length-slice zero (suc n) (x ∷ xs) h = ap suc (length-slice zero n xs (omega arith))
  length-slice (suc o) n [] h = absurd (omega arith)
  length-slice (suc o) n (x ∷ xs) h = length-slice o n xs (omega arith)

  -- Reading behind a prefix, and the prefix itself.
  pub slice-append_right :
      (q o n : ℕ) (xs ys : List A) → q ≡ length xs + o → slice q n (xs ++ ys) ≡ slice o n ys
  unfolding slice
  slice-append_right q o n [] ys h = ap (λ k. take n (drop k ys)) (omega arith)
  slice-append_right zero o n (x ∷ xs) ys h = absurd (omega arith)
  slice-append_right (suc q) o n (x ∷ xs) ys h = slice-append_right q o n xs ys (omega arith)

  pub slice-append_left : (n : ℕ) (xs ys : List A) → n ≡ length xs → slice 0 n (xs ++ ys) ≡ xs
  unfolding slice
  slice-append_left zero [] ys h = refl
  slice-append_left (suc n) [] ys h = absurd (omega arith)
  slice-append_left zero (x ∷ xs) ys h = absurd (omega arith)
  slice-append_left (suc n) (x ∷ xs) ys h =
      ap (λ l. x ∷ l) (slice-append_left n xs ys (omega arith))

  take_nil : (n : ℕ) → take {A = A} n [] ≡ []
  take_nil zero = refl
  take_nil (suc n) = refl

  slice_nil : (o n : ℕ) → slice o n [] ≡ []
  unfolding slice
  slice_nil zero n = take_nil n
  slice_nil (suc o) n = take_nil n

  take-take : (n t : ℕ) (xs : List A) → n ≤ t → take n xs ≡ take n (take t xs)
  take-take zero t xs h = refl
  take-take (suc n) zero xs h = absurd (omega arith)
  take-take (suc n) (suc t) [] h = refl
  take-take (suc n) (suc t) (x ∷ xs) h = ap (λ l. x ∷ l) (take-take n t xs (omega arith))

  -- A slice inside a slice.
  pub slice-slice :
      (p o k n t : ℕ) (xs : List A)
      → p ≡ o + k
      → k + n ≤ t
      → slice p n xs ≡ slice k n (slice o t xs)
  unfolding slice
  slice-slice p (suc o) k n t [] e h =
      slice_nil p n ∙ sym (ap (slice k n) (take_nil t) ∙ slice_nil k n)
  slice-slice zero (suc o) k n t (x ∷ xs) e h = absurd (omega arith)
  slice-slice (suc p) (suc o) k n t (x ∷ xs) e h = slice-slice p o k n t xs (omega arith) h
  slice-slice zero zero zero n t xs e h = take-take n t xs (omega arith)
  slice-slice zero zero (suc k) n t xs e h = absurd (omega arith)
  slice-slice (suc p) zero zero n t xs e h = absurd (omega arith)
  slice-slice (suc p) zero (suc k) n zero xs e h = absurd (omega arith)
  slice-slice (suc p) zero (suc k) n (suc t) [] e h = refl
  slice-slice (suc p) zero (suc k) n (suc t) (x ∷ xs) e h =
      slice-slice p zero k n t xs (omega arith) (omega arith)

  length-take_le : (n : ℕ) (xs : List A) → length (take n xs) ≤ length xs
  length-take_le zero xs = omega arith
  length-take_le (suc n) [] = omega arith
  length-take_le (suc n) (x ∷ xs) = omega (arith, length-take_le n xs)

  -- A slice that is whole lies inside the bytes.
  pub slice_within : (o n : ℕ) (xs : List A) → length (slice o n xs) ≡ n → 0 < n → o + n ≤ length xs
  unfolding slice
  slice_within zero n xs e h = omega (arith, length-take_le n xs)
  slice_within (suc o) n [] e h = absurd (omega (arith, ap length (take_nil n)))
  slice_within (suc o) n (x ∷ xs) e h = omega (arith, slice_within o n xs e h)
