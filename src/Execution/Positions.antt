-- ===== src/Execution/Positions.antt =====
-- Lists that are read by position or by blocks, and what a join has still to deliver from them.
use duck_duck_dbms.Common.{
  ℕ, zero, suc, ◌+◌, ◌≤◌, ◌≡◌, refl, sym, ap, ◌∙◌, false, none, some, List, [], ◌∷◌, ◌++◌, take,
  drop, length, get_elem?, arith,
}
use duck_duck_dbms.Expression.Compare.{FloatOps}
use duck_duck_dbms.Expression.Evaluate.{Record, Expression}
use duck_duck_dbms.Execution.{is_empty}
use duck_duck_dbms.Execution.Meaning.{matches, block_matches, blocks_matches, joined, of_right}
use duck_duck_dbms.Execution.Start.{block_matches-nil}

module _ {A : Type 0} where
  pub get_elem?-end : (i : ℕ) (xs : List A) → drop i xs ≡ [] → get_elem? xs i ≡ none
  get_elem?-end i [] h = refl
  get_elem?-end zero (x ∷ xs) h = cc
  get_elem?-end (suc i) (x ∷ xs) h = get_elem?-end i xs h

  pub get_elem?-drop :
      (i : ℕ) (xs : List A) (y : A) (ys : List A) → drop i xs ≡ y ∷ ys → get_elem? xs i ≡ some y
  get_elem?-drop zero [] y ys h = cc
  get_elem?-drop (suc i) [] y ys h = cc
  get_elem?-drop zero (x ∷ xs) y ys h = cc
  get_elem?-drop (suc i) (x ∷ xs) y ys h = get_elem?-drop i xs y ys h

  drop-suc : (i : ℕ) (xs : List A) (y : A) (ys : List A) → drop i xs ≡ y ∷ ys → drop (suc i) xs ≡ ys
  drop-suc zero [] y ys h = cc
  drop-suc (suc i) [] y ys h = cc
  drop-suc zero (x ∷ xs) y ys h = cc
  drop-suc (suc i) (x ∷ xs) y ys h = drop-suc i xs y ys h

  pub drop_next :
      (i : ℕ) (xs : List A) (y : A) (ys : List A) → drop i xs ≡ y ∷ ys → drop (i + 1) xs ≡ ys
  drop_next i xs y ys h =
      let e : i + 1 ≡ suc i = omega arith in ap (λ k. drop k xs) e ∙ drop-suc i xs y ys h

  pub length-drop_end : (i : ℕ) (xs : List A) → drop i xs ≡ [] → length xs ≤ i
  length-drop_end i [] h = omega arith
  length-drop_end zero (x ∷ xs) h = cc
  length-drop_end (suc i) (x ∷ xs) h = omega (arith, length-drop_end i xs h)

  pub length-drop_more :
      (i : ℕ) (xs : List A) (y : A) (ys : List A) → drop i xs ≡ y ∷ ys → suc i ≤ length xs
  length-drop_more zero [] y ys h = cc
  length-drop_more (suc i) [] y ys h = cc
  length-drop_more zero (x ∷ xs) y ys h = omega arith
  length-drop_more (suc i) (x ∷ xs) y ys h = omega (arith, length-drop_more i xs y ys h)

  pub is_empty-drop :
      (i : ℕ) (xs : List A) (y : A) (ys : List A) → drop i xs ≡ y ∷ ys → is_empty xs ≡ false
  is_empty-drop zero [] y ys h = cc
  is_empty-drop (suc i) [] y ys h = cc
  is_empty-drop i (x ∷ xs) y ys h = refl

  pub take-drop : (n : ℕ) (xs : List A) → take n xs ++ drop n xs ≡ xs
  take-drop zero xs = refl
  take-drop (suc n) [] = refl
  take-drop (suc n) (x ∷ xs) = ap (λ l. x ∷ l) (take-drop n xs)

  pub length-drop_le : (n : ℕ) (xs : List A) → length (drop n xs) ≤ length xs
  length-drop_le zero xs = omega arith
  length-drop_le (suc n) [] = omega arith
  length-drop_le (suc n) (x ∷ xs) = omega (arith, length-drop_le n xs)

module _ (f : FloatOps) (e : Expression) where
  matches-nil : (r : Record) → matches f e r [] ≡ []
  unfolding matches
  matches-nil r = refl

  drop_nil : (i : ℕ) → drop {A = Record} i [] ≡ []
  drop_nil zero = refl
  drop_nil (suc i) = refl

  -- No left block, no match.
  pub of_right-nil : (i : ℕ) (now later : List Record) → of_right f e [] i now later ≡ []
  unfolding of_right matches
  of_right-nil i [] later = block_matches-nil f e later
  of_right-nil i (r ∷ rs) later = rw (drop_nil i, block_matches-nil f e (rs ++ later)) refl

  -- From its start, a left block is matched with all the right records.
  pub of_right-start :
      (ls now later : List Record)
      → of_right f e ls 0 now later ≡ block_matches f e ls (now ++ later)
  unfolding of_right block_matches
  of_right-start ls [] later = refl
  of_right-start ls (r ∷ rs) later = refl

  blocks_matches-nil : (n : ℕ) (rs : List Record) → blocks_matches f n e rs [] ≡ []
  unfolding blocks_matches
  blocks_matches-nil zero rs = refl
  blocks_matches-nil (suc n) rs = rw (block_matches-nil f e rs, blocks_matches-nil n rs) refl

  -- As many blocks as records are enough.
  blocks_matches-enough :
      (n m : ℕ) (rs ls : List Record)
      → length ls ≤ n
      → length ls ≤ m
      → blocks_matches f n e rs ls ≡ blocks_matches f m e rs ls
  unfolding blocks_matches
  blocks_matches-enough n m rs [] h k = blocks_matches-nil n rs ∙ sym (blocks_matches-nil m rs)
  blocks_matches-enough zero m rs (l ∷ ls) h k = absurd (omega arith)
  blocks_matches-enough (suc n) zero rs (l ∷ ls) h k = absurd (omega arith)
  blocks_matches-enough (suc n) (suc m) rs (l ∷ ls) h k =
      let d = length-drop_le 23 ls in
      ap (λ x. block_matches f e (take 24 (l ∷ ls)) rs ++ x)
        (blocks_matches-enough n m rs (drop 23 ls) (omega arith) (omega arith))

  pub joined-nil : (rs : List Record) → joined f e [] rs ≡ []
  unfolding joined
  joined-nil rs = blocks_matches-nil 0 rs

  pub joined_block :
      (l : Record) (ls rs : List Record)
      → joined f e (l ∷ ls) rs
        ≡ block_matches f e (take 24 (l ∷ ls)) rs ++ joined f e (drop 24 (l ∷ ls)) rs
  unfolding joined blocks_matches
  joined_block l ls rs =
      ap (λ x. block_matches f e (take 24 (l ∷ ls)) rs ++ x)
        (blocks_matches-enough (length ls) (length (drop 23 ls)) rs (drop 23 ls)
          (length-drop_le 23 ls) (omega arith))
