-- ===== src/Tuple/Row/Nulls.antt =====
-- The bitmap of nulls: the bit of each column says whether its value is null.
use duck_duck_dbms.Common.{
  ℕ, zero, suc, ◌+◌, ◌*◌, ◌/◌, ◌%◌, ◌^◌, ◌<◌, ◌≤◌, ◌≡◌, ◌≢◌, refl, sym, ap, ◌∙◌, Bool, true, false,
  Option, none, some, List, [], ◌∷◌, ◌++◌, ◌==◌, if◌then◌else◌, Bool-cases, inl, inr, ◌⊎◌, length,
  set, replicate, get_elem?, get_elem?-set, get_elem?_within, get_elem?-lt, ==_refl,
  length-replicate, get_elem?-append_left, arith,
}
use native.Mathlib.Nat.{zero-div}
use duck_duck_dbms.Tuple.Value.{Value}
use duck_duck_dbms.Tuple.Row.{bit, bitmap_size, is_null, set_null, set_nulls}
use duck_duck_dbms.Tuple.Row.Offsets.{length-set_null, length-set_nulls}
use duck_duck_dbms.Tuple.Row.Bits.{with_bit, bit-with_bit_self, bit-with_bit_other}

is_null-some : (m : List ℕ) (i b : ℕ) → get_elem? m (i / 8) ≡ some b → is_null m i ≡ bit (i % 8) b
unfolding is_null
is_null-some m i b h = rw (h, is_null) refl

module _ (m : List ℕ) (i : ℕ) (b : ℕ) (h : get_elem? m (i / 8) ≡ some b) where
  set_null-set : set_null m i ≡ set m (i / 8) (with_bit (i % 8) b)
  unfolding set_null
  set_null-set = rw (h, set_null) refl

  changed :
      (j : ℕ)
      → get_elem? (set_null m i) (j / 8)
        ≡ (if i / 8 == j / 8 then some (with_bit (i % 8) b) else get_elem? m (j / 8))
  changed j =
      ap (λ l. get_elem? l (j / 8)) set_null-set
      ∙ get_elem?-set m (i / 8) (j / 8) (with_bit (i % 8) b) (get_elem?-lt m (i / 8) h)

  -- The bit of the column is set.
  marked : is_null (set_null m i) i ≡ true
  marked =
      is_null-some (set_null m i) i (with_bit (i % 8) b) (changed i ∙ rw (==_refl (i / 8)) refl)
      ∙ bit-with_bit_self (i % 8) b

  -- The bits of the others stay.
  unmarked : (j : ℕ) → j ≢ i → is_null (set_null m i) j ≡ is_null m j
  unfolding is_null
  unmarked j n = elim (Bool-cases (i / 8 == j / 8)) [
    | inl e ↦
        let q : i / 8 ≡ j / 8 = ground (arith, e) in
        is_null-some (set_null m i) j (with_bit (i % 8) b) (changed j ∙ rw e refl)
        ∙ bit-with_bit_other (j % 8) (i % 8) b (λ k. n (omega (arith, k, q)))
        ∙ sym (is_null-some m j b (ap (get_elem? m) (sym q) ∙ h))
    | inr e ↦
        let k : get_elem? (set_null m i) (j / 8) ≡ get_elem? m (j / 8) = changed j ∙ rw e refl in
        ap (λ (o : Option ℕ). elim o as (λ _. Bool) [ none ↦ false | some b ↦ bit (j % 8) b ]) k
  ]

-- The bitmap has a byte for the column.
abbrev pub Covers : List ℕ → ℕ → Type 0
Covers m n = n ≤ 8 * length m

marked_if : Bool → List ℕ → ℕ → List ℕ
marked_if b m i = if b then set_null m i else m

Covers-marked_if : (b : Bool) (m : List ℕ) (i n : ℕ) → Covers m n → Covers (marked_if b m i) n
unfolding marked_if
Covers-marked_if true m i n c = omega (arith, c, length-set_null m i)
Covers-marked_if false m i n c = c

marked_if_self :
    (b : Bool) (m : List ℕ) (i : ℕ)
    → i < 8 * length m
    → is_null m i ≡ false
    → is_null (marked_if b m i) i ≡ b
unfolding marked_if
marked_if_self true m i c z =
    let (x, e) = get_elem?_within m (i / 8) (omega (arith, c)) in marked m i x e
marked_if_self false m i c z = z

marked_if_other :
    (b : Bool) (m : List ℕ) (i j : ℕ)
    → i < 8 * length m
    → j ≢ i
    → is_null (marked_if b m i) j ≡ is_null m j
unfolding marked_if
marked_if_other true m i j c n =
    let (x, e) = get_elem?_within m (i / 8) (omega (arith, c)) in unmarked m i x e j n
marked_if_other false m i j c n = refl

-- The columns before the first are left alone.
before :
    (k : ℕ) (vs : List Value) (m : List ℕ) (i : ℕ)
    → Covers m (k + length vs)
    → i < k
    → is_null (set_nulls k vs m) i ≡ is_null m i
unfolding set_nulls marked_if
before k [] m i c l = refl
before k (v ∷ vs) m i c l =
    before (k + 1) vs (marked_if v.is_null m k) i
      (Covers-marked_if v.is_null m k (k + 1 + length vs) (omega (arith, c))) (omega (arith, l))
    ∙ marked_if_other v.is_null m k i (omega (arith, c)) (omega (arith, l))

-- Each bit, from a column on, says whether the value is null.
abbrev pub Marks : List ℕ → ℕ → List Value → Type 0
Marks m k [] = Unit
Marks m k (v ∷ vs) = (is_null m k ≡ v.is_null) × Marks m (k + 1) vs

-- The bits from a column on are clear.
abbrev Clear : List ℕ → ℕ → Type 0
Clear m k = (i : ℕ) → k ≤ i → is_null m i ≡ false

set_nulls-Marks :
    (k : ℕ) (vs : List Value) (m : List ℕ)
    → Covers m (k + length vs)
    → Clear m k
    → Marks (set_nulls k vs m) k vs
unfolding set_nulls marked_if
set_nulls-Marks k [] m c z = tt
set_nulls-Marks k (v ∷ vs) m c z =
    let m' = marked_if v.is_null m k in
    let c' : Covers m' (k + 1 + length vs) =
      Covers-marked_if v.is_null m k (k + 1 + length vs) (omega (arith, c)) in
    (
      before (k + 1) vs m' k c' (omega arith)
          ∙ marked_if_self v.is_null m k (omega (arith, c)) (z k (omega arith)),
      set_nulls-Marks (k + 1) vs m' c' (λ i l.
          marked_if_other v.is_null m k i (omega (arith, c)) (omega (arith, l))
          ∙ z i (omega (arith, l))),
    )

zero_at :
    (n k : ℕ)
    → (get_elem? {A = ℕ} (replicate n 0) k ≡ none) ⊎ (get_elem? {A = ℕ} (replicate n 0) k ≡ some 0)
zero_at zero k = inl refl
zero_at (suc n) zero = inr refl
zero_at (suc n) (suc k) = zero_at n k

zeros : (n i : ℕ) → is_null (replicate n 0) i ≡ false
unfolding is_null
zeros n i = elim (zero_at n (i / 8)) [
  | inl h ↦ rw (h, is_null) refl
  | inr h ↦ rw (h, is_null) (ap (λ q. q % 2 == 1) (zero-div (2 ^ (i % 8))))
]

-- What stands behind the bitmap does not matter.
Marks-append :
    (m rest : List ℕ) (k : ℕ) (vs : List Value)
    → Covers m (k + length vs)
    → Marks m k vs
    → Marks (m ++ rest) k vs
Marks-append m rest k [] c h = tt
Marks-append m rest k (v ∷ vs) c (e, h) =
    let (x, g) = get_elem?_within m (k / 8) (omega (arith, c)) in
    (
      is_null-some (m ++ rest) k x (get_elem?-append_left m rest (k / 8) g)
          ∙ sym (is_null-some m k x g)
          ∙ e,
      Marks-append m rest (k + 1) vs (omega (arith, c)) h,
    )

-- The bits of the bitmap of a row, with its fields behind it.
pub bitmap-Marks :
    (n : ℕ) (vs : List Value) (rest : List ℕ)
    → length vs ≡ n
    → Marks (set_nulls 0 vs (replicate (bitmap_size n) 0) ++ rest) 0 vs
bitmap-Marks n vs rest l =
    let m = replicate {A = ℕ} (bitmap_size n) 0 in
    let c : Covers m (0 + length vs) =
      omega (arith, l, length-replicate {A = ℕ} (bitmap_size n) 0) in
    Marks-append (set_nulls 0 vs m) rest 0 vs (omega (arith, c, length-set_nulls 0 vs m))
      (set_nulls-Marks 0 vs m c (λ i h. zeros _ i))
