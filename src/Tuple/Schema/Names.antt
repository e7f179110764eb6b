-- ===== src/Tuple/Schema/Names.antt =====
-- Finding columns by name, and choosing columns by index (src/tuple/schema.cpp).
use duck_duck_dbms.Common.{
  ℕ, zero, suc, ◌+◌, ◌<◌, ◌≡◌, refl, sym, ap, ◌∙◌, true, false, Option, none, some, List, [], ◌∷◌,
  arith, length, get_elem?, get_elem?_within, ◌≢◌, Bool-cases, inl, inr, ◌⊎◌, ok,
}
use duck_duck_dbms.Tuple.Schema.{
  Column, same_name, index_from, column_index, make_schema, column, pick, projected,
}

-- Names are compared byte by byte.
pub same_name_eq : (xs ys : List ℕ) → same_name xs ys ≡ true → xs ≡ ys
unfolding same_name
same_name_eq [] [] h = refl
same_name_eq [] (y ∷ ys) h = cc
same_name_eq (x ∷ xs) [] h = cc
same_name_eq (x ∷ xs) (y ∷ ys) h = ground (arith, h, same_name_eq xs ys)

pub same_name_refl : (xs : List ℕ) → same_name xs xs ≡ true
unfolding same_name
same_name_refl [] = refl
same_name_refl (x ∷ xs) = ground (arith, same_name_refl xs)

-- The columns before an index have other names.
abbrev pub NotBefore : List Column → List ℕ → ℕ → Type 0
NotBefore cs name i = (j : ℕ) (c : Column) → j < i → get_elem? cs j ≡ some c → c.name ≢ name

-- The first column with the name, at an index counted from `k`, or no column has it.
abbrev Found : ℕ → List Column → List ℕ → Option ℕ → Type 0
Found k cs name o =
    ((o ≡ none) × NotBefore cs name (length cs))
    ⊎ ((i : ℕ) × (c : Column) × (o ≡ some (k + i))
        × (get_elem? cs i ≡ some c)
        × (c.name ≡ name)
        × NotBefore cs name i)

module _ (name : List ℕ) (x : Column) (cs : List Column)
    (other : same_name x.name name ≡ false) where
  differs : x.name ≢ name
  differs h = let e : same_name name name ≡ false = rw h at other in cc (e, same_name_refl name)

  NotBefore-cons : (i : ℕ) → NotBefore cs name i → NotBefore (x ∷ cs) name (suc i)
  NotBefore-cons i n zero c l h =
      let e : x ≡ c = cc h in rw (ap (λ (y : Column). y.name) (sym e)) differs
  NotBefore-cons i n (suc j) c l h = n j c (omega (arith, l)) h

index_from-Found :
    (k : ℕ) (cs : List Column) (name : List ℕ) → Found k cs name (index_from k cs name)
unfolding index_from
index_from-Found k [] name = inl (refl, λ j c l h. cc)
index_from-Found k (x ∷ cs) name = elim (Bool-cases (same_name x.name name)) [
  | inl e ↦ rw e (
      inr (
        0,
        x,
        ap some (omega arith),
        refl,
        same_name_eq x.name name e,
        λ j c l h. absurd (omega (arith, l)),
      ))
  | inr e ↦ elim (index_from-Found (suc k) cs name) [
    | inl (h, n) ↦ rw (e, h) (inl (refl, NotBefore-cons name x cs e (length cs) n))
    | inr (i, c, h, g, m, n) ↦
        rw (e, h) (inr (suc i, c, ap some (omega arith), g, m, NotBefore-cons name x cs e i n))
  ]
]

-- `column_index` is the index of the first column with the name; it is empty exactly when no
-- column has the name.
pub column_index_first :
    (cs : List Column) (name : List ℕ)
    → ((column_index cs name ≡ none) × NotBefore cs name (length cs))
      ⊎ ((i : ℕ) × (c : Column) × (column_index cs name ≡ some i)
          × (get_elem? cs i ≡ some c)
          × (c.name ≡ name)
          × NotBefore cs name i)
unfolding column_index
column_index_first cs name = elim (index_from-Found 0 cs name) [
  | inl h ↦ inl h
  | inr (i, c, h, g, m, n) ↦ inr (i, c, h ∙ ap some (omega arith), g, m, n)
]

-- The columns at some indices.
abbrev pub Chosen : List Column → List ℕ → List Column → Type 0
Chosen cs [] [] = Unit
Chosen cs [] (d ∷ ds) = ⊥
Chosen cs (i ∷ is) [] = ⊥
Chosen cs (i ∷ is) (d ∷ ds) = (get_elem? cs i ≡ some d) × Chosen cs is ds

abbrev pub Within : List Column → List ℕ → Type 0
Within cs [] = Unit
Within cs (i ∷ is) = (i < length cs) × Within cs is

column_within :
    (cs : List Column) (i : ℕ)
    → i < length cs
    → (c : Column) × (column cs i ≡ ok c) × (get_elem? cs i ≡ some c)
unfolding column
column_within cs i l = let (c, e) = get_elem?_within cs i l in (c, rw (e, column), e)

pick-Chosen :
    (cs : List Column) (is : List ℕ)
    → Within cs is
    → (ds : List Column) × (pick cs is ≡ ok ds) × Chosen cs is ds
unfolding pick
pick-Chosen cs [] w = ([], refl, tt)
pick-Chosen cs (i ∷ is) (l, w) =
    let (c, e, h) = column_within cs i l in
    let (ds, g, k) = pick-Chosen cs is w in (c ∷ ds, rw (e, g) refl, (h, k))

-- A projection on one index or more, each of them an index of the schema, is the schema of the
-- columns at the indices, in their order.
pub projected-Chosen :
    (cs : List Column) (i : ℕ) (is : List ℕ)
    → Within cs (i ∷ is)
    → (ds : List Column) × (projected cs (i ∷ is) ≡ ok ds) × Chosen cs (i ∷ is) ds
unfolding projected pick make_schema
projected-Chosen cs i is (l, w) =
    let (c, e, h) = column_within cs i l in
    let (ds, g, k) = pick-Chosen cs is w in (c ∷ ds, rw (e, g) refl, (h, k))
