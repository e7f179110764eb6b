-- ===== src/Query/Names.antt =====
-- What a name means: the only table that it may mean, and the value of its column there. Tables are
-- side by side in a row, and `resolve_column` finds the same value by its position in the row.
use duck_duck_dbms.Common.{
  ℕ, ◌+◌, ◌≡◌, refl, ap, ◌∙◌, ◌⊎◌, inl, inr, Bool, not, ◌&&◌, if◌then◌else◌, true, false, Option,
  none, some, List, [], ◌∷◌, ◌++◌, keep, length, ltb, All, get_elem?, get_elem?_within,
  get_elem?-lt, get_elem?-append_left, get_elem?-append_right, arith, Bool-cases, Option-cases,
  Error, no_such_column, ambiguous, no_qualifier, not_in_from, Result, ok, err, ◌>>=◌,
}
use duck_duck_dbms.Tuple.Schema.{Column, column_index}
use duck_duck_dbms.Tuple.Schema.Names.{column_index_first}
use duck_duck_dbms.Query.{ColumnRef}
use duck_duck_dbms.Query.Binder.{
  TableBinding, is_named, add_match, visit, resolve_in, matched, has_value, resolve_column,
}

-- A table with something for each of its columns: a value, or a type.
pub record Part (A : Type 0) : Type 0 where
  pub name : List ℕ
  pub schema : List Column
  pub fields : List A

has_no_value : (q : Option (List ℕ)) → has_value q ≡ false → q ≡ none
has_no_value none h = refl
has_no_value (some name) h = cc

module _ {A : Type 0} where
  abbrev pub IsWhole : Part A → Type 0
  IsWhole x = length x.fields ≡ length x.schema

  -- All the fields, table after table.
  abbrev pub row : List (Part A) → List A
  row [] = []
  row (x ∷ xs) = x.fields ++ row xs

  unfoldable pub field : Part A → List ℕ → Option A
  field x name = elim (column_index x.schema name) [ none ↦ none | some i ↦ get_elem? x.fields i ]

  abbrev pub only : List ℕ → List (Part A) → Option A
  only name [] = none
  only name (x ∷ []) = field x name
  only name (x ∷ y ∷ xs) = none

  -- The tables that the reference may mean.
  unfoldable pub meant : Option (List ℕ) → List (Part A) → List (Part A)
  meant q xs = keep (λ (x : Part A). is_named q x.name) xs

  unfoldable pub lookup : ColumnRef → List (Part A) → Option A
  lookup c xs = only c.name (meant c.qualifier xs)

  -- The bindings of the tables: each has its place in the row for its offset.
  abbrev pub binding_of : ℕ → Part A → TableBinding
  binding_of k x = record { name = x.name; schema = x.schema; offset = k }

  abbrev pub bindings : ℕ → List (Part A) → List TableBinding
  bindings k [] = []
  bindings k (x ∷ xs) = binding_of k x ∷ bindings (k + length x.schema) xs

  -- A column that a whole table has, or has not.
  field-cases :
      (x : Part A) (name : List ℕ)
      → IsWhole x
      → ((column_index x.schema name ≡ none) × (field x name ≡ none))
        ⊎ ((i : ℕ) × (a : A) × (column_index x.schema name ≡ some i)
            × (get_elem? x.fields i ≡ some a)
            × (field x name ≡ some a))
  unfolding field
  field-cases x name w = elim (column_index_first x.schema name) [
    | inl (n, h) ↦ inl (n, rw (n, field) refl)
    | inr (i, c, n, g, m, h) ↦
        let (a, e) = get_elem?_within x.fields i (omega (arith, w, get_elem?-lt x.schema i g)) in
        inr (i, a, n, e, rw (n, field) e)
  ]

  only-none :
      (name : List ℕ) (x : Part A) (ys : List (Part A))
      → field x name ≡ none
      → only name (x ∷ ys) ≡ none
  only-none name x [] h = h
  only-none name x (y ∷ ys) h = refl

  -- What the loop comes to: the place of the value that is meant; no table; or an error.
  Search : ColumnRef → ℕ → List (Part A) → Result (ℕ × ℕ) → Type 0
  Search c k xs r =
      ((j : ℕ) × (a : A) × (r ≡ ok (k + j, 1))
        × (get_elem? (row xs) j ≡ some a)
        × (lookup c xs ≡ some a))
      ⊎ ((r ≡ ok (0, 0)) × (meant c.qualifier xs ≡ []))
      ⊎ ((e : Error) × (r ≡ err e) × (lookup c xs ≡ none))

  -- With a match already found, every other table that is meant is an error.
  second :
      (c : ColumnRef) (k m : ℕ) (xs : List (Part A))
      → ((resolve_in c (bindings k xs) (m, 1) ≡ ok (m, 1)) × (meant c.qualifier xs ≡ []))
        ⊎ ((e : Error) × (x : Part A) × (ys : List (Part A)) × (resolve_in c (bindings k xs) (m, 1)
              ≡ err e)
            × (meant c.qualifier xs ≡ x ∷ ys))
  unfolding resolve_in visit add_match meant
  second c k m [] = inl (refl, refl)
  second c k m (x ∷ xs) = elim (Bool-cases (is_named c.qualifier x.name)) [
    | inl e ↦ elim (Option-cases (column_index x.schema c.name)) [
      | inl n ↦ inr (no_such_column, x, meant c.qualifier xs, rw (e, n, add_match) refl, rw e refl)
      | inr (i, n) ↦ inr (ambiguous, x, meant c.qualifier xs, rw (e, n, add_match) refl, rw e refl)
    ]
    | inr e ↦ rw e (second c (k + length x.schema) m xs)
  ]

  searched :
      (c : ColumnRef) (k : ℕ) (xs : List (Part A))
      → All IsWhole xs
      → Search c k xs (resolve_in c (bindings k xs) (0, 0))
  unfolding Search resolve_in visit add_match meant lookup
  searched c k [] w = inr (inl (refl, refl))
  searched c k (x ∷ xs) (w, ws) = elim (Bool-cases (is_named c.qualifier x.name)) [
    | inl e ↦ elim (field-cases x c.name w) [
      | inl (n, h) ↦ inr (
          inr (
            no_such_column,
            rw (e, n, add_match) refl,
            rw e (only-none c.name x (meant c.qualifier xs) h),
          ))
      | inr (i, a, n, g, h) ↦ elim (second c (k + length x.schema) (k + i) xs) [
        | inl (r, m) ↦
            inl (
              i,
              a,
              rw (e, n, add_match) r,
              get_elem?-append_left x.fields (row xs) i g,
              rw (e, m) h,
            )
        | inr (er, y, ys, r, m) ↦ inr (inr (er, rw (e, n, add_match) r, rw (e, m) refl))
      ]
    ]
    | inr e ↦ elim (searched c (k + length x.schema) xs ws) [
      | inl (j, a, r, g, h) ↦ inl (
        length x.fields + j,
        a,
        rw e (r ∙ ap (λ (n : ℕ). ok (n, 1)) (omega (arith, w))),
        get_elem?-append_right x.fields (row xs) j ∙ g,
        rw e h,
      )
      | inr (inl (r, m)) ↦ inr (inl (rw e r, rw e m))
      | inr (inr (er, r, h)) ↦ inr (inr (er, rw e r, rw e h))
    ]
  ]

  unqualified :
      (k : ℕ) (c : ColumnRef) (xs : List (Part A))
      → c.qualifier ≡ none
      → ltb 1 (length (bindings k xs)) ≡ true
      → lookup c xs ≡ none
  unfolding lookup meant is_named
  unqualified k c [] q l = cc
  unqualified k c (x ∷ []) q l = ground arith
  unqualified k c (x ∷ y ∷ xs) q l = rw q refl

  abbrev Resolved : ColumnRef → List (Part A) → Result ℕ → Type 0
  Resolved c xs r =
      ((i : ℕ) × (a : A) × (r ≡ ok i) × (get_elem? (row xs) i ≡ some a) × (lookup c xs ≡ some a))
      ⊎ ((e : Error) × (r ≡ err e) × (lookup c xs ≡ none))

  checked :
      (c : ColumnRef) (xs : List (Part A)) (r : Result (ℕ × ℕ))
      → Search c 0 xs r
      → Resolved c xs (r >>= matched c)
  unfolding Search matched lookup
  checked c xs r (inl (j, a, e, g, h)) = inl (j, a, rw e (ap ok (omega arith)), g, h)
  checked c xs r (inr (inr (er, e, h))) = inr (er, rw e refl, h)
  checked c xs r (inr (inl (e, h))) = elim (Bool-cases (has_value c.qualifier)) [
    | inl q ↦ inr (not_in_from, rw (e, q) refl, rw h refl)
    | inr q ↦ inr (no_such_column, rw (e, q) refl, rw h refl)
  ]

  guarded :
      (c : ColumnRef) (xs : List (Part A)) (r : Result ℕ) (q l : Bool)
      → Resolved c xs r
      → (q ≡ false → l ≡ true → lookup c xs ≡ none)
      → Resolved c xs (if not q && l then err no_qualifier else r)
  guarded c xs r true l h n = h
  guarded c xs r false false h n = h
  guarded c xs r false true h n = inr (no_qualifier, refl, n refl refl)

  -- For tables that have a field for each column, `resolve_column` throws exactly when it is not one
  -- table alone that the reference may mean, or that table has no column of the name. Otherwise it
  -- gives the position, in the row of all tables, of the field that the reference means.
  pub resolve_column-lookup :
      (c : ColumnRef) (xs : List (Part A))
      → All IsWhole xs
      → ((i : ℕ) × (a : A) × (resolve_column c (bindings 0 xs) ≡ ok i)
          × (get_elem? (row xs) i ≡ some a)
          × (lookup c xs ≡ some a))
        ⊎ ((e : Error) × (resolve_column c (bindings 0 xs) ≡ err e) × (lookup c xs ≡ none))
  unfolding resolve_column
  resolve_column-lookup c xs w =
      guarded c xs (resolve_in c (bindings 0 xs) (0, 0) >>= matched c) (has_value c.qualifier)
        (ltb 1 (length (bindings 0 xs))) (checked c xs _ (searched c 0 xs w))
        (λ q l. unqualified 0 c xs (has_no_value c.qualifier q) l)
