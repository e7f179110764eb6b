-- ===== src/Query/Alike.antt =====
-- Tables side by side, with one more at the end, and tables that have the same names and schemas.
use duck_duck_dbms.Common.{
  ℕ, ◌+◌, ◌≡◌, refl, sym, ap, ◌∙◌, List, [], ◌∷◌, ◌++◌, length, length-append, All, arith,
}
use mathlib.Core.Path.{ap₂}
use mathlib.Core.List.{append_assoc, append-nil}
use duck_duck_dbms.Query.Names.{Part, IsWhole, row, bindings, binding_of}

module _ {A : Type 0} where
  pub row-snoc : (xs : List (Part A)) (x : Part A) → row (xs ++ x ∷ []) ≡ row xs ++ x.fields
  row-snoc [] x = append-nil x.fields
  row-snoc (y ∷ xs) x =
      ap (λ l. y.fields ++ l) (row-snoc xs x) ∙ sym (append_assoc y.fields (row xs) x.fields)

  bindings_from :
      (k : ℕ) (xs : List (Part A)) (x : Part A)
      → All IsWhole xs
      → bindings k (xs ++ x ∷ []) ≡ bindings k xs ++ binding_of (k + length (row xs)) x ∷ []
  bindings_from k [] x w = ap (λ n. binding_of n x ∷ []) (omega arith)
  bindings_from k (y ∷ xs) x (w, ws) =
      let e : k + length y.schema + length (row xs) ≡ k + length (row (y ∷ xs)) =
        omega (arith, w, length-append y.fields (row xs)) in
      ap (λ l. binding_of k y ∷ l) (bindings_from (k + length y.schema) xs x ws)
      ∙ ap (λ n. binding_of k y ∷ (bindings (k + length y.schema) xs ++ binding_of n x ∷ [])) e

  -- One more table is bound behind the fields of the others.
  pub bindings-snoc :
      (xs : List (Part A)) (x : Part A)
      → All IsWhole xs
      → bindings 0 (xs ++ x ∷ []) ≡ bindings 0 xs ++ binding_of (length (row xs)) x ∷ []
  bindings-snoc xs x w =
      bindings_from 0 xs x w ∙ ap (λ n. bindings 0 xs ++ binding_of n x ∷ []) (omega arith)

  pub IsWhole-snoc :
      (xs : List (Part A)) (x : Part A) → All IsWhole xs → IsWhole x → All IsWhole (xs ++ x ∷ [])
  IsWhole-snoc [] x ws w = (w, tt)
  IsWhole-snoc (y ∷ xs) x (v, ws) w = (v, IsWhole-snoc xs x ws w)

module _ {A B : Type 0} where
  -- The same names and schemas, with a field for each column.
  abbrev pub Alike : List (Part A) → List (Part B) → Type 0
  Alike [] [] = Unit
  Alike [] (x ∷ xs) = ⊥
  Alike (t ∷ ts) [] = ⊥
  Alike (t ∷ ts) (x ∷ xs) = (x.name ≡ t.name) × (x.schema ≡ t.schema) × IsWhole x × Alike ts xs

  Alike-bindings_from :
      (k : ℕ) (ts : List (Part A)) (xs : List (Part B))
      → Alike ts xs
      → bindings k xs ≡ bindings k ts
  Alike-bindings_from k [] [] h = refl
  Alike-bindings_from k [] (x ∷ xs) h = absurd h
  Alike-bindings_from k (t ∷ ts) [] h = absurd h
  Alike-bindings_from k (t ∷ ts) (x ∷ xs) (n, s, w, h) =
      ap₂ (λ a b. record { name = a; schema = b; offset = k } ∷ bindings (k + length b) xs) n s
      ∙ ap (λ l. binding_of k t ∷ l) (Alike-bindings_from (k + length t.schema) ts xs h)

  -- Tables that are alike are bound alike.
  pub bindings-Alike :
      (ts : List (Part A)) (xs : List (Part B)) → Alike ts xs → bindings 0 xs ≡ bindings 0 ts
  bindings-Alike ts xs h = Alike-bindings_from 0 ts xs h

  pub Alike-IsWhole : (ts : List (Part A)) (xs : List (Part B)) → Alike ts xs → All IsWhole xs
  Alike-IsWhole [] [] h = tt
  Alike-IsWhole [] (x ∷ xs) h = absurd h
  Alike-IsWhole (t ∷ ts) [] h = absurd h
  Alike-IsWhole (t ∷ ts) (x ∷ xs) (n, s, w, h) = (w, Alike-IsWhole ts xs h)

  pub Alike-snoc :
      (ts : List (Part A)) (xs : List (Part B)) (t : Part A) (x : Part B)
      → Alike ts xs
      → x.name ≡ t.name
      → x.schema ≡ t.schema
      → IsWhole x
      → Alike (ts ++ t ∷ []) (xs ++ x ∷ [])
  Alike-snoc [] [] t x h n s w = (n, s, w, tt)
  Alike-snoc [] (y ∷ xs) t x h n s w = absurd h
  Alike-snoc (u ∷ ts) [] t x h n s w = absurd h
  Alike-snoc (u ∷ ts) (y ∷ xs) t x (a, b, c, h) n s w = (a, b, c, Alike-snoc ts xs t x h n s w)
