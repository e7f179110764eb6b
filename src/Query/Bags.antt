-- ===== src/Query/Bags.antt =====
-- Bags: what is done to each element of a list does not depend on the order of the list.
use duck_duck_dbms.Common.{
  ◌≡◌, refl, sym, ap, Bool, List, [], ◌∷◌, ◌++◌, keep, if◌then◌else◌, Bool-cases, inl, inr,
}
use mathlib.Core.Logic.{∥∥₁_elim}
use mathlib.Core.List.{append_assoc, Perm, Permᴰ, Perm-prop, perm_append_comm, flat_map}
use mathlib.Core.List.Perm
use duck_duck_dbms.Expression.Compare.{FloatOps}
use duck_duck_dbms.Expression.Evaluate.{Record, Expression}
use duck_duck_dbms.Execution.Bag.{matched, nested_loops}

module _ {A B : Type 0} (g : A → List B) where
  exchange : (a b c : List B) → Perm (a ++ (b ++ c)) (b ++ (a ++ c))
  exchange a b c =
      rw (sym (append_assoc a b c), sym (append_assoc b a c))
        (Perm.append_right c (perm_append_comm a b))

  over : {xs ys : List A} → Permᴰ xs ys → Perm (flat_map g xs) (flat_map g ys)
  unfolding flat_map
  over Permᴰ.nil = Perm.nil
  over (Permᴰ.cons {a = a} e p) = rw⁻¹ e (Perm.append_left (g a) (over p))
  over (Permᴰ.swap {a = a} {b = b} {l = l} e h) = rw⁻¹ (e, h) (exchange (g a) (g b) (flat_map g l))
  over (Permᴰ.trans p q) = Perm.trans (over p) (over q)

  pub flat_map-Perm : {xs ys : List A} → Perm xs ys → Perm (flat_map g xs) (flat_map g ys)
  flat_map-Perm p = ∥∥₁_elim p Perm-prop over

module _ {A : Type 0} (t : A → Bool) where
  keep-flat_map : (xs : List A) → keep t xs ≡ flat_map (λ (x : A). if t x then x ∷ [] else []) xs
  unfolding flat_map
  keep-flat_map [] = refl
  keep-flat_map (x ∷ xs) = elim (Bool-cases (t x)) [
    | inl e ↦ rw e (ap (λ l. x ∷ l) (keep-flat_map xs))
    | inr e ↦ rw e (keep-flat_map xs)
  ]

  pub keep-Perm : {xs ys : List A} → Perm xs ys → Perm (keep t xs) (keep t ys)
  keep-Perm {xs} {ys} p = rw (keep-flat_map xs, keep-flat_map ys) (flat_map-Perm _ p)

module _ (f : FloatOps) (e : Expression) (rs : List Record) where
  nested_loops-flat_map :
      (ls : List Record) → nested_loops f e ls rs ≡ flat_map (λ (l : Record). matched f e l rs) ls
  unfolding flat_map nested_loops
  nested_loops-flat_map [] = refl
  nested_loops-flat_map (l ∷ ls) = ap (λ x. matched f e l rs ++ x) (nested_loops-flat_map ls)

  pub nested_loops-Perm :
      {ls ks : List Record} → Perm ls ks → Perm (nested_loops f e ls rs) (nested_loops f e ks rs)
  nested_loops-Perm {ls} {ks} p =
      rw (nested_loops-flat_map ls, nested_loops-flat_map ks) (flat_map-Perm _ p)
