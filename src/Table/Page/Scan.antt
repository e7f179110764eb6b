-- ===== src/Table/Page/Scan.antt =====
-- Scanning the slots of a page (src/table/slotted_page.cpp, `next_occupied_slot`).
use duck_duck_dbms.Common.{
  ℕ, zero, suc, ◌+◌, ◌%◌, ◌^◌, ◌<◌, ◌≤◌, ◌≡◌, refl, sym, ap, ◌∙◌, true, false, ◌&&◌, Option, none,
  some, List, [], ◌∷◌, arith, leb, get_elem?, Bool-cases, inl, inr, ◌⊎◌,
}
use duck_duck_dbms.Table.Page.{Slot, SlottedPage, is_live, next_live, next_occupied_slot}

-- No slot of the list, whose first index is `k`, from index `from` and before `top` has a tuple.
abbrev pub NoneLive : ℕ → ℕ → List Slot → ℕ → Type 0
NoneLive from k ss top =
    (j : ℕ) (s : Slot) → from ≤ k + j → k + j < top → get_elem? ss j ≡ some s → is_live s ≡ false

abbrev Found : ℕ → ℕ → List Slot → Option ℕ → Type 0
Found from k ss o =
    ((o ≡ none) × ((top : ℕ) → NoneLive from k ss top))
    ⊎ ((i : ℕ) × (s : Slot) × (o ≡ some (k + i))
        × (from ≤ k + i)
        × (get_elem? ss i ≡ some s)
        × (is_live s ≡ true)
        × NoneLive from k ss (k + i))

NoneLive-cons :
    (from k : ℕ) (x : Slot) (ss : List Slot) (top : ℕ)
    → (leb from k && is_live x) ≡ false
    → NoneLive from (suc k) ss top
    → NoneLive from k (x ∷ ss) top
NoneLive-cons from k x ss top e n zero s a b h =
    let g : x ≡ s = cc h in rw (ap is_live (sym g)) (ground (arith, e, a))
NoneLive-cons from k x ss top e n (suc j) s a b h = n j s (omega (arith, a)) (omega (arith, b)) h

next_live-Found : (from k : ℕ) (ss : List Slot) → Found from k ss (next_live from k ss)
unfolding next_live
next_live-Found from k [] = inl (refl, λ top j s a b h. cc)
next_live-Found from k (x ∷ ss) = elim (Bool-cases (leb from k && is_live x)) [
  | inl e ↦ rw e (
      inr (
        0,
        x,
        ap some (omega arith),
        ground (arith, e),
        refl,
        ground (arith, e),
        λ j s a b h. absurd (omega (arith, b)),
      ))
  | inr e ↦ elim (next_live-Found from (suc k) ss) [
    | inl (h, n) ↦ rw (e, h) (inl (refl, λ top. NoneLive-cons from k x ss top e (n top)))
    | inr (i, s, h, a, g, l, n) ↦
        let m : suc k + i ≡ k + suc i = omega arith in
        rw (e, h)
          (inr (
            suc i,
            s,
            ap some m,
            omega (arith, a),
            g,
            l,
            NoneLive-cons from k x ss (k + suc i) e (rw (sym m) n),
          ))
  ]
]

-- For an index below 2 ^ 16 - 1 `next_occupied_slot` is the first index behind it whose slot has a
-- tuple, and it is empty exactly when there is none.
pub next_occupied_slot_first :
    (p : SlottedPage) (i : ℕ)
    → i + 1 < 2 ^ 16
    → ((next_occupied_slot p i ≡ none) × ((top : ℕ) → NoneLive (i + 1) 0 p.slots top))
      ⊎ ((j : ℕ) × (s : Slot) × (next_occupied_slot p i ≡ some j)
          × (i < j)
          × (get_elem? p.slots j ≡ some s)
          × (is_live s ≡ true)
          × NoneLive (i + 1) 0 p.slots j)
unfolding next_occupied_slot
next_occupied_slot_first p i small =
    let e : (i + 1) % 2 ^ 16 ≡ i + 1 = omega (arith, small) in
    elim (next_live-Found (i + 1) 0 p.slots) [
      | inl (h, n) ↦ inl (rw (e, next_occupied_slot) h, n)
      | inr (j, s, h, a, g, l, n) ↦ inr (
        j,
        s,
        rw (e, next_occupied_slot) (h ∙ ap some (omega arith)),
        omega (arith, a),
        g,
        l,
        λ k t b c. n k t b (omega (arith, c)),
      )
    ]
