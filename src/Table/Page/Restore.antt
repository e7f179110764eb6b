-- ===== src/Table/Page/Restore.antt =====
-- Restoring a deleted tuple to its slot, which is how an abort takes back a deletion.
use mathlib.Core.Path.{subst}
use duck_duck_dbms.Common.{
  ◌↔◌, ℕ, ◌+◌, ◌%◌, ◌^◌, ◌≤◌, ◌<◌, ◌≡◌, ◌≢◌, sym, ap, ◌∙◌, inl, inr, true, none, some, List, arith,
  ◌==◌, Bool-cases, Option-cases, length, get_elem?, get_elem?-lt, get_elem?_within,
}
use duck_duck_dbms.Common.Slices.{length-slice}
use duck_duck_dbms.Table.Page.{
  Slot, SlottedPage, page_size, slot_count, slots_used, is_empty, has_free_space, insert_tuple,
  get_tuple, delete_tuple, restore_tuple, compact,
}
use duck_duck_dbms.Table.Page.Layout.{at, total, IsValid, get_tuple_live}
use duck_duck_dbms.Table.Page.Insert.{Inserted, insert_tuple-Inserted}
use duck_duck_dbms.Table.Page.Compact.{IsCompactionOf, compact-IsCompactionOf}
use duck_duck_dbms.Table.Page.{choose_slot, write_tuple}
use duck_duck_dbms.Table.Page.Insert.{insert_eq}
use duck_duck_dbms.Table.Page.Edit.{Deleted, delete_tuple-Deleted, at-lt}

is_empty-at :
    (p : SlottedPage) (i : ℕ)
    → (is_empty (get_elem? p.slots i) ≡ true) ↔ ((i < slot_count p) × (at p i ≡ none))
is_empty-at p i = elim (Option-cases (get_elem? p.slots i)) [
  | inl e ↦ (λ h. ground arith, λ h. absurd (beyond e h.0))
  | inr (s, e) ↦ (λ h. ground (arith, get_elem?-lt p.slots i e), λ h. ground arith)
]
  where
    beyond : get_elem? p.slots i ≡ none → i < slot_count p → ⊥
    beyond e h = let (s, f) = get_elem?_within p.slots i h in cc (e, f)

module _ (p : SlottedPage) (v : IsValid p) (i : ℕ) (t : List ℕ) (small : length t < 2 ^ 16) where
  -- An insertion that prefers a slot of the directory without a tuple uses that slot.
  insert_preferred :
      is_empty (get_elem? p.slots i) ≡ true
      → has_free_space p (length t) ≡ true
      → insert_tuple p t (some i) ≡ some (i, write_tuple p i t)
  insert_preferred e b = insert_eq p v t small (some i) b ∙ unfold choose_slot in rw e

-- What a restoration promises.
pub record Restored (p : SlottedPage) (i : ℕ) (t : List ℕ) (q : SlottedPage) : Type 0 where
  pub reads : get_tuple q i ≡ t
  pub in_use : (s : Slot) × (at q i ≡ some s)
  pub others :
      (j : ℕ) → i ≢ j → ((at p j ≡ none) ↔ (at q j ≡ none)) × (get_tuple q j ≡ get_tuple p j)
  pub valid : IsValid q

module _ (p : SlottedPage) (v : IsValid p) (i : ℕ) (t : List ℕ) (small : length t < 2 ^ 16)
    (e : is_empty (get_elem? p.slots i) ≡ true) where
  here : has_free_space p (length t) ≡ true → Restored p i t (write_tuple p i t)
  here b = record {
    reads = inserted.reads;
    in_use = inserted.in_use;
    others = λ j ne. let (a, g) = inserted.others j ne in ((λ h. a ∙ h, λ h. sym a ∙ h), g);
    valid = inserted.valid;
  }
    where
      inserted : Inserted p t i (write_tuple p i t)
      inserted = insert_tuple-Inserted p v t small (some i) i _ (insert_preferred p v i t small e b)

  compacted : IsCompactionOf p (compact p)
  compacted = compact-IsCompactionOf p v

  still_empty : is_empty (get_elem? (compact p).slots i) ≡ true
  still_empty =
      let (l, a) = (is_empty-at p i).0 e in
      (is_empty-at (compact p) i).1 (omega (arith, l, compacted.count), (compacted.in_use i).0 a)

  after_compaction :
      has_free_space (compact p) (length t) ≡ true → Restored p i t (write_tuple (compact p) i t)
  after_compaction b = record {
    reads = inserted.reads;
    in_use = inserted.in_use;
    others = λ j ne.
        let (a, g) = inserted.others j ne in
        let (f, k) = compacted.in_use j in
        ((λ h. a ∙ f h, λ h. k (sym a ∙ h)), g ∙ compacted.reads j);
    valid = inserted.valid;
  }
    where
      inserted : Inserted (compact p) t i (write_tuple (compact p) i t)
      inserted =
          insert_tuple-Inserted (compact p) compacted.valid t small (some i) i _
            (insert_preferred (compact p) compacted.valid i t small still_empty b)

  -- A tuple for which the page has room once it is compacted is restored to the empty slot that
  -- is asked for: no assertion fails, it reads back, every other slot has its tuple still, and the
  -- page stays valid.
  pub restore_tuple-Restored :
      length t + total p.slots + slots_used p ≤ page_size
      → (q : SlottedPage) × (restore_tuple p i t ≡ some q) × Restored p i t q
  unfolding restore_tuple
  restore_tuple-Restored room = elim (Bool-cases (has_free_space p (length t))) [
    | inl b ↦ (write_tuple p i t, simp (m, e, b, insert_preferred p v i t small e b), here b)
    | inr b ↦
        let roomy : has_free_space (compact p) (length t) ≡ true =
          ground (arith, compacted.count, compacted.no_gap) in
        (
          write_tuple (compact p) i t,
          simp (m, e, b, insert_preferred (compact p) compacted.valid i t small still_empty roomy),
          after_compaction roomy,
        )
  ]
    where
      m : length t % 2 ^ 16 ≡ length t
      m = omega (arith, small)

-- Deleting a tuple of a valid page and then restoring its bytes never fails, and every slot reads
-- as before the deletion.
pub delete_then_restore :
    (p : SlottedPage) (i : ℕ) (s : Slot)
    → IsValid p
    → at p i ≡ some s
    → (q r : SlottedPage) × (delete_tuple p i ≡ some q)
      × (restore_tuple q i (get_tuple p i) ≡ some r)
      × ((j : ℕ) → get_tuple r j ≡ get_tuple p j)
delete_then_restore p i s v h = elim (delete_tuple-Deleted p i v) [
  | inl x ↦ cc (x.1, h)
  | inr (q, e, d) ↦
      let len : length (get_tuple p i) ≡ s.length =
        ap length (get_tuple_live p i h)
        ∙ length-slice s.offset s.length p.bytes (omega (arith, v.within i s h, v.sized)) in
      let (r, f, x) =
        restore_tuple-Restored q d.valid i (get_tuple p i) (omega (arith, len, v.within i s h))
          ((is_empty-at q i).1 (omega (arith, d.count, at-lt p i h), d.gone))
          (ground (arith, len, d.freed, d.count, v.room, v.directory, h)) in
      (q, r, e, f, λ j. back q r d x j)
]
  where
    back :
        (q r : SlottedPage)
        → Deleted p i q
        → Restored q i (get_tuple p i) r
        → (j : ℕ) → get_tuple r j ≡ get_tuple p j
    back q r d x j = elim (Bool-cases (i == j)) [
      | inl e ↦ let y : i ≡ j = ground arith in subst (λ k. get_tuple r k ≡ get_tuple p k) y x.reads
      | inr e ↦ let ne : i ≢ j = ground arith in (x.others j ne).1 ∙ (d.others j ne).1
    ]
