-- ===== src/Table/Page/Examples.antt =====
-- The theorems on slotted pages at a page with two tuples.
use duck_duck_dbms.Common.{
  get_elem?, ◌+◌, true, ℕ, zero, suc, ◌-◌, ◌^◌, ◌<◌, ◌≡◌, ◌∙◌, refl, arith, true, false, none, some,
  List, [], ◌∷◌, ◌++◌, ◌⊎◌, inl, inr, length, replicate, length-append, length-replicate,
}
use duck_duck_dbms.Table.Page.{
  next_occupied_slot, is_live, Slot, SlottedPage, insert_tuple, get_tuple, delete_tuple,
  try_update_in_place, restore_tuple, compact, is_compacted, write_tuple, allocate_slot,
}
use duck_duck_dbms.Table.Page.Layout.{at, IsValid}
use duck_duck_dbms.Table.Page.Insert.{Inserted, insert_tuple-Inserted, insert_tuple_succeeds}
use duck_duck_dbms.Table.Page.Compact.{IsCompactionOf, compact-IsCompactionOf}
use duck_duck_dbms.Table.Page.Edit.{Deleted, delete_tuple-Deleted}
use duck_duck_dbms.Table.Page.Update.{Updated, try_update_in_place-Updated}
use duck_duck_dbms.Table.Page.Restore.{Restored, restore_tuple-Restored, delete_then_restore}
use duck_duck_dbms.Table.Page.Scan.{NoneLive, next_occupied_slot_first}
use duck_duck_dbms.Table.Page.Gaps.{is_compacted_after_compact}

abbrev first : Slot
first = record { offset = 8189; length = 3 }

abbrev second : Slot
second = record { offset = 8187; length = 2 }

abbrev page : SlottedPage
page = record {
  next_page_id = 2 ^ 32 - 1;
  free_space_offset = 8187;
  slots = first ∷ second ∷ [];
  bytes = replicate 8187 0 ++ 4 ∷ 5 ∷ 1 ∷ 2 ∷ 3 ∷ [];
}

slot_cases :
    (i : ℕ) (s : Slot) → at page i ≡ some s → ((i ≡ 0) × (s ≡ first)) ⊎ ((i ≡ 1) × (s ≡ second))
slot_cases zero s h = inl (refl, cc)
slot_cases (suc zero) s h = inr (refl, cc)
slot_cases (suc (suc i)) s h = cc

page-IsValid : IsValid page
page-IsValid = record {
  sized =
      length-append {A = ℕ} (replicate 8187 0) (4 ∷ 5 ∷ 1 ∷ 2 ∷ 3 ∷ [])
      ∙ omega (arith, length-replicate {A = ℕ} 8187 0);
  directory = omega arith;
  room = omega arith;
  within = λ i s h. ground (arith, slot_cases i s h);
  apart = λ i j a b ne h k. ground (arith, slot_cases i a h, slot_cases j b k);
}

abbrev tuple : List ℕ
tuple = 9 ∷ 8 ∷ []

insert_tuple_succeeds_example :
    (i : ℕ) × (q : SlottedPage) × (insert_tuple page tuple none ≡ some (i, q))
insert_tuple_succeeds_example =
    insert_tuple_succeeds page page-IsValid tuple (omega arith) none refl

inserted : insert_tuple page tuple none ≡ some (2, write_tuple (allocate_slot page) 2 tuple)
unfolding insert_tuple
inserted = refl

insert_tuple-Inserted_example : Inserted page tuple 2 (write_tuple (allocate_slot page) 2 tuple)
insert_tuple-Inserted_example =
    insert_tuple-Inserted page page-IsValid tuple (omega arith) none 2
      (write_tuple (allocate_slot page) 2 tuple) inserted

compact-IsCompactionOf_example : IsCompactionOf page (compact page)
compact-IsCompactionOf_example = compact-IsCompactionOf page page-IsValid

delete_tuple-Deleted_example :
    ((delete_tuple page 0 ≡ none) × (at page 0 ≡ none))
    ⊎ ((q : SlottedPage) × (delete_tuple page 0 ≡ some q) × Deleted page 0 q)
delete_tuple-Deleted_example = delete_tuple-Deleted page 0 page-IsValid

try_update_in_place-Updated_example :
    ((try_update_in_place page 0 tuple ≡ none)
      × ((at page 0 ≡ none) ⊎ ((s : Slot) × (at page 0 ≡ some s) × (s.length < length tuple))))
    ⊎ ((q : SlottedPage) × (try_update_in_place page 0 tuple ≡ some q) × Updated page 0 tuple q)
try_update_in_place-Updated_example =
    try_update_in_place-Updated page 0 tuple page-IsValid (omega arith)

delete_then_restore_example :
    (q r : SlottedPage) × (delete_tuple page 1 ≡ some q)
    × (restore_tuple q 1 (get_tuple page 1) ≡ some r)
    × ((j : ℕ) → get_tuple r j ≡ get_tuple page j)
delete_then_restore_example = delete_then_restore page 1 second page-IsValid refl

is_compacted_after_compact_example : is_compacted (compact page) ≡ false
is_compacted_after_compact_example =
    is_compacted_after_compact page first second [] page-IsValid refl refl refl (omega arith)

-- The second tuple is deleted, and its space not given back.
abbrev page_with_gap : SlottedPage
page_with_gap = record page { slots = first ∷ record second { offset = 0 } ∷ [] }

gap_slot : (i : ℕ) (s : Slot) → at page_with_gap i ≡ some s → (i ≡ 0) × (s ≡ first)
gap_slot zero s h = (refl, cc)
gap_slot (suc zero) s h = cc
gap_slot (suc (suc i)) s h = cc

page_with_gap-IsValid : IsValid page_with_gap
page_with_gap-IsValid = record {
  sized = page-IsValid.sized;
  directory = omega arith;
  room = omega arith;
  within = λ i s h. ground (arith, gap_slot i s h);
  apart = λ i j a b ne h k. ground (arith, gap_slot i a h, gap_slot j b k);
}

restore_tuple-Restored_example :
    (q : SlottedPage) × (restore_tuple page_with_gap 1 tuple ≡ some q)
    × Restored page_with_gap 1 tuple q
restore_tuple-Restored_example =
    restore_tuple-Restored page_with_gap page_with_gap-IsValid 1 tuple (omega arith) refl
      (omega arith)

next_occupied_slot_first_example :
    ((next_occupied_slot page 0 ≡ none) × ((top : ℕ) → NoneLive (0 + 1) 0 page.slots top))
    ⊎ ((j : ℕ) × (s : Slot) × (next_occupied_slot page 0 ≡ some j)
        × (0 < j)
        × (get_elem? page.slots j ≡ some s)
        × (is_live s ≡ true)
        × NoneLive (0 + 1) 0 page.slots j)
next_occupied_slot_first_example = next_occupied_slot_first page 0 (omega arith)
