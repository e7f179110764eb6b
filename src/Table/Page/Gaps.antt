-- ===== src/Table/Page/Gaps.antt =====
-- What `is_compacted` says: it walks the tuples upwards through the page, while the page is filled
-- downwards.
use mathlib.Core.Path.{subst}
use duck_duck_dbms.Common.{ℕ, ◌+◌, ◌<◌, ◌≡◌, ap, sym, true, false, List, [], ◌∷◌, arith}
use duck_duck_dbms.Table.Page.{
  Slot, SlottedPage, page_size, is_live, compact, compact_slots, slots_compacted, is_compacted,
}
use duck_duck_dbms.Table.Page.Layout.{total, IsValid}

walk :
    (bytes : List ℕ) (a b : Slot) (rest : List Slot)
    → is_live a ≡ true
    → is_live b ≡ true
    → 0 < b.length
    → a.length + b.length < page_size
    → slots_compacted (compact_slots bytes page_size [] (a ∷ b ∷ rest)).slots ≡ false
unfolding compact_slots slots_compacted
walk bytes a b rest la lb pos fits = ground arith

-- A compacted page whose first two slots have tuples, the second not an empty one, is reported as
-- not compacted.
pub is_compacted_after_compact :
    (p : SlottedPage) (a b : Slot) (rest : List Slot)
    → IsValid p
    → p.slots ≡ a ∷ b ∷ rest
    → is_live a ≡ true
    → is_live b ≡ true
    → 0 < b.length
    → is_compacted (compact p) ≡ false
unfolding compact is_compacted
is_compacted_after_compact p a b rest v e la lb pos =
    subst (λ ss. slots_compacted (compact_slots p.bytes page_size [] ss).slots ≡ false) (sym e)
      (walk p.bytes a b rest la lb pos (ground (arith, ap total e, v.room, v.directory)))
