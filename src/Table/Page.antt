-- ===== src/Table/Page.antt =====
-- Slotted pages (src/table/slotted_page.cpp, slotted_page.hpp, config/sizes.hpp). The source lays
-- a header and the slot directory over the first bytes of the page. Here they are fields of a
-- record, whose `slots` has `slot_count` entries, and `bytes` is the whole page, of which only the
-- part behind the directory is read.

pub mod Layout
pub mod Insert
pub mod Compact
pub mod Edit
pub mod Update
pub mod Restore
pub mod Gaps
pub mod Scan
mod Examples
use duck_duck_dbms.Common.{
  ℕ, zero, suc, ◌+◌, ◌-◌, ◌*◌, ◌%◌, ◌^◌, Bool, true, false, not, ◌&&◌, ◌||◌, Option, none, some,
  List, [], ◌∷◌, ◌++◌, ltb, leb, ◌==◌, if◌then◌else◌, length, get_elem?, set, replicate,
}
use duck_duck_dbms.Common.Slices.{slice, splice}

abbrev pub page_size : ℕ
page_size = 8192

abbrev pub invalid_page_id : ℕ
invalid_page_id = 2 ^ 32 - 1

abbrev pub invalid_slot_offset : ℕ
invalid_slot_offset = 0

-- sizeof(PageHeader) and sizeof(Slot), which are packed.
abbrev pub header_size : ℕ
header_size = 8

abbrev pub slot_size : ℕ
slot_size = 4

pub record Slot : Type 0 where
  pub offset : ℕ
  pub length : ℕ

pub record SlottedPage : Type 0 where
  pub next_page_id : ℕ
  pub free_space_offset : ℕ
  pub slots : List Slot
  pub bytes : List ℕ

abbrev pub slot_count : SlottedPage → ℕ
slot_count p = length p.slots

abbrev pub is_live : Slot → Bool
is_live s = not (s.offset == invalid_slot_offset)

unfoldable pub init : SlottedPage → SlottedPage
init p = record p { next_page_id = invalid_page_id; free_space_offset = length p.bytes; slots = [] }

-- Where the directory ends.
abbrev pub slots_used : SlottedPage → ℕ
slots_used p = header_size + slot_size * slot_count p

-- `free_space_bytes() >= n`, in signed arithmetic.
abbrev pub has_free_space : SlottedPage → ℕ → Bool
has_free_space p n = leb (slots_used p + n) p.free_space_offset

-- The first index, counted from `i`, of a slot that is not live.
unfoldable pub find_empty : ℕ → List Slot → Option ℕ
find_empty i [] = none
find_empty i (s ∷ ss) = let rest = find_empty (suc i) ss in if is_live s then rest else some i

abbrev pub find_empty_slot : SlottedPage → Option ℕ
find_empty_slot p = find_empty 0 p.slots

-- A slot that exists and is empty, or does not exist.
abbrev pub is_empty : Option Slot → Bool
is_empty none = false
is_empty (some s) = not (is_live s)

abbrev pub live_slot : Option Slot → Option Slot
live_slot none = none
live_slot (some s) = if is_live s then some s else none

unfoldable pub has_slot : SlottedPage → ℕ → Bool
has_slot p i = elim (live_slot (get_elem? p.slots i)) [ none ↦ false | some _ ↦ true ]

unfoldable pub write_tuple : SlottedPage → ℕ → List ℕ → SlottedPage
write_tuple p i tuple =
    let n = length tuple % 2 ^ 16 in
    let offset = p.free_space_offset - n in
    record p {
      free_space_offset = offset;
      slots = set p.slots i (record { offset = offset; length = n });
      bytes = splice offset tuple p.bytes;
    }

unfoldable pub allocate_slot : SlottedPage → SlottedPage
allocate_slot p = record p {
  slots = p.slots ++ record { offset = invalid_slot_offset; length = 0 } ∷ [];
}

-- The preferred slot, if there is one and it is an empty slot of the page.
abbrev pub usable_slot : SlottedPage → Option ℕ → Option ℕ
usable_slot p none = none
usable_slot p (some i) = if is_empty (get_elem? p.slots i) then some i else none

-- The slot that a tuple goes to, and the page with room for it in the directory.
unfoldable pub choose_slot : SlottedPage → ℕ → Option ℕ → Option (ℕ × SlottedPage)
unfolding allocate_slot find_empty
choose_slot p n prefered = elim (usable_slot p prefered) [
  | some i ↦ some (i, p)
  | none ↦ elim (find_empty_slot p) [
    | some i ↦ some (i, p)
    | none ↦ if has_free_space p (n + slot_size) then some (slot_count p, allocate_slot p) else none
  ]
]

unfoldable pub insert_tuple : SlottedPage → List ℕ → Option ℕ → Option (ℕ × SlottedPage)
unfolding choose_slot write_tuple
insert_tuple p tuple prefered =
    if not (has_free_space p (length tuple % 2 ^ 16))
    then none
    else elim (choose_slot p (length tuple % 2 ^ 16) prefered) [
      | none ↦ none
      | some (i, q) ↦ some (i, write_tuple q i tuple)
    ]

-- An empty span stands for no tuple.
unfoldable pub get_tuple : SlottedPage → ℕ → List ℕ
get_tuple p i = elim (live_slot (get_elem? p.slots i)) [
  | none ↦ []
  | some s ↦ slice s.offset s.length p.bytes
]

unfoldable pub try_update_in_place : SlottedPage → ℕ → List ℕ → Option SlottedPage
try_update_in_place p i tuple = elim (live_slot (get_elem? p.slots i)) [
  | none ↦ none
  | some s ↦
      let n = length tuple % 2 ^ 16 in
      if ltb s.length n
      then none
      else some (record p {
        slots = set p.slots i (record s { length = n });
        bytes = splice s.offset tuple p.bytes;
      })
]

unfoldable pub delete_tuple : SlottedPage → ℕ → Option SlottedPage
delete_tuple p i = elim (live_slot (get_elem? p.slots i)) [
  | none ↦ none
  | some s ↦ some (record p { slots = set p.slots i (record s { offset = invalid_slot_offset }) })
]

unfoldable pub compacted_from : ℕ → List Slot → Bool
compacted_from next_offset [] = next_offset == page_size
compacted_from next_offset (s ∷ ss) =
    let rest =
      compacted_from (if is_live s then (next_offset + s.length) % 2 ^ 16 else next_offset) ss in
    if is_live s && not (next_offset == s.offset) then false else rest

unfoldable pub slots_compacted : List Slot → Bool
unfolding compacted_from
slots_compacted [] = true
slots_compacted (s ∷ ss) = compacted_from s.offset (s ∷ ss)

unfoldable pub is_compacted : SlottedPage → Bool
unfolding slots_compacted
is_compacted p = slots_compacted p.slots

-- The loop of `compact`: the new slots, the new offset, and the bytes from there to the end.
pub record Compacted : Type 0 where
  pub offset : ℕ
  pub slots : List Slot
  pub region : List ℕ

unfoldable pub compact_slots : List ℕ → ℕ → List ℕ → List Slot → Compacted
compact_slots bytes offset region [] = record { offset = offset; slots = []; region = region }
compact_slots bytes offset region (s ∷ ss) =
    let o = (offset + 2 ^ 16 - s.length) % 2 ^ 16 in
    let moved = compact_slots bytes o (slice s.offset s.length bytes ++ region) ss in
    let skipped = compact_slots bytes offset region ss in
    if is_live s
    then record moved { slots = record { offset = o; length = s.length } ∷ moved.slots }
    else record skipped {
      slots = record { offset = invalid_slot_offset; length = 0 } ∷ skipped.slots;
    }

unfoldable pub compact : SlottedPage → SlottedPage
unfolding compact_slots
compact p =
    let c = compact_slots p.bytes page_size [] p.slots in
    record p {
      free_space_offset = c.offset;
      slots = c.slots;
      bytes = replicate c.offset 0 ++ c.region;
    }

-- A failed `assert` is `none`.
unfoldable pub restore_tuple : SlottedPage → ℕ → List ℕ → Option SlottedPage
restore_tuple p i tuple =
    let n = length tuple % 2 ^ 16 in
    if not (is_empty (get_elem? p.slots i))
    then none
    else (let q = if has_free_space p n then p else compact p in
        elim (insert_tuple q tuple (some i)) [ none ↦ none | some (_, q') ↦ some q' ])

abbrev pub set_next_page : SlottedPage → ℕ → SlottedPage
set_next_page p page_id = record p { next_page_id = page_id }

abbrev pub has_next_page : SlottedPage → Bool
has_next_page p = not (p.next_page_id == invalid_page_id)

-- The first index, counted from `i`, of a live slot of the list that is at least `from`.
unfoldable pub next_live : ℕ → ℕ → List Slot → Option ℕ
next_live from i [] = none
next_live from i (s ∷ ss) =
    let rest = next_live from (suc i) ss in if leb from i && is_live s then some i else rest

unfoldable pub next_occupied_slot : SlottedPage → ℕ → Option ℕ
unfolding next_live
next_occupied_slot p i = next_live ((i + 1) % 2 ^ 16) 0 p.slots
