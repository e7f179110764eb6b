-- ===== src/Table/Page/Compact.antt =====
-- Compaction keeps every tuple and leaves no gap.
use mathlib.Core.Path.{subst}
use duck_duck_dbms.Common.{
  ◌↔◌, ℕ, zero, suc, ◌+◌, ◌-◌, ◌%◌, ◌^◌, ◌≤◌, ◌≡◌, ◌≢◌, refl, sym, ap, ◌∙◌, inl, inr, true, false,
  Option, none, some, List, [], ◌∷◌, ◌++◌, arith, Bool-cases, Option-cases, length, get_elem?,
  length-append, length-replicate, replicate,
}
use duck_duck_dbms.Common.Slices.{slice, length-slice, slice-append_left, slice-append_right}
use duck_duck_dbms.Table.Page.{
  Slot, SlottedPage, Compacted, page_size, header_size, slot_count, is_live, live_slot, get_tuple,
  compact_slots, compact,
}
use duck_duck_dbms.Table.Page.Layout.{at, total, Apart, IsValid, get_tuple_live, get_tuple_empty}

abbrev at_slot : List Slot → ℕ → Option Slot
at_slot ss j = live_slot (get_elem? ss j)

-- Where the loop puts the tuple of a slot.
abbrev Placed : List ℕ → ℕ → Slot → Compacted → ℕ → Type 0
Placed bytes top s c j =
    (s' : Slot) × (at_slot c.slots j ≡ some s')
    × (s'.length ≡ s.length)
    × (c.offset ≤ s'.offset)
    × (s'.offset + s'.length ≤ top)
    × (slice (s'.offset - c.offset) s'.length c.region ≡ slice s.offset s.length bytes)

record Moved (bytes : List ℕ) (top : ℕ) (region : List ℕ) (ss : List Slot) (c : Compacted)
    : Type 0 where
  count : length c.slots ≡ length ss
  offset : c.offset + total ss ≡ top
  grown : length c.region ≡ length region + total ss
  same_total : total c.slots ≡ total ss
  behind : (x n : ℕ) → slice (x + total ss) n c.region ≡ slice x n region
  live : (j : ℕ) (s : Slot) → at_slot ss j ≡ some s → Placed bytes top s c j
  dead : (j : ℕ) → at_slot ss j ≡ none → at_slot c.slots j ≡ none
  below :
      (j : ℕ) (s : Slot)
      → at_slot c.slots j ≡ some s
      → (c.offset ≤ s.offset) × (s.offset + s.length ≤ top)
  apart :
      (j k : ℕ) (a b : Slot)
      → j ≢ k
      → at_slot c.slots j ≡ some a
      → at_slot c.slots k ≡ some b
      → Apart a b

-- The tuples lie inside the page.
abbrev Inside : List ℕ → List Slot → Type 0
Inside bytes ss = (j : ℕ) (s : Slot) → at_slot ss j ≡ some s → s.offset + s.length ≤ length bytes

module _ (bytes : List ℕ) (top : ℕ) (region : List ℕ) (s : Slot) (ss : List Slot)
    (c : Compacted) where
  abbrev skipped : Compacted
  skipped = record c { slots = record { offset = 0; length = 0 } ∷ c.slots }

  skip-Moved :
      is_live s ≡ false → Moved bytes top region ss c → Moved bytes top region (s ∷ ss) skipped
  skip-Moved e m = record {
    count = ap suc m.count;
    offset = ground (arith, m.offset);
    grown = ground (arith, m.grown);
    same_total = ground (arith, m.same_total);
    behind = λ x n. ground (arith, m.behind x n);
    live = live;
    dead = dead;
    below = below;
    apart = apart;
  }
    where
      live : (j : ℕ) (r : Slot) → at_slot (s ∷ ss) j ≡ some r → Placed bytes top r skipped j
      live zero r h = ground arith
      live (suc j) r h = m.live j r h

      dead : (j : ℕ) → at_slot (s ∷ ss) j ≡ none → at_slot skipped.slots j ≡ none
      dead zero h = refl
      dead (suc j) h = m.dead j h

      below :
          (j : ℕ) (r : Slot)
          → at_slot skipped.slots j ≡ some r
          → (c.offset ≤ r.offset) × (r.offset + r.length ≤ top)
      below zero r h = cc
      below (suc j) r h = m.below j r h

      apart :
          (j k : ℕ) (a b : Slot)
          → j ≢ k
          → at_slot skipped.slots j ≡ some a
          → at_slot skipped.slots k ≡ some b
          → Apart a b
      apart zero k a b ne h g = cc
      apart (suc j) zero a b ne h g = cc
      apart (suc j) (suc k) a b ne h g = m.apart j k a b (λ e. ne (ap suc e)) h g

  abbrev low : ℕ
  low = top - s.length

  abbrev place : Slot
  place = record { offset = low; length = s.length }

  abbrev moved : Compacted
  moved = record c { slots = place ∷ c.slots }

  abbrev taken : List ℕ
  taken = slice s.offset s.length bytes

  move-Moved :
      is_live s ≡ true
      → s.length + total ss + header_size ≤ top
      → length taken ≡ s.length
      → Moved bytes low (taken ++ region) ss c
      → Moved bytes top region (s ∷ ss) moved
  move-Moved e room len m = record {
    count = ap suc m.count;
    offset = ground (arith, m.offset);
    grown = ground (arith, m.grown, length-append taken region);
    same_total = ground (arith, m.same_total, m.offset);
    behind = behind;
    live = live;
    dead = dead;
    below = below;
    apart = apart;
  }
    where
      behind : (x n : ℕ) → slice (x + total (s ∷ ss)) n c.region ≡ slice x n region
      behind x n =
          ap (λ k. slice k n c.region) (ground arith)
          ∙ m.behind (x + s.length) n
          ∙ slice-append_right (x + s.length) x n taken region (omega (arith, len))

      head : slice (low - c.offset) s.length c.region ≡ taken
      head =
          ap (λ k. slice k s.length c.region) (omega (arith, m.offset))
          ∙ m.behind 0 s.length
          ∙ slice-append_left s.length taken region (sym len)

      live : (j : ℕ) (r : Slot) → at_slot (s ∷ ss) j ≡ some r → Placed bytes top r moved j
      live zero r h =
          let x : s ≡ r = ground arith in
          subst (λ y. Placed bytes top y moved 0) x
            (place, ground arith, refl, omega (arith, m.offset), omega arith, head)
      live (suc j) r h = let (t, a, b, d, f, g) = m.live j r h in (t, a, b, d, omega (arith, f), g)

      dead : (j : ℕ) → at_slot (s ∷ ss) j ≡ none → at_slot moved.slots j ≡ none
      dead zero h = ground arith
      dead (suc j) h = m.dead j h

      below :
          (j : ℕ) (r : Slot)
          → at_slot moved.slots j ≡ some r
          → (c.offset ≤ r.offset) × (r.offset + r.length ≤ top)
      below zero r h = ground (arith, m.offset)
      below (suc j) r h = omega (arith, m.below j r h)

      apart :
          (j k : ℕ) (a b : Slot)
          → j ≢ k
          → at_slot moved.slots j ≡ some a
          → at_slot moved.slots k ≡ some b
          → Apart a b
      apart zero zero a b ne h g = absurd (ne refl)
      apart zero (suc k) a b ne h g = ground (arith, m.below k b g)
      apart (suc j) zero a b ne h g = ground (arith, m.below j a h)
      apart (suc j) (suc k) a b ne h g = m.apart j k a b (λ e. ne (ap suc e)) h g

compact_slots-Moved :
    (bytes : List ℕ) (top : ℕ) (region : List ℕ) (ss : List Slot)
    → total ss + header_size ≤ top
    → top ≤ page_size
    → Inside bytes ss
    → Moved bytes top region ss (compact_slots bytes top region ss)
unfolding compact_slots
compact_slots-Moved bytes top region [] room fits inside = record {
  count = refl;
  offset = omega arith;
  grown = omega arith;
  same_total = refl;
  behind = λ x n. ap (λ k. slice k n region) (omega arith);
  live = λ j s h. cc;
  dead = λ j h. refl;
  below = λ j s h. cc;
  apart = λ j k a b ne h g. cc;
}
compact_slots-Moved bytes top region (s ∷ ss) room fits inside = elim (Bool-cases (is_live s)) [
  | inl e ↦
      let len : length (slice s.offset s.length bytes) ≡ s.length =
        length-slice s.offset s.length bytes (inside 0 s (rw e)) in
      let o : (top + 2 ^ 16 - s.length) % 2 ^ 16 ≡ top - s.length = ground arith in
      rw e (
        rw o (
          move-Moved bytes top region s ss _ e (ground arith) len (
            compact_slots-Moved bytes (top - s.length) (slice s.offset s.length bytes ++ region) ss
              (ground arith) (omega arith) (λ j. inside (suc j)))))
  | inr e ↦ rw e (
      skip-Moved bytes top region s ss _ e
        (compact_slots-Moved bytes top region ss (ground arith) fits (λ j. inside (suc j))))
]

-- What a compaction promises: the same slots are in use and read as before, the page stays valid,
-- and all that is not directory or tuple is free space.
pub record IsCompactionOf (p q : SlottedPage) : Type 0 where
  pub reads : (j : ℕ) → get_tuple q j ≡ get_tuple p j
  pub in_use : (j : ℕ) → (at p j ≡ none) ↔ (at q j ≡ none)
  pub count : slot_count q ≡ slot_count p
  pub no_gap : q.free_space_offset + total p.slots ≡ page_size
  pub next : q.next_page_id ≡ p.next_page_id
  pub valid : IsValid q

module _ (p : SlottedPage) (v : IsValid p) where
  abbrev c : Compacted
  c = compact_slots p.bytes page_size [] p.slots

  done : Moved p.bytes page_size [] p.slots c
  done =
      compact_slots-Moved p.bytes page_size [] p.slots (omega (arith, v.room, v.directory))
        (omega arith) (λ j s h. omega (arith, v.within j s h, v.sized))

  read_moved :
      (s : Slot)
      → c.offset ≤ s.offset
      → slice s.offset s.length (replicate c.offset 0 ++ c.region)
        ≡ slice (s.offset - c.offset) s.length c.region
  read_moved s h =
      slice-append_right s.offset (s.offset - c.offset) s.length (replicate c.offset 0) c.region
        (omega (arith, length-replicate {A = ℕ} c.offset 0))

  reads : (j : ℕ) → get_tuple (compact p) j ≡ get_tuple p j
  unfolding compact
  reads j = elim (Option-cases (at p j)) [
    | inl e ↦ get_tuple_empty (compact p) j (done.dead j e) ∙ sym (get_tuple_empty p j e)
    | inr (s, e) ↦
        let (s', a, b, d, f, g) = done.live j s e in
        get_tuple_live (compact p) j a ∙ read_moved s' d ∙ g ∙ sym (get_tuple_live p j e)
  ]

  in_use : (j : ℕ) → (at p j ≡ none) ↔ (at (compact p) j ≡ none)
  unfolding compact
  in_use j = elim (Option-cases (at p j)) [
    | inl e ↦ (λ _. done.dead j e, λ _. e)
    | inr (s, e) ↦ let (s', a, _, _, _, _) = done.live j s e in (λ h. cc (h, e), λ h. cc (h, a))
  ]

  compact-IsValid : IsValid (compact p)
  unfolding compact
  compact-IsValid = record {
    sized =
        length-append (replicate c.offset 0) c.region
        ∙ omega (arith, length-replicate {A = ℕ} c.offset 0, done.grown, done.offset);
    directory = omega (arith, done.count, done.offset, v.room, v.directory);
    room = omega (arith, done.same_total, done.offset);
    within = done.below;
    apart = done.apart;
  }

  -- Compacting a valid page changes no tuple, frees all the space that is not in use, and leaves a
  -- valid page.
  pub compact-IsCompactionOf : IsCompactionOf p (compact p)
  unfolding compact
  compact-IsCompactionOf = record {
    reads = reads;
    in_use = in_use;
    count = done.count;
    no_gap = done.offset;
    next = refl;
    valid = compact-IsValid;
  }
