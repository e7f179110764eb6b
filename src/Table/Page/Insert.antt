-- ===== src/Table/Page/Insert.antt =====
-- Inserting a tuple: the page stays valid, the tuple is read back, the other tuples are untouched.
use mathlib.Core.Path.{subst}
use duck_duck_dbms.Common.{
  ℕ, ◌+◌, ◌-◌, ◌%◌, ◌^◌, ◌≤◌, ◌<◌, ◌≡◌, ◌≢◌, sym, ◌∙◌, inl, inr, true, false, Option, none, some,
  List, arith, ◌==◌, if◌then◌else◌, Bool-cases, Option-cases, length, length-set, get_elem?-set,
  ==_refl,
}
use duck_duck_dbms.Common.Slices.{splice, length-splice, slice-splice_self, slice-splice_above}
use duck_duck_dbms.Table.Page.{
  Slot, SlottedPage, page_size, slot_size, slots_used, has_free_space, write_tuple, choose_slot,
  insert_tuple, get_tuple,
}
use duck_duck_dbms.Table.Page.Layout.{
  at, total, IsValid, Chosen, total-set, choose_slot-Chosen, choose_slot_succeeds, get_tuple_live,
  get_tuple_empty,
}

-- A tuple is written at the end of the free space.
module _ (p : SlottedPage) (v : IsValid p) (t : List ℕ) (small : length t < 2 ^ 16) (i : ℕ)
    (q : SlottedPage) (c : Chosen p (length t) i q) where
  abbrev written : SlottedPage
  written = write_tuple q i t

  abbrev new_slot : Slot
  new_slot = record { offset = p.free_space_offset - length t; length = length t }

  length_mod : length t % 2 ^ 16 ≡ length t
  length_mod = omega (arith, small)

  at-written : (j : ℕ) → at written j ≡ (if i == j then some new_slot else at p j)
  unfolding write_tuple
  at-written j =
      rw (length_mod, c.offset)
        (ground (arith, get_elem?-set q.slots i j new_slot c.index, c.kept j, c.fits, c.offset))

  bytes-written : written.bytes ≡ splice new_slot.offset t p.bytes
  unfolding write_tuple
  bytes-written = rw (length_mod, c.offset, c.bytes)

  -- The place of the tuple, below every live tuple and behind the directory.
  place :
      (slots_used written ≤ new_slot.offset)
      × (new_slot.offset + length t ≡ p.free_space_offset)
      × (p.free_space_offset ≤ page_size)
  unfolding write_tuple
  place = (
    rw (length_mod, c.offset) (omega (arith, length-set q.slots i new_slot, c.fits, c.offset)),
    omega (arith, c.fits, c.offset),
    omega (arith, v.room),
  )

  get_tuple-written_self : get_tuple written i ≡ t
  get_tuple-written_self =
      get_tuple_live written i {s = new_slot} (at-written i ∙ rw (==_refl i))
      ∙ rw bytes-written
          (slice-splice_self new_slot.offset t p.bytes (omega (arith, place, v.sized)))

  get_tuple-written_other : (j : ℕ) → (i == j) ≡ false → get_tuple written j ≡ get_tuple p j
  get_tuple-written_other j e = elim (Option-cases (at p j)) [
    | inl h ↦ get_tuple_empty written j (at-written j ∙ rw e h) ∙ sym (get_tuple_empty p j h)
    | inr (s, h) ↦
        get_tuple_live written j {s = s} (at-written j ∙ rw e h)
        ∙ rw bytes-written (
            slice-splice_above s.offset s.length new_slot.offset t p.bytes
              (omega (arith, place, v.within j s h)))
        ∙ sym (get_tuple_live p j h)
  ]

  free-written : written.free_space_offset ≡ new_slot.offset
  unfolding write_tuple
  free-written = rw (length_mod, c.offset)

  total-written : total written.slots ≡ total p.slots + length t
  unfolding write_tuple
  total-written =
      rw (length_mod, c.offset)
        (ground (
          arith,
          total-set q.slots i new_slot c.index,
          c.kept i,
          c.free,
          c.same_total,
          c.fits,
          c.offset,
        ))

  written-IsValid : IsValid written
  written-IsValid = record {
    sized = rw bytes-written (length-splice new_slot.offset t p.bytes ∙ v.sized);
    directory = omega (arith, free-written, place);
    room = omega (arith, free-written, total-written, place, v.room);
    within = λ j s h. ground (arith, at-written j, v.within j s, place, free-written);
    apart = λ j k a b ne ha hb. ground (
      arith,
      at-written j,
      at-written k,
      place,
      v.within j a,
      v.within k b,
      v.within j b,
      v.within k a,
      v.apart j k a b ne,
    );
  }

-- What an insertion promises: a slot that had no tuple has the new one, every other slot has the
-- tuple that it had, and the page stays valid.
pub record Inserted (p : SlottedPage) (t : List ℕ) (i : ℕ) (q : SlottedPage) : Type 0 where
  pub was_free : at p i ≡ none
  pub in_use : (s : Slot) × (at q i ≡ some s)
  pub reads : get_tuple q i ≡ t
  pub others : (j : ℕ) → i ≢ j → (at q j ≡ at p j) × (get_tuple q j ≡ get_tuple p j)
  pub valid : IsValid q

module _ (p : SlottedPage) (v : IsValid p) (t : List ℕ) (small : length t < 2 ^ 16) where
  pub Chosen-Inserted :
      (i : ℕ) (q : SlottedPage) → Chosen p (length t) i q → Inserted p t i (write_tuple q i t)
  Chosen-Inserted i q c = record {
    was_free = c.free;
    in_use = (
      record { offset = p.free_space_offset - length t; length = length t },
      at-written p v t small i q c i ∙ rw (==_refl i),
    );
    reads = get_tuple-written_self p v t small i q c;
    others = λ j ne.
        let e : (i == j) ≡ false = ground arith in
        (at-written p v t small i q c j ∙ rw e, get_tuple-written_other p v t small i q c j e);
    valid = written-IsValid p v t small i q c;
  }

  abbrev mod_length : length t % 2 ^ 16 ≡ length t
  mod_length = omega (arith, small)

  pub insert_eq :
      (prefered : Option ℕ)
      → has_free_space p (length t) ≡ true
      → insert_tuple p t prefered ≡ elim (choose_slot p (length t) prefered) [
        | none ↦ none
        | some (i, q) ↦ some (i, write_tuple q i t)
      ]
  unfolding insert_tuple
  insert_eq prefered h = simp (mod_length, h)

  insert_tuple_chosen :
      (prefered : Option ℕ) (i : ℕ) (q : SlottedPage)
      → has_free_space p (length t) ≡ true
      → insert_tuple p t prefered ≡ some (i, q)
      → Inserted p t i q
  insert_tuple_chosen prefered i q b h = elim (Option-cases (choose_slot p (length t) prefered)) [
    | inl e ↦ cc (h, insert_eq prefered b, e)
    | inr ((j, r), e) ↦
        let x : ◌≡◌ {A = ℕ × SlottedPage} (j, write_tuple r j t) (i, q) =
          cc (h, insert_eq prefered b, e) in
        subst (λ (y : ℕ × SlottedPage). Inserted p t y.0 y.1) x
          (Chosen-Inserted j r (choose_slot-Chosen p (length t) b prefered e))
  ]

  -- Whenever `insert_tuple` succeeds on a valid page, with or without a preferred slot, the tuple
  -- went to a slot without a tuple and reads back, all others are untouched, and no two live tuples
  -- overlap, nor one the directory.
  pub insert_tuple-Inserted :
      (prefered : Option ℕ) (i : ℕ) (q : SlottedPage)
      → insert_tuple p t prefered ≡ some (i, q)
      → Inserted p t i q
  unfolding insert_tuple
  insert_tuple-Inserted prefered i q h = elim (Bool-cases (has_free_space p (length t))) [
    | inl b ↦ insert_tuple_chosen prefered i q b h
    | inr b ↦ let refused : insert_tuple p t prefered ≡ none = rw (mod_length, b) in cc (h, refused)
  ]

  -- With room for the tuple and for one more slot an insertion succeeds.
  pub insert_tuple_succeeds :
      (prefered : Option ℕ)
      → has_free_space p (length t + slot_size) ≡ true
      → (i : ℕ) × (q : SlottedPage) × (insert_tuple p t prefered ≡ some (i, q))
  insert_tuple_succeeds prefered h =
      let b : has_free_space p (length t) ≡ true = ground arith in
      let ((i, q), e) = choose_slot_succeeds p (length t) h prefered in
      (i, write_tuple q i t, cc (insert_eq prefered b, e))
