-- ===== src/Table/Page/Update.antt =====
-- Updating a tuple in place, and restoring a deleted one.
use duck_duck_dbms.Common.{
  ℕ, ◌%◌, ◌^◌, ◌≤◌, ◌<◌, ◌≡◌, ◌≢◌, refl, sym, ◌∙◌, ◌⊎◌, inl, inr, false, none, some, List, arith,
  ltb, ◌==◌, if◌then◌else◌, Bool-cases, Option-cases, length, set, length-set, get_elem?-set,
  ==_refl,
}
use duck_duck_dbms.Common.Slices.{
  slice, splice, length-splice, slice-splice_self, slice-splice_below, slice-splice_above,
}
use duck_duck_dbms.Table.Page.{Slot, SlottedPage, get_tuple, try_update_in_place}
use duck_duck_dbms.Table.Page.Layout.{
  at, total, Apart, IsValid, total-set, get_tuple_live, get_tuple_empty,
}
use duck_duck_dbms.Table.Page.Edit.{at-lt}

-- What an update in place promises.
pub record Updated (p : SlottedPage) (i : ℕ) (t : List ℕ) (q : SlottedPage) : Type 0 where
  pub reads : get_tuple q i ≡ t
  pub in_use : (s : Slot) × (at q i ≡ some s)
  pub others : (j : ℕ) → i ≢ j → (at q j ≡ at p j) × (get_tuple q j ≡ get_tuple p j)
  pub valid : IsValid q

module _ (p : SlottedPage) (v : IsValid p) (i : ℕ) (s : Slot) (h : at p i ≡ some s) (t : List ℕ)
    (short : length t ≤ s.length) where
  abbrev shorter : Slot
  shorter = record s { length = length t }

  abbrev overwritten : SlottedPage
  overwritten = record p { slots = set p.slots i shorter; bytes = splice s.offset t p.bytes }

  at-overwritten : (j : ℕ) → at overwritten j ≡ (if i == j then some shorter else at p j)
  at-overwritten j =
      ground (arith, get_elem?-set p.slots i j shorter (at-lt p i h).0, (at-lt p i h).2)

  less : total overwritten.slots ≤ total p.slots
  less = ground (arith, total-set p.slots i shorter (at-lt p i h).0, (at-lt p i h).2)

  kept_bytes :
      (r : Slot)
      → Apart s r
      → slice r.offset r.length (splice s.offset t p.bytes) ≡ slice r.offset r.length p.bytes
  kept_bytes r (inl a) = slice-splice_above r.offset r.length s.offset t p.bytes (omega arith)
  kept_bytes r (inr a) = slice-splice_below r.offset r.length s.offset t p.bytes (omega arith)

  kept_tuple : (j : ℕ) → i ≢ j → get_tuple overwritten j ≡ get_tuple p j
  kept_tuple j ne = elim (Option-cases (at p j)) [
    | inl e ↦
        get_tuple_empty overwritten j (at-overwritten j ∙ rw miss e) ∙ sym (get_tuple_empty p j e)
    | inr (r, e) ↦
        get_tuple_live overwritten j {s = r} (at-overwritten j ∙ rw miss e)
        ∙ kept_bytes r (v.apart i j s r ne h e)
        ∙ sym (get_tuple_live p j e)
  ]
    where
      miss : (i == j) ≡ false
      miss = ground arith

  overwritten-Updated : Updated p i t overwritten
  overwritten-Updated = record {
    reads =
        get_tuple_live overwritten i {s = shorter} (at-overwritten i ∙ rw (==_refl i))
        ∙ slice-splice_self s.offset t p.bytes (omega (arith, v.within i s h, v.sized));
    in_use = (shorter, at-overwritten i ∙ rw (==_refl i));
    others = λ j ne. ((at-overwritten j ∙ rw (miss j ne)), kept_tuple j ne);
    valid = record {
      sized = length-splice s.offset t p.bytes ∙ v.sized;
      directory = omega (arith, v.directory, length-set p.slots i shorter);
      room = omega (arith, v.room, less);
      within = λ j r g. ground (arith, at-overwritten j, v.within j r, v.within i s h);
      apart = λ j k a b ne g g'. ground (
        arith,
        at-overwritten j,
        at-overwritten k,
        v.apart j k a b ne,
        v.apart j k s b ne,
        v.apart j k a s ne,
        h,
      );
    };
  }
    where
      miss : (j : ℕ) → i ≢ j → (i == j) ≡ false
      miss j ne = ground arith

-- Updating in place a tuple of a valid page, by one whose length fits 16 bits, fails exactly when
-- the slot has no tuple or has a shorter one; when it succeeds the new tuple is read, every other
-- slot has its tuple still, and the page stays valid.
pub try_update_in_place-Updated :
    (p : SlottedPage) (i : ℕ) (t : List ℕ)
    → IsValid p
    → length t < 2 ^ 16
    → ((try_update_in_place p i t ≡ none)
        × ((at p i ≡ none) ⊎ ((s : Slot) × (at p i ≡ some s) × (s.length < length t))))
      ⊎ ((q : SlottedPage) × (try_update_in_place p i t ≡ some q) × Updated p i t q)
unfolding try_update_in_place
try_update_in_place-Updated p i t v small = elim (Option-cases (at p i)) [
  | inl e ↦ inl (rw (e, try_update_in_place), inl e)
  | inr (s, e) ↦ elim (Bool-cases (ltb s.length (length t))) [
    | inl b ↦ inl (rw (e, try_update_in_place) (rw (m, b)), inr (s, e, ground arith))
    | inr b ↦ inr (
      overwritten p v i s e t (ground arith),
      rw (e, try_update_in_place) (rw (m, b) refl),
      overwritten-Updated p v i s e t (ground arith),
    )
  ]
]
  where
    m : length t % 2 ^ 16 ≡ length t
    m = omega (arith, small)
