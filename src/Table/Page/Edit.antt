-- ===== src/Table/Page/Edit.antt =====
-- Deleting, updating in place and restoring a tuple.
use duck_duck_dbms.Common.{
  ℕ, ◌+◌, ◌<◌, ◌≡◌, ◌≢◌, refl, ap, ◌∙◌, ◌⊎◌, inl, inr, true, false, none, some, arith, ◌==◌,
  if◌then◌else◌, Option-cases, get_elem?, set, length-set, get_elem?-set, get_elem?-lt, ==_refl,
}
use duck_duck_dbms.Table.Page.{Slot, SlottedPage, slot_count, is_live, get_tuple, delete_tuple}
use duck_duck_dbms.Table.Page.Layout.{at, total, live_length, IsValid, total-set}

pub at-lt :
    (p : SlottedPage) (i : ℕ) {s : Slot}
    → at p i ≡ some s
    → (i < slot_count p) × (get_elem? p.slots i ≡ some s) × (is_live s ≡ true)
at-lt p i {s} h = elim (Option-cases (get_elem? p.slots i)) [
  | inl e ↦ cc (h, e)
  | inr (x, e) ↦
      let y : x ≡ s = ground arith in (get_elem?-lt p.slots i e, e ∙ ap some y, ground arith)
]

-- What a deletion promises.
pub record Deleted (p : SlottedPage) (i : ℕ) (q : SlottedPage) : Type 0 where
  pub gone : at q i ≡ none
  pub others : (j : ℕ) → i ≢ j → (at q j ≡ at p j) × (get_tuple q j ≡ get_tuple p j)
  pub count : slot_count q ≡ slot_count p
  pub freed : total q.slots + live_length (at p i) ≡ total p.slots
  pub valid : IsValid q

module _ (p : SlottedPage) (v : IsValid p) (i : ℕ) (s : Slot) (h : at p i ≡ some s) where
  abbrev dead_slot : Slot
  dead_slot = record s { offset = 0 }

  abbrev removed : SlottedPage
  removed = record p { slots = set p.slots i dead_slot }

  at-removed : (j : ℕ) → at removed j ≡ (if i == j then none else at p j)
  at-removed j = ground (arith, get_elem?-set p.slots i j dead_slot (at-lt p i h).0)

  removed-Deleted : Deleted p i removed
  removed-Deleted = record {
    gone = at-removed i ∙ rw (==_refl i);
    others = λ j ne.
        let e : (i == j) ≡ false = ground arith in
        let a : at removed j ≡ at p j = at-removed j ∙ rw e in
        (a, unfold get_tuple in ground (arith, a));
    count = length-set p.slots i dead_slot;
    freed = fewer;
    valid = record {
      sized = v.sized;
      directory = omega (arith, v.directory, length-set p.slots i dead_slot);
      room = omega (arith, v.room, fewer);
      within = λ j r g. ground (arith, at-removed j, v.within j r);
      apart = λ j k a b ne g g'. ground (arith, at-removed j, at-removed k, v.apart j k a b ne);
    };
  }
    where
      fewer : total removed.slots + live_length (at p i) ≡ total p.slots
      fewer = ground (arith, total-set p.slots i dead_slot (at-lt p i h).0)

-- Deleting from a valid page fails exactly when the slot has no tuple; when it succeeds the slot
-- has none, every other slot has its tuple still, and the page stays valid.
pub delete_tuple-Deleted :
    (p : SlottedPage) (i : ℕ)
    → IsValid p
    → ((delete_tuple p i ≡ none) × (at p i ≡ none))
      ⊎ ((q : SlottedPage) × (delete_tuple p i ≡ some q) × Deleted p i q)
unfolding delete_tuple
delete_tuple-Deleted p i v = elim (Option-cases (at p i)) [
  | inl e ↦ inl (rw (e, delete_tuple), e)
  | inr (s, e) ↦ inr (removed p v i s e, rw (e, delete_tuple) refl, removed-Deleted p v i s e)
]
