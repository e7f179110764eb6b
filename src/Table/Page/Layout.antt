-- ===== src/Table/Page/Layout.antt =====
-- The layout of a page: no tuple reaches into the directory or into another tuple.
use mathlib.Core.Path.{subst}
use duck_duck_dbms.Common.{
  ℕ, zero, suc, ◌+◌, ◌≤◌, ◌<◌, ◌≡◌, ◌≢◌, refl, ◌⊎◌, inl, inr, true, Option, none, some, List, [],
  ◌∷◌, ◌++◌, arith, if◌then◌else◌, Bool-cases, Option-cases, length, get_elem?, set, length-append,
  get_elem?-append_last, get_elem?-lt, get_elem?_beyond,
}
use duck_duck_dbms.Common.Slices.{slice}
use duck_duck_dbms.Table.Page.{
  Slot, SlottedPage, init, page_size, slot_size, slot_count, slots_used, is_live, live_slot,
  has_free_space, find_empty, find_empty_slot, usable_slot, allocate_slot, choose_slot, get_tuple,
}

-- The live slot at an index.
abbrev pub at : SlottedPage → ℕ → Option Slot
at p i = live_slot (get_elem? p.slots i)

-- The bytes that live tuples take.
abbrev pub live_length : Option Slot → ℕ
live_length none = 0
live_length (some s) = s.length

abbrev pub total : List Slot → ℕ
total [] = 0
total (s ∷ ss) = (if is_live s then s.length else 0) + total ss

abbrev pub Apart : Slot → Slot → Type 0
Apart a b = (a.offset + a.length ≤ b.offset) ⊎ (b.offset + b.length ≤ a.offset)

pub record IsValid (p : SlottedPage) : Type 0 where
  pub sized : length p.bytes ≡ page_size
  pub directory : slots_used p ≤ p.free_space_offset
  pub room : total p.slots + p.free_space_offset ≤ page_size
  pub within :
      (i : ℕ) (s : Slot)
      → at p i ≡ some s
      → (p.free_space_offset ≤ s.offset) × (s.offset + s.length ≤ page_size)
  pub apart : (i j : ℕ) (a b : Slot) → i ≢ j → at p i ≡ some a → at p j ≡ some b → Apart a b

pub total-set :
    (ss : List Slot) (i : ℕ) (s : Slot)
    → i < length ss
    → total (set ss i s) + live_length (live_slot (get_elem? ss i))
      ≡ total ss + live_length (live_slot (some s))
total-set [] i s h = elim h [ ]
total-set (x ∷ ss) zero s h = ground arith
total-set (x ∷ ss) (suc i) s h = ground (arith, total-set ss i s (omega arith))

total-append_empty :
    (ss : List Slot) → total (ss ++ record { offset = 0; length = 0 } ∷ []) ≡ total ss
total-append_empty [] = refl
total-append_empty (s ∷ ss) = ground (arith, total-append_empty ss)

find_empty-at :
    (k i : ℕ) (ss : List Slot)
    → find_empty k ss ≡ some i
    → (m : ℕ) × (i ≡ k + m) × (m < length ss) × (live_slot (get_elem? ss m) ≡ none)
unfolding find_empty
find_empty-at k i [] h = cc
find_empty-at k i (s ∷ ss) h = elim (Bool-cases (is_live s)) [
  | inl e ↦
      let (m, f, l, g) = find_empty-at (suc k) i ss (rw e at h) in
      (suc m, omega (arith, f), omega (arith, l), g)
  | inr e ↦ (0, ground arith, omega arith, rw e)
]

-- What `choose_slot` promises: an index of the directory with no live tuple, room for the tuple
-- behind the directory, and nothing moved.
pub record Chosen (p : SlottedPage) (n i : ℕ) (q : SlottedPage) : Type 0 where
  pub index : i < slot_count q
  pub free : at p i ≡ none
  pub kept : (j : ℕ) → at q j ≡ at p j
  pub offset : q.free_space_offset ≡ p.free_space_offset
  pub bytes : q.bytes ≡ p.bytes
  pub same_total : total q.slots ≡ total p.slots
  pub fits : slots_used q + n ≤ q.free_space_offset

module _ (p : SlottedPage) (n : ℕ) (space : has_free_space p n ≡ true) where
  usable_slot-at :
      (prefered : Option ℕ) (i : ℕ)
      → usable_slot p prefered ≡ some i
      → (i < slot_count p) × (at p i ≡ none)
  usable_slot-at none i h = cc
  usable_slot-at (some j) i h = elim (Option-cases (get_elem? p.slots j)) [
    | inl e ↦ ground arith
    | inr (s, e) ↦ ground (arith, get_elem?-lt p.slots j e)
  ]

  Chosen-here : (i : ℕ) → i < slot_count p → at p i ≡ none → Chosen p n i p
  Chosen-here i l e = record {
    index = l;
    free = e;
    kept = λ j. refl;
    offset = refl;
    bytes = refl;
    same_total = refl;
    fits = ground arith;
  }

  Chosen-new : has_free_space p (n + slot_size) ≡ true → Chosen p n (slot_count p) (allocate_slot p)
  unfolding allocate_slot
  Chosen-new h = record {
    index = omega (arith, length-append p.slots (record { offset = 0; length = 0 } ∷ []));
    free = rw (get_elem?_beyond p.slots (slot_count p) (omega arith));
    kept = λ j. ground (
      arith,
      get_elem?-append_last p.slots (record { offset = 0; length = 0 }) j,
      get_elem?_beyond p.slots (slot_count p),
    );
    offset = refl;
    bytes = refl;
    same_total = total-append_empty p.slots;
    fits = ground (arith, length-append p.slots (record { offset = 0; length = 0 } ∷ []));
  }

  Chosen-path :
      (prefered : Option ℕ) {i j : ℕ} {q r : SlottedPage}
      → choose_slot p n prefered ≡ some (i, q)
      → choose_slot p n prefered ≡ some (j, r)
      → Chosen p n j r
      → Chosen p n i q
  Chosen-path prefered {i} {j} {q} {r} h e c =
      let x : ◌≡◌ {A = ℕ × SlottedPage} (j, r) (i, q) = cc (e, h) in
      subst (λ (x : ℕ × SlottedPage). Chosen p n x.0 x.1) x c

  pub choose_slot-Chosen :
      (prefered : Option ℕ) {i : ℕ} {q : SlottedPage}
      → choose_slot p n prefered ≡ some (i, q)
      → Chosen p n i q
  unfolding choose_slot
  choose_slot-Chosen prefered {i} {q} h = elim (Option-cases (usable_slot p prefered)) [
    | inr (j, e) ↦
        let (l, g) = usable_slot-at prefered j e in
        Chosen-path prefered h (rw (e, choose_slot)) (Chosen-here j l g)
    | inl e ↦ elim (Option-cases (find_empty_slot p)) [
      | inr (j, f) ↦
          let (m, k, l, g) = find_empty-at 0 j p.slots f in
          Chosen-path prefered h (rw (e, choose_slot) (rw (f, choose_slot)))
            (Chosen-here j (omega (arith, k, l)) (ground (arith, k, g)))
      | inl f ↦ elim (Bool-cases (has_free_space p (n + slot_size))) [
        | inl b ↦
            Chosen-path prefered h (rw (e, choose_slot) (rw (f, choose_slot) (rw b))) (Chosen-new b)
        | inr b ↦
            let refused : choose_slot p n prefered ≡ none =
              rw (e, choose_slot) (rw (f, choose_slot) (rw b)) in
            cc (h, refused)
      ]
    ]
  ]

-- A tuple is read where its slot says.
pub get_tuple_live :
    (p : SlottedPage) (i : ℕ) {s : Slot}
    → at p i ≡ some s
    → get_tuple p i ≡ slice s.offset s.length p.bytes
unfolding get_tuple
get_tuple_live p i h = rw (h, get_tuple)

pub get_tuple_empty : (p : SlottedPage) (i : ℕ) → at p i ≡ none → get_tuple p i ≡ []
unfolding get_tuple
get_tuple_empty p i h = rw (h, get_tuple)

pub choose_slot_succeeds :
    (p : SlottedPage) (n : ℕ)
    → has_free_space p (n + slot_size) ≡ true
    → (prefered : Option ℕ) → (x : ℕ × SlottedPage) × (choose_slot p n prefered ≡ some x)
unfolding choose_slot
choose_slot_succeeds p n h prefered = elim (Option-cases (usable_slot p prefered)) [
  | inr (j, e) ↦ ((j, p), rw (e, choose_slot) refl)
  | inl e ↦ elim (Option-cases (find_empty_slot p)) [
    | inr (j, f) ↦ ((j, p), rw (e, choose_slot) (rw (f, choose_slot) refl))
    | inl f ↦
        ((slot_count p, allocate_slot p), rw (e, choose_slot) (rw (f, choose_slot) (rw h refl)))
  ]
]

-- A page with no slots, what `init` leaves, is valid.
pub init-IsValid : (p : SlottedPage) → length p.bytes ≡ page_size → IsValid (init p)
unfolding init
init-IsValid p h = record {
  sized = h;
  directory = omega (arith, h);
  room = omega (arith, h);
  within = λ i s e. cc;
  apart = λ i j a b ne e f. cc;
}
