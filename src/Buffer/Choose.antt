-- ===== src/Buffer/Choose.antt =====
-- Which frame `find_next_frame` takes: one that is free, or the first that was never used, or the
-- frame of the least recently used page that nobody uses.
use duck_duck_dbms.Common.{
  ℕ, ◌+◌, ◌≤◌, ◌<◌, ◌≡◌, ◌≢◌, refl, sym, ◌∙◌, true, false, Option, none, some, List, [], ◌∷◌, ltb,
  ◌==◌, Option-cases, Bool-cases, inl, inr, ◌⊎◌, arith, ==_iff, ==_refl,
}
use duck_duck_dbms.Storage.Disk.{FileOps, pop_back}
use duck_duck_dbms.Storage.Disk.Allocation.{count, one, count-pop_back}
use duck_duck_dbms.Buffer.{Page, Pool, find_next_frame, find_lru, is_unpinned, invalid_page_id}
use duck_duck_dbms.Buffer.Invariant.{Inv, is_occupied, cached_occupied, cached_valid}

-- A page that find_lru gives has a frame, which nobody uses.
find_lru-is_unpinned :
    (table : ℕ → Option ℕ) (frames : ℕ → Page) (ps : List ℕ) (p : ℕ)
    → find_lru table frames ps ≡ some p
    → is_unpinned frames (table p) ≡ true
unfolding find_lru
find_lru-is_unpinned table frames [] p h = cc
find_lru-is_unpinned table frames (q ∷ ps) p h = elim (Bool-cases (is_unpinned frames (table q))) [
  | inl e ↦ let k : some q ≡ some p = sym (rw (find_lru, e) refl) ∙ h in cc (k, e)
  | inr e ↦
      let k : find_lru table frames ps ≡ some p = sym (rw (find_lru, e) refl) ∙ h in
      find_lru-is_unpinned table frames ps p k
]

unpinned_frame :
    (frames : ℕ → Page) (o : Option ℕ)
    → is_unpinned frames o ≡ true
    → (f : ℕ) × (o ≡ some f) × ((frames f).pin_count ≡ 0)
unpinned_frame frames none h = cc
unpinned_frame frames (some f) h = (f, refl, (==_iff (frames f).pin_count 0).0 h)

-- What holds of a frame that is taken, the free list that is left and the new size of the pool.
abbrev pub IsTaken : {File : Type 0} → Pool File → ℕ → List ℕ → ℕ → Type 0
IsTaken b f free n =
    (count f free ≡ 0)
    × (f < n)
    × (n ≤ b.pool_capacity)
    × ((g : ℕ) → f ≢ g → count g free + one (is_occupied (b.frames g)) ≤ one (ltb g n))
    × (is_occupied (b.frames f) ≡ true → (b.frames f).pin_count ≡ 0)

module _ {File : Type 0} (ops : FileOps File) (b : Pool File) (inv : Inv ops b) where
  from_free :
      (free : List ℕ) (f : ℕ)
      → pop_back b.free_frames_list ≡ some (free, f)
      → IsTaken b f free b.pool_size
  from_free free f e =
      let c = count-pop_back b.free_frames_list free f e in
      let s : (f == f) ≡ true = ==_refl f in
      let h : count f b.free_frames_list ≡ 1 + count f free = c f ∙ rw s refl in
      let x = inv.frame_once f in
      let y = inv.size in
      (
        ground (arith, h, x),
        ground (arith, h, x),
        y,
        (λ g ne. ground (arith, c g, inv.frame_once g, ne)),
        (λ o. ground (arith, h, x, o)),
      )

  from_new :
      pop_back b.free_frames_list ≡ none
      → ltb b.pool_size b.pool_capacity ≡ true
      → IsTaken b b.pool_size b.free_frames_list (b.pool_size + 1)
  from_new e l =
      let x = inv.frame_once b.pool_size in
      (
        ground (arith, x),
        omega arith,
        ground (arith, l),
        (λ g ne. ground (arith, inv.frame_once g, ne)),
        (λ o. ground (arith, x, o)),
      )

  from_lru :
      (p f : ℕ)
      → b.page_table p ≡ some f
      → (b.frames f).pin_count ≡ 0
      → IsTaken b f b.free_frames_list b.pool_size
  from_lru p f t z =
      let k = inv.table_frame p f t in
      let x = inv.frame_once f in
      let o : is_occupied (b.frames f) ≡ true = cached_occupied ops b inv p f t in
      (ground (arith, x, o), ground (arith, x, o), inv.size, (λ g ne. inv.frame_once g), (λ _. z))

  -- There is no frame and the pool is as before, or a frame is taken.
  pub find_next_frame_cases :
      (find_next_frame b ≡ (none, b))
      ⊎ ((f : ℕ) × (free : List ℕ) × (n : ℕ) × (find_next_frame b
            ≡ (some f, record b { free_frames_list = free; pool_size = n }))
          × IsTaken b f free n)
  unfolding find_next_frame
  find_next_frame_cases = elim (Option-cases (pop_back b.free_frames_list)) [
    | inr ((free, f), e) ↦
        inr (f, free, b.pool_size, rw (find_next_frame, e) refl, from_free free f e)
    | inl e ↦ elim (Bool-cases (ltb b.pool_size b.pool_capacity)) [
      | inl l ↦ inr (
        b.pool_size,
        b.free_frames_list,
        b.pool_size + 1,
        rw (find_next_frame, e, l) refl,
        from_new e l,
      )
      | inr l ↦ elim (Option-cases (find_lru b.page_table b.frames b.mru_pages)) [
        | inl z ↦ inl (rw (find_next_frame, e, l, z) refl)
        | inr (p, z) ↦
            let u = find_lru-is_unpinned b.page_table b.frames b.mru_pages p z in
            let (f, t, y) = unpinned_frame b.frames (b.page_table p) u in
            let v = cached_valid ops b inv p f t in
            let w : (p == invalid_page_id) ≡ false = ground (arith, v) in
            inr (
              f,
              b.free_frames_list,
              b.pool_size,
              rw (find_next_frame, e, l, z, w, t) refl,
              from_lru p f t y,
            )
      ]
    ]
  ]
