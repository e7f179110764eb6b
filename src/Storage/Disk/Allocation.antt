-- ===== src/Storage/Disk/Allocation.antt =====
-- No page is given out twice: the pages in use and the free list stay apart.
use duck_duck_dbms.Common.{
  ℕ, ◌+◌, ◌%◌, ◌^◌, ◌≤◌, ◌<◌, ◌≡◌, ◌≢◌, refl, Bool, true, false, none, some, List, [], ◌∷◌, ◌++◌,
  arith, ltb, ◌==◌, if◌then◌else◌, length, Option-cases, inl, inr, ok, err,
}
use mathlib.Core.Path.{subst}
use duck_duck_dbms.Storage.Disk.{
  DiskManager, metadata_page_id, pop_back, allocate_page, deallocate_page,
}

abbrev pub mark : ℕ → Bool → (ℕ → Bool) → ℕ → Bool
mark p b used q = if p == q then b else used q

abbrev pub count : ℕ → List ℕ → ℕ
count p [] = 0
count p (x ∷ xs) = (if x == p then 1 else 0) + count p xs

-- A disk manager, and the pages that its clients use, with the metadata page among them.
pub record Usage : Type 0 where
  pub disk : DiskManager
  pub used : ℕ → Bool

-- Clients allocate pages, and give back pages that they use.
pub data Request : Type 0 where
  allocates : Request
  deallocates : ℕ → Request

abbrev pub init : Usage
init = record { disk = record { capacity = 1; free_list = [] }; used = λ p. p == metadata_page_id }

unfoldable pub serve : Usage → Request → Usage
serve u allocates =
    let (page_id, disk) = allocate_page u.disk in
    record { disk = disk; used = mark page_id true u.used }
serve u (deallocates p) =
    if u.used p
    then elim (deallocate_page p u.disk) [
      | err e ↦ u
      | ok disk ↦ record { disk = disk; used = mark p false u.used }
    ]
    else u

unfoldable pub serve_all : Usage → List Request → Usage
serve_all u [] = u
serve_all u (r ∷ rs) = serve_all (serve u r) rs

abbrev pub one : Bool → ℕ
one b = if b then 1 else 0

-- A page below the capacity is free at most once, or in use; no other page is either.
abbrev pub Inv : Usage → Type 0
Inv u = (p : ℕ) → count p u.disk.free_list + one (u.used p) ≤ one (ltb p u.disk.capacity)

pub count-append : (p x : ℕ) (xs : List ℕ) → count p (xs ++ x ∷ []) ≡ count p (x ∷ xs)
count-append p x [] = refl
count-append p x (y ∷ xs) = ground (arith, count-append p x xs)

pop_back-nonempty : (x : ℕ) (xs : List ℕ) → pop_back (x ∷ xs) ≢ none
unfolding pop_back
pop_back-nonempty x xs h = elim (Option-cases (pop_back xs)) [
  | inl e ↦ cc (h, e)
  | inr (y, e) ↦ cc (h, e)
]

pub count-pop_back :
    (xs ys : List ℕ) (y : ℕ) → pop_back xs ≡ some (ys, y) → (p : ℕ) → count p xs ≡ count p (y ∷ ys)
unfolding pop_back
count-pop_back [] ys y h p = cc
count-pop_back (x ∷ []) ys y h p =
    let k : ◌≡◌ {A = List ℕ × ℕ} ([], x) (ys, y) = cc h in
    subst (λ (z : List ℕ × ℕ). count p (x ∷ []) ≡ count p (z.1 ∷ z.0)) k refl
count-pop_back (x ∷ w ∷ xs) ys y h p = elim (Option-cases (pop_back (w ∷ xs))) [
  | inl e ↦ absurd (pop_back-nonempty w xs e)
  | inr ((zs, z), e) ↦
      let k : ◌≡◌ {A = List ℕ × ℕ} (x ∷ zs, z) (ys, y) = cc (h, e) in
      subst (λ (v : List ℕ × ℕ). count p (x ∷ w ∷ xs) ≡ count p (v.1 ∷ v.0)) k
        (omega (arith, count-pop_back (w ∷ xs) zs z e p))
]

module _ (d : DiskManager) where
  allocate_page_new :
      pop_back d.free_list ≡ none
      → allocate_page d ≡ (d.capacity, record d { capacity = (d.capacity + 1) % 2 ^ 32 })
  unfolding allocate_page
  allocate_page_new e = rw (e, allocate_page)

  allocate_page_reused :
      (rest : List ℕ) (page_id : ℕ)
      → pop_back d.free_list ≡ some (rest, page_id)
      → allocate_page d ≡ (page_id, record d { free_list = rest })
  unfolding allocate_page
  allocate_page_reused rest page_id e = rw (e, allocate_page)

pub allocate_page-Inv : (u : Usage) → Inv u → u.disk.capacity + 1 < 2 ^ 32 → Inv (serve u allocates)
unfolding serve
allocate_page-Inv u v small p = elim (Option-cases (pop_back u.disk.free_list)) [
  | inl e ↦ rw (allocate_page_new u.disk e, serve) (ground (arith, v p, v u.disk.capacity))
  | inr ((rest, page_id), e) ↦
      rw (allocate_page_reused u.disk rest page_id e, serve)
        (ground (arith, v p, count-pop_back u.disk.free_list rest page_id e p))
]

pub deallocate_page-Inv : (u : Usage) (q : ℕ) → Inv u → Inv (serve u (deallocates q))
unfolding serve deallocate_page
deallocate_page-Inv u q v p = ground (arith, v p, count-append p q u.disk.free_list)

-- A page that is given out is not in use.
pub allocate_page_unused :
    (u : Usage)
    → Inv u
    → u.disk.capacity + 1 < 2 ^ 32
    → (u.used (allocate_page u.disk).0 ≡ false) × ((allocate_page u.disk).0 ≤ u.disk.capacity)
allocate_page_unused u v small = elim (Option-cases (pop_back u.disk.free_list)) [
  | inl e ↦ rw (allocate_page_new u.disk e) (ground (arith, v u.disk.capacity), omega arith)
  | inr ((rest, page_id), e) ↦
      let k = count-pop_back u.disk.free_list rest page_id e page_id in
      rw (allocate_page_reused u.disk rest page_id e)
        (ground (arith, v page_id, k), ground (arith, v page_id, k))
]

-- What holds between two requests.
record Sound (u : Usage) : Type 0 where
  inv : Inv u
  reserved : u.used metadata_page_id ≡ true

serve-Sound : (u : Usage) (r : Request) → Sound u → u.disk.capacity + 1 < 2 ^ 32 → Sound (serve u r)
unfolding serve deallocate_page
serve-Sound u allocates s small = record {
  inv = allocate_page-Inv u s.inv small;
  reserved = ground (arith, s.reserved);
}
serve-Sound u (deallocates q) s small = record {
  inv = deallocate_page-Inv u q s.inv;
  reserved = ground (arith, s.reserved);
}

pub capacity-serve :
    (u : Usage) (r : Request)
    → u.disk.capacity + 1 < 2 ^ 32
    → (serve u r).disk.capacity ≤ u.disk.capacity + 1
unfolding serve deallocate_page
capacity-serve u allocates small = elim (Option-cases (pop_back u.disk.free_list)) [
  | inl e ↦ rw (allocate_page_new u.disk e, serve) (ground arith)
  | inr ((rest, page_id), e) ↦ rw (allocate_page_reused u.disk rest page_id e, serve) (ground arith)
]
capacity-serve u (deallocates q) small = ground arith

serve_all-Sound :
    (u : Usage) (rs : List Request)
    → Sound u
    → u.disk.capacity + length rs < 2 ^ 32
    → Sound (serve_all u rs) × ((serve_all u rs).disk.capacity ≤ u.disk.capacity + length rs)
unfolding serve_all
serve_all-Sound u [] s small = (s, omega arith)
serve_all-Sound u (r ∷ rs) s small =
    let c = capacity-serve u r (omega (arith, small)) in
    let (t, d) =
      serve_all-Sound (serve u r) rs (serve-Sound u r s (omega (arith, small)))
        (omega (arith, c, small)) in
    (t, omega (arith, c, d))

init-Sound : Sound init
init-Sound = record { inv = λ p. ground arith; reserved = refl }

-- After any history of fewer than 2 ^ 32 - 2 requests to a new disk manager, in which clients give
-- back only pages that they use, each page below the capacity is free at most once and then not in
-- use, no other page is free or in use, and the metadata page is in use.
pub serve_all-Inv :
    (rs : List Request)
    → length rs + 2 < 2 ^ 32
    → Inv (serve_all init rs) × ((serve_all init rs).used metadata_page_id ≡ true)
serve_all-Inv rs small =
    let s = (serve_all-Sound init rs init-Sound (omega (arith, small))).0 in (s.inv, s.reserved)

-- After such a history an allocation gives out a page that is not in use, is not the metadata
-- page, and lies below the new capacity.
pub allocate_page_fresh :
    (rs : List Request)
    → length rs + 2 < 2 ^ 32
    → let u = serve_all init rs in
      let (page_id, disk) = allocate_page u.disk in
      (u.used page_id ≡ false) × (page_id ≢ metadata_page_id) × (page_id < disk.capacity)
allocate_page_fresh rs small =
    let (s, c) = serve_all-Sound init rs init-Sound (omega (arith, small)) in
    fresh (serve_all init rs) s (omega (arith, c, small))
  where
    fresh :
        (u : Usage)
        → Sound u
        → u.disk.capacity + 1 < 2 ^ 32
        → let (page_id, disk) = allocate_page u.disk in
          (u.used page_id ≡ false) × (page_id ≢ metadata_page_id) × (page_id < disk.capacity)
    fresh u s small = elim (Option-cases (pop_back u.disk.free_list)) [
      | inl e ↦ rw (allocate_page_new u.disk e) (
        ground (arith, s.inv u.disk.capacity),
        ground (arith, s.inv u.disk.capacity, s.reserved, s.inv 0),
        ground arith,
      )
      | inr ((rest, page_id), e) ↦
          let k = count-pop_back u.disk.free_list rest page_id e page_id in
          rw (allocate_page_reused u.disk rest page_id e) (
            ground (arith, s.inv page_id, k),
            ground (arith, s.inv page_id, k, s.reserved),
            ground (arith, s.inv page_id, k),
          )
    ]
