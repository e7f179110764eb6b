-- ===== src/Buffer/Clients.antt =====
-- Clients of a buffer pool, what they do, and what they keep.
use duck_duck_dbms.Common.{
  ℕ, ◌+◌, ◌^◌, ◌<◌, ◌≡◌, ◌≢◌, refl, sym, ap, ◌∙◌, inl, inr, Bool, true, false, Option, some, List,
  Option-cases, arith, ok, length, if◌then◌else◌,
}
use mathlib.Core.Path.{subst}
use duck_duck_dbms.Table.Page.{page_size}
use duck_duck_dbms.Storage.Disk.{FileOps, DiskManager, allocate_page, deallocate_page}
use duck_duck_dbms.Storage.Disk.Allocation
use duck_duck_dbms.Storage.Disk.Allocation.{
  Usage, mark, serve, allocates, deallocates, allocate_page-Inv, deallocate_page-Inv,
  allocate_page_unused, capacity-serve,
}
use duck_duck_dbms.Buffer.{
  Pool, invalid_page_id, put, fetch_page, new_page, delete_page, unpin_page, flush_all,
}
use duck_duck_dbms.Buffer.Invariant.{Inv, stored}
use duck_duck_dbms.Buffer.Origin.{OnlyAdds, DeleteAnswer}

-- A pool, and the pages that have been given out and not been given back.
pub record Clients (File : Type 0) : Type 0 where
  pub pool : Pool File
  pub used : ℕ → Bool

abbrev pub usage : {File : Type 0} → Clients File → Usage
usage c = record { disk = c.pool.disk; used = c.used }

served :
    {File : Type 0} (c : Clients File) (p : ℕ) (d : DiskManager)
    → c.used p ≡ true
    → deallocate_page p c.pool.disk ≡ ok d
    → serve (usage c) (deallocates p) ≡ record { disk = d; used = mark p false c.used }
unfolding serve
served c p d u e = rw (u, e) refl

deallocate_page-capacity :
    (p : ℕ) (d d' : DiskManager) → deallocate_page p d ≡ ok d' → d'.capacity ≡ d.capacity
unfolding deallocate_page
deallocate_page-capacity p d d' h = ground arith

module _ {File : Type 0} (ops : FileOps File) where
  -- What clients do with a pool, in calls that throw nothing. They fetch pages that they use, and
  -- delete such pages, after which they use them no more. They give back pins that they have, write to
  -- pages that they have pinned, and mark a page as dirty with the last pin when it is not as it is on
  -- the disk. Pins stay below 2^32 and so do pages.
  pub data Step : Clients File → Clients File → Type 0 where
    fetches :
        {c : Clients File} {b' : Pool File} (p : ℕ) (r : Option ℕ)
        → c.used p ≡ true
        → ((f : ℕ) → (c.pool.frames f).pin_count + 1 < 2 ^ 32)
        → fetch_page ops p c.pool ≡ (ok r, b')
        → Step c (record c { pool = b' })
    creates :
        {c : Clients File} {b' : Pool File} (r : Option ℕ)
        → c.pool.disk.capacity + 1 < 2 ^ 32
        → new_page ops c.pool ≡ (ok r, b')
        → Step c (record { pool = b'; used = mark (allocate_page c.pool.disk).0 true c.used })
    writes :
        {c : Clients File} (p f : ℕ) (bytes : List ℕ)
        → c.pool.page_table p ≡ some f
        → (c.pool.frames f).pin_count ≢ 0
        → length bytes ≡ page_size
        → Step c (record c {
          pool = record c.pool {
            frames = put f (record (c.pool.frames f) { bytes = bytes }) c.pool.frames;
          };
        })
    unpins :
        {c : Clients File} (p f : ℕ) (dirty : Bool)
        → c.pool.page_table p ≡ some f
        → (c.pool.frames f).pin_count ≢ 0
        → (c.pool.frames f).pin_count < 2 ^ 32
        → ((c.pool.frames f).pin_count ≡ 1
            → dirty ≡ false
            → (c.pool.frames f).is_dirty ≡ false
            → stored ops c.pool.disk c.pool.file p ≡ ok (c.pool.frames f).bytes)
        → Step c (record c { pool = unpin_page p dirty c.pool })
    deletes :
        {c : Clients File} {b' : Pool File} (p : ℕ) (r : Bool)
        → c.used p ≡ true
        → delete_page ops p c.pool ≡ (ok r, b')
        → Step c (record { pool = b'; used = if r then mark p false c.used else c.used })
    flushes :
        {c : Clients File} {b' : Pool File}
        → flush_all ops c.pool ≡ (ok tt, b')
        → Step c (record c { pool = b' })

  pub data Steps : Clients File → Clients File → Type 0 where
    start : {c : Clients File} → Steps c c
    followed : {c c' c'' : Clients File} → Steps c c' → Step c' c'' → Steps c c''

  -- The pool is well-formed, pages in use and free pages are apart, and only pages in use have frames.
  pub record IsKept (c : Clients File) : Type 0 where
    pub inv : Inv ops c.pool
    pub apart : Allocation.Inv (usage c)
    pub cached : (q g : ℕ) → c.pool.page_table q ≡ some g → c.used q ≡ true
    pub small : c.pool.disk.capacity < 2 ^ 32

  pub used_valid : (c : Clients File) → IsKept c → (p : ℕ) → c.used p ≡ true → p ≢ invalid_page_id
  used_valid c k p u e = let a = k.apart p in let s = k.small in ground (arith, a, s, u, e)

  -- A call that keeps the disk manager, and gives a frame to no page but one in use.
  pub adds-IsKept :
      (c : Clients File) (b' : Pool File) (p : ℕ)
      → IsKept c
      → Inv ops b'
      → OnlyAdds p c.pool b'
      → c.used p ≡ true
      → IsKept (record c { pool = b' })
  adds-IsKept c b' p k inv o u = record {
    inv = inv;
    apart = subst (λ d. Allocation.Inv (record { disk = d; used = c.used })) (sym o.disk) k.apart;
    cached = λ q g t. elim (o.origin q g t) [
      | inl e ↦ sym (ap c.used e) ∙ u
      | inr (g', t') ↦ k.cached q g' t'
    ];
    small = subst (λ (d : DiskManager). d.capacity < 2 ^ 32) (sym o.disk) k.small;
  }

  -- A call that keeps the disk manager and the page table.
  pub same-IsKept :
      (c : Clients File) (b' : Pool File)
      → IsKept c
      → Inv ops b'
      → b'.disk ≡ c.pool.disk
      → b'.page_table ≡ c.pool.page_table
      → IsKept (record c { pool = b' })
  same-IsKept c b' k inv d t = record {
    inv = inv;
    apart = subst (λ x. Allocation.Inv (record { disk = x; used = c.used })) (sym d) k.apart;
    cached = λ q g u. k.cached q g (sym (ap (λ x. x q) t) ∙ u);
    small = subst (λ (x : DiskManager). x.capacity < 2 ^ 32) (sym d) k.small;
  }

  pub unpin_page-keeps :
      (p : ℕ) (dirty : Bool) (b : Pool File)
      → ((unpin_page p dirty b).disk ≡ b.disk) × ((unpin_page p dirty b).page_table ≡ b.page_table)
  unfolding unpin_page
  unpin_page-keeps p dirty b = elim (Option-cases (b.page_table p)) [
    | inl t ↦ rw (unpin_page, t) (refl, refl)
    | inr (f, t) ↦ rw (unpin_page, t) (refl, refl)
  ]

  pub deleted-IsKept :
      (c : Clients File) (b' : Pool File) (p : ℕ) (r : Bool)
      → IsKept c
      → c.used p ≡ true
      → Inv ops b'
      → DeleteAnswer p c.pool r b'
      → IsKept (record { pool = b'; used = if r then mark p false c.used else c.used })
  deleted-IsKept c b' p false k u inv e =
      same-IsKept c b' k inv (ap (λ (x : Pool File). x.disk) e)
        (ap (λ (x : Pool File). x.page_table) e)
  deleted-IsKept c b' p true k u inv a = record {
    inv = inv;
    apart =
        subst Allocation.Inv (served c p b'.disk u a.given)
          (deallocate_page-Inv (usage c) p k.apart);
    cached =
        λ q g t. let (ne, w) = a.origin q g t in let x = k.cached q g w in ground (arith, ne, x);
    small =
        let e = deallocate_page-capacity p c.pool.disk b'.disk a.given in
        let s = k.small in omega (arith, e, s);
  }
