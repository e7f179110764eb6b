-- ===== src/Buffer/Steps.antt =====
-- Any use of a buffer pool by clients that keep to their pages keeps it well-formed.
use duck_duck_dbms.Common.{
  ℕ, ◌+◌, ◌^◌, ◌<◌, ◌≡◌, ◌≢◌, refl, sym, ap, ◌∙◌, inl, inr, true, false, Option, none, some,
  Option-cases, arith, ok,
}
use mathlib.Core.Path.{subst}
use duck_duck_dbms.Storage.Disk.{FileOps, DiskManager, allocate_page}
use duck_duck_dbms.Storage.Disk.Pages.{IsFile}
use duck_duck_dbms.Storage.Disk.Allocation
use duck_duck_dbms.Storage.Disk.Allocation.{
  Usage, mark, serve, allocates, deallocates, allocate_page-Inv, deallocate_page-Inv,
  allocate_page_unused, capacity-serve,
}
use duck_duck_dbms.Buffer.{Pool, make_pool, invalid_page_id, fetch_page, new_page}
use duck_duck_dbms.Buffer.Invariant.{Inv, IsBounded}
use duck_duck_dbms.Buffer.Swap.{swap_page-IsSwapped}
use duck_duck_dbms.Buffer.Keep.{IsFilled-Inv}
use duck_duck_dbms.Buffer.Pins.{written-Inv, unpinned-Inv}
use duck_duck_dbms.Buffer.Fetch.{fetch_page-IsAnswer}
use duck_duck_dbms.Buffer.Disks.{grown-Inv, allocate_page_grows}
use duck_duck_dbms.Buffer.Delete.{delete_page-Inv}
use duck_duck_dbms.Buffer.Flush.{flush_all-IsFlushed, flush_frames-IsFlushed}
use duck_duck_dbms.Buffer.Origin.{swap_page-OnlyAdds, fetch_page-OnlyAdds, delete_page-Answer}
use duck_duck_dbms.Buffer.Clients.{
  Clients, usage, Step, fetches, creates, writes, unpins, deletes, flushes, Steps, start, followed,
  IsKept, used_valid, adds-IsKept, same-IsKept, unpin_page-keeps, deleted-IsKept,
}

module _ {File : Type 0} (ops : FileOps File) where
  module _ (is_file : IsFile ops) (bounded : IsBounded ops) where
    new_page-Inv :
        (b b' : Pool File) (r : Option ℕ)
        → Inv ops b
        → b.disk.capacity + 1 < 2 ^ 32
        → (allocate_page b.disk).0 ≢ invalid_page_id
        → b.page_table (allocate_page b.disk).0 ≡ none
        → new_page ops b ≡ (ok r, b')
        → Inv ops b'
    unfolding new_page
    new_page-Inv b b' none inv c v t h =
        let b0 = record b { disk = (allocate_page b.disk).1 } in
        let g = grown-Inv ops b (allocate_page b.disk).1 inv (allocate_page_grows b.disk c) in
        let e =
          swap_page-IsSwapped ops is_file bounded b0 g (allocate_page b.disk).0 false none b' h in
        subst (Inv ops) (sym e) g
    new_page-Inv b b' (some f) inv c v t h =
        let b0 = record b { disk = (allocate_page b.disk).1 } in
        let g = grown-Inv ops b (allocate_page b.disk).1 inv (allocate_page_grows b.disk c) in
        let (s, _) =
          swap_page-IsSwapped ops is_file bounded b0 g (allocate_page b.disk).0 false (some f) b'
            h in
        IsFilled-Inv ops b0 g (allocate_page b.disk).0 f b' v t s

    fetch_page-Inv :
        (b b' : Pool File) (p : ℕ) (r : Option ℕ)
        → Inv ops b
        → p ≢ invalid_page_id
        → ((f : ℕ) → (b.frames f).pin_count + 1 < 2 ^ 32)
        → fetch_page ops p b ≡ (ok r, b')
        → Inv ops b'
    fetch_page-Inv b b' p none inv v c h =
        subst (Inv ops) (sym (fetch_page-IsAnswer ops b inv p is_file bounded v c none b' h)) inv
    fetch_page-Inv b b' p (some f) inv v c h =
        (fetch_page-IsAnswer ops b inv p is_file bounded v c (some f) b' h).inv

    created-IsKept :
        (c : Clients File) (b' : Pool File) (r : Option ℕ)
        → IsKept ops c
        → c.pool.disk.capacity + 1 < 2 ^ 32
        → new_page ops c.pool ≡ (ok r, b')
        → IsKept ops (record { pool = b'; used = mark (allocate_page c.pool.disk).0 true c.used })
    unfolding new_page serve
    created-IsKept c b' r k n h =
        let d = c.pool.disk in
        let p = (allocate_page d).0 in
        let (unused, low) = allocate_page_unused (usage c) k.apart n in
        let v : p ≢ invalid_page_id = λ e. absurd (omega (arith, n, low, e)) in
        let t : c.pool.page_table p ≡ none = elim (Option-cases (c.pool.page_table p)) [
          | inl e ↦ e
          | inr (g, e) ↦ let x = k.cached p g e in let z : true ≡ false = sym x ∙ unused in cc z
        ] in
        let b0 = record c.pool { disk = (allocate_page d).1 } in
        let g = grown-Inv ops c.pool (allocate_page d).1 k.inv (allocate_page_grows d n) in
        let o = swap_page-OnlyAdds ops is_file bounded b0 g p false r b' v t h in
        let small : (allocate_page d).1.capacity < 2 ^ 32 =
          let x = capacity-serve (usage c) allocates n in omega (arith, x, n) in
        record {
          inv = new_page-Inv c.pool b' r k.inv n v t h;
          apart =
              subst (λ x. Allocation.Inv (record { disk = x; used = mark p true c.used }))
                (sym o.disk) (allocate_page-Inv (usage c) k.apart n);
          cached = λ q f u. elim (o.origin q f u) [
            | inl e ↦ ground (arith, e)
            | inr (g', w) ↦ let x = k.cached q g' w in ground (arith, x)
          ];
          small = subst (λ (x : DiskManager). x.capacity < 2 ^ 32) (sym o.disk) small;
        }

    Step-IsKept : {c c' : Clients File} → Step ops c c' → IsKept ops c → IsKept ops c'
    Step-IsKept {c} {c'} (fetches p r u n h) k =
        let v = used_valid ops c k p u in
        adds-IsKept ops c c'.pool p k (fetch_page-Inv c.pool c'.pool p r k.inv v n h)
          (fetch_page-OnlyAdds ops is_file bounded c.pool k.inv p r c'.pool v h) u
    Step-IsKept {c} {c'} (creates r n h) k = created-IsKept c c'.pool r k n h
    Step-IsKept {c} (writes p f bytes t ne l) k =
        same-IsKept ops c _ k (written-Inv ops c.pool k.inv p f t bytes l ne) refl refl
    Step-IsKept {c} (unpins p f d t ne n q) k =
        let (x, y) = unpin_page-keeps ops p d c.pool in
        same-IsKept ops c _ k (unpinned-Inv ops c.pool k.inv p f t d ne n q) x y
    Step-IsKept {c} {c'} (deletes p r u h) k =
        deleted-IsKept ops c c'.pool p r k u (delete_page-Inv ops c.pool c'.pool p r k.inv h)
          (delete_page-Answer ops c.pool p r c'.pool h)
    Step-IsKept {c} {c'} (flushes h) k =
        let (_, t, x, _) = flush_all-IsFlushed ops is_file c.pool c'.pool k.inv h in
        let e =
          (flush_frames-IsFlushed ops is_file c.pool.pool_size 0 c.pool c'.pool k.inv h).pool in
        same-IsKept ops c c'.pool k x (ap (λ (z : Pool File). z.disk) e) t

    Steps-IsKept : {c c' : Clients File} → Steps ops c c' → IsKept ops c → IsKept ops c'
    Steps-IsKept start k = k
    Steps-IsKept (followed s h) k = Step-IsKept h (Steps-IsKept s k)

  make_pool-Inv :
      (capacity : ℕ) (disk : DiskManager) (file : File) → Inv ops (make_pool capacity disk file)
  make_pool-Inv capacity disk file = record {
    table_frame = λ p f t. cc t;
    table_valid = refl;
    frame_table = λ f ne. absurd (ne refl);
    frame_once = λ f. ground arith;
    size = omega arith;
    empty_clean = λ f e. refl;
    clean_stored = λ p f t. cc t;
    data_size = λ f. refl;
  }

  -- On a file that behaves as POSIX says, from a new buffer pool on a disk whose pages are each free at
  -- most once or in use, in calls that throw nothing: clients that fetch and delete only pages that
  -- they use, write to pages that are pinned, give back pins that are there, mark a page as dirty with
  -- its last pin when it is not as on the disk, and keep pins and page numbers below 2^32, keep the
  -- pool well-formed. Frames and the page table name each other, a frame is free at most once and then
  -- holds no page, a page that nobody has pinned and that is not dirty is on the disk as it is in its
  -- frame, only pages in use have frames, and no page is both free and in use.
  pub make_pool-Steps :
      IsFile ops
      → IsBounded ops
      → (capacity : ℕ) (u : Usage) (file : File) (c : Clients File) → Allocation.Inv u
      → u.disk.capacity < 2 ^ 32
      → Steps ops (record { pool = make_pool capacity u.disk file; used = u.used }) c
      → IsKept ops c
  make_pool-Steps is_file bounded capacity u file c apart small s =
      Steps-IsKept is_file bounded s (record {
        inv = make_pool-Inv capacity u.disk file;
        apart = apart;
        cached = λ q g t. cc t;
        small = small;
      })
