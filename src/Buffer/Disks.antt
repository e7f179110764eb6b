-- ===== src/Buffer/Disks.antt =====
-- Changes of the disk manager under a buffer pool.
use duck_duck_dbms.Common.{
  ℕ, ◌+◌, ◌^◌, ◌≤◌, ◌<◌, ◌≡◌, refl, sym, ◌∙◌, true, List, Option-cases, Bool-cases, inl, inr, arith,
  ok, err, ltb, not_allocated,
}
use duck_duck_dbms.Storage.Disk.{FileOps, DiskManager, allocate_page, pop_back, read_page}
use duck_duck_dbms.Buffer.{Pool}
use duck_duck_dbms.Buffer.Invariant.{Inv, stored}

module _ {File : Type 0} (ops : FileOps File) where
  -- A page that can be read can be read under a larger capacity.
  stored_grown :
      (d d' : DiskManager) (file : File) (q : ℕ) (bytes : List ℕ)
      → d.capacity ≤ d'.capacity
      → stored ops d file q ≡ ok bytes
      → stored ops d' file q ≡ ok bytes
  unfolding read_page
  stored_grown d d' file q bytes h s = elim (Bool-cases (ltb q d.capacity)) [
    | inr c ↦ let k : err not_allocated ≡ ok bytes = sym (rw (read_page, c) refl) ∙ s in cc k
    | inl c ↦
        let c' : ltb q d'.capacity ≡ true = ground (arith, c, h) in
        let x : stored ops d' file q ≡ stored ops d file q = rw (read_page, c, c') refl in x ∙ s
  ]

  pub grown-Inv :
      (b : Pool File) (d : DiskManager)
      → Inv ops b
      → b.disk.capacity ≤ d.capacity
      → Inv ops (record b { disk = d })
  grown-Inv b d inv h = record {
    table_frame = inv.table_frame;
    table_valid = inv.table_valid;
    frame_table = inv.frame_table;
    frame_once = inv.frame_once;
    size = inv.size;
    empty_clean = inv.empty_clean;
    clean_stored = λ q g t z c.
        stored_grown b.disk d b.file q (b.frames g).bytes h (inv.clean_stored q g t z c);
    data_size = inv.data_size;
  }

pub allocate_page_grows :
    (d : DiskManager) → d.capacity + 1 < 2 ^ 32 → d.capacity ≤ (allocate_page d).1.capacity
unfolding allocate_page
allocate_page_grows d h = elim (Option-cases (pop_back d.free_list)) [
  | inl e ↦ rw (allocate_page, e) (omega (arith, h))
  | inr (x, e) ↦ rw (allocate_page, e) (omega arith)
]
