-- ===== src/Buffer/Invariant.antt =====
-- When a buffer pool is well-formed, and which bytes a page has.
use duck_duck_dbms.Common.{
  arith, ℕ, ◌+◌, ◌≤◌, ◌<◌, ◌≡◌, ◌≢◌, Bool, true, false, not, Option, none, some, List, ltb, ◌==◌,
  length, Result, ok, refl, sym, ◌∙◌, Bool-cases, inl, inr, ==_iff,
}
use duck_duck_dbms.Table.Page.{page_size}
use duck_duck_dbms.Storage.Disk.{DiskManager, FileOps, read_page}
use duck_duck_dbms.Storage.Disk.Allocation.{count, one}
use duck_duck_dbms.Buffer.{Page, Pool, invalid_page_id, blank}

abbrev pub is_occupied : Page → Bool
is_occupied p = not (p.page_id == invalid_page_id)

module _ {File : Type 0} (ops : FileOps File) where
  -- What a read of the page from the disk gives.
  abbrev pub stored : DiskManager → File → ℕ → Result (List ℕ)
  stored d file p = read_page ops d p blank file

  -- The bytes of a page, in its frame or else on the disk.
  abbrev pub contents_at : Pool File → ℕ → Option ℕ → Result (List ℕ)
  contents_at b p (some f) = ok (b.frames f).bytes
  contents_at b p none = stored b.disk b.file p

  abbrev pub contents : Pool File → ℕ → Result (List ℕ)
  contents b p = contents_at b p (b.page_table p)

  -- Frames and the page table name each other. A frame in use is free at most once or holds a page.
  -- A page that nobody uses and that is not dirty is on the disk as it is in its frame.
  pub record Inv (b : Pool File) : Type 0 where
    pub table_frame : (p f : ℕ) → b.page_table p ≡ some f → (b.frames f).page_id ≡ p
    pub table_valid : b.page_table invalid_page_id ≡ none
    pub frame_table :
        (f : ℕ)
        → (b.frames f).page_id ≢ invalid_page_id
        → b.page_table (b.frames f).page_id ≡ some f
    pub frame_once :
        (f : ℕ)
        → count f b.free_frames_list + one (is_occupied (b.frames f)) ≤ one (ltb f b.pool_size)
    pub size : b.pool_size ≤ b.pool_capacity
    pub empty_clean :
        (f : ℕ) → (b.frames f).page_id ≡ invalid_page_id → (b.frames f).is_dirty ≡ false
    pub clean_stored :
        (p f : ℕ)
        → b.page_table p ≡ some f
        → (b.frames f).pin_count ≡ 0
        → (b.frames f).is_dirty ≡ false
        → stored b.disk b.file p ≡ ok (b.frames f).bytes
    pub data_size : (f : ℕ) → length (b.frames f).bytes ≡ page_size

  module _ (b : Pool File) (inv : Inv b) where
    pub cached_valid : (p f : ℕ) → b.page_table p ≡ some f → p ≢ invalid_page_id
    cached_valid p f t e = let v = inv.table_valid in cc (t, e, v)

    pub cached_occupied : (p f : ℕ) → b.page_table p ≡ some f → is_occupied (b.frames f) ≡ true
    cached_occupied p f t =
        let k = inv.table_frame p f t in
        let v = cached_valid p f t in
        elim (Bool-cases ((b.frames f).page_id == invalid_page_id)) [
          | inl e ↦ absurd (v (sym k ∙ (==_iff _ _).0 e))
          | inr e ↦ rw e refl
        ]

    -- A frame that holds a page is below the size.
    pub below_size : (f : ℕ) → (b.frames f).page_id ≢ invalid_page_id → f < b.pool_size
    below_size f ne =
        let o = cached_occupied (b.frames f).page_id f (inv.frame_table f ne) in
        let x = inv.frame_once f in ground (arith, o, x)

-- POSIX: a read gives at most the bytes that are asked for.
abbrev pub IsBounded : {File : Type 0} → FileOps File → Type 0
IsBounded {File} ops =
    (o n : ℕ) (file : File) (bytes : List ℕ) → ops.pread o n file ≡ some bytes → length bytes ≤ n
