-- ===== src/Buffer/Fill.antt =====
-- What a pool is after a frame has been given to a page.
use duck_duck_dbms.Common.{
  ℕ, ◌≡◌, ◌≢◌, refl, ap, ◌∙◌, false, Option, none, some, List, ◌==◌, Bool-cases, inl, inr, ==_iff,
  ==_refl, Error, ok, err, length,
}
use duck_duck_dbms.Table.Page.{page_size}
use duck_duck_dbms.Storage.Disk.{FileOps, read_page}
use duck_duck_dbms.Buffer.{
  Page, Pool, assign, load, reset_memory, invalid_page_id, blank, put, record_page,
}
use duck_duck_dbms.Buffer.Invariant.{stored}
use duck_duck_dbms.Buffer.Choose.{IsTaken}
use duck_duck_dbms.Buffer.Evict.{IsEvicted}

module _ {A : Type 0} (i : ℕ) (a : A) (m : ℕ → A) where
  pub put_same : put i a m i ≡ a
  put_same = rw (==_refl i) refl

  pub put_other : (j : ℕ) → i ≢ j → put i a m j ≡ m j
  put_other j ne = elim (Bool-cases (i == j)) [
    | inl e ↦ absurd (ne ((==_iff i j).0 e))
    | inr e ↦ rw e refl
  ]

module _ {File : Type 0} (ops : FileOps File) where
  -- The frame f of the pool holds the page p, and every other page has the bytes that it had.
  pub record IsFilled (b : Pool File) (p : ℕ) (f : ℕ) (b' : Pool File) : Type 0 where
    pub table_page : b'.page_table p ≡ some f
    pub table_old : p ≢ (b.frames f).page_id → b'.page_table (b.frames f).page_id ≡ none
    pub table_other : (q : ℕ) → p ≢ q → (b.frames f).page_id ≢ q → b'.page_table q ≡ b.page_table q
    pub page_id : (b'.frames f).page_id ≡ p
    pub pinned : (b'.frames f).pin_count ≡ 1
    pub clean : (b'.frames f).is_dirty ≡ false
    pub size : length (b'.frames f).bytes ≡ page_size
    pub frame_other : (g : ℕ) → f ≢ g → b'.frames g ≡ b.frames g
    pub taken : IsTaken b f b'.free_frames_list b'.pool_size
    pub capacity : b'.pool_capacity ≡ b.pool_capacity
    pub disk : b'.disk ≡ b.disk
    pub stored_other :
        (q : ℕ)
        → (b.frames f).page_id ≢ q
        → stored ops b.disk b'.file q ≡ stored ops b.disk b.file q
    pub stored_old :
        (b.frames f).page_id ≢ invalid_page_id
        → stored ops b.disk b'.file (b.frames f).page_id ≡ ok (b.frames f).bytes

  module _ (b : Pool File) (p f : ℕ) (free : List ℕ) (n : ℕ) (t : IsTaken b f free n)
      (table : ℕ → Option ℕ) (pages : List ℕ) (file : File) (v : IsEvicted ops b f table file) where
    abbrev pub emptied : Pool File
    emptied = record b {
      free_frames_list = free;
      pool_size = n;
      page_table = table;
      mru_pages = pages;
      file = file;
    }

    abbrev pub fresh : Page
    fresh = record { page_id = p; bytes = blank; pin_count = 1; is_dirty = false }

    -- The pool with some page in the frame.
    abbrev pub with_frames : (ℕ → Page) → Pool File
    with_frames frames = record emptied {
      page_table = put p (some f) table;
      frames = frames;
      mru_pages = record_page p pages;
    }

    IsFilled-with_frames :
        (frames : ℕ → Page) (page : Page)
        → frames f ≡ page
        → page.page_id ≡ p
        → page.pin_count ≡ 1
        → page.is_dirty ≡ false
        → length page.bytes ≡ page_size
        → ((g : ℕ) → f ≢ g → frames g ≡ b.frames g)
        → IsFilled b p f (with_frames frames)
    IsFilled-with_frames frames page e i c d l o = record {
      table_page = put_same p (some f) table;
      table_old = λ ne. put_other p (some f) table (b.frames f).page_id ne ∙ v.0;
      table_other = λ q ne ne'. put_other p (some f) table q ne ∙ v.1 q ne';
      page_id = rw e i;
      pinned = rw e c;
      clean = rw e d;
      size = rw e l;
      frame_other = o;
      taken = t;
      capacity = refl;
      disk = refl;
      stored_other = v.2;
      stored_old = v.3;
    }

    pub assign-eq : assign p f emptied ≡ with_frames (put f fresh b.frames)
    unfolding assign reset_memory
    assign-eq = refl

    -- A new page: zeros.
    pub assign-IsFilled : IsFilled b p f (with_frames (put f fresh b.frames))
    assign-IsFilled =
        IsFilled-with_frames (put f fresh b.frames) fresh (put_same f fresh b.frames) refl refl refl
          refl (put_other f fresh b.frames)

    -- The frame after a read.
    abbrev pub read_frames : List ℕ → ℕ → Page
    read_frames read =
        put f (record (put f fresh b.frames f) { bytes = read }) (put f fresh b.frames)

    frame_bytes :
        read_page ops b.disk p (put f fresh b.frames f).bytes file ≡ stored ops b.disk file p
    frame_bytes = ap (λ (x : Page). read_page ops b.disk p x.bytes file) (put_same f fresh b.frames)

    pub load_ok :
        (read : List ℕ)
        → stored ops b.disk file p ≡ ok read
        → load ops p f (with_frames (put f fresh b.frames))
          ≡ (ok (some f), with_frames (read_frames read))
    unfolding load
    load_ok read h = let k = frame_bytes ∙ h in rw (load, k) refl

    pub load_err :
        (e : Error)
        → stored ops b.disk file p ≡ err e
        → (load ops p f (with_frames (put f fresh b.frames))).0 ≡ err e
    unfolding load
    load_err e h = let k = frame_bytes ∙ h in rw (load, k) refl

    -- A page that was read: its bytes.
    pub read_frames-same :
        (read : List ℕ)
        → read_frames read f ≡ record { page_id = p; bytes = read; pin_count = 1; is_dirty = false }
    read_frames-same read =
        put_same f (record (put f fresh b.frames f) { bytes = read }) (put f fresh b.frames)
        ∙ ap (λ (x : Page). record x { bytes = read }) (put_same f fresh b.frames)

    pub load-IsFilled :
        (read : List ℕ) → length read ≡ page_size → IsFilled b p f (with_frames (read_frames read))
    load-IsFilled read l =
        IsFilled-with_frames (read_frames read)
          (record { page_id = p; bytes = read; pin_count = 1; is_dirty = false })
          (read_frames-same read) refl refl refl l
          (λ g ne.
            put_other f (record (put f fresh b.frames f) { bytes = read }) (put f fresh b.frames) g
              ne
            ∙ put_other f fresh b.frames g ne)
