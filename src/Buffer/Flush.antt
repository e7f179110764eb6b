-- ===== src/Buffer/Flush.antt =====
-- Writing all dirty pages to the disk.
use duck_duck_dbms.Common.{
  ℕ, zero, suc, ◌+◌, ◌≤◌, ◌<◌, ◌≡◌, ◌≢◌, refl, sym, ap, ◌∙◌, true, false, some, Bool-cases, inl,
  inr, arith, Error, Result, ok, err,
}
use mathlib.Core.Path.{subst}
use duck_duck_dbms.Storage.Disk.{FileOps, write_page}
use duck_duck_dbms.Storage.Disk.Pages.{IsFile}
use duck_duck_dbms.Buffer.{
  Page, Pool, flush_page, flush_if, flush_frames, flush_all, unless_thrown, invalid_page_id,
}
use duck_duck_dbms.Buffer.Invariant.{Inv, stored, below_size}
use duck_duck_dbms.Buffer.Evict.{stored-write_page, Result-cases}
use duck_duck_dbms.Buffer.Keep.{same_or_not}

module _ {File : Type 0} (ops : FileOps File) (is_file : IsFile ops) where
  -- The page of a frame is on the disk as it is in the frame.
  abbrev pub IsOn : Pool File → File → ℕ → Type 0
  IsOn b file f = stored ops b.disk file (b.frames f).page_id ≡ ok (b.frames f).bytes

  -- Only the file has changed; the dirty pages of some frames have been written to it.
  pub record IsFlushed (b : Pool File) (id : ℕ) (n : ℕ) (b' : Pool File) : Type 0 where
    pub file : File
    pub pool : b' ≡ record b { file = file }
    pub inv : Inv ops (record b { file = file })
    pub kept : (f : ℕ) → (b.frames f).is_dirty ≡ true → IsOn b b.file f → IsOn b file f
    pub flushed : (f : ℕ) → id ≤ f → f < id + n → (b.frames f).is_dirty ≡ true → IsOn b file f

  module _ (b : Pool File) (inv : Inv ops b) (f : ℕ) (d : (b.frames f).is_dirty ≡ true)
      (file : File)
      (w : write_page ops b.disk (b.frames f).page_id (b.frames f).bytes b.file ≡ ok file) where
    valid : (b.frames f).page_id ≢ invalid_page_id
    valid e = let c = inv.empty_clean f e in cc (c, d)

    written-Inv : Inv ops (record b { file = file })
    written-Inv =
        let (_, other) =
          stored-write_page ops is_file b.disk (b.frames f).page_id (b.frames f).bytes b.file file
            (inv.data_size f) w in
        record {
          table_frame = inv.table_frame;
          table_valid = inv.table_valid;
          frame_table = inv.frame_table;
          frame_once = inv.frame_once;
          size = inv.size;
          empty_clean = inv.empty_clean;
          clean_stored = λ q g t z c.
              let ne : (b.frames f).page_id ≢ q = λ e.
                let u : some f ≡ some g = sym (inv.frame_table f valid) ∙ ap b.page_table e ∙ t in
                let k : f ≡ g = cc u in
                let y = subst (λ x. (b.frames x).is_dirty ≡ true) k d in cc (y, c) in
              other q ne ∙ inv.clean_stored q g t z c;
          data_size = inv.data_size;
        }

    written_same : IsOn b file f
    written_same =
        (stored-write_page ops is_file b.disk (b.frames f).page_id (b.frames f).bytes b.file file
          (inv.data_size f) w).0

    -- A write of one frame leaves what has been written.
    written_kept : (g : ℕ) → (b.frames g).is_dirty ≡ true → IsOn b b.file g → IsOn b file g
    written_kept g e s = elim (same_or_not (b.frames f).page_id (b.frames g).page_id) [
      | inl k ↦
          let ne : (b.frames g).page_id ≢ invalid_page_id =
            λ z. let c = inv.empty_clean g z in cc (c, e) in
          let u : some f ≡ some g =
            sym (inv.frame_table f valid) ∙ ap b.page_table k ∙ inv.frame_table g ne in
          let x : f ≡ g = cc u in subst (λ x. IsOn b file x) x written_same
      | inr ne ↦
          let (_, other) =
            stored-write_page ops is_file b.disk (b.frames f).page_id (b.frames f).bytes b.file file
              (inv.data_size f) w in
          other (b.frames g).page_id ne ∙ s
    ]

    flush_page_ok : flush_page ops (b.frames f) b ≡ (ok tt, record b { file = file })
    unfolding flush_page
    flush_page_ok = rw (flush_page, w) refl

  flush_page_err :
      (b : Pool File) (page : Page) (e : Error)
      → write_page ops b.disk page.page_id page.bytes b.file ≡ err e
      → flush_page ops page b ≡ (err e, b)
  unfolding flush_page
  flush_page_err b page e w = rw (flush_page, w) refl

  module _ (n id : ℕ) (b : Pool File) where
    abbrev flush_rest : Result (Unit {0}) × Pool File → Result (Unit {0}) × Pool File
    flush_rest z = unless_thrown z λ b'. flush_frames ops n (id + 1) b'

    flush_frames_clean :
        (b.frames id).is_dirty ≡ false
        → flush_frames ops (suc n) id b ≡ flush_frames ops n (id + 1) b
    unfolding flush_frames
    flush_frames_clean c = ap (λ x. flush_rest (flush_if ops x (b.frames id) b)) c

    flush_frames_dirty :
        (b.frames id).is_dirty ≡ true
        → flush_frames ops (suc n) id b ≡ flush_rest (flush_page ops (b.frames id) b)
    unfolding flush_frames
    flush_frames_dirty c = ap (λ x. flush_rest (flush_if ops x (b.frames id) b)) c

  pub flush_frames-IsFlushed :
      (n id : ℕ) (b b' : Pool File)
      → Inv ops b
      → flush_frames ops n id b ≡ (ok tt, b')
      → IsFlushed b id n b'
  unfolding flush_frames
  flush_frames-IsFlushed zero id b b' inv h = record {
    file = b.file;
    pool = sym (ap (λ z. z.1) h);
    inv = inv;
    kept = λ f d s. s;
    flushed = λ f x y d. absurd (omega (arith, x, y));
  }
  flush_frames-IsFlushed (suc n) id b b' inv h = elim (Bool-cases (b.frames id).is_dirty) [
    | inr c ↦
        let r =
          flush_frames-IsFlushed n (id + 1) b b' inv (sym (flush_frames_clean n id b c) ∙ h) in
        record {
          file = r.file;
          pool = r.pool;
          inv = r.inv;
          kept = r.kept;
          flushed = λ f x y d. elim (same_or_not id f) [
            | inl k ↦ let z = subst (λ x. (b.frames x).is_dirty ≡ false) k c in cc (z, d)
            | inr ne ↦ r.flushed f (omega (arith, x, ne)) (omega (arith, y)) d
          ];
        }
    | inl c ↦
        elim (Result-cases
          (write_page ops b.disk (b.frames id).page_id (b.frames id).bytes b.file)) [
            | inl (e, w) ↦
                let k =
                  sym (
                    flush_frames_dirty n id b c
                    ∙ ap (flush_rest n id b) (flush_page_err b (b.frames id) e w))
                  ∙ h in
                let z = ap (λ z. z.0) k in cc z
            | inr (file, w) ↦
                let k =
                  sym (
                    flush_frames_dirty n id b c
                    ∙ ap (flush_rest n id b) (flush_page_ok b inv id c file w))
                  ∙ h in
                let r =
                  flush_frames-IsFlushed n (id + 1) (record b { file = file }) b'
                    (written-Inv b inv id c file w) k in
                record {
                  file = r.file;
                  pool = r.pool;
                  inv = r.inv;
                  kept = λ f d s. r.kept f d (written_kept b inv id c file w f d s);
                  flushed = λ f x y d. elim (same_or_not id f) [
                    | inl k ↦
                        r.kept f d (subst (λ x. IsOn b file x) k (written_same b inv id c file w))
                    | inr ne ↦ r.flushed f (omega (arith, x, ne)) (omega (arith, y)) d
                  ];
                }
          ]
  ]

  -- On a file that behaves as POSIX says, a flush of a well-formed pool that throws nothing leaves the
  -- frames and the page table as they are and the pool well-formed, and has every dirty page on the
  -- disk as it is in its frame.
  pub flush_all-IsFlushed :
      (b b' : Pool File)
      → Inv ops b
      → flush_all ops b ≡ (ok tt, b')
      → (b'.frames ≡ b.frames)
        × (b'.page_table ≡ b.page_table)
        × Inv ops b'
        × ((f : ℕ)
            → (b.frames f).is_dirty ≡ true
            → stored ops b'.disk b'.file (b.frames f).page_id ≡ ok (b.frames f).bytes)
  flush_all-IsFlushed b b' inv h =
      let r = flush_frames-IsFlushed b.pool_size 0 b b' inv h in
      let p = r.pool in
      (
        ap (λ x. x.frames) p,
        ap (λ x. x.page_table) p,
        subst (Inv ops) (sym p) r.inv,
        λ f d.
            let ne : (b.frames f).page_id ≢ invalid_page_id =
              λ z. let c = inv.empty_clean f z in cc (c, d) in
            let l = below_size ops b inv f ne in
            ap (λ (x : Pool File). stored ops x.disk x.file (b.frames f).page_id) p
            ∙ r.flushed f (omega arith) (omega (arith, l)) d,
      )
