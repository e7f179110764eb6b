-- ===== src/Buffer/Evict.antt =====
-- Taking a page out of its frame: it is forgotten, and written to the disk when it is dirty.
use duck_duck_dbms.Common.{
  ℕ, zero, suc, ◌≡◌, ◌≢◌, refl, ap, ◌∙◌, true, false, Option, none, List, [], ◌∷◌, ◌==◌, Bool-cases,
  inl, inr, ◌⊎◌, arith, ==_iff, ==_refl, Error, Result, ok, err, length, take, drop, replicate,
}
use duck_duck_dbms.Table.Page.{page_size}
use duck_duck_dbms.Storage.Disk.{DiskManager, FileOps, write_page}
use duck_duck_dbms.Storage.Disk.Pages.{IsFile, read_page-write_page, append-[]}
use duck_duck_dbms.Buffer.{Pool, evict, forget, flush_page, invalid_page_id, blank, put, remove}
use duck_duck_dbms.Buffer.Invariant.{Inv, stored, is_occupied}

pub Result-cases {ℓ} :
    {A : Type ℓ} (r : Result A) → ((e : Error) × (r ≡ err e)) ⊎ ((a : A) × (r ≡ ok a))
Result-cases (ok a) = inr (a, refl)
Result-cases (err e) = inl (e, refl)

take_all : (n : ℕ) (xs : List ℕ) → length xs ≡ n → take n xs ≡ xs
take_all zero [] h = refl
take_all zero (x ∷ xs) h = absurd (omega (arith, h))
take_all (suc n) [] h = absurd (omega (arith, h))
take_all (suc n) (x ∷ xs) h = ap (λ l. x ∷ l) (take_all n xs (omega (arith, h)))

pub drop-replicate : (n x : ℕ) → drop n (replicate n x) ≡ []
drop-replicate zero x = refl
drop-replicate (suc n) x = drop-replicate n x

pub length-blank : length blank ≡ page_size
length-blank = refl

module _ {File : Type 0} (ops : FileOps File) where
  -- A page written is read back as it was, and no other page is read in another way.
  pub stored-write_page :
      IsFile ops
      → (d : DiskManager) (p : ℕ) (bytes : List ℕ) (file file' : File) → length bytes ≡ page_size
      → write_page ops d p bytes file ≡ ok file'
      → (stored ops d file' p ≡ ok bytes)
        × ((q : ℕ) → p ≢ q → stored ops d file' q ≡ stored ops d file q)
  stored-write_page is_file d p bytes file file' len h =
      let w = length-blank in
      let (same, other) =
        read_page-write_page ops d is_file p bytes blank file file' (omega (arith, w)) h in
      (
        same
            ∙ ap ok
                (rw (take_all page_size bytes len, drop-replicate page_size 0) (append-[] bytes)),
        other,
      )

  -- What holds of the page table and the file when a frame has been emptied.
  abbrev pub IsEvicted : Pool File → ℕ → (ℕ → Option ℕ) → File → Type 0
  IsEvicted b f table file =
      let id = (b.frames f).page_id in
      (table id ≡ none)
      × ((q : ℕ) → id ≢ q → table q ≡ b.page_table q)
      × ((q : ℕ) → id ≢ q → stored ops b.disk file q ≡ stored ops b.disk b.file q)
      × (id ≢ invalid_page_id → stored ops b.disk file id ≡ ok (b.frames f).bytes)

  module _ (is_file : IsFile ops) (b : Pool File) (inv : Inv ops b) (f : ℕ) (free : List ℕ) (n : ℕ)
      (unused : is_occupied (b.frames f) ≡ true → (b.frames f).pin_count ≡ 0) where
    abbrev taken : Pool File
    taken = record b { free_frames_list = free; pool_size = n }

    abbrev id : ℕ
    id = (b.frames f).page_id

    forgotten : (q : ℕ) → id ≢ q → put id none b.page_table q ≡ b.page_table q
    forgotten q ne = elim (Bool-cases (id == q)) [
      | inl e ↦ absurd (ne ((==_iff id q).0 e))
      | inr e ↦ rw e refl
    ]

    gone : put id none b.page_table id ≡ none
    gone = rw (==_refl id) refl

    abbrev emptied : Pool File
    emptied = record taken {
      page_table = put id none b.page_table;
      mru_pages = remove id b.mru_pages;
    }

    forget_occupied : (id == invalid_page_id) ≡ false → forget f taken ≡ emptied
    unfolding forget
    forget_occupied i = rw (forget, i) refl

    evict_dirty :
        (b.frames f).is_dirty ≡ true
        → evict ops f taken ≡ flush_page ops (b.frames f) (forget f taken)
    unfolding evict
    evict_dirty c = rw (evict, c) refl

    flush_page_ok :
        (file : File)
        → write_page ops b.disk id (b.frames f).bytes b.file ≡ ok file
        → flush_page ops (b.frames f) emptied ≡ (ok tt, record emptied { file = file })
    unfolding flush_page
    flush_page_ok file w = rw (flush_page, w) refl

    flush_page_err :
        (e : Error)
        → write_page ops b.disk id (b.frames f).bytes b.file ≡ err e
        → flush_page ops (b.frames f) emptied ≡ (err e, emptied)
    unfolding flush_page
    flush_page_err e w = rw (flush_page, w) refl

    -- The write throws, or the frame is emptied.
    pub evict_cases :
        ((e : Error) × ((evict ops f taken).0 ≡ err e))
        ⊎ ((table : ℕ → Option ℕ) × (pages : List ℕ) × (file : File) × (evict ops f taken
              ≡ (ok tt, record taken { page_table = table; mru_pages = pages; file = file }))
            × IsEvicted b f table file)
    unfolding evict forget
    evict_cases = elim (Bool-cases (id == invalid_page_id)) [
      | inl i ↦
          let k = (==_iff id invalid_page_id).0 i in
          let c = inv.empty_clean f k in
          inr (
            b.page_table,
            b.mru_pages,
            b.file,
            rw (evict, forget, i, c) refl,
            (
              ap b.page_table k ∙ inv.table_valid,
              (λ q ne. refl),
              (λ q ne. refl),
              (λ ne. absurd (ne k)),
            ),
          )
      | inr i ↦
          let ne : id ≢ invalid_page_id = λ k.
            let y : (id == invalid_page_id) ≡ true = (==_iff id invalid_page_id).1 k in cc (y, i) in
          let t = inv.frame_table f ne in
          let z = unused (rw i refl) in
          elim (Bool-cases (b.frames f).is_dirty) [
            | inr c ↦ inr (
              put id none b.page_table,
              remove id b.mru_pages,
              b.file,
              rw (evict, forget, i, c) refl,
              (gone, forgotten, (λ q ne. refl), (λ _. inv.clean_stored id f t z c)),
            )
            | inl c ↦
                let dirty = evict_dirty c ∙ ap (flush_page ops (b.frames f)) (forget_occupied i) in
                elim (Result-cases (write_page ops b.disk id (b.frames f).bytes b.file)) [
                  | inl (e, w) ↦ inl (e, ap (λ z. z.0) (dirty ∙ flush_page_err e w))
                  | inr (file, w) ↦
                      let (same, other) =
                        stored-write_page is_file b.disk id (b.frames f).bytes b.file file
                          (inv.data_size f) w in
                      inr (
                        put id none b.page_table,
                        remove id b.mru_pages,
                        file,
                        dirty ∙ flush_page_ok file w,
                        (gone, forgotten, other, (λ _. same)),
                      )
                ]
          ]
    ]
