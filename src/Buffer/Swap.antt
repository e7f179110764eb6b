-- ===== src/Buffer/Swap.antt =====
-- What `swap_page` does, when it does not throw.
use duck_duck_dbms.Common.{
  ℕ, ◌-◌, ◌*◌, ◌≤◌, ◌≡◌, refl, sym, ap, ◌∙◌, Bool, true, false, Option, none, some, List, ◌++◌, ltb,
  if◌then◌else◌, Option-cases, Bool-cases, inl, inr, arith, Error, not_allocated, io_failed, Result,
  ok, err, length, replicate, length-append, length-replicate,
}
use mathlib.Core.Path.{subst}
use duck_duck_dbms.Table.Page.{page_size}
use duck_duck_dbms.Storage.Disk.{FileOps, read_page, fill}
use duck_duck_dbms.Storage.Disk.Pages.{IsFile, append-[]}
use duck_duck_dbms.Buffer.{
  Page, Pool, swap_into, assign, load, reset_memory, unless_thrown, evict, fill_frame, swap_page,
  blank, put,
}
use duck_duck_dbms.Buffer.Invariant.{Inv, stored, IsBounded}
use duck_duck_dbms.Buffer.Choose.{IsTaken, find_next_frame_cases}
use duck_duck_dbms.Buffer.Evict.{IsEvicted, drop-replicate, evict_cases, Result-cases}
use duck_duck_dbms.Buffer.Fill.{
  IsFilled, with_frames, read_frames, fresh, assign-IsFilled, load_ok, load_err, load-IsFilled,
  read_frames-same, put_same,
}

abbrev filling :
    {File : Type 0} → FileOps File → ℕ → ℕ → Bool → Pool File → Result (Option ℕ) × Pool File
filling ops p f read b = if read then load ops p f (assign p f b) else (ok (some f), assign p f b)

length-fill : (bytes : List ℕ) → length bytes ≤ page_size → length (fill bytes blank) ≡ page_size
length-fill bytes h =
    rw
      (
        drop-replicate page_size 0,
        append-[] (bytes ++ replicate (page_size - length bytes) 0),
        length-append bytes (replicate (page_size - length bytes) 0),
        length-replicate {A = ℕ} (page_size - length bytes) 0,
      )
      (omega arith)

thrown :
    {File A B : Type 0} (z : Result A × Pool File) (next : Pool File → Result B × Pool File)
    (e : Error)
    → z.0 ≡ err e
    → (unless_thrown z next).0 ≡ err e
thrown (ok a, b) next e h = cc h
thrown (err x, b) next e h = let k : x ≡ e = cc h in ap err k

module _ {File : Type 0} (ops : FileOps File) (is_file : IsFile ops) (bounded : IsBounded ops)
    (b : Pool File) (inv : Inv ops b) (p : ℕ) where
  read_page-length :
      (file : File) (read : List ℕ) → stored ops b.disk file p ≡ ok read → length read ≡ page_size
  unfolding read_page
  read_page-length file read h = elim (Bool-cases (ltb p b.disk.capacity)) [
    | inr c ↦ let k : err not_allocated ≡ ok read = sym (rw (read_page, c) refl) ∙ h in cc k
    | inl c ↦ elim (Option-cases (ops.pread (p * page_size) page_size file)) [
      | inl e ↦ let k : err io_failed ≡ ok read = sym (rw (read_page, c, e) refl) ∙ h in cc k
      | inr (bytes, e) ↦
          let k : ok (fill bytes blank) ≡ ok read = sym (rw (read_page, c, e) refl) ∙ h in
          let w : fill bytes blank ≡ read = cc k in
          sym (ap length w) ∙ length-fill bytes (bounded (p * page_size) page_size file bytes e)
    ]
  ]

  -- No frame can be had and the pool is as before, or the page has a frame.
  abbrev pub IsSwapped : Bool → Option ℕ → Pool File → Type 0
  IsSwapped read none b' = b' ≡ b
  IsSwapped read (some f) b' =
      IsFilled ops b p f b'
      × (if read
          then stored ops b.disk b'.file p ≡ ok (b'.frames f).bytes
          else (b'.frames f).bytes ≡ blank)

  same_answer :
      (read : Bool) (r r' : Option ℕ) (c c' : Pool File)
      → ◌≡◌ {A = Result (Option ℕ) × Pool File} (ok r, c) (ok r', c')
      → IsSwapped read r c
      → IsSwapped read r' c'
  same_answer read r r' c c' h s =
      let z : ok r ≡ ok r' = ap (λ z. z.0) h in
      let k : r ≡ r' = cc z in
      subst (λ x. IsSwapped read x c') k (subst (IsSwapped read r) (ap (λ z. z.1) h) s)

  module _ (f : ℕ) (free : List ℕ) (n : ℕ) (t : IsTaken b f free n) (table : ℕ → Option ℕ)
      (pages : List ℕ) (file : File) (v : IsEvicted ops b f table file) where
    abbrev zeros : Pool File
    zeros =
        with_frames ops b p f free n t table pages file v
          (put f (fresh ops b p f free n t table pages file v) b.frames)

    loaded :
        (read : Bool) (r : Option ℕ) (b' : Pool File)
        → (if read then load ops p f zeros else (ok (some f), zeros)) ≡ (ok r, b')
        → IsSwapped read r b'
    loaded false r b' h = same_answer false (some f) r zeros b' h (
      assign-IsFilled ops b p f free n t table pages file v,
      ap (λ x. x.bytes) (put_same f (fresh ops b p f free n t table pages file v) b.frames),
    )
    loaded true r b' h = elim (Result-cases (stored ops b.disk file p)) [
      | inl (e, w) ↦
          let x = load_err ops b p f free n t table pages file v e w in
          let y = ap (λ z. z.0) h in cc (x, y)
      | inr (bytes, w) ↦
          same_answer true (some f) r
            (with_frames ops b p f free n t table pages file v
              (read_frames ops b p f free n t table pages file v bytes))
            b' (sym (load_ok ops b p f free n t table pages file v bytes w) ∙ h)
            (
              load-IsFilled ops b p f free n t table pages file v bytes
                  (read_page-length file bytes w),
              w
                  ∙ ap (λ (x : Page). ok x.bytes)
                      (sym (read_frames-same ops b p f free n t table pages file v bytes)),
            )
    ]

  pub fill_frame-IsSwapped :
      (read : Bool) (r : Option ℕ) (f : ℕ) (free : List ℕ) (n : ℕ) (b' : Pool File)
      → IsTaken b f free n
      → fill_frame ops p read f (record b { free_frames_list = free; pool_size = n }) ≡ (ok r, b')
      → IsSwapped read r b'
  unfolding fill_frame assign reset_memory
  fill_frame-IsSwapped read r f free n b' t h = elim (evict_cases ops is_file b inv f free n t.4) [
    | inl (e, x) ↦
        let w =
          thrown (evict ops f (record b { free_frames_list = free; pool_size = n }))
            (filling ops p f read) e x in
        let z = ap (λ z. z.0) h in cc (w, z)
    | inr (table, pages, file, x, v) ↦
        loaded f free n t table pages file v read r b'
          (sym (ap (λ z. unless_thrown z (filling ops p f read)) x) ∙ h)
  ]

  -- What `swap_page` leaves when it does not throw.
  pub swap_page-IsSwapped :
      (read : Bool) (r : Option ℕ) (b' : Pool File)
      → swap_page ops p read b ≡ (ok r, b')
      → IsSwapped read r b'
  unfolding swap_page
  swap_page-IsSwapped read r b' h = elim (find_next_frame_cases ops b inv) [
    | inl e ↦
        let k : ◌≡◌ {A = Result (Option ℕ) × Pool File} (ok none, b) (ok r, b') =
          sym (ap (swap_into ops p read) e) ∙ h in
        same_answer read none r b b' k refl
    | inr (f, free, n, e, t) ↦
        fill_frame-IsSwapped read r f free n b' t (sym (ap (swap_into ops p read) e) ∙ h)
  ]
