-- ===== src/Buffer/Delete.antt =====
-- Taking a page that nobody uses out of the pool.
use duck_duck_dbms.Common.{
  ℕ, ◌+◌, ◌≤◌, ◌≡◌, ◌≢◌, refl, sym, ap, ◌∙◌, Bool, false, none, some, [], ◌∷◌, ◌++◌, ltb, ◌==◌,
  if◌then◌else◌, Option-cases, Bool-cases, inl, inr, arith, Result, ok, err, page_reserved, length,
}
use mathlib.Core.Path.{subst}
use duck_duck_dbms.Storage.Disk.{FileOps, DiskManager, deallocate_page}
use duck_duck_dbms.Storage.Disk.Allocation.{count, one, count-append}
use duck_duck_dbms.Buffer.{
  Page, Pool, invalid_page_id, blank, put, remove, reset_memory, delete_page, delete_at, release,
  given_back,
}
use duck_duck_dbms.Buffer.Invariant.{Inv, is_occupied, cached_valid, cached_occupied, below_size}
use duck_duck_dbms.Buffer.Evict.{length-blank}
use duck_duck_dbms.Buffer.Fill.{put_same, put_other}
use duck_duck_dbms.Buffer.Keep.{same_or_not}
use duck_duck_dbms.Buffer.Disks.{grown-Inv}

deallocate_page-capacity :
    (p : ℕ) (d d' : DiskManager) → deallocate_page p d ≡ ok d' → d'.capacity ≡ d.capacity
unfolding deallocate_page
deallocate_page-capacity p d d' h = elim (Bool-cases (p == 0)) [
  | inl e ↦ let k : err page_reserved ≡ ok d' = sym (rw (deallocate_page, e) refl) ∙ h in cc k
  | inr e ↦ elim (Bool-cases (ltb 1024 (length d.free_list))) [
    | inl l ↦
        let k : ok d ≡ ok d' = sym (rw (deallocate_page, e, l) refl) ∙ h in
        let w : d ≡ d' = cc k in ap (λ x. x.capacity) (sym w)
    | inr l ↦
        let k : ok (record d { free_list = d.free_list ++ p ∷ [] }) ≡ ok d' =
          sym (rw (deallocate_page, e, l) refl) ∙ h in
        let w : record d { free_list = d.free_list ++ p ∷ [] } ≡ d' = cc k in
        ap (λ x. x.capacity) (sym w)
  ]
]

module _ {File : Type 0} (ops : FileOps File) where
  module _ (b : Pool File) (inv : Inv ops b) (p f : ℕ) (t : b.page_table p ≡ some f) where
    abbrev empty : Page
    empty = record { page_id = invalid_page_id; bytes = blank; pin_count = 0; is_dirty = false }

    abbrev removed : Pool File
    removed = record b {
      page_table = put p none b.page_table;
      mru_pages = remove p b.mru_pages;
      frames = put f empty b.frames;
      free_frames_list = b.free_frames_list ++ f ∷ [];
    }

    entry :
        (q g : ℕ) → removed.page_table q ≡ some g → (p ≢ q) × (f ≢ g) × (b.page_table q ≡ some g)
    entry q g u = elim (same_or_not p q) [
      | inl e ↦
          let n : removed.page_table q ≡ none =
            subst (λ x. removed.page_table x ≡ none) e (put_same p none b.page_table) in
          cc (n, u)
      | inr ne ↦
          let w = sym (put_other p none b.page_table q ne) ∙ u in
          (
            ne,
            (λ e. ne (
                sym (inv.table_frame p f t)
                ∙ ap (λ x. (b.frames x).page_id) e
                ∙ inv.table_frame q g w)),
            w,
          )
    ]

    removed-Inv : Inv ops removed
    removed-Inv = record {
      table_frame = λ q g u.
          let (_, ne, w) = entry q g u in
          ap (λ x. x.page_id) (put_other f empty b.frames g ne) ∙ inv.table_frame q g w;
      table_valid =
          put_other p none b.page_table invalid_page_id (cached_valid ops b inv p f t)
          ∙ inv.table_valid;
      frame_table = λ g k. elim (same_or_not f g) [
        | inl e ↦ absurd (
            k (
              subst (λ x. (removed.frames x).page_id ≡ invalid_page_id) e
                (ap (λ x. x.page_id) (put_same f empty b.frames))))
        | inr ne ↦
            let o = put_other f empty b.frames g ne in
            let u = inv.frame_table g (subst (λ (x : Page). x.page_id ≢ invalid_page_id) o k) in
            let np : p ≢ (b.frames g).page_id = λ e.
              let w = ap b.page_table e in let c : some f ≡ some g = sym t ∙ w ∙ u in ne (cc c) in
            ap removed.page_table (ap (λ x. x.page_id) o)
            ∙ put_other p none b.page_table (b.frames g).page_id np
            ∙ u
      ];
      frame_once = λ g.
          let c = count-append g f b.free_frames_list in
          let x = inv.frame_once g in
          elim (same_or_not f g) [
            | inl e ↦
                subst
                  (λ x.
                    count x removed.free_frames_list + one (is_occupied (removed.frames x))
                    ≤ one (ltb x removed.pool_size))
                  e
                  (rw (put_same f empty b.frames) (
                    let l =
                      below_size ops b inv f
                        (λ z. cached_valid ops b inv p f t (sym (inv.table_frame p f t) ∙ z)) in
                    ground (
                      arith,
                      count-append f f b.free_frames_list,
                      inv.frame_once f,
                      cached_occupied ops b inv p f t,
                      l,
                    )))
            | inr ne ↦ rw (put_other f empty b.frames g ne) (ground (arith, c, x, ne))
          ];
      size = inv.size;
      empty_clean = λ g k. elim (same_or_not f g) [
        | inl e ↦
            subst (λ x. (removed.frames x).is_dirty ≡ false) e
              (ap (λ x. x.is_dirty) (put_same f empty b.frames))
        | inr ne ↦
            let o = put_other f empty b.frames g ne in
            ap (λ x. x.is_dirty) o ∙ inv.empty_clean g (sym (ap (λ x. x.page_id) o) ∙ k)
      ];
      clean_stored = λ q g u z d.
          let (_, ne, w) = entry q g u in
          let o = put_other f empty b.frames g ne in
          inv.clean_stored q g w (sym (ap (λ x. x.pin_count) o) ∙ z)
            (sym (ap (λ x. x.is_dirty) o) ∙ d)
          ∙ ap (λ (x : Page). ok x.bytes) (sym o);
      data_size = λ g. elim (same_or_not f g) [
        | inl e ↦
            subst (λ x. length (removed.frames x).bytes ≡ 8192) e
              (ap (λ x. length x.bytes) (put_same f empty b.frames) ∙ length-blank)
        | inr ne ↦ ap (λ x. length x.bytes) (put_other f empty b.frames g ne) ∙ inv.data_size g
      ];
    }

  given_back-Inv :
      (b b' : Pool File) (d : Result DiskManager) (r : Bool)
      → Inv ops b
      → ((d' : DiskManager) → d ≡ ok d' → d'.capacity ≡ b.disk.capacity)
      → given_back ops b d ≡ (ok r, b')
      → Inv ops b'
  given_back-Inv b b' (err e) r inv c h = let z = ap (λ z. z.0) h in cc z
  given_back-Inv b b' (ok d) r inv c h =
      subst (Inv ops) (ap (λ z. z.1) h)
        (let k = c d refl in grown-Inv ops b d inv (omega (arith, k)))

  -- A deletion that throws nothing leaves the pool well-formed.
  pub delete_page-Inv :
      (b b' : Pool File) (p : ℕ) (r : Bool)
      → Inv ops b
      → delete_page ops p b ≡ (ok r, b')
      → Inv ops b'
  unfolding delete_page reset_memory
  delete_page-Inv b b' p r inv h = elim (Option-cases (b.page_table p)) [
    | inl t ↦
        given_back-Inv b b' (deallocate_page p b.disk) r inv (deallocate_page-capacity p b.disk)
          (sym (ap (delete_at ops p b) t) ∙ h)
    | inr (f, t) ↦
        let k = sym (ap (delete_at ops p b) t) ∙ h in
        elim (Bool-cases (ltb 0 (b.frames f).pin_count)) [
          | inl l ↦
              subst (Inv ops)
                (ap (λ z. z.1)
                  (sym (
                      ap
                        (λ x.
                          if x
                          then (ok false, b)
                          else given_back ops (release ops p f b) (deallocate_page p b.disk))
                        l)
                    ∙ k))
                inv
          | inr l ↦
              given_back-Inv (removed b inv p f t) b' (deallocate_page p b.disk) r
                (removed-Inv b inv p f t) (deallocate_page-capacity p b.disk)
                (sym (
                    ap
                      (λ x.
                        if x
                        then (ok false, b)
                        else given_back ops (release ops p f b) (deallocate_page p b.disk))
                      l)
                  ∙ k)
        ]
  ]
