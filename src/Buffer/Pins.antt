-- ===== src/Buffer/Pins.antt =====
-- Changes of one frame that leave its page where it is: pins, marks and the bytes of a page in use.
use duck_duck_dbms.Common.{
  ℕ, ◌+◌, ◌^◌, ◌<◌, ◌≡◌, ◌≢◌, refl, sym, ap, ◌∙◌, Bool, true, false, some, List, if◌then◌else◌, inl,
  inr, arith, ok, length,
}
use mathlib.Core.Path.{subst}
use duck_duck_dbms.Table.Page.{page_size}
use duck_duck_dbms.Storage.Disk.{FileOps}
use duck_duck_dbms.Buffer.{Page, Pool, put, inc_pin_count, dec_pin_count, unpin_page, record_page}
use duck_duck_dbms.Buffer.Invariant.{Inv, stored, cached_valid}
use duck_duck_dbms.Buffer.Fill.{put_same, put_other}
use duck_duck_dbms.Buffer.Keep.{same_or_not}

both : (a b : Bool) → (if a then true else b) ≡ false → (a ≡ false) × (b ≡ false)
both true b h = cc h
both false b h = (refl, h)

module _ {File : Type 0} (ops : FileOps File) (b : Pool File) (inv : Inv ops b) where
  module _ (p f : ℕ) (page : Page) (pages : List ℕ) (t : b.page_table p ≡ some f)
      (i : page.page_id ≡ p) (l : length page.bytes ≡ page_size)
      (c : page.pin_count ≡ 0
        → page.is_dirty ≡ false
        → stored ops b.disk b.file p ≡ ok page.bytes) where
    abbrev changed : ℕ → Page
    changed = put f page b.frames

    same_id : (g : ℕ) → (changed g).page_id ≡ (b.frames g).page_id
    same_id g = elim (same_or_not f g) [
      | inl e ↦
          subst (λ x. (changed x).page_id ≡ (b.frames x).page_id) e
            (ap (λ x. x.page_id) (put_same f page b.frames) ∙ i ∙ sym (inv.table_frame p f t))
      | inr ne ↦ ap (λ x. x.page_id) (put_other f page b.frames g ne)
    ]

    -- The frame of a page in the table may change so.
    pub put-Inv : Inv ops (record b { frames = changed; mru_pages = pages })
    put-Inv = record {
      table_frame = λ q g u. same_id g ∙ inv.table_frame q g u;
      table_valid = inv.table_valid;
      frame_table = λ g k. ap b.page_table (same_id g) ∙ inv.frame_table g (λ z. k (same_id g ∙ z));
      frame_once = λ g. rw (same_id g) (inv.frame_once g);
      size = inv.size;
      empty_clean = λ g k. elim (same_or_not f g) [
        | inl e ↦
            let w = inv.table_frame p f t in
            let v = cached_valid ops b inv p f t in
            let y = ap (λ x. (b.frames x).page_id) e in absurd (v (sym w ∙ y ∙ sym (same_id g) ∙ k))
        | inr ne ↦
            let o = put_other f page b.frames g ne in
            ap (λ x. x.is_dirty) o ∙ inv.empty_clean g (sym (same_id g) ∙ k)
      ];
      clean_stored = λ q g u z d. elim (same_or_not f g) [
        | inl e ↦
            let o : changed g ≡ page = subst (λ x. changed x ≡ page) e (put_same f page b.frames) in
            let w = inv.table_frame p f t in
            let y = inv.table_frame q g u in
            let k : p ≡ q = sym w ∙ ap (λ x. (b.frames x).page_id) e ∙ y in
            sym (ap (λ x. stored ops b.disk b.file x) k)
            ∙ c (ap (λ x. x.pin_count) (sym o) ∙ z) (ap (λ x. x.is_dirty) (sym o) ∙ d)
            ∙ ap (λ (x : Page). ok x.bytes) (sym o)
        | inr ne ↦
            let o = put_other f page b.frames g ne in
            inv.clean_stored q g u (ap (λ x. x.pin_count) (sym o) ∙ z)
              (ap (λ x. x.is_dirty) (sym o) ∙ d)
            ∙ ap (λ (x : Page). ok x.bytes) (sym o)
      ];
      data_size = λ g. elim (same_or_not f g) [
        | inl e ↦
            subst (λ x. length (changed x).bytes ≡ 8192) e
              (ap (λ x. length x.bytes) (put_same f page b.frames) ∙ l)
        | inr ne ↦ ap (λ x. length x.bytes) (put_other f page b.frames g ne) ∙ inv.data_size g
      ];
    }

  module _ (p f : ℕ) (t : b.page_table p ≡ some f) where
    -- A pin is added.
    pub cached-Inv :
        (b.frames f).pin_count + 1 < 2 ^ 32
        → Inv ops (record b {
          frames = put f (inc_pin_count (b.frames f)) b.frames;
          mru_pages = record_page p b.mru_pages;
        })
    cached-Inv h =
        put-Inv p f (inc_pin_count (b.frames f)) (record_page p b.mru_pages) t
          (inv.table_frame p f t) (inv.data_size f) (λ z. absurd (omega (arith, z, h)))

    -- The client has written to the bytes of a page in use.
    pub written-Inv :
        (bytes : List ℕ)
        → length bytes ≡ page_size
        → (b.frames f).pin_count ≢ 0
        → Inv ops (record b { frames = put f (record (b.frames f) { bytes = bytes }) b.frames })
    written-Inv bytes l ne =
        put-Inv p f (record (b.frames f) { bytes = bytes }) b.mru_pages t (inv.table_frame p f t) l
          (λ z. absurd (ne z))

    -- A pin is taken away. When it is the last, the page is dirty or as it is on the disk.
    pub unpinned-Inv :
        (dirty : Bool)
        → (b.frames f).pin_count ≢ 0
        → (b.frames f).pin_count < 2 ^ 32
        → ((b.frames f).pin_count ≡ 1
            → dirty ≡ false
            → (b.frames f).is_dirty ≡ false
            → stored ops b.disk b.file p ≡ ok (b.frames f).bytes)
        → Inv ops (unpin_page p dirty b)
    unfolding unpin_page
    unpinned-Inv dirty ne h promise =
        rw (unpin_page, t)
          (put-Inv p f
            (dec_pin_count
              (record (b.frames f) { is_dirty = if dirty then true else (b.frames f).is_dirty }))
            b.mru_pages t (inv.table_frame p f t) (inv.data_size f)
            (λ z d.
              let (x, y) = both dirty (b.frames f).is_dirty d in
              promise (omega (arith, z, h, ne)) x y))
