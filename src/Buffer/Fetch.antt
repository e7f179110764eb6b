-- ===== src/Buffer/Fetch.antt =====
-- What clients see of the buffer pool: the pages, and not which of them have a frame.
use duck_duck_dbms.Common.{
  ℕ, ◌+◌, ◌^◌, ◌<◌, ◌≡◌, ◌≢◌, refl, sym, ap, ◌∙◌, true, Option, none, some, Option-cases, inl, inr,
  arith, Result, ok,
}
use mathlib.Core.Path.{subst}
use duck_duck_dbms.Storage.Disk.{FileOps}
use duck_duck_dbms.Storage.Disk.Pages.{IsFile}
use duck_duck_dbms.Buffer.{
  Pool, invalid_page_id, put, inc_pin_count, record_page, find_cached_page, fetch_page, or_swap,
  swap_page,
}
use duck_duck_dbms.Buffer.Invariant.{Inv, IsBounded, stored, contents, contents_at}
use duck_duck_dbms.Buffer.Fill.{IsFilled, put_same, put_other}
use duck_duck_dbms.Buffer.Swap.{swap_page-IsSwapped}
use duck_duck_dbms.Buffer.Keep.{
  same_or_not, IsFilled-Inv, IsFilled-pinned, IsFilled-contents, p_old,
}
use duck_duck_dbms.Buffer.Pins.{cached-Inv}

module _ {File : Type 0} (ops : FileOps File) where
  -- The page has a frame with its bytes; the other pages have the bytes that they had, and those
  -- that somebody uses are in the frames that they were in.
  pub record IsFetched (b : Pool File) (p : ℕ) (f : ℕ) (b' : Pool File) : Type 0 where
    pub table : b'.page_table p ≡ some f
    pub bytes : contents ops b p ≡ ok (b'.frames f).bytes
    pub pinned : (b'.frames f).pin_count ≢ 0
    pub others : (q : ℕ) → p ≢ q → q ≢ invalid_page_id → contents ops b' q ≡ contents ops b q
    pub in_place :
        (q g : ℕ)
        → b.page_table q ≡ some g
        → (b.frames g).pin_count ≢ 0
        → (b'.page_table q ≡ some g) × ((b'.frames g).bytes ≡ (b.frames g).bytes)
    pub inv : Inv ops b'

  module _ (b : Pool File) (inv : Inv ops b) (p : ℕ) where
    abbrev pub pinned_pool : ℕ → Pool File
    pinned_pool f = record b {
      frames = put f (inc_pin_count (b.frames f)) b.frames;
      mru_pages = record_page p b.mru_pages;
    }

    same_bytes : (f g : ℕ) → ((pinned_pool f).frames g).bytes ≡ (b.frames g).bytes
    same_bytes f g = elim (same_or_not f g) [
      | inl e ↦
          subst (λ x. ((pinned_pool f).frames x).bytes ≡ (b.frames x).bytes) e
            (ap (λ x. x.bytes) (put_same f (inc_pin_count (b.frames f)) b.frames))
      | inr ne ↦ ap (λ x. x.bytes) (put_other f (inc_pin_count (b.frames f)) b.frames g ne)
    ]

    cached-IsFetched :
        (f : ℕ)
        → b.page_table p ≡ some f
        → (b.frames f).pin_count + 1 < 2 ^ 32
        → IsFetched b p f (pinned_pool f)
    cached-IsFetched f t h = record {
      table = t;
      bytes = ap (contents_at ops b p) t ∙ ap ok (sym (same_bytes f f));
      pinned = λ z.
          let y = ap (λ x. x.pin_count) (put_same f (inc_pin_count (b.frames f)) b.frames) in
          let w = sym y ∙ z in absurd (omega (arith, w, h));
      others = λ q ne v. elim (Option-cases (b.page_table q)) [
        | inl u ↦ ap (contents_at ops (pinned_pool f) q) u ∙ sym (ap (contents_at ops b q) u)
        | inr (g, u) ↦
            ap (contents_at ops (pinned_pool f) q) u
            ∙ ap ok (same_bytes f g)
            ∙ sym (ap (contents_at ops b q) u)
      ];
      in_place = λ q g u ne. (u, same_bytes f g);
      inv = cached-Inv ops b inv p f t h;
    }

    swapped-IsFetched :
        (f : ℕ) (b' : Pool File)
        → p ≢ invalid_page_id
        → b.page_table p ≡ none
        → IsFilled ops b p f b'
        → stored ops b.disk b'.file p ≡ ok (b'.frames f).bytes
        → IsFetched b p f b'
    swapped-IsFetched f b' v t s w = record {
      table = s.table_page;
      bytes =
          ap (contents_at ops b p) t
          ∙ sym (s.stored_other p (λ e. p_old ops b inv p f b' v t s (sym e)))
          ∙ w;
      pinned = λ z. let y = s.pinned in absurd (omega (arith, y, z));
      others = IsFilled-contents ops b inv p f b' v t s;
      in_place = λ q g u ne.
          let (x, y) = IsFilled-pinned ops b inv p f b' v t s q g u ne in (x, ap (λ x. x.bytes) y);
      inv = IsFilled-Inv ops b inv p f b' v t s;
    }

    pub find_cached_page-some :
        (f : ℕ) → b.page_table p ≡ some f → find_cached_page p b ≡ (some f, pinned_pool f)
    unfolding find_cached_page
    find_cached_page-some f t = rw (find_cached_page, t) refl

    pub find_cached_page-none : b.page_table p ≡ none → find_cached_page p b ≡ (none, b)
    unfolding find_cached_page
    find_cached_page-none t = rw (find_cached_page, t) refl

    -- No frame can be had and the pool is as before, or the page is fetched.
    abbrev pub IsAnswer : Option ℕ → Pool File → Type 0
    IsAnswer none b' = b' ≡ b
    IsAnswer (some f) b' = IsFetched b p f b'

    IsAnswer-cached :
        (f : ℕ) (r : Option ℕ) (b' : Pool File)
        → ◌≡◌ {A = Result (Option ℕ) × Pool File} (ok (some f), pinned_pool f) (ok r, b')
        → IsFetched b p f (pinned_pool f)
        → IsAnswer r b'
    IsAnswer-cached f r b' h s =
        let z : ok (some f) ≡ ok r = ap (λ z. z.0) h in
        let k : some f ≡ r = cc z in
        subst (λ x. IsAnswer x b') k (subst (IsFetched b p f) (ap (λ z. z.1) h) s)

    IsAnswer-swapped :
        (r : Option ℕ) (b' : Pool File)
        → p ≢ invalid_page_id
        → b.page_table p ≡ none
        → swap_page ops p true b ≡ (ok r, b')
        → IsFile ops
        → IsBounded ops
        → IsAnswer r b'
    IsAnswer-swapped none b' v t h is_file bounded =
        swap_page-IsSwapped ops is_file bounded b inv p true none b' h
    IsAnswer-swapped (some f) b' v t h is_file bounded =
        let (s, w) = swap_page-IsSwapped ops is_file bounded b inv p true (some f) b' h in
        swapped-IsFetched f b' v t s w

    -- On a file that behaves as POSIX says, a fetch from a well-formed pool that throws nothing gives
    -- no frame and leaves the pool as it was, or gives a frame that holds the bytes of the page: those
    -- of its frame, or else those on the disk. The page is then pinned, every other page has the bytes
    -- that it had, whichever page was evicted, the pages that somebody uses stay in their frames with
    -- their bytes, and the pool is well-formed. The page is not the invalid one, and no page has
    -- 2^32 - 1 pins.
    pub fetch_page-IsAnswer :
        IsFile ops
        → IsBounded ops
        → p ≢ invalid_page_id
        → ((f : ℕ) → (b.frames f).pin_count + 1 < 2 ^ 32)
        → (r : Option ℕ) (b' : Pool File) → fetch_page ops p b ≡ (ok r, b')
        → IsAnswer r b'
    unfolding fetch_page
    fetch_page-IsAnswer is_file bounded v pins r b' h = elim (Option-cases (b.page_table p)) [
      | inl t ↦
          IsAnswer-swapped r b' v t (sym (ap (or_swap ops p) (find_cached_page-none t)) ∙ h) is_file
            bounded
      | inr (f, t) ↦
          IsAnswer-cached f r b' (sym (ap (or_swap ops p) (find_cached_page-some f t)) ∙ h)
            (cached-IsFetched f t (pins f))
    ]
