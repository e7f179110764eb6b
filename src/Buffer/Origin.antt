-- ===== src/Buffer/Origin.antt =====
-- Which pages have a frame after a call: no page but the one that the call is about gets one.
use duck_duck_dbms.Common.{
  ℕ, ◌≡◌, ◌≢◌, refl, sym, ap, ◌∙◌, ◌⊎◌, inl, inr, Bool, true, false, Option, none, some,
  Option-cases, Bool-cases, ok, err, ltb, Result, if◌then◌else◌,
}
use mathlib.Core.Path.{subst}
use duck_duck_dbms.Storage.Disk.{FileOps, DiskManager, deallocate_page}
use duck_duck_dbms.Storage.Disk.Pages.{IsFile}
use duck_duck_dbms.Buffer.{
  Pool, invalid_page_id, put, fetch_page, delete_page, delete_at, given_back, release, swap_page,
  or_swap,
}
use duck_duck_dbms.Buffer.Invariant.{Inv, IsBounded}
use duck_duck_dbms.Buffer.Fill.{put_same, put_other}
use duck_duck_dbms.Buffer.Swap.{swap_page-IsSwapped}
use duck_duck_dbms.Buffer.Keep.{entry, same_or_not}
use duck_duck_dbms.Buffer.Fetch.{pinned_pool, find_cached_page-some, find_cached_page-none}

module _ {File : Type 0} where
  -- The disk manager is the same, and a page that has a frame had one, or is the page `p`.
  pub record OnlyAdds (p : ℕ) (b b' : Pool File) : Type 0 where
    pub disk : b'.disk ≡ b.disk
    pub origin :
        (q g : ℕ) → b'.page_table q ≡ some g → (p ≡ q) ⊎ ((g' : ℕ) × (b.page_table q ≡ some g'))

  same-OnlyAdds : (p : ℕ) (b b' : Pool File) → b' ≡ b → OnlyAdds p b b'
  same-OnlyAdds p b b' e = record {
    disk = ap (λ (x : Pool File). x.disk) e;
    origin = λ q g t. inr (g, sym (ap (λ (x : Pool File). x.page_table q) e) ∙ t);
  }

module _ {File : Type 0} (ops : FileOps File) (is_file : IsFile ops) (bounded : IsBounded ops)
    (b : Pool File) (inv : Inv ops b) (p : ℕ) where
  pub swap_page-OnlyAdds :
      (read : Bool) (r : Option ℕ) (b' : Pool File)
      → p ≢ invalid_page_id
      → b.page_table p ≡ none
      → swap_page ops p read b ≡ (ok r, b')
      → OnlyAdds p b b'
  swap_page-OnlyAdds read none b' v t h =
      same-OnlyAdds p b b' (swap_page-IsSwapped ops is_file bounded b inv p read none b' h)
  swap_page-OnlyAdds read (some f) b' v t h =
      let (s, _) = swap_page-IsSwapped ops is_file bounded b inv p read (some f) b' h in
      record {
        disk = s.disk;
        origin = λ q g u. elim (entry ops b inv p f b' v t s q g u) [
          | inl (e, _) ↦ inl e
          | inr (_, _, w) ↦ inr (g, w)
        ];
      }

  pub fetch_page-OnlyAdds :
      (r : Option ℕ) (b' : Pool File)
      → p ≢ invalid_page_id
      → fetch_page ops p b ≡ (ok r, b')
      → OnlyAdds p b b'
  unfolding fetch_page
  fetch_page-OnlyAdds r b' v h = elim (Option-cases (b.page_table p)) [
    | inl t ↦
        swap_page-OnlyAdds true r b' v t
          (sym (ap (or_swap ops p) (find_cached_page-none ops b inv p t)) ∙ h)
    | inr (f, t) ↦
        let k = sym (ap (or_swap ops p) (find_cached_page-some ops b inv p f t)) ∙ h in
        let e : pinned_pool ops b inv p f ≡ b' = ap (λ z. z.1) k in
        record {
          disk = sym (ap (λ (x : Pool File). x.disk) e);
          origin = λ q g u. inr (g, ap (λ (x : Pool File). x.page_table q) e ∙ u);
        }
  ]

-- A deletion that gives true has taken the frame of the page, and no other.
pub record IsRemoved {File : Type 0} (p : ℕ) (b b' : Pool File) : Type 0 where
  pub given : deallocate_page p b.disk ≡ ok b'.disk
  pub origin : (q g : ℕ) → b'.page_table q ≡ some g → (p ≢ q) × (b.page_table q ≡ some g)

abbrev pub DeleteAnswer : {File : Type 0} → ℕ → Pool File → Bool → Pool File → Type 0
DeleteAnswer p b true b' = IsRemoved p b b'
DeleteAnswer p b false b' = b' ≡ b

module _ {File : Type 0} (ops : FileOps File) (b : Pool File) (p : ℕ) where
  given_back-Answer :
      (b0 b' : Pool File) (d : Result DiskManager) (r : Bool)
      → deallocate_page p b.disk ≡ d
      → ((q g : ℕ) → b0.page_table q ≡ some g → (p ≢ q) × (b.page_table q ≡ some g))
      → given_back ops b0 d ≡ (ok r, b')
      → DeleteAnswer p b r b'
  given_back-Answer b0 b' (err e) r k o h = let z = ap (λ z. z.0) h in cc z
  given_back-Answer b0 b' (ok d) r k o h =
      let z : ok true ≡ ok r = ap (λ z. z.0) h in
      let w : true ≡ r = cc z in
      let e : record b0 { disk = d } ≡ b' = ap (λ z. z.1) h in
      subst (λ x. DeleteAnswer p b x b') w
        (record {
          given = k ∙ ap (λ (x : Pool File). ok x.disk) e;
          origin = λ q g u. o q g (ap (λ (x : Pool File). x.page_table q) e ∙ u);
        })

  pub delete_page-Answer :
      (r : Bool) (b' : Pool File) → delete_page ops p b ≡ (ok r, b') → DeleteAnswer p b r b'
  unfolding delete_page
  delete_page-Answer r b' h = elim (Option-cases (b.page_table p)) [
    | inl t ↦
        given_back-Answer b b' (deallocate_page p b.disk) r refl
          (λ q g u. (λ e. let w = sym (ap b.page_table e ∙ u) ∙ t in cc w, u))
          (sym (ap (delete_at ops p b) t) ∙ h)
    | inr (f, t) ↦
        let answer : Bool → Result Bool × Pool File = λ x.
          if x
          then (ok false, b)
          else given_back ops (release ops p f b) (deallocate_page p b.disk) in
        let k = sym (ap (delete_at ops p b) t) ∙ h in
        elim (Bool-cases (ltb 0 (b.frames f).pin_count)) [
          | inl l ↦
              let w = sym (ap answer l) ∙ k in
              let z : ok false ≡ ok r = ap (λ z. z.0) w in
              let y : false ≡ r = cc z in
              subst (λ x. DeleteAnswer p b x b') y (sym (ap (λ z. z.1) w))
          | inr l ↦
              given_back-Answer (release ops p f b) b' (deallocate_page p b.disk) r refl
                (λ q g u. elim (same_or_not p q) [
                  | inl e ↦
                      let w =
                        sym (put_same p none b.page_table) ∙ ap (put p none b.page_table) e ∙ u in
                      cc w
                  | inr ne ↦ (ne, sym (put_other p none b.page_table q ne) ∙ u)
                ])
                (sym (ap answer l) ∙ k)
        ]
  ]
