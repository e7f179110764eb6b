-- ===== src/Buffer/Keep.antt =====
-- Giving a frame to a page keeps the pool well-formed, the bytes of the other pages, and the frames
-- of the pages in use.
use duck_duck_dbms.Common.{
  ℕ, ◌+◌, ◌≤◌, ◌≡◌, ◌≢◌, sym, ap, ◌∙◌, true, false, none, some, ltb, ◌==◌, Option-cases, Bool-cases,
  inl, inr, ◌⊎◌, arith, ==_iff, ok, length,
}
use mathlib.Core.Path.{subst}
use duck_duck_dbms.Storage.Disk.{FileOps}
use duck_duck_dbms.Storage.Disk.Allocation.{count, one}
use duck_duck_dbms.Buffer.{Page, Pool, invalid_page_id}
use duck_duck_dbms.Buffer.Invariant.{
  Inv, stored, contents, contents_at, is_occupied, cached_valid, cached_occupied,
}
use duck_duck_dbms.Buffer.Fill.{IsFilled}

pub same_or_not : (a b : ℕ) → (a ≡ b) ⊎ (a ≢ b)
same_or_not a b = elim (Bool-cases (a == b)) [
  | inl e ↦ inl ((==_iff a b).0 e)
  | inr e ↦ inr (λ k. let y = (==_iff a b).1 k in cc (y, e))
]

module _ {File : Type 0} (ops : FileOps File) (b : Pool File) (inv : Inv ops b) (p f : ℕ)
    (b' : Pool File) (valid : p ≢ invalid_page_id) (absent : b.page_table p ≡ none)
    (s : IsFilled ops b p f b') where
  abbrev id : ℕ
  id = (b.frames f).page_id

  -- The page is not the one that was in the frame.
  pub p_old : p ≢ id
  p_old e = elim (same_or_not id invalid_page_id) [
    | inl k ↦ valid (e ∙ k)
    | inr ne ↦ let t = inv.frame_table f ne in let u = ap b.page_table e in cc (t, u, absent)
  ]

  other_frame : (q g : ℕ) → id ≢ q → b.page_table q ≡ some g → f ≢ g
  other_frame q g ne t e =
      let k = inv.table_frame q g t in ne (ap (λ x. (b.frames x).page_id) e ∙ k)

  -- An entry of the new page table is the new one, or an old one of another frame.
  pub entry :
      (q g : ℕ)
      → b'.page_table q ≡ some g
      → ((p ≡ q) × (f ≡ g)) ⊎ ((id ≢ q) × (f ≢ g) × (b.page_table q ≡ some g))
  entry q g t = elim (same_or_not p q) [
    | inl e ↦
        let u : b'.page_table q ≡ some f = subst (λ x. b'.page_table x ≡ some f) e s.table_page in
        inl (e, cc (t, u))
    | inr ne ↦ elim (same_or_not id q) [
      | inl e ↦
          let u : b'.page_table q ≡ none =
            subst (λ x. b'.page_table x ≡ none) e (s.table_old p_old) in
          cc (t, u)
      | inr ne' ↦ let w = sym (s.table_other q ne ne') ∙ t in inr (ne', other_frame q g ne' w, w)
    ]
  ]

  kept_frame_table :
      (g : ℕ)
      → f ≢ g
      → (b.frames g).page_id ≢ invalid_page_id
      → b'.page_table (b.frames g).page_id ≡ some g
  kept_frame_table g ne k =
      let t = inv.frame_table g k in
      let np : p ≢ (b.frames g).page_id = λ e. let u = ap b.page_table e in cc (u, t, absent) in
      let ni : id ≢ (b.frames g).page_id = λ e.
        let u = inv.frame_table f (λ z. k (sym e ∙ z)) in
        let w = ap b.page_table e in let c : some f ≡ some g = sym u ∙ w ∙ t in ne (cc c) in
      s.table_other (b.frames g).page_id np ni ∙ t

  -- The pool is well-formed.
  pub IsFilled-Inv : Inv ops b'
  IsFilled-Inv = record {
    table_frame = λ q g t. elim (entry q g t) [
      | inl (e, k) ↦ subst (λ x. (b'.frames x).page_id ≡ q) k (s.page_id ∙ e)
      | inr (_, ne, w) ↦ ap (λ x. x.page_id) (s.frame_other g ne) ∙ inv.table_frame q g w
    ];
    table_valid = elim (same_or_not id invalid_page_id) [
      | inl e ↦ subst (λ x. b'.page_table x ≡ none) e (s.table_old p_old)
      | inr ne ↦ s.table_other invalid_page_id valid ne ∙ inv.table_valid
    ];
    frame_table = λ g k. elim (same_or_not f g) [
      | inl e ↦
          subst (λ x. b'.page_table (b'.frames x).page_id ≡ some x) e
            (ap b'.page_table s.page_id ∙ s.table_page)
      | inr ne ↦
          let o = s.frame_other g ne in
          subst (λ (x : Page). b'.page_table x.page_id ≡ some g) (sym o)
            (kept_frame_table g ne (subst (λ (x : Page). x.page_id ≢ invalid_page_id) o k))
    ];
    frame_once = λ g. elim (same_or_not f g) [
      | inl e ↦
          let (c, l, _, _, _) = s.taken in
          subst
            (λ x.
              count x b'.free_frames_list + one (is_occupied (b'.frames x))
              ≤ one (ltb x b'.pool_size))
            e (ground (arith, c, l))
      | inr ne ↦ let (_, _, _, r, _) = s.taken in rw (s.frame_other g ne) (r g ne)
    ];
    size = let (_, _, c, _, _) = s.taken in rw s.capacity c;
    empty_clean = λ g k. elim (same_or_not f g) [
      | inl e ↦ subst (λ x. (b'.frames x).is_dirty ≡ false) e s.clean
      | inr ne ↦
          let o = s.frame_other g ne in
          ap (λ x. x.is_dirty) o ∙ inv.empty_clean g (ap (λ x. x.page_id) (sym o) ∙ k)
    ];
    clean_stored = λ q g t z d. elim (entry q g t) [
      | inl (e, k) ↦
          let w : (b'.frames g).pin_count ≡ 1 =
            subst (λ x. (b'.frames x).pin_count ≡ 1) k s.pinned in
          absurd (omega (arith, w, z))
      | inr (ne, nf, w) ↦
          let o = s.frame_other g nf in
          ap (λ d. stored ops d b'.file q) s.disk
          ∙ s.stored_other q ne
          ∙ inv.clean_stored q g w (ap (λ x. x.pin_count) (sym o) ∙ z)
              (ap (λ x. x.is_dirty) (sym o) ∙ d)
          ∙ ap (λ (x : Page). ok x.bytes) (sym o)
    ];
    data_size = λ g. elim (same_or_not f g) [
      | inl e ↦ subst (λ x. length (b'.frames x).bytes ≡ 8192) e s.size
      | inr ne ↦ ap (λ x. length x.bytes) (s.frame_other g ne) ∙ inv.data_size g
    ];
  }

  -- A page that somebody uses stays in its frame.
  pub IsFilled-pinned :
      (q g : ℕ)
      → b.page_table q ≡ some g
      → (b.frames g).pin_count ≢ 0
      → (b'.page_table q ≡ some g) × (b'.frames g ≡ b.frames g)
  IsFilled-pinned q g t ne =
      let (_, _, _, _, unused) = s.taken in
      let nf : f ≢ g = λ e. ne (
        subst (λ x. (b.frames x).pin_count ≡ 0) e
          (unused (
            subst (λ x. is_occupied (b.frames x) ≡ true) (sym e)
              (cached_occupied ops b inv q g t)))) in
      let np : p ≢ q = λ e. let u = ap b.page_table e in cc (u, t, absent) in
      let ni : id ≢ q = λ e.
        let k = cached_valid ops b inv q g t in
        let u = inv.frame_table f (λ z. k (sym e ∙ z)) in
        let w = ap b.page_table e in let c : some f ≡ some g = sym u ∙ w ∙ t in nf (cc c) in
      (s.table_other q np ni ∙ t, s.frame_other g nf)

  -- The other pages have the bytes that they had.
  pub IsFilled-contents :
      (q : ℕ) → p ≢ q → q ≢ invalid_page_id → contents ops b' q ≡ contents ops b q
  IsFilled-contents q ne v = elim (same_or_not id q) [
    | inl e ↦
        let ni : id ≢ invalid_page_id = λ z. v (sym e ∙ z) in
        let moved =
          ap (contents_at ops b' id) (s.table_old p_old)
          ∙ ap (λ d. stored ops d b'.file id) s.disk
          ∙ s.stored_old ni
          ∙ sym (ap (contents_at ops b id) (inv.frame_table f ni)) in
        subst (λ x. contents ops b' x ≡ contents ops b x) e moved
    | inr ni ↦
        ap (contents_at ops b' q) (s.table_other q ne ni) ∙ (elim (Option-cases (b.page_table q)) [
          | inl t ↦
              ap (contents_at ops b' q) t
              ∙ ap (λ d. stored ops d b'.file q) s.disk
              ∙ s.stored_other q ni
              ∙ sym (ap (contents_at ops b q) t)
          | inr (g, t) ↦
              ap (contents_at ops b' q) t
              ∙ ap (λ (x : Page). ok x.bytes) (s.frame_other g (other_frame q g ni t))
              ∙ sym (ap (contents_at ops b q) t)
        ])
  ]
