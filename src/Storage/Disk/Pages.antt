-- ===== src/Storage/Disk/Pages.antt =====
-- What is written to a page is read back, and no other page changes.
use duck_duck_dbms.Common.{
  ℕ, zero, suc, ◌+◌, ◌-◌, ◌*◌, ◌≤◌, ◌<◌, ◌≡◌, ◌≢◌, refl, sym, ap, ◌∙◌, Bool, true, false, not,
  Option, none, some, List, [], ◌∷◌, ◌++◌, arith, ltb, ◌==◌, if◌then◌else◌, length, take, drop,
  replicate, Option-cases, Bool-cases, inl, inr, ◌⊎◌, Result, ==_iff, lt→ltb, ok, err,
  not_allocated, short_buffer, io_failed,
}
use mathlib.Core.Path.{subst}
use duck_duck_dbms.Table.Page.{page_size}
use duck_duck_dbms.Storage.Disk.{DiskManager, FileOps, write_page, read_page}

-- The bytes of a read, with zeros behind the end of the file.
abbrev pub padded : ℕ → Option (List ℕ) → Option (List ℕ)
padded n none = none
padded n (some bytes) = some (bytes ++ replicate (n - length bytes) 0)

-- What POSIX says of a regular file: a complete write is read back, and it leaves every range of
-- bytes that it does not meet as it was, where the space behind the end of the file reads as
-- zeros.
pub record IsFile {File : Type 0} (ops : FileOps File) : Type 0 where
  pub same :
      (o : ℕ) (bytes : List ℕ) (file : File)
      → (ops.pwrite o bytes file).0 ≡ some (length bytes)
      → ops.pread o (length bytes) (ops.pwrite o bytes file).1 ≡ some bytes
  pub other :
      (o o' n : ℕ) (bytes : List ℕ) (file : File)
      → (ops.pwrite o bytes file).0 ≡ some (length bytes)
      → (o + length bytes ≤ o') ⊎ (o' + n ≤ o)
      → padded n (ops.pread o' n (ops.pwrite o bytes file).1) ≡ padded n (ops.pread o' n file)

length-take : (n : ℕ) (xs : List ℕ) → n ≤ length xs → length (take n xs) ≡ n
length-take zero xs h = refl
length-take (suc n) [] h = absurd (omega arith)
length-take (suc n) (x ∷ xs) h = ap suc (length-take n xs (omega arith))

pub append-[] : (xs : List ℕ) → xs ++ [] ≡ xs
append-[] [] = refl
append-[] (x ∷ xs) = ap (λ l. x ∷ l) (append-[] xs)

large_enough : (a b : ℕ) → b ≤ a → ltb a b ≡ false
large_enough a b h = ground (arith, h)

apart : (p q : ℕ) → p ≢ q → (p * 8192 + 8192 ≤ q * 8192) ⊎ (q * 8192 + 8192 ≤ p * 8192)
apart p q ne = elim (Bool-cases (ltb p q)) [
  | inl e ↦ inl (ground arith)
  | inr e ↦ inr (ground (arith, ne))
]

-- A whole page needs no zeros.
padded_whole : (n : ℕ) (bytes : List ℕ) → length bytes ≡ n → padded n (some bytes) ≡ some bytes
padded_whole n bytes h =
    let e : n - length bytes ≡ 0 = omega (arith, h) in ap some (rw e (append-[] bytes))

module _ {File : Type 0} (ops : FileOps File) (d : DiskManager) where
  -- What a read makes of the answer of the operating system.
  abbrev answer : List ℕ → Option (List ℕ) → Result (List ℕ)
  answer target none = err io_failed
  answer target (some bytes) = ok (bytes ++ drop page_size target)

  read_page-answer :
      (q : ℕ) (target : List ℕ) (file : File)
      → read_page ops d q target file ≡ (
          if not (ltb q d.capacity)
          then err not_allocated
          else if ltb (length target) page_size
          then err short_buffer
          else answer target (padded page_size (ops.pread (q * page_size) page_size file)))
  unfolding read_page
  read_page-answer q target file = elim (Option-cases (ops.pread (q * page_size) page_size file)) [
    | inl e ↦ rw (e, read_page)
    | inr (b, e) ↦ rw (e, read_page)
  ]

  passed :
      (a b : Bool) (w : Option ℕ × File) (file' : File)
      → (if not a then err not_allocated else if b then err short_buffer else elim w.0 [
        | none ↦ err io_failed
        | some n ↦ if n == page_size then ok w.1 else err io_failed
      ])
        ≡ ok file'
      → (a ≡ true) × (b ≡ false) × (w.0 ≡ some page_size) × (w.1 ≡ file')
  passed false b w file' h = cc
  passed true true w file' h = cc
  passed true false (none, f) file' h = cc
  passed true false (some n, f) file' h = elim (Bool-cases (n == page_size)) [
    | inl e ↦ (refl, refl, ap some ((==_iff n page_size).0 e), cc (h, e))
    | inr e ↦ cc (h, e)
  ]

  -- What holds when a write has succeeded.
  written :
      (p : ℕ) (buffer : List ℕ) (file file' : File)
      → write_page ops d p buffer file ≡ ok file'
      → (p < d.capacity)
        × (page_size ≤ length buffer)
        × ((ops.pwrite (p * page_size) (take page_size buffer) file).0 ≡ some page_size)
        × ((ops.pwrite (p * page_size) (take page_size buffer) file).1 ≡ file')
  unfolding write_page
  written p buffer file file' h =
      let (a, b, c, e) =
        passed (ltb p d.capacity) (ltb (length buffer) page_size)
          (ops.pwrite (p * page_size) (take page_size buffer) file) file' h in
      (ground (arith, a), ground (arith, b), c, e)

  module _ (is_file : IsFile ops) where
    module _ (o n : ℕ) (bytes : List ℕ) (file : File) (len : length bytes ≡ n)
        (c : (ops.pwrite o bytes file).0 ≡ some n) where
      stored : padded n (ops.pread o n (ops.pwrite o bytes file).1) ≡ some bytes
      stored =
          subst (λ k. padded n (ops.pread o k (ops.pwrite o bytes file).1) ≡ some bytes) len
            (ap (padded n) (is_file.same o bytes file (c ∙ ap some (sym len)))
              ∙ padded_whole n bytes len)

      kept :
          (o' : ℕ)
          → (o + n ≤ o') ⊎ (o' + n ≤ o)
          → padded n (ops.pread o' n (ops.pwrite o bytes file).1) ≡ padded n (ops.pread o' n file)
      kept o' h = is_file.other o o' n bytes file (c ∙ ap some (sym len)) (ground (arith, h, len))

    -- On a file that behaves as POSIX says, a page that was written without an error reads back,
    -- into any buffer that is large enough, and every other page reads as before.
    pub read_page-write_page :
        (p : ℕ) (buffer target : List ℕ) (file file' : File)
        → page_size ≤ length target
        → write_page ops d p buffer file ≡ ok file'
        → (read_page ops d p target file' ≡ ok (take page_size buffer ++ drop page_size target))
          × ((q : ℕ) → p ≢ q → read_page ops d q target file' ≡ read_page ops d q target file)
    read_page-write_page p buffer target file file' large h =
        let (a, b, c, e) = written p buffer file file' h in
        let len = length-take page_size buffer b in
        let page : padded page_size (ops.pread (p * page_size) page_size file')
            ≡ some (take page_size buffer) =
          rw (sym e) (stored (p * page_size) page_size (take page_size buffer) file len c) in
        (
          read_page-answer p target file'
              ∙ rw (page, lt→ltb _ _ a) (rw (large_enough _ _ large) refl),
          λ q ne.
              let other =
                kept (p * page_size) page_size (take page_size buffer) file len c (q * page_size)
                  (apart p q ne) in
              read_page-answer q target file'
              ∙ rw (sym e, other) refl
              ∙ sym (read_page-answer q target file),
        )
