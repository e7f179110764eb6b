-- ===== src/Storage/Endless.antt =====
-- A file without an end, which has a byte at every offset: a function of the operating system that
-- behaves as the theorems on pages ask.
use duck_duck_dbms.Common.{
  ℕ, zero, suc, ◌+◌, ◌≤◌, ◌<◌, ◌≡◌, refl, sym, ap, ◌∙◌, some, List, [], ◌∷◌, arith, ◌==◌, ==_refl,
  if◌then◌else◌, length, ◌⊎◌,
}
use mathlib.Core.Path.{ap₂}
use duck_duck_dbms.Storage.Disk.{FileOps}
use duck_duck_dbms.Storage.Disk.Pages.{padded, IsFile}

abbrev pub load : ℕ → ℕ → (ℕ → ℕ) → List ℕ
load o zero file = []
load o (suc n) file = file o ∷ load (suc o) n file

abbrev pub store : ℕ → List ℕ → (ℕ → ℕ) → ℕ → ℕ
store o [] file = file
store o (b ∷ bytes) file = λ i. if o == i then b else store (suc o) bytes file i

abbrev pub endless : FileOps (ℕ → ℕ)
endless = record {
  pread = λ o n file. some (load o n file);
  pwrite = λ o bytes file. (some (length bytes), store o bytes file);
}

store_apart :
    (o i : ℕ) (bytes : List ℕ) (file : ℕ → ℕ)
    → (i < o) ⊎ (o + length bytes ≤ i)
    → store o bytes file i ≡ file i
store_apart o i [] file h = refl
store_apart o i (b ∷ bytes) file h =
    ground (arith, h, store_apart (suc o) i bytes file (ground (arith, h)))

load_same :
    (o n : ℕ) (f g : ℕ → ℕ) → ((i : ℕ) → o ≤ i → i < o + n → f i ≡ g i) → load o n f ≡ load o n g
load_same o zero f g h = refl
load_same o (suc n) f g h =
    ap₂ (λ b l. b ∷ l) (h o (omega arith) (omega arith))
      (load_same (suc o) n f g (λ i a b. h i (omega (arith, a)) (omega (arith, b))))

load-store :
    (o : ℕ) (bytes : List ℕ) (file : ℕ → ℕ) → load o (length bytes) (store o bytes file) ≡ bytes
load-store o [] file = refl
load-store o (b ∷ bytes) file =
    ap₂ (λ c l. c ∷ l) (rw (==_refl o) refl)
      (load_same (suc o) (length bytes) (store o (b ∷ bytes) file) (store (suc o) bytes file)
          (λ i l u. ground (arith, l))
        ∙ load-store (suc o) bytes file)

pub endless-IsFile : IsFile endless
endless-IsFile = record {
  same = λ o bytes file h. ap some (load-store o bytes file);
  other = λ o o' n bytes file h d.
      ap (λ l. padded n (some l))
        (load_same o' n (store o bytes file) file
          (λ i l u. store_apart o i bytes file (ground (arith, d, l, u))));
}

length-load : (o n : ℕ) (file : ℕ → ℕ) → length (load o n file) ≡ n
length-load o zero file = refl
length-load o (suc n) file = ap suc (length-load (suc o) n file)

-- A read gives no more bytes than it is asked for.
pub endless_bounded :
    (o n : ℕ) (file : ℕ → ℕ) (bytes : List ℕ)
    → endless.pread o n file ≡ some bytes
    → length bytes ≤ n
endless_bounded o n file bytes h =
    let k : load o n file ≡ bytes = cc h in
    let e = length-load o n file in rw (sym k) (omega (arith, e))
