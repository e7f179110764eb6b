-- ===== src/Buffer.antt =====
-- The buffer pool (src/buffer/pool_manager.cpp, replacer.cpp and page.cpp). A call gives its result,
-- or what it throws, and the pool that it leaves. Calls are one after the other: the latches are
-- not modelled. The file and what the operating system does to it are a parameter.
pub mod Invariant
mod Choose
mod Evict
mod Fill
mod Swap
mod Keep
mod Pins
pub mod Fetch
mod Disks
mod Delete
pub mod Flush
mod Origin
pub mod Clients
pub mod Steps
mod Examples
use duck_duck_dbms.Common.{
  ℕ, zero, suc, ◌+◌, ◌-◌, ◌%◌, ◌^◌, Bool, true, false, not, Option, none, some, List, [], ◌∷◌, ◌++◌,
  keep, replicate, ltb, ◌==◌, if◌then◌else◌, Result, ok, err,
}
use duck_duck_dbms.Table.Page.{page_size}
use duck_duck_dbms.Storage.Disk.{
  DiskManager, FileOps, pop_back, allocate_page, deallocate_page, read_page, write_page,
}

abbrev pub invalid_page_id : ℕ
invalid_page_id = 2 ^ 32 - 1

pub record Page : Type 0 where
  pub page_id : ℕ
  pub bytes : List ℕ
  pub pin_count : ℕ
  pub is_dirty : Bool

abbrev pub blank : List ℕ
blank = replicate page_size 0

abbrev pub inc_pin_count : Page → Page
inc_pin_count p = record p { pin_count = (p.pin_count + 1) % 2 ^ 32 }

abbrev pub dec_pin_count : Page → Page
dec_pin_count p = record p { pin_count = (p.pin_count + (2 ^ 32 - 1)) % 2 ^ 32 }

unfoldable pub reset_memory : ℕ → Page → Page
reset_memory id p = record { page_id = id; bytes = blank; pin_count = 0; is_dirty = false }

-- A map or an array with one entry changed.
abbrev pub put {ℓ} : {A : Type ℓ} → ℕ → A → (ℕ → A) → ℕ → A
put i a m j = if i == j then a else m j

-- `frames` are the frames below the capacity. The replacer is its list of pages, the least recently
-- used first; `positions_` only finds a page in that list.
pub record Pool (File : Type 0) : Type 0 where
  pub pool_capacity : ℕ
  pub pool_size : ℕ
  pub frames : ℕ → Page
  pub page_table : ℕ → Option ℕ
  pub free_frames_list : List ℕ
  pub mru_pages : List ℕ
  pub disk : DiskManager
  pub file : File

abbrev pub empty_page : Page
empty_page = record { page_id = invalid_page_id; bytes = blank; pin_count = 0; is_dirty = false }

abbrev pub make_pool : {File : Type 0} → ℕ → DiskManager → File → Pool File
make_pool capacity disk file = record {
  pool_capacity = capacity;
  pool_size = 0;
  frames = λ f. empty_page;
  page_table = λ p. none;
  free_frames_list = [];
  mru_pages = [];
  disk = disk;
  file = file;
}

-- BufferReplacer::remove and BufferReplacer::record.
unfoldable pub remove : ℕ → List ℕ → List ℕ
remove p = keep (λ q. not (q == p))

unfoldable pub record_page : ℕ → List ℕ → List ℕ
record_page p pages = remove p pages ++ p ∷ []

abbrev pub is_unpinned : (ℕ → Page) → Option ℕ → Bool
is_unpinned frames none = false
is_unpinned frames (some f) = (frames f).pin_count == 0

-- `none` is the answer INVALID_PAGE_ID. The caller treats a page of that identifier like it.
unfoldable pub find_lru : (ℕ → Option ℕ) → (ℕ → Page) → List ℕ → Option ℕ
find_lru table frames [] = none
find_lru table frames (p ∷ ps) =
    let rest = find_lru table frames ps in if is_unpinned frames (table p) then some p else rest

-- The rest of a call, which a throw skips.
abbrev pub unless_thrown :
    {File A B : Type 0}
    → Result A × Pool File
    → (Pool File → Result B × Pool File)
    → Result B × Pool File
unless_thrown (ok _, b) next = next b
unless_thrown (err e, b) next = (err e, b)

module _ {File : Type 0} where
  -- A frame that holds no page, or whose page nobody uses. `[]` on the page table inserts frame 0
  -- for a page that it does not have.
  unfoldable pub find_next_frame : Pool File → Option ℕ × Pool File
  find_next_frame b = elim (pop_back b.free_frames_list) [
    | some (rest, f) ↦ (some f, record b { free_frames_list = rest })
    | none ↦
        if ltb b.pool_size b.pool_capacity
        then (some b.pool_size, record b { pool_size = b.pool_size + 1 })
        else elim (find_lru b.page_table b.frames b.mru_pages) [
          | none ↦ (none, b)
          | some p ↦ if p == invalid_page_id then (none, b) else elim (b.page_table p) [
            | some f ↦ (some f, b)
            | none ↦ (some 0, record b { page_table = put p (some 0) b.page_table })
          ]
        ]
  ]

  unfoldable pub find_cached_page : ℕ → Pool File → Option ℕ × Pool File
  find_cached_page p b = elim (b.page_table p) [
    | none ↦ (none, b)
    | some f ↦ (
      some f,
      record b {
        frames = put f (inc_pin_count (b.frames f)) b.frames;
        mru_pages = record_page p b.mru_pages;
      },
    )
  ]

  -- The page that the frame holds is forgotten.
  unfoldable pub forget : ℕ → Pool File → Pool File
  forget f b =
      let id = (b.frames f).page_id in
      if id == invalid_page_id
      then b
      else record b { page_table = put id none b.page_table; mru_pages = remove id b.mru_pages }

  -- The frame gets a page of zeros, with one pin.
  unfoldable pub assign : ℕ → ℕ → Pool File → Pool File
  assign p f b = record b {
    page_table = put p (some f) b.page_table;
    frames = put f (inc_pin_count (reset_memory p (b.frames f))) b.frames;
    mru_pages = record_page p b.mru_pages;
  }

  unfoldable pub unpin_page : ℕ → Bool → Pool File → Pool File
  unpin_page p dirty b = elim (b.page_table p) [
    | none ↦ b
    | some f ↦
        let page = b.frames f in
        record b {
          frames =
              put f
                (dec_pin_count (record page { is_dirty = if dirty then true else page.is_dirty }))
                b.frames;
        }
  ]

  module _ (ops : FileOps File) where
    unfoldable pub flush_page : Page → Pool File → Result (Unit {0}) × Pool File
    flush_page page b = elim (write_page ops b.disk page.page_id page.bytes b.file) [
      | err e ↦ (err e, b)
      | ok file ↦ (ok tt, record b { file = file })
    ]

    unfoldable pub evict : ℕ → Pool File → Result (Unit {0}) × Pool File
    evict f b =
        let page = b.frames f in
        let b' = forget f b in
        let flushed = flush_page page b' in if page.is_dirty then flushed else (ok tt, b')

    unfoldable pub load : ℕ → ℕ → Pool File → Result (Option ℕ) × Pool File
    load p f b = elim (read_page ops b.disk p (b.frames f).bytes b.file) [
      | err e ↦ (err e, b)
      | ok read ↦
          (ok (some f), record b { frames = put f (record (b.frames f) { bytes = read }) b.frames })
    ]

    -- The frame is given to the page.
    unfoldable pub fill_frame : ℕ → Bool → ℕ → Pool File → Result (Option ℕ) × Pool File
    fill_frame p read_from_disk f b =
        unless_thrown (evict f b)
          λ b'. let b2 = assign p f b' in if read_from_disk then load p f b2 else (ok (some f), b2)

    -- What is done with the frame that was found, or with none.
    abbrev pub swap_into : ℕ → Bool → Option ℕ × Pool File → Result (Option ℕ) × Pool File
    swap_into p read_from_disk (none, b) = (ok none, b)
    swap_into p read_from_disk (some f, b) = fill_frame p read_from_disk f b

    unfoldable pub swap_page : ℕ → Bool → Pool File → Result (Option ℕ) × Pool File
    swap_page p read_from_disk b = swap_into p read_from_disk (find_next_frame b)

    abbrev pub or_swap : ℕ → Option ℕ × Pool File → Result (Option ℕ) × Pool File
    or_swap p (some f, b) = (ok (some f), b)
    or_swap p (none, b) = swap_page p true b

    unfoldable pub fetch_page : ℕ → Pool File → Result (Option ℕ) × Pool File
    fetch_page p b = or_swap p (find_cached_page p b)

    unfoldable pub new_page : Pool File → Result (Option ℕ) × Pool File
    new_page b =
        let (p, disk) = allocate_page b.disk in swap_page p false (record b { disk = disk })

    -- The page is given back to the disk manager, after what is done to its frame.
    abbrev pub given_back : Pool File → Result DiskManager → Result Bool × Pool File
    given_back b (err e) = (err e, b)
    given_back b (ok disk) = (ok true, record b { disk = disk })

    abbrev pub release : ℕ → ℕ → Pool File → Pool File
    release p f b = record b {
      page_table = put p none b.page_table;
      mru_pages = remove p b.mru_pages;
      frames = put f (reset_memory invalid_page_id (b.frames f)) b.frames;
      free_frames_list = b.free_frames_list ++ f ∷ [];
    }

    abbrev pub delete_at : ℕ → Pool File → Option ℕ → Result Bool × Pool File
    delete_at p b none = given_back b (deallocate_page p b.disk)
    delete_at p b (some f) =
        if ltb 0 (b.frames f).pin_count
        then (ok false, b)
        else given_back (release p f b) (deallocate_page p b.disk)

    unfoldable pub delete_page : ℕ → Pool File → Result Bool × Pool File
    delete_page p b = delete_at p b (b.page_table p)

    abbrev pub flush_if : Bool → Page → Pool File → Result (Unit {0}) × Pool File
    flush_if true page b = flush_page page b
    flush_if false page b = (ok tt, b)

    -- The dirty frames from `id` on, as many as the number. They stay dirty.
    unfoldable pub flush_frames : ℕ → ℕ → Pool File → Result (Unit {0}) × Pool File
    flush_frames zero id b = (ok tt, b)
    flush_frames (suc n) id b =
        unless_thrown (flush_if (b.frames id).is_dirty (b.frames id) b)
          λ b'. flush_frames n (id + 1) b'

    abbrev pub flush_all : Pool File → Result (Unit {0}) × Pool File
    flush_all b = flush_frames b.pool_size 0 b
