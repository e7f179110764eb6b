-- ===== src/Buffer/Examples.antt =====
-- The theorems on the buffer pool at a pool of two frames over an empty file.
use duck_duck_dbms.Common.{
  ℕ, ◌+◌, ◌^◌, ◌<◌, ◌≡◌, refl, true, some, [], Bool-cases, inl, inr, arith, ok, ◌==◌,
}
use duck_duck_dbms.Storage.Disk.{DiskManager, allocate_page, pop_back, write_page}
use duck_duck_dbms.Storage.Endless.{endless, endless-IsFile, endless_bounded}
use duck_duck_dbms.Buffer.{
  Pool, make_pool, new_page, fetch_page, flush_all, unpin_page, swap_page, find_next_frame,
  find_cached_page, fill_frame, evict, forget, assign, reset_memory, flush_frames, flush_page,
}
use duck_duck_dbms.Buffer.Invariant.{Inv, stored}
use duck_duck_dbms.Buffer.Fetch.{IsAnswer, fetch_page-IsAnswer}
use duck_duck_dbms.Buffer.Flush.{flush_all-IsFlushed}
use duck_duck_dbms.Storage.Disk.Allocation
use duck_duck_dbms.Storage.Disk.Allocation.{mark}
use duck_duck_dbms.Buffer.Clients.{Clients, IsKept, creates, Steps, start, followed, unpins}
use duck_duck_dbms.Buffer.Steps.{make_pool-Steps}

abbrev File : Type 0
File = ℕ → ℕ

abbrev empty_file : File
empty_file i = 0

abbrev disk : DiskManager
disk = record { capacity = 1; free_list = [] }

abbrev new_pool : Pool File
new_pool = make_pool 2 disk empty_file

-- A page of its own has been created.
abbrev used : Pool File
used = (new_page endless new_pool).1

page_created : new_page endless new_pool ≡ (ok (some 0), used)
unfolding new_page allocate_page pop_back swap_page find_next_frame fill_frame evict forget assign
    reset_memory
page_created = refl

-- Clients of the pools above, and the pages that they use.
abbrev at_start : Clients File
at_start = record { pool = new_pool; used = Allocation.init.used }

abbrev with_page : Clients File
with_page = record { pool = used; used = mark (allocate_page disk).0 true at_start.used }

created : Steps endless at_start with_page
created = followed start (creates (some 0) (omega arith) page_created)

init-Inv : Allocation.Inv Allocation.init
init-Inv p = ground arith

with_page-IsKept : IsKept endless with_page
with_page-IsKept =
    make_pool-Steps endless endless-IsFile endless_bounded 2 Allocation.init empty_file with_page
      init-Inv (omega arith) created

used-Inv : Inv endless used
used-Inv = with_page-IsKept.inv

used_table : used.page_table 1 ≡ some 0
unfolding new_page allocate_page pop_back swap_page find_next_frame fill_frame evict forget assign
    reset_memory
used_table = refl

few_pins : (f : ℕ) → (used.frames f).pin_count + 1 < 2 ^ 32
unfolding new_page allocate_page pop_back swap_page find_next_frame fill_frame evict forget assign
    reset_memory
few_pins f = elim (Bool-cases (0 == f)) [ inl e ↦ rw e (omega arith) | inr e ↦ rw e (omega arith) ]

fetched : fetch_page endless 1 used ≡ (ok (some 0), (fetch_page endless 1 used).1)
unfolding fetch_page find_cached_page new_page allocate_page pop_back swap_page find_next_frame
    fill_frame evict forget assign reset_memory
fetched = refl

fetch_page-IsAnswer_example :
    IsAnswer endless used used-Inv 1 (some 0) (fetch_page endless 1 used).1
fetch_page-IsAnswer_example =
    fetch_page-IsAnswer endless used used-Inv 1 endless-IsFile endless_bounded (omega arith)
      few_pins (some 0) (fetch_page endless 1 used).1 fetched

-- The page is dirty.
abbrev dirty : Pool File
dirty = unpin_page 1 true used

abbrev with_dirty : Clients File
with_dirty = record with_page { pool = dirty }

released : Steps endless at_start with_dirty
unfolding new_page allocate_page pop_back swap_page find_next_frame fill_frame evict forget assign
    reset_memory
released = followed created (unpins 1 0 true used_table (omega arith) (omega arith) (λ e d c. cc d))

make_pool-Steps_example : IsKept endless with_dirty
make_pool-Steps_example =
    make_pool-Steps endless endless-IsFile endless_bounded 2 Allocation.init empty_file with_dirty
      init-Inv (omega arith) released

dirty-Inv : Inv endless dirty
dirty-Inv =
    (make_pool-Steps endless endless-IsFile endless_bounded 2 Allocation.init empty_file with_dirty
      init-Inv (omega arith) released).inv

flushed : flush_all endless dirty ≡ (ok tt, (flush_all endless dirty).1)
unfolding flush_frames flush_page write_page unpin_page new_page allocate_page pop_back swap_page
    find_next_frame fill_frame evict forget assign reset_memory
flushed = refl

flush_all-IsFlushed_example :
    ((flush_all endless dirty).1.frames ≡ dirty.frames)
    × ((flush_all endless dirty).1.page_table ≡ dirty.page_table)
    × Inv endless (flush_all endless dirty).1
    × ((f : ℕ)
        → (dirty.frames f).is_dirty ≡ true
        → stored endless
            (flush_all endless dirty).1.disk
            (flush_all endless dirty).1.file
            (dirty.frames f).page_id
          ≡ ok (dirty.frames f).bytes)
flush_all-IsFlushed_example =
    flush_all-IsFlushed endless endless-IsFile dirty (flush_all endless dirty).1 dirty-Inv flushed
