-- ===== src/Storage/Disk.antt =====
-- Page allocation and page input and output (src/storage/disk_manager.cpp). The file is a
-- parameter: `FileOps` are the calls `pread` and `pwrite` of the operating system.
pub mod Allocation
pub mod Pages
use duck_duck_dbms.Common.{
  ℕ, ◌+◌, ◌-◌, ◌*◌, ◌%◌, ◌^◌, Bool, true, false, not, Option, none, some, List, [], ◌∷◌, ◌++◌, ltb,
  ◌==◌, if◌then◌else◌, length, take, drop, replicate, Result, ok, err, page_reserved, not_allocated,
  short_buffer, io_failed,
}
use duck_duck_dbms.Table.Page.{page_size}

abbrev pub metadata_page_id : ℕ
metadata_page_id = 0

-- `free_list` is in the order of the vector, so its last entry is `back()`.
pub record DiskManager : Type 0 where
  pub capacity : ℕ
  pub free_list : List ℕ

-- The vector without its last entry, and that entry.
unfoldable pub pop_back : List ℕ → Option (List ℕ × ℕ)
pop_back [] = none
pop_back (x ∷ xs) = elim (pop_back xs) [ none ↦ some ([], x) | some (ys, y) ↦ some (x ∷ ys, y) ]

-- The identifier given out, and the new state. `capacity_` has 32 bits.
unfoldable pub allocate_page : DiskManager → ℕ × DiskManager
allocate_page d = elim (pop_back d.free_list) [
  | some (rest, page_id) ↦ (page_id, record d { free_list = rest })
  | none ↦ (d.capacity, record d { capacity = (d.capacity + 1) % 2 ^ 32 })
]

-- With a full list a warning is printed and the page is not used again.
unfoldable pub deallocate_page : ℕ → DiskManager → Result DiskManager
deallocate_page page_id d =
    if page_id == metadata_page_id
    then err page_reserved
    else if ltb 1024 (length d.free_list)
    then ok d
    else ok (record d { free_list = d.free_list ++ page_id ∷ [] })

-- A read returns at most the bytes asked for, and a write how many it wrote; `none` is -1.
pub record FileOps (File : Type 0) : Type 0 where
  pub pread : ℕ → ℕ → File → Option (List ℕ)
  pub pwrite : ℕ → List ℕ → File → Option ℕ × File

-- The first bytes of a buffer are a page.
abbrev pub fill : List ℕ → List ℕ → List ℕ
fill bytes buffer = (bytes ++ replicate (page_size - length bytes) 0) ++ drop page_size buffer

module _ {File : Type 0} (ops : FileOps File) where
  -- A call that throws gives no file: what a write that fails has done to it is not kept.
  unfoldable pub write_page : DiskManager → ℕ → List ℕ → File → Result File
  write_page d page_id buffer file =
      if not (ltb page_id d.capacity)
      then err not_allocated
      else if ltb (length buffer) page_size
      then err short_buffer
      else (let (written, file') = ops.pwrite (page_id * page_size) (take page_size buffer) file in
          elim written [
            | none ↦ err io_failed
            | some n ↦ if n == page_size then ok file' else err io_failed
          ])

  -- The buffer after the call.
  unfoldable pub read_page : DiskManager → ℕ → List ℕ → File → Result (List ℕ)
  read_page d page_id buffer file =
      if not (ltb page_id d.capacity)
      then err not_allocated
      else if ltb (length buffer) page_size
      then err short_buffer
      else elim (ops.pread (page_id * page_size) page_size file) [
        | none ↦ err io_failed
        | some bytes ↦ ok (fill bytes buffer)
      ]
