-- ===== src/Storage/Examples.antt =====
-- The theorems on the disk manager at concrete requests, and on a file that is a function.
use duck_duck_dbms.Common.{
  ℕ, ◌<◌, ◌≡◌, ◌≢◌, refl, true, false, List, [], ◌∷◌, ◌++◌, arith, take, drop, replicate,
  length-replicate, ok,
}
use duck_duck_dbms.Table.Page.{page_size}
use duck_duck_dbms.Storage.Disk.{
  DiskManager, metadata_page_id, allocate_page, write_page, read_page,
}
use duck_duck_dbms.Storage.Disk.Allocation.{
  Request, allocates, deallocates, init, serve_all, Inv, serve_all-Inv, allocate_page_fresh,
}
use duck_duck_dbms.Storage.Disk.Pages.{read_page-write_page}
use duck_duck_dbms.Storage.Endless.{store, endless, endless-IsFile}

abbrev requests : List Request
requests = allocates ∷ allocates ∷ deallocates 1 ∷ []

serve_all-Inv_example :
    Inv (serve_all init requests) × ((serve_all init requests).used metadata_page_id ≡ true)
serve_all-Inv_example = serve_all-Inv requests (omega arith)

allocate_page_fresh_example :
    let u = serve_all init requests in
    let (page_id, disk) = allocate_page u.disk in
    (u.used page_id ≡ false) × (page_id ≢ metadata_page_id) × (page_id < disk.capacity)
allocate_page_fresh_example = allocate_page_fresh requests (omega arith)

abbrev ones : List ℕ
ones = replicate page_size 1

abbrev disk : DiskManager
disk = record { capacity = 3; free_list = [] }

abbrev blank : ℕ → ℕ
blank i = 0

abbrev stored_file : ℕ → ℕ
stored_file = store page_size (take page_size ones) blank

ones_written : write_page endless disk 1 ones blank ≡ ok stored_file
unfolding write_page
ones_written = refl

read_page-write_page_example :
    (read_page endless disk 1 ones stored_file ≡ ok (take page_size ones ++ drop page_size ones))
    × ((q : ℕ)
        → 1 ≢ q
        → read_page endless disk q ones stored_file ≡ read_page endless disk q ones blank)
read_page-write_page_example =
    read_page-write_page endless disk endless-IsFile 1 ones ones blank stored_file
      (omega (arith, length-replicate {A = ℕ} page_size 1)) ones_written
