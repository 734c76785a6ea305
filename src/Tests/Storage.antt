-- ===== src/Tests/Storage.antt =====
-- Runs of src/storage/buffer_pool_manager.cpp on files kept in memory.
use dbgenerality_rucbase.Base.{
  ℕ, Bool, false, ◌≡◌, ◌≢◌, ◌≤◌, ◌*◌, refl, true, ◌&&◌, [], ◌∷◌, Option, some, none, ℤ, pos, arith,
  if◌then◌else◌, eqb_ℤ, eqb_ℤ_iff,
}
use dbgenerality_rucbase.Storage.Replacer.{LruReplacer, new_replacer, unpin}
use dbgenerality_rucbase.Storage.Replacer.Laws.{LruInv, new_replacer-LruInv, unpin-LruInv}
use dbgenerality_rucbase.Storage.Pool.Promises.{
  new_pool-PoolInv, fetch_page-PoolInv, fetch_page-pinned, fetch_page-Serves, fetch_page-stale,
}
use dbgenerality_rucbase.Storage.Disk.{FileSystem, DiskManager, PageId, read_page}
use dbgenerality_rucbase.Storage.Pool.Frames.{Pool, new_pool, returned, disk_error}
use dbgenerality_rucbase.Storage.Pool.Ops.{fetch_page, flush_page}
use dbgenerality_rucbase.Storage.Pool.Flush.{Flushed, flush_page-read_page}
use dbgenerality_rucbase.Storage.Pool.Inv.{PoolInv}

abbrev Contents : Type 0
Contents = ℤ → ℤ → Option ℕ

abbrev write_contents : Contents → ℤ → ℤ → ℕ → Contents
write_contents fs fd offset d g o = if eqb_ℤ fd g && eqb_ℤ offset o then some d else fs g o

-- What a read gives: the buffer stays as it is where nothing was written.
abbrev is_some : Option ℕ → Bool
is_some none = false
is_some (some d) = true

abbrev value_or : ℕ → Option ℕ → ℕ
value_or buf none = buf
value_or buf (some d) = d

abbrev read_contents : Contents → ℤ → ℤ → ℕ → Bool × ℕ × Contents
read_contents fs fd offset buf = (is_some (fs fd offset), value_or buf (fs fd offset), fs)

read_self :
    (fs : Contents) (fd : ℤ) (n : ℕ) (d buf : ℕ)
    → (let after =
          read_contents (write_contents fs fd (pos (n * 4096)) d) fd (pos (n * 4096)) buf in
        (after.0 ≡ true) × (after.1 ≡ d))
read_self fs fd n d buf =
    let held : write_contents fs fd (pos (n * 4096)) d fd (pos (n * 4096)) ≡ some d =
      ground (arith, (eqb_ℤ_iff fd fd).1 refl) in
    rw (read_contents, held) (refl, refl)

write_ne :
    (fs : Contents) (fd fd' : ℤ) (n m : ℕ) (d : ℕ)
    → (fd ≡ fd' → n ≢ m)
    → write_contents fs fd (pos (n * 4096)) d fd' (pos (m * 4096)) ≡ fs fd' (pos (m * 4096))
write_ne fs fd fd' n m d h =
    ground (arith, (eqb_ℤ_iff fd fd').0, (eqb_ℤ_iff (pos (n * 4096)) (pos (m * 4096))).0, h)

read_ne :
    (fs : Contents) (fd fd' : ℤ) (n m : ℕ) (d buf : ℕ)
    → (fd ≡ fd' → n ≢ m)
    → (read_contents fs fd' (pos (m * 4096)) buf).0 ≡ true
    → (let after =
          read_contents (write_contents fs fd (pos (n * 4096)) d) fd' (pos (m * 4096)) buf in
        (after.0 ≡ true) × (after.1 ≡ (read_contents fs fd' (pos (m * 4096)) buf).1))
read_ne fs fd fd' n m d buf h e = rw (read_contents, write_ne fs fd fd' n m d h) (e, refl)

abbrev memory : FileSystem
memory = record {
  Files = Contents;
  Data = ℕ;
  zeroed = 0;
  write_at = λ fs fd offset d. (true, write_contents fs fd offset d);
  read_at = read_contents;
  read-write_self = λ fs fd n d buf e. read_self fs fd n d buf;
  read-write_ne = λ fs fd fd' n m d buf e h r. read_ne fs fd fd' n m d buf h r;
}

-- File 3 has one page.
abbrev disk : DiskManager memory
disk = record { files = write_contents (λ g o. none) (pos 3) (pos 0) 77; fd2pageno = λ g. 1 }

abbrev empty_pool : Pool memory
empty_pool = new_pool memory 2 (pos 0) disk

abbrev first_page : PageId
first_page = record { fd = pos 3; page_no = pos 0 }

abbrev second_page : PageId
second_page = record { fd = pos 3; page_no = pos 1 }

abbrev one_page : Pool memory
one_page = (fetch_page memory first_page empty_pool).1

fetch_page-PoolInv_example : PoolInv memory one_page
fetch_page-PoolInv_example =
    fetch_page-PoolInv memory first_page empty_pool (new_pool-PoolInv memory 2 (pos 0) disk) refl

abbrev one_page-PoolInv : PoolInv memory one_page
one_page-PoolInv =
    fetch_page-PoolInv memory first_page empty_pool (new_pool-PoolInv memory 2 (pos 0) disk) refl

fetch_page-pinned_example :
    ((fetch_page memory second_page one_page).1.page_table first_page ≡ some 0)
    × (((fetch_page memory second_page one_page).1.pages 0).page_data
        ≡ (one_page.pages 0).page_data)
    × ((one_page.pages 0).pin_count
        ≤ ((fetch_page memory second_page one_page).1.pages 0).pin_count)
unfolding fetch_page new_pool
fetch_page-pinned_example =
    fetch_page-pinned memory second_page first_page one_page 0 one_page-PoolInv refl refl
      (λ e. ground arith)

fetch_page-Serves_example :
    ((fetch_page memory first_page empty_pool).1.page_table first_page ≡ some 0)
    × (((fetch_page memory first_page empty_pool).1.pages 0).id ≡ first_page)
    × (((fetch_page memory first_page empty_pool).1.pages 0).pin_count ≢ 0)
unfolding fetch_page new_pool
fetch_page-Serves_example =
    fetch_page-Serves memory first_page empty_pool 0 (new_pool-PoolInv memory 2 (pos 0) disk) refl
      refl

fetch_page-stale_example :
    (let first = fetch_page memory second_page empty_pool in
      let next = fetch_page memory second_page first.1 in
      (first.0 ≡ disk_error)
      × (next.0 ≡ returned (some 0))
      × ((next.1.pages 0).page_data ≡ (read_page memory second_page 0 disk).1)
      × (next.1.disk ≡ first.1.disk))
unfolding new_pool read_page
fetch_page-stale_example =
    fetch_page-stale memory second_page empty_pool 0 (1 ∷ []) refl refl refl refl refl

-- Frames 4 and 7, 7 unpinned first.
abbrev two_frames : LruReplacer
two_frames = unpin 4 (unpin 7 (new_replacer 9))

abbrev two_frames-LruInv : LruInv two_frames
two_frames-LruInv =
    unpin-LruInv 4 (unpin 7 (new_replacer 9))
      (unpin-LruInv 7 (new_replacer 9) (new_replacer-LruInv 9))

flush_page-read_page_example :
    (true ≡ true) × Flushed memory first_page 0 one_page (flush_page memory first_page one_page).1
unfolding flush_page fetch_page new_pool
flush_page-read_page_example =
    flush_page-read_page memory first_page 0 true one_page (flush_page memory first_page one_page).1
      one_page-PoolInv refl refl
