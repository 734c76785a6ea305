-- ===== src/Storage/Disk.antt =====
-- The page functions of `DiskManager`, src/storage/disk_manager.cpp, over the system's files, and
-- `PageId` of src/storage/page.h. `lseek` and the `read` or `write` after it are one access at an
-- offset; the files are a parameter with the laws that a page reads back as it was written, and that
-- a write leaves the other pages.
use dbgenerality_rucbase.Base.{
  ℕ, ◌+◌, ◌*◌, ◌≡◌, ◌≢◌, ◌↔◌, Bool, true, false, ◌&&◌, Option, none, some, if◌then◌else◌, arith, ℤ,
  pos, negsuc, eqb_ℤ, eqb_ℤ_iff, minus_one, ltb,
}

pub record PageId : Type 0 where
  pub fd : ℤ
  pub page_no : ℤ

-- `operator==` of `PageId`
unfoldable pub eqb_page : PageId → PageId → Bool
eqb_page a b = eqb_ℤ a.fd b.fd && eqb_ℤ a.page_no b.page_no

pub eqb_page_iff : (a b : PageId) → (eqb_page a b ≡ true) ↔ (a ≡ b)
unfolding eqb_page
eqb_page_iff a b = grind (arith, eqb_ℤ_iff a.fd b.fd, eqb_ℤ_iff a.page_no b.page_no)

-- `page_no == INVALID_PAGE_ID`
abbrev pub is_invalid : ℤ → Bool
is_invalid n = eqb_ℤ n minus_one

-- The bytes of a page and the files of the system with their positions. An access gives whether it
-- moved as many bytes as asked for, and what it left: a read also the buffer, of which a short read
-- may have filled a part. Where `lseek` fails, at an offset below 0, the access is at the position
-- that the file had, and no law says what it gives.
pub record FileSystem : Type 1 where
  pub Files : Type 0
  pub Data : Type 0
  pub zeroed : Data
  pub write_at : Files → ℤ → ℤ → Data → Bool × Files
  pub read_at : Files → ℤ → ℤ → Data → Bool × Data × Files
  pub read-write_self :
      (fs : Files) (fd : ℤ) (n : ℕ) (d buf : Data)
      → (write_at fs fd (pos (n * 4096)) d).0 ≡ true
      → (let after = read_at (write_at fs fd (pos (n * 4096)) d).1 fd (pos (n * 4096)) buf in
          (after.0 ≡ true) × (after.1 ≡ d))
  -- Pages do not overlap: a page of another file, or at another multiple of the page size, that
  -- could be read whole is read as before.
  pub read-write_ne :
      (fs : Files) (fd fd' : ℤ) (n m : ℕ) (d buf : Data)
      → (write_at fs fd (pos (n * 4096)) d).0 ≡ true
      → (fd ≡ fd' → n ≢ m)
      → (read_at fs fd' (pos (m * 4096)) buf).0 ≡ true
      → (let after = read_at (write_at fs fd (pos (n * 4096)) d).1 fd' (pos (m * 4096)) buf in
          (after.0 ≡ true) × (after.1 ≡ (read_at fs fd' (pos (m * 4096)) buf).1))

-- `MAX_FD`
abbrev pub max_fd : ℕ
max_fd = 8192

-- `(off_t)(page_no) * PAGE_SIZE`
unfoldable pub page_offset : ℤ → ℤ
page_offset (pos n) = pos (n * 4096)
page_offset (negsuc n) = negsuc (n * 4096 + 4095)

-- `assert(fd >= 0 && fd < MAX_FD)`
unfoldable pub fd_ok : ℤ → Bool
fd_ok (pos n) = ltb n max_fd
fd_ok (negsuc n) = false

module _ (os : FileSystem) where
  open os use {Files, Data, write_at, read_at}

  -- The files and `fd2pageno_`.
  pub record DiskManager : Type 0 where
    pub files : Files
    pub fd2pageno : ℤ → ℕ

  -- `false` is `InternalError("DiskManager::write_page Error")`.
  unfoldable pub write_page : PageId → Data → DiskManager → Bool × DiskManager
  unfolding page_offset
  write_page id d dm =
      let r = write_at dm.files id.fd (page_offset id.page_no) d in (r.0, record dm { files = r.1 })

  -- `false` is `InternalError("DiskManager::read_page Error")`; the second part is the buffer that is
  -- read into, as the read leaves it.
  unfoldable pub read_page : PageId → Data → DiskManager → Bool × Data × DiskManager
  unfolding page_offset
  read_page id buf dm =
      let r = read_at dm.files id.fd (page_offset id.page_no) buf in
      (r.0, r.1, record dm { files = r.2 })

  -- `fd2pageno_[fd]++`; `none` is the failed assertion.
  unfoldable pub allocate_page : ℤ → DiskManager → Option (ℤ × DiskManager)
  unfolding fd_ok
  allocate_page fd dm =
      if fd_ok fd
      then some (
        pos (dm.fd2pageno fd),
        record dm { fd2pageno = λ g. if eqb_ℤ fd g then dm.fd2pageno fd + 1 else dm.fd2pageno g },
      )
      else none

  -- `set_fd2pageno`
  unfoldable pub set_fd2pageno : ℤ → ℕ → DiskManager → DiskManager
  set_fd2pageno fd n dm = record dm { fd2pageno = λ g. if eqb_ℤ fd g then n else dm.fd2pageno g }
