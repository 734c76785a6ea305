-- ===== src/Storage/Pool/Frames.antt =====
-- `Page` of src/storage/page.h, the state of `BufferPoolManager` of
-- src/storage/buffer_pool_manager.{h,cpp}, and what its functions do to a frame.
use dbgenerality_rucbase.Base.{
  ℕ, zero, suc, Bool, false, List, [], ◌∷◌, ◌++◌, Option, none, some, if◌then◌else◌, ◌==◌, ℤ,
  minus_one,
}
use dbgenerality_rucbase.Storage.Replacer.{LruReplacer, new_replacer, victim, pin}
use dbgenerality_rucbase.Storage.Disk.{
  PageId, eqb_page, is_invalid, FileSystem, DiskManager, write_page,
}

-- How a function ends: it returns, or a page access or an assertion fails.
pub data Outcome {ℓ} (A : Type ℓ) : Type ℓ where
  returned : A → Outcome A
  disk_error : Outcome A
  assert_failed : Outcome A

-- 0, …, n - 1
unfoldable pub iota : ℕ → List ℕ
iota zero = []
iota (suc n) = iota n ++ n ∷ []

module _ (os : FileSystem) where
  open os use {Data, zeroed}

  pub record Page : Type 0 where
    pub id : PageId
    pub page_data : Data
    pub is_dirty : Bool
    pub pin_count : ℕ

  pub record Pool : Type 0 where
    pub pool_size : ℕ
    pub pages : ℕ → Page
    pub page_table : PageId → Option ℕ
    pub free_list : List ℕ
    pub disk : DiskManager os
    pub replacer : LruReplacer

  -- The constructor. The `fd` of a page is not initialised, so it is an argument.
  unfoldable pub new_pool : ℕ → ℤ → DiskManager os → Pool
  unfolding iota
  new_pool n fd dm = record {
    pool_size = n;
    pages = λ f. record {
      id = record { fd = fd; page_no = minus_one };
      page_data = zeroed;
      is_dirty = false;
      pin_count = 0;
    };
    page_table = λ id. none;
    free_list = iota n;
    disk = dm;
    replacer = new_replacer n;
  }

  unfoldable pub set_page : ℕ → Page → (ℕ → Page) → ℕ → Page
  set_page f page pages g = if f == g then page else pages g

  -- `page_table_.erase(id)` and `page_table_.insert({id, f})`, which leaves an entry alone
  unfoldable pub erase_id : PageId → (PageId → Option ℕ) → PageId → Option ℕ
  unfolding eqb_page
  erase_id id table j = if eqb_page id j then none else table j

  unfoldable pub insert_id : PageId → ℕ → (PageId → Option ℕ) → PageId → Option ℕ
  unfolding eqb_page
  insert_id id f table j = elim (table id) [
    | some _ ↦ table j
    | none ↦ if eqb_page id j then some f else table j
  ]

  unfoldable pub find_victim_page : Pool → Option ℕ × Pool
  unfolding victim
  find_victim_page p = elim p.free_list [
    | [] ↦ let (f, r) = victim p.replacer in (f, record p { replacer = r })
    | f ∷ fs ↦ (some f, record p { free_list = fs })
  ]

  -- The first part of `update_page`: a dirty page is marked clean and written.
  unfoldable pub write_back : ℕ → Pool → Outcome (Unit {0}) × Pool
  unfolding write_page set_page
  write_back f p =
      let page = p.pages f in
      let clean = record p { pages = set_page f (record page { is_dirty = false }) p.pages } in
      if page.is_dirty
      then (
        if (write_page os page.id page.page_data p.disk).0 then returned tt else disk_error,
        record clean { disk = (write_page os page.id page.page_data p.disk).1 },
      )
      else (returned tt, p)

  -- The rest of it: the page table and the frame are given to the new page.
  unfoldable pub rename_page : ℕ → PageId → Pool → Pool
  unfolding set_page erase_id insert_id
  rename_page f new_id p =
      let page = p.pages f in
      let table = erase_id page.id p.page_table in
      record p {
        page_table = if is_invalid new_id.page_no then table else insert_id new_id f table;
        pages = set_page f (record page { page_data = zeroed; id = new_id }) p.pages;
      }

  -- `update_page` after its first part.
  unfoldable pub rename_after : ℕ → PageId → Outcome (Unit {0}) × Pool → Outcome (Unit {0}) × Pool
  unfolding rename_page
  rename_after f new_id (returned _, p) = (returned tt, rename_page f new_id p)
  rename_after f new_id (disk_error, p) = (disk_error, p)
  rename_after f new_id (assert_failed, p) = (assert_failed, p)

  unfoldable pub update_page : ℕ → PageId → Pool → Outcome (Unit {0}) × Pool
  unfolding write_back rename_after
  update_page f new_id p = rename_after f new_id (write_back f p)

  -- `replacer_->pin(f); pages_[f].pin_count_ = n`
  unfoldable pub take_frame : ℕ → ℕ → Pool → Pool
  unfolding set_page pin
  take_frame f n p = record p {
    replacer = pin f p.replacer;
    pages = set_page f (record (p.pages f) { pin_count = n }) p.pages;
  }
