-- ===== src/Storage/Pool/Ops.antt =====
-- The functions of `BufferPoolManager`, src/storage/buffer_pool_manager.cpp.
use dbgenerality_rucbase.Base.{
  ℕ, ◌+◌, ◌-◌, Bool, true, false, ◌&&◌, not, List, [], ◌∷◌, ◌++◌, Option, none, some, if◌then◌else◌,
  ◌==◌, ltb, ℤ, eqb_ℤ, minus_one,
}
use dbgenerality_rucbase.Storage.Replacer.{unpin}
use dbgenerality_rucbase.Storage.Disk.{
  PageId, eqb_page, is_invalid, FileSystem, write_page, read_page, allocate_page,
}
use dbgenerality_rucbase.Storage.Pool.Frames.{
  Outcome, returned, disk_error, assert_failed, iota, Page, Pool, set_page, find_victim_page,
  update_page, take_frame,
}

module _ (os : FileSystem) where
  -- `fetch_page` once the frame holds the new id: the page is read and pinned.
  unfoldable pub load : ℕ → PageId → Pool os → Outcome (Option ℕ) × Pool os
  unfolding read_page set_page take_frame
  load f id p =
      let r = read_page os id (p.pages f).page_data p.disk in
      let filled = record p {
        disk = r.2;
        pages = set_page os f (record (p.pages f) { page_data = r.1 }) p.pages;
      } in
      if r.0 then (returned (some f), take_frame os f 1 filled) else (disk_error, filled)

  unfoldable pub load_after :
      ℕ → PageId → Outcome (Unit {0}) × Pool os → Outcome (Option ℕ) × Pool os
  unfolding load
  load_after f id (returned _, p) = load f id p
  load_after f id (disk_error, p) = (disk_error, p)
  load_after f id (assert_failed, p) = (assert_failed, p)

  -- `fetch_page` once a frame is found for the page, or none is.
  unfoldable pub fetch_into : PageId → Option ℕ × Pool os → Outcome (Option ℕ) × Pool os
  unfolding update_page load_after
  fetch_into id (none, p) = (returned none, p)
  fetch_into id (some f, p) = load_after f id (update_page os f id p)

  unfoldable pub fetch_miss : PageId → Pool os → Outcome (Option ℕ) × Pool os
  unfolding find_victim_page fetch_into
  fetch_miss id p = fetch_into id (find_victim_page os p)

  -- The frame of the page; `returned none` is the null pointer.
  unfoldable pub fetch_page : PageId → Pool os → Outcome (Option ℕ) × Pool os
  unfolding fetch_miss take_frame
  fetch_page id p = elim (p.page_table id) [
    | some f ↦ (returned (some f), take_frame os f ((p.pages f).pin_count + 1) p)
    | none ↦ fetch_miss id p
  ]

  -- `unpin_page` on a page that is in the pool.
  unfoldable pub unpin_frame : ℕ → Bool → Pool os → Outcome Bool × Pool os
  unfolding unpin set_page
  unpin_frame f dirty p =
      let page = p.pages f in
      if page.pin_count == 0 then (returned false, p) else (
        returned true,
        record p {
          replacer = if page.pin_count - 1 == 0 then unpin f p.replacer else p.replacer;
          pages =
              set_page os f
                (record page {
                  pin_count = page.pin_count - 1;
                  is_dirty = if dirty then true else page.is_dirty;
                })
                p.pages;
        },
      )

  unfoldable pub unpin_page : PageId → Bool → Pool os → Outcome Bool × Pool os
  unfolding unpin_frame
  unpin_page id dirty p = elim (p.page_table id) [
    | none ↦ (returned false, p)
    | some f ↦ unpin_frame f dirty p
  ]

  -- The search of `flush_page` among the frames: the first one with the id.
  unfoldable pub find_frame : PageId → (ℕ → Page os) → List ℕ → Option ℕ
  unfolding eqb_page
  find_frame id pages [] = none
  find_frame id pages (f ∷ fs) = if eqb_page (pages f).id id then some f else find_frame id pages fs

  -- A frame written to the disk under an id, and marked clean.
  unfoldable pub flush_frame : ℕ → PageId → Pool os → Outcome Bool × Pool os
  unfolding write_page set_page
  flush_frame f id p =
      let r = write_page os id (p.pages f).page_data p.disk in
      if r.0
      then (
        returned true,
        record p {
          disk = r.1;
          pages = set_page os f (record (p.pages f) { is_dirty = false }) p.pages;
        },
      )
      else (disk_error, record p { disk = r.1 })

  unfoldable pub flush_page : PageId → Pool os → Outcome Bool × Pool os
  unfolding find_frame flush_frame iota
  flush_page id p =
      if is_invalid id.page_no
      then (returned false, p)
      else elim (find_frame id p.pages (iota p.pool_size)) [
        | none ↦ (returned false, p)
        | some f ↦ flush_frame f id p
      ]

  -- `new_page` for the file `fd`: the frame and the id of the new page.
  unfoldable pub new_page : ℤ → Pool os → Outcome (Option (ℕ × PageId)) × Pool os
  unfolding find_victim_page update_page take_frame allocate_page
  new_page fd p =
      let (v, found) = find_victim_page os p in
      elim v [
        | none ↦ (returned none, found)
        | some f ↦ elim (allocate_page os fd found.disk) [
          | none ↦ (assert_failed, found)
          | some (n, dm) ↦
              let id : PageId = record { fd = fd; page_no = n } in
              let (o, updated) = update_page os f id (record found { disk = dm }) in
              elim o [
                | returned _ ↦ (returned (some (f, id)), take_frame os f 1 updated)
                | disk_error ↦ (disk_error, updated)
                | assert_failed ↦ (assert_failed, updated)
              ]
        ]
      ]

  -- `delete_page`; `deallocate_page` does nothing.
  unfoldable pub delete_page : PageId → Pool os → Outcome Bool × Pool os
  unfolding update_page
  delete_page id p = elim (p.page_table id) [
    | none ↦ (returned true, p)
    | some f ↦
        let (o, p') = update_page os f (record { fd = id.fd; page_no = minus_one }) p in
        if ltb 0 (p.pages f).pin_count then (returned false, p) else elim o [
          | returned _ ↦ (returned true, record p' { free_list = p'.free_list ++ f ∷ [] })
          | disk_error ↦ (disk_error, p')
          | assert_failed ↦ (assert_failed, p')
        ]
  ]

  -- The loop of `flush_all_pages` over the frames that are left.
  unfoldable pub flush_from : ℤ → List ℕ → Pool os → Outcome (Unit {0}) × Pool os
  unfolding flush_frame
  flush_from fd [] p = (returned tt, p)
  flush_from fd (f ∷ fs) p =
      let flushed = flush_frame f (p.pages f).id p in
      let after_flush = flush_from fd fs flushed.1 in
      let after_skip = flush_from fd fs p in
      if eqb_ℤ (p.pages f).id.fd fd && not (is_invalid (p.pages f).id.page_no)
      then elim flushed.0 [
        | returned _ ↦ after_flush
        | disk_error ↦ (disk_error, flushed.1)
        | assert_failed ↦ (assert_failed, flushed.1)
      ]
      else after_skip

  unfoldable pub flush_all_pages : ℤ → Pool os → Outcome (Unit {0}) × Pool os
  unfolding flush_from iota
  flush_all_pages fd p = flush_from fd (iota p.pool_size) p
