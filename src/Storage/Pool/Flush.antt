-- ===== src/Storage/Pool/Flush.antt =====
-- `flush_page` of src/storage/buffer_pool_manager.cpp and the disk.
use dbgenerality_rucbase.Base.{
  ℕ, ◌≡◌, ◌≢◌, refl, sym, ◌∙◌, ap, subst, Bool, true, false, List, [], ◌∷◌, some, ℤ, pos, negsuc,
  ◌==◌, arith, ==_iff, Bool-cases, inl, inr,
}
use dbgenerality_rucbase.Storage.Replacer.Laws.{elem}
use dbgenerality_rucbase.Storage.Disk.{
  PageId, eqb_page, eqb_page_iff, is_invalid, FileSystem, DiskManager, page_offset, write_page,
  read_page,
}
use dbgenerality_rucbase.Storage.Pool.Frames.{
  Outcome, returned, disk_error, assert_failed, iota, Page, Pool, set_page,
}
use dbgenerality_rucbase.Storage.Pool.Ops.{find_frame, flush_frame, flush_page}
use dbgenerality_rucbase.Storage.Pool.Inv.{PoolInv, is_page}
use dbgenerality_rucbase.Storage.Pool.Promises.{elem-iota}

is_page-valid : (n : ℤ) → is_page n ≡ true → is_invalid n ≡ false
is_page-valid (pos n) h = refl
is_page-valid (negsuc n) h = absurd (cc h)

module _ (os : FileSystem) where
  find_frame-some :
      (id : PageId) (pages : ℕ → Page os) (f : ℕ) (fs : List ℕ)
      → ((g : ℕ) → elem g fs ≡ true → (pages g).id ≡ id → g ≡ f)
      → elem f fs ≡ true
      → (pages f).id ≡ id
      → find_frame os id pages fs ≡ some f
  unfolding find_frame elem
  find_frame-some id pages f [] only h e = absurd (ground arith)
  find_frame-some id pages f (g ∷ gs) only h e = elim (Bool-cases (eqb_page (pages g).id id)) [
    | inl c ↦
        rw (c) (ap some (only g (ground (arith, ==_iff g g)) ((eqb_page_iff (pages g).id id).0 c)))
    | inr c ↦ elim (Bool-cases (g == f)) [
      | inl s ↦
          let same : g ≡ f = (==_iff g f).0 s in
          let held : eqb_page (pages g).id id ≡ true =
            (eqb_page_iff (pages g).id id).1 (ap (λ (k : ℕ). (pages k).id) same ∙ e) in
          absurd (ground arith)
      | inr s ↦
          rw (c)
            (find_frame-some id pages f gs (λ g' k i. only g' (ground arith) i) (ground arith) e)
    ]
  ]

  -- A page is read whole from the disk, as `d`, whatever the buffer held.
  abbrev pub ReadsAs : PageId → os.Data → DiskManager os → Type 0
  ReadsAs id d dm =
      (buf : os.Data) → ((read_page os id buf dm).0 ≡ true) × ((read_page os id buf dm).1 ≡ d)

  write_page-ReadsAs :
      (fd k : ℤ) (d : os.Data) (dm : DiskManager os)
      → (let id : PageId = record { fd = fd; page_no = k } in
          (write_page os id d dm).0 ≡ true
          → is_page k ≡ true
          → ReadsAs id d (write_page os id d dm).1)
  unfolding write_page read_page page_offset
  write_page-ReadsAs fd (pos n) d dm e a buf = os.read-write_self dm.files fd n d buf e
  write_page-ReadsAs fd (negsuc n) d dm e a buf = absurd (cc a)

  write_page-ReadsAs_ne :
      (fd k fd' k' : ℤ) (d c : os.Data) (dm : DiskManager os)
      → (let id : PageId = record { fd = fd; page_no = k } in
          let j : PageId = record { fd = fd'; page_no = k' } in
          (write_page os id d dm).0 ≡ true
          → is_page k ≡ true
          → is_page k' ≡ true
          → j ≢ id
          → ReadsAs j c dm
          → ReadsAs j c (write_page os id d dm).1)
  unfolding write_page read_page page_offset
  write_page-ReadsAs_ne fd (pos n) fd' (pos m) d c dm e a b ne r buf =
      let after = os.read-write_ne dm.files fd fd' n m d buf e (λ f g. ne (cc (f, g))) (r buf).0 in
      (after.0, after.1 ∙ (r buf).1)
  write_page-ReadsAs_ne fd (negsuc n) fd' k' d c dm e a b ne r buf = absurd (cc a)
  write_page-ReadsAs_ne fd (pos n) fd' (negsuc m) d c dm e a b ne r buf = absurd (cc b)

  -- What a flush of a frame leaves: the page is read whole from the disk with the bytes of the frame,
  -- which are still in the frame, the frame is clean, and the other pages that could be read whole
  -- are read as before.
  abbrev pub Flushed : PageId → ℕ → Pool os → Pool os → Type 0
  Flushed id f p p' =
      ReadsAs id (p.pages f).page_data p'.disk
      × ((p'.pages f).page_data ≡ (p.pages f).page_data)
      × ((p'.pages f).is_dirty ≡ false)
      × ((j : PageId) (d : os.Data)
          → is_page j.page_no ≡ true
          → j ≢ id
          → ReadsAs j d p.disk
          → ReadsAs j d p'.disk)

  Flushed-flush_frame :
      (id : PageId) (f : ℕ) (b : Bool) (p p' : Pool os)
      → is_page id.page_no ≡ true
      → flush_frame os f id p ≡ (returned b, p')
      → (b ≡ true) × Flushed id f p p'
  unfolding flush_frame set_page
  Flushed-flush_frame id f b p p' page e =
      let r = write_page os id (p.pages f).page_data p.disk in
      elim (Bool-cases r.0) [
        | inr w ↦ absurd (cc (rw (flush_frame, w) at e))
        | inl w ↦
            let clean : Pool os = record p {
              disk = r.1;
              pages = set_page os f (record (p.pages f) { is_dirty = false }) p.pages;
            } in
            let done : ◌≡◌ {A = Outcome Bool × Pool os} (returned true, clean) (returned b, p') =
              rw (flush_frame, w) at e in
            let own : (f == f) ≡ true = (==_iff f f).1 refl in
            (
              sym (
                  ap
                    (λ (x : Outcome Bool × Pool os). elim x.0 [
                      | returned c ↦ c
                      | disk_error ↦ b
                      | assert_failed ↦ b
                    ])
                    done),
              subst (λ (x : Outcome Bool × Pool os). Flushed id f p x.1) done
                  (
                    write_page-ReadsAs id.fd id.page_no (p.pages f).page_data p.disk w page,
                    rw (own),
                    rw (own),
                    λ j d a ne.
                        write_page-ReadsAs_ne id.fd id.page_no j.fd j.page_no (p.pages f).page_data
                          d p.disk w page a ne,
                  ),
            )
      ]

  -- A flush of a page that is in the pool returns true or fails to write, and when it returns, the
  -- page is read whole from the disk with the bytes that its frame holds, the frame keeps them and
  -- is clean, and every other page that could be read whole from the disk is read as before. The
  -- pool is in its invariant.
  pub flush_page-read_page :
      (id : PageId) (f : ℕ) (b : Bool) (p p' : Pool os)
      → PoolInv os p
      → p.page_table id ≡ some f
      → flush_page os id p ≡ (returned b, p')
      → (b ≡ true) × Flushed id f p p'
  unfolding flush_page
  flush_page-read_page id f b p p' v r e =
      let (inside, holds, page) = v.resident id f r in
      let at_f =
        find_frame-some id p.pages f (iota p.pool_size) only
          (elem-iota f p.pool_size ∙ ground arith) holds in
      Flushed-flush_frame id f b p p' page
        (rw (flush_page, is_page-valid id.page_no page, at_f) at e)
    where
      only : (g : ℕ) → elem g (iota p.pool_size) ≡ true → (p.pages g).id ≡ id → g ≡ f
      only g k i = elim (v.owns g (ground (arith, elem-iota g p.pool_size))) [
        | inl vacant ↦
            let invalid = ap (λ (j : PageId). is_invalid j.page_no) (sym i) ∙ vacant.0 in
            let valid = is_page-valid id.page_no (v.resident id f r).2 in
            absurd (cc (invalid, valid))
        | inr owned ↦ let both : some g ≡ some f = sym owned ∙ ap p.page_table i ∙ r in cc both
      ]
