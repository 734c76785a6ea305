-- ===== src/Storage/Pool/Promises.antt =====
-- What the functions of `BufferPoolManager`, src/storage/buffer_pool_manager.cpp, promise their
-- callers.
use dbgenerality_rucbase.Base.{
  ℕ, zero, suc, ◌+◌, ◌-◌, ◌≤◌, ◌<◌, ◌≡◌, ◌≢◌, refl, sym, ◌∙◌, ap, subst, Bool, true, false, List,
  [], ◌∷◌, ◌++◌, Option, none, some, if◌then◌else◌, ◌==◌, ==_iff, ℤ, inl, inr, arith, Bool-cases,
  Option-cases, ltb,
}
use dbgenerality_rucbase.Storage.Replacer.{unpin}
use dbgenerality_rucbase.Storage.Replacer.Laws.{
  elem, NoDup, unpin-LruInv, elem-unpin, new_replacer-LruInv,
}
use dbgenerality_rucbase.Storage.Disk.{PageId, eqb_page_iff, FileSystem, DiskManager, read_page}
use dbgenerality_rucbase.Storage.Pool.Frames.{
  Outcome, returned, disk_error, iota, Page, Pool, new_pool, set_page, rename_page,
  find_victim_page, update_page, write_back, rename_after, take_frame,
}
use dbgenerality_rucbase.Storage.Pool.Ops.{
  load, load_after, fetch_into, fetch_miss, fetch_page, unpin_frame, unpin_page,
}
use dbgenerality_rucbase.Storage.Pool.Inv.{is_page, IsVacant, PoolInv}
use dbgenerality_rucbase.Storage.Pool.Steps.{set_page_self, repage, rename-table_page}
use dbgenerality_rucbase.Storage.Pool.Fetch.{Serves, fetch_page-Kept}

elem-snoc : (f n : ℕ) (xs : List ℕ) → elem f (xs ++ n ∷ []) ≡ (if n == f then true else elem f xs)
unfolding elem
elem-snoc f n [] = refl
elem-snoc f n (x ∷ xs) = ground (arith, elem-snoc f n xs)

pub elem-iota : (f n : ℕ) → elem f (iota n) ≡ ltb f n
unfolding elem iota
elem-iota f zero = ground arith
elem-iota f (suc n) = elem-snoc f n (iota n) ∙ ground (arith, elem-iota f n)

NoDup-snoc : (n : ℕ) (xs : List ℕ) → NoDup xs → elem n xs ≡ false → NoDup (xs ++ n ∷ [])
unfolding elem
NoDup-snoc n [] d e = (refl, tt)
NoDup-snoc n (x ∷ xs) d e =
    (elem-snoc x n xs ∙ ground (arith, d.0, e), NoDup-snoc n xs d.1 (ground arith))

NoDup-iota : (n : ℕ) → NoDup (iota n)
unfolding iota
NoDup-iota zero = tt
NoDup-iota (suc n) = NoDup-snoc n (iota n) (NoDup-iota n) (ground (arith, elem-iota n n))

module _ (os : FileSystem) where
  -- The constructor of the pool makes a state in the invariant: every frame is free, holds no page
  -- and occurs once in the free list.
  pub new_pool-PoolInv : (n : ℕ) (fd : ℤ) (dm : DiskManager os) → PoolInv os (new_pool os n fd dm)
  unfolding new_pool elem
  new_pool-PoolInv n fd dm = record {
    resident = λ id f e. absurd (ground arith);
    owns = λ f l. inl (refl, refl);
    free_ok = λ f e. (ground (arith, elem-iota f n), refl, (refl, refl));
    lru_ok = λ f e. absurd (ground arith);
    free_nodup = NoDup-iota n;
    lru = new_replacer-LruInv n;
  }

  -- However `fetch_page` of a page of a file ends, with the frame, with no frame or with a failed
  -- disk access, it keeps the invariant of the pool.
  pub fetch_page-PoolInv :
      (id : PageId) (p : Pool os)
      → PoolInv os p
      → is_page id.page_no ≡ true
      → PoolInv os (fetch_page os id p).1
  fetch_page-PoolInv id p v b = (fetch_page-Kept os id p v b).0.inv

  -- In a pool in the invariant, `fetch_page` of a page of a file never evicts or overwrites a
  -- pinned page: a page with a nonzero pin count stays in its frame, with its data, and its pin
  -- count does not fall.
  pub fetch_page-pinned :
      (id j : PageId) (p : Pool os) (g : ℕ)
      → PoolInv os p
      → is_page id.page_no ≡ true
      → p.page_table j ≡ some g
      → (p.pages g).pin_count ≢ 0
      → ((fetch_page os id p).1.page_table j ≡ some g)
        × (((fetch_page os id p).1.pages g).page_data ≡ (p.pages g).page_data)
        × ((p.pages g).pin_count ≤ ((fetch_page os id p).1.pages g).pin_count)
  fetch_page-pinned id j p g v b e z = (fetch_page-Kept os id p v b).0.pinned j g e z

  -- In a pool in the invariant, the frame that `fetch_page` returns for a page of a file is the one
  -- that the page table then names for it, holds the page's id and is pinned.
  pub fetch_page-Serves :
      (id : PageId) (p : Pool os) (f : ℕ)
      → PoolInv os p
      → is_page id.page_no ≡ true
      → (fetch_page os id p).0 ≡ returned (some f)
      → ((fetch_page os id p).1.page_table id ≡ some f)
        × (((fetch_page os id p).1.pages f).id ≡ id)
        × (((fetch_page os id p).1.pages f).pin_count ≢ 0)
  fetch_page-Serves id p f v b e =
      subst (λ (o : Outcome (Option ℕ)). Serves os id (o, (fetch_page os id p).1)) e
        (fetch_page-Kept os id p v b).1

  resident-full :
      (id : PageId) (f : ℕ) (p : Pool os)
      → PoolInv os p
      → p.page_table id ≡ some f
      → IsVacant os (p.pages f)
      → ⊥
  resident-full id f p v e vac = ground (arith, v.resident id f e)

  -- A frame that is not pinned can be offered for eviction.
  offer-PoolInv :
      (f : ℕ) (p : Pool os)
      → PoolInv os p
      → f < p.pool_size
      → (p.pages f).pin_count ≡ 0
      → PoolInv os (record p { replacer = unpin f p.replacer })
  offer-PoolInv f p v l z = record {
    resident = v.resident;
    owns = v.owns;
    free_ok = v.free_ok;
    lru_ok = λ g e. elim (Bool-cases (f == g)) [
      | inl s ↦
          let same = (==_iff f g).0 s in
          (
            subst (λ (k : ℕ). k < p.pool_size) same l,
            ap (λ (k : ℕ). (p.pages k).pin_count) (sym same) ∙ z,
          )
      | inr s ↦ v.lru_ok g (ground (arith, elem-unpin f g p.replacer v.lru))
    ];
    free_nodup = v.free_nodup;
    lru = unpin-LruInv f p.replacer v.lru;
  }

  unpin_frame-PoolInv :
      (id : PageId) (f : ℕ) (dirty : Bool) (p : Pool os)
      → PoolInv os p
      → p.page_table id ≡ some f
      → PoolInv os (unpin_frame os f dirty p).1
  unfolding unpin_frame
  unpin_frame-PoolInv id f dirty p v e =
      let old = p.pages f in
      let n = old.pin_count - 1 in
      let page : Page os = record old {
        pin_count = n;
        is_dirty = if dirty then true else old.is_dirty;
      } in
      let q : Pool os = record p { pages = set_page os f page p.pages } in
      let here = ap (λ (x : Page os). x.pin_count) (set_page_self os f f page p.pages refl) in
      elim (Bool-cases (old.pin_count == 0)) [
        | inl z ↦ rw (z, unpin_frame) v
        | inr z ↦
            let v' =
              repage os p v f page refl (λ vac. absurd (resident-full id f p v e vac))
                (λ x. ground (arith, v.free_ok f x)) (λ x. ground (arith, v.lru_ok f x)) in
            elim (Bool-cases (n == 0)) [
              | inl last ↦
                  rw (z, last, unpin_frame)
                    (offer-PoolInv f q v' (v.resident id f e).0 (here ∙ (==_iff n 0).0 last))
              | inr more ↦ rw (z, more, unpin_frame) v'
            ]
      ]

  -- `unpin_page`, on any page id and with or without marking the page dirty, keeps the invariant of
  -- the pool; with it, no frame that is pinned can be evicted.
  pub unpin_page-PoolInv :
      (id : PageId) (dirty : Bool) (p : Pool os)
      → PoolInv os p
      → PoolInv os (unpin_page os id dirty p).1
  unfolding unpin_page
  unpin_page-PoolInv id dirty p v = elim (Option-cases (p.page_table id)) [
    | inl e ↦ rw (e, unpin_page) v
    | inr (f, e) ↦ rw (e, unpin_page) (unpin_frame-PoolInv id f dirty p v e)
  ]

  -- `fetch_page` when the page is read into a clean frame of the free list.
  fetch_page-free :
      (id : PageId) (p : Pool os) (f : ℕ) (fs : List ℕ)
      → p.page_table id ≡ none
      → p.free_list ≡ f ∷ fs
      → (p.pages f).is_dirty ≡ false
      → fetch_page os id p ≡ load os f id (rename_page os f id (record p { free_list = fs }))
  unfolding fetch_page fetch_miss fetch_into load_after update_page rename_after write_back
      find_victim_page
  fetch_page-free id p f fs absent free clean =
      rw
        (
          absent, free, clean, fetch_page, fetch_miss, find_victim_page, fetch_into, update_page,
          write_back, rename_after, load_after,
        )
        (rw (clean) refl)

  hit_data :
      (id : PageId) (f : ℕ) (p : Pool os)
      → p.page_table id ≡ some f
      → ((fetch_page os id p).0 ≡ returned (some f))
        × (((fetch_page os id p).1.pages f).page_data ≡ (p.pages f).page_data)
        × ((fetch_page os id p).1.disk ≡ p.disk)
  unfolding fetch_page take_frame
  hit_data id f p e =
      let page : Page os = record (p.pages f) { pin_count = (p.pages f).pin_count + 1 } in
      rw (e, fetch_page)
        (refl, ap (λ (x : Page os). x.page_data) (set_page_self os f f page p.pages refl), refl)

  -- A frame whose page cannot be read, as the short read leaves it.
  half_read : ℕ → PageId → Pool os → Pool os
  half_read f id p =
      let r = read_page os id (p.pages f).page_data p.disk in
      record p {
        disk = r.2;
        pages = set_page os f (record (p.pages f) { page_data = r.1 }) p.pages;
      }

  load_fails :
      (f : ℕ) (id : PageId) (p : Pool os)
      → (read_page os id (p.pages f).page_data p.disk).0 ≡ false
      → load os f id p ≡ (disk_error, half_read f id p)
  unfolding load half_read
  load_fails f id p e = rw (e, load) refl

  -- When the read of `fetch_page` fails after a clean frame `f` from the free list was renamed, the
  -- caller sees the error, and the next `fetch_page` of the same page gives the frame as a hit: the
  -- page's data are what the failed read made of a zeroed buffer, and the disk is not asked again.
  pub fetch_page-stale :
      (id : PageId) (p : Pool os) (f : ℕ) (fs : List ℕ)
      → p.page_table id ≡ none
      → p.free_list ≡ f ∷ fs
      → (p.pages f).is_dirty ≡ false
      → is_page id.page_no ≡ true
      → (read_page os id os.zeroed p.disk).0 ≡ false
      → (let first = fetch_page os id p in
          let next = fetch_page os id first.1 in
          (first.0 ≡ disk_error)
          × (next.0 ≡ returned (some f))
          × ((next.1.pages f).page_data ≡ (read_page os id os.zeroed p.disk).1)
          × (next.1.disk ≡ first.1.disk))
  unfolding rename_page half_read
  fetch_page-stale id p f fs absent free clean b fail =
      let p' : Pool os = record p { free_list = fs } in
      let page : Page os = record (p'.pages f) { page_data = os.zeroed; id = id } in
      let p1 = rename_page os f id p' in
      let buf : (p1.pages f).page_data ≡ os.zeroed =
        ap (λ (x : Page os). x.page_data) (set_page_self os f f page p.pages refl) in
      let short : (read_page os id (p1.pages f).page_data p1.disk).0 ≡ false =
        ap (λ (d : os.Data). (read_page os id d p.disk).0) buf ∙ fail in
      let q = half_read f id p1 in
      let half : Page os = record (p1.pages f) {
        page_data = (read_page os id (p1.pages f).page_data p1.disk).1;
      } in
      let failed = fetch_page-free id p f fs absent free clean ∙ load_fails f id p1 short in
      let entry = rename-table_page os p' f id id absent b ∙ rw ((eqb_page_iff id id).1 refl) in
      let k = hit_data id f q entry in
      rw failed (
        refl,
        k.0,
        k.1
            ∙ ap (λ (x : Page os). x.page_data) (set_page_self os f f half p1.pages refl)
            ∙ ap (λ (d : os.Data). (read_page os id d p.disk).1) buf,
        k.2,
      )
