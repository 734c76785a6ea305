-- ===== src/Storage/Pool/Inv.antt =====
-- The invariant of the buffer pool of src/storage/buffer_pool_manager.cpp, and that the steps on a
-- frame keep it.
use dbgenerality_rucbase.Base.{
  ℕ, ◌<◌, ◌≡◌, refl, subst, Bool, true, false, List, [], ◌∷◌, Option, none, some, ℤ, pos, negsuc,
  ◌⊎◌, inl, inr, arith,
}
use dbgenerality_rucbase.Storage.Replacer.{LruReplacer, victim}
use dbgenerality_rucbase.Storage.Replacer.Laws.{
  elem, NoDup, LruInv, victim-LruInv, elem-victim, victim-oldest,
}
use dbgenerality_rucbase.Storage.Disk.{PageId, is_invalid, FileSystem}
use dbgenerality_rucbase.Storage.Pool.Frames.{Page, Pool, find_victim_page}

-- A page number that a file has.
abbrev pub is_page : ℤ → Bool
is_page (pos n) = true
is_page (negsuc n) = false

module _ (os : FileSystem) where
  -- A frame that holds no page: the id is INVALID and there is nothing to write.
  abbrev pub IsVacant : Page os → Type 0
  IsVacant page = (is_invalid page.id.page_no ≡ true) × (page.is_dirty ≡ false)

  pub record PoolInv (p : Pool os) : Type 0 where
    -- An entry of the page table names a frame that holds the page.
    pub resident :
        (id : PageId) (f : ℕ)
        → p.page_table id ≡ some f
        → (f < p.pool_size) × ((p.pages f).id ≡ id) × (is_page id.page_no ≡ true)
    -- A frame that holds a page is the one that the page table names.
    pub owns :
        (f : ℕ) → f < p.pool_size → IsVacant (p.pages f) ⊎ (p.page_table (p.pages f).id ≡ some f)
    pub free_ok :
        (f : ℕ)
        → elem f p.free_list ≡ true
        → (f < p.pool_size) × ((p.pages f).pin_count ≡ 0) × IsVacant (p.pages f)
    -- What can be evicted is not pinned.
    pub lru_ok :
        (f : ℕ)
        → elem f p.replacer.lru_list ≡ true
        → (f < p.pool_size) × ((p.pages f).pin_count ≡ 0)
    pub free_nodup : NoDup p.free_list
    pub lru : LruInv p.replacer

  -- A frame that is not pinned and not in the free list.
  pub record Detached (f : ℕ) (p : Pool os) : Type 0 where
    pub in_pool : f < p.pool_size
    pub unpinned : (p.pages f).pin_count ≡ 0
    pub not_free : elem f p.free_list ≡ false

  -- The same frames and the same page table: what `find_victim_page` leaves alone.
  pub record SamePages (p p' : Pool os) : Type 0 where
    pub pages : p'.pages ≡ p.pages
    pub table : p'.page_table ≡ p.page_table
    pub disk : p'.disk ≡ p.disk
    pub pool_size : p'.pool_size ≡ p.pool_size

  abbrev pub VictimOk : Pool os → Option ℕ × Pool os → Type 0
  VictimOk p (none, p') = PoolInv p' × SamePages p p'
  VictimOk p (some f, p') = PoolInv p' × SamePages p p' × Detached f p'

  -- Fewer frames to choose from.
  pub relist :
      (p : Pool os) (fl : List ℕ) (r : LruReplacer)
      → PoolInv p
      → ((f : ℕ) → elem f fl ≡ true → elem f p.free_list ≡ true)
      → ((f : ℕ) → elem f r.lru_list ≡ true → elem f p.replacer.lru_list ≡ true)
      → NoDup fl
      → LruInv r
      → PoolInv (record p { free_list = fl; replacer = r })
  relist p fl r v a b c d = record {
    resident = v.resident;
    owns = v.owns;
    free_ok = λ f h. v.free_ok f (a f h);
    lru_ok = λ f h. v.lru_ok f (b f h);
    free_nodup = c;
    lru = d;
  }

  victim_lru :
      (p : Pool os) (o : Option ℕ)
      → PoolInv p
      → p.free_list ≡ []
      → (victim p.replacer).0 ≡ o
      → VictimOk p (o, record p { replacer = (victim p.replacer).1 })
  unfolding elem
  victim_lru p none v e h = elim (victim-oldest p.replacer) [
    | inl (_, n) ↦ rw n (
      relist p p.free_list p.replacer v (λ f x. x) (λ f x. x) v.free_nodup v.lru,
      record { pages = refl; table = refl; disk = refl; pool_size = refl },
    )
    | inr (f, n, _) ↦ absurd (cc (n, h))
  ]
  victim_lru p (some f) v e h =
      let m = λ (g : ℕ). elem-victim p.replacer f g v.lru h in
      (
        relist p p.free_list (victim p.replacer).1 v (λ g x. x) (λ g x. ground (arith, m g))
            v.free_nodup (victim-LruInv p.replacer v.lru),
        record { pages = refl; table = refl; disk = refl; pool_size = refl },
        record {
          in_pool = (v.lru_ok f (m f).0).0;
          unpinned = (v.lru_ok f (m f).0).1;
          not_free = rw e;
        },
      )

  by_free_list :
      (p : Pool os) (fl : List ℕ)
      → PoolInv p
      → p.free_list ≡ fl
      → VictimOk p (elim fl [
        | [] ↦ let (f, r) = victim p.replacer in (f, record p { replacer = r })
        | f ∷ fs ↦ (some f, record p { free_list = fs })
      ])
  unfolding elem
  by_free_list p [] v e = victim_lru p (victim p.replacer).0 v e refl
  by_free_list p (f ∷ fs) v e =
      let k = v.free_ok f (rw e (ground arith)) in
      let d : NoDup (f ∷ fs) = subst NoDup e v.free_nodup in
      (
        relist p fs p.replacer v (λ g x. rw e (ground arith)) (λ g x. x) d.1 v.lru,
        record { pages = refl; table = refl; disk = refl; pool_size = refl },
        record { in_pool = k.0; unpinned = k.1; not_free = d.0 },
      )

  -- On a pool in the invariant `find_victim_page` keeps it and changes no page, no entry of the page
  -- table and nothing on the disk; a frame that it gives is in the pool, is not pinned and is not in
  -- the free list any more.
  pub find_victim_page-VictimOk : (p : Pool os) → PoolInv p → VictimOk p (find_victim_page os p)
  unfolding find_victim_page
  find_victim_page-VictimOk p v = by_free_list p p.free_list v refl
