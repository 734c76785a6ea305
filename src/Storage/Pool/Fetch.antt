-- ===== src/Storage/Pool/Fetch.antt =====
-- `fetch_page` of src/storage/buffer_pool_manager.cpp: what it keeps of the pool.
use dbgenerality_rucbase.Base.{
  ℕ, ◌+◌, ◌≤◌, ◌≡◌, ◌≢◌, refl, sym, ◌∙◌, ap, subst, true, false, Option, none, some, inl, inr,
  arith, Bool-cases, Option-cases,
}
use dbgenerality_rucbase.Storage.Replacer.{pin}
use dbgenerality_rucbase.Storage.Replacer.Laws.{elem, pin-LruInv, elem-pin}
use dbgenerality_rucbase.Storage.Disk.{PageId, eqb_page_iff, FileSystem, write_page, read_page}
use dbgenerality_rucbase.Storage.Pool.Frames.{
  Outcome, returned, disk_error, assert_failed, Page, Pool, set_page, find_victim_page, write_back,
  rename_page, update_page, rename_after, take_frame,
}
use dbgenerality_rucbase.Storage.Pool.Ops.{load, load_after, fetch_into, fetch_miss, fetch_page}
use dbgenerality_rucbase.Storage.Pool.Inv.{
  is_page, PoolInv, Detached, SamePages, VictimOk, relist, find_victim_page-VictimOk,
}
use dbgenerality_rucbase.Storage.Pool.Steps.{
  set_page_self, set_page_ne, split_page, repage, redisk, rename-PoolInv, rename-table_page,
  other_entry,
}

module _ (os : FileSystem) where
  pub take_frame-PoolInv :
      (f n : ℕ) (p : Pool os)
      → PoolInv os p
      → elem f p.free_list ≡ false
      → PoolInv os (take_frame os f n p)
  unfolding take_frame
  take_frame-PoolInv f n p v out =
      let gone = λ (g : ℕ). elem-pin f g p.replacer v.lru in
      let r = pin f p.replacer in
      let v' =
        relist os p p.free_list r v (λ g x. x) (λ g x. ground (arith, gone g)) v.free_nodup
          (pin-LruInv f p.replacer v.lru) in
      repage os (record p { replacer = r }) v' f (record (p.pages f) { pin_count = n }) refl
        (λ vac. vac.1) (λ e. absurd (cc (e, out))) (λ e. absurd (ground (arith, gone f)))

  -- The entries of the page table that name another frame than `f`, and those frames, are kept.
  abbrev pub Others : ℕ → Pool os → Pool os → Type 0
  Others f p p' =
      (j : PageId) (g : ℕ)
      → p.page_table j ≡ some g
      → f ≢ g
      → (p'.page_table j ≡ some g) × (p'.pages g ≡ p.pages g)

  -- A stage of an operation that works on the frame `f`, which nobody uses.
  pub record Ready (f : ℕ) (p p' : Pool os) : Type 0 where
    pub inv : PoolInv os p'
    pub detached : Detached os f p'
    pub table : p'.page_table ≡ p.page_table
    pub others : (g : ℕ) → f ≢ g → p'.pages g ≡ p.pages g

  write_back-Ready :
      (f : ℕ) (p : Pool os) → PoolInv os p → Detached os f p → Ready f p (write_back os f p).1
  unfolding write_back
  write_back-Ready f p v d =
      let page = record (p.pages f) { is_dirty = false } in
      let v' = repage os p v f page refl (λ vac. refl) (λ e. d.unpinned) (λ e. d.unpinned) in
      let d' : Detached os f (record p { pages = set_page os f page p.pages }) = record {
        in_pool = d.in_pool;
        unpinned =
            ap (λ (x : Page os). x.pin_count) (set_page_self os f f page p.pages refl) ∙ d.unpinned;
        not_free = d.not_free;
      } in
      elim (Bool-cases ((p.pages f).is_dirty)) [
        | inr clean ↦
            rw clean (record { inv = v; detached = d; table = refl; others = λ g h. refl })
        | inl dirty ↦
            let dm = (write_page os (p.pages f).id (p.pages f).page_data p.disk).1 in
            rw dirty (record {
              inv = redisk os (record p { pages = set_page os f page p.pages }) v' dm;
              detached = record {
                in_pool = d'.in_pool;
                unpinned = d'.unpinned;
                not_free = d'.not_free;
              };
              table = refl;
              others = λ g h. set_page_ne os f g page p.pages h;
            })
      ]

  -- The frame `f` after it was given to the page `id`.
  pub record Given (f : ℕ) (id : PageId) (p p' : Pool os) : Type 0 where
    pub inv : PoolInv os p'
    pub detached : Detached os f p'
    pub entry : p'.page_table id ≡ some f
    pub others : Others f p p'

  rename-entry :
      (f : ℕ) (id : PageId) (p : Pool os)
      → PoolInv os p
      → Detached os f p
      → (j : PageId) (g : ℕ) → p.page_table id ≡ none
      → is_page id.page_no ≡ true
      → p.page_table j ≡ some g
      → f ≢ g
      → (rename_page os f id p).page_table j ≡ some g
  rename-entry f id p v d j g absent b e h =
      let named = (v.resident j g e).1 in
      let own : p.page_table (p.pages g).id ≡ some g = ap p.page_table named ∙ e in
      subst (λ (k : PageId). (rename_page os f id p).page_table k ≡ some g) named
        (rename-table_page os p f id (p.pages g).id absent b
          ∙ other_entry os p v f d id g absent h own)

  rename-Given :
      (f : ℕ) (id : PageId) (p p' : Pool os)
      → Ready f p p'
      → p.page_table id ≡ none
      → is_page id.page_no ≡ true
      → Given f id p (rename_page os f id p')
  unfolding rename_page
  rename-Given f id p p' s absent b =
      let absent' : p'.page_table id ≡ none =
        ap (λ (t : PageId → Option ℕ). t id) s.table ∙ absent in
      let page : Page os = record (p'.pages f) { page_data = os.zeroed; id = id } in
      record {
        inv = rename-PoolInv os p' s.inv f s.detached id absent' b;
        detached = record {
          in_pool = s.detached.in_pool;
          unpinned =
              ap (λ (x : Page os). x.pin_count) (set_page_self os f f page p'.pages refl)
              ∙ s.detached.unpinned;
          not_free = s.detached.not_free;
        };
        entry = rename-table_page os p' f id id absent' b ∙ rw ((eqb_page_iff id id).1 refl);
        others = λ j g e h. (
          rename-entry f id p' s.inv s.detached j g absent' b
              (ap (λ (t : PageId → Option ℕ). t j) s.table ∙ e) h,
          set_page_ne os f g page p'.pages h ∙ s.others g h,
        );
      }

  -- How `fetch_page` leaves the pool: an invariant pool where what was pinned is kept.
  pub record Kept (p p' : Pool os) : Type 0 where
    pub inv : PoolInv os p'
    pub pinned :
        (j : PageId) (g : ℕ)
        → p.page_table j ≡ some g
        → (p.pages g).pin_count ≢ 0
        → (p'.page_table j ≡ some g)
          × ((p'.pages g).page_data ≡ (p.pages g).page_data)
          × ((p.pages g).pin_count ≤ (p'.pages g).pin_count)

  -- What a result promises of the pool with it: a returned frame holds the page and is pinned.
  abbrev pub Serves : PageId → Outcome (Option ℕ) × Pool os → Type 0
  Serves id (returned (some f), p) =
      (p.page_table id ≡ some f) × ((p.pages f).id ≡ id) × ((p.pages f).pin_count ≢ 0)
  Serves id (returned none, p) = Unit {0}
  Serves id (disk_error, p) = Unit {0}
  Serves id (assert_failed, p) = Unit {0}

  one_more : (n k : ℕ) → n ≡ k + 1 → n ≢ 0
  one_more n k e z = ground arith

  load-Given :
      (f : ℕ) (id : PageId) (p p' : Pool os)
      → Given f id p p'
      → (PoolInv os (load os f id p').1)
        × (Others f p (load os f id p').1)
        × (Serves id (load os f id p'))
  unfolding load take_frame
  load-Given f id p p' s =
      let r = read_page os id (p'.pages f).page_data p'.disk in
      let page : Page os = record (p'.pages f) { page_data = r.1 } in
      let filled : Pool os = record p' { disk = r.2; pages = set_page os f page p'.pages } in
      let v =
        redisk os (record p' { pages = set_page os f page p'.pages })
          (repage os p' s.inv f page refl (λ vac. vac.1) (λ x. s.detached.unpinned)
            (λ x. s.detached.unpinned))
          r.2 in
      let taken : Page os = record (filled.pages f) { pin_count = 1 } in
      let here = set_page_self os f f taken filled.pages refl in
      elim (Bool-cases r.0) [
        | inr e ↦
            rw (e, load)
              (
                v,
                λ j g t h.
                    let o = s.others j g t h in (o.0, set_page_ne os f g page p'.pages h ∙ o.1),
                tt,
              )
        | inl e ↦
            rw (e, load)
              (
                take_frame-PoolInv f 1 filled v s.detached.not_free,
                λ j g t h.
                    let o = s.others j g t h in
                    (
                      o.0,
                      set_page_ne os f g taken filled.pages h
                          ∙ set_page_ne os f g page p'.pages h
                          ∙ o.1,
                    ),
                (
                  s.entry,
                  ap (λ (x : Page os). x.id) here
                      ∙ ap (λ (x : Page os). x.id) (set_page_self os f f page p'.pages refl)
                      ∙ (s.inv.resident id f s.entry).1,
                  λ z. one_more _ 0 (ap (λ (x : Page os). x.pin_count) here) z,
                ),
              )
      ]

  Others-Kept :
      (f : ℕ) (p p' : Pool os)
      → (p.pages f).pin_count ≡ 0
      → PoolInv os p'
      → Others f p p'
      → Kept p p'
  Others-Kept f p p' z v o = record {
    inv = v;
    pinned = λ j g e n.
        let k = o j g e (λ q. n (ap (λ (h : ℕ). (p.pages h).pin_count) (sym q) ∙ z)) in
        (
          k.0,
          ap (λ (x : Page os). x.page_data) k.1,
          subst (λ (x : Page os). (p.pages g).pin_count ≤ x.pin_count) (sym k.1) (ground arith),
        );
  }

  SamePages-Kept : (p p' : Pool os) → PoolInv os p' → SamePages os p p' → Kept p p'
  SamePages-Kept p p' v s = record {
    inv = v;
    pinned = λ j g e n.
        let k = ap (λ (t : ℕ → Page os). t g) s.pages in
        (
          ap (λ (t : PageId → Option ℕ). t j) s.table ∙ e,
          ap (λ (x : Page os). x.page_data) k,
          subst (λ (x : Page os). (p.pages g).pin_count ≤ x.pin_count) (sym k) (ground arith),
        );
  }

  same-then : (p q p' : Pool os) → SamePages os p q → Kept q p' → Kept p p'
  same-then p q p' s k = record {
    inv = k.inv;
    pinned = λ j g e n.
        let a = ap (λ (t : ℕ → Page os). t g) s.pages in
        let b =
          k.pinned j g (ap (λ (t : PageId → Option ℕ). t j) s.table ∙ e)
            (λ z. n (ap (λ (x : Page os). x.pin_count) (sym a) ∙ z)) in
        (
          b.0,
          b.1 ∙ ap (λ (x : Page os). x.page_data) a,
          subst (λ (x : Page os). x.pin_count ≤ (p'.pages g).pin_count) a b.2,
        );
  }

  -- What the parts of `fetch_page` that work on a frame `f` leave.
  abbrev Filled : ℕ → PageId → Pool os → Outcome (Option ℕ) × Pool os → Type 0
  Filled f id p r = PoolInv os r.1 × Others f p r.1 × Serves id r

  module _ (f : ℕ) (id : PageId) (p : Pool os) (v : PoolInv os p) (d : Detached os f p)
      (absent : p.page_table id ≡ none) (b : is_page id.page_no ≡ true) where
    Ready-Others : (p' : Pool os) → Ready f p p' → Others f p p'
    Ready-Others p' s j g e h = (ap (λ (t : PageId → Option ℕ). t j) s.table ∙ e, s.others g h)

    after-Filled :
        (r : Outcome (Unit {0}) × Pool os)
        → Ready f p r.1
        → Filled f id p (load_after os f id (rename_after os f id r))
    unfolding load_after rename_after
    after-Filled (returned _, q) s =
        load-Given f id p (rename_page os f id q) (rename-Given f id p q s absent b)
    after-Filled (disk_error, q) s = (s.inv, Ready-Others q s, tt)
    after-Filled (assert_failed, q) s = (s.inv, Ready-Others q s, tt)

    fetch_into-Filled : Filled f id p (fetch_into os id (some f, p))
    unfolding fetch_into update_page
    fetch_into-Filled = after-Filled (write_back os f p) (write_back-Ready f p v d)

  by_victim :
      (id : PageId) (p : Pool os) (r : Option ℕ × Pool os)
      → VictimOk os p r
      → p.page_table id ≡ none
      → is_page id.page_no ≡ true
      → Kept p (fetch_into os id r).1 × Serves id (fetch_into os id r)
  unfolding fetch_into
  by_victim id p (none, q) ok absent b = (SamePages-Kept p q ok.0 ok.1, tt)
  by_victim id p (some f, q) (v, s, d) absent b =
      let k =
        fetch_into-Filled f id q v d (ap (λ (t : PageId → Option ℕ). t id) s.table ∙ absent) b in
      (
        same-then p q (fetch_into os id (some f, q)).1 s
            (Others-Kept f q (fetch_into os id (some f, q)).1 d.unpinned k.0 k.1),
        k.2,
      )

  resident-not_free :
      (id : PageId) (f : ℕ) (p : Pool os)
      → PoolInv os p
      → p.page_table id ≡ some f
      → elem f p.free_list ≡ false
  resident-not_free id f p v e = elim (Bool-cases (elem f p.free_list)) [
    | inr out ↦ out
    | inl here ↦ absurd (ground (arith, v.resident id f e, v.free_ok f here))
  ]

  hit :
      (id : PageId) (f : ℕ) (p : Pool os)
      → PoolInv os p
      → p.page_table id ≡ some f
      → Kept p (take_frame os f ((p.pages f).pin_count + 1) p)
        × Serves id (returned (some f), take_frame os f ((p.pages f).pin_count + 1) p)
  unfolding take_frame
  hit id f p v e =
      let n = (p.pages f).pin_count + 1 in
      let page : Page os = record (p.pages f) { pin_count = n } in
      let here = set_page_self os f f page p.pages refl in
      (
        record {
          inv = take_frame-PoolInv f n p v (resident-not_free id f p v e);
          pinned = λ j g t z. (
            t,
            split_page os (λ h x. x.page_data ≡ (p.pages h).page_data) f g page p.pages (λ q. refl)
                (λ q. refl),
            split_page os (λ h x. (p.pages h).pin_count ≤ x.pin_count) f g page p.pages
                (λ q. ground arith) (λ q. ground arith),
          );
        },
        (
          e,
          ap (λ (x : Page os). x.id) here ∙ (v.resident id f e).1,
          λ z. one_more _ (p.pages f).pin_count (ap (λ (x : Page os). x.pin_count) here) z,
        ),
      )

  pub fetch_page-Kept :
      (id : PageId) (p : Pool os)
      → PoolInv os p
      → is_page id.page_no ≡ true
      → Kept p (fetch_page os id p).1 × Serves id (fetch_page os id p)
  unfolding fetch_page fetch_miss
  fetch_page-Kept id p v b = elim (Option-cases (p.page_table id)) [
    | inl e ↦
        rw (e, fetch_page)
          (by_victim id p (find_victim_page os p) (find_victim_page-VictimOk os p v) e b)
    | inr (f, e) ↦ rw (e, fetch_page) (hit id f p v e)
  ]
