-- ===== src/Storage/Pool/Steps.antt =====
-- The steps of src/storage/buffer_pool_manager.cpp on one frame keep the invariant of the pool.
use dbgenerality_rucbase.Base.{
  ℕ, ◌<◌, ◌≡◌, ◌≢◌, refl, sym, ◌∙◌, ap, subst, true, false, Option, none, some, if◌then◌else◌, ℤ,
  ◌⊎◌, inl, inr, arith, Bool-cases, ℕ_discrete,
}
use dbgenerality_rucbase.Storage.Replacer.Laws.{elem}
use dbgenerality_rucbase.Storage.Disk.{
  PageId, eqb_page, eqb_page_iff, is_invalid, FileSystem, DiskManager,
}
use dbgenerality_rucbase.Storage.Pool.Frames.{
  Page, Pool, set_page, erase_id, insert_id, rename_page,
}
use dbgenerality_rucbase.Storage.Pool.Inv.{is_page, IsVacant, PoolInv, Detached}

module _ (os : FileSystem) where
  pub set_page_self :
      (f g : ℕ) (page : Page os) (pages : ℕ → Page os) → f ≡ g → set_page os f page pages g ≡ page
  unfolding set_page
  set_page_self f g page pages e = ground arith

  pub set_page_ne :
      (f g : ℕ) (page : Page os) (pages : ℕ → Page os)
      → f ≢ g
      → set_page os f page pages g ≡ pages g
  unfolding set_page
  set_page_ne f g page pages h = ground arith

  -- A property of the frame `g` once the frame `f` is written.
  pub split_page :
      (P : ℕ → Page os → Type 0) (f g : ℕ) (page : Page os) (pages : ℕ → Page os)
      → (f ≡ g → P f page)
      → (f ≢ g → P g (pages g))
      → P g (set_page os f page pages g)
  split_page P f g page pages a b = elim (ℕ_discrete f g) [
    | yes e ↦
        subst (P g) (sym (set_page_self f g page pages e)) (subst (λ (k : ℕ). P k page) e (a e))
    | no h ↦ subst (P g) (sym (set_page_ne f g page pages h)) (b h)
  ]

  module _ (p : Pool os) (v : PoolInv os p) where
    -- A frame is written under the same id.
    pub repage :
        (f : ℕ) (page : Page os)
        → page.id ≡ (p.pages f).id
        → (IsVacant os (p.pages f) → page.is_dirty ≡ false)
        → (elem f p.free_list ≡ true → page.pin_count ≡ 0)
        → (elem f p.replacer.lru_list ≡ true → page.pin_count ≡ 0)
        → PoolInv os (record p { pages = set_page os f page p.pages })
    repage f page same clean free lru = record {
      resident = λ id g e.
          let r = v.resident id g e in
          (
            r.0,
            split_page (λ h x. x.id ≡ id) f g page p.pages
                (λ q. same ∙ ap (λ (k : ℕ). (p.pages k).id) q ∙ r.1) (λ _. r.1),
            r.2,
          );
      owns = λ g b.
          split_page (λ h x. IsVacant os x ⊎ (p.page_table x.id ≡ some h)) f g page p.pages
            (λ q. elim (v.owns f (subst (λ (k : ℕ). k < p.pool_size) (sym q) b)) [
              | inl vac ↦ inl (ground arith, clean vac)
              | inr e ↦ inr (ap p.page_table same ∙ e)
            ])
            (λ _. v.owns g b);
      free_ok = λ g e.
          let k = v.free_ok g e in
          (
            k.0,
            split_page (λ h x. x.pin_count ≡ 0) f g page p.pages (λ q. free (ground arith))
                (λ _. k.1),
            split_page (λ h x. IsVacant os x) f g page p.pages
                (λ q.
                  let vac : IsVacant os (p.pages f) =
                    subst (λ (k : ℕ). IsVacant os (p.pages k)) (sym q) k.2 in
                  (ground arith, clean vac))
                (λ _. k.2),
          );
      lru_ok = λ g e.
          let k = v.lru_ok g e in
          (
            k.0,
            split_page (λ h x. x.pin_count ≡ 0) f g page p.pages (λ q. lru (ground arith))
                (λ _. k.1),
          );
      free_nodup = v.free_nodup;
      lru = v.lru;
    }

    pub redisk : (dm : DiskManager os) → PoolInv os (record p { disk = dm })
    redisk dm = record {
      resident = v.resident;
      owns = v.owns;
      free_ok = v.free_ok;
      lru_ok = v.lru_ok;
      free_nodup = v.free_nodup;
      lru = v.lru;
    }

  is_page-valid : (n : ℤ) → is_page n ≡ true → is_invalid n ≡ false
  is_page-valid n b = ground arith

  insert_id-absent :
      (id j : PageId) (f : ℕ) (table : PageId → Option ℕ)
      → table id ≡ none
      → insert_id os id f table j ≡ (if eqb_page id j then some f else table j)
  unfolding insert_id
  insert_id-absent id j f table e = rw (e, insert_id)

  erase_id-absent :
      (id j : PageId) (table : PageId → Option ℕ) → table j ≡ none → erase_id os id table j ≡ none
  unfolding erase_id
  erase_id-absent id j table e = ground arith

  -- The page table once a frame `f` is renamed to a page that is not in the pool, or to none.
  pub rename-table :
      (p : Pool os) (f : ℕ) (new j : PageId)
      → p.page_table new ≡ none
      → (rename_page os f new p).page_table j ≡ (
          if is_invalid new.page_no
          then (if eqb_page (p.pages f).id j then none else p.page_table j)
          else (if eqb_page new j
              then some f
              else (if eqb_page (p.pages f).id j then none else p.page_table j)))
  unfolding rename_page erase_id
  rename-table p f new j e =
      let old = (p.pages f).id in
      elim (Bool-cases (is_invalid new.page_no)) [
        | inl i ↦ rw i
        | inr i ↦ rw i (
            insert_id-absent new j f (erase_id os old p.page_table)
              (erase_id-absent old new p.page_table e))
      ]

  -- What a frame holds once it is renamed.
  abbrev renamed_page : Pool os → ℕ → PageId → Page os
  renamed_page p f new = record (p.pages f) { page_data = os.zeroed; id = new }

  -- The page table under the two uses of `rename_page`.
  pub rename-table_page :
      (p : Pool os) (f : ℕ) (new j : PageId)
      → p.page_table new ≡ none
      → is_page new.page_no ≡ true
      → (rename_page os f new p).page_table j ≡ (
          if eqb_page new j
          then some f
          else (if eqb_page (p.pages f).id j then none else p.page_table j))
  rename-table_page p f new j e b = rename-table p f new j e ∙ rw (is_page-valid new.page_no b)

  pub rename-table_none :
      (p : Pool os) (f : ℕ) (new j : PageId)
      → p.page_table new ≡ none
      → is_invalid new.page_no ≡ true
      → (rename_page os f new p).page_table j
        ≡ (if eqb_page (p.pages f).id j then none else p.page_table j)
  rename-table_none p f new j e b = rename-table p f new j e ∙ rw b

  module _ (p : Pool os) (v : PoolInv os p) (f : ℕ) (d : Detached os f p) (new : PageId) where
    -- Only the frame's own page leaves the table.
    old_owner : (j : PageId) (g : ℕ) → p.page_table j ≡ some g → (p.pages f).id ≡ j → g ≡ f
    old_owner j g e h = elim (v.owns f d.in_pool) [
      | inl vac ↦ absurd (ground (arith, v.resident j g e))
      | inr own ↦ ground arith
    ]

    rename-free :
        (g : ℕ)
        → elem g p.free_list ≡ true
        → (g < p.pool_size)
          × (((rename_page os f new p).pages g).pin_count ≡ 0)
          × IsVacant os ((rename_page os f new p).pages g)
    unfolding rename_page
    rename-free g e =
        let k = v.free_ok g e in
        let away : f ≢ g = λ q. ground (arith, d.not_free) in
        let same = set_page_ne f g (renamed_page p f new) p.pages away in
        (k.0, ap (λ (x : Page os). x.pin_count) same ∙ k.1, subst (IsVacant os) (sym same) k.2)

    rename-lru :
        (g : ℕ)
        → elem g p.replacer.lru_list ≡ true
        → (g < p.pool_size) × (((rename_page os f new p).pages g).pin_count ≡ 0)
    unfolding rename_page
    rename-lru g e =
        let k = v.lru_ok g e in
        (
          k.0,
          split_page (λ h x. x.pin_count ≡ 0) f g (renamed_page p f new) p.pages (λ q. d.unpinned)
              (λ _. k.1),
        )

    rename-resident :
        (j : PageId) (g : ℕ)
        → is_page new.page_no ≡ true
        → (if eqb_page new j
            then some f
            else (if eqb_page (p.pages f).id j then none else p.page_table j))
          ≡ some g
        → (g < p.pool_size)
          × (((rename_page os f new p).pages g).id ≡ j)
          × (is_page j.page_no ≡ true)
    unfolding rename_page
    rename-resident j g b t = elim (Bool-cases (eqb_page new j)) [
      | inl e ↦
          let same : new ≡ j = (eqb_page_iff new j).0 e in
          let q : f ≡ g = ground (arith, t) in
          (
            subst (λ (k : ℕ). k < p.pool_size) q d.in_pool,
            ap (λ (x : Page os). x.id) (set_page_self f g (renamed_page p f new) p.pages q) ∙ same,
            subst (λ (k : PageId). is_page k.page_no ≡ true) same b,
          )
      | inr e ↦ elim (Bool-cases (eqb_page (p.pages f).id j)) [
        | inl o ↦ absurd (ground arith)
        | inr o ↦
            let old : p.page_table j ≡ some g = ground arith in
            let r = v.resident j g old in
            let away : f ≢ g = λ q. absurd (
              cc (o, (eqb_page_iff (p.pages f).id j).1 (ap (λ (k : ℕ). (p.pages k).id) q ∙ r.1))) in
            (
              r.0,
              ap (λ (x : Page os). x.id) (set_page_ne f g (renamed_page p f new) p.pages away)
                  ∙ r.1,
              r.2,
            )
      ]
    ]

    pub other_entry :
        (g : ℕ)
        → p.page_table new ≡ none
        → f ≢ g
        → p.page_table (p.pages g).id ≡ some g
        → (if eqb_page new (p.pages g).id
            then some f
            else (if eqb_page (p.pages f).id (p.pages g).id
                then none
                else p.page_table (p.pages g).id))
          ≡ some g
    other_entry g absent h own =
        let there = (eqb_page_iff new (p.pages g).id).0 in
        let owned = (eqb_page_iff (p.pages f).id (p.pages g).id).0 in
        elim (Bool-cases (eqb_page new (p.pages g).id)) [
          | inl e ↦ absurd (cc (absent, own, ap p.page_table (there e)))
          | inr e ↦ elim (Bool-cases (eqb_page (p.pages f).id (p.pages g).id)) [
            | inl o ↦ absurd (h (sym (old_owner (p.pages g).id g own (owned o))))
            | inr o ↦ rw (e, o) own
          ]
        ]

    rename-owns :
        (g : ℕ)
        → p.page_table new ≡ none
        → is_page new.page_no ≡ true
        → g < p.pool_size
        → IsVacant os ((rename_page os f new p).pages g)
          ⊎ ((rename_page os f new p).page_table ((rename_page os f new p).pages g).id ≡ some g)
    unfolding rename_page
    rename-owns g absent b l =
        split_page (λ h x. IsVacant os x ⊎ ((rename_page os f new p).page_table x.id ≡ some h)) f g
          (renamed_page p f new) p.pages
          (λ q. inr (rename-table_page p f new new absent b ∙ rw ((eqb_page_iff new new).1 refl)))
          (λ h. elim (v.owns g l) [
            | inl vac ↦ inl vac
            | inr own ↦
                inr (rename-table_page p f new (p.pages g).id absent b ∙ other_entry g absent h own)
          ])

    -- A frame that nobody uses is given to a page that is not in the pool.
    pub rename-PoolInv :
        p.page_table new ≡ none → is_page new.page_no ≡ true → PoolInv os (rename_page os f new p)
    unfolding rename_page
    rename-PoolInv absent b = record {
      resident = λ j g e. rename-resident j g b (sym (rename-table_page p f new j absent b) ∙ e);
      owns = λ g l. rename-owns g absent b l;
      free_ok = rename-free;
      lru_ok = rename-lru;
      free_nodup = v.free_nodup;
      lru = v.lru;
    }
