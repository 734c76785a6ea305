-- ===== src/Index/Tree/Create.antt =====
-- `create_index` of src/index/ix_manager.h, and the handle that `open_index` makes of its file.
use dbgenerality_rucbase.Base.{
  ℕ, ◌+◌, ◌-◌, ◌*◌, ◌/◌, ◌≤◌, ◌<◌, ◌≡◌, refl, true, none, some, if◌then◌else◌, leb, ltb, ℤ, pos,
  minus_one, eqb_ℤ, arith,
}
use native.Mathlib.Nat.{div-mul-le_self, le-div_iff_mul-le}
use dbgenerality_rucbase.Query.Result.{
  Result, ok, assertion_failed, invalid_col_length, require, ◌>>◌,
}
use dbgenerality_rucbase.Record.Layout.{page_size}
use dbgenerality_rucbase.Index.Order.{KeyOrder}
use dbgenerality_rucbase.Index.Tree.{NodePage, IxIndexHandle, blank}
use dbgenerality_rucbase.Index.Tree.Shape.{IsTree}

-- `IX_MAX_COL_LEN`, `sizeof(IxPageHdr)` and `sizeof(Rid)`
abbrev pub ix_max_col_len : ℕ
ix_max_col_len = 512

abbrev pub ix_page_hdr_size : ℕ
ix_page_hdr_size = 24

abbrev pub rid_size : ℕ
rid_size = 8

unfoldable pub order_of : ℕ → ℕ
order_of col_tot_len = (page_size - ix_page_hdr_size) / (col_tot_len + rid_size) - 1

module _ (order : KeyOrder) (zero_key : order.Key) where
  -- A leaf without keys between two pages.
  abbrev pub empty_leaf : ℤ → NodePage order zero_key
  empty_leaf links = record (blank order zero_key) {
    is_leaf = true;
    parent = minus_one;
    prev_leaf = links;
    next_leaf = links;
    next_free_page_no = minus_one;
  }

  -- The leaf header is page 1 and the root page 2. `create_index` sets the counter of the disk
  -- manager to 2, and `open_index` adds 1.
  abbrev pub new_index : ℕ → IxIndexHandle order zero_key
  new_index btree_order = record {
    root_page = pos 2;
    first_leaf = pos 2;
    last_leaf = pos 2;
    num_pages = pos 3;
    btree_order = btree_order;
    next_page_no = pos 3;
    pages = λ p.
        if eqb_ℤ p (pos 1)
        then some (empty_leaf (pos 2))
        else if eqb_ℤ p (pos 2)
        then some (empty_leaf (pos 1))
        else none;
  }

  unfoldable pub create_index : ℕ → Result (IxIndexHandle order zero_key)
  unfolding order_of
  create_index col_tot_len = do
    require (leb col_tot_len ix_max_col_len) invalid_col_length
    require (ltb 2 (order_of col_tot_len)) assertion_failed
    ok (new_index (order_of col_tot_len))

  new_index-IsTree : (n : ℕ) → IsTree order zero_key (new_index n) 0
  new_index-IsTree n = (
    empty_leaf (pos 1),
    refl,
    refl,
    record {
      leaf = refl;
      sorted = λ i j a b. absurd (omega arith);
      within = λ i a. absurd (omega arith);
    },
  )

  order_bounds : (l : ℕ) → l ≤ 512 → (2 < order_of l) × (24 + (order_of l + 1) * (l + 8) ≤ 4096)
  unfolding order_of
  order_bounds l h =
      let many : 7 ≤ 4072 / (l + 8) = (le-div_iff_mul-le (omega arith)).1 (omega arith) in
      let one : 4072 / (l + 8) - 1 + 1 ≡ 4072 / (l + 8) = omega arith in
      (omega arith, rw one (omega (arith, div-mul-le_self 4072 (l + 8))))

  -- For a key of at most `ix_max_col_len` bytes, `create_index` ends, and the new index is a tree of
  -- one leaf, in whose pages the header, all the keys and rids that a node may hold and one more fit.
  pub create_index-IsTree :
      (col_tot_len : ℕ)
      → col_tot_len ≤ ix_max_col_len
      → (t : IxIndexHandle order zero_key) × (create_index col_tot_len ≡ ok t)
        × IsTree order zero_key t 0
        × (ix_page_hdr_size + (t.btree_order + 1) * (col_tot_len + rid_size) ≤ page_size)
  unfolding create_index
  create_index-IsTree l h =
      let (many, fits) = order_bounds l h in
      let a : leb l 512 ≡ true = ground arith in
      let b : ltb 2 (order_of l) ≡ true = ground arith in
      (new_index (order_of l), rw (a, b) refl, new_index-IsTree (order_of l), fits)
