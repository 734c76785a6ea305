-- ===== src/Index/Tree/Places.antt =====
-- The places in the leaves: `lower_bound`, `upper_bound`, `leaf_begin`, `leaf_end` and `get_rid` of
-- src/index/ix_index_handle.cpp, and `IxScan` of src/index/ix_scan.{h,cpp}.
use dbgenerality_rucbase.Base.{ℕ, suc, Bool, ◌&&◌, not, if◌then◌else◌, ◌==◌, ltb, eqb_ℤ}
use dbgenerality_rucbase.Lock.Types.{Rid}
use dbgenerality_rucbase.Query.Result.{
  Result, ok, assertion_failed, index_entry_not_found, require, ◌>>=◌, ◌>>◌,
}
use dbgenerality_rucbase.Index.Order.{KeyOrder}
use dbgenerality_rucbase.Index.Node.{lower_bound, upper_bound}
use dbgenerality_rucbase.Index.Tree.{Iid, IxIndexHandle, fetch_node, find_leaf_page}

abbrev pub eqb_iid : Iid → Iid → Bool
eqb_iid a b = eqb_ℤ a.page_no b.page_no && a.slot_no == b.slot_no

pub record IxScan : Type 0 where
  pub iid : Iid
  pub end : Iid

module _ (order : KeyOrder) (zero_key : order.Key) where
  open order use {Key}

  unfoldable pub leaf_end : IxIndexHandle order zero_key → Result Iid
  leaf_end t = do
    n ← fetch_node order zero_key t.last_leaf t
    ok (record { page_no = t.last_leaf; slot_no = n.node.num_key })

  unfoldable pub leaf_begin : IxIndexHandle order zero_key → Iid
  leaf_begin t = record { page_no = t.first_leaf; slot_no = 0 }

  -- `lower_bound` of the tree
  unfoldable pub lower_iid : ℕ → Key → IxIndexHandle order zero_key → Result Iid
  unfolding find_leaf_page lower_bound
  lower_iid fuel key t = do
    p ← find_leaf_page order zero_key fuel key t
    n ← fetch_node order zero_key p t
    ok (record { page_no = p; slot_no = lower_bound order n.node key })

  -- `upper_bound` of the tree
  unfoldable pub upper_iid : ℕ → Key → IxIndexHandle order zero_key → Result Iid
  unfolding find_leaf_page upper_bound leaf_end
  upper_iid fuel key t = do
    p ← find_leaf_page order zero_key fuel key t
    n ← fetch_node order zero_key p t
    let key_idx = upper_bound order n.node key
    if key_idx == n.node.num_key then leaf_end t else ok (record { page_no = p; slot_no = key_idx })

  -- `get_rid`
  unfoldable pub rid_at : Iid → IxIndexHandle order zero_key → Result Rid
  rid_at iid t = do
    n ← fetch_node order zero_key iid.page_no t
    require (ltb iid.slot_no n.node.num_key) index_entry_not_found
    ok (n.node.rids iid.slot_no)

  -- `IxScan::next`
  unfoldable pub next_iid : IxScan → IxIndexHandle order zero_key → Result IxScan
  next_iid scan t = do
    require (not (eqb_iid scan.iid scan.end)) assertion_failed
    n ← fetch_node order zero_key scan.iid.page_no t
    require n.is_leaf assertion_failed
    require (ltb scan.iid.slot_no n.node.num_key) assertion_failed
    let slot_no = suc scan.iid.slot_no
    if not (eqb_ℤ scan.iid.page_no t.last_leaf) && slot_no == n.node.num_key
        then ok (record scan { iid = record { page_no = n.next_leaf; slot_no = 0 } })
        else ok (record scan { iid = record { page_no = scan.iid.page_no; slot_no = slot_no } })
