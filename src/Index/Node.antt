-- ===== src/Index/Node.antt =====
-- `IxNodeHandle` of src/index/ix_index_handle.{h,cpp}: the arrays of keys and rids in a page, the
-- searches and the changes of one node.
pub mod Search
pub mod Insert
pub mod Upper
pub mod Entries
pub mod Parts
use dbgenerality_rucbase.Base.{
  ℕ, zero, suc, ◌+◌, ◌-◌, ◌/◌, ◌≡◌, Bool, true, false, ◌&&◌, ◌||◌, not, Option, none, some,
  if◌then◌else◌, ◌==◌, ltb, leb, ℤ,
}
use dbgenerality_rucbase.Lock.Types.{Rid}
use dbgenerality_rucbase.Index.Order.{KeyOrder, Sign, is_below, is_above, is_same}

-- `memmove` of what stands at `pos` and after it, and `memcpy` of `n` new elements.
unfoldable pub insert_at {ℓ} : {A : Type ℓ} → ℕ → ℕ → ℕ → (ℕ → A) → (ℕ → A) → ℕ → A
insert_at size pos n new old i =
    if ltb i pos
    then old i
    else if ltb i (pos + n)
    then new (i - pos)
    else if ltb i (size + n)
    then old (i - n)
    else old i

-- `memmove` of what stands after `pos`.
unfoldable pub erase_at {ℓ} : {A : Type ℓ} → ℕ → ℕ → (ℕ → A) → ℕ → A
erase_at size pos old i =
    if ltb i pos then old i else if ltb (i + 1) size then old (i + 1) else old i

module _ (order : KeyOrder) where
  open order use {Key, ix_compare}

  -- The header's `num_key` and the two arrays. An index past the end reads what the page holds there.
  pub record IxNodeHandle : Type 0 where
    pub num_key : ℕ
    pub keys : ℕ → Key
    pub rids : ℕ → Rid

  -- One turn of the loop of `lower_bound`.
  unfoldable pub narrow_lower : IxNodeHandle → Key → ℕ → ℕ → ℕ × ℕ
  narrow_lower node target l r =
      let mid = (l + r) / 2 in
      if is_below (ix_compare (node.keys mid) target) then (mid + 1, r) else (l, mid)

  unfoldable pub lower_from : ℕ → IxNodeHandle → Key → ℕ → ℕ → ℕ
  unfolding narrow_lower
  lower_from zero node target l r = l
  lower_from (suc fuel) node target l r =
      let next = narrow_lower node target l r in
      let rest = lower_from fuel node target next.0 next.1 in if ltb l r then rest else l

  unfoldable pub lower_bound : IxNodeHandle → Key → ℕ
  unfolding lower_from
  lower_bound node target = lower_from node.num_key node target 0 node.num_key

  -- One turn of the loop of `upper_bound`.
  unfoldable pub narrow_upper : IxNodeHandle → Key → ℕ → ℕ → ℕ × ℕ
  narrow_upper node target l r =
      let mid = (l + r) / 2 in
      if is_above (ix_compare (node.keys mid) target) then (l, mid) else (mid + 1, r)

  unfoldable pub upper_from : ℕ → IxNodeHandle → Key → ℕ → ℕ → ℕ
  unfolding narrow_upper
  upper_from zero node target l r = l
  upper_from (suc fuel) node target l r =
      let next = narrow_upper node target l r in
      let rest = upper_from fuel node target next.0 next.1 in if ltb l r then rest else l

  -- The search starts at 1: key 0 of an internal node is not looked at.
  unfoldable pub upper_bound : IxNodeHandle → Key → ℕ
  unfolding upper_from
  upper_bound node target = upper_from node.num_key node target 1 node.num_key

  unfoldable pub leaf_lookup : IxNodeHandle → Key → Option Rid
  unfolding lower_bound
  leaf_lookup node key =
      let key_idx = lower_bound node key in
      if is_same (ix_compare (node.keys key_idx) key) && not (key_idx == node.num_key)
      then some (node.rids key_idx)
      else none

  unfoldable pub internal_lookup : IxNodeHandle → Key → ℤ
  unfolding upper_bound
  internal_lookup node key = (node.rids (upper_bound node key - 1)).page_no

  -- `insert_pairs`; `none` is the failed assertion.
  unfoldable pub insert_pairs : ℕ → (ℕ → Key) → (ℕ → Rid) → ℕ → IxNodeHandle → Option IxNodeHandle
  unfolding insert_at
  insert_pairs pos key rid n node =
      if leb pos node.num_key
      then some (record {
        num_key = node.num_key + n;
        keys = insert_at node.num_key pos n key node.keys;
        rids = insert_at node.num_key pos n rid node.rids;
      })
      else none

  -- `insert`: the size and the node after it.
  unfoldable pub insert : Key → Rid → IxNodeHandle → Option (ℕ × IxNodeHandle)
  unfolding lower_bound insert_pairs
  insert key value node =
      let pos = lower_bound node key in
      if pos == node.num_key || is_above (ix_compare (node.keys pos) key)
      then elim (insert_pairs pos (λ i. key) (λ i. value) 1 node) [
        | none ↦ none
        | some node' ↦ some (node'.num_key, node')
      ]
      else some (node.num_key, node)

  -- `erase_pair`; `none` is the failed assertion.
  unfoldable pub erase_pair : ℕ → IxNodeHandle → Option IxNodeHandle
  unfolding erase_at
  erase_pair pos node =
      if ltb pos node.num_key
      then some (record {
        num_key = node.num_key - 1;
        keys = erase_at node.num_key pos node.keys;
        rids = erase_at node.num_key pos node.rids;
      })
      else none

  -- `remove`: the size and the node after it.
  unfoldable pub remove : Key → IxNodeHandle → Option (ℕ × IxNodeHandle)
  unfolding lower_bound erase_pair
  remove key node =
      let pos = lower_bound node key in
      if not (pos == node.num_key) && is_same (ix_compare (node.keys pos) key)
      then elim (erase_pair pos node) [ none ↦ none | some node' ↦ some (node'.num_key, node') ]
      else some (node.num_key, node)
