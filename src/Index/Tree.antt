-- ===== src/Index/Tree.antt =====
-- `IxIndexHandle` of src/index/ix_index_handle.cpp: the pages of an index file, and the search in the
-- tree. A handle of a node is the number of its page, so two handles of one page
-- see the same node.
pub mod Split
pub mod Remove
pub mod Places
pub mod Shape
pub mod Ranges
pub mod Find
pub mod Keep
pub mod Inserted
pub mod Create
pub mod Ends
pub mod Inner
pub mod Halves
pub mod NewRoot
pub mod Taller
pub mod TwoLevels
use dbgenerality_rucbase.Base.{
  ℕ, zero, suc, ◌+◌, ◌-◌, ◌/◌, ◌≡◌, Bool, true, false, List, [], ◌∷◌, ◌++◌, Option, none, some,
  if◌then◌else◌, ◌==◌, ℤ, pos, minus_one, inc, eqb_ℤ,
}
use dbgenerality_rucbase.Lock.Types.{Rid}
use dbgenerality_rucbase.Query.Result.{
  Result, ok, throws, assertion_failed, internal_error, out_of_fuel, require, ◌>>=◌, ◌>>◌,
}
use dbgenerality_rucbase.Index.Order.{KeyOrder}
use dbgenerality_rucbase.Index.Node.{
  IxNodeHandle, internal_lookup, leaf_lookup, insert, insert_pairs, lower_bound, upper_bound,
}

-- An assertion of a node's function.
abbrev pub asserted {ℓ} : {A : Type ℓ} → Option A → Result A
asserted none = throws assertion_failed
asserted (some a) = ok a

-- `Iid` of src/index/ix_defs.h
pub record Iid : Type 0 where
  pub page_no : ℤ
  pub slot_no : ℕ

-- A page of zeros reads `zero_key` and `zero_rid` at every place.
abbrev pub zero_rid : Rid
zero_rid = record { page_no = pos 0; slot_no = pos 0 }

-- The rid of a child.
abbrev pub child_rid : ℤ → Rid
child_rid page_no = record { page_no = page_no; slot_no = minus_one }

module _ (order : KeyOrder) (zero_key : order.Key) where
  open order use {Key, ix_compare}

  -- A page of a node: `IxPageHdr` with the arrays.
  pub record NodePage : Type 0 where
    pub node : IxNodeHandle order
    pub is_leaf : Bool
    pub parent : ℤ
    pub prev_leaf : ℤ
    pub next_leaf : ℤ
    pub next_free_page_no : ℤ

  -- The fields of the file header that change or that the functions use, the number of the next page
  -- that the disk manager gives, and the pages that can be read.
  pub record IxIndexHandle : Type 0 where
    pub root_page : ℤ
    pub first_leaf : ℤ
    pub last_leaf : ℤ
    pub num_pages : ℤ
    pub btree_order : ℕ
    pub next_page_no : ℤ
    pub pages : ℤ → Option NodePage

  abbrev pub get_max_size : IxIndexHandle → ℕ
  get_max_size t = t.btree_order + 1

  abbrev pub get_min_size : IxIndexHandle → ℕ
  get_min_size t = get_max_size t / 2

  -- What is not a page of the file ends in the exception of the read.
  abbrev pub read_node : Option NodePage → Result NodePage
  read_node none = throws internal_error
  read_node (some n) = ok n

  abbrev pub fetch_node : ℤ → IxIndexHandle → Result NodePage
  fetch_node p t = read_node (t.pages p)

  -- A change of a node through its handle.
  abbrev pub put_node : ℤ → NodePage → IxIndexHandle → IxIndexHandle
  put_node p n t = record t { pages = λ q. if eqb_ℤ q p then some n else t.pages q }

  abbrev pub blank : NodePage
  blank = record {
    node = record { num_key = 0; keys = λ i. zero_key; rids = λ i. zero_rid };
    is_leaf = false;
    parent = pos 0;
    prev_leaf = pos 0;
    next_leaf = pos 0;
    next_free_page_no = pos 0;
  }

  -- `create_node`: the number of the new page.
  unfoldable pub create_node : IxIndexHandle → ℤ × IxIndexHandle
  create_node t = (
    t.next_page_no,
    put_node t.next_page_no blank
        (record t { num_pages = inc t.num_pages; next_page_no = inc t.next_page_no }),
  )

  -- The loop of `find_leaf_page`, from a page down.
  unfoldable pub descend : ℕ → Key → ℤ → IxIndexHandle → Result ℤ
  descend zero key p t = throws out_of_fuel
  descend (suc fuel) key p t = do
    n ← fetch_node p t
    elim n.is_leaf [ true ↦ ok p | false ↦ descend fuel key (internal_lookup order n.node key) t ]

  unfoldable pub find_leaf_page : ℕ → Key → IxIndexHandle → Result ℤ
  unfolding descend
  find_leaf_page fuel key t = descend fuel key t.root_page t

  -- `get_value`: what is pushed to the result.
  unfoldable pub get_value : ℕ → Key → IxIndexHandle → Result (Option Rid)
  unfolding find_leaf_page
  get_value fuel key t = do
    p ← find_leaf_page fuel key t
    n ← fetch_node p t
    ok (leaf_lookup order n.node key)

  -- `find_child` from a place on, over the places that are left.
  unfoldable pub find_from : ℕ → ℕ → ℤ → IxNodeHandle order → Option ℕ
  find_from zero i child node = none
  find_from (suc n) i child node =
      let rest = find_from n (i + 1) child node in
      if eqb_ℤ (node.rids i).page_no child then some i else rest

  unfoldable pub find_child : ℤ → IxNodeHandle order → Result ℕ
  unfolding find_from
  find_child child node = asserted (find_from node.num_key 0 child node)

  unfoldable pub set_parent : ℤ → ℤ → IxIndexHandle → Result IxIndexHandle
  set_parent child parent t = do
    c ← fetch_node child t
    ok (put_node child (record c { parent = parent }) t)

  unfoldable pub maintain_child : ℤ → ℕ → IxIndexHandle → Result IxIndexHandle
  unfolding set_parent
  maintain_child p i t = do
    n ← fetch_node p t
    if n.is_leaf then ok t else set_parent (n.node.rids i).page_no p t

  -- The loops that call `maintain_child`, from a place on for `count` places.
  unfoldable pub maintain_children : ℕ → ℤ → ℕ → IxIndexHandle → Result IxIndexHandle
  unfolding maintain_child
  maintain_children zero p i t = ok t
  maintain_children (suc count) p i t = do
    t' ← maintain_child p i t
    maintain_children count p (i + 1) t'
