-- ===== src/Index/Tree/Shape.antt =====
-- When the pages of src/index/ix_index_handle.cpp are a search tree, and what is stored in it.
use dbgenerality_rucbase.Base.{
  ℕ, zero, suc, ◌+◌, ◌≤◌, ◌<◌, ◌≡◌, true, false, Option, none, some, if◌then◌else◌, ltb, ℤ,
  minus_one,
}
use dbgenerality_rucbase.Lock.Types.{Rid}
use dbgenerality_rucbase.Index.Order.{KeyOrder, is_above}
use dbgenerality_rucbase.Index.Node.{IxNodeHandle, internal_lookup}
use dbgenerality_rucbase.Index.Node.Search.{IsSorted}
use dbgenerality_rucbase.Index.Node.Upper.{IsSortedAbove0}
use dbgenerality_rucbase.Index.Tree.{NodePage, IxIndexHandle}

module _ (order : KeyOrder) (zero_key : order.Key) where
  open order use {Key, ix_compare, compare-trans, compare-refl, compare-same, compare-flip}

  abbrev pub IndexPage : Type 0
  IndexPage = NodePage order zero_key

  abbrev pub IndexPages : Type 0
  IndexPages = ℤ → Option IndexPage

  -- A key is not below the lower end of a range, which may be open.
  abbrev pub AtLeast : Option Key → Key → Type 0
  AtLeast none key = Unit {0}
  AtLeast (some b) key = is_above (ix_compare b key) ≡ false

  -- A key is below the upper end.
  abbrev pub Under : Option Key → Key → Type 0
  Under none key = Unit {0}
  Under (some b) key = is_above (ix_compare b key) ≡ true

  abbrev pub Within : Option Key → Option Key → Key → Type 0
  Within lo hi key = AtLeast lo key × Under hi key

  -- The range of the child at a place.
  abbrev pub floor : Option Key → IxNodeHandle order → ℕ → Option Key
  floor lo n zero = lo
  floor lo n (suc i) = some (n.keys (suc i))

  abbrev pub ceiling : Option Key → IxNodeHandle order → ℕ → Option Key
  ceiling hi n i = if ltb (i + 1) n.num_key then some (n.keys (i + 1)) else hi

  pub record IsLeaf (n : IndexPage) (lo hi : Option Key) : Type 0 where
    pub leaf : n.is_leaf ≡ true
    pub sorted : IsSorted order n.node
    pub within : (i : ℕ) → i < n.node.num_key → Within lo hi (n.node.keys i)

  -- An internal node; its children are different pages.
  pub record IsInner (n : IndexPage) (lo hi : Option Key) : Type 0 where
    pub inner : n.is_leaf ≡ false
    pub some_child : 1 ≤ n.node.num_key
    pub sorted : IsSortedAbove0 order n.node
    pub within : (i : ℕ) → 1 ≤ i → i < n.node.num_key → Within lo hi (n.node.keys i)
    pub apart :
        (i j : ℕ)
        → i < n.node.num_key
        → j < n.node.num_key
        → (n.node.rids i).page_no ≡ (n.node.rids j).page_no
        → i ≡ j

  -- The page `p` is the root of a tree of that height whose keys are in the range, and each node
  -- names its parent.
  abbrev pub Subtree : IndexPages → ℕ → ℤ → ℤ → Option Key → Option Key → Type 0
  Subtree pages zero p parent lo hi =
      (n : IndexPage) × (pages p ≡ some n) × (n.parent ≡ parent) × IsLeaf n lo hi
  Subtree pages (suc h) p parent lo hi =
      (n : IndexPage) × (pages p ≡ some n)
      × (n.parent ≡ parent)
      × IsInner n lo hi
      × ((i : ℕ)
          → i < n.node.num_key
          → Subtree pages h (n.node.rids i).page_no p (floor lo n.node i) (ceiling hi n.node i))

  -- The page `q` is a leaf of the tree of that height at `p`.
  abbrev pub LeafAt : IndexPages → ℕ → ℤ → ℤ → Type 0
  LeafAt pages zero p q = p ≡ q
  LeafAt pages (suc h) p q =
      (n : IndexPage) × (pages p ≡ some n)
      × (i : ℕ) × (i < n.node.num_key)
      × LeafAt pages h (n.node.rids i).page_no q

  -- The entry stands in a leaf of the tree.
  abbrev pub Stored : IndexPages → ℕ → ℤ → Key → Rid → Type 0
  Stored pages h p key rid =
      (q : ℤ) × (n : IndexPage) × (i : ℕ) × LeafAt pages h p q
      × (pages q ≡ some n)
      × (i < n.node.num_key)
      × (n.node.keys i ≡ key)
      × (n.node.rids i ≡ rid)

  -- The search for a key goes from `p` to the leaf `q`.
  abbrev pub Goes : IndexPages → Key → ℕ → ℤ → ℤ → Type 0
  Goes pages key zero p q = p ≡ q
  Goes pages key (suc h) p q =
      (n : IndexPage) × (pages p ≡ some n) × Goes pages key h (internal_lookup order n.node key) q

  -- The pages of an index file are a search tree of that height.
  abbrev pub IsTree : IxIndexHandle order zero_key → ℕ → Type 0
  IsTree t h = Subtree t.pages h t.root_page minus_one none none

  pub same_page : {o : Option IndexPage} {n m : IndexPage} → o ≡ some n → o ≡ some m → n ≡ m
  same_page a b = cc
