-- ===== src/Tests/Emptied.antt =====
-- Two ends of the deletion in src/index/ix_index_handle.cpp at small indexes.
use dbgenerality_rucbase.Base.{
  minus_one, ◌⊎◌, ℕ, suc, ◌≡◌, refl, true, none, some, if◌then◌else◌, ℤ, pos, eqb_ℤ, arith, List,
  [], ◌∷◌,
}
use dbgenerality_rucbase.Lock.Types.{Rid}
use dbgenerality_rucbase.Query.Result.{ok, throws, internal_error}
use dbgenerality_rucbase.Index.Compare.{int_order}
use dbgenerality_rucbase.Index.Tree.{NodePage, get_value}
use dbgenerality_rucbase.Index.Tree.Split.{insert_entry}
use dbgenerality_rucbase.Index.Tree.Remove.{delete_entry, coalesce}
use dbgenerality_rucbase.Index.Tree.Shape.{IsTree}
use dbgenerality_rucbase.Index.Tree.Ends.{delete_entry-last}
use dbgenerality_rucbase.Index.Tree.Inner.{coalesce-inner}
use dbgenerality_rucbase.Index.Tree.Create.{empty_leaf, new_index}
use dbgenerality_rucbase.Storage.Replacer.{LruReplacer}
use dbgenerality_rucbase.Storage.Replacer.Laws.{elem}
use dbgenerality_rucbase.Storage.Replacer.Turns.{
  Call, call_victim, call_pin, call_unpin, evicts, evicts-behind,
}
use dbgenerality_rucbase.Tests.Tree.{Tree, rid_of, two_leaves, root_node}

-- An index whose root is a leaf with the key 5.
abbrev one_node : NodePage int_order (pos 0)
one_node = record (empty_leaf int_order (pos 0) (pos 1)) {
  node = record { num_key = 1; keys = λ i. pos 5; rids = rid_of };
}

abbrev one_key : Tree
one_key = record (new_index int_order (pos 0) 3) {
  pages = λ p. if eqb_ℤ p (pos 2) then some one_node else none;
}

one_key-IsTree : IsTree int_order (pos 0) one_key 0
one_key-IsTree = (
  one_node,
  refl,
  refl,
  record { leaf = refl; sorted = λ i j a b. absurd (omega arith); within = λ i a. (tt, tt) },
)

delete_entry-last_example :
    (t' : Tree) × (w : NodePage int_order (pos 0)) × (delete_entry int_order
        (pos 0)
        1
        (pos 5)
        one_key
      ≡ ok (true, t'))
    × (t'.root_page ≡ minus_one)
    × (t'.pages (pos 2) ≡ some w)
    × (w.node.num_key ≡ 0)
    × (((x : NodePage int_order (pos 0)) × (t'.pages minus_one ≡ some x))
        ⊎ ((k : ℤ) (rid : Rid) (f : ℕ)
            → (insert_entry int_order (pos 0) (suc f) k rid t' ≡ throws internal_error)
              × (get_value int_order (pos 0) (suc f) k t' ≡ throws internal_error)))
delete_entry-last_example =
    delete_entry-last int_order (pos 0) one_key one_node (pos 5) 0 one_key-IsTree refl refl refl

-- Two internal nodes, 4 and 6.
abbrev two_inner : Tree
two_inner = record two_leaves {
  pages = λ p. if eqb_ℤ p (pos 6) then some root_node else two_leaves.pages p;
}

coalesce-inner_example :
    ¬ ((t' : Tree) × (coalesce int_order (pos 0) (pos 4) (pos 6) (pos 7) 1 two_inner ≡ ok t'))
coalesce-inner_example =
    coalesce-inner int_order (pos 0) (pos 4) (pos 6) (pos 7) 1 two_inner root_node root_node refl
      refl refl refl

-- The frames 3, 1 and 2, of which 2 was unpinned first.
abbrev three_frames : LruReplacer
three_frames = record {
  lru_list = 3 ∷ 1 ∷ 2 ∷ [];
  lru_hash = λ f. elem f (3 ∷ 1 ∷ 2 ∷ []);
  max_size = 8;
}

abbrev some_calls : List Call
some_calls = call_victim ∷ call_unpin 5 ∷ call_pin 1 ∷ call_unpin 1 ∷ call_victim ∷ call_victim ∷ []

evicts-behind_example : evicts 3 some_calls three_frames ≡ true
unfolding elem
evicts-behind_example =
    evicts-behind 3 some_calls three_frames
      (record { nodup = (refl, (refl, (refl, tt))); hash = λ f. refl }) refl
      ((λ e. absurd (omega arith)), tt) (omega arith)
