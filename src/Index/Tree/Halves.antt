-- ===== src/Index/Tree/Halves.antt =====
-- `split` of src/index/ix_index_handle.cpp on a leaf.
use dbgenerality_rucbase.Base.{
  ℕ, zero, suc, ◌+◌, ◌-◌, ◌/◌, ◌≡◌, refl, Bool, true, false, some, if◌then◌else◌, ℤ, eqb_ℤ,
}
use dbgenerality_rucbase.Query.Result.{ok, ◌>>=◌}
use dbgenerality_rucbase.Index.Order.{KeyOrder}
use dbgenerality_rucbase.Index.Node.{insert_at}
use dbgenerality_rucbase.Index.Tree.{
  IxIndexHandle, put_node, create_node, maintain_child, maintain_children, zero_rid,
}
use dbgenerality_rucbase.Index.Tree.Split.{split_header, link, move_half, split}
use dbgenerality_rucbase.Index.Tree.Shape.{IndexPage}
use dbgenerality_rucbase.Index.Tree.Keep.{eqb_ℤ_self}

module _ (order : KeyOrder) (zero_key : order.Key) where
  open order use {Key}

  maintain_children-leaf :
      (count i : ℕ) (p : ℤ) (n : IndexPage order zero_key) (t : IxIndexHandle order zero_key)
      → t.pages p ≡ some n
      → n.is_leaf ≡ true
      → maintain_children order zero_key count p i t ≡ ok t
  unfolding maintain_children maintain_child
  maintain_children-leaf zero i p n t e l = refl
  maintain_children-leaf (suc count) i p n t e l =
      let rest = maintain_children-leaf count (i + 1) p n t e l in rw (e, l) rest

  if_leaf : {A : Type 0} (b : Bool) (x y : A) → b ≡ true → (if b then x else y) ≡ x
  if_leaf b x y e = rw e refl

  module _ (t : IxIndexHandle order zero_key) (p : ℤ) (m y : IndexPage order zero_key)
      (reads : t.pages p ≡ some m) (leaf : m.is_leaf ≡ true)
      (reads_next : t.pages m.next_leaf ≡ some y) (pq : eqb_ℤ p t.next_page_no ≡ false)
      (qp : eqb_ℤ t.next_page_no p ≡ false) (xp : eqb_ℤ m.next_leaf p ≡ false)
      (xq : eqb_ℤ m.next_leaf t.next_page_no ≡ false) (px : eqb_ℤ p m.next_leaf ≡ false)
      (qx : eqb_ℤ t.next_page_no m.next_leaf ≡ false) where
    abbrev q : ℤ
    q = t.next_page_no

    abbrev new_header : IndexPage order zero_key
    new_header = record (split_header order zero_key m) { prev_leaf = p; next_leaf = m.next_leaf }

    -- The pages after the new leaf is linked.
    unfoldable pub linked : IxIndexHandle order zero_key
    linked =
        put_node order zero_key m.next_leaf (record y { prev_leaf = q })
          (put_node order zero_key p (record m { next_leaf = q })
            (put_node order zero_key q new_header (create_node order zero_key t).1))

    link-linked : link order zero_key p m q (create_node order zero_key t).1 ≡ ok linked
    unfolding link linked create_node
    link-linked = rw (xp, xq, reads_next) refl

    linked_left : linked.pages p ≡ some (record m { next_leaf = q })
    unfolding linked
    linked_left = rw (px, eqb_ℤ_self p) refl

    linked_right : linked.pages q ≡ some new_header
    unfolding linked
    linked_right = rw (qx, qp, eqb_ℤ_self q) refl

    abbrev half : ℕ
    half = m.node.num_key / 2

    -- The left half stays, the right half is in the new leaf.
    abbrev pub left : IndexPage order zero_key
    left = record m { node = record (m.node) { num_key = half }; next_leaf = q }

    abbrev pub right : IndexPage order zero_key
    right = record new_header {
      node = record {
        num_key = 0 + (m.node.num_key - half);
        keys = insert_at 0 0 (m.node.num_key - half) (λ i. m.node.keys (half + i)) (λ i. zero_key);
        rids = insert_at 0 0 (m.node.num_key - half) (λ i. m.node.rids (half + i)) (λ i. zero_rid);
      };
    }

    unfoldable pub halves : IxIndexHandle order zero_key
    halves = put_node order zero_key p left (put_node order zero_key q right linked)

    pub halves_left : halves.pages p ≡ some left
    unfolding halves
    halves_left = rw (eqb_ℤ_self p) refl

    pub halves_right : halves.pages q ≡ some right
    unfolding halves
    halves_right = rw (qp, eqb_ℤ_self q) refl

    move_half-halves : move_half order zero_key p q linked ≡ ok halves
    unfolding move_half halves
    move_half-halves =
        let kept =
          maintain_children-leaf (m.node.num_key - half) 0 q right halves halves_right leaf in
        rw (linked_left, linked_right, ◌>>=◌) kept

    pub split-halves : split order zero_key p t ≡ ok (q, halves)
    unfolding split
    split-halves =
        let c = (create_node order zero_key t).1 in
        let other = ok (put_node order zero_key q (split_header order zero_key m) c) in
        rw
          (
            pq,
            reads,
            ◌>>=◌,
            if_leaf m.is_leaf (link order zero_key p m q c) other leaf,
            link-linked,
            ◌>>=◌,
            move_half-halves,
          )
          refl
