-- ===== src/Index/Tree/NewRoot.antt =====
-- `insert_into_parent` of src/index/ix_index_handle.cpp at a root that was split: a new root over
-- the two leaves.
use dbgenerality_rucbase.Base.{
  ℕ, zero, suc, ◌<◌, ◌≡◌, ◌≢◌, ◌⊎◌, refl, sym, ◌∙◌, true, false, none, some, ℤ, minus_one, eqb_ℤ,
  eqb_ℤ_iff, arith, inl, inr,
}
use dbgenerality_rucbase.Query.Result.{ok, ◌>>=◌}
use dbgenerality_rucbase.Index.Order.{KeyOrder}
use dbgenerality_rucbase.Index.Node.{insert_at}
use dbgenerality_rucbase.Index.Tree.{
  IxIndexHandle, put_node, create_node, blank, child_rid, zero_rid,
}
use dbgenerality_rucbase.Index.Tree.Split.{grow_root, insert_into_parent}
use dbgenerality_rucbase.Index.Tree.Shape.{
  IndexPage, IsLeaf, Subtree, LeafAt, IsTree, floor, ceiling,
}
use dbgenerality_rucbase.Index.Tree.Keep.{eqb_ℤ_self, LeafAt-child}

module _ (order : KeyOrder) (zero_key : order.Key) where
  open order use {Key}

  module _ (t : IxIndexHandle order zero_key) (p q : ℤ) (key : Key)
      (left right : IndexPage order zero_key) (reads_left : t.pages p ≡ some left)
      (reads_right : t.pages q ≡ some right) (pq : eqb_ℤ p q ≡ false) (qp : eqb_ℤ q p ≡ false)
      (pr : eqb_ℤ p t.next_page_no ≡ false) (rp : eqb_ℤ t.next_page_no p ≡ false)
      (qr : eqb_ℤ q t.next_page_no ≡ false) (rq : eqb_ℤ t.next_page_no q ≡ false) where
    abbrev r : ℤ
    r = t.next_page_no

    abbrev pub root : IndexPage order zero_key
    root = record (blank order zero_key) {
      node = record {
        num_key = 2;
        keys = insert_at 1 1 1 (λ j. key) (insert_at 0 0 1 (λ j. left.node.keys 0) (λ i. zero_key));
        rids =
            insert_at 1 1 1 (λ j. child_rid q) (insert_at 0 0 1 (λ j. child_rid p) (λ i. zero_rid));
      };
      is_leaf = false;
      parent = minus_one;
      next_free_page_no = minus_one;
    }

    rooted : IxIndexHandle order zero_key
    rooted = record (put_node order zero_key r root (create_node order zero_key t).1) {
      root_page = r;
    }

    pub taller : IxIndexHandle order zero_key
    taller =
        put_node order zero_key p (record left { parent = r })
          (put_node order zero_key q (record right { parent = r }) rooted)

    grow_root-taller : grow_root order zero_key p key q t ≡ ok taller
    unfolding grow_root taller rooted create_node
    grow_root-taller = rw (pr, reads_left, ◌>>=◌, qr, reads_right, ◌>>=◌, pq, pr, reads_left) refl

    pub insert_into_parent-taller :
        (fuel : ℕ)
        → left.parent ≡ minus_one
        → insert_into_parent order zero_key (suc fuel) p key q t ≡ ok taller
    unfolding insert_into_parent
    insert_into_parent-taller fuel e =
        let at_root : eqb_ℤ left.parent minus_one ≡ true = rw e refl in
        rw (reads_left, ◌>>=◌, at_root) grow_root-taller

    pub taller_left : taller.pages p ≡ some (record left { parent = r })
    unfolding taller
    taller_left = rw (eqb_ℤ_self p) refl

    pub taller_right : taller.pages q ≡ some (record right { parent = r })
    unfolding taller
    taller_right = rw (qp, eqb_ℤ_self q) refl

    pub taller_root : taller.pages r ≡ some root
    unfolding taller rooted
    taller_root = rw (rp, rq, eqb_ℤ_self r) refl

    child_page :
        (i : ℕ) → i < 2 → ((root.node.rids i).page_no ≡ p) ⊎ ((root.node.rids i).page_no ≡ q)
    unfolding insert_at
    child_page zero h = inl refl
    child_page (suc zero) h = inr refl
    child_page (suc (suc i)) h = absurd (omega arith)

    apart_pages : p ≢ q
    apart_pages e = cc (pq, (eqb_ℤ_iff p q).1 e)

    root_apart :
        (i j : ℕ) → i < 2 → j < 2 → (root.node.rids i).page_no ≡ (root.node.rids j).page_no → i ≡ j
    unfolding insert_at
    root_apart zero zero h k e = refl
    root_apart (suc zero) (suc zero) h k e = refl
    root_apart zero (suc zero) h k e = absurd (apart_pages e)
    root_apart (suc zero) zero h k e = absurd (apart_pages (sym e))
    root_apart (suc (suc i)) j h k e = absurd (omega arith)
    root_apart zero (suc (suc j)) h k e = absurd (omega arith)
    root_apart (suc zero) (suc (suc j)) h k e = absurd (omega arith)

    module _ (below : IsLeaf order zero_key left none (some key))
        (above : IsLeaf order zero_key right (some key) none) where
      children :
          (i : ℕ)
          → i < 2
          → Subtree order zero_key taller.pages 0
              (root.node.rids i).page_no
              r
              (floor order zero_key none root.node i)
              (ceiling order zero_key none root.node i)
      unfolding insert_at
      children zero h = (
        record left { parent = r },
        taller_left,
        refl,
        record { leaf = below.leaf; sorted = below.sorted; within = below.within },
      )
      children (suc zero) h = (
        record right { parent = r },
        taller_right,
        refl,
        record { leaf = above.leaf; sorted = above.sorted; within = above.within },
      )
      children (suc (suc i)) h = absurd (omega arith)

      -- Two leaves below and above a key are a tree under the new root.
      pub taller-IsTree : IsTree order zero_key taller 1
      unfolding taller rooted
      taller-IsTree = (
        root,
        taller_root,
        refl,
        record {
          inner = refl;
          some_child = omega arith;
          sorted = λ i j a b c. absurd (omega arith);
          within = λ i a b. (tt, tt);
          apart = root_apart;
        },
        children,
      )

    -- The leaves of the tree are the two.
    pub taller-LeafAt :
        (x : ℤ) → LeafAt order zero_key taller.pages 1 taller.root_page x → (x ≡ p) ⊎ (x ≡ q)
    unfolding taller rooted
    taller-LeafAt x at =
        let (i, b, e) = LeafAt-child order zero_key taller.pages 0 r x root taller_root at in
        elim (child_page i b) [ inl c ↦ inl (sym e ∙ c) | inr c ↦ inr (sym e ∙ c) ]

    pub LeafAt-left : LeafAt order zero_key taller.pages 1 taller.root_page p
    unfolding taller rooted insert_at
    LeafAt-left = (root, taller_root, 0, omega arith, refl)

    pub LeafAt-right : LeafAt order zero_key taller.pages 1 taller.root_page q
    unfolding taller rooted insert_at
    LeafAt-right = (root, taller_root, 1, omega arith, refl)
