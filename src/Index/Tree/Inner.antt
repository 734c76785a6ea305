-- ===== src/Index/Tree/Inner.antt =====
-- `coalesce` of src/index/ix_index_handle.cpp on internal nodes.
use dbgenerality_rucbase.Base.{
  ℕ, zero, suc, ◌+◌, ◌-◌, ◌≡◌, ◌≢◌, refl, sym, ◌∙◌, ap, subst, false, Option, none, some,
  if◌then◌else◌, ◌==◌, ℤ, eqb_ℤ, eqb_ℤ_iff, Bool-cases, inl, inr, arith,
}
use dbgenerality_rucbase.Query.Result.{ok, bind_ok}
use dbgenerality_rucbase.Index.Order.{KeyOrder}
use dbgenerality_rucbase.Index.Node.{insert_pairs}
use dbgenerality_rucbase.Index.Tree.{
  asserted, fetch_node, read_node, put_node, set_parent, maintain_child, maintain_children,
}
use dbgenerality_rucbase.Index.Tree.Split.{with_node}
use dbgenerality_rucbase.Index.Tree.Remove.{Index, erase_leaf, merge, coalesce}
use dbgenerality_rucbase.Index.Tree.Shape.{IndexPage, same_page}

module _ (order : KeyOrder) (zero_key : order.Key) where
  -- A page that was a leaf is one, and one that was internal is internal.
  abbrev SameKinds : Index order zero_key → Index order zero_key → Type 0
  SameKinds t t' =
      (x : ℤ) (n : IndexPage order zero_key)
      → t.pages x ≡ some n
      → (n' : IndexPage order zero_key) × (t'.pages x ≡ some n') × (n'.is_leaf ≡ n.is_leaf)

  read_ok :
      (o : Option (IndexPage order zero_key)) (n : IndexPage order zero_key)
      → read_node order zero_key o ≡ ok n
      → o ≡ some n
  read_ok none n e = cc
  read_ok (some m) n e = cc

  put_node-SameKinds :
      (t : Index order zero_key) (p : ℤ) (n n' : IndexPage order zero_key)
      → t.pages p ≡ some n
      → n'.is_leaf ≡ n.is_leaf
      → SameKinds t (put_node order zero_key p n' t)
  put_node-SameKinds t p n n' e k x m r = elim (Bool-cases (eqb_ℤ x p)) [
    | inr a ↦ (m, rw a r, refl)
    | inl a ↦
        let one : m ≡ n = same_page order zero_key r (ap t.pages ((eqb_ℤ_iff x p).0 a) ∙ e) in
        (n', rw a refl, k ∙ ap (λ (y : IndexPage order zero_key). y.is_leaf) (sym one))
  ]

  SameKinds-trans : (t u v : Index order zero_key) → SameKinds t u → SameKinds u v → SameKinds t v
  SameKinds-trans t u v a b x n e =
      let (n', e', k) = a x n e in let (m, r, l) = b x n' e' in (m, r, l ∙ k)

  set_parent-SameKinds :
      (child parent : ℤ) (t t' : Index order zero_key)
      → set_parent order zero_key child parent t ≡ ok t'
      → SameKinds t t'
  unfolding set_parent
  set_parent-SameKinds child parent t t' e = bind_ok (fetch_node order zero_key child t) e (λ c r o.
      let c' = record c { parent = parent } in
      let k = put_node-SameKinds t child c c' (read_ok (t.pages child) c r) refl in
      let end : put_node order zero_key child c' t ≡ t' = cc o in
      subst (λ (u : Index order zero_key). SameKinds t u) end k)

  maintain_child-SameKinds :
      (p : ℤ) (i : ℕ) (t t' : Index order zero_key)
      → maintain_child order zero_key p i t ≡ ok t'
      → SameKinds t t'
  unfolding maintain_child
  maintain_child-SameKinds p i t t' e = bind_ok (fetch_node order zero_key p t) e (λ n r o.
      elim (Bool-cases n.is_leaf) [
        | inl leaf ↦
            let end : t ≡ t' = cc (rw leaf at o) in
            subst (λ (u : Index order zero_key). SameKinds t u) end (λ x m q. (m, q, refl))
        | inr inner ↦ set_parent-SameKinds (n.node.rids i).page_no p t t' (rw inner at o)
      ])

  maintain_children-SameKinds :
      (count : ℕ) (p : ℤ) (i : ℕ) (t t' : Index order zero_key)
      → maintain_children order zero_key count p i t ≡ ok t'
      → SameKinds t t'
  unfolding maintain_children
  maintain_children-SameKinds zero p i t t' e =
      let end : t ≡ t' = cc e in
      subst (λ (u : Index order zero_key). SameKinds t u) end (λ x m q. (m, q, refl))
  maintain_children-SameKinds (suc count) p i t t' e =
      bind_ok (maintain_child order zero_key p i t) e (λ u r o.
        SameKinds-trans t u t' (maintain_child-SameKinds p i t u r)
          (maintain_children-SameKinds count p (i + 1) u t' o))

  erase_leaf-inner :
      (p : ℤ) (t t' : Index order zero_key) (n : IndexPage order zero_key)
      → t.pages p ≡ some n
      → n.is_leaf ≡ false
      → erase_leaf order zero_key p t ≢ ok t'
  unfolding erase_leaf
  erase_leaf-inner p t t' n e inner o = cc (rw (e, inner) at o)

  last_leaf-pages :
      (t : Index order zero_key) (left right : ℤ)
      → (let t' = if eqb_ℤ right t.last_leaf then record t { last_leaf = left } else t in
          t'.pages right ≡ t.pages right)
  last_leaf-pages t left right = ground arith

  merge-inner :
      (left right parent : ℤ) (index : ℕ) (t t' : Index order zero_key)
      (r : IndexPage order zero_key)
      → t.pages right ≡ some r
      → r.is_leaf ≡ false
      → merge order zero_key left right parent index t ≢ ok t'
  unfolding merge
  merge-inner left right parent index t t' r reads inner e =
      bind_ok (fetch_node order zero_key left t) e (λ l rl e1.
        bind_ok (fetch_node order zero_key right t) e1 (λ r1 rr e2.
          bind_ok
            (asserted
              (insert_pairs order l.node.num_key r1.node.keys r1.node.rids r1.node.num_key l.node))
            e2
            (λ h rh e3.
              let u = put_node order zero_key left (with_node order zero_key l h) t in
              bind_ok
                (maintain_children order zero_key (h.num_key - l.node.num_key) left l.node.num_key
                  u)
                e3
                (λ t1 r1' e4.
                  let a =
                    put_node-SameKinds t left l (with_node order zero_key l h)
                      (read_ok (t.pages left) l rl) refl in
                  let b =
                    maintain_children-SameKinds (h.num_key - l.node.num_key) left l.node.num_key u
                      t1 r1' in
                  let (w, rw', k) = SameKinds-trans t u t1 a b right r reads in
                  let t2 =
                    if eqb_ℤ right t1.last_leaf then record t1 { last_leaf = left } else t1 in
                  bind_ok (erase_leaf order zero_key right t2) e4 (λ t3 r3 e5.
                    erase_leaf-inner right t2 t3 w (last_leaf-pages t1 left right ∙ rw') (k ∙ inner)
                      r3)))))

  -- Two internal nodes cannot be merged: whatever the tree, `coalesce` of them does not end well
  -- (`erase_leaf` asserts that the node is a leaf).
  pub coalesce-inner :
      (neighbor p parent : ℤ) (index : ℕ) (t : Index order zero_key)
      (b n : IndexPage order zero_key)
      → t.pages neighbor ≡ some b
      → t.pages p ≡ some n
      → b.is_leaf ≡ false
      → n.is_leaf ≡ false
      → ¬ (
          (t' : Index order zero_key) × (coalesce order zero_key neighbor p parent index t ≡ ok t'))
  unfolding coalesce
  coalesce-inner neighbor p parent index t b n eb en ib in' (t', e) =
      elim (Bool-cases (index == 0)) [
        | inl z ↦ merge-inner p neighbor parent 1 t t' b eb ib (rw z at e)
        | inr z ↦ merge-inner neighbor p parent index t t' n en in' (rw z at e)
      ]
