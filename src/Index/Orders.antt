-- ===== src/Index/Orders.antt =====
-- Orders of pairs and of bytes, from which the order of `ix_compare` in
-- src/index/ix_index_handle.h on several columns is made.
use dbgenerality_rucbase.Base.{ℕ, ◌≡◌, refl, sym, ◌∙◌, ap, subst, ltb, if◌then◌else◌, arith}
use dbgenerality_rucbase.Index.Order.{KeyOrder, Sign, below, same, above}

-- `if(res != 0) return res;` before the rest of the loop.
abbrev pub then_by : Sign → Sign → Sign
then_by below s = below
then_by same s = s
then_by above s = above

pub then_by-same : (x y : Sign) → then_by x y ≡ same → (x ≡ same) × (y ≡ same)
then_by-same below y e = absurd (ground arith)
then_by-same same y e = (refl, e)
then_by-same above y e = absurd (ground arith)

pub then_by-flip :
    (x x' y y' : Sign)
    → (x ≡ above → x' ≡ below)
    → (x ≡ same → x' ≡ same)
    → (y ≡ above → y' ≡ below)
    → then_by x y ≡ above
    → then_by x' y' ≡ below
then_by-flip below x' y y' f g h e = absurd (ground arith)
then_by-flip same x' y y' f g h e = rw (g refl) (h e)
then_by-flip above x' y y' f g h e = rw (f refl) refl

pub then_by_trans :
    (x y z x' y' z' : Sign)
    → (x ≡ below → y ≡ below → z ≡ below)
    → (x ≡ same → z ≡ y)
    → (y ≡ same → z ≡ x)
    → (x' ≡ below → y' ≡ below → z' ≡ below)
    → then_by x x' ≡ below
    → then_by y y' ≡ below
    → then_by z z' ≡ below
then_by_trans below below z x' y' z' f g h k a b = rw (f refl refl) refl
then_by_trans below same z x' y' z' f g h k a b = rw (h refl) refl
then_by_trans below above z x' y' z' f g h k a b = absurd (ground arith)
then_by_trans same below z x' y' z' f g h k a b = rw (g refl) refl
then_by_trans same same z x' y' z' f g h k a b = rw (g refl) (k a b)
then_by_trans same above z x' y' z' f g h k a b = absurd (ground arith)
then_by_trans above y z x' y' z' f g h k a b = absurd (ground arith)

-- Pairs, the first part first.
abbrev pub pair_order : KeyOrder → KeyOrder → KeyOrder
pair_order o p = record {
  Key = o.Key × p.Key;
  ix_compare = λ a b. then_by (o.ix_compare a.0 b.0) (p.ix_compare a.1 b.1);
  compare-refl = λ a. rw (o.compare-refl a.0) (p.compare-refl a.1);
  compare-same = λ a b e.
      let (x, y) = then_by-same _ _ e in
      let l = o.compare-same a.0 b.0 x in
      let r = p.compare-same a.1 b.1 y in
      ap (λ (k : o.Key). (k, a.1)) l ∙ ap (λ (k : p.Key). (b.0, k)) r;
  compare-flip = λ a b e.
      then_by-flip (o.ix_compare a.0 b.0) (o.ix_compare b.0 a.0) (p.ix_compare a.1 b.1)
        (p.ix_compare b.1 a.1) (o.compare-flip a.0 b.0)
        (λ x.
          subst (λ (k : o.Key). o.ix_compare k a.0 ≡ same) (o.compare-same a.0 b.0 x)
            (o.compare-refl a.0))
        (p.compare-flip a.1 b.1) e;
  compare-trans = λ a b c e f.
      then_by_trans (o.ix_compare a.0 b.0) (o.ix_compare b.0 c.0) (o.ix_compare a.0 c.0)
        (p.ix_compare a.1 b.1) (p.ix_compare b.1 c.1) (p.ix_compare a.1 c.1)
        (o.compare-trans a.0 b.0 c.0)
        (λ x. ap (λ (k : o.Key). o.ix_compare k c.0) (o.compare-same a.0 b.0 x))
        (λ x. ap (λ (k : o.Key). o.ix_compare a.0 k) (sym (o.compare-same b.0 c.0 x)))
        (p.compare-trans a.1 b.1 c.1) e f;
}

pub same_above : same ≡ above → same ≡ below
same_above e = absurd (ground arith)

abbrev pub unit_order : KeyOrder
unit_order = record {
  Key = Unit;
  ix_compare = λ a b. same;
  compare-refl = λ a. refl;
  compare-same = λ a b e. refl;
  compare-flip = λ a b e. same_above e;
  compare-trans = λ a b c e f. e;
}

unfoldable pub compare_byte : ℕ → ℕ → Sign
compare_byte a b = if ltb a b then below else if ltb b a then above else same

pub compare_byte_refl : (a : ℕ) → compare_byte a a ≡ same
unfolding compare_byte
compare_byte_refl a = ground arith

pub compare_byte-same : (a b : ℕ) → compare_byte a b ≡ same → a ≡ b
unfolding compare_byte
compare_byte-same a b e = ground arith

pub compare_byte-flip : (a b : ℕ) → compare_byte a b ≡ above → compare_byte b a ≡ below
unfolding compare_byte
compare_byte-flip a b e = ground arith

pub compare_byte_trans :
    (a b c : ℕ) → compare_byte a b ≡ below → compare_byte b c ≡ below → compare_byte a c ≡ below
unfolding compare_byte
compare_byte_trans a b c e f = ground arith

abbrev pub byte_order : KeyOrder
byte_order = record {
  Key = ℕ;
  ix_compare = compare_byte;
  compare-refl = compare_byte_refl;
  compare-same = compare_byte-same;
  compare-flip = compare_byte-flip;
  compare-trans = compare_byte_trans;
}
