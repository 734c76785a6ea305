-- ===== src/Index/Order.antt =====
-- What the nodes of the index use of `ix_compare` in src/index/ix_index_handle.h.
use dbgenerality_rucbase.Base.{◌≡◌, Bool, true, false}

-- The sign of the `int` that `ix_compare` returns.
pub data Sign : Type 0 where
  below same above : Sign

-- Keys with a comparison that is a total order.
pub record KeyOrder : Type 1 where
  pub Key : Type 0
  pub ix_compare : Key → Key → Sign
  pub compare-refl : (a : Key) → ix_compare a a ≡ same
  pub compare-same : (a b : Key) → ix_compare a b ≡ same → a ≡ b
  pub compare-flip : (a b : Key) → ix_compare a b ≡ above → ix_compare b a ≡ below
  pub compare-trans :
      (a b c : Key) → ix_compare a b ≡ below → ix_compare b c ≡ below → ix_compare a c ≡ below

-- `flag < 0`
abbrev pub is_below : Sign → Bool
is_below below = true
is_below same = false
is_below above = false

-- `flag > 0`
abbrev pub is_above : Sign → Bool
is_above below = false
is_above same = false
is_above above = true

-- `flag == 0`
abbrev pub is_same : Sign → Bool
is_same below = false
is_same same = true
is_same above = false
