-- ===== src/Index/Compare.antt =====
-- `ix_compare` of src/index/ix_index_handle.h on a key of one INT column.
use dbgenerality_rucbase.Base.{
  ◌≡◌, refl, Bool, true, false, if◌then◌else◌, ltb, ℤ, pos, negsuc, arith,
}
use dbgenerality_rucbase.Index.Order.{KeyOrder, Sign, below, same, above}

-- `ia < ib`
unfoldable pub ltb_ℤ : ℤ → ℤ → Bool
ltb_ℤ (pos a) (pos b) = ltb a b
ltb_ℤ (pos a) (negsuc b) = false
ltb_ℤ (negsuc a) (pos b) = true
ltb_ℤ (negsuc a) (negsuc b) = ltb b a

-- `(ia < ib) ? -1 : ((ia > ib) ? 1 : 0)`
unfoldable pub compare_int : ℤ → ℤ → Sign
unfolding ltb_ℤ
compare_int a b = if ltb_ℤ a b then below else if ltb_ℤ b a then above else same

pub compare_int_refl : (a : ℤ) → compare_int a a ≡ same
unfolding compare_int
compare_int_refl (pos a) = ground arith
compare_int_refl (negsuc a) = ground arith

pub compare_int-same : (a b : ℤ) → compare_int a b ≡ same → a ≡ b
unfolding compare_int
compare_int-same (pos a) (pos b) e = ground arith
compare_int-same (pos a) (negsuc b) e = ground arith
compare_int-same (negsuc a) (pos b) e = ground arith
compare_int-same (negsuc a) (negsuc b) e = ground arith

pub compare_int-flip : (a b : ℤ) → compare_int a b ≡ above → compare_int b a ≡ below
unfolding compare_int
compare_int-flip a b e = ground arith

ltb_ℤ-trans : (a b c : ℤ) → ltb_ℤ a b ≡ true → ltb_ℤ b c ≡ true → ltb_ℤ a c ≡ true
unfolding ltb_ℤ
ltb_ℤ-trans (pos a) (pos b) (pos c) e f = ground arith
ltb_ℤ-trans (pos a) (pos b) (negsuc c) e f = ground arith
ltb_ℤ-trans (pos a) (negsuc b) c e f = ground arith
ltb_ℤ-trans (negsuc a) b (pos c) e f = refl
ltb_ℤ-trans (negsuc a) (pos b) (negsuc c) e f = ground arith
ltb_ℤ-trans (negsuc a) (negsuc b) (negsuc c) e f = ground arith

pub compare_int_trans :
    (a b c : ℤ) → compare_int a b ≡ below → compare_int b c ≡ below → compare_int a c ≡ below
unfolding compare_int
compare_int_trans a b c e f = ground (arith, ltb_ℤ-trans a b c)

-- Keys of one INT column.
abbrev pub int_order : KeyOrder
int_order = record {
  Key = ℤ;
  ix_compare = compare_int;
  compare-refl = compare_int_refl;
  compare-same = compare_int-same;
  compare-flip = compare_int-flip;
  compare-trans = compare_int_trans;
}
