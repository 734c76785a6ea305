-- ===== src/Query/Analyze/Early.antt =====
-- The order of the checks of a condition in `check_clause`, src/analyze/analyze.cpp.
use dbgenerality_rucbase.Base.{
  ℕ, ◌≡◌, ◌≢◌, true, false, List, none, pos, ◌==◌, ==_iff, Bool-cases, inl, inr, eqb_ℤ,
}
use dbgenerality_rucbase.System.Meta.{ColMeta, type_int, type_string}
use dbgenerality_rucbase.System.Catalogue.{DbMeta}
use dbgenerality_rucbase.Query.Result.{ok, throws, assertion_failed}
use dbgenerality_rucbase.Query.Value.{TabCol, Condition, init_raw, raw_bytes}
use dbgenerality_rucbase.Query.Analyze.{check_column, col_of, resolve, check_rhs, check_cond}

ne_four : (n : ℕ) → n ≢ 4 → eqb_ℤ (pos n) (pos 4) ≡ false
ne_four n h = elim (Bool-cases (n == 4)) [ inl e ↦ absurd (h ((==_iff n 4).0 e)) | inr e ↦ e ]

-- A condition that compares a STRING column with an INT literal, for a column whose length is not
-- that of an INT, ends in a failed assertion and not in `IncompatibleTypeError`: the column is
-- found, and `init_raw` asserts the length before the types are compared.
pub check_cond-assertion_failed :
    (db : DbMeta) (all_cols : List ColMeta) (cond : Condition) (lhs : TabCol) (col : ColMeta)
    (n : ℕ)
    → cond.is_rhs_val ≡ true
    → cond.rhs_val.type ≡ type_int
    → cond.rhs_val.raw ≡ none
    → check_column db all_cols cond.lhs_col ≡ ok lhs
    → col_of db lhs ≡ ok col
    → col.type ≡ type_string
    → col.len ≡ pos n
    → n ≢ 4
    → check_cond db all_cols cond ≡ throws assertion_failed
unfolding check_cond resolve check_rhs init_raw raw_bytes
check_cond-assertion_failed db all_cols cond lhs col n lit int unused found there ty len h =
    rw (found, lit, there, check_rhs, lit, len, init_raw, unused, int, ne_four n h)
