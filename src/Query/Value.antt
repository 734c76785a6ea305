-- ===== src/Query/Value.antt =====
-- `TabCol`, `Value`, `Condition` and `SetClause` of src/common/common.h. A `float` is the four bytes
-- that hold it, and the text of a value is its bytes.
pub mod Bytes
use Prim.Native.String.{String}
use dbgenerality_rucbase.Base.{
  ℕ, zero, suc, ◌-◌, ◌≡◌, refl, ap, Bool, true, false, List, [], ◌∷◌, ◌++◌, Option, none, some, not,
  length, replicate, leb, eqb_ℤ, ℤ, pos,
}
use dbgenerality_rucbase.System.Meta.{ColType, type_int, type_float, type_string}
use dbgenerality_rucbase.Query.Result.{
  Result, ok, throws, assertion_failed, string_overflow, require, ◌>>=◌, ◌>>◌,
}
use dbgenerality_rucbase.Query.Cursor.{Row}
use Bytes.{bytes_of_int}

pub record TabCol : Type 0 where
  pub tab_name : String
  pub col_name : String

-- The union of `int_val` and `float_val` is two fields, of which `type` says which one is meant.
pub record Value : Type 0 where
  pub type : ColType
  pub int_val : ℤ
  pub float_val : Row
  pub str_val : Row
  pub raw : Option Row

-- A value as its declaration leaves it; the fields that have no value yet hold zeros.
abbrev pub fresh : Value
fresh = record {
  type = type_int;
  int_val = pos 0;
  float_val = replicate 4 0;
  str_val = [];
  raw = none;
}

abbrev pub set_int : ℤ → Value → Value
set_int i v = record v { type = type_int; int_val = i }

abbrev pub set_float : Row → Value → Value
set_float f v = record v { type = type_float; float_val = f }

abbrev pub set_str : Row → Value → Value
set_str s v = record v { type = type_string; str_val = s }

abbrev pub is_null : {A : Type 0} → Option A → Bool
is_null none = true
is_null (some a) = false

-- What `init_raw` writes to the new buffer, by the type.
unfoldable pub raw_bytes : ColType → ℕ → Value → Result Row
unfolding bytes_of_int
raw_bytes type_int len v = do
  require (eqb_ℤ (pos len) (pos 4)) assertion_failed
  ok (bytes_of_int v.int_val)
raw_bytes type_float len v = do require (eqb_ℤ (pos len) (pos 4)) assertion_failed; ok v.float_val
raw_bytes type_string len v = do
  require (leb (length v.str_val) len) string_overflow
  ok (v.str_val ++ replicate (len - length v.str_val) 0)

-- `init_raw`, for a column of `len` bytes.
unfoldable pub init_raw : ℕ → Value → Result Value
unfolding raw_bytes
init_raw len v = do
  require (is_null v.raw) assertion_failed
  bytes ← raw_bytes v.type len v
  ok (record v { raw = some bytes })

pub data CompOp : Type 0 where
  op_eq op_ne op_lt op_gt op_le op_ge : CompOp

pub record Condition : Type 0 where
  pub lhs_col : TabCol
  pub op : CompOp
  pub is_rhs_val : Bool
  pub rhs_col : TabCol
  pub rhs_val : Value

pub record SetClause : Type 0 where
  pub lhs : TabCol
  pub rhs : Value
