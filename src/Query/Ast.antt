-- ===== src/Query/Ast.antt =====
-- The statements of src/parser/ast.h that src/analyze/analyze.cpp looks into.
use Prim.Native.String.{String}
use dbgenerality_rucbase.Base.{List, ℤ}
use dbgenerality_rucbase.Query.Cursor.{Row}
use dbgenerality_rucbase.Query.Value.{TabCol}

-- `ast::Value`; a float is the four bytes that hold it.
pub data Literal : Type 0 where
  int_lit : ℤ → Literal
  float_lit : Row → Literal
  string_lit : Row → Literal

-- `ast::Expr`; `ast::Col` is the two names of a column.
pub data Expr : Type 0 where
  value : Literal → Expr
  col : TabCol → Expr

pub data SvCompOp : Type 0 where
  sv_op_eq sv_op_ne sv_op_lt sv_op_gt sv_op_le sv_op_ge : SvCompOp

pub record BinaryExpr : Type 0 where
  pub lhs : TabCol
  pub op : SvCompOp
  pub rhs : Expr

pub data Statement : Type 0 where
  select_stmt : (cols : List TabCol) (tabs : List String) (conds : List BinaryExpr) → Statement
  update_stmt :
      (tab_name : String) (set_clauses : List (String × Literal)) (conds : List BinaryExpr)
      → Statement
  delete_stmt : (tab_name : String) (conds : List BinaryExpr) → Statement
  insert_stmt : (tab_name : String) (vals : List Literal) → Statement
  -- the statements that the analysis passes on as they are
  other_stmt : Statement
