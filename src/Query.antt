-- ===== src/Query.antt =====
-- The execution of queries: src/common/common.h, src/execution, the statements that src/analyze
-- checks and the conditions that src/optimizer/planner.cpp gives to the plans.
pub mod Result
pub mod Cursor
pub mod Join
pub mod Value
pub mod Eval
pub mod SeqScan
pub mod Projection
pub mod Select
pub mod Ast
pub mod Analyze
pub mod Modify
pub mod Plan
