-- ===== src/Expr.antt =====
-- Boolean expressions: include/seahorn/Expr and lib/seahorn/Smt/ExprUtil.cc.
pub mod Syntax
pub mod Meaning
pub mod BoolOps
pub mod Visitor
pub mod Rewriting
pub mod Simplifier
pub mod Nnf
pub mod Gather
pub mod Replace
pub mod Filter
mod Tests
