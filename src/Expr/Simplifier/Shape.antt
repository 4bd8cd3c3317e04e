-- ===== src/Expr/Simplifier/Shape.antt =====
-- Every result of the simplifier at AND and OR is a constant, an argument, or the node itself.
use seahorn.Prelude.{arith}
use seahorn.Expr.Syntax.{Expr, Args, node, nil, cons, and_op, or_op, tru, fls}
use seahorn.Expr.Visitor.Rule.{AllKids}
use seahorn.Expr.Simplifier.{simplify_or, simplify_and}

module _ (P : Expr → Type 0) (pt : P tru) (pf : P fls) where
  pub simplify_or_rule : (ks : Args) → AllKids P ks → P (node or_op ks) → P (simplify_or ks)
  unfolding simplify_or
  simplify_or_rule nil h p = pf
  simplify_or_rule (cons x nil) h p = h.0
  simplify_or_rule (cons l (cons r nil)) (hl, (hr, h)) p = ground arith
  simplify_or_rule (cons l (cons r (cons x ks))) h p = ground arith

  pub simplify_and_rule : (ks : Args) → AllKids P ks → P (node and_op ks) → P (simplify_and ks)
  unfolding simplify_and
  simplify_and_rule nil h p = pt
  simplify_and_rule (cons x nil) h p = h.0
  simplify_and_rule (cons l (cons r nil)) (hl, (hr, h)) p = ground arith
  simplify_and_rule (cons l (cons r (cons x ks))) h p = ground arith
