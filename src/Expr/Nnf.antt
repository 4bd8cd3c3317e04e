-- ===== src/Expr/Nnf.antt =====
-- `nnf` of lib/seahorn/Smt/ExprUtil.cc: negations are pushed down through AND, OR and NEG.
pub mod Strict
pub mod Correct
use seahorn.Prelude.{ℕ, suc, Bool, if◌then◌else◌, Option}
use seahorn.Expr.Syntax.{Expr, Args, node, nil, cons, and_op, or_op, neg_op, tru, fls, ◌≟◌, size}
use seahorn.Expr.BoolOps.{lneg}
use seahorn.Expr.Visitor.{Action, Visitor, skip_kids, change_to, change_do_kids_rewrite, visit}
use seahorn.Expr.Simplifier.{trivial}

unfoldable pub negate_args : Args → Args
negate_args nil = nil
negate_args (cons x ks) = cons (lneg x) (negate_args ks)

-- The negated term is no constant. A negation with no argument would be a null pointer here.
unfoldable pub push_op : Expr → Action
push_op (node neg_op (cons x ks)) = change_do_kids_rewrite (node and_op (cons x nil)) trivial
push_op (node or_op ks) = change_do_kids_rewrite (node and_op (negate_args ks)) trivial
push_op (node and_op ks) = change_do_kids_rewrite (node or_op (negate_args ks)) trivial
push_op _ = skip_kids

unfoldable pub push_neg : Expr → Action
unfolding push_op
push_neg x = if x ≟ fls then change_to tru else if x ≟ tru then change_to fls else push_op x

-- NNF::operator()
unfoldable pub nnf_action : Visitor
nnf_action (node op nil) = skip_kids
nnf_action (node and_op (cons x ks)) = change_do_kids_rewrite (node and_op (cons x ks)) trivial
nnf_action (node or_op (cons x ks)) = change_do_kids_rewrite (node or_op (cons x ks)) trivial
nnf_action (node neg_op (cons x ks)) = push_neg x
nnf_action _ = skip_kids

unfoldable pub nnf : Expr → Option Expr
nnf e = visit (suc (size e)) nnf_action e
