-- ===== src/Expr/Simplifier.antt =====
-- include/seahorn/Expr/ExprSimplifier.hh: the trivial simplifier, and `simplify` of ExprUtil.cc.
pub mod Sound
pub mod Shape
pub mod Pass
use mathlib.Core.Option
use seahorn.Prelude.{ℕ, suc, Bool, true, false, ◌||◌, if◌then◌else◌, Option}
use seahorn.Expr.Syntax.{
  Op, Expr, Args, node, nil, cons, true_op, false_op, and_op, or_op, xor_op, neg_op, impl_op,
  ite_op, iff_op, other, tru, fls, ◌≟◌, is_bool_op, size,
}
use seahorn.Expr.BoolOps.{lneg}
use seahorn.Expr.Visitor.{Action, Visitor, skip_kids, change_do_kids_rewrite, visit}

-- isOpX<NEG>(a) && a->left() == b
unfoldable pub negates : Expr → Expr → Bool
negates (node neg_op (cons x ks)) b = x ≟ b
negates _ b = false

unfoldable pub has_arg : Expr → Args → Bool
has_arg a nil = false
has_arg a (cons x ks) = a ≟ x || has_arg a ks

-- IMPL, at its two arguments; `exp` is the node itself.
unfoldable pub simplify_impl : Expr → Expr → Expr → Expr
simplify_impl l r exp =
    if tru ≟ l
    then r
    else if fls ≟ l
    then tru
    else if tru ≟ r
    then tru
    else if fls ≟ r
    then lneg l
    else exp

unfoldable pub simplify_iff : Expr → Expr → Expr → Expr
simplify_iff l r exp =
    if l ≟ r
    then l
    else if tru ≟ l
    then r
    else if fls ≟ l
    then lneg r
    else if tru ≟ r
    then l
    else if fls ≟ r
    then lneg l
    else exp

-- exp->left()->left() where the left child is a negation.
unfoldable pub strip_neg : Expr → Expr → Expr
strip_neg (node neg_op (cons y ks)) exp = y
strip_neg _ exp = exp

unfoldable pub simplify_neg : Expr → Expr → Expr
unfolding strip_neg
simplify_neg x exp = if tru ≟ x then fls else if fls ≟ x then tru else strip_neg x exp

unfoldable pub simplify_or : Args → Expr
unfolding negates has_arg
simplify_or nil = fls
simplify_or (cons x nil) = x
simplify_or (cons l (cons r nil)) =
    if l ≟ r
    then l
    else if tru ≟ l || tru ≟ r
    then tru
    else if fls ≟ l
    then r
    else if fls ≟ r
    then l
    else if negates l r
    then tru
    else if negates r l
    then tru
    else node or_op (cons l (cons r nil))
simplify_or ks = if has_arg tru ks then tru else node or_op ks

unfoldable pub simplify_and : Args → Expr
unfolding negates has_arg
simplify_and nil = tru
simplify_and (cons x nil) = x
simplify_and (cons l (cons r nil)) =
    if l ≟ r
    then l
    else if fls ≟ l || fls ≟ r
    then fls
    else if tru ≟ l
    then r
    else if tru ≟ r
    then l
    else if negates l r
    then fls
    else if negates r l
    then fls
    else node and_op (cons l (cons r nil))
simplify_and ks = if has_arg fls ks then fls else node and_op ks

-- TrivialSimplifier::operator(). Constants and nodes of other operators are returned as they are.
unfoldable pub trivial : Expr → Expr
trivial (node impl_op (cons l (cons r ks))) = simplify_impl l r (node impl_op (cons l (cons r ks)))
trivial (node iff_op (cons l (cons r ks))) = simplify_iff l r (node iff_op (cons l (cons r ks)))
trivial (node neg_op (cons x ks)) = simplify_neg x (node neg_op (cons x ks))
trivial (node or_op ks) = simplify_or ks
trivial (node and_op ks) = simplify_and ks
trivial e = e

-- BS: apply a rewriter below Boolean operators only.
unfoldable pub bs : (Expr → Expr) → Visitor
bs r e = if is_bool_op e then change_do_kids_rewrite e r else skip_kids

unfoldable pub simplify : Expr → Option Expr
unfolding bs
simplify e = visit (suc (size e)) (bs trivial) e
