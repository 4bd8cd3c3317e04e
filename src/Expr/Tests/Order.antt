-- ===== src/Expr/Tests/Order.antt =====
-- A total order of nodes, in place of their ids.
use seahorn.Prelude.{ℕ, ◌+◌, ◌≡◌, refl, Bool, true, false, ◌&&◌, ◌||◌, ltb, ◌==◌, arith}
use seahorn.Expr.Syntax.{
  Op, Expr, Args, node, nil, cons, true_op, false_op, and_op, or_op, xor_op, neg_op, impl_op,
  ite_op, iff_op, other, ◌≟◌, →≟,
}
use seahorn.Expr.Gather.Sets.{IsTotal}

abbrev op_code : Op → ℕ
op_code true_op = 0
op_code false_op = 1
op_code and_op = 2
op_code or_op = 3
op_code xor_op = 4
op_code neg_op = 5
op_code impl_op = 6
op_code ite_op = 7
op_code iff_op = 8
op_code (other k) = 9 + k

op_code-injective : (o p : Op) → op_code o ≡ op_code p → o ≡ p
op_code-injective o p h = ground arith

unfoldable mutual
  pub before : Expr → Expr → Bool
  before (node o ks) (node p ls) =
      ltb (op_code o) (op_code p) || (op_code o == op_code p && args_before ks ls)

  pub args_before : Args → Args → Bool
  args_before nil nil = false
  args_before nil (cons y ls) = true
  args_before (cons x ks) nil = false
  args_before (cons x ks) (cons y ls) = before x y || (x ≟ y && args_before ks ls)

mutual
  unfolding before

  total : (a b : Expr) → before a b ≡ false → before b a ≡ false → a ≡ b
  total (node o ks) (node p ls) h k = ground (arith, op_code-injective o p, args_total ks ls)

  args_total : (ks ls : Args) → args_before ks ls ≡ false → args_before ls ks ≡ false → ks ≡ ls
  args_total nil nil h k = refl
  args_total nil (cons y ls) h k = cc
  args_total (cons x ks) nil h k = cc
  args_total (cons x ks) (cons y ls) h k =
      ground (arith, →≟ x y, →≟ y x, total x y, args_total ks ls)

pub before-IsTotal : IsTotal before
before-IsTotal a b h k = total a b h k
