-- ===== src/Expr/Gather.antt =====
-- `gather` and `pp` of lib/seahorn/Smt/ExprUtil.cc: nested AND and OR become n-ary ones.
pub mod Sets
pub mod Flat
pub mod Strict
pub mod Correct
use seahorn.Prelude.{ℕ, suc, Bool, true, false, if◌then◌else◌, Option, none, some, decided}
use seahorn.Expr.Syntax.{
  Op, Op-discrete, Expr, Args, node, nil, cons, and_op, or_op, tru, fls, op_of, args_of, ◌≟◌, size,
}
use seahorn.Expr.Visitor.{visit, ◌>>=◌}
use seahorn.Expr.Simplifier.{bs}
use seahorn.Expr.Nnf.{nnf}

-- The two operators that are gathered.
pub data Junction : Type 0 where
  conj disj : Junction

abbrev pub op : Junction → Op
op conj = and_op
op disj = or_op

abbrev pub top : Junction → Expr
top conj = tru
top disj = fls

abbrev pub bot : Junction → Expr
bot conj = fls
bot disj = tru

unfoldable pub same_op : Op → Op → Bool
unfolding Op-discrete
same_op o p = decided (Op-discrete o p)

-- `before` is the order of nodes by their id, by which ExprSet is sorted.
module _ (before : Expr → Expr → Bool) where
  -- std::set::insert, on the sorted elements.
  unfoldable pub insert : Expr → Args → Args
  insert a nil = cons a nil
  insert a (cons x ks) =
      if before a x
      then cons a (cons x ks)
      else if before x a
      then cons x (insert a ks)
      else cons x ks

  -- One argument that is not of the same operator; `none` is the return of `bot`.
  unfoldable pub add_arg : Junction → Expr → Args → Option Args
  unfolding insert
  add_arg j a set = if a ≟ bot j then none else if a ≟ top j then some set else some (insert a set)

  unfoldable pub add_args : Junction → Args → Args → Option Args
  add_args j nil set = some set
  add_args j (cons a ks) set = do set' ← add_arg j a set; add_args j ks set'

  -- The loop over the arguments, which descends into those of the same operator.
  unfoldable pub collect : Junction → Args → Args → Option Args
  collect j nil set = some set
  collect j (cons a ks) set = do
    set' ← if same_op (op j) (op_of a) then add_args j (args_of a) set else add_arg j a set
    collect j ks set'

  unfoldable pub conclude : Junction → Option Args → Expr
  conclude j none = bot j
  conclude j (some nil) = top j
  conclude j (some (cons a nil)) = a
  conclude j (some (cons a (cons b ks))) = node (op j) (cons a (cons b ks))

  -- GatherOps::operator(). A node with no arguments is returned as it is.
  unfoldable pub gather_op : Expr → Expr
  gather_op (node o nil) = node o nil
  gather_op (node and_op (cons x ks)) = conclude conj (collect conj (cons x ks) nil)
  gather_op (node or_op (cons x ks)) = conclude disj (collect disj (cons x ks) nil)
  gather_op e = e

  unfoldable pub gather : Expr → Option Expr
  gather e = visit (suc (size e)) (bs gather_op) e

  unfoldable pub pp : Expr → Option Expr
  pp e = do r ← nnf e; gather r
