-- ===== src/Expr/Replace.antt =====
-- replace of include/seahorn/Expr/ExprVisitor.hh; replaceAll and contains of
-- lib/seahorn/Smt/ExprUtil.cc.
pub mod Correct
pub mod Contains
use seahorn.Prelude.{
  ℕ, zero, suc, Bool, true, false, ◌||◌, Option, none, some, List, [], ◌∷◌, if◌then◌else◌,
}
use seahorn.Expr.Syntax.{Expr, Args, node, nil, cons, size, ◌≟◌}
use seahorn.Expr.Visitor.{
  Action, Visitor, Cache, skip_kids, do_kids, change_to, change_do_kids_rewrite, visit, find,
}
use seahorn.Expr.Simplifier.{trivial}

-- RV: an element of the map is changed to its image.
unfoldable pub replace_action : Cache → Visitor
replace_action m e = elim (find e m) [ none ↦ do_kids | some t ↦ change_to t ]

unfoldable pub replace : Expr → Cache → Option Expr
replace e m = visit (suc (size e)) (replace_action m) e

-- RAV
unfoldable pub replace_all_action : Expr → Expr → Visitor
replace_all_action s t e = if e ≟ s then change_to t else do_kids

unfoldable pub replace_all : Expr → Expr → Expr → Option Expr
replace_all e s t = visit (suc (size e)) (replace_all_action s t) e

-- CV: whether the term was found, and `seen`, in which the visitor puts the term that it looks for. A
-- shared node that the cache skips was searched before, and searching it again finds nothing new.
pub record Search : Type 0 where
  pub found : Bool
  pub seen : List Expr

unfoldable pub member : Expr → List Expr → Bool
member e [] = false
member e (x ∷ xs) = if e ≟ x then true else member e xs

unfoldable mutual
  pub search : Expr → Expr → Search → Search
  search e (node op ks) st =
      if st.found || member (node op ks) st.seen || e ≟ node op ks
      then record st { found = true }
      else search_args e ks (record st { seen = e ∷ st.seen })

  pub search_args : Expr → Args → Search → Search
  search_args e nil st = st
  search_args e (cons x ks) st = search_args e ks (search e x st)

-- contains(e1, e2)
unfoldable pub contains : Expr → Expr → Bool
unfolding search
contains e1 e2 = (search e2 e1 (record { found = false; seen = [] })).found
