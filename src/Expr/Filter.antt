-- ===== src/Expr/Filter.antt =====
-- filter of include/seahorn/Expr/ExprVisitor.hh.
pub mod Correct
use seahorn.Prelude.{Bool, true, false, List, [], ◌∷◌, ◌++◌, if◌then◌else◌}
use seahorn.Expr.Syntax.{Expr, Args, node, nil, cons}
use seahorn.Expr.Replace.{member}

-- The state of FV: the nodes seen and the output. Its `seen` covers the cache of shared nodes, since a
-- node that is in the cache has been seen.
pub record Collected : Type 0 where
  pub seen : List Expr
  pub out : List Expr

unfoldable mutual
  pub collect_from : (Expr → Bool) → Expr → Collected → Collected
  collect_from f (node op ks) st =
      let below = collect_args f ks (record st { seen = node op ks ∷ st.seen }) in
      if member (node op ks) st.seen
      then st
      else if f (node op ks)
      then record { seen = node op ks ∷ st.seen; out = st.out ++ node op ks ∷ [] }
      else below

  pub collect_args : (Expr → Bool) → Args → Collected → Collected
  collect_args f nil st = st
  collect_args f (cons x ks) st = collect_args f ks (collect_from f x st)

-- filter(exp, f, out), on an empty output.
unfoldable pub filter : (Expr → Bool) → Expr → List Expr
unfolding collect_from
filter f e = (collect_from f e (record { seen = []; out = [] })).out
