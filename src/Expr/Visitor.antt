-- ===== src/Expr/Visitor.antt =====
-- include/seahorn/Expr/ExprVisitor.hh: the traversal that a visitor's actions steer, on the tree and
-- with the cache of `dagVisit`.
pub mod Rule
pub mod Cached
use mathlib.Core.Option
use seahorn.Prelude.{
  ℕ, zero, suc, Bool, true, false, Option, none, some, List, [], ◌∷◌, if◌then◌else◌,
}
use seahorn.Expr.Syntax.{Op, Expr, Args, node, nil, cons, op_of, args_of, ◌≟◌}

-- VisitAction: its two flags and its expression make four actions; a rewriter is a function.
pub data Action : Type 0 where
  skip_kids do_kids : Action
  change_to : Expr → Action
  change_do_kids_rewrite : Expr → (Expr → Expr) → Action

abbrev pub Visitor : Type 0
Visitor = Expr → Action

infixl 5 ◌>>=◌
abbrev pub ◌>>=◌ {ℓ κ} : {A : Type ℓ} {B : Type κ} → Option A → (A → Option B) → Option B
none >>= f = none
some a >>= f = f a

-- The loop over the arguments, from left to right.
unfoldable pub visit_kids : (Expr → Option Expr) → Args → Option Args
visit_kids go nil = some nil
visit_kids go (cons x ks) = do x' ← go x; ks' ← visit_kids go ks; some (cons x' ks')

-- mkNary of the same operator over the new arguments. Where none changed the source keeps the node,
-- which is the same term.
unfoldable pub rebuild : (Expr → Option Expr) → Expr → Option Expr
rebuild go (node op ks) = do ks' ← visit_kids go ks; some (node op ks')

-- What `visit` does with an action; `go` is the visit of an argument.
unfoldable pub act : (Expr → Option Expr) → Expr → Action → Option Expr
act go e skip_kids = some e
act go e (change_to t) = some t
act go e do_kids = rebuild go e
act go e (change_do_kids_rewrite t r) = Option.map r (rebuild go t)

-- The recursion of `visit` takes fuel, since an action may put a new expression in place of the one
-- visited; `none` means that the fuel ran out.
unfoldable pub visit : ℕ → Visitor → Expr → Option Expr
visit zero v e = none
visit (suc n) v e = act (visit n v) e (v e)

-- DagVisitCache.
abbrev pub Cache : Type 0
Cache = List (Expr × Expr)

unfoldable pub find : Expr → Cache → Option Expr
find k [] = none
find k ((j, r) ∷ c) = if k ≟ j then some r else find k c

-- The traversal with the cache passed through. `shared e` is the test `use_count () > 1`.
abbrev pub Cached : Type 0 → Type 0
Cached A = Cache → Option (A × Cache)

unfoldable pub dag_kids : (Expr → Cached Expr) → Args → Cached Args
dag_kids go nil c = some (nil, c)
dag_kids go (cons x ks) c =
    go x c >>= λ (x', c1). dag_kids go ks c1 >>= λ (ks', c2). some (cons x' ks', c2)

unfoldable pub dag_rebuild : (Expr → Cached Expr) → Expr → Cached Expr
dag_rebuild go (node op ks) c = dag_kids go ks c >>= λ (ks', c'). some (node op ks', c')

unfoldable pub dag_act : (Expr → Cached Expr) → Expr → Action → Cached Expr
dag_act go e skip_kids c = some (e, c)
dag_act go e (change_to t) c = some (t, c)
dag_act go e do_kids c = dag_rebuild go e c
dag_act go e (change_do_kids_rewrite t r) c = dag_rebuild go t c >>= λ (t', c'). some (r t', c')

-- The result enters the cache only if the node is shared.
unfoldable pub remember : Bool → Expr → Expr × Cache → Expr × Cache
remember true e (r, c) = (r, (e, r) ∷ c)
remember false e (r, c) = (r, c)

unfoldable pub lookup_shared : Bool → Expr → Cache → Option Expr
lookup_shared true e c = find e c
lookup_shared false e c = none

-- `shared` stands for the test of the use count, which the code makes before and after the visit of a
-- term; here both have the same result.
unfoldable pub dag_visit : (Expr → Bool) → ℕ → Visitor → Expr → Cached Expr
dag_visit shared zero v e c = none
dag_visit shared (suc n) v e c = elim (lookup_shared (shared e) e c) [
  | some r ↦ some (r, c)
  | none ↦ Option.map (remember (shared e) e) (dag_act (dag_visit shared n v) e (v e) c)
]
