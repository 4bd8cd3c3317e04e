-- ===== src/Expr/Rewriting.antt =====
-- What the rewriting passes share: equal values of terms, and values over rewritten arguments.
use seahorn.Prelude.{ℕ, suc, ◌<◌, ◌≡◌, refl, Bool, true, List, [], ◌∷◌, arith, ap, ap₂, ◌∙◌}
use seahorn.Expr.Syntax.{
  Op, Expr, Args, node, nil, cons, neg_op, other, is_bool_op, arity, IsWf, AllWf, size, size_args,
}
use seahorn.Expr.Meaning.{Env, eval, eval_args, denote}
use seahorn.Expr.Visitor.Rule.{Kids, none_left, next, AllKids}

-- Each environment gives both terms the same value.
abbrev pub Same : Expr → Expr → Type 0
Same e r = (env : Env) → eval env r ≡ eval env e

module _ (P : Expr → Expr → Type 0) where
  pub Kids-AllKids :
      (Q : Expr → Type 0)
      → ((x y : Expr) → P x y → Q y)
      → {ks ls : Args} → Kids P ks ls
      → AllKids Q ls
  Kids-AllKids Q f none_left = tt
  Kids-AllKids Q f (next {x} {y} p q) = (f x y p, Kids-AllKids Q f q)

  pub Kids-arity : {ks ls : Args} → Kids P ks ls → arity ls ≡ arity ks
  Kids-arity none_left = refl
  Kids-arity (next p q) = ap suc (Kids-arity q)

  pub Kids-eval_args :
      (env : Env)
      → ((x y : Expr) → P x y → Same x y)
      → {ks ls : Args} → Kids P ks ls
      → eval_args env ls ≡ eval_args env ks
  unfolding eval
  Kids-eval_args env f none_left = refl
  Kids-eval_args env f (next {x} {y} p q) =
      ap₂ (λ v vs. v ∷ vs) (f x y p env) (Kids-eval_args env f q)

-- The value of a Boolean operator does not depend on the atoms.
pub denote_atom :
    (op : Op) (ks : Args) (vs : List Bool) (a b : Bool)
    → is_bool_op (node op ks) ≡ true
    → denote op vs a ≡ denote op vs b
denote_atom (other k) ks vs a b h = cc
denote_atom neg_op ks [] a b h = refl
denote_atom neg_op ks (v ∷ vs) a b h = refl
denote_atom op ks vs a b h = ground arith

-- The same Boolean operator over arguments of the same values.
pub eval-node :
    (P : Expr → Expr → Type 0) (op : Op) (ks ls : Args)
    → is_bool_op (node op ks) ≡ true
    → ((x y : Expr) → P x y → Same x y)
    → Kids P ks ls
    → Same (node op ks) (node op ls)
unfolding eval
eval-node P op ks ls b f kids env =
    denote_atom op ks (eval_args env ls) (env (node op ls)) (env (node op ks)) b
    ∙ ap (λ vs. denote op vs (env (node op ks))) (Kids-eval_args P env f kids)

-- Each argument is well-formed and smaller than the node.
pub args-below :
    (ks : Args) (m : ℕ) → size_args ks < m → AllWf ks → AllKids (λ k. IsWf k × (size k < m)) ks
args-below nil m h w = tt
args-below (cons x ks) m h w = ((w.0, omega arith), args-below ks m (omega arith) w.1)
