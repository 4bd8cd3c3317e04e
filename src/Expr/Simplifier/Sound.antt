-- ===== src/Expr/Simplifier/Sound.antt =====
-- The trivial simplifier keeps the truth value, but for an equivalence of equal sides.
use seahorn.Prelude.{◌≡◌, ◌≢◌, refl, true, false, not, ◌||◌, arith}
use seahorn.Expr.Syntax.{
  Expr, Args, node, nil, cons, and_op, or_op, neg_op, impl_op, iff_op, tru, fls, mk_iff, mk_neg,
  ◌≟◌, ≟→≡, ≟-refl, IsWf, AllWf,
}
use seahorn.Expr.Meaning.{Env, eval, eval_args, all_true, any_true, bool_iff}
use seahorn.Expr.BoolOps.Sound.{eval-lneg}
use seahorn.Expr.Simplifier.{
  negates, has_arg, simplify_impl, simplify_iff, strip_neg, simplify_neg, simplify_or, simplify_and,
  trivial,
}

module _ (env : Env) where
  eval-tru : (x : Expr) → (tru ≟ x) ≡ true → eval env x ≡ true
  unfolding eval
  eval-tru x h = ground (arith, ≟→≡ tru x)

  eval-fls : (x : Expr) → (fls ≟ x) ≡ true → eval env x ≡ false
  unfolding eval
  eval-fls x h = ground (arith, ≟→≡ fls x)

  pub eval-simplify_impl :
      (l r : Expr)
      → IsWf l
      → eval env (simplify_impl l r (node impl_op (cons l (cons r nil))))
        ≡ (not (eval env l) || eval env r)
  unfolding simplify_impl eval
  eval-simplify_impl l r wl =
      ground (arith, eval-tru l, eval-fls l, eval-tru r, eval-fls r, eval-lneg env l wl)

  pub eval-simplify_iff :
      (l r : Expr)
      → IsWf l
      → IsWf r
      → l ≢ r
      → eval env (simplify_iff l r (mk_iff l r)) ≡ bool_iff (eval env l) (eval env r)
  unfolding simplify_iff eval
  eval-simplify_iff l r wl wr apart = ground (
    arith,
    eval-tru l,
    eval-fls l,
    eval-tru r,
    eval-fls r,
    ≟→≡ l r,
    eval-lneg env l wl,
    eval-lneg env r wr,
  )

  eval-strip_neg : (x : Expr) → IsWf x → eval env (strip_neg x (mk_neg x)) ≡ not (eval env x)
  unfolding strip_neg eval
  eval-strip_neg (node neg_op (cons y nil)) w = ground arith
  eval-strip_neg (node neg_op (cons y (cons z ks))) w = absurd (omega arith)
  eval-strip_neg (node _ ks) w = refl

  pub eval-simplify_neg :
      (x : Expr) → IsWf x → eval env (simplify_neg x (mk_neg x)) ≡ not (eval env x)
  unfolding simplify_neg eval
  eval-simplify_neg x w = ground (arith, eval-tru x, eval-fls x, eval-strip_neg x w)

  eval-negates : (a b : Expr) → IsWf a → negates a b ≡ true → eval env a ≡ not (eval env b)
  unfolding negates eval
  eval-negates (node neg_op (cons x nil)) b w h = ground (arith, ≟→≡ x b)
  eval-negates (node neg_op (cons x (cons y ks))) b w h = absurd (omega arith)
  eval-negates (node _ ks) b w h = cc

  any-has_arg : (ks : Args) → has_arg tru ks ≡ true → any_true (eval_args env ks) ≡ true
  unfolding has_arg eval
  any-has_arg nil h = cc
  any-has_arg (cons x ks) h = ground (arith, eval-tru x, any-has_arg ks)

  all-has_arg : (ks : Args) → has_arg fls ks ≡ true → all_true (eval_args env ks) ≡ false
  unfolding has_arg eval
  all-has_arg nil h = cc
  all-has_arg (cons x ks) h = ground (arith, eval-fls x, all-has_arg ks)

  pub eval-simplify_or :
      (ks : Args) → AllWf ks → eval env (simplify_or ks) ≡ any_true (eval_args env ks)
  unfolding simplify_or eval
  eval-simplify_or nil w = refl
  eval-simplify_or (cons x nil) w = ground arith
  eval-simplify_or (cons l (cons r nil)) (wl, (wr, w)) = ground (
    arith,
    ≟→≡ l r,
    eval-tru l,
    eval-tru r,
    eval-fls l,
    eval-fls r,
    eval-negates l r wl,
    eval-negates r l wr,
  )
  eval-simplify_or (cons l (cons r (cons x ks))) w =
      ground (arith, any-has_arg (cons l (cons r (cons x ks))))

  pub eval-simplify_and :
      (ks : Args) → AllWf ks → eval env (simplify_and ks) ≡ all_true (eval_args env ks)
  unfolding simplify_and eval
  eval-simplify_and nil w = refl
  eval-simplify_and (cons x nil) w = ground arith
  eval-simplify_and (cons l (cons r nil)) (wl, (wr, w)) = ground (
    arith,
    ≟→≡ l r,
    eval-tru l,
    eval-tru r,
    eval-fls l,
    eval-fls r,
    eval-negates l r wl,
    eval-negates r l wr,
  )
  eval-simplify_and (cons l (cons r (cons x ks))) w =
      ground (arith, all-has_arg (cons l (cons r (cons x ks))))

-- No equivalence of a term with itself at the root.
abbrev pub IsApart : Expr → Type 0
IsApart (node iff_op (cons l (cons r ks))) = l ≢ r
IsApart _ = Unit

-- One step of the simplifier keeps the truth value of a well-formed node, unless the node is an
-- equivalence of a term with itself.
pub eval-trivial : (env : Env) (e : Expr) → IsWf e → IsApart e → eval env (trivial e) ≡ eval env e
unfolding trivial eval
eval-trivial env (node impl_op (cons l (cons r nil))) w h = eval-simplify_impl env l r w.1.0
eval-trivial env (node iff_op (cons l (cons r nil))) w h = eval-simplify_iff env l r w.1.0 w.1.1.0 h
eval-trivial env (node neg_op (cons x nil)) w h = eval-simplify_neg env x w.1.0
eval-trivial env (node or_op ks) w h = eval-simplify_or env ks w.1
eval-trivial env (node and_op ks) w h = eval-simplify_and env ks w.1
eval-trivial env (node impl_op (cons l (cons r (cons x ks)))) w h = absurd (omega arith)
eval-trivial env (node iff_op (cons l (cons r (cons x ks)))) w h = absurd (omega arith)
eval-trivial env (node neg_op (cons x (cons y ks))) w h = absurd (omega arith)
eval-trivial env (node _ ks) w h = refl

-- The simplifier turns an equivalence of a term with itself into that term, although the equivalence
-- is true under every environment.
pub trivial-mk_iff_self :
    (env : Env) (e : Expr) → (trivial (mk_iff e e) ≡ e) × (eval env (mk_iff e e) ≡ true)
unfolding trivial simplify_iff eval
trivial-mk_iff_self env e = (ground (arith, ≟-refl e), ground arith)
