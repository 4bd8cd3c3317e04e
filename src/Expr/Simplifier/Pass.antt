-- ===== src/Expr/Simplifier/Pass.antt =====
-- `simplify` of ExprUtil.cc: the simplifier run bottom-up over the Boolean structure.
use seahorn.Prelude.{
  ℕ, suc, ◌<◌, ◌≤◌, ◌≡◌, refl, true, some, arith, sym, ◌∙◌, subst, Bool-cases, inl, inr,
}
use seahorn.Expr.Syntax.{
  Op, Expr, Args, node, nil, cons, and_op, or_op, neg_op, impl_op, iff_op, other, mk_neg, mk_impl,
  is_bool_op, size, size_args, IsWf, AllWf, HasArity,
}
use seahorn.Expr.Meaning.{Env, eval}
use seahorn.Expr.BoolOps.{lneg}
use seahorn.Expr.Visitor.Rule.{Kids, none_left, next, AllKids, Promise, visit_rule}
use seahorn.Expr.Rewriting.{Same, Kids-arity, eval-node}
use seahorn.Expr.Simplifier.{
  simplify_impl, strip_neg, simplify_neg, simplify_or, simplify_and, trivial, bs, simplify,
}
use seahorn.Expr.Simplifier.Sound.{eval-trivial, IsApart}

-- No equivalence among the Boolean operators. Terms below other operators are not visited.
abbrev mutual
  pub IffFree : Expr → Type 0
  IffFree (node iff_op ks) = ⊥
  IffFree (node (other k) ks) = Unit
  IffFree (node _ ks) = AllIffFree ks

  pub AllIffFree : Args → Type 0
  AllIffFree nil = Unit
  AllIffFree (cons x ks) = IffFree x × AllIffFree ks

abbrev pub IsGood : Expr → Type 0
IsGood e = IsWf e × IffFree e

abbrev pub AllGood : Args → Type 0
AllGood ks = AllWf ks × AllIffFree ks

IffFree-IsApart : (e : Expr) → IffFree e → IsApart e
IffFree-IsApart (node iff_op ks) h = absurd h
IffFree-IsApart (node _ ks) h = tt

lneg-IsGood : (e : Expr) → IsGood e → IsGood (lneg e)
unfolding lneg
lneg-IsGood (node neg_op nil) h = h
lneg-IsGood (node neg_op (cons x ks)) h = (h.0.1.0, h.1.0)
lneg-IsGood (node _ ks) h = ground arith

simplify_or-IsGood : (ks : Args) → AllGood ks → IsGood (simplify_or ks)
unfolding simplify_or
simplify_or-IsGood nil h = ground arith
simplify_or-IsGood (cons x nil) h = (h.0.0, h.1.0)
simplify_or-IsGood (cons l (cons r nil)) h = ground arith
simplify_or-IsGood (cons l (cons r (cons x ks))) h = ground arith

simplify_and-IsGood : (ks : Args) → AllGood ks → IsGood (simplify_and ks)
unfolding simplify_and
simplify_and-IsGood nil h = ground arith
simplify_and-IsGood (cons x nil) h = (h.0.0, h.1.0)
simplify_and-IsGood (cons l (cons r nil)) h = ground arith
simplify_and-IsGood (cons l (cons r (cons x ks))) h = ground arith

simplify_impl-IsGood : (l r : Expr) → IsGood l → IsGood r → IsGood (simplify_impl l r (mk_impl l r))
unfolding simplify_impl
simplify_impl-IsGood l r hl hr = ground (arith, lneg-IsGood l)

strip_neg-IsGood : (x : Expr) → IsGood x → IsGood (strip_neg x (mk_neg x))
unfolding strip_neg
strip_neg-IsGood (node neg_op nil) h = absurd (omega arith)
strip_neg-IsGood (node neg_op (cons y ks)) h = (h.0.1.0, h.1.0)
strip_neg-IsGood (node _ ks) h = ((refl, (h.0, tt)), (h.1, tt))

simplify_neg-IsGood : (x : Expr) → IsGood x → IsGood (simplify_neg x (mk_neg x))
unfolding simplify_neg
simplify_neg-IsGood x h = ground (arith, strip_neg-IsGood x)

trivial-IsGood : (e : Expr) → IsGood e → IsGood (trivial e)
unfolding trivial
trivial-IsGood (node impl_op (cons l (cons r nil))) h =
    simplify_impl-IsGood l r (h.0.1.0, h.1.0) (h.0.1.1.0, h.1.1.0)
trivial-IsGood (node neg_op (cons x nil)) h = simplify_neg-IsGood x (h.0.1.0, h.1.0)
trivial-IsGood (node or_op ks) h = simplify_or-IsGood ks (h.0.1, h.1)
trivial-IsGood (node and_op ks) h = simplify_and-IsGood ks (h.0.1, h.1)
trivial-IsGood (node impl_op (cons l (cons r (cons x ks)))) h = absurd (omega arith)
trivial-IsGood (node neg_op (cons x (cons y ks))) h = absurd (omega arith)
trivial-IsGood (node iff_op ks) h = absurd h.1
trivial-IsGood (node _ ks) h = h

abbrev pub Kept : Expr → Expr → Type 0
Kept e r = IsGood r × Same e r

Kids-AllGood : {ks ls : Args} → Kids Kept ks ls → AllGood ls
Kids-AllGood none_left = (tt, tt)
Kids-AllGood (next p q) = let (w, f) = Kids-AllGood q in ((p.0.0, w), (p.0.1, f))

Kids-IffFree :
    (op : Op) (ks ls : Args)
    → is_bool_op (node op ks) ≡ true
    → IffFree (node op ks)
    → AllIffFree ls
    → IffFree (node op ls)
Kids-IffFree iff_op ks ls b h g = h
Kids-IffFree (other k) ks ls b h g = tt
Kids-IffFree _ ks ls b h g = g

-- A Boolean operator over arguments that were each kept.
pub node-Kept :
    (op : Op) (ks ls : Args)
    → is_bool_op (node op ks) ≡ true
    → IsGood (node op ks)
    → Kids Kept ks ls
    → Kept (node op ks) (node op ls)
node-Kept op ks ls b h kids =
    let (wf, free) = Kids-AllGood kids in
    (
      (
        (subst (HasArity op) (sym (Kids-arity Kept kids)) h.0.0, wf),
        Kids-IffFree op ks ls b h.1 free,
      ),
      eval-node Kept op ks ls b (λ x y p. p.1) kids,
    )

-- Each argument is smaller than the node.
pub kids_below :
    (ks : Args) (n : ℕ)
    → size_args ks ≤ n
    → AllWf ks
    → AllIffFree ks
    → AllKids (λ k. IsGood k × (size k < suc n)) ks
kids_below nil n h w f = tt
kids_below (cons x ks) n h w f = (((w.0, f.0), omega arith), kids_below ks n (omega arith) w.1 f.1)

IffFree-kids :
    (op : Op) (ks : Args) → is_bool_op (node op ks) ≡ true → IffFree (node op ks) → AllIffFree ks
IffFree-kids iff_op ks b h = absurd h
IffFree-kids (other k) ks b h = cc
IffFree-kids _ ks b h = h

trivial-Kept : (e : Expr) → IsGood e → Kept e (trivial e)
trivial-Kept e h = (trivial-IsGood e h, λ env. eval-trivial env e h.0 (IffFree-IsApart e h.1))

Kept-trans : (a b c : Expr) → Kept a b → Kept b c → Kept a c
Kept-trans a b c p q = (q.0, λ env. q.1 env ∙ p.1 env)

bs-Promise : (e : Expr) → IsGood e → Promise (bs trivial) IsGood Kept size e (bs trivial e)
unfolding bs
bs-Promise (node op ks) h = elim (Bool-cases (is_bool_op (node op ks))) [
  | inl b ↦ rw b (
    kids_below ks (size_args ks) (omega arith) h.0.1 (IffFree-kids op ks b h.1),
    λ ls kids.
        let now = node-Kept op ks ls b h kids in
        Kept-trans (node op ks) (node op ls) (trivial (node op ls)) now
          (trivial-Kept (node op ls) now.0),
  )
  | inr b ↦ rw b (h, λ env. refl)
]

-- `simplify` ends on every well-formed expression with no equivalence among its Boolean operators,
-- and its result is again such an expression with the same truth value under every environment.
pub simplify_correct :
    (e : Expr)
    → IsGood e
    → (r : Expr) × (simplify e ≡ some r) × (IsGood r × ((env : Env) → eval env r ≡ eval env e))
unfolding simplify
simplify_correct e h =
    visit_rule (bs trivial) IsGood Kept size bs-Promise (suc (size e)) e (omega arith) h
