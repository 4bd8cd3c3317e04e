-- ===== src/Expr/Nnf/Correct.antt =====
-- `nnf` ends, keeps the truth value, and pushes negations down through AND, OR and NEG.
use seahorn.Prelude.{suc, ◌≡◌, refl, false, not, some, arith, ap, ◌∙◌, Bool-cases, inl, inr}
use seahorn.Expr.Syntax.{
  Expr, Args, node, nil, cons, true_op, false_op, and_op, or_op, neg_op, tru, fls, mk_neg, size,
  IsWf, AllWf, ◌≟◌, ≟→≡, ≟-refl,
}
use seahorn.Expr.Meaning.{Env, eval, eval_args, all_true, any_true}
use seahorn.Expr.BoolOps.Sound.{eval-lneg}
use seahorn.Expr.Visitor.{Action}
use seahorn.Expr.Visitor.Rule.{Kids, none_left, next, Promise, visit_rule}
use seahorn.Expr.Simplifier.{trivial}
use seahorn.Expr.Simplifier.Shape.{simplify_or_rule, simplify_and_rule}
use seahorn.Expr.Simplifier.Sound.{eval-simplify_and, eval-simplify_or}
use seahorn.Expr.Rewriting.{Same, args-below, Kids-AllKids, Kids-eval_args}
use seahorn.Expr.Nnf.Strict.{IsAndOrNeg, IsStrict, nnf-IsStrict, negate_args-below}
use seahorn.Expr.Nnf.{negate_args, push_op, push_neg, nnf_action, nnf}

-- What a negation may stand on: no constant, no negation, no AND and no OR.
abbrev pub IsOpaque : Expr → Type 0
IsOpaque (node true_op nil) = ⊥
IsOpaque (node false_op nil) = ⊥
IsOpaque (node neg_op ks) = ⊥
IsOpaque (node and_op ks) = ⊥
IsOpaque (node or_op ks) = ⊥
IsOpaque _ = Unit

-- Below the ANDs and ORs at the top of a term, a negation stands on an opaque term. Nothing is said of
-- what lies below other operators, into which the code does not descend.
abbrev mutual
  pub IsNnf : Expr → Type 0
  IsNnf (node and_op ks) = AllNnf ks
  IsNnf (node or_op ks) = AllNnf ks
  IsNnf (node neg_op (cons x ks)) = IsOpaque x
  IsNnf _ = Unit

  pub AllNnf : Args → Type 0
  AllNnf nil = Unit
  AllNnf (cons x ks) = IsNnf x × AllNnf ks

abbrev Normal : Expr → Expr → Type 0
Normal e r = (IsWf r × IsNnf r) × Same e r

Kids-AllNormal : {ks ls : Args} → Kids Normal ks ls → AllWf ls × AllNnf ls
Kids-AllNormal none_left = (tt, tt)
Kids-AllNormal (next p q) = let (w, f) = Kids-AllNormal q in ((p.0.0, w), (p.0.1, f))

-- De Morgan's laws.
eval-negate_args :
    (env : Env) (ks : Args)
    → AllWf ks
    → (all_true (eval_args env (negate_args ks)) ≡ not (any_true (eval_args env ks)))
      × (any_true (eval_args env (negate_args ks)) ≡ not (all_true (eval_args env ks)))
unfolding negate_args eval
eval-negate_args env nil w = (refl, refl)
eval-negate_args env (cons x ks) w =
    ground (arith, eval-lneg env x w.0, eval-negate_args env ks w.1)

abbrev IsNormal : Expr → Type 0
IsNormal r = IsWf r × IsNnf r

IsNormal-tru : IsNormal tru
IsNormal-tru = ((refl, tt), tt)

IsNormal-fls : IsNormal fls
IsNormal-fls = ((refl, tt), tt)

-- The simplifier after the arguments of AND or OR were brought into normal form.
trivial-and :
    {ks ls : Args}
    → Kids Normal ks ls
    → IsNormal (trivial (node and_op ls))
      × ((env : Env) → eval env (trivial (node and_op ls)) ≡ all_true (eval_args env ks))
unfolding trivial
trivial-and {ls} kids =
    let (w, f) = Kids-AllNormal kids in
    (
      simplify_and_rule IsNormal IsNormal-tru IsNormal-fls ls
          (Kids-AllKids Normal IsNormal (λ x y p. p.0) kids) ((tt, w), f),
      λ env.
          eval-simplify_and env ls w ∙ ap all_true (Kids-eval_args Normal env (λ x y p. p.1) kids),
    )

trivial-or :
    {ks ls : Args}
    → Kids Normal ks ls
    → IsNormal (trivial (node or_op ls))
      × ((env : Env) → eval env (trivial (node or_op ls)) ≡ any_true (eval_args env ks))
unfolding trivial
trivial-or {ls} kids =
    let (w, f) = Kids-AllNormal kids in
    (
      simplify_or_rule IsNormal IsNormal-tru IsNormal-fls ls
          (Kids-AllKids Normal IsNormal (λ x y p. p.0) kids) ((tt, w), f),
      λ env.
          eval-simplify_or env ls w ∙ ap any_true (Kids-eval_args Normal env (λ x y p. p.1) kids),
    )

abbrev Promises : Expr → Action → Type 0
Promises = Promise nnf_action IsWf Normal size

push_op-Promise :
    (x : Expr) → IsWf x → (x ≟ tru) ≡ false → (x ≟ fls) ≡ false → Promises (mk_neg x) (push_op x)
unfolding push_op eval
push_op-Promise (node neg_op nil) w t f = absurd (omega arith)
push_op-Promise (node neg_op (cons x nil)) w t f = (
  ((w.1.0, omega arith), tt),
  λ ls kids. let (n, same) = trivial-and kids in (n, λ env. same env ∙ ground arith),
)
push_op-Promise (node neg_op (cons x (cons y ks))) w t f = absurd (omega arith)
push_op-Promise (node or_op ks) w t f = (
  negate_args-below ks _ (omega arith) w.1,
  λ ls kids.
      let (n, same) = trivial-and kids in (n, λ env. same env ∙ (eval-negate_args env ks w.1).0),
)
push_op-Promise (node and_op ks) w t f = (
  negate_args-below ks _ (omega arith) w.1,
  λ ls kids.
      let (n, same) = trivial-or kids in (n, λ env. same env ∙ (eval-negate_args env ks w.1).1),
)
push_op-Promise (node true_op nil) w t f = cc (≟-refl tru)
push_op-Promise (node false_op nil) w t f = cc (≟-refl fls)
push_op-Promise (node true_op (cons x ks)) w t f = absurd (omega arith)
push_op-Promise (node false_op (cons x ks)) w t f = absurd (omega arith)
push_op-Promise (node _ ks) w t f = (((refl, (w, tt)), tt), λ env. refl)

push_neg-Promise : (x : Expr) → IsWf x → Promises (mk_neg x) (push_neg x)
unfolding push_neg eval
push_neg-Promise x w = elim (Bool-cases (x ≟ fls)) [
  | inl f ↦ rw f (IsNormal-tru, λ env. ground (arith, ≟→≡ x fls))
  | inr f ↦ rw f (elim (Bool-cases (x ≟ tru)) [
    | inl t ↦ rw t (IsNormal-fls, λ env. ground (arith, ≟→≡ x tru))
    | inr t ↦ rw t (push_op-Promise x w t f)
  ])
]

nnf_action-Promise : (e : Expr) → IsWf e → Promises e (nnf_action e)
unfolding nnf_action eval
nnf_action-Promise (node and_op nil) w = ((w, tt), λ env. refl)
nnf_action-Promise (node or_op nil) w = ((w, tt), λ env. refl)
nnf_action-Promise (node neg_op nil) w = absurd (omega arith)
nnf_action-Promise (node _ nil) w = ((w, tt), λ env. refl)
nnf_action-Promise (node and_op (cons x ks)) w =
    (args-below (cons x ks) _ (omega arith) w.1, λ ls kids. trivial-and kids)
nnf_action-Promise (node or_op (cons x ks)) w =
    (args-below (cons x ks) _ (omega arith) w.1, λ ls kids. trivial-or kids)
nnf_action-Promise (node neg_op (cons x nil)) w = push_neg-Promise x w.1.0
nnf_action-Promise (node neg_op (cons x (cons y ks))) w = absurd (omega arith)
nnf_action-Promise (node _ (cons x ks)) w = ((w, tt), λ env. refl)

-- On a well-formed expression `nnf` ends; its result is well-formed and has the same truth value under
-- every environment; below the ANDs and ORs at its top, negations stand only on terms that are no
-- constant, no negation, no AND and no OR; and if AND, OR, NEG and the constants are the only Boolean
-- operators of the expression, down to its atoms, then AND, OR, the constants and NEG on atoms are those
-- of the result.
pub nnf_correct :
    (e : Expr)
    → IsWf e
    → (r : Expr) × (nnf e ≡ some r)
      × ((IsWf r × IsNnf r) × ((env : Env) → eval env r ≡ eval env e))
      × (IsAndOrNeg e → IsStrict r)
unfolding nnf
nnf_correct e w =
    let (r, done, normal) =
      visit_rule nnf_action IsWf Normal size nnf_action-Promise (suc (size e)) e (omega arith) w in
    (r, done, normal, nnf-IsStrict e r w done)
