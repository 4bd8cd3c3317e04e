-- ===== src/Expr/Nnf/Strict.antt =====
-- `nnf` of terms whose Boolean operators are AND, OR and NEG, as lib/seahorn/Smt/ExprUtil.cc assumes.
use seahorn.Prelude.{
  ◌<◌, ℕ, suc, ◌≤◌, ◌≡◌, false, some, arith, Bool-cases, inl, inr, ◌∙◌, sym, subst,
}
use seahorn.Expr.Syntax.{
  Expr, Args, node, nil, cons, true_op, false_op, and_op, or_op, neg_op, other, tru, fls, mk_neg,
  size, size_args, IsWf, AllWf, ◌≟◌, ≟-refl,
}
use seahorn.Expr.BoolOps.{lneg}
use seahorn.Expr.Visitor.{Action}
use seahorn.Expr.Visitor.Rule.{Kids, none_left, next, AllKids, Promise, visit_rule}
use seahorn.Expr.Simplifier.{trivial}
use seahorn.Expr.Simplifier.Shape.{simplify_or_rule, simplify_and_rule}
use seahorn.Expr.Rewriting.{args-below}
use seahorn.Expr.Nnf.{negate_args, push_op, push_neg, nnf_action, nnf}

lneg-IsWf : (x : Expr) → IsWf x → (IsWf (lneg x)) × (size (lneg x) ≤ suc (size x))
unfolding lneg
lneg-IsWf (node neg_op nil) w = absurd (omega arith)
lneg-IsWf (node neg_op (cons x ks)) w = (w.1.0, omega arith)
lneg-IsWf (node op ks) w = ground arith

pub negate_args-below :
    (ks : Args) (m : ℕ)
    → suc (size_args ks) < m
    → AllWf ks
    → AllKids (λ k. IsWf k × (size k < m)) (negate_args ks)
unfolding negate_args
negate_args-below nil m h w = tt
negate_args-below (cons x ks) m h w =
    let (wx, sx) = lneg-IsWf x w.0 in ((wx, omega arith), negate_args-below ks m (omega arith) w.1)

-- Down to the atoms, the Boolean operators are AND, OR, NEG and the constants.
abbrev mutual
  pub IsAndOrNeg : Expr → Type 0
  IsAndOrNeg (node and_op ks) = AllAndOrNeg ks
  IsAndOrNeg (node or_op ks) = AllAndOrNeg ks
  IsAndOrNeg (node neg_op ks) = AllAndOrNeg ks
  IsAndOrNeg (node true_op ks) = Unit
  IsAndOrNeg (node false_op ks) = Unit
  IsAndOrNeg (node (other k) ks) = Unit
  IsAndOrNeg _ = ⊥

  pub AllAndOrNeg : Args → Type 0
  AllAndOrNeg nil = Unit
  AllAndOrNeg (cons x ks) = IsAndOrNeg x × AllAndOrNeg ks

abbrev pub IsAtom : Expr → Type 0
IsAtom (node (other k) ks) = Unit
IsAtom _ = ⊥

-- The only Boolean operators are AND, OR, the constants, and NEG on atoms.
abbrev mutual
  pub IsStrict : Expr → Type 0
  IsStrict (node and_op ks) = AllStrict ks
  IsStrict (node or_op ks) = AllStrict ks
  IsStrict (node neg_op (cons x nil)) = IsAtom x
  IsStrict (node true_op ks) = Unit
  IsStrict (node false_op ks) = Unit
  IsStrict (node (other k) ks) = Unit
  IsStrict _ = ⊥

  pub AllStrict : Args → Type 0
  AllStrict nil = Unit
  AllStrict (cons x ks) = IsStrict x × AllStrict ks

abbrev Pushed : Expr → Expr → Type 0
Pushed e r = IsAndOrNeg e → IsStrict r

pub AllStrict-AllKids : (ks : Args) → AllStrict ks → AllKids IsStrict ks
AllStrict-AllKids nil h = tt
AllStrict-AllKids (cons x ks) h = (h.0, AllStrict-AllKids ks h.1)

Kids-AllStrict : {ks ls : Args} → Kids Pushed ks ls → AllAndOrNeg ks → AllStrict ls
Kids-AllStrict none_left h = tt
Kids-AllStrict (next p q) h = (p h.0, Kids-AllStrict q h.1)

conjunction_lem :
    {ks ls : Args} → Kids Pushed ks ls → AllAndOrNeg ks → IsStrict (trivial (node and_op ls))
unfolding trivial
conjunction_lem {ls} kids h =
    let all = Kids-AllStrict kids h in
    simplify_and_rule IsStrict tt tt ls (AllStrict-AllKids ls all) all

disjunction_lem :
    {ks ls : Args} → Kids Pushed ks ls → AllAndOrNeg ks → IsStrict (trivial (node or_op ls))
unfolding trivial
disjunction_lem {ls} kids h =
    let all = Kids-AllStrict kids h in
    simplify_or_rule IsStrict tt tt ls (AllStrict-AllKids ls all) all

lneg-IsAndOrNeg : (x : Expr) → IsWf x → IsAndOrNeg x → IsAndOrNeg (lneg x)
unfolding lneg
lneg-IsAndOrNeg (node neg_op nil) w h = absurd (omega arith)
lneg-IsAndOrNeg (node neg_op (cons x ks)) w h = h.0
lneg-IsAndOrNeg (node op ks) w h = ground arith

negate_args-AllAndOrNeg : (ks : Args) → AllWf ks → AllAndOrNeg ks → AllAndOrNeg (negate_args ks)
unfolding negate_args
negate_args-AllAndOrNeg nil w h = tt
negate_args-AllAndOrNeg (cons x ks) w h =
    (lneg-IsAndOrNeg x w.0 h.0, negate_args-AllAndOrNeg ks w.1 h.1)

abbrev Promises : Expr → Action → Type 0
Promises = Promise nnf_action IsWf Pushed size

push_op-Pushed :
    (x : Expr) → IsWf x → (x ≟ tru) ≡ false → (x ≟ fls) ≡ false → Promises (mk_neg x) (push_op x)
unfolding push_op
push_op-Pushed (node neg_op nil) w t f = absurd (omega arith)
push_op-Pushed (node neg_op (cons x nil)) w t f =
    (((w.1.0, omega arith), tt), λ ls kids h. conjunction_lem kids h.0)
push_op-Pushed (node neg_op (cons x (cons y ks))) w t f = absurd (omega arith)
push_op-Pushed (node or_op ks) w t f = (
  negate_args-below ks _ (omega arith) w.1,
  λ ls kids h. conjunction_lem kids (negate_args-AllAndOrNeg ks w.1 h.0),
)
push_op-Pushed (node and_op ks) w t f = (
  negate_args-below ks _ (omega arith) w.1,
  λ ls kids h. disjunction_lem kids (negate_args-AllAndOrNeg ks w.1 h.0),
)
push_op-Pushed (node true_op nil) w t f = cc (≟-refl tru)
push_op-Pushed (node false_op nil) w t f = cc (≟-refl fls)
push_op-Pushed (node true_op (cons x ks)) w t f = absurd (omega arith)
push_op-Pushed (node false_op (cons x ks)) w t f = absurd (omega arith)
push_op-Pushed (node _ ks) w t f = λ h. h.0

push_neg-Pushed : (x : Expr) → IsWf x → Promises (mk_neg x) (push_neg x)
unfolding push_neg
push_neg-Pushed x w = elim (Bool-cases (x ≟ fls)) [
  | inl f ↦ rw f (λ h. tt)
  | inr f ↦ rw f (elim (Bool-cases (x ≟ tru)) [
    | inl t ↦ rw t (λ h. tt)
    | inr t ↦ rw t (push_op-Pushed x w t f)
  ])
]

nnf_action-Pushed : (e : Expr) → IsWf e → Promises e (nnf_action e)
unfolding nnf_action
nnf_action-Pushed (node neg_op nil) w = absurd (omega arith)
nnf_action-Pushed (node _ nil) w = λ h. h
nnf_action-Pushed (node and_op (cons x ks)) w =
    (args-below (cons x ks) _ (omega arith) w.1, λ ls kids h. conjunction_lem kids h)
nnf_action-Pushed (node or_op (cons x ks)) w =
    (args-below (cons x ks) _ (omega arith) w.1, λ ls kids h. disjunction_lem kids h)
nnf_action-Pushed (node neg_op (cons x nil)) w = push_neg-Pushed x w.1.0
nnf_action-Pushed (node neg_op (cons x (cons y ks))) w = absurd (omega arith)
nnf_action-Pushed (node _ (cons x ks)) w = λ h. h

pub nnf-IsStrict : (e r : Expr) → IsWf e → nnf e ≡ some r → IsAndOrNeg e → IsStrict r
unfolding nnf
nnf-IsStrict e r w h only =
    let (s, done, strict) =
      visit_rule nnf_action IsWf Pushed size nnf_action-Pushed (suc (size e)) e (omega arith) w in
    subst IsStrict (let same : some s ≡ some r = sym done ∙ h in cc) (strict only)
