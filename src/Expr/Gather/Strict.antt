-- ===== src/Expr/Gather/Strict.antt =====
-- `gather` brings no Boolean operator into a term, and leaves atoms under NEG alone.
use seahorn.Prelude.{
  ◌∙◌, suc, ◌≡◌, Bool, true, Option, none, some, arith, Bool-cases, inl, inr, if◌then◌else◌, sym,
  subst,
}
use seahorn.Expr.Syntax.{
  Op, Expr, Args, node, nil, cons, and_op, or_op, neg_op, other, is_bool_op, op_of, args_of, size,
  IsWf, ◌≟◌,
}
use seahorn.Expr.Visitor.{◌>>=◌}
use seahorn.Expr.Visitor.Rule.{Kids, none_left, next, Promise, visit_rule}
use seahorn.Expr.Simplifier.{bs}
use seahorn.Expr.Rewriting.{args-below}
use seahorn.Expr.Nnf.Strict.{IsAtom, IsStrict, AllStrict}
use seahorn.Expr.Gather.{
  Junction, conj, disj, op, top, bot, same_op, insert, add_arg, add_args, collect, conclude,
  gather_op, gather,
}
use seahorn.Expr.Gather.Sets.{same_op→≡}

abbrev Kept : Option Args → Type 0
Kept none = Unit
Kept (some ks) = AllStrict ks

args_of-AllStrict : (j : Junction) (a : Expr) → op j ≡ op_of a → IsStrict a → AllStrict (args_of a)
args_of-AllStrict conj (node and_op ks) e h = h
args_of-AllStrict conj (node _ ks) e h = cc
args_of-AllStrict disj (node or_op ks) e h = h
args_of-AllStrict disj (node _ ks) e h = cc

module _ (before : Expr → Expr → Bool) (j : Junction) where
  insert-AllStrict :
      (a : Expr) (ks : Args) → IsStrict a → AllStrict ks → AllStrict (insert before a ks)
  unfolding insert
  insert-AllStrict a nil h hs = (h, tt)
  insert-AllStrict a (cons x ks) h (hx, hs) = elim (Bool-cases (before a x)) [
    | inl b ↦ rw b (h, (hx, hs))
    | inr b ↦ rw b (elim (Bool-cases (before x a)) [
      | inl c ↦ rw c (hx, insert-AllStrict a ks h hs)
      | inr c ↦ rw c (hx, hs)
    ])
  ]

  add_arg-Kept : (a : Expr) (ks : Args) → IsStrict a → AllStrict ks → Kept (add_arg before j a ks)
  unfolding add_arg
  add_arg-Kept a ks h hs = elim (Bool-cases (a ≟ bot j)) [
    | inl b ↦ rw b tt
    | inr b ↦ rw b (elim (Bool-cases (a ≟ top j)) [
      | inl t ↦ rw t hs
      | inr t ↦ rw t (insert-AllStrict a ks h hs)
    ])
  ]

  bind-Kept :
      (o : Option Args) (f : Args → Option Args)
      → Kept o
      → ((set : Args) → AllStrict set → Kept (f set))
      → Kept (o >>= f)
  bind-Kept none f h k = tt
  bind-Kept (some set) f h k = k set h

  add_args-Kept : (ks set : Args) → AllStrict ks → AllStrict set → Kept (add_args before j ks set)
  unfolding add_args
  add_args-Kept nil set h hs = hs
  add_args-Kept (cons a ks) set h hs =
      bind-Kept (add_arg before j a set) (add_args before j ks) (add_arg-Kept a set h.0 hs)
        (λ set' hs'. add_args-Kept ks set' h.1 hs')

  collect-Kept : (ks set : Args) → AllStrict ks → AllStrict set → Kept (collect before j ks set)
  unfolding collect
  collect-Kept nil set h hs = hs
  collect-Kept (cons a ks) set h hs =
      bind-Kept
        (if same_op (op j) (op_of a)
          then add_args before j (args_of a) set
          else add_arg before j a set)
        (collect before j ks)
        (elim (Bool-cases (same_op (op j) (op_of a))) [
          | inl o ↦ rw o (
              add_args-Kept (args_of a) set
                (args_of-AllStrict j a (same_op→≡ (op j) (op_of a) o) h.0) hs)
          | inr o ↦ rw o (add_arg-Kept a set h.0 hs)
        ])
        (λ set' hs'. collect-Kept ks set' h.1 hs')

conclude-IsStrict :
    (before : Expr → Expr → Bool) (j : Junction) (o : Option Args)
    → Kept o
    → IsStrict (conclude before j o)
unfolding conclude
conclude-IsStrict before conj none h = tt
conclude-IsStrict before disj none h = tt
conclude-IsStrict before conj (some nil) h = tt
conclude-IsStrict before disj (some nil) h = tt
conclude-IsStrict before j (some (cons a nil)) h = h.0
conclude-IsStrict before conj (some (cons a (cons b ks))) h = h
conclude-IsStrict before disj (some (cons a (cons b ks))) h = h

-- A strict term becomes a strict one, and an atom an atom.
abbrev Gathered : Expr → Expr → Type 0
Gathered e r = (IsStrict e → IsStrict r) × (IsAtom e → IsAtom r)

Kids-AllStrict : {ks ls : Args} → Kids Gathered ks ls → AllStrict ks → AllStrict ls
Kids-AllStrict none_left h = tt
Kids-AllStrict (next p q) h = (p.0 h.0, Kids-AllStrict q h.1)

module _ (before : Expr → Expr → Bool) where
  junction-IsStrict :
      (j : Junction) (ks ls : Args)
      → Kids Gathered ks ls
      → AllStrict ks
      → IsStrict (conclude before j (collect before j ls nil))
  junction-IsStrict j ks ls kids h =
      conclude-IsStrict before j (collect before j ls nil)
        (collect-Kept before j ls nil (Kids-AllStrict kids h) tt)

  neg-IsStrict :
      (ks ls : Args) → Kids Gathered ks ls → IsStrict (node neg_op ks) → IsStrict (node neg_op ls)
  neg-IsStrict _ _ none_left h = h
  neg-IsStrict _ _ (next p none_left) h = p.1 h
  neg-IsStrict _ _ (next p (next q r)) h = absurd h

  gather_op-Gathered :
      (o : Op) (ks ls : Args)
      → is_bool_op (node o ks) ≡ true
      → Kids Gathered ks ls
      → Gathered (node o ks) (gather_op before (node o ls))
  unfolding gather_op
  gather_op-Gathered and_op ks nil b kids = (λ h. tt, λ h. absurd h)
  gather_op-Gathered and_op ks (cons y ls) b kids =
      (λ h. junction-IsStrict conj ks (cons y ls) kids h, λ h. absurd h)
  gather_op-Gathered or_op ks nil b kids = (λ h. tt, λ h. absurd h)
  gather_op-Gathered or_op ks (cons y ls) b kids =
      (λ h. junction-IsStrict disj ks (cons y ls) kids h, λ h. absurd h)
  gather_op-Gathered neg_op ks nil b kids = (λ h. neg-IsStrict ks nil kids h, λ h. absurd h)
  gather_op-Gathered neg_op ks (cons y ls) b kids =
      (λ h. neg-IsStrict ks (cons y ls) kids h, λ h. absurd h)
  gather_op-Gathered (other k) ks ls b kids = cc
  gather_op-Gathered _ ks nil b kids = (λ h. h, λ h. absurd h)
  gather_op-Gathered _ ks (cons y ls) b kids = (λ h. h, λ h. absurd h)

  bs-Gathered :
      (e : Expr)
      → IsWf e
      → Promise (bs (gather_op before)) IsWf Gathered size e (bs (gather_op before) e)
  unfolding bs
  bs-Gathered (node o ks) h = elim (Bool-cases (is_bool_op (node o ks))) [
    | inl b ↦ rw b (args-below ks _ (omega arith) h.1, λ ls kids. gather_op-Gathered o ks ls b kids)
    | inr b ↦ rw b (λ s. s, λ a. a)
  ]

  pub gather-IsStrict : (e r : Expr) → IsWf e → gather before e ≡ some r → IsStrict e → IsStrict r
  unfolding gather
  gather-IsStrict e r w h strict =
      let (s, done, kept) =
        visit_rule (bs (gather_op before)) IsWf Gathered size bs-Gathered (suc (size e)) e
          (omega arith) w in
      subst IsStrict (let same : some s ≡ some r = sym done ∙ h in cc) (kept.0 strict)
