-- ===== src/Expr/Gather/Flat.antt =====
-- The shape that `gather` leaves: no junction directly under the same one, and no constants.
use seahorn.Prelude.{
  ◌≡◌, ◌≢◌, refl, Bool, false, Option, some, none, arith, Bool-cases, inl, inr, if◌then◌else◌,
}
use seahorn.Expr.Syntax.{
  Op, Expr, Args, node, nil, cons, and_op, or_op, other, tru, fls, IsWf, AllWf, arity, op_of,
  args_of, ◌≟◌, ≟-refl,
}
use seahorn.Expr.Visitor.{◌>>=◌}
use seahorn.Expr.Visitor.Rule.{AllKids}
use seahorn.Expr.Gather.{
  Junction, conj, disj, op, top, bot, same_op, insert, add_arg, add_args, collect, conclude,
}
use seahorn.Expr.Gather.Sets.{same_op→≡, same_op_refl}

abbrev pub IsInner : Op → Expr → Type 0
IsInner o k = (op_of k ≢ o) × (k ≢ tru) × (k ≢ fls)

-- Below AND and OR: no argument with the operator of the node, no constant, not a single argument.
abbrev mutual
  pub IsFlat : Expr → Type 0
  IsFlat (node and_op ks) = AllFlat ks × (AllKids (IsInner and_op) ks) × (arity ks ≢ 1)
  IsFlat (node or_op ks) = AllFlat ks × (AllKids (IsInner or_op) ks) × (arity ks ≢ 1)
  IsFlat (node (other k) ks) = Unit
  IsFlat (node _ ks) = AllFlat ks

  pub AllFlat : Args → Type 0
  AllFlat nil = Unit
  AllFlat (cons x ks) = IsFlat x × AllFlat ks

abbrev pub Elem : Junction → Expr → Type 0
Elem j k = (IsWf k × IsFlat k) × IsInner (op j) k

AllElem-wf : (j : Junction) (ks : Args) → AllKids (Elem j) ks → AllWf ks × AllFlat ks
AllElem-wf j nil h = (tt, tt)
AllElem-wf j (cons x ks) h = let (w, f) = AllElem-wf j ks h.1 in ((h.0.0.0, w), (h.0.0.1, f))

AllElem-IsInner : (j : Junction) (ks : Args) → AllKids (Elem j) ks → AllKids (IsInner (op j)) ks
AllElem-IsInner j nil h = tt
AllElem-IsInner j (cons x ks) h = (h.0.1, AllElem-IsInner j ks h.1)

AllElem-intro :
    (j : Junction) (ks : Args)
    → AllWf ks
    → AllFlat ks
    → AllKids (IsInner (op j)) ks
    → AllKids (Elem j) ks
AllElem-intro j nil w f h = tt
AllElem-intro j (cons x ks) w f h = (((w.0, f.0), h.0), AllElem-intro j ks w.1 f.1 h.1)

args_of-Elem :
    (j : Junction) (a : Expr) → op j ≡ op_of a → IsWf a → IsFlat a → AllKids (Elem j) (args_of a)
args_of-Elem conj (node and_op ks) h w f = AllElem-intro conj ks w.1 f.0 f.1
args_of-Elem conj (node _ ks) h w f = cc
args_of-Elem disj (node or_op ks) h w f = AllElem-intro disj ks w.1 f.0 f.1
args_of-Elem disj (node _ ks) h w f = cc

module _ (before : Expr → Expr → Bool) (j : Junction) where
  abbrev pub AllElem : Args → Type 0
  AllElem ks = AllKids (Elem j) ks

  abbrev pub Set : Option Args → Type 0
  Set none = Unit
  Set (some ks) = AllElem ks

  insert-AllElem : (a : Expr) (ks : Args) → Elem j a → AllElem ks → AllElem (insert before a ks)
  unfolding insert
  insert-AllElem a nil h hs = (h, tt)
  insert-AllElem a (cons x ks) h (hx, hs) = elim (Bool-cases (before a x)) [
    | inl b ↦ rw b (h, (hx, hs))
    | inr b ↦ rw b (elim (Bool-cases (before x a)) [
      | inl c ↦ rw c (hx, insert-AllElem a ks h hs)
      | inr c ↦ rw c (hx, hs)
    ])
  ]

  Tested : Expr → Type 0
  Tested a = (a ≟ bot j) ≡ false → (a ≟ top j) ≡ false → Elem j a

  add_arg-Set : (a : Expr) (ks : Args) → Tested a → AllElem ks → Set (add_arg before j a ks)
  unfolding add_arg Tested
  add_arg-Set a ks el h = elim (Bool-cases (a ≟ bot j)) [
    | inl b ↦ rw b tt
    | inr b ↦ rw b (elim (Bool-cases (a ≟ top j)) [
      | inl t ↦ rw t h
      | inr t ↦ rw t (insert-AllElem a ks (el b t) h)
    ])
  ]

  bind-Set :
      (o : Option Args) (f : Args → Option Args)
      → Set o
      → ((set : Args) → AllElem set → Set (f set))
      → Set (o >>= f)
  bind-Set none f h k = tt
  bind-Set (some set) f h k = k set h

  add_args-Set : (ks set : Args) → AllElem ks → AllElem set → Set (add_args before j ks set)
  unfolding add_args Tested
  add_args-Set nil set h hs = hs
  add_args-Set (cons a ks) set h hs =
      bind-Set (add_arg before j a set) (add_args before j ks) (add_arg-Set a set (λ b t. h.0) hs)
        (λ set' hs'. add_args-Set ks set' h.1 hs')

  IsInner-tests :
      (a : Expr)
      → same_op (op j) (op_of a) ≡ false
      → (a ≟ tru) ≡ false
      → (a ≟ fls) ≡ false
      → IsInner (op j) a
  IsInner-tests a o t f =
      (λ e. cc (same_op_refl (op j)), λ e. cc (≟-refl tru), λ e. cc (≟-refl fls))

Tested-intro :
    (before : Expr → Expr → Bool) (j : Junction) (a : Expr)
    → IsWf a
    → IsFlat a
    → same_op (op j) (op_of a) ≡ false
    → Tested before j a
unfolding Tested
Tested-intro before conj a w f o b t = ((w, f), IsInner-tests before conj a o t b)
Tested-intro before disj a w f o b t = ((w, f), IsInner-tests before disj a o b t)

pub collect-Set :
    (before : Expr → Expr → Bool) (j : Junction) (ks set : Args)
    → AllWf ks
    → AllFlat ks
    → AllKids (Elem j) set
    → Set before j (collect before j ks set)
unfolding collect
collect-Set before j nil set w f hs = hs
collect-Set before j (cons a ks) set w f hs =
    bind-Set before j
      (if same_op (op j) (op_of a)
        then add_args before j (args_of a) set
        else add_arg before j a set)
      (collect before j ks)
      (elim (Bool-cases (same_op (op j) (op_of a))) [
        | inl o ↦ rw o (
            add_args-Set before j (args_of a) set
              (args_of-Elem j a (same_op→≡ (op j) (op_of a) o) w.0 f.0) hs)
        | inr o ↦ rw o (add_arg-Set before j a set (Tested-intro before j a w.0 f.0 o) hs)
      ])
      (λ set' hs'. collect-Set before j ks set' w.1 f.1 hs')

pub conclude-IsFlat :
    (before : Expr → Expr → Bool) (j : Junction) (o : Option Args)
    → Set before j o
    → IsWf (conclude before j o) × IsFlat (conclude before j o)
unfolding conclude
conclude-IsFlat before conj none h = ((refl, tt), tt)
conclude-IsFlat before disj none h = ((refl, tt), tt)
conclude-IsFlat before conj (some nil) h = ((refl, tt), tt)
conclude-IsFlat before disj (some nil) h = ((refl, tt), tt)
conclude-IsFlat before j (some (cons a nil)) h = h.0.0
conclude-IsFlat before conj (some (cons a (cons b ks))) h =
    let (w, f) = AllElem-wf conj (cons a (cons b ks)) h in
    ((tt, w), (f, AllElem-IsInner conj (cons a (cons b ks)) h, omega arith))
conclude-IsFlat before disj (some (cons a (cons b ks))) h =
    let (w, f) = AllElem-wf disj (cons a (cons b ks)) h in
    ((tt, w), (f, AllElem-IsInner disj (cons a (cons b ks)) h, omega arith))
