-- ===== src/HornModel/Rename.antt =====
-- Arguments renamed to bound variables, and these to arguments again.
use seahorn.Prelude.{
  ◌*◌, ℕ, arith, ◌+◌, ◌≡◌, refl, inl, inr, some, if◌then◌else◌, Bool-cases, Option-cases, subst, ap,
  ap₂, sym, ◌∙◌, decided→,
}
use seahorn.Expr.Syntax.{
  Op, op_of, args_of, Expr, Args, node, nil, cons, other, arity, ◌≟◌, Expr-discrete,
}
use seahorn.Expr.Visitor.{find}
use seahorn.Expr.Replace.Correct.{substitute, substitute_args, substitute_missing, substitute_found}
use seahorn.HornModel.{bind_op}
use seahorn.HornModel.Lookup.{
  IsBvar, IsOpen, AllOpen, pairs, to_bvars, from_bvars, find-from_bvars_open, find_missing,
  find_found, some_injective,
}

abbrev first_arg : Expr → Expr
first_arg (node op nil) = node op nil
first_arg (node op (cons x ks)) = x

-- A term that becomes the index of a bound variable was it before.
index_before :
    (tys xs : Args) (x : Expr) (i : ℕ)
    → arity xs ≡ arity tys
    → substitute (to_bvars 0 tys xs) x ≡ node (other (3 + 2 * i)) nil
    → x ≡ node (other (3 + 2 * i)) nil
unfolding substitute
index_before tys xs (node o ls) i as_many e =
    elim (Option-cases (find (node o ls) (to_bvars 0 tys xs))) [
      | inl missing ↦ same_leaf o ls (sym (substitute_missing (to_bvars 0 tys xs) o ls missing) ∙ e)
      | inr (t, found) ↦
          let (b, in_pairs, in_bvars, (j, ty, le, is_bvar)) =
            find_found (node o ls) t 0 tys xs xs as_many as_many found in
          let sizes =
            ap (λ u. arity (args_of u))
              (sym is_bvar ∙ sym (substitute_found (to_bvars 0 tys xs) o ls t found) ∙ e) in
          absurd (omega (arith, sizes))
    ]
  where
    same_leaf :
        (op : Op) (ks : Args)
        → node op (substitute_args (to_bvars 0 tys xs) ks) ≡ node (other (3 + 2 * i)) nil
        → node op ks ≡ node (other (3 + 2 * i)) nil
    same_leaf op nil q = q
    same_leaf op (cons y ks) q =
        let sizes = ap (λ u. arity (args_of u)) q in absurd (omega (arith, sizes))

-- Renaming the arguments of a term makes no bound variable of it.
none_new_lem :
    (tys xs : Args)
    → arity xs ≡ arity tys
    → (op : Op) (ks : Args) → ¬ IsBvar (node op ks)
    → ¬ IsBvar (node op (substitute_args (to_bvars 0 tys xs) ks))
unfolding substitute
none_new_lem tys xs as_many op nil n = n
none_new_lem tys xs as_many op (cons x nil) n =
    λ (i, ty, e). let sizes = ap (λ u. arity (args_of u)) e in absurd (omega (arith, sizes))
none_new_lem tys xs as_many op (cons x (cons y nil)) n = λ (i, ty, e).
    let index = index_before tys xs x i as_many (ap first_arg e) in
    n (i, y, ap₂ (λ o z. node o (cons z (cons y nil))) (ap op_of e) index)
none_new_lem tys xs as_many op (cons x (cons y (cons z ks))) n =
    λ (i, ty, e). let sizes = ap (λ u. arity (args_of u)) e in absurd (omega (arith, sizes))

-- To bound variables and on to other arguments: as if at once.
module _ (tys xs ys : Args) (as_many : arity xs ≡ arity tys) (as_many' : arity ys ≡ arity tys) where
  mutual
    unfolding IsOpen substitute

    pub substitute-substitute :
        (e : Expr)
        → IsOpen e
        → substitute (from_bvars 0 tys ys) (substitute (to_bvars 0 tys xs) e)
          ≡ substitute (pairs tys xs ys) e
    substitute-substitute (node op ks) (n, clear) =
        let m1 = to_bvars 0 tys xs in
        let m2 = from_bvars 0 tys ys in
        let m = pairs tys xs ys in
        elim (Option-cases (find (node op ks) m1)) [
          | inl missing ↦
              ap (substitute m2) (substitute_missing m1 op ks missing)
              ∙ substitute_missing m2 op (substitute_args m1 ks) (
                  find-from_bvars_open op (substitute_args m1 ks) 0 tys ys
                    (none_new_lem tys xs as_many op ks n))
              ∙ ap (node op) (substitute_args-substitute_args ks clear)
              ∙ sym (
                  substitute_missing m op ks
                    (find_missing (node op ks) 0 tys xs ys as_many as_many' missing))
          | inr (t, found) ↦
              let (b, in_pairs, in_bvars, (j, ty, le, is_bvar)) =
                find_found (node op ks) t 0 tys xs ys as_many as_many' found in
              ap (substitute m2) (substitute_found m1 op ks t found ∙ is_bvar)
              ∙ substitute_found m2 bind_op (cons (node (other (3 + 2 * j)) nil) (cons ty nil)) b
                  (subst (λ u. find u m2 ≡ some b) is_bvar in_bvars)
              ∙ sym (substitute_found m op ks b in_pairs)
        ]

    pub substitute_args-substitute_args :
        (ks : Args)
        → AllOpen ks
        → substitute_args (from_bvars 0 tys ys) (substitute_args (to_bvars 0 tys xs) ks)
          ≡ substitute_args (pairs tys xs ys) ks
    substitute_args-substitute_args nil h = refl
    substitute_args-substitute_args (cons x ks) h =
        ap₂ cons (substitute-substitute x h.0) (substitute_args-substitute_args ks h.1)

-- The arguments of an application to themselves: nothing changes.
find-pairs_self : (e t : Expr) (tys xs : Args) → find e (pairs tys xs xs) ≡ some t → t ≡ e
unfolding find ◌≟◌
find-pairs_self e t nil xs h = cc
find-pairs_self e t (cons ty tys) nil h = cc
find-pairs_self e t (cons ty tys) (cons a xs) h = elim (Bool-cases (e ≟ a)) [
  | inl same ↦
      let here : t ≡ a =
        some_injective (sym h ∙ ap (λ u. if u then some a else find e (pairs tys xs xs)) same) in
      here ∙ sym (decided→ (Expr-discrete e a) same)
  | inr further ↦
      find-pairs_self e t tys xs
        (subst (λ u. (if u then some a else find e (pairs tys xs xs)) ≡ some t) further h)
]

mutual
  unfolding substitute

  pub substitute_self : (tys xs : Args) (e : Expr) → substitute (pairs tys xs xs) e ≡ e
  substitute_self tys xs (node op ks) = elim (Option-cases (find (node op ks) (pairs tys xs xs))) [
    | inl missing ↦
        substitute_missing (pairs tys xs xs) op ks missing
        ∙ ap (node op) (substitute_args_self tys xs ks)
    | inr (t, found) ↦
        substitute_found (pairs tys xs xs) op ks t found
        ∙ find-pairs_self (node op ks) t tys xs found
  ]

  substitute_args_self : (tys xs : Args) (ks : Args) → substitute_args (pairs tys xs xs) ks ≡ ks
  substitute_args_self tys xs nil = refl
  substitute_args_self tys xs (cons x ks) =
      ap₂ cons (substitute_self tys xs x) (substitute_args_self tys xs ks)
