-- ===== src/Expr/Gather/Correct.antt =====
-- `gather` and `pp` end, keep the truth value, and leave no junction directly under the same one.
use seahorn.Prelude.{
  suc, ◌≡◌, refl, Bool, true, false, some, arith, sym, ◌∙◌, subst, Bool-cases, inl, inr,
}
use seahorn.Expr.Syntax.{
  Op, Expr, Args, node, nil, cons, and_op, or_op, other, is_bool_op, size, IsWf, AllWf, HasArity,
}
use seahorn.Expr.Meaning.{Env, eval, eval_args}
use seahorn.Expr.Visitor.Rule.{Kids, none_left, next, Promise, visit_rule}
use seahorn.Expr.Simplifier.{bs}
use seahorn.Expr.Rewriting.{Same, Kids-arity, eval-node, args-below}
use seahorn.Expr.Nnf.Strict.{IsAndOrNeg, IsStrict}
use seahorn.Expr.Nnf.Correct.{nnf_correct}
use seahorn.Expr.Gather.Strict.{gather-IsStrict}
use seahorn.Expr.Gather.{Junction, conj, disj, collect, conclude, gather_op, gather, pp}
use seahorn.Expr.Gather.Sets.{IsTotal, eval-collect, eval-conclude, joined}
use seahorn.Expr.Gather.Flat.{IsFlat, AllFlat, collect-Set, conclude-IsFlat}

abbrev Flat : Expr → Expr → Type 0
Flat e r = (IsWf r × IsFlat r) × Same e r

Kids-AllFlat : {ks ls : Args} → Kids Flat ks ls → AllWf ls × AllFlat ls
Kids-AllFlat none_left = (tt, tt)
Kids-AllFlat (next p q) = let (w, f) = Kids-AllFlat q in ((p.0.0, w), (p.0.1, f))

nil-IsFlat : (o : Op) → IsFlat (node o nil)
nil-IsFlat and_op = (tt, tt, omega arith)
nil-IsFlat or_op = (tt, tt, omega arith)
nil-IsFlat _ = tt

still_bool : (o : Op) (ks ls : Args) → is_bool_op (node o ks) ≡ true → is_bool_op (node o ls) ≡ true
still_bool (other k) ks ls b = b
still_bool _ ks ls b = refl

other-IsFlat : (o : Op) (ks : Args) → is_bool_op (node o ks) ≡ false → IsFlat (node o ks)
other-IsFlat (other k) ks b = tt
other-IsFlat and_op ks b = cc
other-IsFlat _ ks b = cc

module _ (before : Expr → Expr → Bool) (total : IsTotal before) where
  -- AND or OR over flat arguments.
  gathered :
      (j : Junction) (ls : Args)
      → AllWf ls
      → AllFlat ls
      → (IsWf (conclude before j (collect before j ls nil))
          × IsFlat (conclude before j (collect before j ls nil)))
        × ((env : Env)
            → eval env (conclude before j (collect before j ls nil)) ≡ joined j (eval_args env ls))
  unfolding eval
  gathered j ls w f = (
    conclude-IsFlat before j (collect before j ls nil) (collect-Set before j ls nil w f tt),
    λ env.
        eval-conclude before total env j (collect before j ls nil)
        ∙ eval-collect before total env j ls nil
        ∙ ground arith,
  )

  gather_op_lem :
      (o : Op) (ls : Args)
      → is_bool_op (node o ls) ≡ true
      → IsWf (node o ls)
      → AllFlat ls
      → Flat (node o ls) (gather_op before (node o ls))
  unfolding gather_op eval
  gather_op_lem o nil b w f = ((w, nil-IsFlat o), λ env. refl)
  gather_op_lem and_op (cons x ls) b w f = gathered conj (cons x ls) w.1 f
  gather_op_lem or_op (cons x ls) b w f = gathered disj (cons x ls) w.1 f
  gather_op_lem (other k) (cons x ls) b w f = cc
  gather_op_lem _ (cons x ls) b w f = ((w, f), λ env. refl)

  gather_op-Flat :
      (o : Op) (ks ls : Args)
      → is_bool_op (node o ks) ≡ true
      → IsWf (node o ks)
      → Kids Flat ks ls
      → Flat (node o ks) (gather_op before (node o ls))
  gather_op-Flat o ks ls b w kids =
      let (wf, flat) = Kids-AllFlat kids in
      let w' : IsWf (node o ls) = (subst (HasArity o) (sym (Kids-arity Flat kids)) w.0, wf) in
      let (shape, same) = gather_op_lem o ls (still_bool o ks ls b) w' flat in
      (shape, λ env. same env ∙ eval-node Flat o ks ls b (λ x y p. p.1) kids env)

  bs-Promise :
      (e : Expr)
      → IsWf e
      → Promise (bs (gather_op before)) IsWf Flat size e (bs (gather_op before) e)
  unfolding bs
  bs-Promise (node o ks) h = elim (Bool-cases (is_bool_op (node o ks))) [
    | inl b ↦ rw b (args-below ks _ (omega arith) h.1, λ ls kids. gather_op-Flat o ks ls b h kids)
    | inr b ↦ rw b ((h, other-IsFlat o ks b), λ env. refl)
  ]

-- On a well-formed expression `gather` ends; its result is well-formed, has the same truth value under
-- every environment, and no AND or OR in its Boolean structure has an argument that is a constant or
-- has the same operator, or has one argument only. The order of nodes is total.
pub gather_correct :
    (before : Expr → Expr → Bool) (e : Expr)
    → IsTotal before
    → IsWf e
    → (r : Expr) × (gather before e ≡ some r)
      × ((IsWf r × IsFlat r) × ((env : Env) → eval env r ≡ eval env e))
unfolding gather
gather_correct before e total w =
    visit_rule (bs (gather_op before)) IsWf Flat size (bs-Promise before total) (suc (size e)) e
      (omega arith) w

-- On a well-formed expression `pp`, which gathers the negation normal form, ends with a well-formed
-- flat expression of the same truth value under every environment; and if AND, OR, NEG and the constants
-- are the only Boolean operators of the expression, down to its atoms, then negations stand on atoms only
-- in the result. The order of nodes is total.
pub pp_correct :
    (before : Expr → Expr → Bool) (e : Expr)
    → IsTotal before
    → IsWf e
    → (r : Expr) × (pp before e ≡ some r)
      × ((IsWf r × IsFlat r) × ((env : Env) → eval env r ≡ eval env e))
      × (IsAndOrNeg e → IsStrict r)
unfolding pp
pp_correct before e total w =
    let (n, en, normal, strict) = nnf_correct e w in
    let (r, er, flat) = gather_correct before n total normal.0.0 in
    (
      r,
      ground arith,
      (flat.0, λ env. flat.1 env ∙ normal.1 env),
      λ only. gather-IsStrict before n r normal.0.0 er (strict only),
    )
