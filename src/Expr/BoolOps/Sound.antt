-- ===== src/Expr/BoolOps/Sound.antt =====
-- The constructors of ExprOpBool.hh build what the connectives mean.
use seahorn.Prelude.{
  ◌≡◌, refl, ◌∙◌, Bool, false, not, ◌&&◌, ◌||◌, List, [], ◌∷◌, if◌then◌else◌, Option, some, none,
  map, arith, ap, ◌≢◌,
}
use seahorn.Expr.Syntax.{Expr, node, cons, nil, IsWf, ≟→≡, neg_op}
use seahorn.Expr.Meaning.{Env, eval, eval_args, all_true}
use seahorn.Expr.BoolOps.{
  land, lor, limp, lite, lneg, keep_conjuncts, mk_conjunction, land_range, of_list, conclude,
}

module _ (env : Env) where
  pub eval-land : (a b : Expr) → eval env (land a b) ≡ (eval env a && eval env b)
  unfolding land eval
  eval-land a b = ground (arith, ≟→≡ a b)

  pub eval-lor : (a b : Expr) → eval env (lor a b) ≡ (eval env a || eval env b)
  unfolding lor eval
  eval-lor a b = ground arith

  pub eval-limp : (a b : Expr) → eval env (limp a b) ≡ (not (eval env a) || eval env b)
  unfolding limp eval
  eval-limp a b = ground (arith, ≟→≡ a b)

  pub eval-lite :
      (c t e : Expr) → eval env (lite c t e) ≡ (if eval env c then eval env t else eval env e)
  unfolding lite eval
  eval-lite c t e = ground (arith, ≟→≡ t e)

  pub eval-lneg : (a : Expr) → IsWf a → eval env (lneg a) ≡ not (eval env a)
  unfolding lneg eval
  eval-lneg (node neg_op nil) h = absurd (omega arith)
  eval-lneg (node neg_op (cons x nil)) h = ground arith
  eval-lneg (node neg_op (cons x (cons y ks))) h = absurd (omega arith)
  eval-lneg (node _ ks) h = ground arith

  conjunction : List Expr → Bool
  conjunction es = all_true (map (eval env) es)

  eval-of_list : (es : List Expr) → all_true (eval_args env (of_list es)) ≡ conjunction es
  unfolding eval conjunction
  eval-of_list [] = refl
  eval-of_list (e ∷ es) = ap (λ r. eval env e && r) (eval-of_list es)

  eval-mk_conjunction : (es : List Expr) → eval env (mk_conjunction es) ≡ conjunction es
  unfolding mk_conjunction eval conjunction
  eval-mk_conjunction [] = refl
  eval-mk_conjunction (e ∷ []) = ground arith
  eval-mk_conjunction (e ∷ f ∷ es) = eval-of_list (e ∷ f ∷ es)

  abbrev kept : Option (List Expr) → Bool
  kept o = elim o [ none ↦ false | some r ↦ conjunction r ]

  kept-keep_conjuncts : (es : List Expr) → kept (keep_conjuncts es) ≡ conjunction es
  unfolding keep_conjuncts eval conjunction
  kept-keep_conjuncts [] = refl
  kept-keep_conjuncts (e ∷ es) = ground (arith, kept-keep_conjuncts es)

  eval-conclude : (o : Option (List Expr)) → eval env (conclude o) ≡ kept o
  unfolding eval
  eval-conclude none = refl
  eval-conclude (some r) = eval-mk_conjunction r

  pub eval-land_range :
      (es : List Expr)
      → es ≢ []
      → (e : Expr) × (land_range es ≡ some e) × (eval env e ≡ all_true (map (eval env) es))
  unfolding land_range conjunction
  eval-land_range [] h = absurd (h refl)
  eval-land_range (e ∷ []) h = (e, refl, ground arith)
  eval-land_range (e ∷ f ∷ es) h =
      (_, refl, eval-conclude (keep_conjuncts (e ∷ f ∷ es)) ∙ kept-keep_conjuncts (e ∷ f ∷ es))

two_sound :
    (env : Env) (a b c : Expr)
    → IsWf a
    → (eval env (land a b) ≡ (eval env a && eval env b))
      × (eval env (lor a b) ≡ (eval env a || eval env b))
      × (eval env (limp a b) ≡ (not (eval env a) || eval env b))
      × (eval env (lite a b c) ≡ (if eval env a then eval env b else eval env c))
      × (eval env (lneg a) ≡ not (eval env a))
two_sound env a b c w =
    (eval-land env a b, eval-lor env a b, eval-limp env a b, eval-lite env a b c, eval-lneg env a w)

-- `land`, `lor`, `limp` and `lite` have the truth values of conjunction, disjunction, implication and
-- choice under every environment, so has `lneg` of negation at a well-formed term, and `land` of a
-- range that is not empty gives an expression with the truth value of the conjunction of the range.
pub constructors_sound :
    (env : Env) (a b c : Expr) (es : List Expr)
    → IsWf a
    → es ≢ []
    → (eval env (land a b) ≡ (eval env a && eval env b))
      × (eval env (lor a b) ≡ (eval env a || eval env b))
      × (eval env (limp a b) ≡ (not (eval env a) || eval env b))
      × (eval env (lite a b c) ≡ (if eval env a then eval env b else eval env c))
      × (eval env (lneg a) ≡ not (eval env a))
      × (e : Expr) × (land_range es ≡ some e)
      × (eval env e ≡ all_true (map (eval env) es))
constructors_sound env a b c es w h =
    let (p, q, r, s, t) = two_sound env a b c w in
    let (e, f, v) = eval-land_range env es h in (p, q, r, s, t, e, f, v)
