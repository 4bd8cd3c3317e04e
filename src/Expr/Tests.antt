-- ===== src/Expr/Tests.antt =====
-- The rewriting passes on concrete expressions.
mod Order
mod Search
use seahorn.Prelude.{
  ℕ, ◌≡◌, ◌≢◌, refl, Bool, true, false, not, ◌&&◌, ◌||◌, Option, some, List, [], ◌∷◌, if◌then◌else◌,
  arith, map, ℕ_discrete,
}
use seahorn.Expr.Syntax.{
  Op, Expr, Args, node, nil, cons, other, tru, fls, mk_neg, mk_and, mk_or, mk_impl, mk_iff, IsWf,
  ◌≟◌,
}
use seahorn.Expr.Meaning.{Env, eval, all_true}
use seahorn.Expr.BoolOps.{land, lor, limp, lite, lneg, land_range}
use seahorn.Expr.BoolOps.Sound.{constructors_sound}
use seahorn.Expr.Visitor.{visit, act, rebuild, visit_kids, dag_visit, Cache}
use seahorn.Expr.Visitor.Cached.{Faithful, dag_visit-visit}
use seahorn.Expr.Simplifier.{
  trivial, bs, simplify, simplify_impl, simplify_neg, simplify_or, simplify_and,
}
use seahorn.Expr.Simplifier.Sound.{eval-trivial, trivial-mk_iff_self}
use seahorn.Expr.Simplifier.Pass.{IsGood, simplify_correct}
use seahorn.Expr.Nnf.{nnf, nnf_action, push_neg, negate_args}
use seahorn.Expr.Nnf.Strict.{IsAndOrNeg, IsStrict}
use seahorn.Expr.Nnf.Correct.{IsNnf, nnf_correct}
use seahorn.Expr.Gather.{gather, pp, gather_op, conclude, collect, same_op, add_arg, add_args}
use seahorn.Expr.Gather.Flat.{IsFlat}
use seahorn.Expr.Gather.Correct.{gather_correct, pp_correct}
use Order.{before, before-IsTotal}

abbrev x : Expr
x = node (other 0) nil

abbrev y : Expr
y = node (other 1) nil

abbrev env : Env
env e = e ≟ x

-- !(x && !(y || true))
abbrev nested : Expr
nested = mk_neg (mk_and x (mk_neg (mk_or y tru)))

-- x && (y && (x && !y))
abbrev deep : Expr
deep = mk_and x (mk_and y (mk_and x (mk_neg y)))

-- Named on a line, this opens what a run of a pass computes with.
run_pass : ℕ
unfolding visit act rebuild visit_kids bs ◌≟◌ ℕ_discrete lneg trivial simplify_impl simplify_neg
    simplify_or simplify_and nnf_action push_neg negate_args gather_op conclude collect same_op
    add_arg add_args before
run_pass = 0

nnf-nested : nnf (mk_neg (mk_and x (mk_neg y))) ≡ some (mk_or (mk_neg x) y)
unfolding nnf run_pass
nnf-nested = refl

simplify-deep : simplify (mk_impl (mk_and x tru) fls) ≡ some (mk_neg x)
unfolding simplify run_pass
simplify-deep = refl

gather-deep : gather before deep ≡ some (node Op.and_op (cons (mk_neg y) (cons x (cons y nil))))
unfolding gather run_pass
gather-deep = refl

nnf_correct_example :
    (r : Expr) × (nnf nested ≡ some r)
    × ((IsWf r × IsNnf r) × ((v : Env) → eval v r ≡ eval v nested))
    × (IsAndOrNeg nested → IsStrict r)
nnf_correct_example = nnf_correct nested (omega arith)

gather_correct_example :
    (r : Expr) × (gather before deep ≡ some r)
    × ((IsWf r × IsFlat r) × ((v : Env) → eval v r ≡ eval v deep))
gather_correct_example = gather_correct before deep before-IsTotal (omega arith)

pp_correct_example :
    (r : Expr) × (pp before nested ≡ some r)
    × ((IsWf r × IsFlat r) × ((v : Env) → eval v r ≡ eval v nested))
    × (IsAndOrNeg nested → IsStrict r)
pp_correct_example = pp_correct before nested before-IsTotal (omega arith)

simplify_correct_example :
    (r : Expr) × (simplify nested ≡ some r) × (IsGood r × ((v : Env) → eval v r ≡ eval v nested))
simplify_correct_example = simplify_correct nested (omega arith)

eval-trivial_example : eval env (trivial (mk_iff x tru)) ≡ eval env (mk_iff x tru)
eval-trivial_example = eval-trivial env (mk_iff x tru) (omega arith) (λ e. cc)

trivial-mk_iff_self_example : (trivial (mk_iff y y) ≡ y) × (eval env (mk_iff y y) ≡ true)
trivial-mk_iff_self_example = trivial-mk_iff_self env y

constructors_sound_example :
    (eval env (land (mk_neg x) y) ≡ (eval env (mk_neg x) && eval env y))
    × (eval env (lor (mk_neg x) y) ≡ (eval env (mk_neg x) || eval env y))
    × (eval env (limp (mk_neg x) y) ≡ (not (eval env (mk_neg x)) || eval env y))
    × (eval env (lite (mk_neg x) y tru)
        ≡ (if eval env (mk_neg x) then eval env y else eval env tru))
    × (eval env (lneg (mk_neg x)) ≡ not (eval env (mk_neg x)))
    × (e : Expr) × (land_range (x ∷ tru ∷ y ∷ []) ≡ some e)
    × (eval env e ≡ all_true (map (eval env) (x ∷ tru ∷ y ∷ [])))
constructors_sound_example =
    constructors_sound env (mk_neg x) y tru (x ∷ tru ∷ y ∷ []) (omega arith) (λ e. cc)

dag_visit-visit_example :
    (c' : Cache) × (dag_visit (λ e. true) 9 (bs trivial) (mk_and (mk_neg x) (mk_neg x)) []
      ≡ some (mk_neg x, c'))
    × Faithful (bs trivial) c'
unfolding simplify run_pass
dag_visit-visit_example =
    dag_visit-visit (bs trivial) (λ e. true) 9 (mk_and (mk_neg x) (mk_neg x)) (mk_neg x) [] refl tt
