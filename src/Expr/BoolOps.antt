-- ===== src/Expr/BoolOps.antt =====
-- The simplifying constructors of include/seahorn/Expr/ExprOpBool.hh.
pub mod Sound
use seahorn.Prelude.{◌||◌, List, [], ◌∷◌, if◌then◌else◌, Option, none, some}
use mathlib.Core.Option
use seahorn.Expr.Syntax.{
  Expr, Args, node, nil, cons, and_op, neg_op, tru, fls, mk_neg, mk_and, mk_or, mk_impl, mk_ite,
  is_true, is_false, ◌≟◌,
}

unfoldable pub land : Expr → Expr → Expr
land a b =
    if a ≟ b
    then a
    else if is_true a
    then b
    else if is_true b
    then a
    else if is_false a || is_false b
    then fls
    else mk_and a b

unfoldable pub lor : Expr → Expr → Expr
lor a b =
    if is_false a
    then b
    else if is_false b
    then a
    else if is_true a || is_true b
    then tru
    else mk_or a b

unfoldable pub limp : Expr → Expr → Expr
limp a b =
    if is_true a
    then b
    else if is_true b
    then b
    else if is_false a
    then tru
    else if a ≟ b
    then tru
    else mk_impl a b

unfoldable pub lite : Expr → Expr → Expr → Expr
lite c t e = if is_true c then t else if is_false c then e else if t ≟ e then t else mk_ite c t e

-- `left()` of a negation with no argument is a null pointer; the node is left alone here.
unfoldable pub lneg : Expr → Expr
lneg (node neg_op (cons x ks)) = x
lneg (node neg_op nil) = node neg_op nil
lneg e = if is_true e then fls else if is_false e then tru else mk_neg e

-- The loop of the range version: `none` is the early return of FALSE.
unfoldable pub keep_conjuncts : List Expr → Option (List Expr)
keep_conjuncts [] = some []
keep_conjuncts (e ∷ es) =
    if is_false e
    then none
    else if is_true e
    then keep_conjuncts es
    else Option.map (λ r. e ∷ r) (keep_conjuncts es)

abbrev pub of_list : List Expr → Args
of_list [] = nil
of_list (e ∷ es) = cons e (of_list es)

-- mknary<AND>, after the tests on the number of conjuncts left.
unfoldable pub mk_conjunction : List Expr → Expr
mk_conjunction [] = tru
mk_conjunction (e ∷ []) = e
mk_conjunction es = node and_op (of_list es)

abbrev pub conclude : Option (List Expr) → Expr
conclude none = fls
conclude (some r) = mk_conjunction r

-- `land` of a range, which must not be empty.
unfoldable pub land_range : List Expr → Option Expr
land_range [] = none
land_range (e ∷ []) = some e
land_range (e ∷ f ∷ es) = some (conclude (keep_conjuncts (e ∷ f ∷ es)))
