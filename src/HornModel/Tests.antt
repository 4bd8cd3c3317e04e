-- ===== src/HornModel/Tests.antt =====
-- A relation of two integers, and a lemma about its arguments.
use seahorn.Prelude.{ap, ℕ, ◌≡◌, refl, ◌||◌, some, [], if◌then◌else◌, arith}
use seahorn.Expr.Syntax.{
  Op, op_of, Expr, Args, node, nil, cons, other, arity, mk_or, is_true, is_false,
}
use seahorn.Expr.Replace.Correct.{substitute}
use seahorn.HornModel.{bind_op, Defs, add_def, get_def}
use seahorn.HornModel.Lookup.{IsBvar, IsOpen, pairs}
use seahorn.HornModel.Correct.{fapp, get_def-add_def}

abbrev atom : ℕ → Expr
atom k = node (other k) nil

-- A declaration: name, two argument types and the result type.
abbrev inv : Expr
inv = node (other 0) (cons (atom 20) (cons (atom 21) (cons (atom 21) (cons (atom 22) nil))))

abbrev int_types : Args
int_types = cons (atom 21) (cons (atom 21) nil)

abbrev x_and_y : Args
x_and_y = cons (atom 30) (cons (atom 31) nil)

-- A bit-vector numeral: a node of the same operator as a bound variable, over a number and a sort.
abbrev numeral : Expr
numeral = node bind_op (cons (atom 40) (cons (atom 24) nil))

-- The first argument, or a comparison of the second one with the numeral.
abbrev lemma : Expr
lemma = mk_or (atom 30) (node (other 50) (cons (atom 31) (cons numeral nil)))

abbrev name_index : Expr → ℕ
name_index (node op (cons (node (other k) ls) ks)) = k
name_index e = 0

numeral_is_free : ¬ IsBvar numeral
numeral_is_free = λ (i, ty, e). let same = ap name_index e in absurd (omega (arith, same))

no_bind : (op : Op) (ks : Args) → ¬ (op ≡ bind_op) → ¬ IsBvar (node op ks)
no_bind op ks n = λ (i, ty, e). n (ap op_of e)

lemma-IsOpen : IsOpen lemma
unfolding IsOpen
lemma-IsOpen = (
  no_bind _ _ (λ e. cc),
  (
    (no_bind _ _ (λ e. cc), tt),
    (
      (
        no_bind _ _ (λ e. cc),
        (
          (no_bind _ _ (λ e. cc), tt),
          ((numeral_is_free, ((no_bind _ _ (λ e. cc), tt), ((no_bind _ _ (λ e. cc), tt), tt))), tt),
        ),
      ),
      tt,
    ),
  ),
)

get_def-add_def_example :
    (m' : Defs) × (add_def (fapp inv x_and_y) lemma [] ≡ some m')
    × (get_def (fapp inv x_and_y) m' ≡ some lemma)
    × ((ys : Args)
        → arity ys ≡ arity int_types
        → get_def (fapp inv ys) m'
          ≡ some (
              if is_true lemma || is_false lemma
              then lemma
              else substitute (pairs int_types x_and_y ys) lemma))
    × ((k : Expr) (ks : Args) → ¬ (k ≡ inv) → get_def (fapp k ks) m' ≡ get_def (fapp k ks) [])
get_def-add_def_example = get_def-add_def inv lemma int_types x_and_y [] refl refl lemma-IsOpen
