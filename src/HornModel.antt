-- ===== src/HornModel.antt =====
-- lib/seahorn/HornDbModel.cc: a model maps a relation to a formula over bound variables.
pub mod Lookup
pub mod Rename
pub mod Correct
mod Tests
use seahorn.Prelude.{
  ◌*◌, ℕ, zero, suc, ◌+◌, Bool, true, false, ◌||◌, Option, none, some, List, [], ◌∷◌, if◌then◌else◌,
}
use seahorn.Expr.Syntax.{Op, Expr, Args, node, nil, cons, other, tru, is_true, is_false, ◌≟◌}
use seahorn.Expr.Visitor.{Cache, find}
use seahorn.Expr.Replace.{replace}
use seahorn.Horn.{is_fapp, fname}

-- bind::bvar: a BIND node of the terminal BoundVar(i) and the type. The operator of that terminal is odd,
-- and even ones are left for other terminals, such as the number in a bit-vector numeral.
abbrev pub bind_op : Op
bind_op = other 2

abbrev pub bvar : ℕ → Expr → Expr
bvar i ty = node bind_op (cons (node (other (3 + 2 * i)) nil) (cons ty nil))

-- The arguments but the first, and but the last; domainSz and domainTy give those between.
abbrev pub tail : Args → Args
tail nil = nil
tail (cons x ks) = ks

abbrev pub but_last : Args → Args
but_last nil = nil
but_last (cons x nil) = nil
but_last (cons x (cons y ks)) = cons x (but_last (cons y ks))

-- The types of a declaration's domain; `none` is the failed assertion of domainSz.
abbrev pub domain : Expr → Option Args
domain (node op nil) = none
domain (node op (cons n nil)) = none
domain (node op (cons n (cons t ts))) = some (but_last (cons t ts))

-- The maps of addDef and getDef, which keep the first entry of a key; `none` is a missing argument.
unfoldable pub args_to_bvars : ℕ → Args → Args → Option Cache
args_to_bvars i nil xs = some []
args_to_bvars i (cons ty tys) nil = none
args_to_bvars i (cons ty tys) (cons a xs) = elim (args_to_bvars (suc i) tys xs) [
  | none ↦ none
  | some m ↦ some ((a, bvar i ty) ∷ m)
]

unfoldable pub bvars_to_args : ℕ → Args → Args → Option Cache
bvars_to_args i nil xs = some []
bvars_to_args i (cons ty tys) nil = none
bvars_to_args i (cons ty tys) (cons a xs) = elim (bvars_to_args (suc i) tys xs) [
  | none ↦ none
  | some m ↦ some ((bvar i ty, a) ∷ m)
]

abbrev pub args_of_app : Expr → Args
args_of_app (node op ks) = tail ks

-- A map made of a declaration's types and an application's arguments, applied to a formula.
unfoldable pub renamed : (ℕ → Args → Args → Option Cache) → Expr → Expr → Expr → Option Expr
renamed map_of d app e = elim (domain d) [
  | none ↦ none
  | some tys ↦ elim (map_of 0 tys (args_of_app app)) [ none ↦ none | some m ↦ replace e m ]
]

-- m_defs; a new definition stands before the old one.
abbrev pub Defs : Type 0
Defs = Cache

unfoldable pub def_of_lemma : Expr → Expr → Expr → Option Expr
unfolding renamed
def_of_lemma d app lemma =
    if is_true lemma || is_false lemma
    then some lemma
    else if is_fapp app
    then renamed args_to_bvars d app lemma
    else none

unfoldable pub add_def : Expr → Expr → Defs → Option Defs
unfolding def_of_lemma
add_def app lemma m = elim (fname app) [
  | none ↦ none
  | some d ↦ elim (def_of_lemma d app lemma) [ none ↦ none | some l ↦ some ((d, l) ∷ m) ]
]

unfoldable pub get_def : Expr → Defs → Option Expr
unfolding renamed
get_def app m = elim (fname app) [
  | none ↦ none
  | some d ↦ elim (find d m) [ none ↦ some tru | some l ↦ renamed bvars_to_args d app l ]
]

unfoldable pub has_def : Expr → Defs → Bool
has_def v m =
    let d = (if is_fapp v then fname v else some v) in
    elim d [ none ↦ false | some k ↦ elim (find k m) [ none ↦ false | some l ↦ true ] ]
