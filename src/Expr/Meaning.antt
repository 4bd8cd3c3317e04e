-- ===== src/Expr/Meaning.antt =====
-- The truth value of an expression. A node that is no Boolean operator is an atom as a whole.
use seahorn.Prelude.{Bool, true, false, not, ◌&&◌, ◌||◌, List, [], ◌∷◌, if◌then◌else◌}
use seahorn.Expr.Syntax.{
  Op, Expr, Args, node, nil, cons, true_op, false_op, and_op, or_op, xor_op, neg_op, impl_op,
  ite_op, iff_op, other,
}

-- The value of each atom.
abbrev pub Env : Type 0
Env = Expr → Bool

abbrev pub all_true : List Bool → Bool
all_true [] = true
all_true (v ∷ vs) = v && all_true vs

abbrev pub any_true : List Bool → Bool
any_true [] = false
any_true (v ∷ vs) = v || any_true vs

abbrev pub bool_iff : Bool → Bool → Bool
bool_iff true b = b
bool_iff false b = not b

-- The connective of an operator, over the values of the arguments.
abbrev pub denote : Op → List Bool → Bool → Bool
denote true_op vs atom = true
denote false_op vs atom = false
denote and_op vs atom = all_true vs
denote or_op vs atom = any_true vs
denote neg_op (v ∷ vs) atom = not v
denote impl_op (v ∷ w ∷ vs) atom = not v || w
denote iff_op (v ∷ w ∷ vs) atom = bool_iff v w
denote xor_op (v ∷ w ∷ vs) atom = not (bool_iff v w)
denote ite_op (c ∷ t ∷ e ∷ vs) atom = if c then t else e
denote (other k) vs atom = atom
denote _ _ atom = false

unfoldable mutual
  pub eval : Env → Expr → Bool
  eval env (node op ks) = denote op (eval_args env ks) (env (node op ks))

  pub eval_args : Env → Args → List Bool
  eval_args env nil = []
  eval_args env (cons x ks) = eval env x ∷ eval_args env ks
