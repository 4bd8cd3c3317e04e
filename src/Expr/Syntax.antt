-- ===== src/Expr/Syntax.antt =====
-- The nodes of include/seahorn/Expr/ExprCore.hh over the Boolean operators of ExprOpBool.hh.
use seahorn.Prelude.{
  ℕ, suc, ◌+◌, ◌≡◌, Bool, true, false, ℕ_discrete, decided, decided→, →decided, refl,
}

-- The operator of a node. `other k` is any operator that does not derive from BoolOp.
pub data Op : Type 0 where
  true_op false_op and_op or_op xor_op neg_op impl_op ite_op iff_op : Op
  other : ℕ → Op

-- A node is its operator and its arguments.
mutual
  pub data Expr : Type 0 where
    node : Op → Args → Expr

  pub data Args : Type 0 where
    nil : Args
    cons : Expr → Args → Args

unfoldable pub Op-discrete : Discrete Op
Op-discrete = hlevel (ℕ_discrete)

unfoldable pub Expr-discrete : Discrete Expr
Expr-discrete = hlevel (ℕ_discrete)

-- Nodes are shared by the factory, so that `==` on pointers is equality of terms.
infix 50 ◌≟◌
unfoldable pub ◌≟◌ : Expr → Expr → Bool
unfolding Expr-discrete
a ≟ b = decided (Expr-discrete a b)

abbrev pub op_of : Expr → Op
op_of (node op ks) = op

abbrev pub args_of : Expr → Args
args_of (node op ks) = ks

abbrev pub arity : Args → ℕ
arity nil = 0
arity (cons x ks) = suc (arity ks)

-- mk<TRUE>, mk<FALSE> and the other calls of `mk`.
pattern abbrev pub tru : Expr
tru = node true_op nil

pattern abbrev pub fls : Expr
fls = node false_op nil

pattern abbrev pub mk_neg : Expr → Expr
mk_neg x = node neg_op (cons x nil)

pattern abbrev pub mk_and : Expr → Expr → Expr
mk_and x y = node and_op (cons x (cons y nil))

pattern abbrev pub mk_or : Expr → Expr → Expr
mk_or x y = node or_op (cons x (cons y nil))

pattern abbrev pub mk_impl : Expr → Expr → Expr
mk_impl x y = node impl_op (cons x (cons y nil))

pattern abbrev pub mk_iff : Expr → Expr → Expr
mk_iff x y = node iff_op (cons x (cons y nil))

pattern abbrev pub mk_ite : Expr → Expr → Expr → Expr
mk_ite c t e = node ite_op (cons c (cons t (cons e nil)))

-- isOpX<TRUE>, isOpX<FALSE>, isOp<BoolOp>: the operator alone decides.
abbrev pub is_true : Expr → Bool
is_true (node true_op ks) = true
is_true _ = false

abbrev pub is_false : Expr → Bool
is_false (node false_op ks) = true
is_false _ = false

abbrev pub is_bool_op : Expr → Bool
is_bool_op (node (other k) ks) = false
is_bool_op _ = true

-- What the constructors of the program build: each Boolean operator has its number of arguments.
abbrev pub HasArity : Op → ℕ → Type 0
HasArity true_op n = n ≡ 0
HasArity false_op n = n ≡ 0
HasArity neg_op n = n ≡ 1
HasArity xor_op n = n ≡ 2
HasArity impl_op n = n ≡ 2
HasArity iff_op n = n ≡ 2
HasArity ite_op n = n ≡ 3
HasArity _ n = Unit

abbrev mutual
  pub IsWf : Expr → Type 0
  IsWf (node op ks) = HasArity op (arity ks) × AllWf ks

  pub AllWf : Args → Type 0
  AllWf nil = Unit
  AllWf (cons x ks) = IsWf x × AllWf ks

-- The number of nodes of the tree.
abbrev mutual
  pub size : Expr → ℕ
  size (node op ks) = suc (size_args ks)

  pub size_args : Args → ℕ
  size_args nil = 0
  size_args (cons x ks) = size x + size_args ks

pub ≟→≡ : (a b : Expr) → (a ≟ b) ≡ true → a ≡ b
unfolding ◌≟◌
≟→≡ a b h = decided→ (Expr-discrete a b) h

pub ≟-refl : (a : Expr) → (a ≟ a) ≡ true
unfolding ◌≟◌
≟-refl a = →decided (Expr-discrete a a) refl

pub →≟ : (a b : Expr) → a ≡ b → (a ≟ b) ≡ true
unfolding ◌≟◌
→≟ a b e = →decided (Expr-discrete a b) e
