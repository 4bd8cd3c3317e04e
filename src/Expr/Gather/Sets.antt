-- ===== src/Expr/Gather/Sets.antt =====
-- The set of arguments that `gather` builds: its truth value and its shape.
use seahorn.Prelude.{
  ◌≡◌, refl, Bool, true, false, ◌&&◌, ◌||◌, List, Option, some, none, arith, ◌∙◌, decided→,
  →decided, if◌then◌else◌,
}
use seahorn.Expr.Syntax.{Op, Op-discrete, Expr, Args, node, nil, cons, op_of, args_of, ≟→≡}
use seahorn.Expr.Meaning.{Env, eval, eval_args, all_true, any_true}
use seahorn.Expr.Visitor.{◌>>=◌}
use seahorn.Expr.Gather.{
  Junction, conj, disj, op, top, bot, same_op, insert, add_arg, add_args, collect, conclude,
}

pub same_op→≡ : (o p : Op) → same_op o p ≡ true → o ≡ p
unfolding same_op
same_op→≡ o p h = decided→ (Op-discrete o p) h

pub same_op_refl : (o : Op) → same_op o o ≡ true
unfolding same_op
same_op_refl o = →decided (Op-discrete o o) refl

abbrev pub join : Junction → Bool → Bool → Bool
join conj a b = a && b
join disj a b = a || b

abbrev pub joined : Junction → List Bool → Bool
joined conj vs = all_true vs
joined disj vs = any_true vs

-- The value that decides a junction.
abbrev pub bot_value : Junction → Bool
bot_value conj = false
bot_value disj = true

join_assoc : (j : Junction) (a b c : Bool) → join j a (join j b c) ≡ join j (join j a b) c
join_assoc j a b c = ground arith

-- Two nodes neither of which comes before the other are one node: ids are unique.
abbrev pub IsTotal : (Expr → Expr → Bool) → Type 0
IsTotal before = (a b : Expr) → before a b ≡ false → before b a ≡ false → a ≡ b

module _ (before : Expr → Expr → Bool) (total : IsTotal before) (env : Env) where
  abbrev pub set_value : Junction → Args → Bool
  set_value j ks = joined j (eval_args env ks)

  -- A missing set stands for `bot`.
  abbrev pub value : Junction → Option Args → Bool
  value j none = bot_value j
  value j (some ks) = set_value j ks

  eval-insert :
      (j : Junction) (a : Expr) (ks : Args)
      → set_value j (insert before a ks) ≡ join j (eval env a) (set_value j ks)
  unfolding insert eval
  eval-insert j a nil = ground arith
  eval-insert j a (cons x ks) = ground (arith, total a x, eval-insert j a ks)

  eval-add_arg :
      (j : Junction) (a : Expr) (set : Args)
      → value j (add_arg before j a set) ≡ join j (eval env a) (set_value j set)
  unfolding add_arg eval
  eval-add_arg j a set = ground (arith, ≟→≡ a (bot j), ≟→≡ a (top j), eval-insert j a set)

  value-bind :
      (j : Junction) (o : Option Args) (f : Args → Option Args) (b : Bool)
      → ((set : Args) → value j (f set) ≡ join j b (set_value j set))
      → value j (o >>= f) ≡ join j b (value j o)
  value-bind j none f b h = ground arith
  value-bind j (some set) f b h = h set

  eval-add_args :
      (j : Junction) (ks set : Args)
      → value j (add_args before j ks set) ≡ join j (set_value j ks) (set_value j set)
  unfolding add_args eval
  eval-add_args j nil set = ground arith
  eval-add_args j (cons a ks) set =
      value-bind j (add_arg before j a set) (add_args before j ks) (set_value j ks)
        (eval-add_args j ks)
      ∙ ground (arith, eval-add_arg j a set)

  eval-op : (j : Junction) (a : Expr) → op j ≡ op_of a → eval env a ≡ set_value j (args_of a)
  unfolding eval
  eval-op j (node o ks) h = ground arith

  pub eval-collect :
      (j : Junction) (ks set : Args)
      → value j (collect before j ks set) ≡ join j (set_value j ks) (set_value j set)
  unfolding collect eval
  eval-collect j nil set = ground arith
  eval-collect j (cons a ks) set =
      value-bind j
        (if same_op (op j) (op_of a)
          then add_args before j (args_of a) set
          else add_arg before j a set)
        (collect before j ks) (set_value j ks) (eval-collect j ks)
      ∙ ground (
        arith,
        eval-add_arg j a set,
        eval-add_args j (args_of a) set,
        eval-op j a,
        same_op→≡ (op j) (op_of a),
      )

  pub eval-conclude : (j : Junction) (o : Option Args) → eval env (conclude before j o) ≡ value j o
  unfolding conclude eval
  eval-conclude j o = ground arith
