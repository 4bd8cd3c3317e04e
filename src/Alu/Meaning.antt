-- ===== src/Alu/Meaning.antt =====
-- The value of a term, with the meaning that SMT-LIB gives to its operators. A Boolean is 0 or 1.
use seahorn.Prelude.{
  ℕ, suc, ◌+◌, ◌-◌, ◌*◌, ◌/◌, ◌%◌, ◌^◌, ◌≡◌, Bool, true, not, ltb, leb, ◌==◌, if◌then◌else◌, some,
}
use seahorn.Alu.Terms.{
  Sort, and, or, xor, BvOp, badd, bsub, bmul, budiv, bsdiv, burem, bsrem, band, bor, bxor, bshl,
  blshr, bashr, BvPred, bult, bslt, bugt, bsgt, bule, bsle, buge, bsge, sadd_no_overflow,
  uadd_no_overflow, sadd_no_underflow, ssub_no_overflow, ssub_no_underflow, usub_no_underflow,
  smul_no_overflow, smul_no_underflow, umul_no_overflow, Term, tru, fls, bool_const, bv_const,
  bvnum, logic, neg, binop, pred, eq, neq, ite, bnot, bextract, bsext, bzext, bconcat, sort_of,
  width,
}
use seahorn.Alu.Words.{
  half, bit, num_value, bool_op, bitwise, bv_add, bv_sub, bv_mul, bv_udiv, bv_urem, negative,
  magnitude, bv_sdiv, bv_srem, bv_shl, bv_lshr, bv_ashr, biased,
}

pub record Env : Type 0 where
  pub bools : ℕ → Bool
  pub words : ℕ → ℕ

unfoldable pub arith_op : BvOp → ℕ → ℕ → ℕ → ℕ
unfolding bv_add bv_sub bv_mul bv_udiv bv_sdiv bv_urem bv_srem bitwise bv_shl bv_lshr bv_ashr
arith_op badd w x y = bv_add w x y
arith_op bsub w x y = bv_sub w x y
arith_op bmul w x y = bv_mul w x y
arith_op budiv w x y = bv_udiv w x y
arith_op bsdiv w x y = bv_sdiv w x y
arith_op burem w x y = bv_urem w x y
arith_op bsrem w x y = bv_srem w x y
arith_op band w x y = bitwise and w x y
arith_op bor w x y = bitwise or w x y
arith_op bxor w x y = bitwise xor w x y
arith_op bshl w x y = bv_shl w x y
arith_op blshr w x y = bv_lshr w x y
arith_op bashr w x y = bv_ashr w x y

-- A predicate on the sum or the difference of two words is one on the sum of their biased values.
unfoldable pub pred_op : BvPred → ℕ → ℕ → ℕ → Bool
pred_op bult w x y = ltb x y
pred_op bslt w x y = ltb (biased w x) (biased w y)
pred_op bugt w x y = ltb y x
pred_op bsgt w x y = ltb (biased w y) (biased w x)
pred_op bule w x y = leb x y
pred_op bsle w x y = leb (biased w x) (biased w y)
pred_op buge w x y = leb y x
pred_op bsge w x y = leb (biased w y) (biased w x)
pred_op sadd_no_overflow w x y = ltb (biased w x + biased w y) (3 * half w)
pred_op sadd_no_underflow w x y = leb (half w) (biased w x + biased w y)
pred_op uadd_no_overflow w x y = ltb (x + y) (2 ^ w)
pred_op ssub_no_overflow w x y = ltb (biased w x) (biased w y + half w)
pred_op ssub_no_underflow w x y = leb (biased w y) (biased w x + half w)
pred_op usub_no_underflow w x y = leb y x
pred_op smul_no_overflow w x y =
    if bool_op xor (negative w x) (negative w y)
    then true
    else ltb (magnitude w x * magnitude w y) (half w)
pred_op smul_no_underflow w x y =
    if bool_op xor (negative w x) (negative w y)
    then leb (magnitude w x * magnitude w y) (half w)
    else true
pred_op umul_no_overflow w x y = ltb (x * y) (2 ^ w)

unfoldable pub sext_value : ℕ → ℕ → ℕ → ℕ
sext_value w k x = if negative w x then x + (2 ^ k - 2 ^ w) else x

unfoldable pub eval : Env → Term → ℕ
unfolding num_value arith_op pred_op sext_value sort_of width
eval e tru = 1
eval e fls = 0
eval e (bool_const k) = bit (e.bools k)
eval e (bv_const k w) = e.words k % 2 ^ w
eval e (bvnum v w) = num_value w v
eval e (logic op a b) = bit (bool_op op (eval e a == 1) (eval e b == 1))
eval e (neg a) = 1 - eval e a
eval e (binop op a b) = arith_op op (width (sort_of a)) (eval e a) (eval e b)
eval e (pred p a b) = bit (pred_op p (width (sort_of a)) (eval e a) (eval e b))
eval e (eq a b) = bit (eval e a == eval e b)
eval e (neq a b) = bit (not (eval e a == eval e b))
eval e (ite c a b) = if eval e c == 1 then eval e a else eval e b
eval e (bnot a) = 2 ^ width (sort_of a) - 1 - eval e a
eval e (bextract hi lo a) = eval e a / 2 ^ lo % 2 ^ (suc hi - lo)
eval e (bsext a k) = sext_value (width (sort_of a)) k (eval e a)
eval e (bzext a k) = eval e a
eval e (bconcat a b) = eval e a * 2 ^ width (sort_of b) + eval e b

-- The term `t` has the sort `s` and the value `x`.
abbrev pub Denotes : Env → Term → Sort → ℕ → Type 0
Denotes e t s x = (sort_of t ≡ some s) × (eval e t ≡ x)
