-- ===== src/Alu/Overflow.antt =====
-- The intrinsics `llvm.*.with.overflow`, and `extractvalue` on their records.
use seahorn.Prelude.{
  ℕ, ◌+◌, ◌-◌, ◌*◌, ◌/◌, ◌%◌, ◌^◌, ◌≤◌, ◌<◌, ◌≡◌, ◌∙◌, ◌↔◌, refl, sym, ap, subst, Bool, true, false,
  not, ◌==◌, ==_iff, if◌then◌else◌, arith, ◌&&◌,
}
use seahorn.Alu.Terms.{
  bool_ty, bv_ty, and, badd, bsub, bmul, BvPred, sadd_no_overflow, uadd_no_overflow,
  sadd_no_underflow, ssub_no_overflow, ssub_no_underflow, usub_no_underflow, smul_no_overflow,
  smul_no_underflow, umul_no_overflow, Term, logic, neg, pred,
}
use seahorn.Alu.Words.{bit, bitwise}
use seahorn.Alu.Meaning.{Env, arith_op, pred_op, Denotes}
use seahorn.Alu.Bounds.{pow_pos, bit_lt, eval_lt}
use seahorn.Alu.Ops.{
  is_sadd_no_overflow, is_badd_no_underflow, is_uadd_no_overflow, is_bsub_no_overflow,
  is_ssub_no_underflow, is_usub_no_underflow, is_smul_no_overflow, is_umul_no_overflow,
  is_bmul_no_underflow, int_ty, bool_to_bv1, do_add, do_sub, do_mul, do_and, extract, do_not,
}
use seahorn.Alu.OneBit.{if_Denotes, neg-Denotes}
use seahorn.Alu.Widths.{int_ty_one, int_ty_bv}
use seahorn.Alu.Casts.{
  as_sort, bconcat-Denotes, concat_correct, si_correct, same_number, extract_range, extract_low,
}
use seahorn.Alu.Visitor.{
  OverflowOp, sadd, uadd, ssub, usub, smul, umul, overflow_result, overflow_carry, overflow_record,
  visit_with_overflow,
}
use seahorn.Alu.Binary.{binop-Denotes, logic-Denotes}
use seahorn.Alu.Compare.{pred-Denotes}
use seahorn.Alu.Exact.{wrapped, Exact, fits, fits-Exact}

pub low_part : (c r m : ℕ) → r < m → (c * m + r) % m ≡ r
low_part c r m h = grind arith

pub high_part : (c r m : ℕ) → r < m → (c * m + r) / m ≡ c
high_part c r m h = grind arith

pub wide_bv : (w : ℕ) → 1 < w → (w == 1) ≡ false
wide_bv w h = ground arith

small_bit : (c : ℕ) → c < 2 → c % 2 ^ 1 ≡ c
small_bit c h = ground arith

clear : (b : Bool) → bit (not b) ≡ 0 → b ≡ true
clear true h = refl
clear false h = absurd (omega arith)

one_minus : (b : Bool) → 1 - bit b ≡ bit (not b)
one_minus true = refl
one_minus false = refl

and_bits : (b c : Bool) → 1 - bitwise and 1 (bit b) (bit c) ≡ bit (not (b && c))
unfolding bitwise
and_bits true true = refl
and_bits true false = refl
and_bits false true = refl
and_bits false false = refl

and_same : (b : Bool) → (b && b) ≡ b
and_same true = refl
and_same false = refl

module _ (e : Env) (a b : Term) (w x y : ℕ) (h : 1 < w) (d : Denotes e a (bv_ty w) x)
    (d' : Denotes e b (bv_ty w) y) where
  result_Denotes :
      (op : OverflowOp) → Denotes e (overflow_result op a b w) (bv_ty w) (wrapped op w x y)
  unfolding overflow_result wrapped do_add do_sub do_mul arith_op
  result_Denotes sadd = binop-Denotes e badd a b w x y d d'
  result_Denotes uadd = binop-Denotes e badd a b w x y d d'
  result_Denotes ssub = binop-Denotes e bsub a b w x y d d'
  result_Denotes usub = binop-Denotes e bsub a b w x y d d'
  result_Denotes smul = binop-Denotes e bmul a b w x y d d'
  result_Denotes umul = binop-Denotes e bmul a b w x y d d'

  not_test : (p : BvPred) → Denotes e (neg (pred p a b)) bool_ty (bit (not (pred_op p w x y)))
  not_test p =
      same_number e _ _ _ _ (one_minus (pred_op p w x y))
        (neg-Denotes e _ _ (pred-Denotes e p a b w x y d d'))

  not_both :
      (p q : BvPred)
      → Denotes e
          (neg (logic and (pred p a b) (pred q a b)))
          bool_ty
          (bit (not (pred_op p w x y && pred_op q w x y)))
  not_both p q = same_number e _ _ _ _ (and_bits (pred_op p w x y) (pred_op q w x y)) (
      neg-Denotes e _ _ (
        logic-Denotes e and _ _ _ _ (pred-Denotes e p a b w x y d d')
          (pred-Denotes e q a b w x y d d')))

  carry_Denotes :
      (op : OverflowOp) → Denotes e (overflow_carry op a b w) bool_ty (bit (not (fits op w x y)))
  unfolding overflow_carry fits do_not do_and is_sadd_no_overflow is_badd_no_underflow
      is_uadd_no_overflow is_bsub_no_overflow is_ssub_no_underflow is_usub_no_underflow
      is_smul_no_overflow is_umul_no_overflow is_bmul_no_underflow
  carry_Denotes sadd = not_both sadd_no_overflow sadd_no_underflow
  carry_Denotes uadd = not_test uadd_no_overflow
  carry_Denotes ssub = not_both ssub_no_overflow ssub_no_underflow
  carry_Denotes usub = not_test usub_no_underflow
  carry_Denotes smul = not_both smul_no_overflow smul_no_underflow
  carry_Denotes umul =
      same_number e _ _ _ _ (ap (λ b. bit (not b)) (and_same _))
        (not_both umul_no_overflow umul_no_overflow)

module _ (e : Env) where
  -- an operand of `Concat` that is a bit-vector, under a width that is not 1
  pub plain :
      (t : Term) (w k x : ℕ)
      → 1 < k
      → Denotes e t (bv_ty w) x
      → Denotes e (if k == 1 then bool_to_bv1 t else t) (bv_ty w) x
  plain t w k x h d =
      if_Denotes e (k == 1) _ _ (λ p. absurd (omega (arith, (==_iff k 1).0 p))) (λ p. d)

  record_Denotes :
      (res carry : Term) (w pad r c : ℕ)
      → 1 < w
      → 1 < pad
      → Denotes e res (bv_ty w) r
      → Denotes e carry bool_ty c
      → Denotes e (overflow_record res carry w pad) (bv_ty (pad + 1 + w)) (c * 2 ^ w + r)
  unfolding overflow_record
  record_Denotes res carry w pad r c h k d d' =
      bconcat-Denotes e _ _ (pad + 1) w c r
        (plain _ (pad + 1) pad c k (
          same_number e _ _ _ _ (omega arith) (
            concat_correct e _ _ pad 1 0 c (si_correct e 0 pad (pow_pos pad))
              (as_sort e carry _ _ c (sym (int_ty_one 1 refl)) d'))))
        (plain res w w r h d)

  -- the two fields of a record
  fields :
      (t : Term) (n w r c : ℕ)
      → 1 < w
      → 1 ≤ n
      → r < 2 ^ w
      → c < 2
      → Denotes e t (bv_ty (n + w)) (c * 2 ^ w + r)
      → Denotes e (extract t 0 (w - 1)) (int_ty w) r × Denotes e (extract t w w) bool_ty c
  fields t n w r c h k lt lt' d = (
    same_number e _ _ _ _ (low_part c r (2 ^ w) lt)
        (extract_low e t w (n + w) _ (omega arith) (omega arith) d),
    same_number e _ _ _ _ (ap (λ n. n % 2 ^ 1) (high_part c r (2 ^ w) lt) ∙ small_bit c lt') (
        as_sort e _ _ _ _ (int_ty_one 1 refl)
          (extract_range e t w w 1 (n + w) _ (omega arith) (omega arith) (omega arith) d)),
  )

-- For operands that denote the integers `x` and `y` of `w` bits, with `w` above 1, and a padding of
-- more than one bit, the record of an intrinsic has the wrapped result in its low `w` bits and in
-- the next bit a carry. The carry is clear iff the wrapped result is the exact one.
pub visit_with_overflow_correct :
    (e : Env) (op : OverflowOp) (a b : Term) (w pad x y : ℕ)
    → 1 < w
    → 1 < pad
    → Denotes e a (int_ty w) x
    → Denotes e b (int_ty w) y
    → (c : ℕ) × Denotes e
        (extract (visit_with_overflow op a b w pad) 0 (w - 1))
        (int_ty w)
        (wrapped op w x y)
      × Denotes e (extract (visit_with_overflow op a b w pad) w w) bool_ty c
      × ((c ≡ 0) ↔ Exact op w x y (wrapped op w x y))
unfolding visit_with_overflow
visit_with_overflow_correct e op a b w pad x y h k d d' =
    let n = int_ty_bv w (wide_bv w h) in
    let da : Denotes e a (bv_ty w) x = as_sort e a _ _ x n d in
    let db : Denotes e b (bv_ty w) y = as_sort e b _ _ y n d' in
    let dr = result_Denotes e a b w x y h da db op in
    let lt : x < 2 ^ w = subst (λ x. x < 2 ^ w) da.1 (eval_lt e a (bv_ty w) da.0) in
    let lt' : y < 2 ^ w = subst (λ x. x < 2 ^ w) db.1 (eval_lt e b (bv_ty w) db.0) in
    let ltr : wrapped op w x y < 2 ^ w = subst (λ x. x < 2 ^ w) dr.1 (eval_lt e _ (bv_ty w) dr.0) in
    let c = bit (not (fits op w x y)) in
    let both =
      fields e _ (pad + 1) w (wrapped op w x y) c h (omega arith) ltr (bit_lt _)
        (record_Denotes e _ _ w pad _ c h k dr (carry_Denotes e a b w x y h da db op)) in
    let (there, back) = fits-Exact op w x y (omega arith) lt lt' in
    (c, both.0, both.1, (λ z. there (clear _ z), λ q. ap (λ b. bit (not b)) (back q)))
