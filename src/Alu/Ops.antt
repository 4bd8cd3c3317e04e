-- ===== src/Alu/Ops.antt =====
-- `BvOpSemAlu`: the operations on integers of a given bit width. An integer of one bit is a
-- Boolean, any other a bit-vector.
use seahorn.Prelude.{ℕ, ◌-◌, Bool, true, false, ◌&&◌, ◌==◌, if◌then◌else◌, Option, none, some}
use seahorn.Alu.Terms.{
  sadd_no_overflow, uadd_no_overflow, sadd_no_underflow, ssub_no_overflow, ssub_no_underflow,
  usub_no_underflow, smul_no_overflow, smul_no_underflow, umul_no_overflow, ℤ, pos, negsuc, Sort,
  bool_ty, bv_ty, and, or, xor, badd, bsub, bmul, budiv, bsdiv, burem, bsrem, band, bor, bxor, bult,
  bslt, bugt, bsgt, bule, bsle, buge, bsge, Term, tru, fls, bvnum, logic, neg, binop, pred, eq, neq,
  ite, bnot, bextract, bsext, bzext, bconcat,
}

abbrev pub true_bv1 : Term
true_bv1 = bvnum (pos 1) 1

abbrev pub false_bv1 : Term
false_bv1 = bvnum (pos 0) 1

unfoldable pub int_ty : ℕ → Sort
int_ty w = if w == 1 then bool_ty else bv_ty w

unfoldable pub is_num : Term → Bool
is_num (bvnum v w) = true
is_num _ = false

unfoldable pub to_num : Term → Option ℤ
to_num (bvnum v w) = some v
to_num _ = none

-- `v == 1U`
abbrev pub is_one : ℤ → Bool
is_one (pos n) = n == 1
is_one (negsuc n) = false

unfoldable pub si : ℤ → ℕ → Term
si v w = if w == 1 then (if is_one v then tru else fls) else bvnum v w

-- `isOpX<TRUE>` and `isOpX<FALSE>`
abbrev pub is_tru : Term → Bool
is_tru tru = true
is_tru _ = false

abbrev pub is_fls : Term → Bool
is_fls fls = true
is_fls _ = false

-- the same node as the numeral `n` of one bit
abbrev pub is_bv1 : ℕ → Term → Bool
is_bv1 n (bvnum (pos v) w) = v == n && w == 1
is_bv1 n _ = false

unfoldable pub bool_to_bv1 : Term → Term
bool_to_bv1 b =
    if is_tru b then true_bv1 else if is_fls b then false_bv1 else ite b true_bv1 false_bv1

unfoldable pub bv1_to_bool : Term → Term
bv1_to_bool bv = if is_bv1 1 bv then tru else if is_bv1 0 bv then fls else eq bv true_bv1

unfoldable pub lneg : Term → Term
lneg tru = fls
lneg fls = tru
lneg (neg e) = e
lneg e = neg e

-- `doAdd`, `doSub`, `doMul` and the divisions take no account of the width.
unfoldable pub do_add : Term → Term → ℕ → Term
do_add a b w = binop badd a b

unfoldable pub do_sub : Term → Term → ℕ → Term
do_sub a b w = binop bsub a b

unfoldable pub do_mul : Term → Term → ℕ → Term
do_mul a b w = binop bmul a b

unfoldable pub do_udiv : Term → Term → ℕ → Term
do_udiv a b w = binop budiv a b

unfoldable pub do_sdiv : Term → Term → ℕ → Term
do_sdiv a b w = binop bsdiv a b

unfoldable pub do_urem : Term → Term → ℕ → Term
do_urem a b w = binop burem a b

unfoldable pub do_srem : Term → Term → ℕ → Term
do_srem a b w = binop bsrem a b

unfoldable pub do_and : Term → Term → ℕ → Term
do_and a b w = if w == 1 then logic and a b else binop band a b

unfoldable pub do_or : Term → Term → ℕ → Term
do_or a b w = if w == 1 then logic or a b else binop bor a b

unfoldable pub do_xor : Term → Term → ℕ → Term
do_xor a b w = if w == 1 then logic xor a b else binop bxor a b

unfoldable pub do_eq : Term → Term → ℕ → Term
do_eq a b w = eq a b

unfoldable pub do_ne : Term → Term → ℕ → Term
do_ne a b w = neq a b

unfoldable pub do_ult : Term → Term → ℕ → Term
do_ult a b w = pred bult a b

unfoldable pub do_slt : Term → Term → ℕ → Term
do_slt a b w = pred bslt a b

unfoldable pub do_ugt : Term → Term → ℕ → Term
do_ugt a b w = pred bugt a b

unfoldable pub do_sgt : Term → Term → ℕ → Term
unfolding lneg bool_to_bv1 bv1_to_bool
do_sgt a b w =
    if w == 1
    then (if is_tru b then lneg a else bv1_to_bool (pred bsgt (bool_to_bv1 a) (bool_to_bv1 b)))
    else pred bsgt a b

unfoldable pub do_ule : Term → Term → ℕ → Term
do_ule a b w = pred bule a b

unfoldable pub do_sle : Term → Term → ℕ → Term
do_sle a b w = pred bsle a b

unfoldable pub do_uge : Term → Term → ℕ → Term
do_uge a b w = pred buge a b

unfoldable pub do_sge : Term → Term → ℕ → Term
do_sge a b w = pred bsge a b

unfoldable pub do_trunc : Term → ℕ → Term
unfolding bv1_to_bool
do_trunc a w = if w == 1 then bv1_to_bool (bextract (w - 1) 0 a) else bextract (w - 1) 0 a

unfoldable pub do_zext : Term → ℕ → ℕ → Term
unfolding si
do_zext a w opw =
    if opw == 1
    then (if is_tru a
        then si (pos 1) w
        else if is_fls a
        then si (pos 0) w
        else ite a (si (pos 1) w) (si (pos 0) w))
    else bzext a w

unfoldable pub do_sext : Term → ℕ → ℕ → Term
unfolding bool_to_bv1
do_sext a w opw = bsext (if opw == 1 then bool_to_bv1 a else a) w

-- `Extract` and `Concat` have pairs of a term and its width; `Extract` does not read the width.
unfoldable pub extract : Term → ℕ → ℕ → Term
unfolding bv1_to_bool
extract a begin end =
    if end == begin then bv1_to_bool (bextract end begin a) else bextract end begin a

unfoldable pub concat : Term → ℕ → Term → ℕ → Term
unfolding bool_to_bv1
concat high hw low lw =
    bconcat (if hw == 1 then bool_to_bv1 high else high) (if lw == 1 then bool_to_bv1 low else low)

-- the tests for overflow
unfoldable pub is_sadd_no_overflow : Term → Term → ℕ → Term
is_sadd_no_overflow a b w = pred sadd_no_overflow a b

unfoldable pub is_badd_no_underflow : Term → Term → ℕ → Term
is_badd_no_underflow a b w = pred sadd_no_underflow a b

unfoldable pub is_uadd_no_overflow : Term → Term → ℕ → Term
is_uadd_no_overflow a b w = pred uadd_no_overflow a b

unfoldable pub is_bsub_no_overflow : Term → Term → ℕ → Term
is_bsub_no_overflow a b w = pred ssub_no_overflow a b

unfoldable pub is_ssub_no_underflow : Term → Term → ℕ → Term
is_ssub_no_underflow a b w = pred ssub_no_underflow a b

unfoldable pub is_usub_no_underflow : Term → Term → ℕ → Term
is_usub_no_underflow a b w = pred usub_no_underflow a b

unfoldable pub is_smul_no_overflow : Term → Term → ℕ → Term
is_smul_no_overflow a b w = pred smul_no_overflow a b

unfoldable pub is_umul_no_overflow : Term → Term → ℕ → Term
is_umul_no_overflow a b w = pred umul_no_overflow a b

unfoldable pub is_bmul_no_underflow : Term → Term → ℕ → Term
is_bmul_no_underflow a b w = pred smul_no_underflow a b

unfoldable pub do_not : Term → ℕ → Term
do_not a w = if w == 1 then neg a else bnot a
