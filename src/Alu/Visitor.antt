-- ===== src/Alu/Visitor.antt =====
-- `OpSemVisitor` of lib/seahorn/BvOpSem2.cc: the instructions on integers. An operand is the term
-- that `lookup` gives, or none, and so is the result; `setValue` writes a result to the register of
-- the instruction, and havocs the register where there is none.
use seahorn.Prelude.{ℕ, Option, none, some}
use seahorn.Alu.Terms.{pos, BvOp, bshl, blshr, bashr, Term, binop}
use seahorn.Alu.Ops.{
  is_sadd_no_overflow, is_badd_no_underflow, is_uadd_no_overflow, is_bsub_no_overflow,
  is_ssub_no_underflow, is_usub_no_underflow, is_smul_no_overflow, is_umul_no_overflow,
  is_bmul_no_underflow, si, do_add, do_sub, do_mul, do_udiv, do_sdiv, do_urem, do_srem, do_and,
  do_or, do_xor, do_eq, do_ne, do_ult, do_slt, do_ugt, do_sgt, do_ule, do_sle, do_uge, do_sge,
  do_trunc, do_zext, do_sext, concat, do_not,
}

-- `Instruction::BinaryOps`, without the shifts
pub data Opcode : Type 0 where
  add sub mul fadd fsub fmul fdiv frem udiv sdiv urem srem and_op or_op xor_op : Opcode

pub data Shift : Type 0 where
  shl lshr ashr : Shift

-- `ICmpInst::Predicate`
pub data Cmp : Type 0 where
  icmp_eq icmp_ne icmp_ult icmp_slt icmp_ugt icmp_sgt icmp_ule icmp_sle icmp_uge icmp_sge : Cmp

-- the type of a comparison's operands, `Type::TypeID`
pub data TypeId : Type 0 where
  integer : ℕ → TypeId
  pointer : TypeId

-- the switch on the opcode; the floating-point operators leave the result null
unfoldable pub binary : Opcode → Term → Term → ℕ → Option Term
unfolding do_add do_sub do_mul do_udiv do_sdiv do_urem do_srem do_and do_or do_xor
binary add a b w = some (do_add a b w)
binary sub a b w = some (do_sub a b w)
binary mul a b w = some (do_mul a b w)
binary fadd a b w = none
binary fsub a b w = none
binary fmul a b w = none
binary fdiv a b w = none
binary frem a b w = none
binary udiv a b w = some (do_udiv a b w)
binary sdiv a b w = some (do_sdiv a b w)
binary urem a b w = some (do_urem a b w)
binary srem a b w = some (do_srem a b w)
binary and_op a b w = some (do_and a b w)
binary or_op a b w = some (do_or a b w)
binary xor_op a b w = some (do_xor a b w)

-- both operands, if neither is null
abbrev pub both_terms : Option Term → Option Term → (Term → Term → Option Term) → Option Term
both_terms (some a) (some b) f = f a b
both_terms _ _ f = none

unfoldable pub visit_binary_operator : Opcode → ℕ → Option Term → Option Term → Option Term
unfolding binary
visit_binary_operator op w a b = both_terms a b (λ a b. binary op a b w)

unfoldable pub shift_op : Shift → BvOp
shift_op shl = bshl
shift_op lshr = blshr
shift_op ashr = bashr

-- `visitShl`, `visitLShr` and `visitAShr`
unfoldable pub visit_shift : Shift → Option Term → Option Term → Option Term
unfolding shift_op
visit_shift s a b = both_terms a b (λ a b. some (binop (shift_op s) a b))

-- the comparison of integers that each `executeICMP` calls
unfoldable pub compare_ints : Cmp → Term → Term → ℕ → Term
unfolding do_eq do_ne do_ult do_slt do_ugt do_sgt do_ule do_sle do_uge do_sge
compare_ints icmp_eq a b w = do_eq a b w
compare_ints icmp_ne a b w = do_ne a b w
compare_ints icmp_ult a b w = do_ult a b w
compare_ints icmp_slt a b w = do_slt a b w
compare_ints icmp_ugt a b w = do_ugt a b w
compare_ints icmp_sgt a b w = do_sgt a b w
compare_ints icmp_ule a b w = do_ule a b w
compare_ints icmp_sle a b w = do_sle a b w
compare_ints icmp_uge a b w = do_uge a b w
compare_ints icmp_sge a b w = do_sge a b w

-- Pointers are compared by the memory manager, the parameter `ptr`.
module _ (ptr : Cmp → Term → Term → Term) where
  unfoldable pub execute_icmp : Cmp → TypeId → Term → Term → Term
  unfolding compare_ints
  execute_icmp p (integer w) a b = compare_ints p a b w
  execute_icmp p pointer a b = ptr p a b

  unfoldable pub visit_icmp_inst : Cmp → TypeId → Option Term → Option Term → Option Term
  unfolding execute_icmp
  visit_icmp_inst p ty a b = both_terms a b (λ a b. some (execute_icmp p ty a b))

-- the widths are those of the instruction's type and of its operand's
unfoldable pub execute_trunc_inst : Option Term → ℕ → Option Term
unfolding do_trunc
execute_trunc_inst none w = none
execute_trunc_inst (some a) w = some (do_trunc a w)

unfoldable pub execute_zext_inst : Option Term → ℕ → ℕ → Option Term
unfolding do_zext
execute_zext_inst none w opw = none
execute_zext_inst (some a) w opw = some (do_zext a w opw)

unfoldable pub execute_sext_inst : Option Term → ℕ → ℕ → Option Term
unfolding do_sext
execute_sext_inst none w opw = none
execute_sext_inst (some a) w opw = some (do_sext a w opw)

-- the intrinsics `llvm.*.with.overflow`
pub data OverflowOp : Type 0 where
  sadd uadd ssub usub smul umul : OverflowOp

unfoldable pub overflow_result : OverflowOp → Term → Term → ℕ → Term
unfolding do_add do_sub do_mul
overflow_result sadd a b w = do_add a b w
overflow_result uadd a b w = do_add a b w
overflow_result ssub a b w = do_sub a b w
overflow_result usub a b w = do_sub a b w
overflow_result smul a b w = do_mul a b w
overflow_result umul a b w = do_mul a b w

-- the carry: the negation of the tests that there is no overflow
unfoldable pub overflow_carry : OverflowOp → Term → Term → ℕ → Term
unfolding do_not do_and is_sadd_no_overflow is_badd_no_underflow is_uadd_no_overflow
    is_bsub_no_overflow is_ssub_no_underflow is_usub_no_underflow is_smul_no_overflow
    is_umul_no_overflow is_bmul_no_underflow
overflow_carry sadd a b w =
    do_not (do_and (is_sadd_no_overflow a b w) (is_badd_no_underflow a b w) 1) 1
overflow_carry uadd a b w = do_not (is_uadd_no_overflow a b w) 1
overflow_carry ssub a b w =
    do_not (do_and (is_bsub_no_overflow a b w) (is_ssub_no_underflow a b w) 1) 1
overflow_carry usub a b w = do_not (is_usub_no_underflow a b w) 1
overflow_carry smul a b w =
    do_not (do_and (is_smul_no_overflow a b w) (is_bmul_no_underflow a b w) 1) 1
overflow_carry umul a b w =
    do_not (do_and (is_umul_no_overflow a b w) (is_umul_no_overflow a b w) 1) 1

-- `createArithmeticWithOverflowRecord`, from the low end: the result, the carry, the padding
unfoldable pub overflow_record : Term → Term → ℕ → ℕ → Term
unfolding concat si
overflow_record res carry w pad =
    let high = concat (si (pos 0) pad) pad carry 1 in concat high pad res w

-- `visitIntrinsicInst` on such an intrinsic. The code does not test its operands for null, and the
-- operations on terms never give null, so there is always a record.
unfoldable pub visit_with_overflow : OverflowOp → Term → Term → ℕ → ℕ → Term
unfolding overflow_result overflow_carry overflow_record
visit_with_overflow op a b w pad =
    overflow_record (overflow_result op a b w) (overflow_carry op a b w) w pad
