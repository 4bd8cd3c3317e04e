-- ===== src/Alu/Values.antt =====
-- The value of the results of `visitBinaryOperator`, `visitICmpInst` and the shifts.
use seahorn.Prelude.{
  ℕ, ◌/◌, ◌%◌, ◌≡◌, ◌∙◌, refl, Bool, true, false, not, ◌==◌, if◌then◌else◌, none, some, arith,
}
use seahorn.Alu.Terms.{
  BoolOp, and, or, xor, BvOp, badd, bsub, bmul, budiv, bsdiv, burem, bsrem, band, bor, bxor, Term,
  logic, binop,
}
use seahorn.Alu.Words.{bitwise, bv_add, bv_sub, bv_mul, bv_udiv, bv_urem}
use seahorn.Alu.Meaning.{Env, arith_op, Denotes}
use seahorn.Alu.Ops.{
  int_ty, do_add, do_sub, do_mul, do_udiv, do_sdiv, do_urem, do_srem, do_and, do_or, do_xor,
}
use seahorn.Alu.Casts.{same_number}
use seahorn.Alu.Visitor.{
  Opcode, add, sub, mul, udiv, sdiv, urem, srem, and_op, or_op, xor_op, binary,
  visit_binary_operator,
}
use seahorn.Alu.Binary.{is_logical, false_of, logical_Denotes, arith_Denotes, has_width}
use seahorn.Alu.Machine.{machine_binary}

udiv_word :
    (w x y z : ℕ) → (if y == 0 then none else some (x / y)) ≡ some z → arith_op budiv w x y ≡ z
unfolding arith_op bv_udiv
udiv_word w x y z h = ground arith

urem_word :
    (w x y z : ℕ) → (if y == 0 then none else some (x % y)) ≡ some z → arith_op burem w x y ≡ z
unfolding arith_op bv_urem
urem_word w x y z h = ground arith

pub some_value : {x z : ℕ} → some x ≡ some z → x ≡ z
some_value h = cc

defined : (b c : Bool) (x z : ℕ) → (if b then none else if c then none else some x) ≡ some z → x ≡ z
defined true c x z h = cc
defined false true x z h = cc
defined false false x z h = cc

module _ (e : Env) (w : ℕ) (a b : Term) (x y : ℕ) (d : Denotes e a (int_ty w) x)
    (d' : Denotes e b (int_ty w) y) where
  arith_result :
      (o : BvOp) (z : ℕ)
      → not (w == 1) ≡ true
      → arith_op o w x y ≡ z
      → Denotes e (binop o a b) (int_ty w) z
  arith_result o z p q = same_number e _ _ _ _ q (arith_Denotes e o a b w x y (false_of p) d d')

  logic_result :
      (l : BoolOp) (o : BvOp) (z : ℕ)
      → ((w x y : ℕ) → arith_op o w x y ≡ bitwise l w x y)
      → some (bitwise l w x y) ≡ some z
      → Denotes e (if w == 1 then logic l a b else binop o a b) (int_ty w) z
  logic_result l o z h q =
      same_number e _ _ _ _ (h w x y ∙ some_value q) (logical_Denotes e l o a b w x y h d d')

  -- For operands that denote the integers `x` and `y` of `w` bits, an operator whose result on them
  -- is defined gives a term that denotes it, if the operator is logical or `w` is not 1.
  pub visit_binary_operator_correct :
      (op : Opcode) (z : ℕ)
      → machine_binary op w x y ≡ some z
      → has_width op w ≡ true
      → (t : Term) × (visit_binary_operator op w (some a) (some b) ≡ some t)
        × Denotes e t (int_ty w) z
  unfolding machine_binary is_logical has_width visit_binary_operator binary do_add do_sub do_mul
      do_udiv do_sdiv do_urem do_srem do_and do_or do_xor arith_op bv_add bv_sub bv_mul
  visit_binary_operator_correct add z h p =
      (do_add a b w, refl, arith_result badd z p (some_value h))
  visit_binary_operator_correct sub z h p =
      (do_sub a b w, refl, arith_result bsub z p (some_value h))
  visit_binary_operator_correct mul z h p =
      (do_mul a b w, refl, arith_result bmul z p (some_value h))
  visit_binary_operator_correct udiv z h p =
      (do_udiv a b w, refl, arith_result budiv z p (udiv_word w x y z h))
  visit_binary_operator_correct urem z h p =
      (do_urem a b w, refl, arith_result burem z p (urem_word w x y z h))
  visit_binary_operator_correct sdiv z h p =
      (do_sdiv a b w, refl, arith_result bsdiv z p (defined _ _ _ z h))
  visit_binary_operator_correct srem z h p =
      (do_srem a b w, refl, arith_result bsrem z p (defined _ _ _ z h))
  visit_binary_operator_correct and_op z h p =
      (do_and a b w, refl, logic_result and band z (λ w x y. refl) h)
  visit_binary_operator_correct or_op z h p =
      (do_or a b w, refl, logic_result or bor z (λ w x y. refl) h)
  visit_binary_operator_correct xor_op z h p =
      (do_xor a b w, refl, logic_result xor bxor z (λ w x y. refl) h)
  visit_binary_operator_correct _ z h p = cc
