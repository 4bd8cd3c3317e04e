-- ===== src/Alu/Binary.antt =====
-- `visitBinaryOperator`: the sort and the value of its result.
use seahorn.Prelude.{
  ℕ, ◌%◌, ◌<◌, ◌≡◌, ◌∙◌, inl, inr, refl, sym, ap, ap₂, subst, Bool, true, false, not, ◌==◌, ==_iff,
  if◌then◌else◌, Option, none, some, arith, ◌||◌, Bool-cases,
}
use seahorn.Alu.Terms.{
  Sort, bool_ty, bv_ty, BoolOp, and, or, xor, BvOp, badd, bsub, bmul, budiv, bsdiv, burem, bsrem,
  band, bor, bxor, Term, logic, binop, sort_of, width, both_bool, same_bv,
}
use seahorn.Alu.Words.{bit, bool_op, bitwise}
use seahorn.Alu.Meaning.{Env, arith_op, eval, Denotes}
use seahorn.Alu.Bounds.{eval_lt}
use seahorn.Alu.Ops.{
  int_ty, do_add, do_sub, do_mul, do_udiv, do_sdiv, do_urem, do_srem, do_and, do_or, do_xor,
}
use seahorn.Alu.OneBit.{if_Denotes}
use seahorn.Alu.Widths.{int_ty_one, int_ty_bv}
use seahorn.Alu.Casts.{as_sort, same_number}
use seahorn.Alu.Visitor.{
  Opcode, add, sub, mul, udiv, sdiv, urem, srem, and_op, or_op, xor_op, binary,
  visit_binary_operator,
}

-- The word operation that an opcode stands for. A floating-point operator has none.
unfoldable pub opcode_op : Opcode → Option BvOp
opcode_op add = some badd
opcode_op sub = some bsub
opcode_op mul = some bmul
opcode_op udiv = some budiv
opcode_op sdiv = some bsdiv
opcode_op urem = some burem
opcode_op srem = some bsrem
opcode_op and_op = some band
opcode_op or_op = some bor
opcode_op xor_op = some bxor
opcode_op _ = none

-- The operators that have a Boolean form.
unfoldable pub is_logical : Opcode → Bool
is_logical and_op = true
is_logical or_op = true
is_logical xor_op = true
is_logical _ = false

pub false_of : {b : Bool} → not b ≡ true → b ≡ false
false_of {b = true} h = cc
false_of {b = false} h = refl

bit_test : (x : ℕ) → x < 2 → (x % 2 == 1) ≡ (x == 1)
bit_test x h = ground arith

-- A one-bit word operation is the Boolean one.
bitwise-one :
    (l : BoolOp) (x y : ℕ) → x < 2 → y < 2 → bit (bool_op l (x == 1) (y == 1)) ≡ bitwise l 1 x y
unfolding bitwise
bitwise-one l x y p q = rw (bit_test x p) (rw (bit_test y q) (omega arith))

pub same_bv-bv : (w : ℕ) (f : ℕ → Option Sort) → same_bv (some (bv_ty w)) (some (bv_ty w)) f ≡ f w
unfolding same_bv
same_bv-bv w f = ground arith

pub same_bv-int :
    (w : ℕ) (f : ℕ → Option Sort)
    → same_bv (some (int_ty w)) (some (int_ty w)) f ≡ (if w == 1 then none else f w)
unfolding same_bv
same_bv-int w f = elim (Bool-cases (w == 1)) [
  | inl p ↦ rw p (rw (int_ty_one w p) refl)
  | inr p ↦ rw p (rw (int_ty_bv w p) (same_bv-bv w f))
]

int_or_none :
    (w : ℕ)
    → (if w == 1 then none else some (bv_ty w)) ≡ (if not (w == 1) then some (int_ty w) else none)
int_or_none w = elim (Bool-cases (w == 1)) [
  | inl p ↦ rw p refl
  | inr p ↦ rw p (rw (int_ty_bv w p) refl)
]

arith_sort :
    (op : BvOp) (a b : Term) (w : ℕ)
    → sort_of a ≡ some (int_ty w)
    → sort_of b ≡ some (int_ty w)
    → sort_of (binop op a b) ≡ (if not (w == 1) then some (int_ty w) else none)
unfolding sort_of
arith_sort op a b w s r = rw s (rw r (same_bv-int w (λ w. some (bv_ty w)) ∙ int_or_none w))

logical_sort :
    (l : BoolOp) (op : BvOp) (a b : Term) (w : ℕ)
    → sort_of a ≡ some (int_ty w)
    → sort_of b ≡ some (int_ty w)
    → sort_of (if w == 1 then logic l a b else binop op a b) ≡ some (int_ty w)
unfolding sort_of both_bool
logical_sort l op a b w s r = elim (Bool-cases (w == 1)) [
  | inl p ↦ rw p (rw s (rw r (rw (int_ty_one w p) refl)))
  | inr p ↦ rw p (arith_sort op a b w s r ∙ rw p refl)
]

module _ (e : Env) where
  pub binop-Denotes :
      (op : BvOp) (a b : Term) (w x y : ℕ)
      → Denotes e a (bv_ty w) x
      → Denotes e b (bv_ty w) y
      → Denotes e (binop op a b) (bv_ty w) (arith_op op w x y)
  unfolding sort_of same_bv eval width
  binop-Denotes op a b w x y (s, p) (r, q) = (
    rw s (rw r (same_bv-bv w (λ w. some (bv_ty w)))),
    ap (λ o. arith_op op (width o) (eval e a) (eval e b)) s ∙ ap₂ (λ x y. arith_op op w x y) p q,
  )

  pub logic-Denotes :
      (l : BoolOp) (a b : Term) (x y : ℕ)
      → Denotes e a bool_ty x
      → Denotes e b bool_ty y
      → Denotes e (logic l a b) bool_ty (bitwise l 1 x y)
  unfolding sort_of both_bool eval
  logic-Denotes l a b x y (s, p) (r, q) =
      let lt : x < 2 = subst (λ x. x < 2) p (eval_lt e a bool_ty s) in
      let lt' : y < 2 = subst (λ y. y < 2) q (eval_lt e b bool_ty r) in
      (
        rw s (rw r refl),
        ap₂ (λ x y. bit (bool_op l (x == 1) (y == 1))) p q ∙ bitwise-one l x y lt lt',
      )

  pub logical_Denotes :
      (l : BoolOp) (op : BvOp) (a b : Term) (w x y : ℕ)
      → ((w x y : ℕ) → arith_op op w x y ≡ bitwise l w x y)
      → Denotes e a (int_ty w) x
      → Denotes e b (int_ty w) y
      → Denotes e (if w == 1 then logic l a b else binop op a b) (int_ty w) (arith_op op w x y)
  logical_Denotes l op a b w x y h d d' =
      if_Denotes e (w == 1) _ _
        (λ p. as_sort e _ _ _ _ (sym (int_ty_one w p)) (
          same_number e _ _ _ _ (one_op p) (
            logic-Denotes l a b x y (as_sort e a _ _ x (int_ty_one w p) d)
              (as_sort e b _ _ y (int_ty_one w p) d'))))
        (λ p. as_sort e _ _ _ _ (sym (int_ty_bv w p)) (
          binop-Denotes op a b w x y (as_sort e a _ _ x (int_ty_bv w p) d)
            (as_sort e b _ _ y (int_ty_bv w p) d')))
    where
      one_op : (w == 1) ≡ true → bitwise l 1 x y ≡ arith_op op w x y
      one_op p = sym (h 1 x y) ∙ ap (λ w. arith_op op w x y) (sym ((==_iff w 1).0 p))

  pub arith_Denotes :
      (op : BvOp) (a b : Term) (w x y : ℕ)
      → (w == 1) ≡ false
      → Denotes e a (int_ty w) x
      → Denotes e b (int_ty w) y
      → Denotes e (binop op a b) (int_ty w) (arith_op op w x y)
  arith_Denotes op a b w x y p d d' = as_sort e _ _ _ _ (sym (int_ty_bv w p)) (
      binop-Denotes op a b w x y (as_sort e a _ _ x (int_ty_bv w p) d)
        (as_sort e b _ _ y (int_ty_bv w p) d'))

-- The type of an integer instruction's operands: one bit only for the logical operators.
unfoldable pub has_width : Opcode → ℕ → Bool
unfolding is_logical
has_width op w = is_logical op || not (w == 1)

-- For operands that are integers of `w` bits, an integer operator gives a term. It has the sort of
-- an integer of `w` bits if the operator is logical or `w` is not 1, and none otherwise.
pub visit_binary_operator_sort :
    (op : Opcode) (o : BvOp) (w : ℕ) (a b : Term)
    → opcode_op op ≡ some o
    → sort_of a ≡ some (int_ty w)
    → sort_of b ≡ some (int_ty w)
    → (t : Term) × (visit_binary_operator op w (some a) (some b) ≡ some t)
      × (sort_of t ≡ (if has_width op w then some (int_ty w) else none))
unfolding opcode_op is_logical has_width visit_binary_operator binary do_add do_sub do_mul do_udiv
    do_sdiv do_urem do_srem do_and do_or do_xor
visit_binary_operator_sort add o w a b h s r = (do_add a b w, refl, arith_sort badd a b w s r)
visit_binary_operator_sort sub o w a b h s r = (do_sub a b w, refl, arith_sort bsub a b w s r)
visit_binary_operator_sort mul o w a b h s r = (do_mul a b w, refl, arith_sort bmul a b w s r)
visit_binary_operator_sort udiv o w a b h s r = (do_udiv a b w, refl, arith_sort budiv a b w s r)
visit_binary_operator_sort sdiv o w a b h s r = (do_sdiv a b w, refl, arith_sort bsdiv a b w s r)
visit_binary_operator_sort urem o w a b h s r = (do_urem a b w, refl, arith_sort burem a b w s r)
visit_binary_operator_sort srem o w a b h s r = (do_srem a b w, refl, arith_sort bsrem a b w s r)
visit_binary_operator_sort and_op o w a b h s r =
    (do_and a b w, refl, logical_sort and band a b w s r)
visit_binary_operator_sort or_op o w a b h s r = (do_or a b w, refl, logical_sort or bor a b w s r)
visit_binary_operator_sort xor_op o w a b h s r =
    (do_xor a b w, refl, logical_sort xor bxor a b w s r)
visit_binary_operator_sort _ o w a b h s r = cc
