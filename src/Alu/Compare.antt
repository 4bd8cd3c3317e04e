-- ===== src/Alu/Compare.antt =====
-- `visitICmpInst` on integers: the sort and the value of its result.
use seahorn.Prelude.{
  ℕ, zero, suc, ◌-◌, ◌<◌, ◌≡◌, ◌∙◌, inl, inr, refl, sym, ap, ap₂, subst, Bool, true, false, not,
  ltb, ◌==◌, ==_iff, if◌then◌else◌, Option, none, some, arith, ◌||◌, Bool-cases,
}
use seahorn.Alu.Terms.{
  Sort, bool_ty, bv_ty, BvPred, bult, bslt, bugt, bsgt, bule, bsle, buge, bsge, Term, pred, sort_of,
  width, same_sort, same_bv,
}
use seahorn.Alu.Words.{bit, biased}
use seahorn.Alu.Meaning.{Env, pred_op, eval, Denotes}
use seahorn.Alu.Bounds.{eval_lt}
use seahorn.Alu.Ops.{
  int_ty, is_tru, bool_to_bv1, bv1_to_bool, lneg, do_eq, do_ne, do_ult, do_slt, do_ugt, do_sgt,
  do_ule, do_sle, do_uge, do_sge,
}
use seahorn.Alu.OneBit.{is_tru→, if_Denotes, bool_to_bv1-Denotes, lneg-Denotes}
use seahorn.Alu.Widths.{int_ty_one, int_ty_bv, same_sort-same}
use seahorn.Alu.Casts.{as_sort, same_number}
use seahorn.Alu.Visitor.{
  Cmp, icmp_eq, icmp_ne, icmp_ult, icmp_slt, icmp_ugt, icmp_sgt, icmp_ule, icmp_sle, icmp_uge,
  icmp_sge, compare_ints,
}
use seahorn.Alu.Binary.{false_of, same_bv-bv, same_bv-int}
use seahorn.Alu.Machine.{machine_icmp}

-- The comparisons of one-bit integers that have a term: equality, and `sgt` with the constant true.
unfoldable pub compares_bits : Cmp → Term → Bool
compares_bits icmp_eq b = true
compares_bits icmp_ne b = true
compares_bits icmp_sgt b = is_tru b
compares_bits _ b = false

unfoldable pub comparable : Cmp → ℕ → Term → Bool
unfolding compares_bits
comparable p w b = compares_bits p b || not (w == 1)

or-true : (b : Bool) → (b || true) ≡ true
or-true true = refl
or-true false = refl

some_env : Env
some_env = record { bools = λ k. false; words = λ k. 0 }

swap : (b : Bool) → (if b then none else some bool_ty) ≡ (if not b then some bool_ty else none)
swap true = refl
swap false = refl

eq_sort :
    (w : ℕ) (f : Sort → Option Sort)
    → same_sort (some (int_ty w)) (some (int_ty w)) f ≡ f (int_ty w)
eq_sort w f = same_sort-same (int_ty w) f

module _ (a b : Term) (w : ℕ) (s : sort_of a ≡ some (int_ty w))
    (r : sort_of b ≡ some (int_ty w)) where
  pred_sort : (p : BvPred) → sort_of (pred p a b) ≡ (if not (w == 1) then some bool_ty else none)
  unfolding sort_of
  pred_sort p = rw s (rw r (same_bv-int w (λ w. some bool_ty) ∙ swap (w == 1)))

  bit_sort : (w == 1) ≡ true → sort_of (bool_to_bv1 a) ≡ some (bv_ty 1)
  bit_sort p = (bool_to_bv1-Denotes some_env a _ (s ∙ ap some (int_ty_one w p), refl)).0

  bit_sort' : (w == 1) ≡ true → sort_of (bool_to_bv1 b) ≡ some (bv_ty 1)
  bit_sort' p = (bool_to_bv1-Denotes some_env b _ (r ∙ ap some (int_ty_one w p), refl)).0

  one_bit :
      (w == 1) ≡ true
      → sort_of
          (if is_tru b then lneg a else bv1_to_bool (pred bsgt (bool_to_bv1 a) (bool_to_bv1 b)))
        ≡ (if is_tru b || false then some bool_ty else none)
  unfolding sort_of same_bv same_sort bv1_to_bool
  one_bit p = elim (Bool-cases (is_tru b)) [
    | inl q ↦ rw q ((lneg-Denotes some_env a _ (s ∙ ap some (int_ty_one w p), refl)).0)
    | inr q ↦ rw q (rw (bit_sort p) (rw (bit_sort' p) refl))
  ]

  sgt_sort : sort_of (do_sgt a b w) ≡ (if is_tru b || not (w == 1) then some bool_ty else none)
  unfolding do_sgt sort_of
  sgt_sort = elim (Bool-cases (w == 1)) [
    | inl p ↦ rw p (one_bit p)
    | inr p ↦ rw p (rw (or-true (is_tru b)) (pred_sort bsgt ∙ rw p refl))
  ]

  -- For integers of `w` bits, a comparison has the sort of a Boolean if it is an equality, `w` is
  -- not 1, or it is `sgt` with the constant true, and no sort otherwise.
  pub compare_ints_sort :
      (p : Cmp) → sort_of (compare_ints p a b w) ≡ (if comparable p w b then some bool_ty else none)
  unfolding compare_ints comparable compares_bits do_eq do_ne do_ult do_slt do_ugt do_ule do_sle
      do_uge do_sge sort_of
  compare_ints_sort icmp_eq = rw s (rw r (eq_sort w _))
  compare_ints_sort icmp_ne = rw s (rw r (eq_sort w _))
  compare_ints_sort icmp_ult = pred_sort bult
  compare_ints_sort icmp_slt = pred_sort bslt
  compare_ints_sort icmp_ugt = pred_sort bugt
  compare_ints_sort icmp_sgt = sgt_sort
  compare_ints_sort icmp_ule = pred_sort bule
  compare_ints_sort icmp_sle = pred_sort bsle
  compare_ints_sort icmp_uge = pred_sort buge
  compare_ints_sort icmp_sge = pred_sort bsge

pub pred-Denotes :
    (e : Env) (p : BvPred) (a b : Term) (w x y : ℕ)
    → Denotes e a (bv_ty w) x
    → Denotes e b (bv_ty w) y
    → Denotes e (pred p a b) bool_ty (bit (pred_op p w x y))
unfolding sort_of eval width
pred-Denotes e p a b w x y (s, h) (r, q) = (
  rw s (rw r (same_bv-bv w (λ w. some bool_ty))),
  ap (λ o. bit (pred_op p (width o) (eval e a) (eval e b))) s
      ∙ ap₂ (λ x y. bit (pred_op p w x y)) h q,
)

sgt_one : (x : ℕ) → x < 2 → 1 - x ≡ bit (ltb (biased 1 1) (biased 1 x))
sgt_one zero h = refl
sgt_one (suc zero) h = refl
sgt_one (suc (suc x)) h = absurd (omega arith)

sgt_bits :
    (w x y : ℕ) → (w == 1) ≡ true → x < 2 → y ≡ 1 → 1 - x ≡ bit (ltb (biased w y) (biased w x))
sgt_bits w x y p h q =
    sgt_one x h ∙ ap₂ (λ w y. bit (ltb (biased w y) (biased w x))) (sym ((==_iff w 1).0 p)) (sym q)

module _ (e : Env) (w : ℕ) (a b : Term) (x y : ℕ) (d : Denotes e a (int_ty w) x)
    (d' : Denotes e b (int_ty w) y) where
  pred_result :
      (p : BvPred) → not (w == 1) ≡ true → Denotes e (pred p a b) bool_ty (bit (pred_op p w x y))
  pred_result p h =
      let n = int_ty_bv w (false_of h) in
      pred-Denotes e p a b w x y (as_sort e a _ _ x n d) (as_sort e b _ _ y n d')

  lneg_sgt :
      (w == 1) ≡ true
      → is_tru b ≡ true
      → Denotes e (lneg a) bool_ty (bit (ltb (biased w y) (biased w x)))
  unfolding eval
  lneg_sgt p q =
      let d1 : Denotes e a bool_ty x = as_sort e a _ _ x (int_ty_one w p) d in
      let lt : x < 2 = subst (λ x. x < 2) d1.1 (eval_lt e a bool_ty d1.0) in
      let one : y ≡ 1 = sym d'.1 ∙ ap (eval e) (is_tru→ b q) in
      same_number e (lneg a) bool_ty _ _ (sgt_bits w x y p lt one) (lneg-Denotes e a x d1)

  sgt_result :
      is_tru b || not (w == 1) ≡ true
      → Denotes e (do_sgt a b w) bool_ty (bit (ltb (biased w y) (biased w x)))
  unfolding do_sgt pred_op
  sgt_result h =
      if_Denotes e (w == 1) _ _ (λ p. if_Denotes e (is_tru b) _ _ (λ q. lneg_sgt p q) (λ q. cc))
        (λ p. pred_result bsgt (rw p refl))

  -- For operands that denote the integers `x` and `y` of `w` bits, a comparison that has a sort
  -- denotes its result on them.
  pub compare_ints_correct :
      (p : Cmp)
      → comparable p w b ≡ true
      → Denotes e (compare_ints p a b w) bool_ty (bit (machine_icmp p w x y))
  unfolding compare_ints comparable compares_bits do_eq do_ne do_ult do_slt do_ugt do_ule do_sle
      do_uge do_sge sort_of eval machine_icmp pred_op
  compare_ints_correct icmp_eq h =
      (rw d.0 (rw d'.0 (eq_sort w (λ s. some bool_ty))), ap₂ (λ x y. bit (x == y)) d.1 d'.1)
  compare_ints_correct icmp_ne h =
      (rw d.0 (rw d'.0 (eq_sort w (λ s. some bool_ty))), ap₂ (λ x y. bit (not (x == y))) d.1 d'.1)
  compare_ints_correct icmp_ult h = pred_result bult h
  compare_ints_correct icmp_slt h = pred_result bslt h
  compare_ints_correct icmp_ugt h = pred_result bugt h
  compare_ints_correct icmp_sgt h = sgt_result h
  compare_ints_correct icmp_ule h = pred_result bule h
  compare_ints_correct icmp_sle h = pred_result bsle h
  compare_ints_correct icmp_uge h = pred_result buge h
  compare_ints_correct icmp_sge h = pred_result bsge h
