-- ===== src/Alu/Terms.antt =====
-- The terms of include/seahorn/Expr/ExprOpBv.hh that the arithmetic unit builds, with the sorts
-- that SMT-LIB gives to their operators.
use seahorn.Prelude.{ℕ, suc, ◌+◌, ◌-◌, ◌&&◌, Option, none, some, ltb, leb, ◌==◌, if◌then◌else◌}

pub data ℤ : Type 0 where
  pos negsuc : ℕ → ℤ

pub data Sort : Type 0 where
  bool_ty : Sort
  bv_ty : ℕ → Sort

pub data BoolOp : Type 0 where
  and or xor : BoolOp

-- `BvOpKind`: the operators that take and give bit-vectors
pub data BvOp : Type 0 where
  badd bsub bmul budiv bsdiv burem bsrem band bor bxor bshl blshr bashr : BvOp

-- and those that give a Boolean
pub data BvPred : Type 0 where
  bult bslt bugt bsgt bule bsle buge bsge : BvPred
  sadd_no_overflow uadd_no_overflow sadd_no_underflow : BvPred
  ssub_no_overflow ssub_no_underflow usub_no_underflow : BvPred
  smul_no_overflow smul_no_underflow umul_no_overflow : BvPred

pub data Term : Type 0 where
  tru fls : Term
  bool_const : ℕ → Term
  bv_const : ℕ → ℕ → Term
  bvnum : ℤ → ℕ → Term
  logic : BoolOp → Term → Term → Term
  neg : Term → Term
  binop : BvOp → Term → Term → Term
  pred : BvPred → Term → Term → Term
  eq neq : Term → Term → Term
  ite : Term → Term → Term → Term
  bnot : Term → Term
  bextract : ℕ → ℕ → Term → Term
  bsext bzext : Term → ℕ → Term
  bconcat : Term → Term → Term

-- The sorts of the operators. An ill-sorted application has none.
unfoldable pub both_bool : Option Sort → Option Sort → Option Sort
both_bool (some bool_ty) (some bool_ty) = some bool_ty
both_bool _ _ = none

unfoldable pub if_bv : Option Sort → (ℕ → Option Sort) → Option Sort
if_bv (some (bv_ty w)) f = f w
if_bv _ f = none

unfoldable pub if_bool : Option Sort → Option Sort → Option Sort
if_bool (some bool_ty) o = o
if_bool _ o = none

unfoldable pub same_sort : Option Sort → Option Sort → (Sort → Option Sort) → Option Sort
same_sort (some bool_ty) (some bool_ty) f = f bool_ty
same_sort (some (bv_ty v)) (some (bv_ty w)) f = if v == w then f (bv_ty v) else none
same_sort _ _ f = none

unfoldable pub same_bv : Option Sort → Option Sort → (ℕ → Option Sort) → Option Sort
same_bv (some (bv_ty v)) (some (bv_ty w)) f = if v == w then f v else none
same_bv _ _ f = none

unfoldable pub sort_of : Term → Option Sort
unfolding both_bool if_bv if_bool same_sort same_bv
sort_of tru = some bool_ty
sort_of fls = some bool_ty
sort_of (bool_const k) = some bool_ty
sort_of (bv_const k w) = some (bv_ty w)
sort_of (bvnum v w) = some (bv_ty w)
sort_of (logic op a b) = both_bool (sort_of a) (sort_of b)
sort_of (neg a) = if_bool (sort_of a) (some bool_ty)
sort_of (binop op a b) = same_bv (sort_of a) (sort_of b) (λ w. some (bv_ty w))
sort_of (pred p a b) = same_bv (sort_of a) (sort_of b) (λ w. some bool_ty)
sort_of (eq a b) = same_sort (sort_of a) (sort_of b) (λ s. some bool_ty)
sort_of (neq a b) = same_sort (sort_of a) (sort_of b) (λ s. some bool_ty)
sort_of (ite c a b) = if_bool (sort_of c) (same_sort (sort_of a) (sort_of b) some)
sort_of (bnot a) = if_bv (sort_of a) (λ w. some (bv_ty w))
sort_of (bextract hi lo a) =
    if_bv (sort_of a) (λ w. if leb lo hi && ltb hi w then some (bv_ty (suc hi - lo)) else none)
sort_of (bsext a k) = if_bv (sort_of a) (λ w. if leb w k then some (bv_ty k) else none)
sort_of (bzext a k) = if_bv (sort_of a) (λ w. if leb w k then some (bv_ty k) else none)
sort_of (bconcat a b) = if_bv (sort_of a) (λ v. if_bv (sort_of b) (λ w. some (bv_ty (v + w))))

-- the width of a sort; a Boolean counts as one bit
unfoldable pub width : Option Sort → ℕ
width (some (bv_ty w)) = w
width (some bool_ty) = 1
width none = 0
