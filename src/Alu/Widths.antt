-- ===== src/Alu/Widths.antt =====
-- The sort of an integer by its width, and the tests on widths that the casts make.
use seahorn.Prelude.{
  ℕ, suc, ◌-◌, ◌/◌, ◌%◌, ◌^◌, ◌≤◌, ◌<◌, ◌≡◌, refl, true, false, ltb, leb, ◌==◌, if◌then◌else◌,
  Option, none, some, arith, ◌&&◌,
}
use seahorn.Alu.Terms.{Sort, bool_ty, bv_ty, same_sort}
use seahorn.Alu.Bounds.{pow_mono}
use seahorn.Alu.Ops.{int_ty}

pub int_ty_one : (w : ℕ) → (w == 1) ≡ true → int_ty w ≡ bool_ty
unfolding int_ty
int_ty_one w h = rw h refl

pub int_ty_bv : (w : ℕ) → (w == 1) ≡ false → int_ty w ≡ bv_ty w
unfolding int_ty
int_ty_bv w h = rw h refl

pub in_word :
    (lo hi w : ℕ) (o : Option Sort)
    → lo ≤ hi
    → hi < w
    → (if leb lo hi && ltb hi w then o else none) ≡ o
in_word lo hi w o p q = ground arith

pub two_le : (k : ℕ) → 1 < k → 1 < 2 ^ k
two_le k h = omega (arith, pow_mono 1 k (omega arith))

pub bit_value : (x : ℕ) → x < 2 → (if x == 1 then 1 else 0) ≡ x
bit_value x h = ground arith

pub wide : (w k : ℕ) (o : Option Sort) → w ≤ k → (if leb w k then o else none) ≡ o
wide w k o h = ground arith

pub small_mod : (n w : ℕ) → n < 2 ^ w → n % 2 ^ w ≡ n
small_mod n w h = grind arith

pub same_sort-same : (s : Sort) (f : Sort → Option Sort) → same_sort (some s) (some s) f ≡ f s
unfolding same_sort
same_sort-same bool_ty f = refl
same_sort-same (bv_ty w) f = ground arith

pub div_one : (x : ℕ) → x / 2 ^ 0 ≡ x
div_one x = omega arith

pub one_bit : (begin end : ℕ) → begin ≤ end → (suc end - begin == 1) ≡ (end == begin)
one_bit begin end p = ground arith
