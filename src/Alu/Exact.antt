-- ===== src/Alu/Exact.antt =====
-- When a wrapped sum, difference or product is the exact one.
use seahorn.Prelude.{
  ℕ, ◌+◌, ◌-◌, ◌*◌, ◌%◌, ◌^◌, ◌≤◌, ◌<◌, ◌≡◌, ◌∙◌, ◌↔◌, ap, subst, Bool, true, ltb, leb, lt→ltb,
  ltb→lt, if◌then◌else◌, arith, ◌&&◌,
}
use seahorn.Alu.Product.{small_mod, mod_lt_of, shifted, prod_exact}
use seahorn.Alu.Terms.{
  sadd_no_overflow, uadd_no_overflow, sadd_no_underflow, ssub_no_overflow, ssub_no_underflow,
  usub_no_underflow, smul_no_overflow, smul_no_underflow, umul_no_overflow,
}
use seahorn.Alu.Words.{half, bv_add, bv_sub, bv_mul, biased}
use seahorn.Alu.Meaning.{pred_op}
use seahorn.Alu.Bounds.{pow_pos, pow_half}
use seahorn.Alu.Visitor.{OverflowOp, sadd, uadd, ssub, usub, smul, umul}

-- The wrapped result.
unfoldable pub wrapped : OverflowOp → ℕ → ℕ → ℕ → ℕ
unfolding bv_add bv_sub bv_mul
wrapped sadd w x y = bv_add w x y
wrapped uadd w x y = bv_add w x y
wrapped ssub w x y = bv_sub w x y
wrapped usub w x y = bv_sub w x y
wrapped smul w x y = bv_mul w x y
wrapped umul w x y = bv_mul w x y

-- `r` is the exact result on `x` and `y`. A signed word `x` stands for `biased w x - half w`, and
-- the equation is the one between these numbers, without a subtraction.
unfoldable pub Exact : OverflowOp → ℕ → ℕ → ℕ → ℕ → Type 0
Exact sadd w x y r = biased w r + half w ≡ biased w x + biased w y
Exact uadd w x y r = r ≡ x + y
Exact ssub w x y r = biased w r + biased w y ≡ biased w x + half w
Exact usub w x y r = r + y ≡ x
Exact smul w x y r =
    biased w r + half w * biased w x + half w * biased w y
    ≡ biased w x * biased w y + half w * half w + half w
Exact umul w x y r = r ≡ x * y

-- No overflow by the tests that the intrinsic makes.
unfoldable pub fits : OverflowOp → ℕ → ℕ → ℕ → Bool
unfolding pred_op
fits sadd w x y = pred_op sadd_no_overflow w x y && pred_op sadd_no_underflow w x y
fits uadd w x y = pred_op uadd_no_overflow w x y
fits ssub w x y = pred_op ssub_no_overflow w x y && pred_op ssub_no_underflow w x y
fits usub w x y = pred_op usub_no_underflow w x y
fits smul w x y = pred_op smul_no_overflow w x y && pred_op smul_no_underflow w x y
fits umul w x y = pred_op umul_no_overflow w x y

wrap_over : (k m : ℕ) → k < m → (k + m) % m ≡ k
wrap_over k m h = grind arith

wrap_sum_over : (x y m : ℕ) → x < m → y < m → m ≤ x + y → (x + y) % m ≡ x + y - m
wrap_sum_over x y m p q h = ap (λ k. k % m) (omega arith) ∙ wrap_over (x + y - m) m (omega arith)

wrap_sum : (x y m : ℕ) → x < m → y < m → (x + y) % m ≡ (if ltb (x + y) m then x + y else x + y - m)
wrap_sum x y m p q = ground (arith, small_mod (x + y) m, wrap_sum_over x y m)

wrap_diff_over : (x y m : ℕ) → x < m → y ≤ x → (x + (m - y)) % m ≡ x - y
wrap_diff_over x y m p h = ap (λ k. k % m) (omega arith) ∙ wrap_over (x - y) m (omega arith)

wrap_diff : (x y m : ℕ) → x < m → y < m → (x + (m - y)) % m ≡ (if leb y x then x - y else x + m - y)
wrap_diff x y m p q = ground (arith, small_mod (x + (m - y)) m, wrap_diff_over x y m)

module _ (h m x y r : ℕ) (e : m ≡ 2 * h) (p : x < m) (q : y < m) where
  sum_exact :
      r ≡ (if ltb (x + y) m then x + y else x + y - m)
      → (ltb (shifted h x + shifted h y) (3 * h) && leb h (shifted h x + shifted h y) ≡ true)
        ↔ (shifted h r + h ≡ shifted h x + shifted h y)
  sum_exact u = ground arith

  diff_exact :
      r ≡ (if leb y x then x - y else x + m - y)
      → (ltb (shifted h x) (shifted h y + h) && leb (shifted h y) (shifted h x + h) ≡ true)
        ↔ (shifted h r + shifted h y ≡ shifted h x + h)
  diff_exact u = ground arith

  usum_exact :
      r ≡ (if ltb (x + y) m then x + y else x + y - m) → (ltb (x + y) m ≡ true) ↔ (r ≡ x + y)
  usum_exact u = ground arith

  udiff_exact : r ≡ (if leb y x then x - y else x + m - y) → (leb y x ≡ true) ↔ (r + y ≡ x)
  udiff_exact u = ground arith

uprod_exact : (m z : ℕ) → 1 ≤ m → (ltb z m ≡ true) ↔ (z % m ≡ z)
uprod_exact m z h = (
  λ lt. small_mod z m (ltb→lt z m lt),
  λ eq. lt→ltb z m (subst (λ k. k < m) eq (mod_lt_of z m h)),
)

-- The tests of an intrinsic succeed iff the wrapped result is the exact one.
pub fits-Exact :
    (op : OverflowOp) (w x y : ℕ)
    → 1 ≤ w
    → x < 2 ^ w
    → y < 2 ^ w
    → (fits op w x y ≡ true) ↔ Exact op w x y (wrapped op w x y)
unfolding fits Exact wrapped pred_op bv_add bv_sub bv_mul
fits-Exact sadd w x y h p q =
    sum_exact (half w) (2 ^ w) x y _ (pow_half w h) p q (wrap_sum x y (2 ^ w) p q)
fits-Exact uadd w x y h p q =
    usum_exact (half w) (2 ^ w) x y _ (pow_half w h) p q (wrap_sum x y (2 ^ w) p q)
fits-Exact ssub w x y h p q =
    diff_exact (half w) (2 ^ w) x y _ (pow_half w h) p q (wrap_diff x y (2 ^ w) p q)
fits-Exact usub w x y h p q =
    udiff_exact (half w) (2 ^ w) x y _ (pow_half w h) p q (wrap_diff x y (2 ^ w) p q)
fits-Exact smul w x y h p q = prod_exact (half w) (2 ^ w) x y (pow_pos (w - 1)) (pow_half w h) p q
fits-Exact umul w x y h p q = uprod_exact (2 ^ w) (x * y) (pow_pos w)
