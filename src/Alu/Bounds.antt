-- ===== src/Alu/Bounds.antt =====
-- The values of the word operations and of the terms stay below `2 ^ w`.
use seahorn.Prelude.{
  ℕ, zero, suc, ◌+◌, ◌-◌, ◌*◌, ◌/◌, ◌%◌, ◌^◌, ◌≤◌, ◌<◌, ◌≡◌, sym, ap, subst, Bool, true, false, not,
  ltb, leb, ◌==◌, if◌then◌else◌, Option, none, some, arith, ◌&&◌, leb→le,
}
use seahorn.Alu.Terms.{
  ℤ, pos, negsuc, Sort, bool_ty, bv_ty, BoolOp, and, or, xor, BvOp, badd, bsub, bmul, budiv, bsdiv,
  burem, bsrem, band, bor, bxor, bshl, blshr, bashr, Term, tru, fls, bool_const, bv_const, bvnum,
  logic, neg, binop, pred, eq, neq, ite, bnot, bextract, bsext, bzext, bconcat, sort_of, width,
}
use seahorn.Alu.Words.{
  half, bit, num_value, bool_op, bitwise, bv_add, bv_neg, bv_sub, bv_mul, bv_udiv, bv_urem,
  negative, magnitude, bv_sdiv, bv_srem, bv_shl, bv_lshr, bv_ashr,
}
use seahorn.Alu.Meaning.{Env, arith_op, pred_op, sext_value, eval}
use seahorn.Alu.Sorts.{
  if_bv-inv, if_bool-inv, both_bool-inv, if_some-inv, same_bv-inv, same_sort-inv,
}

pub pow_pos : (w : ℕ) → 1 ≤ 2 ^ w
pow_pos zero = omega arith
pow_pos (suc w) = grind (arith, pow_pos w)

pub pow_half : (w : ℕ) → 1 ≤ w → 2 ^ w ≡ 2 * half w
pow_half zero h = absurd (omega arith)
pow_half (suc w) h = grind arith

pub pow_mono : (v w : ℕ) → v ≤ w → 2 ^ v ≤ 2 ^ w
pow_mono zero w h = pow_pos w
pow_mono (suc v) zero h = absurd (omega arith)
pow_mono (suc v) (suc w) h = grind (arith, pow_mono v w (omega arith))

pub bit_lt : (b : Bool) → bit b < 2
bit_lt true = omega arith
bit_lt false = omega arith

pub mod_lt : (x w : ℕ) → x % 2 ^ w < 2 ^ w
mod_lt x w = grind (arith, pow_pos w)

num_value_lt : (w : ℕ) (v : ℤ) → num_value w v < 2 ^ w
unfolding num_value
num_value_lt w (pos n) = mod_lt n w
num_value_lt w (negsuc n) = omega (arith, pow_pos w)

bitwise_lt : (op : BoolOp) (w x y : ℕ) → bitwise op w x y < 2 ^ w
unfolding bitwise
bitwise_lt op zero x y = omega arith
bitwise_lt op (suc w) x y =
    grind (arith, bitwise_lt op w (x / 2) (y / 2), bit_lt (bool_op op (x % 2 == 1) (y % 2 == 1)))

div_le : (x y : ℕ) → x / y ≤ x
div_le x zero = omega arith
div_le x (suc y) = grind arith

mod_le : (x y : ℕ) → x % y ≤ x
mod_le x zero = omega arith
mod_le x (suc y) = grind arith

bv_udiv_lt : (w x y : ℕ) → x < 2 ^ w → bv_udiv w x y < 2 ^ w
unfolding bv_udiv
bv_udiv_lt w x y h = ground (arith, div_le x y)

bv_urem_lt : (w x y : ℕ) → x < 2 ^ w → bv_urem w x y < 2 ^ w
unfolding bv_urem
bv_urem_lt w x zero h = h
bv_urem_lt w x (suc y) h = ground (arith, mod_le x (suc y))

-- A magnitude is at most `half w`, a wrapped word below `2 ^ w`.
magnitude_le : (w x : ℕ) → 1 ≤ w → x < 2 ^ w → magnitude w x ≤ half w
magnitude_le w x p h = ground (arith, pow_half w p)

bv_neg_lt : (w x : ℕ) → bv_neg w x < 2 ^ w
unfolding bv_neg
bv_neg_lt w x = mod_lt (2 ^ w - x) w

neg_if_lt : (b : Bool) (w x : ℕ) → x < 2 ^ w → (if b then bv_neg w x else x) < 2 ^ w
neg_if_lt true w x h = bv_neg_lt w x
neg_if_lt false w x h = h

magnitude_lt : (w x : ℕ) → x < 2 ^ w → magnitude w x < 2 ^ w
magnitude_lt zero x h = ground arith
magnitude_lt (suc w) x h =
    omega (arith, magnitude_le (suc w) x (omega arith) h, pow_half (suc w) (omega arith), pow_pos w)

bv_sdiv_lt : (w x y : ℕ) → x < 2 ^ w → bv_sdiv w x y < 2 ^ w
unfolding bv_sdiv
bv_sdiv_lt w x y h =
    neg_if_lt (bool_op xor (negative w x) (negative w y)) w _
      (bv_udiv_lt w (magnitude w x) (magnitude w y) (magnitude_lt w x h))

bv_srem_lt : (w x y : ℕ) → x < 2 ^ w → bv_srem w x y < 2 ^ w
unfolding bv_srem
bv_srem_lt w x y h =
    neg_if_lt (negative w x) w _ (bv_urem_lt w (magnitude w x) (magnitude w y) (magnitude_lt w x h))

bv_ashr_lt : (w x y : ℕ) → x < 2 ^ w → bv_ashr w x y < 2 ^ w
unfolding bv_ashr
bv_ashr_lt w x y h = ground (arith, div_le x (2 ^ y), pow_pos w)

pub arith_op_lt : (op : BvOp) (w x y : ℕ) → x < 2 ^ w → arith_op op w x y < 2 ^ w
unfolding arith_op bv_add bv_sub bv_mul bv_shl bv_lshr
arith_op_lt badd w x y h = mod_lt (x + y) w
arith_op_lt bsub w x y h = mod_lt (x + (2 ^ w - y)) w
arith_op_lt bmul w x y h = mod_lt (x * y) w
arith_op_lt budiv w x y h = bv_udiv_lt w x y h
arith_op_lt bsdiv w x y h = bv_sdiv_lt w x y h
arith_op_lt burem w x y h = bv_urem_lt w x y h
arith_op_lt bsrem w x y h = bv_srem_lt w x y h
arith_op_lt band w x y h = bitwise_lt and w x y
arith_op_lt bor w x y h = bitwise_lt or w x y
arith_op_lt bxor w x y h = bitwise_lt xor w x y
arith_op_lt bshl w x y h = mod_lt (x * 2 ^ y) w
arith_op_lt blshr w x y h = omega (arith, div_le x (2 ^ y))
arith_op_lt bashr w x y h = bv_ashr_lt w x y h

sext_value_lt : (w k x : ℕ) → w ≤ k → x < 2 ^ w → sext_value w k x < 2 ^ k
unfolding sext_value
sext_value_lt w k x p h = ground (arith, pow_mono w k p)

pow_suc : (n : ℕ) → 2 ^ suc n ≡ 2 * 2 ^ n
pow_suc n = grind arith

pub pow_add : (v w : ℕ) → 2 ^ (v + w) ≡ 2 ^ v * 2 ^ w
pow_add zero w = grind arith
pow_add (suc v) w = grind (arith, pow_add v w, pow_suc (v + w), pow_suc v)

concat_lt : (v w x y : ℕ) → x < 2 ^ v → y < 2 ^ w → x * 2 ^ w + y < 2 ^ (v + w)
concat_lt v w x y p q = grind (arith, pow_add v w)

-- The values of a sort.
abbrev pub sort_size : Sort → ℕ
sort_size bool_ty = 2
sort_size (bv_ty w) = 2 ^ w

size_of : Option Sort → ℕ
size_of none = 0
size_of (some s) = sort_size s

at_sort : (x : ℕ) (r s : Sort) → some r ≡ some s → x < sort_size r → x < sort_size s
unfolding size_of
at_sort x r s h lt = subst (λ o. x < size_of o) h lt

if_lt : (b : Bool) (x y n : ℕ) → x < n → y < n → (if b then x else y) < n
if_lt true x y n p q = p
if_lt false x y n p q = q

module _ (e : Env) where
  pub eval_lt : (t : Term) (s : Sort) → sort_of t ≡ some s → eval e t < sort_size s
  unfolding sort_of eval
  eval_lt tru s h = at_sort 1 bool_ty s h (omega arith)
  eval_lt fls s h = at_sort 0 bool_ty s h (omega arith)
  eval_lt (bool_const k) s h = at_sort _ bool_ty s h (bit_lt (e.bools k))
  eval_lt (bv_const k w) s h = at_sort _ (bv_ty w) s h (mod_lt (e.words k) w)
  eval_lt (bvnum v w) s h = at_sort _ (bv_ty w) s h (num_value_lt w v)
  eval_lt (logic op a b) s h =
      let (_, _, r) = both_bool-inv (sort_of a) (sort_of b) s h in
      at_sort _ bool_ty s (ap some r) (bit_lt (bool_op op (eval e a == 1) (eval e b == 1)))
  eval_lt (neg a) s h =
      let (p, r) = if_bool-inv (sort_of a) _ s h in at_sort _ bool_ty s r (omega arith)
  eval_lt (binop op a b) s h =
      let (w, p, q, r) = same_bv-inv (sort_of a) (sort_of b) _ s h in
      at_sort _ (bv_ty w) s r (
        subst (λ o. arith_op op (width o) (eval e a) (eval e b) < 2 ^ w) (sym p)
          (arith_op_lt op w (eval e a) (eval e b) (eval_lt a (bv_ty w) p)))
  eval_lt (pred p a b) s h =
      let (w, _, _, r) = same_bv-inv (sort_of a) (sort_of b) _ s h in
      at_sort _ bool_ty s r (bit_lt (pred_op p (width (sort_of a)) (eval e a) (eval e b)))
  eval_lt (eq a b) s h =
      let (t, _, _, r) = same_sort-inv (sort_of a) (sort_of b) _ s h in
      at_sort _ bool_ty s r (bit_lt (eval e a == eval e b))
  eval_lt (neq a b) s h =
      let (t, _, _, r) = same_sort-inv (sort_of a) (sort_of b) _ s h in
      at_sort _ bool_ty s r (bit_lt (not (eval e a == eval e b)))
  eval_lt (ite c a b) s h =
      let (_, q) = if_bool-inv (sort_of c) _ s h in
      let (t, p, q, r) = same_sort-inv (sort_of a) (sort_of b) some s q in
      at_sort _ t s r (if_lt (eval e c == 1) _ _ (sort_size t) (eval_lt a t p) (eval_lt b t q))
  eval_lt (bnot a) s h =
      let (w, p, r) = if_bv-inv (sort_of a) _ s h in
      at_sort _ (bv_ty w) s r
        (subst (λ o. 2 ^ width o - 1 - eval e a < 2 ^ w) (sym p) (omega (arith, pow_pos w)))
  eval_lt (bextract hi lo a) s h =
      let (w, p, q) = if_bv-inv (sort_of a) _ s h in
      let (_, r) = if_some-inv (leb lo hi && ltb hi w) _ s q in
      at_sort _ (bv_ty (suc hi - lo)) s r (mod_lt (eval e a / 2 ^ lo) (suc hi - lo))
  eval_lt (bsext a k) s h =
      let (w, p, q) = if_bv-inv (sort_of a) _ s h in
      let (le, r) = if_some-inv (leb w k) _ s q in
      at_sort _ (bv_ty k) s r (
        subst (λ o. sext_value (width o) k (eval e a) < 2 ^ k) (sym p)
          (sext_value_lt w k (eval e a) (leb→le w k le) (eval_lt a (bv_ty w) p)))
  eval_lt (bzext a k) s h =
      let (w, p, q) = if_bv-inv (sort_of a) _ s h in
      let (le, r) = if_some-inv (leb w k) _ s q in
      at_sort _ (bv_ty k) s r (omega (arith, pow_mono w k (leb→le w k le), eval_lt a (bv_ty w) p))
  eval_lt (bconcat a b) s h =
      let (v, p, q) = if_bv-inv (sort_of a) _ s h in
      let (w, q', r) = if_bv-inv (sort_of b) _ s q in
      at_sort _ (bv_ty (v + w)) s r (
        subst (λ o. eval e a * 2 ^ width o + eval e b < 2 ^ (v + w)) (sym q')
          (concat_lt v w _ _ (eval_lt a (bv_ty v) p) (eval_lt b (bv_ty w) q')))
