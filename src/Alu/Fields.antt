-- ===== src/Alu/Fields.antt =====
-- `insertvalue` changes the bits of its field and no other, and `extractvalue` reads them.
use seahorn.Prelude.{
  ℕ, suc, ◌+◌, ◌-◌, ◌*◌, ◌/◌, ◌%◌, ◌^◌, ◌≤◌, ◌<◌, ◌≡◌, ◌∙◌, inl, inr, refl, sym, ap, subst, Bool,
  true, false, not, ltb, ltb→lt, ◌==◌, ==_iff, if◌then◌else◌, arith, ◌||◌, Bool-cases,
}
use seahorn.Alu.Terms.{bv_ty, Term}
use seahorn.Alu.Meaning.{Env, Denotes}
use seahorn.Alu.Bounds.{pow_pos, mod_lt, pow_add, sort_size, eval_lt}
use seahorn.Alu.Ops.{int_ty, extract, concat}
use seahorn.Alu.Widths.{int_ty_one, int_ty_bv}
use seahorn.Alu.Casts.{
  as_sort, as_bv, bconcat-Denotes, concat_correct, same_number, extract_range, extract_low,
}
use seahorn.Alu.Overflow.{low_part, high_part, plain}
use seahorn.Alu.Product.{small_mod}
use seahorn.Alu.Aggregate.{insert_bits}

-- A one-bit field that has bits on both sides is inserted wrongly.
abbrev pub insertable : ℕ → ℕ → ℕ → Bool
insertable k begin n = not (k == 1) || not (ltb 0 begin) || not (ltb (begin + k) n)

-- the number `x` with the bits from `b` to `b + k` replaced by `v`
abbrev pub replaced : ℕ → ℕ → ℕ → ℕ → ℕ
replaced x b k v = x / 2 ^ (b + k) * 2 ^ (b + k) + (v * 2 ^ b + x % 2 ^ b)

middle_lt : (v lo k b : ℕ) → v < 2 ^ k → lo < 2 ^ b → v * 2 ^ b + lo < 2 ^ (k + b)
middle_lt v lo k b p q = grind (arith, pow_add k b)

regroup : (x b k v : ℕ) → replaced x b k v ≡ (x / 2 ^ (b + k) * 2 ^ k + v) * 2 ^ b + x % 2 ^ b
regroup x b k v = grind (arith, pow_add b k)

below_div : (x m : ℕ) → x < m → x / m ≡ 0
below_div x m h = grind arith

div_lt : (x m p : ℕ) → 1 ≤ m → x < m * p → x / m < p
div_lt x m p one h = grind arith

top_lt : (x j i : ℕ) → x < 2 ^ (j + i) → x / 2 ^ j < 2 ^ i
top_lt x j i h = div_lt x (2 ^ j) (2 ^ i) (pow_pos j) (subst (λ m. x < m) (pow_add j i) h)

at_zero : (x b k v h : ℕ) → b ≡ 0 → h * 2 ^ k + v ≡ h * 2 ^ (b + k) + (v * 2 ^ b + x % 2 ^ b)
at_zero x b k v h z = grind (arith, ap (λ j. 2 ^ j) z, ap (λ j. 2 ^ j) (same b k z), zero_mod x b z)
  where
    same : (b k : ℕ) → b ≡ 0 → b + k ≡ k
    same b k z = omega arith

    zero_mod : (x b : ℕ) → b ≡ 0 → x % 2 ^ b ≡ 0
    zero_mod x b z = ap (λ j. x % 2 ^ j) z ∙ omega arith

no_high : (h m r : ℕ) → h ≡ 0 → r ≡ h * m + r
no_high h m r z = grind arith

replaced_parts :
    (x b k v : ℕ)
    → v < 2 ^ k
    → (replaced x b k v / 2 ^ b % 2 ^ k ≡ v)
      × (replaced x b k v % 2 ^ b ≡ x % 2 ^ b)
      × (replaced x b k v / 2 ^ (b + k) ≡ x / 2 ^ (b + k))
replaced_parts x b k v lt =
    let low = mod_lt x b in
    let mid =
      subst (λ n. v * 2 ^ b + x % 2 ^ b < 2 ^ n) (omega arith)
        (middle_lt v (x % 2 ^ b) k b lt low) in
    let shape = regroup x b k v in
    (
      ap (λ z. z / 2 ^ b % 2 ^ k) shape
          ∙ ap (λ z. z % 2 ^ k) (high_part (x / 2 ^ (b + k) * 2 ^ k + v) (x % 2 ^ b) (2 ^ b) low)
          ∙ low_part (x / 2 ^ (b + k)) v (2 ^ k) lt,
      ap (λ z. z % 2 ^ b) shape ∙ low_part (x / 2 ^ (b + k) * 2 ^ k + v) (x % 2 ^ b) (2 ^ b) low,
      high_part (x / 2 ^ (b + k)) (v * 2 ^ b + x % 2 ^ b) (2 ^ (b + k)) mid,
    )

size_int_ty : (w : ℕ) → sort_size (int_ty w) ≡ 2 ^ w
size_int_ty w = elim (Bool-cases (w == 1)) [
  | inl p ↦ ap sort_size (int_ty_one w p) ∙ ap (λ j. 2 ^ j) (sym ((==_iff w 1).0 p))
  | inr p ↦ ap sort_size (int_ty_bv w p)
]

word_lt : (e : Env) (t : Term) (w x : ℕ) → Denotes e t (int_ty w) x → x < 2 ^ w
word_lt e t w x d =
    subst (λ m. x < m) (size_int_ty w)
      (subst (λ x. x < sort_size (int_ty w)) d.1 (eval_lt e t (int_ty w) d.0))

module _ (e : Env) (agg val : Term) (n x k v b : ℕ) (one : 1 ≤ k) (fits : b + k ≤ n)
    (d : Denotes e agg (bv_ty n) x) (d' : Denotes e val (int_ty k) v) where
  with_low :
      ltb 0 b ≡ true
      → Denotes e (concat val k (extract agg 0 (b - 1)) b) (bv_ty (k + b)) (v * 2 ^ b + x % 2 ^ b)
  with_low p =
      let lt = ltb→lt 0 b p in
      concat_correct e _ _ k b v _ d' (extract_low e agg b n x (omega arith) (omega arith) d)

  x_lt : x < 2 ^ n
  x_lt = subst (λ x. x < 2 ^ n) d.1 (eval_lt e agg (bv_ty n) d.0)

  top :
      (u : ℕ)
      → suc u ≡ b + k
      → b + k < n
      → Denotes e (extract agg (suc u) (n - 1)) (int_ty (n - u - 1)) (x / 2 ^ (b + k))
  top u q lt =
      same_number e _ _ _ _
        (ap (λ j. x / 2 ^ j % 2 ^ (n - u - 1)) q
          ∙ small_mod _ _ (top_lt x (b + k) (n - u - 1) below))
        (extract_range e agg (suc u) (n - 1) (n - u - 1) n x (omega arith) (omega arith)
          (omega arith) d)
    where
      below : x < 2 ^ (b + k + (n - u - 1))
      below = subst (λ j. x < 2 ^ j) (omega arith) x_lt

  no_top : n ≡ b + k → x / 2 ^ (b + k) ≡ 0
  no_top q = below_div x (2 ^ (b + k)) (subst (λ j. x < 2 ^ j) q x_lt)

  -- in the code's tests for bits below and above the field
  inserted :
      (below above : Bool)
      → ltb 0 b ≡ below
      → ltb (b + k - 1) (n - 1) ≡ above
      → insertable k b n ≡ true
      → 1 < n
      → Denotes e
          (let low = if below then concat val k (extract agg 0 (b - 1)) b else val in
            if above
            then concat (extract agg (suc (b + k - 1)) (n - 1)) (n - (b + k - 1) - 1) low k
            else low)
          (bv_ty n)
          (replaced x b k v)
  unfolding concat
  inserted true true p q ok wide = as_sort e _ _ _ _ (ap bv_ty (ground arith)) (
      same_number e _ _ _ _
        (ap (λ j. x / 2 ^ (b + k) * 2 ^ j + (v * 2 ^ b + x % 2 ^ b)) (omega arith))
        (bconcat-Denotes e _ _ (n - (b + k - 1) - 1) (k + b) (x / 2 ^ (b + k))
          (v * 2 ^ b + x % 2 ^ b) (as_bv e _ _ _ (top (b + k - 1) (omega arith) (ground arith)))
          (plain e _ (k + b) k _ (ground arith) (with_low p))))
  inserted true false p q ok wide = as_sort e _ _ _ _ (ap bv_ty (ground arith)) (
      same_number e _ _ _ _ (no_high (x / 2 ^ (b + k)) (2 ^ (b + k)) _ (no_top (ground arith)))
        (with_low p))
  inserted false true p q ok wide = as_sort e _ _ _ _ (ap bv_ty (ground arith)) (
      same_number e _ _ _ _ (at_zero x b k v (x / 2 ^ (b + k)) (ground arith)) (
        concat_correct e _ _ (n - (b + k - 1) - 1) k (x / 2 ^ (b + k)) v
          (top (b + k - 1) (omega arith) (ground arith)) d'))
  inserted false false p q ok wide =
      as_sort e _ _ _ _ (int_ty_bv k (ground arith) ∙ ap bv_ty (ground arith)) (
        same_number e _ _ _ _
          (no_high (x / 2 ^ (b + k)) (2 ^ k) v (no_top (ground arith))
            ∙ at_zero x b k v (x / 2 ^ (b + k)) (ground arith))
          d')

  -- the new aggregate has the inserted bits in the field, and its own bits elsewhere
  pub insert_bits_correct :
      1 < n
      → insertable k b n ≡ true
      → Denotes e (insert_bits agg val k b (b + k - 1) n) (bv_ty n) (replaced x b k v)
  unfolding insert_bits
  insert_bits_correct wide ok = inserted (ltb 0 b) (ltb (b + k - 1) (n - 1)) refl refl ok wide

  -- reading the field again gives the inserted integer
  pub extract-insert_bits :
      1 < n
      → insertable k b n ≡ true
      → Denotes e (extract (insert_bits agg val k b (b + k - 1) n) b (b + k - 1)) (int_ty k) v
  extract-insert_bits wide ok =
      let lt : v < 2 ^ k = word_lt e val k v d' in
      same_number e _ _ _ _ (replaced_parts x b k v lt).0 (
        extract_range e _ b (b + k - 1) k n (replaced x b k v) (omega arith) one fits
          (insert_bits_correct wide ok))
