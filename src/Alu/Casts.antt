-- ===== src/Alu/Casts.antt =====
-- `doTrunc`, `doZext`, `doSext`, `Extract` and `Concat`: the value of the result, for operands of
-- any width, one bit included.
use seahorn.Prelude.{
  ℕ, suc, ◌+◌, ◌-◌, ◌*◌, ◌/◌, ◌%◌, ◌^◌, ◌≤◌, ◌<◌, ◌≡◌, ◌∙◌, refl, sym, ap, ap₂, subst, true, ◌==◌,
  ==_iff, if◌then◌else◌, some, arith,
}
use seahorn.Alu.Terms.{
  pos, Sort, bool_ty, bv_ty, Term, tru, fls, bvnum, ite, bextract, bsext, bzext, bconcat, sort_of,
  width, if_bv, if_bool,
}
use seahorn.Alu.Words.{num_value}
use seahorn.Alu.Meaning.{Env, sext_value, eval, Denotes}
use seahorn.Alu.Bounds.{pow_pos, eval_lt}
use seahorn.Alu.Ops.{
  int_ty, si, is_tru, is_fls, bool_to_bv1, bv1_to_bool, do_trunc, do_zext, do_sext, extract, concat,
}
use seahorn.Alu.OneBit.{is_tru→, is_fls→, if_Denotes, bool_to_bv1-Denotes, bv1_to_bool-Denotes}
use seahorn.Alu.Widths.{
  int_ty_one, int_ty_bv, in_word, two_le, bit_value, wide, small_mod, same_sort-same, div_one,
  one_bit,
}

module _ (e : Env) where
  pub as_sort : (t : Term) (r s : Sort) (x : ℕ) → r ≡ s → Denotes e t r x → Denotes e t s x
  as_sort t r s x p d = subst (λ s. Denotes e t s x) p d

  -- the operand as a bit-vector, in the form that `Concat` and `doSext` give it
  pub as_bv :
      (t : Term) (w x : ℕ)
      → Denotes e t (int_ty w) x
      → Denotes e (if w == 1 then bool_to_bv1 t else t) (bv_ty w) x
  as_bv t w x d =
      if_Denotes e (w == 1) _ _
        (λ p.
          subst (λ w. Denotes e (bool_to_bv1 t) (bv_ty w) x) (sym ((==_iff w 1).0 p))
            (bool_to_bv1-Denotes e t x (as_sort t _ _ x (int_ty_one w p) d)))
        (λ p. as_sort t _ _ x (int_ty_bv w p) d)

  -- the bit-vector `t` as an integer
  pub as_int :
      (t : Term) (w x : ℕ)
      → Denotes e t (bv_ty w) x
      → Denotes e (if w == 1 then bv1_to_bool t else t) (int_ty w) x
  as_int t w x d =
      if_Denotes e (w == 1) _ _
        (λ p.
          as_sort _ _ _ x (sym (int_ty_one w p))
            (bv1_to_bool-Denotes e t x (as_sort t _ _ x (ap bv_ty ((==_iff w 1).0 p)) d)))
        (λ p. as_sort t _ _ x (sym (int_ty_bv w p)) d)

  pub bextract-Denotes :
      (t : Term) (lo hi w x : ℕ)
      → lo ≤ hi
      → hi < w
      → Denotes e t (bv_ty w) x
      → Denotes e (bextract hi lo t) (bv_ty (suc hi - lo)) (x / 2 ^ lo % 2 ^ (suc hi - lo))
  unfolding sort_of if_bv eval
  bextract-Denotes t lo hi w x p q (s, v) =
      (rw s (in_word lo hi w _ p q), ap (λ x. x / 2 ^ lo % 2 ^ (suc hi - lo)) v)

  pub extract_correct :
      (t : Term) (begin end w x : ℕ)
      → begin ≤ end
      → end < w
      → Denotes e t (bv_ty w) x
      → Denotes e
          (extract t begin end)
          (int_ty (suc end - begin))
          (x / 2 ^ begin % 2 ^ (suc end - begin))
  unfolding extract
  extract_correct t begin end w x p q d =
      subst
        (λ b.
          Denotes e (if b then bv1_to_bool (bextract end begin t) else bextract end begin t)
            (int_ty (suc end - begin)) (x / 2 ^ begin % 2 ^ (suc end - begin)))
        (one_bit begin end p)
        (as_int _ (suc end - begin) _ (bextract-Denotes t begin end w x p q d))

  pub bconcat-Denotes :
      (t u : Term) (v w x y : ℕ)
      → Denotes e t (bv_ty v) x
      → Denotes e u (bv_ty w) y
      → Denotes e (bconcat t u) (bv_ty (v + w)) (x * 2 ^ w + y)
  unfolding sort_of if_bv eval width
  bconcat-Denotes t u v w x y (s, p) (r, q) = (
    rw s (rw r refl),
    ap (λ o. eval e t * 2 ^ width o + eval e u) r ∙ ap₂ (λ x y. x * 2 ^ w + y) p q,
  )

  pub concat_correct :
      (t u : Term) (v w x y : ℕ)
      → Denotes e t (int_ty v) x
      → Denotes e u (int_ty w) y
      → Denotes e (concat t v u w) (bv_ty (v + w)) (x * 2 ^ w + y)
  unfolding concat
  concat_correct t u v w x y d d' = bconcat-Denotes _ _ v w x y (as_bv t v x d) (as_bv u w y d')

  pub bv_as_int : (t : Term) (w x : ℕ) → 1 < w → Denotes e t (bv_ty w) x → Denotes e t (int_ty w) x
  bv_as_int t w x h d = as_sort t _ _ x (sym (int_ty_bv w (ground arith))) d

  si_bit : (n : ℕ) → n < 2 → Denotes e (if n == 1 then tru else fls) bool_ty n
  unfolding sort_of eval
  si_bit n h = if_Denotes e (n == 1) _ _ (λ o. (refl, ground arith)) (λ o. (refl, ground arith))

  pub si_correct : (n w : ℕ) → n < 2 ^ w → Denotes e (si (pos n) w) (int_ty w) n
  unfolding si int_ty sort_of eval num_value
  si_correct n w h =
      if_Denotes e (w == 1) _ _
        (λ o.
          as_sort (if n == 1 then tru else fls) _ _ n (sym (int_ty_one w o))
            (si_bit n (ground arith)))
        (λ o. as_sort (bvnum (pos n) w) _ _ n (sym (int_ty_bv w o)) (refl, small_mod n w h))

  bzext-Denotes :
      (t : Term) (w k x : ℕ) → w ≤ k → Denotes e t (bv_ty w) x → Denotes e (bzext t k) (bv_ty k) x
  unfolding sort_of if_bv eval
  bzext-Denotes t w k x h (s, v) = (rw s (wide w k _ h), v)

  bsext-Denotes :
      (t : Term) (w k x : ℕ)
      → w ≤ k
      → Denotes e t (bv_ty w) x
      → Denotes e (bsext t k) (bv_ty k) (sext_value w k x)
  unfolding sort_of if_bv eval width
  bsext-Denotes t w k x h (s, v) = (rw s (wide w k _ h), ap₂ (λ o x. sext_value (width o) k x) s v)

  pub same_number : (t : Term) (s : Sort) (x y : ℕ) → x ≡ y → Denotes e t s x → Denotes e t s y
  same_number t s x y p d = subst (λ y. Denotes e t s y) p d

  pub ite-Denotes :
      (c t u : Term) (x y z : ℕ) (s : Sort)
      → Denotes e c bool_ty x
      → Denotes e t s y
      → Denotes e u s z
      → Denotes e (ite c t u) s (if x == 1 then y else z)
  unfolding sort_of if_bool eval
  ite-Denotes c t u x y z s (s1, v1) (s2, v2) (s3, v3) =
      (rw s1 (rw s2 (rw s3 (same_sort-same s some))), rw v1 (rw v2 (rw v3 refl)))

  is_one_value : (t : Term) {x : ℕ} → is_tru t ≡ true → eval e t ≡ x → 1 ≡ x
  unfolding eval
  is_one_value t p v = ap (eval e) (sym (is_tru→ t p)) ∙ v

  is_zero_value : (t : Term) {x : ℕ} → is_fls t ≡ true → eval e t ≡ x → 0 ≡ x
  unfolding eval
  is_zero_value t p v = ap (eval e) (sym (is_fls→ t p)) ∙ v

  zext_bit :
      (t : Term) (k x : ℕ)
      → 1 < k
      → Denotes e t bool_ty x
      → Denotes e
          (if is_tru t
            then si (pos 1) k
            else if is_fls t
            then si (pos 0) k
            else ite t (si (pos 1) k) (si (pos 0) k))
          (int_ty k)
          x
  zext_bit t k x h (s, v) =
      if_Denotes e (is_tru t) _ _
        (λ p. same_number _ _ _ _ (is_one_value t p v) (si_correct 1 k (two_le k h)))
        (λ p.
          if_Denotes e (is_fls t) _ _
            (λ q. same_number _ _ _ _ (is_zero_value t q v) (si_correct 0 k (pow_pos k)))
            (λ q. same_number _ _ _ _ (bit_value x (subst (λ y. y < 2) v (eval_lt e t bool_ty s))) (
              ite-Denotes t _ _ x 1 0 _ (s, v) (si_correct 1 k (two_le k h))
                (si_correct 0 k (pow_pos k)))))

  low_bits :
      (t : Term) (k x : ℕ)
      → 1 ≤ k
      → Denotes e
          (bextract (k - 1) 0 t)
          (bv_ty (suc (k - 1) - 0))
          (x / 2 ^ 0 % 2 ^ (suc (k - 1) - 0))
      → Denotes e (bextract (k - 1) 0 t) (bv_ty k) (x % 2 ^ k)
  low_bits t k x p d =
      same_number _ _ _ _ (ap (λ y. y % 2 ^ k) (div_one x)) (
        subst (λ w. Denotes e (bextract (k - 1) 0 t) (bv_ty w) (x / 2 ^ 0 % 2 ^ w)) (omega arith) d)

  pub do_trunc_correct :
      (t : Term) (w k x : ℕ)
      → 1 ≤ k
      → k < w
      → Denotes e t (int_ty w) x
      → Denotes e (do_trunc t k) (int_ty k) (x % 2 ^ k)
  unfolding do_trunc
  do_trunc_correct t w k x p q d = as_int _ k _ (
      low_bits t k x p (
        bextract-Denotes t 0 (k - 1) w x (omega arith) (omega arith)
          (as_sort t _ _ x (int_ty_bv w (ground arith)) d)))

  pub do_zext_correct :
      (t : Term) (w k x : ℕ)
      → 1 ≤ w
      → w < k
      → Denotes e t (int_ty w) x
      → Denotes e (do_zext t k w) (int_ty k) x
  unfolding do_zext
  do_zext_correct t w k x p q d =
      if_Denotes e (w == 1) _ _
        (λ o. zext_bit t k x (omega arith) (as_sort t _ _ x (int_ty_one w o) d))
        (λ o.
          bv_as_int _ k x (omega arith)
            (bzext-Denotes t w k x (omega arith) (as_sort t _ _ x (int_ty_bv w o) d)))

  pub do_sext_correct :
      (t : Term) (w k x : ℕ)
      → 1 ≤ w
      → w < k
      → Denotes e t (int_ty w) x
      → Denotes e (do_sext t k w) (int_ty k) (sext_value w k x)
  unfolding do_sext
  do_sext_correct t w k x p q d =
      bv_as_int _ k _ (omega arith) (bsext-Denotes _ w k x (omega arith) (as_bv t w x d))

  pub extract_range :
      (t : Term) (begin end w n x : ℕ)
      → suc end ≡ begin + w
      → 1 ≤ w
      → begin + w ≤ n
      → Denotes e t (bv_ty n) x
      → Denotes e (extract t begin end) (int_ty w) (x / 2 ^ begin % 2 ^ w)
  extract_range t begin end w n x q h fits d =
      subst (λ v. Denotes e (extract t begin end) (int_ty v) (x / 2 ^ begin % 2 ^ v)) (omega arith)
        (extract_correct t begin end n x (omega arith) (omega arith) d)

  pub extract_low :
      (t : Term) (w n x : ℕ)
      → 1 ≤ w
      → w ≤ n
      → Denotes e t (bv_ty n) x
      → Denotes e (extract t 0 (w - 1)) (int_ty w) (x % 2 ^ w)
  extract_low t w n x h fits d =
      same_number _ _ _ _ (ap (λ y. y % 2 ^ w) (div_one x))
        (extract_range t 0 (w - 1) w n x (omega arith) h (omega arith) d)
