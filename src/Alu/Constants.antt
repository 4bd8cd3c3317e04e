-- ===== src/Alu/Constants.antt =====
-- The term of an integer constant has its value.
use seahorn.Prelude.{
  ℕ, ◌-◌, ◌%◌, ◌^◌, ◌<◌, ◌≡◌, inl, inr, refl, sym, ap, subst, true, false, ◌==◌, ==_iff, arith,
  Bool-cases,
}
use seahorn.Alu.Terms.{ℤ, pos, bvnum, sort_of}
use seahorn.Alu.Words.{num_value, negative}
use seahorn.Alu.Meaning.{Env, eval, Denotes}
use seahorn.Alu.Ops.{int_ty, si}
use seahorn.Alu.OneBit.{if_Denotes}
use seahorn.Alu.Widths.{int_ty_bv}
use seahorn.Alu.Casts.{as_sort, si_correct, same_number}
use seahorn.Alu.Product.{small_mod}
use seahorn.Alu.Execute.{to_mpz, get_constant_value}

to_mpz-value : (w x : ℕ) → x < 2 ^ w → num_value w (to_mpz w x) ≡ x
unfolding to_mpz num_value
to_mpz-value w x h = elim (Bool-cases (negative w x)) [
  | inl p ↦ rw p (neg_value (2 ^ w) x h)
  | inr p ↦ rw p (small_mod x (2 ^ w) h)
]
  where
    neg_value : (m x : ℕ) → x < m → m - 1 - (m - x - 1) % m ≡ x
    neg_value m x h = omega (arith, small_mod (m - x - 1) m (omega arith))

module _ (e : Env) where
  wide_num :
      (v : ℤ) (w x : ℕ) → (w == 1) ≡ false → num_value w v ≡ x → Denotes e (si v w) (int_ty w) x
  unfolding si sort_of eval
  wide_num v w x p q =
      if_Denotes e (w == 1) _ _ (λ r. cc)
        (λ r. as_sort e (bvnum v w) _ _ _ (sym (int_ty_bv w p)) (refl, q))

  pub get_constant_value-Denotes :
      (w x : ℕ) → x < 2 ^ w → Denotes e (get_constant_value w x) (int_ty w) x
  unfolding get_constant_value
  get_constant_value-Denotes w x h =
      if_Denotes e (w == 1) _ _
        (λ p.
          if_Denotes e (x == 1) _ _ (λ q. bit_const 1 p ((==_iff x 1).0 q) (omega arith))
            (λ q. bit_const 0 p (zero_bit p q) (omega arith)))
        (λ p.
          if_Denotes e (x == 0) _ _ (λ q. small 0 ((==_iff x 0).0 q))
            (λ q. if_Denotes e (x == 1) _ _ (λ r. small 1 ((==_iff x 1).0 r)) (λ r. big p)))
    where
      bit_const : (n : ℕ) → (w == 1) ≡ true → x ≡ n → n < 2 → Denotes e (si (pos n) 1) (int_ty w) x
      bit_const n p q lt =
          as_sort e _ _ _ _ (ap int_ty (sym ((==_iff w 1).0 p)))
            (same_number e _ _ _ _ (sym q) (si_correct e n 1 lt))

      zero_bit : (w == 1) ≡ true → (x == 1) ≡ false → x ≡ 0
      zero_bit p q = ground (arith, subst (λ w. x < 2 ^ w) ((==_iff w 1).0 p) h)

      small : (n : ℕ) → x ≡ n → Denotes e (si (pos n) w) (int_ty w) x
      small n q = same_number e _ _ _ _ (sym q) (si_correct e n w (subst (λ n. n < 2 ^ w) q h))

      big : (w == 1) ≡ false → Denotes e (si (to_mpz w x) w) (int_ty w) x
      big p = wide_num (to_mpz w x) w x p (to_mpz-value w x h)
