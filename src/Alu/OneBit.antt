-- ===== src/Alu/OneBit.antt =====
-- The two forms of a one-bit integer, and the terms that are recognized by their shape.
use seahorn.Prelude.{
  ℕ, ◌-◌, ◌≡◌, ◌∙◌, refl, sym, ap, ap₂, Bool, true, false, if◌then◌else◌, some, arith,
}
use seahorn.Alu.Terms.{
  pos, negsuc, Sort, bool_ty, bv_ty, Term, tru, fls, bvnum, neg, eq, ite, sort_of, if_bool,
  same_sort,
}
use seahorn.Alu.Words.{num_value}
use seahorn.Alu.Meaning.{Env, eval, Denotes}
use seahorn.Alu.Sorts.{if_bool-inv}
use seahorn.Alu.Bounds.{eval_lt}
use seahorn.Alu.Ops.{true_bv1, false_bv1, is_tru, is_fls, is_bv1, bool_to_bv1, bv1_to_bool, lneg}

pub is_tru→ : (t : Term) → is_tru t ≡ true → t ≡ tru
is_tru→ tru h = refl
is_tru→ _ h = cc

pub is_fls→ : (t : Term) → is_fls t ≡ true → t ≡ fls
is_fls→ fls h = refl
is_fls→ _ h = cc

is_bv1→ : (n : ℕ) (t : Term) → is_bv1 n t ≡ true → t ≡ bvnum (pos n) 1
is_bv1→ n (bvnum (pos v) w) h = ap₂ (λ v w. bvnum (pos v) w) (ground arith) (ground arith)
is_bv1→ n (bvnum (negsuc v) w) h = cc
is_bv1→ n _ h = cc

module _ (e : Env) where
  pub if_Denotes :
      (b : Bool) (t u : Term) {s : Sort} {x : ℕ}
      → (b ≡ true → Denotes e t s x)
      → (b ≡ false → Denotes e u s x)
      → Denotes e (if b then t else u) s x
  if_Denotes true t u p q = p refl
  if_Denotes false t u p q = q refl

  same_value :
      {t u : Term} (c : Term) {s : Sort} {x : ℕ}
      → t ≡ u
      → eval e t ≡ x
      → sort_of c ≡ some s
      → eval e c ≡ eval e u
      → Denotes e c s x
  same_value c p v s q = (s, q ∙ ap (eval e) (sym p) ∙ v)

  eq_bit : (t : Term) (x : ℕ) → Denotes e t (bv_ty 1) x → Denotes e (eq t true_bv1) bool_ty x
  unfolding sort_of same_sort eval num_value
  eq_bit t x (s, v) = (rw s refl, ground (arith, eval_lt e t (bv_ty 1) s, v))

  ite_bits :
      (t : Term) (x : ℕ) → Denotes e t bool_ty x → Denotes e (ite t true_bv1 false_bv1) (bv_ty 1) x
  unfolding sort_of if_bool same_sort eval num_value
  ite_bits t x (s, v) = let lt = eval_lt e t bool_ty s in (rw s refl, ground (arith, lt, v))

  pub bool_to_bv1-Denotes :
      (t : Term) (x : ℕ) → Denotes e t bool_ty x → Denotes e (bool_to_bv1 t) (bv_ty 1) x
  unfolding bool_to_bv1 sort_of eval num_value
  bool_to_bv1-Denotes t x (s, v) =
      if_Denotes (is_tru t) _ _ (λ p. same_value true_bv1 (is_tru→ t p) v refl refl)
        (λ p.
          if_Denotes (is_fls t) _ _ (λ q. same_value false_bv1 (is_fls→ t q) v refl refl)
            (λ q. ite_bits t x (s, v)))

  pub bv1_to_bool-Denotes :
      (t : Term) (x : ℕ) → Denotes e t (bv_ty 1) x → Denotes e (bv1_to_bool t) bool_ty x
  unfolding bv1_to_bool sort_of eval num_value
  bv1_to_bool-Denotes t x (s, v) =
      if_Denotes (is_bv1 1 t) _ _ (λ p. same_value tru (is_bv1→ 1 t p) v refl refl)
        (λ p.
          if_Denotes (is_bv1 0 t) _ _ (λ q. same_value fls (is_bv1→ 0 t q) v refl refl)
            (λ q. eq_bit t x (s, v)))

  pub neg-Denotes : (t : Term) (x : ℕ) → Denotes e t bool_ty x → Denotes e (neg t) bool_ty (1 - x)
  unfolding sort_of if_bool eval
  neg-Denotes t x (s, v) = (rw s refl, omega (arith, v))

  pub lneg-Denotes : (t : Term) (x : ℕ) → Denotes e t bool_ty x → Denotes e (lneg t) bool_ty (1 - x)
  unfolding lneg sort_of if_bool eval
  lneg-Denotes tru x (s, v) = (refl, omega (arith, v))
  lneg-Denotes fls x (s, v) = (refl, omega (arith, v))
  lneg-Denotes (neg t) x (s, v) =
      let (p, _) = if_bool-inv (sort_of t) _ bool_ty s in
      (p, omega (arith, v, eval_lt e t bool_ty p))
  lneg-Denotes t x d = neg-Denotes t x d
