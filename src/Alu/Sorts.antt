-- ===== src/Alu/Sorts.antt =====
-- The operands of a well-sorted application, and their sorts.
use seahorn.Prelude.{
  ℕ, ◌≡◌, refl, ap, Bool, true, false, Option, none, some, ◌==◌, if◌then◌else◌, arith,
}
use seahorn.Alu.Terms.{Sort, bool_ty, bv_ty, both_bool, if_bv, if_bool, same_sort, same_bv}

pub if_bv-inv :
    (o : Option Sort) (f : ℕ → Option Sort) (s : Sort)
    → if_bv o f ≡ some s
    → (w : ℕ) × (o ≡ some (bv_ty w)) × (f w ≡ some s)
unfolding if_bv
if_bv-inv none f s h = cc
if_bv-inv (some bool_ty) f s h = cc
if_bv-inv (some (bv_ty w)) f s h = (w, refl, h)

pub if_bool-inv :
    (o p : Option Sort) (s : Sort) → if_bool o p ≡ some s → (o ≡ some bool_ty) × (p ≡ some s)
unfolding if_bool
if_bool-inv none p s h = cc
if_bool-inv (some bool_ty) p s h = (refl, h)
if_bool-inv (some (bv_ty w)) p s h = cc

pub both_bool-inv :
    (o p : Option Sort) (s : Sort)
    → both_bool o p ≡ some s
    → (o ≡ some bool_ty) × (p ≡ some bool_ty) × (bool_ty ≡ s)
unfolding both_bool
both_bool-inv none p s h = cc
both_bool-inv (some (bv_ty v)) p s h = cc
both_bool-inv (some bool_ty) none s h = cc
both_bool-inv (some bool_ty) (some (bv_ty w)) s h = cc
both_bool-inv (some bool_ty) (some bool_ty) s h = (refl, refl, cc)

pub if_some-inv :
    (b : Bool) (r s : Sort) → (if b then some r else none) ≡ some s → (b ≡ true) × (some r ≡ some s)
if_some-inv true r s h = (refl, h)
if_some-inv false r s h = cc

same_width :
    {A : Type 0} (v w : ℕ) (a : Option A) (s : A)
    → (if v == w then a else none) ≡ some s
    → (w ≡ v) × (a ≡ some s)
same_width v w a s h = ground arith

pub same_bv-inv :
    (o p : Option Sort) (f : ℕ → Option Sort) (s : Sort)
    → same_bv o p f ≡ some s
    → (w : ℕ) × (o ≡ some (bv_ty w)) × (p ≡ some (bv_ty w)) × (f w ≡ some s)
unfolding same_bv
same_bv-inv none p f s h = cc
same_bv-inv (some bool_ty) p f s h = cc
same_bv-inv (some (bv_ty v)) none f s h = cc
same_bv-inv (some (bv_ty v)) (some bool_ty) f s h = cc
same_bv-inv (some (bv_ty v)) (some (bv_ty w)) f s h =
    let (q, r) = same_width v w (f v) s h in (v, refl, ap (λ x. some (bv_ty x)) q, r)

pub same_sort-inv :
    (o p : Option Sort) (f : Sort → Option Sort) (s : Sort)
    → same_sort o p f ≡ some s
    → (r : Sort) × (o ≡ some r) × (p ≡ some r) × (f r ≡ some s)
unfolding same_sort
same_sort-inv none p f s h = cc
same_sort-inv (some bool_ty) none f s h = cc
same_sort-inv (some bool_ty) (some (bv_ty w)) f s h = cc
same_sort-inv (some bool_ty) (some bool_ty) f s h = (bool_ty, refl, refl, h)
same_sort-inv (some (bv_ty v)) none f s h = cc
same_sort-inv (some (bv_ty v)) (some bool_ty) f s h = cc
same_sort-inv (some (bv_ty v)) (some (bv_ty w)) f s h =
    let (q, r) = same_width v w (f (bv_ty v)) s h in (bv_ty v, refl, ap (λ x. some (bv_ty x)) q, r)
