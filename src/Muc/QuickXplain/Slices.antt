-- ===== src/Muc/QuickXplain/Slices.antt =====
-- Ranges of a vector, and lists with elements left out.
use seahorn.Prelude.{
  ℕ, zero, suc, ◌≤◌, ◌<◌, ◌≡◌, refl, ap, inl, inr, some, List, [], ◌∷◌, ◌++◌, length, get_elem?,
  drop, arith,
}
use seahorn.Muc.Sets.{Subset}
use seahorn.Muc.QuickXplain.{slice}

pub slice-append {ℓ} :
    {A : Type ℓ} (xs : List A) (b m e : ℕ)
    → b ≤ m
    → m ≤ e
    → slice xs b m ++ slice xs m e ≡ slice xs b e
slice-append [] b m e p q = refl
slice-append (x ∷ xs) zero zero e p q = refl
slice-append (x ∷ xs) zero (suc m) (suc e) p q =
    ap (λ r. x ∷ r) (slice-append xs zero m e (omega arith) (omega arith))
slice-append (x ∷ xs) (suc b) (suc m) (suc e) p q =
    slice-append xs b m e (omega arith) (omega arith)
slice-append (x ∷ xs) zero (suc m) zero p q = absurd (omega arith)
slice-append (x ∷ xs) (suc b) zero e p q = absurd (omega arith)
slice-append (x ∷ xs) (suc b) (suc m) zero p q = absurd (omega arith)

pub slice_one {ℓ} :
    {A : Type ℓ} (xs : List A) (b : ℕ)
    → b < length xs
    → (x : A) × (get_elem? xs b ≡ some x) × (slice xs b (suc b) ≡ x ∷ [])
slice_one [] b h = absurd (omega arith)
slice_one (x ∷ []) zero h = (x, refl, refl)
slice_one (x ∷ y ∷ xs) zero h = (x, refl, refl)
slice_one (x ∷ xs) (suc b) h = slice_one xs b (omega arith)

pub slice_all {ℓ} : {A : Type ℓ} (xs : List A) → slice xs 0 (length xs) ≡ xs
slice_all [] = refl
slice_all (x ∷ xs) = ap (λ r. x ∷ r) (slice_all xs)

pub drop-append {ℓ} : {A : Type ℓ} (xs ys : List A) → drop (length xs) (xs ++ ys) ≡ ys
drop-append [] ys = refl
drop-append (x ∷ xs) ys = drop-append xs ys

-- `ys` is `xs` with some elements left out.
pub data Subseq {ℓ} {A : Type ℓ} : List A → List A → Type ℓ where
  done : Subseq [] []
  skip : {x : A} {ys xs : List A} → Subseq ys xs → Subseq ys (x ∷ xs)
  keep : {x : A} {ys xs : List A} → Subseq ys xs → Subseq (x ∷ ys) (x ∷ xs)

module _ {A : Type 0} where
  pub Subseq-nil : (xs : List A) → Subseq [] xs
  Subseq-nil [] = done
  Subseq-nil (x ∷ xs) = skip (Subseq-nil xs)

  pub Subseq-append :
      {us xs vs ys : List A} → Subseq us xs → Subseq vs ys → Subseq (us ++ vs) (xs ++ ys)
  Subseq-append done q = q
  Subseq-append (skip p) q = skip (Subseq-append p q)
  Subseq-append (keep p) q = keep (Subseq-append p q)

  pub Subseq-refl : (xs : List A) → Subseq xs xs
  Subseq-refl [] = done
  Subseq-refl (x ∷ xs) = keep (Subseq-refl xs)

  pub Subseq-Subset : {ys xs : List A} → Subseq ys xs → Subset ys xs
  Subseq-Subset done a h = h
  Subseq-Subset (skip p) a h = inr (Subseq-Subset p a h)
  Subseq-Subset (keep p) a (inl e) = inl e
  Subseq-Subset (keep p) a (inr h) = inr (Subseq-Subset p a h)
