-- ===== src/Alloc/Intervals.antt =====
-- Lists of intervals that follow one another.
use seahorn.Prelude.{ℕ, ◌≤◌, ◌≡◌, refl, List, [], ◌∷◌, ◌++◌, arith}

module _ {ℓ} {A : Type ℓ} (stop : A → ℕ) where
  -- The end of the last interval, or `d` if there is none.
  abbrev pub last_end : ℕ → List A → ℕ
  last_end d [] = d
  last_end d (x ∷ xs) = last_end (stop x) xs

  pub last_end-append : (d : ℕ) (xs : List A) (x : A) → last_end d (xs ++ x ∷ []) ≡ stop x
  last_end-append d [] x = refl
  last_end-append d (y ∷ xs) x = last_end-append (stop y) xs x

module _ {ℓ} {A : Type ℓ} (begin stop : A → ℕ) where
  -- Each interval begins at or after the end of the one before it.
  abbrev pub Chain : ℕ → List A → Type 0
  Chain d [] = Unit
  Chain d (x ∷ xs) = (d ≤ begin x) × (begin x ≤ stop x) × Chain (stop x) xs

  pub Chain-append :
      (d : ℕ) (xs : List A) (x : A)
      → Chain d xs
      → last_end stop d xs ≤ begin x
      → begin x ≤ stop x
      → Chain d (xs ++ x ∷ [])
  Chain-append d [] x c p q = (p, q, tt)
  Chain-append d (y ∷ xs) x c p q = (c.0, c.1, Chain-append (stop y) xs x c.2 p q)

  abbrev pub AllAfter : ℕ → List A → Type 0
  AllAfter e [] = Unit
  AllAfter e (x ∷ xs) = (e ≤ begin x) × AllAfter e xs

  -- Any two intervals are apart, the later one above.
  abbrev pub Apart : List A → Type 0
  Apart [] = Unit
  Apart (x ∷ xs) = AllAfter (stop x) xs × Apart xs

  Chain-AllAfter : (d e : ℕ) (xs : List A) → d ≤ e → Chain e xs → AllAfter d xs
  Chain-AllAfter d e [] h c = tt
  Chain-AllAfter d e (x ∷ xs) h c = (omega arith, Chain-AllAfter d (stop x) xs (omega arith) c.2)

  pub Chain-Apart : (d : ℕ) (xs : List A) → Chain d xs → Apart xs
  Chain-Apart d [] c = tt
  Chain-Apart d (x ∷ xs) c =
      (Chain-AllAfter (stop x) (stop x) xs (omega arith) c.2, Chain-Apart (stop x) xs c.2)
