-- ===== src/CutPoints/BitVector.antt =====
-- llvm::BitVector as the code uses it: it grows on demand, and an absent bit is not set.
use seahorn.Prelude.{
  ℕ, zero, suc, ◌+◌, ◌≡◌, refl, ◌↔◌, ◌⊎◌, inl, inr, Bool, true, false, ◌||◌, List, [], ◌∷◌,
  if◌then◌else◌, arith, In, subst,
}

abbrev pub Bits : Type 0
Bits = List Bool

unfoldable pub test : Bits → ℕ → Bool
test [] i = false
test (x ∷ b) zero = x
test (x ∷ b) (suc i) = test b i

-- setbit: resize, then set.
unfoldable pub set_bit : Bits → ℕ → Bits
set_bit [] zero = true ∷ []
set_bit [] (suc i) = false ∷ set_bit [] i
set_bit (x ∷ b) zero = true ∷ b
set_bit (x ∷ b) (suc i) = x ∷ set_bit b i

-- `|=`, which takes the larger size.
unfoldable pub bit_or : Bits → Bits → Bits
bit_or [] b = b
bit_or (x ∷ a) [] = x ∷ a
bit_or (x ∷ a) (y ∷ b) = (x || y) ∷ bit_or a b

unfoldable pub count : Bits → ℕ
count [] = 0
count (x ∷ b) = if x then suc (count b) else count b

-- The loop over find_first and find_next, from index `i`.
unfoldable pub set_ids : Bits → ℕ → List ℕ
set_ids [] i = []
set_ids (true ∷ b) i = i ∷ set_ids b (i + 1)
set_ids (false ∷ b) i = set_ids b (i + 1)

abbrev pub HasBit : Bits → ℕ → Type 0
HasBit b i = test b i ≡ true

pub set_bit-HasBit : (b : Bits) (i j : ℕ) → HasBit (set_bit b i) j ↔ ((j ≡ i) ⊎ HasBit b j)
unfolding test set_bit
set_bit-HasBit [] zero zero = (λ h. inl refl, λ h. refl)
set_bit-HasBit [] zero (suc j) = (λ h. cc, λ h. ground arith)
set_bit-HasBit [] (suc i) zero = (λ h. cc, λ h. ground arith)
set_bit-HasBit [] (suc i) (suc j) = ground (arith, set_bit-HasBit [] i j)
set_bit-HasBit (x ∷ b) zero zero = (λ h. inl refl, λ h. refl)
set_bit-HasBit (x ∷ b) zero (suc j) = (λ h. inr h, λ h. ground arith)
set_bit-HasBit (x ∷ b) (suc i) zero = (λ h. inr h, λ h. ground arith)
set_bit-HasBit (x ∷ b) (suc i) (suc j) = ground (arith, set_bit-HasBit b i j)

pub bit_or-HasBit : (a b : Bits) (j : ℕ) → HasBit (bit_or a b) j ↔ (HasBit a j ⊎ HasBit b j)
unfolding test bit_or
bit_or-HasBit [] b j = (λ h. inr h, λ h. ground arith)
bit_or-HasBit (x ∷ a) [] j = (λ h. inl h, λ h. ground arith)
bit_or-HasBit (x ∷ a) (y ∷ b) zero = (λ h. ground arith, λ h. ground arith)
bit_or-HasBit (x ∷ a) (y ∷ b) (suc j) = bit_or-HasBit a b j

set_ids_sound : (b : Bits) (i k : ℕ) → In k (set_ids b i) → (j : ℕ) × (k ≡ i + j) × HasBit b j
unfolding test set_ids
set_ids_sound [] i k h = absurd h
set_ids_sound (true ∷ b) i k (inl e) = (0, omega arith, refl)
set_ids_sound (true ∷ b) i k (inr q) =
    let (j, e, t) = set_ids_sound b (i + 1) k q in (suc j, omega arith, t)
set_ids_sound (false ∷ b) i k h =
    let (j, e, t) = set_ids_sound b (i + 1) k h in (suc j, omega arith, t)

set_ids_complete : (b : Bits) (i k j : ℕ) → k ≡ i + j → HasBit b j → In k (set_ids b i)
unfolding test set_ids
set_ids_complete [] i k j e t = cc
set_ids_complete (true ∷ b) i k zero e t = inl (omega arith)
set_ids_complete (true ∷ b) i k (suc j) e t = inr (set_ids_complete b (i + 1) k j (omega arith) t)
set_ids_complete (false ∷ b) i k zero e t = cc
set_ids_complete (false ∷ b) i k (suc j) e t = set_ids_complete b (i + 1) k j (omega arith) t

-- Enumerated from 0.
pub set_ids_from_zero : (b : Bits) (k : ℕ) → In k (set_ids b 0) ↔ HasBit b k
set_ids_from_zero b k = (
  λ h.
      let (j, e, t) = set_ids_sound b 0 k h in
      let same : j ≡ k = omega arith in subst (λ n. HasBit b n) same t,
  λ t. set_ids_complete b 0 k k (omega arith) t,
)
