-- ===== src/Live/Sorted.antt =====
-- Sorted vectors: how often an expression stands in a sum, a difference and a sorted copy.
use seahorn.Prelude.{
  ℕ, suc, ◌+◌, ◌-◌, ◌≤◌, ◌<◌, ◌≡◌, refl, inl, inr, List, [], ◌∷◌, ◌==◌, ltb, if◌then◌else◌, arith,
  Bool-cases,
}
use seahorn.Live.{insert, sort, set_difference, merge}

unfoldable pub copies : ℕ → List ℕ → ℕ
copies x [] = 0
copies x (y ∷ ys) = if x == y then suc (copies x ys) else copies x ys

-- Nothing in the list is below a number.
abbrev pub Above : ℕ → List ℕ → Type 0
Above x [] = Unit
Above x (y ∷ ys) = (x ≤ y) × Above x ys

abbrev pub IsSorted : List ℕ → Type 0
IsSorted [] = Unit
IsSorted (x ∷ xs) = Above x xs × IsSorted xs

Above-from : (x y : ℕ) (ys : List ℕ) → x ≤ y → Above y ys → Above x ys
Above-from x y [] le h = tt
Above-from x y (z ∷ zs) le h = (omega (arith, le, h.0), Above-from x y zs le h.1)

copies-Above : (x y : ℕ) (ys : List ℕ) → x < y → Above y ys → copies x ys ≡ 0
unfolding copies
copies-Above x y [] lt h = refl
copies-Above x y (z ∷ zs) lt h = ground (arith, copies-Above x y zs lt h.1, h.0)

insert-Above : (b x : ℕ) (ys : List ℕ) → b ≤ x → Above b ys → Above b (insert x ys)
unfolding insert
insert-Above b x [] le h = (le, tt)
insert-Above b x (y ∷ ys) le h = elim (Bool-cases (ltb y x)) [
  | inl lt ↦ rw lt (h.0, insert-Above b x ys le h.1)
  | inr ge ↦ rw ge (le, h)
]

insert-IsSorted : (x : ℕ) (ys : List ℕ) → IsSorted ys → IsSorted (insert x ys)
unfolding insert
insert-IsSorted x [] h = (tt, tt)
insert-IsSorted x (y ∷ ys) h = elim (Bool-cases (ltb y x)) [
  | inl lt ↦ rw lt (insert-Above y x ys (ground (arith, lt)) h.0, insert-IsSorted x ys h.1)
  | inr ge ↦ let le : x ≤ y = ground (arith, ge) in rw ge ((le, Above-from x y ys le h.0), h)
]

pub sort-IsSorted : (xs : List ℕ) → IsSorted (sort xs)
unfolding sort
sort-IsSorted [] = tt
sort-IsSorted (x ∷ xs) = insert-IsSorted x (sort xs) (sort-IsSorted xs)

copies-insert : (x y : ℕ) (ys : List ℕ) → copies x (insert y ys) ≡ copies x (y ∷ ys)
unfolding copies insert
copies-insert x y [] = refl
copies-insert x y (z ∷ zs) = ground (arith, copies-insert x y zs)

pub copies-sort : (x : ℕ) (xs : List ℕ) → copies x (sort xs) ≡ copies x xs
unfolding sort copies
copies-sort x [] = refl
copies-sort x (y ∷ ys) = ground (arith, copies-insert x y (sort ys), copies-sort x ys)

pub copies-set_difference :
    (x : ℕ) (xs ys : List ℕ)
    → IsSorted xs
    → IsSorted ys
    → copies x (set_difference xs ys) ≡ copies x xs - copies x ys
unfolding set_difference copies
copies-set_difference x [] ys h k = omega arith
copies-set_difference x (a ∷ xs) [] h k = omega arith
copies-set_difference x (a ∷ xs) (b ∷ ys) h k =
    let below_b : x < b → copies x (b ∷ ys) ≡ 0 =
      λ lt. copies-Above x b (b ∷ ys) lt (omega arith, k.0) in
    let below_a : x < a → copies x (a ∷ xs) ≡ 0 =
      λ lt. copies-Above x a (a ∷ xs) lt (omega arith, h.0) in
    ground (
      arith,
      below_a,
      below_b,
      copies-set_difference x xs (b ∷ ys) h.1 k,
      copies-set_difference x (a ∷ xs) ys h k.1,
      copies-set_difference x xs ys h.1 k.1,
    )

pub set_difference-Above : (b : ℕ) (xs ys : List ℕ) → Above b xs → Above b (set_difference xs ys)
unfolding set_difference
set_difference-Above b [] ys h = tt
set_difference-Above b (x ∷ xs) [] h = h
set_difference-Above b (x ∷ xs) (y ∷ ys) h = ground (
  arith,
  set_difference-Above b xs (y ∷ ys) h.1,
  set_difference-Above b (x ∷ xs) ys h,
  set_difference-Above b xs ys h.1,
)

pub copies-merge : (x : ℕ) (xs ys : List ℕ) → copies x (merge xs ys) ≡ copies x xs + copies x ys
unfolding merge copies
copies-merge x [] ys = omega arith
copies-merge x (a ∷ xs) [] = omega arith
copies-merge x (a ∷ xs) (b ∷ ys) =
    ground (arith, copies-merge x (a ∷ xs) ys, copies-merge x xs (b ∷ ys))

pub set_difference-IsSorted : (xs ys : List ℕ) → IsSorted xs → IsSorted (set_difference xs ys)
unfolding set_difference
set_difference-IsSorted [] ys h = tt
set_difference-IsSorted (x ∷ xs) [] h = h
set_difference-IsSorted (x ∷ xs) (y ∷ ys) h = ground (
  arith,
  set_difference-Above x xs (y ∷ ys) h.0,
  set_difference-IsSorted xs (y ∷ ys) h.1,
  set_difference-IsSorted (x ∷ xs) ys h,
  set_difference-IsSorted xs ys h.1,
)

merge-Above : (b : ℕ) (xs ys : List ℕ) → Above b xs → Above b ys → Above b (merge xs ys)
unfolding merge
merge-Above b [] ys h k = k
merge-Above b (x ∷ xs) [] h k = h
merge-Above b (x ∷ xs) (y ∷ ys) h k =
    ground (arith, merge-Above b (x ∷ xs) ys h k.1, merge-Above b xs (y ∷ ys) h.1 k)

pub merge-IsSorted : (xs ys : List ℕ) → IsSorted xs → IsSorted ys → IsSorted (merge xs ys)
unfolding merge
merge-IsSorted [] ys h k = k
merge-IsSorted (x ∷ xs) [] h k = h
merge-IsSorted (x ∷ xs) (y ∷ ys) h k =
    let later_x : x ≤ y → Above x (merge xs (y ∷ ys)) =
      λ le. merge-Above x xs (y ∷ ys) h.0 (le, Above-from x y ys le k.0) in
    let later_y : y ≤ x → Above y (merge (x ∷ xs) ys) =
      λ le. merge-Above y (x ∷ xs) ys (le, Above-from y x xs le h.0) k.0 in
    ground
      (arith, later_x, later_y, merge-IsSorted (x ∷ xs) ys h k.1, merge-IsSorted xs (y ∷ ys) h.1 k)
