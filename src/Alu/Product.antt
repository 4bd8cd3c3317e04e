-- ===== src/Alu/Product.antt =====
-- When a wrapped signed product is the exact one. Here `h` is half the modulus, and a negative
-- number is given by its magnitude.
use seahorn.Prelude.{
  ℕ, zero, suc, ◌+◌, ◌-◌, ◌*◌, ◌/◌, ◌%◌, ◌≤◌, ◌<◌, ◌≡◌, ◌∙◌, ◌⊎◌, ◌↔◌, inl, inr, refl, ap, ap₂,
  Bool, true, false, not, ltb, leb, leb→le, ◌==◌, if◌then◌else◌, arith, ◌&&◌, Bool-cases,
}

pub small_mod : (z m : ℕ) → z < m → z % m ≡ z
small_mod z m h = grind arith

pub mod_lt_of : (z m : ℕ) → 1 ≤ m → z % m < m
mod_lt_of z m h = grind arith

multiple_rem : (m k r : ℕ) → r < m → (m * k + r) % m ≡ r
multiple_rem m k r h = grind arith

regroup : (m k r : ℕ) → 1 ≤ m → m * k + r ≡ m * (k + r / m) + r % m
regroup m k r h = grind arith

multiple_mod : (m k r : ℕ) → 1 ≤ m → (m * k + r) % m ≡ r % m
multiple_mod m k r h =
    ap (λ n. n % m) (regroup m k r h) ∙ multiple_rem m (k + r / m) (r % m) (mod_lt_of r m h)

distribute : (k x y z : ℕ) → x ≡ y + z → k * x ≡ k * y + k * z
distribute k x y z e = grind arith

-- a negative word times a positive one
mixed_split : (m a y : ℕ) → a ≤ m → a * suc y ≤ m → (m - a) * suc y ≡ m * y + (m - a * suc y)
mixed_split m a y h p = grind (arith, distribute y m (m - a) a (omega arith))

negative_split : (m a b : ℕ) → a + b ≤ m → (m - a) * (m - b) ≡ m * (m - a - b) + a * b
negative_split m a b h =
    ap₂ (λ x y. x * y) (omega arith) (omega arith)
    ∙ split a b (m - a - b)
    ∙ ap (λ n. n * (m - a - b) + a * b) (omega arith)
  where
    split : (a b k : ℕ) → (b + k) * (a + k) ≡ (a + b + k) * k + a * b
    split a b k = grind arith

both_positive :
    (h x y s : ℕ)
    → (s + h * (x + h) + h * (y + h) ≡ (x + h) * (y + h) + h * h + h) ↔ (s ≡ x * y + h)
both_positive h x y s = grind arith

both_negative :
    (h a b s : ℕ)
    → a ≤ h
    → b ≤ h
    → (s + h * (h - a) + h * (h - b) ≡ (h - a) * (h - b) + h * h + h) ↔ (s ≡ a * b + h)
both_negative h a b s p q =
    let u = h - a in
    let v = h - b in
    grind (
      arith,
      distribute b h u a (omega arith),
      distribute u h v b (omega arith),
      distribute h h u a (omega arith),
      distribute h h v b (omega arith),
    )

mixed :
    (h a y s : ℕ)
    → a ≤ h
    → (s + h * (h - a) + h * (y + h) ≡ (h - a) * (y + h) + h * h + h) ↔ (s + a * y ≡ h)
mixed h a y s p = grind arith

positive : (a y : ℕ) → 1 ≤ a → (y ≡ 0) ⊎ (1 ≤ a * y)
positive a zero h = inl refl
positive a (suc y) h = inr (grind arith)

mixed' :
    (h a y s : ℕ)
    → a ≤ h
    → (s + h * (y + h) + h * (h - a) ≡ (y + h) * (h - a) + h * h + h) ↔ (s + a * y ≡ h)
mixed' h a y s p = grind arith

-- the biased value
abbrev pub shifted : ℕ → ℕ → ℕ
shifted h x = if leb h x then x - h else x + h

module _ (h m r : ℕ) (one : 1 ≤ h) (e : m ≡ 2 * h) where
  same_sign : (z : ℕ) → r ≡ z % m → (ltb z h ≡ true) ↔ (shifted h r ≡ z + h)
  same_sign z u = (forth, converse)
    where
      forth : ltb z h ≡ true → shifted h r ≡ z + h
      forth lt = ground (arith, small_mod z m)

      converse : shifted h r ≡ z + h → ltb z h ≡ true
      converse v = ground (arith, mod_lt_of z m)

  mixed_sign :
      (a y : ℕ)
      → 1 ≤ a
      → a ≤ h
      → r ≡ (m - a) * y % m
      → (leb (a * y) h ≡ true) ↔ (shifted h r + a * y ≡ h)
  mixed_sign a y p q u = (forth, converse)
    where
      value : (y : ℕ) → a * y ≤ h → (m - a) * y % m ≡ (if y == 0 then 0 else m - a * y)
      value zero le = ground arith
      value (suc y) le =
          ap (λ n. n % m) (mixed_split m a y (omega arith) (omega arith))
          ∙ multiple_rem m y (m - a * suc y) (grind arith)
          ∙ ground arith

      forth : leb (a * y) h ≡ true → shifted h r + a * y ≡ h
      forth le = ground (arith, value y (leb→le (a * y) h le), positive a y)

      converse : shifted h r + a * y ≡ h → leb (a * y) h ≡ true
      converse v = ground arith

-- the tests for a product of magnitude `z`, from the signs of the factors
abbrev pub fits_signed : ℕ → Bool → Bool → ℕ → Bool
fits_signed h n n' z =
    (if (if n then not n' else n') then true else ltb z h)
    && (if (if n then not n' else n') then leb z h else true)

and_true : (b : Bool) → (b && true) ≡ b
and_true true = refl
and_true false = refl

iff_trans : {A B C : Type 0} → A ↔ B → C ↔ B → A ↔ C
iff_trans f g = (λ a. g.1 (f.0 a), λ c. f.1 (g.0 c))

-- For a modulus `m` of twice `h`: the signed product fits iff the wrapped one is exact.
pub prod_exact :
    (h m x y : ℕ)
    → 1 ≤ h
    → m ≡ 2 * h
    → x < m
    → y < m
    → (fits_signed h
          (leb h x)
          (leb h y)
          ((if leb h x then m - x else x) * (if leb h y then m - y else y))
        ≡ true)
      ↔ (shifted h (x * y % m) + h * shifted h x + h * shifted h y
          ≡ shifted h x * shifted h y + h * h + h)
prod_exact h m x y one e p q = elim (Bool-cases (leb h x)) [
  | inl n ↦ elim (Bool-cases (leb h y)) [
    | inl n' ↦ rw n (
        rw n' (
          rw (and_true (ltb ((m - x) * (m - y)) h)) (
            rw (reflect x n p) (
              rw (reflect y n' q) (
                iff_trans (negatives x y n n' p q)
                  (both_negative h (m - x) (m - y) _ (low x n) (low y n')))))))
    | inr n' ↦ rw n (
        rw n' (
          rw (reflect x n p) (
            iff_trans
              (mixed_sign h m (x * y % m) one e (m - x) y (omega arith) (low x n)
                (ap (λ x. x * y % m) (twice x p)))
              (mixed h (m - x) y _ (low x n)))))
  ]
  | inr n ↦ elim (Bool-cases (leb h y)) [
    | inl n' ↦ rw n (
        rw n' (
          rw (reflect y n' q) (
            rw (comm x (m - y)) (
              iff_trans
                (mixed_sign h m (x * y % m) one e (m - y) x (omega arith) (low y n')
                  (ap (λ n. n % m) (comm x y) ∙ ap (λ y. y * x % m) (twice y q)))
                (mixed' h (m - y) x _ (low y n'))))))
    | inr n' ↦ rw n (
        rw n' (
          rw (and_true (ltb (x * y) h))
            (iff_trans (same_sign h m _ one e (x * y) refl) (both_positive h x y _))))
  ]
]
  where
    low : (x : ℕ) → leb h x ≡ true → m - x ≤ h
    low x n = omega (arith, leb→le h x n)

    reflect : (x : ℕ) → leb h x ≡ true → x < m → x - h ≡ h - (m - x)
    reflect x n p = omega (arith, leb→le h x n)

    twice : (x : ℕ) → x < m → x ≡ m - (m - x)
    twice x p = omega arith

    comm : (x y : ℕ) → x * y ≡ y * x
    comm x y = grind arith

    negatives :
        (x y : ℕ)
        → leb h x ≡ true
        → leb h y ≡ true
        → x < m
        → y < m
        → (ltb ((m - x) * (m - y)) h ≡ true) ↔ (shifted h (x * y % m) ≡ (m - x) * (m - y) + h)
    negatives x y n n' p q = same_sign h m _ one e ((m - x) * (m - y)) (
        ap₂ (λ x y. x * y % m) (twice x p) (twice y q)
        ∙ ap (λ n. n % m) (negative_split m (m - x) (m - y) (omega (arith, low x n, low y n')))
        ∙ multiple_mod m (m - (m - x) - (m - y)) ((m - x) * (m - y)) (omega arith))
