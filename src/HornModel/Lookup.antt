-- ===== src/HornModel/Lookup.antt =====
-- The maps of addDef and getDef, and what they have for a term.
use seahorn.Prelude.{
  ℕ, suc, ◌≤◌, ◌≡◌, refl, inl, inr, true, none, some, [], ◌∷◌, if◌then◌else◌, arith, Bool-cases,
  subst, ap, sym, ◌∙◌, decided→, →decided,
}
use seahorn.Expr.Syntax.{Op, Expr, Args, node, nil, cons, other, arity, ◌≟◌, Expr-discrete}
use seahorn.Expr.Visitor.{Cache, find}
use seahorn.HornModel.{bvar, args_to_bvars, bvars_to_args}

-- A bound variable; other terms of that operator, such as bit-vector numerals, are none.
abbrev pub IsBvar : Expr → Type 0
IsBvar e = (i : ℕ) × (ty : Expr) × (e ≡ bvar i ty)

-- No bound variable occurs in the term.
unfoldable mutual
  pub IsOpen : Expr → Type 0
  IsOpen (node op ks) = (¬ IsBvar (node op ks)) × AllOpen ks

  pub AllOpen : Args → Type 0
  AllOpen nil = Unit
  AllOpen (cons x ks) = IsOpen x × AllOpen ks

-- The arguments of one application to those of another.
abbrev pub pairs : Args → Args → Args → Cache
pairs nil xs ys = []
pairs (cons ty tys) (cons a xs) (cons b ys) = (a, b) ∷ pairs tys xs ys
pairs (cons ty tys) nil ys = []
pairs (cons ty tys) (cons a xs) nil = []

-- The maps, for xs many arguments xs types.
abbrev pub to_bvars : ℕ → Args → Args → Cache
to_bvars i nil xs = []
to_bvars i (cons ty tys) nil = []
to_bvars i (cons ty tys) (cons a xs) = (a, bvar i ty) ∷ to_bvars (suc i) tys xs

abbrev pub from_bvars : ℕ → Args → Args → Cache
from_bvars i nil xs = []
from_bvars i (cons ty tys) nil = []
from_bvars i (cons ty tys) (cons a xs) = (bvar i ty, a) ∷ from_bvars (suc i) tys xs

pub args_to_bvars_total :
    (i : ℕ) (tys xs : Args)
    → arity xs ≡ arity tys
    → args_to_bvars i tys xs ≡ some (to_bvars i tys xs)
unfolding args_to_bvars
args_to_bvars_total i nil xs h = refl
args_to_bvars_total i (cons ty tys) nil h = absurd (omega (arith, h))
args_to_bvars_total i (cons ty tys) (cons a xs) h =
    ap (λ o. elim o [ none ↦ none | some m ↦ some ((a, bvar i ty) ∷ m) ])
      (args_to_bvars_total (suc i) tys xs (omega (arith, h)))

pub bvars_to_args_total :
    (i : ℕ) (tys xs : Args)
    → arity xs ≡ arity tys
    → bvars_to_args i tys xs ≡ some (from_bvars i tys xs)
unfolding bvars_to_args
bvars_to_args_total i nil xs h = refl
bvars_to_args_total i (cons ty tys) nil h = absurd (omega (arith, h))
bvars_to_args_total i (cons ty tys) (cons a xs) h =
    ap (λ o. elim o [ none ↦ none | some m ↦ some ((bvar i ty, a) ∷ m) ])
      (bvars_to_args_total (suc i) tys xs (omega (arith, h)))

≟_same : (e : Expr) → (e ≟ e) ≡ true
unfolding ◌≟◌
≟_same e = →decided (Expr-discrete e e) refl

pub find_other : (k j t : Expr) (m : Cache) → ¬ (k ≡ j) → find k ((j, t) ∷ m) ≡ find k m
unfolding find ◌≟◌
find_other k j t m n = ground (arith, n, decided→ (Expr-discrete k j))

pub find_same : (k t : Expr) (m : Cache) → find k ((k, t) ∷ m) ≡ some t
unfolding find
find_same k t m = rw (≟_same k) refl

-- A term that is no bound variable is no key.
pub find-from_bvars_open :
    (op : Op) (ks : Args) (i : ℕ) (tys xs : Args)
    → ¬ IsBvar (node op ks)
    → find (node op ks) (from_bvars i tys xs) ≡ none
unfolding find
find-from_bvars_open op ks i nil xs n = refl
find-from_bvars_open op ks i (cons ty tys) nil n = refl
find-from_bvars_open op ks i (cons ty tys) (cons a xs) n =
    find_other (node op ks) (bvar i ty) a (from_bvars (suc i) tys xs) (λ e. n (i, ty, e))
    ∙ find-from_bvars_open op ks (suc i) tys xs n

abbrev index_at : Expr → ℕ
index_at (node op (cons (node (other k) ks) ls)) = k
index_at _ = 0

pub some_injective : {x y : Expr} → some x ≡ some y → x ≡ y
some_injective h = cc

-- A key has the same place in both maps.
pub find_missing :
    (e : Expr) (i : ℕ) (tys xs ys : Args)
    → arity xs ≡ arity tys
    → arity ys ≡ arity tys
    → find e (to_bvars i tys xs) ≡ none
    → find e (pairs tys xs ys) ≡ none
unfolding find
find_missing e i nil xs ys h k miss = refl
find_missing e i (cons ty tys) nil ys h k miss = refl
find_missing e i (cons ty tys) (cons a xs) nil h k miss = refl
find_missing e i (cons ty tys) (cons a xs) (cons b ys) h k miss = elim (Bool-cases (e ≟ a)) [
  | inl same ↦
      let found : find e (to_bvars i (cons ty tys) (cons a xs)) ≡ some (bvar i ty) = rw same refl in
      cc
  | inr other_key ↦ rw other_key (
      find_missing e (suc i) tys xs ys (omega (arith, h)) (omega (arith, k)) (
        subst (λ t. (if t then some (bvar i ty) else find e (to_bvars (suc i) tys xs)) ≡ none)
          other_key miss))
]

-- A bound variable of index at least `i`.
abbrev FromIndex : ℕ → Expr → Type 0
FromIndex i t = (j : ℕ) × (ty : Expr) × (i ≤ j) × (t ≡ bvar j ty)

pub find_found :
    (e t : Expr) (i : ℕ) (tys xs ys : Args)
    → arity xs ≡ arity tys
    → arity ys ≡ arity tys
    → find e (to_bvars i tys xs) ≡ some t
    → (b : Expr) × (find e (pairs tys xs ys) ≡ some b)
      × (find t (from_bvars i tys ys) ≡ some b)
      × FromIndex i t
unfolding find
find_found e t i nil xs ys h k found = cc
find_found e t i (cons ty tys) nil ys h k found = absurd (omega (arith, h))
find_found e t i (cons ty tys) (cons a xs) nil h k found = absurd (omega (arith, k))
find_found e t i (cons ty tys) (cons a xs) (cons b ys) h k found = elim (Bool-cases (e ≟ a)) [
  | inl same ↦
      let here : t ≡ bvar i ty = some_injective (
        sym found
        ∙ ap (λ u. if u then some (bvar i ty) else find e (to_bvars (suc i) tys xs)) same) in
      (
        b,
        rw same refl,
        subst (λ u. find u (from_bvars i (cons ty tys) (cons b ys)) ≡ some b) (sym here)
            (find_same (bvar i ty) b (from_bvars (suc i) tys ys)),
        (i, ty, omega arith, here),
      )
  | inr further ↦
      let (c, in_pairs, in_bvars, (j, ty', le, is_bvar)) =
        find_found e t (suc i) tys xs ys (omega (arith, h)) (omega (arith, k)) (
          subst (λ u. (if u then some (bvar i ty) else find e (to_bvars (suc i) tys xs)) ≡ some t)
            further found) in
      (
        c,
        rw further in_pairs,
        find_other t (bvar i ty) b (from_bvars (suc i) tys ys)
              (λ q. let same = ap index_at (sym q ∙ is_bvar) in absurd (omega (arith, same, le)))
            ∙ in_bvars,
        (j, ty', omega (arith, le), is_bvar),
      )
]
