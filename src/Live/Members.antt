-- ===== src/Live/Members.antt =====
-- Membership in sorted vectors, and the update of one block.
use seahorn.Prelude.{ℕ, ◌≡◌, ◌↔◌, ◌⊎◌, inl, inr, List, In, arith}
use seahorn.Live.{LiveInfo, LiveMap, put, sort, set_difference, add_live}
use seahorn.Live.Sorted.{IsSorted, copies-sort, copies-set_difference}
use seahorn.Live.Pass.{copies-add_live}
use seahorn.Live.Fixpoint.{copies-In}

pub sort-In : (x : ℕ) (xs : List ℕ) → In x (sort xs) ↔ In x xs
sort-In x xs =
    let same = copies-sort x xs in
    let (to, from) = copies-In x xs in
    let (to_s, from_s) = copies-In x (sort xs) in
    (
      λ h. let positive = from_s h in to (omega (arith, positive, same)),
      λ h. let positive = from h in to_s (omega (arith, positive, same)),
    )

pub add_live-In :
    (x : ℕ) (v : List ℕ) (li : LiveInfo) → In x ((add_live v li).live) ↔ (In x (li.live) ⊎ In x v)
add_live-In x v li =
    let sum = copies-add_live x v li in
    let (to, from) = copies-In x ((add_live v li).live) in
    let (to_l, from_l) = copies-In x (li.live) in
    let (to_v, from_v) = copies-In x v in
    (
      λ h. let positive = from h in ground (arith, positive, sum, to_l, to_v),
      λ h. elim h [
        | inl p ↦ let positive = from_l p in to (omega (arith, positive, sum))
        | inr q ↦ let positive = from_v q in to (omega (arith, positive, sum))
      ],
    )

pub put_same : (m : LiveMap) (b : ℕ) (li : LiveInfo) → put m b li b ≡ li
put_same m b li = ground arith

pub put_other : (m : LiveMap) (b c : ℕ) (li : LiveInfo) → ¬ (c ≡ b) → put m b li c ≡ m c
put_other m b c li n = ground (arith, n)

-- A member of a difference is one of the first list; a member of that is in the difference or in the second.
pub set_difference-In :
    (x : ℕ) (xs ys : List ℕ)
    → IsSorted xs
    → IsSorted ys
    → (In x (set_difference xs ys) → In x xs) × (In x xs → In x ys ⊎ In x (set_difference xs ys))
set_difference-In x xs ys h k =
    let less = copies-set_difference x xs ys h k in
    let (to, from) = copies-In x (set_difference xs ys) in
    let (to_x, from_x) = copies-In x xs in
    let (to_y, from_y) = copies-In x ys in
    (
      λ p. let positive = from p in to_x (omega (arith, positive, less)),
      λ p. let positive = from_x p in ground (arith, positive, less, to, to_y),
    )
