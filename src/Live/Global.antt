-- ===== src/Live/Global.antt =====
-- globallyLive: what is added to every block.
use seahorn.Prelude.{ℕ, ◌↔◌, ◌⊎◌, inl, inr, List, [], ◌∷◌, In, subst, sym, ℕ_discrete}
use seahorn.Live.{LiveInfo, LiveMap, put, sort, set_difference, union_live, globally_live}
use seahorn.Live.Sorted.{IsSorted, sort-IsSorted}
use seahorn.Live.Pass.{add_live-IsSorted}
use seahorn.Live.Members.{put_same, put_other, sort-In, add_live-In, set_difference-In}

union_live-In :
    (x : ℕ) (v : List ℕ) (li : LiveInfo)
    → IsSorted (li.live)
    → In x ((union_live v li).live) ↔ (In x (li.live) ⊎ In x v)
union_live-In x v li h =
    let d = set_difference (sort v) (li.live) in
    let (to, from) = add_live-In x d li in
    let (sub, cover) = set_difference-In x (sort v) (li.live) (sort-IsSorted v) h in
    (
      λ p. elim (to p) [ inl q ↦ inl q | inr q ↦ inr ((sort-In x v).0 (sub q)) ],
      λ p. elim p [
        | inl q ↦ from (inl q)
        | inr q ↦ elim (cover ((sort-In x v).1 q)) [
          | inl old ↦ from (inl old)
          | inr new ↦ from (inr new)
        ]
      ],
    )

abbrev pub SortedLive : LiveMap → Type 0
SortedLive m = (b : ℕ) → IsSorted ((m b).live)

put-SortedLive :
    (m : LiveMap) (b : ℕ) (li : LiveInfo)
    → SortedLive m
    → IsSorted (li.live)
    → SortedLive (put m b li)
put-SortedLive m b li h k c = elim (ℕ_discrete c b) [
  | yes e ↦
      subst (λ y. IsSorted ((put m b li y).live)) (sym e)
        (subst (λ z. IsSorted (z.live)) (sym (put_same m b li)) k)
  | no n ↦ subst (λ z. IsSorted (z.live)) (sym (put_other m b c li n)) (h c)
]

module _ (v : List ℕ) (x : ℕ) where
  abbrev pub Joins : LiveMap → LiveMap → ℕ → Type 0
  Joins m m' b =
      (In x ((m b).live) → In x ((m' b).live)) × (In x ((m' b).live) → In x ((m b).live) ⊎ In x v)

  put-Joins : (m : LiveMap) (c b : ℕ) → SortedLive m → Joins m (put m c (union_live v (m c))) b
  put-Joins m c b h = elim (ℕ_discrete b c) [
    | yes e ↦
        let (to, from) = union_live-In x v (m c) (h c) in
        subst (Joins m (put m c (union_live v (m c)))) (sym e)
          (rw (put_same m c (union_live v (m c))) (λ p. from (inl p), to))
    | no n ↦ rw (put_other m c b (union_live v (m c)) n) (λ p. p, λ p. inl p)
  ]

  union_live-SortedLive :
      (m : LiveMap) (c : ℕ) → SortedLive m → SortedLive (put m c (union_live v (m c)))
  union_live-SortedLive m c h =
      put-SortedLive m c (union_live v (m c)) h
        (add_live-IsSorted (set_difference (sort v) ((m c).live)) (m c) (h c))

  pub globally_live-Joins :
      (bs : List ℕ) (m : LiveMap) (b : ℕ) → SortedLive m → Joins m (globally_live v bs m) b
  unfolding globally_live
  globally_live-Joins [] m b h = (λ p. p, λ p. inl p)
  globally_live-Joins (c ∷ bs) m b h =
      let m1 = put m c (union_live v (m c)) in
      let (keep1, only1) = put-Joins m c b h in
      let (keep2, only2) = globally_live-Joins bs m1 b (union_live-SortedLive m c h) in
      (λ p. keep2 (keep1 p), λ p. elim (only2 p) [ inl q ↦ only1 q | inr q ↦ inr q ])

  pub globally_live-adds :
      (bs : List ℕ) (m : LiveMap) (b : ℕ)
      → SortedLive m
      → In b bs
      → In x v
      → In x ((globally_live v bs m b).live)
  unfolding globally_live
  globally_live-adds [] m b h mem q = absurd mem
  globally_live-adds (c ∷ bs) m b h (inl e) q =
      let m1 = put m c (union_live v (m c)) in
      let added : In x ((m1 c).live) =
        rw (put_same m c (union_live v (m c))) ((union_live-In x v (m c) (h c)).1 (inr q)) in
      (globally_live-Joins bs m1 b (union_live-SortedLive m c h)).0
        (subst (λ y. In x ((m1 y).live)) (sym e) added)
  globally_live-adds (c ∷ bs) m b h (inr mem) q =
      globally_live-adds bs (put m c (union_live v (m c))) b (union_live-SortedLive m c h) mem q
