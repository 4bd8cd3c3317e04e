-- ===== src/Horn/Indexes.antt =====
-- What buildIndexes puts in the indexes.
use seahorn.Prelude.{
  ℕ, zero, suc, ◌+◌, ◌≡◌, refl, sym, ◌∙◌, ◌↔◌, ◌⊎◌, inl, inr, true, false, some, List, [], ◌∷◌,
  get_elem?, ◌==◌, arith, subst, Bool-cases,
}
use seahorn.Expr.Syntax.{Expr, ◌≟◌, ≟→≡, →≟}
use seahorn.Prelude.{In}
use seahorn.Horn.Uses.{UsedIn, Applies, used_relations-UsedIn, head_relations-Applies}
use seahorn.Horn.{
  HornRule, HornClauseDb, Index, put_pos, index_put, index_all, rules_at, index_rules,
  build_indexes, use_of, def_of, used_relations, head_relations,
}

apart : (a b : Expr) → (a ≟ b) ≡ false → a ≡ b → ⊥
apart a b h e = let t = →≟ a b e in ground (arith, t, h)

put_pos_same : (i k : ℕ) (js : List ℕ) → (i == k) ≡ true → put_pos i (k ∷ js) ≡ k ∷ js
put_pos_same i k js h = ground arith

put_pos_other : (i k : ℕ) (js : List ℕ) → (i == k) ≡ false → put_pos i (k ∷ js) ≡ k ∷ put_pos i js
put_pos_other i k js h = ground arith

put_pos-In : (i j : ℕ) (js : List ℕ) → In j (put_pos i js) ↔ ((j ≡ i) ⊎ In j js)
put_pos-In i j [] = (λ h. h, λ h. h)
put_pos-In i j (k ∷ js) = elim (Bool-cases (i == k)) [
  | inl same ↦
      let e : i ≡ k = ground arith in
      subst (λ l. In j l ↔ ((j ≡ i) ⊎ In j (k ∷ js))) (sym (put_pos_same i k js same))
        (λ h. inr h, λ h. elim h [ inl q ↦ inl (q ∙ e) | inr q ↦ q ])
  | inr other ↦
      let (to, from) = put_pos-In i j js in
      subst (λ l. In j l ↔ ((j ≡ i) ⊎ In j (k ∷ js))) (sym (put_pos_other i k js other))
        (
          λ h. elim h [
            | inl q ↦ inr (inl q)
            | inr q ↦ elim (to q) [ inl e ↦ inl e | inr old ↦ inr (inr old) ]
          ],
          λ h. elim h [
            | inl e ↦ inr (from (inl e))
            | inr (inl q) ↦ inl q
            | inr (inr q) ↦ inr (from (inr q))
          ],
        )
]

index_put-In :
    (k d : Expr) (i j : ℕ) (idx : Index)
    → In j (rules_at k (index_put d i idx)) ↔ (((k ≡ d) × (j ≡ i)) ⊎ In j (rules_at k idx))
unfolding rules_at index_put
index_put-In k d i j [] = elim (Bool-cases (k ≟ d)) [
  | inl same ↦ rw same (
    λ h. elim h [ inl e ↦ inl (≟→≡ k d same, e) | inr n ↦ absurd n ],
    λ h. elim h [ inl p ↦ inl p.1 | inr n ↦ absurd n ],
  )
  | inr other ↦ rw other (λ h. absurd h, λ h. elim h [ inl p ↦ apart k d other p.0 | inr n ↦ n ])
]
index_put-In k d i j ((l, js) ∷ idx) = elim (Bool-cases (d ≟ l)) [
  | inl same ↦ elim (Bool-cases (k ≟ l)) [
    | inl same' ↦
        let (to, from) = put_pos-In i j js in
        let e : k ≡ d = ≟→≡ k l same' ∙ sym (≟→≡ d l same) in
        rw (same, same')
          (
            λ h. elim (to h) [ inl q ↦ inl (e, q) | inr old ↦ inr old ],
            λ h. elim h [ inl q ↦ from (inl q.1) | inr old ↦ from (inr old) ],
          )
    | inr other' ↦
        rw (same, other')
          (
            λ h. inr h,
            λ h. elim h [ inl q ↦ absurd (apart k l other' (q.0 ∙ ≟→≡ d l same)) | inr old ↦ old ],
          )
  ]
  | inr other ↦ elim (Bool-cases (k ≟ l)) [
    | inl same' ↦
        rw (other, same')
          (
            λ h. inr h,
            λ h. elim h [
              | inl q ↦ absurd (apart d l other (sym q.0 ∙ ≟→≡ k l same'))
              | inr old ↦ old
            ],
          )
    | inr other' ↦ rw (other, other') (index_put-In k d i j idx)
  ]
]

index_all-In :
    (k : Expr) (ds : List Expr) (i j : ℕ) (idx : Index)
    → In j (rules_at k (index_all ds i idx)) ↔ ((In k ds × (j ≡ i)) ⊎ In j (rules_at k idx))
unfolding index_all
index_all-In k [] i j idx = (λ h. inr h, λ h. elim h [ inl p ↦ absurd p.0 | inr q ↦ q ])
index_all-In k (d ∷ ds) i j idx =
    let later = index_all-In k ds i j (index_put d i idx) in
    let first = index_put-In k d i j idx in
    (
      λ h. elim (later.0 h) [
        | inl (m, e) ↦ inl (inr m, e)
        | inr q ↦ elim (first.0 q) [ inl (e, e') ↦ inl (inl e, e') | inr old ↦ inr old ]
      ],
      λ h. elim h [
        | inl (inl e, e') ↦ later.1 (inr (first.1 (inl (e, e'))))
        | inl (inr m, e') ↦ later.1 (inl (m, e'))
        | inr old ↦ later.1 (inr (first.1 (inr old)))
      ],
    )

module _ (rels_of : HornRule → List Expr) where
  -- Position `n` of the list holds a rule with the relation.
  abbrev HasAt : Expr → ℕ → List HornRule → Type 0
  HasAt k n rs = (r : HornRule) × (get_elem? rs n ≡ some r) × In k (rels_of r)

  index_rules-In :
      (k : Expr) (rs : List HornRule) (i j : ℕ) (idx : Index)
      → In j (rules_at k (index_rules rels_of rs i idx))
        ↔ (((n : ℕ) × (j ≡ i + n) × HasAt k n rs) ⊎ In j (rules_at k idx))
  unfolding index_rules
  index_rules-In k [] i j idx = (λ h. inr h, λ h. elim h [ inl (n, _, (r, e, _)) ↦ cc | inr q ↦ q ])
  index_rules-In k (r ∷ rs) i j idx =
      let later = index_rules-In k rs (i + 1) j (index_all (rels_of r) i idx) in
      let first = index_all-In k (rels_of r) i j idx in
      (
        λ h. elim (later.0 h) [
          | inl (n, e, at) ↦ inl (suc n, omega (arith, e), at)
          | inr q ↦ elim (first.0 q) [
            | inl (m, e) ↦ inl (0, omega (arith, e), (r, refl, m))
            | inr old ↦ inr old
          ]
        ],
        λ h. elim h [
          | inl (zero, e, (r', e', m)) ↦
              let same : r ≡ r' = ground arith in
              later.1
                (inr (first.1 (inl (subst (λ q. In k (rels_of q)) (sym same) m, omega (arith, e)))))
          | inl (suc n, e, at) ↦ later.1 (inl (n, omega (arith, e), at))
          | inr old ↦ later.1 (inr (first.1 (inr old)))
        ],
      )

  whole :
      (k : Expr) (rs : List HornRule) (j : ℕ)
      → In j (rules_at k (index_rules rels_of rs 0 [])) ↔ HasAt k j rs
  unfolding rules_at
  whole k rs j =
      let (to, from) = index_rules-In k rs 0 j [] in
      (
        λ h. elim (to h) [
          | inl (n, e, at) ↦ subst (λ q. HasAt k q rs) (omega (arith, e)) at
          | inr n ↦ absurd n
        ],
        λ at. from (inl (j, omega arith, at)),
      )

-- After buildIndexes, use gives for a term the positions of the rules in whose bodies it is used as a
-- registered relation, at some place outside of larger ones, and def those of the rules whose head is an
-- application of it.
pub build_indexes-In :
    (db : HornClauseDb) (d : Expr) (j : ℕ)
    → (In j (use_of d (build_indexes db))
        ↔ ((r : HornRule) × (get_elem? db.rules j ≡ some r) × UsedIn db d r.body))
      × (In j (def_of d (build_indexes db))
          ↔ ((r : HornRule) × (get_elem? db.rules j ≡ some r) × Applies d r.head))
unfolding use_of def_of build_indexes
build_indexes-In db d j =
    let (use_to, use_from) = whole (used_relations db) d db.rules j in
    let (def_to, def_from) = whole head_relations d db.rules j in
    (
      (
        λ h. let (r, at, mem) = use_to h in (r, at, (used_relations-UsedIn db r d).0 mem),
        λ (r, at, u). use_from (r, at, (used_relations-UsedIn db r d).1 u),
      ),
      (
        λ h. let (r, at, mem) = def_to h in (r, at, (head_relations-Applies r d).0 mem),
        λ (r, at, u). def_from (r, at, (head_relations-Applies r d).1 u),
      ),
    )
