-- ===== src/Horn/CallGraph/Sets.antt =====
-- Sets of relations, as buildCallGraph fills them.
use seahorn.Prelude.{
  ℕ, ◌≡◌, refl, sym, ap, ◌∙◌, ◌↔◌, ◌⊎◌, inl, inr, true, none, some, List, [], ◌∷◌, In, get_elem?,
  if◌then◌else◌, subst, Bool-cases, Option-cases,
}
use seahorn.Expr.Syntax.{Expr, ◌≟◌, ≟→≡}
use seahorn.Expr.Replace.{member}
use seahorn.Horn.{HornRule}
use seahorn.Horn.CallGraph.{set_insert, relations_at}

member-In : (d : Expr) (s : List Expr) → (member d s ≡ true) → In d s
unfolding member
member-In d [] h = cc
member-In d (x ∷ s) h = elim (Bool-cases (d ≟ x)) [
  | inl same ↦ inl (≟→≡ d x same)
  | inr further ↦
      inr (member-In d s (subst (λ t. (if t then true else member d s) ≡ true) further h))
]

set_insert-In : (x : Expr) (ds s : List Expr) → In x (set_insert ds s) ↔ (In x ds ⊎ In x s)
unfolding set_insert
set_insert-In x [] s = (λ h. inr h, λ h. elim h [ inl n ↦ absurd n | inr q ↦ q ])
set_insert-In x (d ∷ ds) s = elim (Bool-cases (member d s)) [
  | inl old ↦
      let (to, from) = set_insert-In x ds s in
      rw old (
        λ h. elim (to h) [ inl q ↦ inl (inr q) | inr q ↦ inr q ],
        λ h. elim h [
          | inl (inl e) ↦ from (inr (subst (λ y. In y s) (sym e) (member-In d s old)))
          | inl (inr q) ↦ from (inl q)
          | inr q ↦ from (inr q)
        ],
      )
  | inr new ↦
      let (to, from) = set_insert-In x ds (d ∷ s) in
      rw new (
        λ h. elim (to h) [ inl q ↦ inl (inr q) | inr (inl e) ↦ inl (inl e) | inr (inr q) ↦ inr q ],
        λ h. elim h [
          | inl (inl e) ↦ from (inr (inl e))
          | inl (inr q) ↦ from (inl q)
          | inr q ↦ from (inr (inr q))
        ],
      )
]

no_rule : {r : HornRule} → none ≡ some r → ⊥
no_rule h = cc

pub same_rule : {r s : HornRule} → some r ≡ some s → r ≡ s
same_rule h = cc

module _ (rels_of : HornRule → List Expr) (rules : List HornRule) where
  abbrev GivenAt : Expr → List ℕ → Type 0
  GivenAt x js =
      (j : ℕ) × In j js × ((r : HornRule) × (get_elem? rules j ≡ some r) × In x (rels_of r))

  relations_at_missing :
      (j : ℕ) (js : List ℕ) (s : List Expr)
      → get_elem? rules j ≡ none
      → relations_at rels_of rules (j ∷ js) s ≡ relations_at rels_of rules js s
  unfolding relations_at
  relations_at_missing j js s h =
      ap
        (λ o. elim o [
          | none ↦ relations_at rels_of rules js s
          | some r ↦ relations_at rels_of rules js (set_insert (rels_of r) s)
        ])
        h

  relations_at_found :
      (j : ℕ) (js : List ℕ) (s : List Expr) (r : HornRule)
      → get_elem? rules j ≡ some r
      → relations_at rels_of rules (j ∷ js) s
        ≡ relations_at rels_of rules js (set_insert (rels_of r) s)
  unfolding relations_at
  relations_at_found j js s r h =
      ap
        (λ o. elim o [
          | none ↦ relations_at rels_of rules js s
          | some q ↦ relations_at rels_of rules js (set_insert (rels_of q) s)
        ])
        h

  pub relations_at-In :
      (x : Expr) (js : List ℕ) (s : List Expr)
      → In x (relations_at rels_of rules js s) ↔ (GivenAt x js ⊎ In x s)
  unfolding relations_at
  relations_at-In x [] s = (λ h. inr h, λ h. elim h [ inl n ↦ absurd n.1 | inr q ↦ q ])
  relations_at-In x (j ∷ js) s = elim (Option-cases (get_elem? rules j)) [
    | inl missing ↦
        let (to, from) = relations_at-In x js s in
        subst (λ l. In x l ↔ (GivenAt x (j ∷ js) ⊎ In x s))
          (sym (relations_at_missing j js s missing))
          (
            λ h. elim (to h) [ inl (k, mem, q) ↦ inl (k, inr mem, q) | inr q ↦ inr q ],
            λ h. elim h [
              | inl (k, inl e, (r, at, q)) ↦
                  absurd (no_rule (sym missing ∙ sym (ap (get_elem? rules) e) ∙ at))
              | inl (k, inr mem, q) ↦ from (inl (k, mem, q))
              | inr q ↦ from (inr q)
            ],
          )
    | inr (r, found) ↦
        let (to, from) = relations_at-In x js (set_insert (rels_of r) s) in
        let (pick, give) = set_insert-In x (rels_of r) s in
        subst (λ l. In x l ↔ (GivenAt x (j ∷ js) ⊎ In x s))
          (sym (relations_at_found j js s r found))
          (
            λ h. elim (to h) [
              | inl (k, mem, q) ↦ inl (k, inr mem, q)
              | inr q ↦ elim (pick q) [
                | inl new ↦ inl (j, inl refl, (r, found, new))
                | inr old ↦ inr old
              ]
            ],
            λ h. elim h [
              | inl (k, inl e, (r', at, q)) ↦
                  let same : r' ≡ r = same_rule (sym at ∙ ap (get_elem? rules) e ∙ found) in
                  from (inr (give (inl (subst (λ t. In x (rels_of t)) same q))))
              | inl (k, inr mem, q) ↦ from (inl (k, mem, q))
              | inr q ↦ from (inr (give (inr q)))
            ],
          )
  ]
