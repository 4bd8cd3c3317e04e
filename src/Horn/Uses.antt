-- ===== src/Horn/Uses.antt =====
-- Which relations a rule of lib/seahorn/HornClauseDB.cc uses and defines, said without its functions.
use seahorn.Prelude.{
  ◌≡◌, sym, ap, ◌↔◌, ◌⊎◌, inl, inr, true, false, none, some, List, [], ◌∷◌, In, arith, Bool-cases,
}
use seahorn.Expr.Syntax.{Op, Expr, Args, node, nil, cons, ◌≟◌, →≟}
use seahorn.Expr.Replace.{member}
use seahorn.Expr.Filter.Correct.{Hit, HitIn, filter-Hit, member-In}
use seahorn.Horn.{
  HornRule, HornClauseDb, is_fdecl, is_relation, has_relation, used_relations, head_relations,
  fname,
}

-- A declaration that is registered.
abbrev pub IsRegistered : HornClauseDb → Expr → Type 0
IsRegistered db e = (is_fdecl e ≡ true) × In e db.rels

-- A term is a registered relation that occurs in the other one, at some place outside of larger ones.
abbrev mutual
  pub UsedIn : HornClauseDb → Expr → Expr → Type 0
  UsedIn db d (node op ks) =
      (IsRegistered db (node op ks) × (d ≡ node op ks))
      ⊎ ((¬ IsRegistered db (node op ks)) × UsedInArgs db d ks)

  pub UsedInArgs : HornClauseDb → Expr → Args → Type 0
  UsedInArgs db d nil = ⊥
  UsedInArgs db d (cons x ks) = UsedIn db d x ⊎ UsedInArgs db d ks

-- A term is an application of the other one, its first argument.
abbrev pub Applies : Expr → Expr → Type 0
Applies d e = (op : Op) × (ks : Args) × (e ≡ node op (cons d ks))

In-member : (x : Expr) (xs : List Expr) → In x xs → member x xs ≡ true
unfolding member
In-member x [] h = absurd h
In-member x (y ∷ xs) h = elim (Bool-cases (x ≟ y)) [
  | inl same ↦ ground (arith, same)
  | inr other ↦ elim h [
    | inl e ↦ let t = →≟ x y e in ground (arith, t, other)
    | inr later ↦ ground (arith, In-member x xs later)
  ]
]

is_relation-IsRegistered :
    (db : HornClauseDb) (e : Expr) → (is_relation db e ≡ true) ↔ IsRegistered db e
unfolding is_relation has_relation
is_relation-IsRegistered db e = (
  λ h. (ground arith, member-In e db.rels (ground arith)),
  λ (d, i). let m = In-member e db.rels i in ground (arith, d, m),
)

no_relation : (db : HornClauseDb) (e : Expr) → is_relation db e ≡ false → ¬ IsRegistered db e
no_relation db e h = λ r. let t = (is_relation-IsRegistered db e).1 r in ground (arith, t, h)

mutual
  Hit-UsedIn : (db : HornClauseDb) (d e : Expr) → Hit (is_relation db) d e ↔ UsedIn db d e
  Hit-UsedIn db d (node op ks) =
      let (to, from) = HitIn-UsedInArgs db d ks in
      (
        λ h. elim h [
          | inl (hit, same) ↦ inl ((is_relation-IsRegistered db (node op ks)).0 hit, same)
          | inr (miss, below) ↦ inr (no_relation db (node op ks) miss, to below)
        ],
        λ h. elim h [
          | inl (reg, same) ↦ inl ((is_relation-IsRegistered db (node op ks)).1 reg, same)
          | inr (missing, below) ↦ elim (Bool-cases (is_relation db (node op ks))) [
            | inl hit ↦ absurd (missing ((is_relation-IsRegistered db (node op ks)).0 hit))
            | inr miss ↦ inr (miss, from below)
          ]
        ],
      )

  HitIn-UsedInArgs :
      (db : HornClauseDb) (d : Expr) (ks : Args) → HitIn (is_relation db) d ks ↔ UsedInArgs db d ks
  HitIn-UsedInArgs db d nil = (λ h. h, λ h. h)
  HitIn-UsedInArgs db d (cons x ks) =
      let (to, from) = Hit-UsedIn db d x in
      let (to', from') = HitIn-UsedInArgs db d ks in
      (
        λ h. elim h [ inl a ↦ inl (to a) | inr b ↦ inr (to' b) ],
        λ h. elim h [ inl a ↦ inl (from a) | inr b ↦ inr (from' b) ],
      )

pub used_relations-UsedIn :
    (db : HornClauseDb) (r : HornRule) (d : Expr) → In d (used_relations db r) ↔ UsedIn db d r.body
unfolding used_relations
used_relations-UsedIn db r d =
    let (to, from) = filter-Hit (is_relation db) r.body d in
    let (to', from') = Hit-UsedIn db d r.body in (λ h. to' (to h), λ h. from (from' h))

abbrev declared : Expr → List Expr
declared e = elim (fname e) [ none ↦ [] | some k ↦ k ∷ [] ]

declared-Applies : (e d : Expr) → In d (declared e) ↔ Applies d e
declared-Applies (node op nil) d = (λ h. absurd h, λ (op', ks, e). cc)
declared-Applies (node op (cons k ks)) d = (
  λ h. elim h [ inl e ↦ (op, ks, ap (λ t. node op (cons t ks)) (sym e)) | inr n ↦ absurd n ],
  λ (op', ls, e). inl (let first : some k ≡ some d = ap fname e in cc),
)

pub head_relations-Applies : (r : HornRule) (d : Expr) → In d (head_relations r) ↔ Applies d r.head
head_relations-Applies r d = declared-Applies r.head d
