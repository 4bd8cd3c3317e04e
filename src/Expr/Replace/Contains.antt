-- ===== src/Expr/Replace/Contains.antt =====
-- contains decides whether a term occurs in another, and replaceAll leaves alone what does not contain
-- the term to be replaced.
use seahorn.Prelude.{
  ℕ, suc, ◌<◌, ◌≡◌, refl, sym, ap, ap₂, ◌∙◌, ◌↔◌, ◌⊎◌, inl, inr, Bool, true, false, ◌||◌, some,
  List, [], ◌∷◌, arith, subst, Bool-cases,
}
use seahorn.Expr.Syntax.{Op, Expr, Args, node, nil, cons, size, size_args, ◌≟◌, ≟→≡, →≟}
use seahorn.Expr.Visitor.{Action, do_kids}
use seahorn.Expr.Visitor.Rule.{Kids, none_left, next, AllKids, Promise, visit_rule}
use seahorn.Expr.Replace.{
  replace_all_action, replace_all, Search, member, search, search_args, contains,
}

-- Occurrence in a term, and in an argument list.
abbrev mutual
  pub Occurs : Expr → Expr → Type 0
  Occurs e (node op ks) = (e ≡ node op ks) ⊎ OccursIn e ks

  pub OccursIn : Expr → Args → Type 0
  OccursIn e nil = ⊥
  OccursIn e (cons x ks) = Occurs e x ⊎ OccursIn e ks

abbrev OnlyTarget : Expr → List Expr → Type 0
OnlyTarget e [] = Unit
OnlyTarget e (x ∷ xs) = (x ≡ e) × OnlyTarget e xs

member_target : (e x : Expr) (xs : List Expr) → OnlyTarget e xs → member x xs ≡ true → e ≡ x
unfolding member
member_target e x [] o h = ground arith
member_target e x (y ∷ xs) o h = elim (Bool-cases (x ≟ y)) [
  | inl same ↦ sym (≟→≡ x y same ∙ o.0)
  | inr other ↦ member_target e x xs o.1 (ground (arith, other, h))
]

-- A step of the search adds what occurs.
abbrev Adds : Expr → Search → Search → Type 0 → Type 0
Adds e st st' Here = ((st'.found ≡ true) ↔ ((st.found ≡ true) ⊎ Here)) × OnlyTarget e st'.seen

module _ (e : Expr) (op : Op) (ks : Args) (st : Search) where
  abbrev ends_here : Bool
  ends_here = st.found || member (node op ks) st.seen || e ≟ node op ks

  search_stop : ends_here ≡ true → search e (node op ks) st ≡ record st { found = true }
  unfolding search
  search_stop h = rw (search, h) refl

  search_go :
      ends_here ≡ false
      → search e (node op ks) st ≡ search_args e ks (record st { seen = e ∷ st.seen })
  unfolding search
  search_go h = rw (search, h) refl

  why_stop : OnlyTarget e st.seen → ends_here ≡ true → (st.found ≡ true) ⊎ (e ≡ node op ks)
  why_stop o h = elim (Bool-cases st.found) [
    | inl f ↦ inl f
    | inr nf ↦ elim (Bool-cases (member (node op ks) st.seen)) [
      | inl m ↦ inr (member_target e (node op ks) st.seen o m)
      | inr nm ↦ inr (≟→≡ e (node op ks) (ground (arith, nf, nm, h)))
    ]
  ]

  why_go : ends_here ≡ false → e ≡ node op ks → ⊥
  why_go h same = let t = →≟ e (node op ks) same in ground (arith, t, h)

  not_found : ends_here ≡ false → st.found ≡ true → ⊥
  not_found h f = ground (arith, f, h)

mutual
  unfolding search

  search-Adds :
      (e t : Expr) (st : Search) → OnlyTarget e st.seen → Adds e st (search e t st) (Occurs e t)
  search-Adds e (node op ks) st o = elim (Bool-cases (ends_here e op ks st)) [
    | inl stop ↦
        subst (λ st'. Adds e st st' (Occurs e (node op ks))) (sym (search_stop e op ks st stop))
          (
            (
              λ h. elim (why_stop e op ks st o stop) [ inl f ↦ inl f | inr same ↦ inr (inl same) ],
              λ h. refl,
            ),
            o,
          )
    | inr go ↦
        let (below, o') = search_args-Adds e ks (record st { seen = e ∷ st.seen }) (refl, o) in
        subst (λ st'. Adds e st st' (Occurs e (node op ks))) (sym (search_go e op ks st go))
          (
            (
              λ h. elim (below.0 h) [ inl f ↦ inl f | inr here ↦ inr (inr here) ],
              λ h. elim h [
                | inl f ↦ below.1 (inl f)
                | inr (inl same) ↦ absurd (why_go e op ks st go same)
                | inr (inr here) ↦ below.1 (inr here)
              ],
            ),
            o',
          )
  ]

  search_args-Adds :
      (e : Expr) (ks : Args) (st : Search)
      → OnlyTarget e st.seen
      → Adds e st (search_args e ks st) (OccursIn e ks)
  search_args-Adds e nil st o = ((λ h. inl h, λ h. elim h [ inl f ↦ f | inr n ↦ absurd n ]), o)
  search_args-Adds e (cons x ks) st o =
      let (first, o1) = search-Adds e x st o in
      let (rest, o2) = search_args-Adds e ks (search e x st) o1 in
      (
        (
          λ h. elim (rest.0 h) [
            | inl f ↦ elim (first.0 f) [ inl was ↦ inl was | inr here ↦ inr (inl here) ]
            | inr later ↦ inr (inr later)
          ],
          λ h. elim h [
            | inl was ↦ rest.1 (inl (first.1 (inl was)))
            | inr (inl here) ↦ rest.1 (inl (first.1 (inr here)))
            | inr (inr later) ↦ rest.1 (inr later)
          ],
        ),
        o2,
      )

contains-Occurs : (e1 e2 : Expr) → (contains e1 e2 ≡ true) ↔ Occurs e2 e1
unfolding contains
contains-Occurs e1 e2 =
    let (both, _) = search-Adds e2 e1 (record { found = false; seen = [] }) tt in
    (λ h. elim (both.0 h) [ inl f ↦ ground (arith, f) | inr here ↦ here ], λ h. both.1 (inr h))

Kids-same : {ks ls : Args} → Kids (λ k r. r ≡ k) ks ls → ls ≡ ks
Kids-same none_left = refl
Kids-same (next p q) = ap₂ cons p (Kids-same q)

module _ (s t : Expr) where
  abbrev Kept : Expr → Action → Type 0
  Kept = Promise (replace_all_action s t) (λ e. ¬ Occurs s e) (λ e r. r ≡ e) size

  absent_args :
      (ks : Args) (m : ℕ)
      → size_args ks < m
      → ¬ OccursIn s ks
      → AllKids (λ k. (¬ Occurs s k) × (size k < m)) ks
  absent_args nil m h n = tt
  absent_args (cons x ks) m h n =
      ((λ o. n (inl o), omega arith), absent_args ks m (omega arith) (λ o. n (inr o)))

  action_absent : (e : Expr) → (e ≟ s) ≡ false → replace_all_action s t e ≡ do_kids
  unfolding replace_all_action
  action_absent e h = ground arith

  replace_all_action-Promise : (e : Expr) → ¬ Occurs s e → Kept e (replace_all_action s t e)
  replace_all_action-Promise (node op ks) n = elim (Bool-cases (node op ks ≟ s)) [
    | inl same ↦ absurd (n (inl (sym (≟→≡ (node op ks) s same))))
    | inr other ↦ subst (Kept (node op ks)) (sym (action_absent (node op ks) other)) (
      absent_args ks (size (node op ks)) (omega arith) (λ o. n (inr o)),
      λ ls kids. ap (node op) (Kids-same kids),
    )
  ]

replace_all-contains : (e s t : Expr) → contains e s ≡ false → replace_all e s t ≡ some e
unfolding replace_all
replace_all-contains e s t h =
    let absent : ¬ Occurs s e =
      λ o. let found = (contains-Occurs e s).1 o in ground (arith, found, h) in
    let (r, done, same) =
      visit_rule (replace_all_action s t) (λ e'. ¬ Occurs s e') (λ e' r. r ≡ e') size
        (replace_all_action-Promise s t) (suc (size e)) e (omega arith) absent in
    done ∙ ap some same

-- contains is true exactly when the second term occurs in the first one; and where it is false,
-- replaceAll of the second term by any term ends with the first term itself.
pub contains_correct :
    (e s t : Expr)
    → ((contains e s ≡ true) ↔ Occurs s e) × (contains e s ≡ false → replace_all e s t ≡ some e)
contains_correct e s t = (contains-Occurs e s, replace_all-contains e s t)
