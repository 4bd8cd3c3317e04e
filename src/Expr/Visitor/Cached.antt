-- ===== src/Expr/Visitor/Cached.antt =====
-- The cached traversal gives what the plain one gives, for every cache that earlier calls left.
use seahorn.Prelude.{
  ℕ, zero, suc, ◌+◌, ◌≡◌, refl, ap, Bool, true, false, Option, some, arith, [], ◌∷◌, Option-cases,
  inl, inr, subst, Bool-cases,
}
use seahorn.Expr.Syntax.{Expr, Args, node, nil, cons, ◌≟◌, ≟→≡}
use seahorn.Expr.Visitor.{
  Action, Visitor, skip_kids, do_kids, change_to, change_do_kids_rewrite, ◌>>=◌, visit_kids,
  rebuild, act, visit, Cache, Cached, find, dag_kids, dag_rebuild, dag_act, remember, lookup_shared,
  dag_visit,
}

abbrev Below : (Expr → Option Expr) → (Expr → Option Expr) → Type 0
Below go go' = (x r : Expr) → go x ≡ some r → go' x ≡ some r

visit_kids_mono :
    (go go' : Expr → Option Expr)
    → Below go go'
    → (ks ls : Args) → visit_kids go ks ≡ some ls
    → visit_kids go' ks ≡ some ls
unfolding visit_kids
visit_kids_mono go go' b nil ls h = h
visit_kids_mono go go' b (cons x ks) ls h = elim (Option-cases (go x)) [
  | inl e ↦ cc (ap (λ o. o >>= λ y. visit_kids go ks >>= λ ys. some (cons y ys)) e)
  | inr (y, e) ↦ elim (Option-cases (visit_kids go ks)) [
    | inl f ↦ ground arith
    | inr (ys, f) ↦ ground (arith, b x y e, visit_kids_mono go go' b ks ys f)
  ]
]

rebuild_mono :
    (go go' : Expr → Option Expr)
    → Below go go'
    → (t r : Expr) → rebuild go t ≡ some r
    → rebuild go' t ≡ some r
unfolding rebuild
rebuild_mono go go' b (node op ks) r h = elim (Option-cases (visit_kids go ks)) [
  | inl f ↦ ground arith
  | inr (ys, f) ↦ ground (arith, visit_kids_mono go go' b ks ys f)
]

act_mono :
    (go go' : Expr → Option Expr)
    → Below go go'
    → (e : Expr) (a : Action) (r : Expr) → act go e a ≡ some r
    → act go' e a ≡ some r
unfolding act
act_mono go go' b e skip_kids r h = h
act_mono go go' b e (change_to t) r h = h
act_mono go go' b e do_kids r h = rebuild_mono go go' b e r h
act_mono go go' b e (change_do_kids_rewrite t f) r h = elim (Option-cases (rebuild go t)) [
  | inl g ↦ ground arith
  | inr (t', g) ↦ ground (arith, rebuild_mono go go' b t t' g)
]

module _ (v : Visitor) where
  visit-suc : (n : ℕ) → Below (visit n v) (visit (suc n) v)
  unfolding visit
  visit-suc zero e r h = cc
  visit-suc (suc n) e r h = act_mono (visit n v) (visit (suc n) v) (visit-suc n) e (v e) r h

  at_fuel : {n m : ℕ} (e r : Expr) → n ≡ m → visit n v e ≡ some r → visit m v e ≡ some r
  at_fuel e r p h = subst (λ k. visit k v e ≡ some r) p h

  visit_more : (k n : ℕ) → Below (visit n v) (visit (k + n) v)
  visit_more zero n e r h = at_fuel e r (omega arith) h
  visit_more (suc k) n e r h =
      at_fuel e r (omega arith) (visit-suc (k + n) e r (visit_more k n e r h))

  -- More fuel does not change a result.
  visit_deterministic :
      (n m : ℕ) (e r s : Expr) → visit n v e ≡ some r → visit m v e ≡ some s → r ≡ s
  visit_deterministic n m e r s h k =
      let more : visit (m + n) v e ≡ some r = visit_more m n e r h in
      let same : visit (m + n) v e ≡ some s = at_fuel e s (omega arith) (visit_more n m e s k) in cc

  -- Each entry of the cache is the result of some visit.
  abbrev pub Faithful : Cache → Type 0
  Faithful [] = Unit
  Faithful ((k, r) ∷ c) = ((n : ℕ) × (visit n v k ≡ some r)) × Faithful c

  find_lem :
      (k r : Expr) (c : Cache) → Faithful c → find k c ≡ some r → (n : ℕ) × (visit n v k ≡ some r)
  unfolding find
  find_lem k r [] f h = cc
  find_lem k r ((j, s) ∷ c) f h = elim (Bool-cases (k ≟ j)) [
    | inl same ↦ let r_is_s : s ≡ r = ground arith in (f.0.0, rw (≟→≡ k j same, ← r_is_s) f.0.1)
    | inr other ↦ find_lem k r c f.1 (rw other at h)
  ]

  -- `dgo` with any faithful cache gives what `go` gives, and leaves a faithful cache.
  abbrev Follows : (Expr → Option Expr) → (Expr → Cached Expr) → Type 0
  Follows go dgo =
      (x r : Expr) (c : Cache)
      → go x ≡ some r
      → Faithful c
      → (c' : Cache) × (dgo x c ≡ some (r, c')) × Faithful c'

  module _ (go : Expr → Option Expr) (dgo : Expr → Cached Expr) (follows : Follows go dgo) where
    dag_kids_lem :
        (ks ls : Args) (c : Cache)
        → visit_kids go ks ≡ some ls
        → Faithful c
        → (c' : Cache) × (dag_kids dgo ks c ≡ some (ls, c')) × Faithful c'
    unfolding visit_kids dag_kids
    dag_kids_lem nil ls c h f = (c, ground arith, f)
    dag_kids_lem (cons x ks) ls c h f = elim (Option-cases (go x)) [
      | inl e ↦ cc (ap (λ o. o >>= λ y. visit_kids go ks >>= λ ys. some (cons y ys)) e)
      | inr (y, e) ↦ elim (Option-cases (visit_kids go ks)) [
        | inl g ↦ ground arith
        | inr (ys, g) ↦
            let (c1, e1, f1) = follows x y c e f in
            let (c2, e2, f2) = dag_kids_lem ks ys c1 g f1 in (c2, ground arith, f2)
      ]
    ]

    dag_rebuild_lem :
        (t r : Expr) (c : Cache)
        → rebuild go t ≡ some r
        → Faithful c
        → (c' : Cache) × (dag_rebuild dgo t c ≡ some (r, c')) × Faithful c'
    unfolding rebuild dag_rebuild
    dag_rebuild_lem (node op ks) r c h f = elim (Option-cases (visit_kids go ks)) [
      | inl g ↦ ground arith
      | inr (ys, g) ↦ let (c1, e1, f1) = dag_kids_lem ks ys c g f in (c1, ground arith, f1)
    ]

    dag_act_lem :
        (e : Expr) (a : Action) (r : Expr) (c : Cache)
        → act go e a ≡ some r
        → Faithful c
        → (c' : Cache) × (dag_act dgo e a c ≡ some (r, c')) × Faithful c'
    unfolding act dag_act
    dag_act_lem e skip_kids r c h f = (c, ground arith, f)
    dag_act_lem e (change_to t) r c h f = (c, ground arith, f)
    dag_act_lem e do_kids r c h f = dag_rebuild_lem e r c h f
    dag_act_lem e (change_do_kids_rewrite t w) r c h f = elim (Option-cases (rebuild go t)) [
      | inl g ↦ ground arith
      | inr (t', g) ↦ let (c1, e1, f1) = dag_rebuild_lem t t' c g f in (c1, ground arith, f1)
    ]

  remember-Faithful :
      (b : Bool) (n : ℕ) (e r : Expr) (c : Cache)
      → visit n v e ≡ some r
      → Faithful c
      → (c' : Cache) × (remember b e (r, c) ≡ (r, c')) × Faithful c'
  unfolding remember
  remember-Faithful true n e r c h f = ((e, r) ∷ c, refl, ((n, h), f))
  remember-Faithful false n e r c h f = (c, refl, f)

  lookup_shared_lem :
      (b : Bool) (k r : Expr) (c : Cache)
      → Faithful c
      → lookup_shared b k c ≡ some r
      → (n : ℕ) × (visit n v k ≡ some r)
  unfolding lookup_shared
  lookup_shared_lem true k r c f h = find_lem k r c f h
  lookup_shared_lem false k r c f h = cc

  dag_visit-Follows : (shared : Expr → Bool) (n : ℕ) → Follows (visit n v) (dag_visit shared n v)
  unfolding visit dag_visit
  dag_visit-Follows shared zero e r c h f = cc
  dag_visit-Follows shared (suc n) e r c h f = elim (Option-cases (lookup_shared (shared e) e c)) [
    | inl miss ↦
        let (c1, e1, f1) =
          dag_act_lem (visit n v) (dag_visit shared n v) (dag_visit-Follows shared n) e (v e) r c h
            f in
        let (c2, e2, f2) = remember-Faithful (shared e) (suc n) e r c1 h f1 in
        (c2, ground arith, f2)
    | inr (s, hit) ↦
        let (m, known) = lookup_shared_lem (shared e) e s c f hit in
        let same : s ≡ r = visit_deterministic m (suc n) e s r known h in (c, ground arith, f)
  ]

-- Whenever the plain traversal has a result, the traversal with the cache has the same one, whichever
-- nodes count as shared, and from any cache whose entries are results of the same visitor; it leaves
-- such a cache.
pub dag_visit-visit :
    (v : Visitor) (shared : Expr → Bool) (n : ℕ) (e r : Expr) (c : Cache)
    → visit n v e ≡ some r
    → Faithful v c
    → (c' : Cache) × (dag_visit shared n v e c ≡ some (r, c')) × Faithful v c'
dag_visit-visit v shared n e r c h f = dag_visit-Follows v shared n e r c h f
