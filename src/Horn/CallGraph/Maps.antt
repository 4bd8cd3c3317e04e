-- ===== src/Horn/CallGraph/Maps.antt =====
-- Insertion into the maps of the call graph, of lib/seahorn/HornClauseDB.cc.
use seahorn.Prelude.{
  ◌≡◌, refl, sym, ◌∙◌, inl, inr, true, false, List, [], ◌∷◌, In, arith, subst, Bool-cases,
}
use seahorn.Expr.Syntax.{Expr, ◌≟◌, ≟→≡, →≟}
use seahorn.Horn.CallGraph.{CallMap, calls_at, has_calls, put_calls, call_map}

put_calls_kept :
    (k p : Expr) (s : List Expr) (m : CallMap)
    → has_calls k m ≡ true
    → (calls_at k (put_calls p s m) ≡ calls_at k m) × (has_calls k (put_calls p s m) ≡ true)
unfolding put_calls calls_at has_calls
put_calls_kept k p s m h = elim (Bool-cases (has_calls p m)) [
  | inl old ↦ rw old (refl, h)
  | inr new ↦ elim (Bool-cases (k ≟ p)) [
    | inl same ↦
        let t = subst (λ t. has_calls t m ≡ true) (≟→≡ k p same) h in ground (arith, t, new)
    | inr other ↦ rw (new, other) (refl, h)
  ]
]

pub call_map_kept :
    (f : Expr → List Expr) (k : Expr) (ps : List Expr) (m : CallMap)
    → has_calls k m ≡ true
    → calls_at k (call_map f ps m) ≡ calls_at k m
unfolding call_map
call_map_kept f k [] m h = refl
call_map_kept f k (p ∷ ps) m h =
    let (same, has) = put_calls_kept k p (f p) m h in
    call_map_kept f k ps (put_calls p (f p) m) has ∙ same

put_calls_new :
    (p : Expr) (s : List Expr) (m : CallMap)
    → has_calls p m ≡ false
    → (calls_at p (put_calls p s m) ≡ s) × (has_calls p (put_calls p s m) ≡ true)
unfolding put_calls calls_at has_calls
put_calls_new p s m h = let t = →≟ p p refl in rw (h, t) (refl, refl)

put_calls_other :
    (k p : Expr) (s : List Expr) (m : CallMap)
    → (k ≟ p) ≡ false
    → has_calls k m ≡ false
    → has_calls k (put_calls p s m) ≡ false
unfolding put_calls has_calls
put_calls_other k p s m n h = elim (Bool-cases (has_calls p m)) [
  | inl old ↦ rw old h
  | inr new ↦ rw (new, n) h
]

pub calls_at-call_map :
    (f : Expr → List Expr) (p : Expr) (ps : List Expr) (m : CallMap)
    → In p ps
    → has_calls p m ≡ false
    → calls_at p (call_map f ps m) ≡ f p
unfolding call_map
calls_at-call_map f p [] m i h = absurd i
calls_at-call_map f p (k ∷ ps) m i h = elim (Bool-cases (p ≟ k)) [
  | inl same ↦
      let e : p ≡ k = ≟→≡ p k same in
      let (here, has) = put_calls_new k (f k) m (subst (λ t. has_calls t m ≡ false) e h) in
      subst (λ t. calls_at t (call_map f ps (put_calls k (f k) m)) ≡ f t) (sym e)
        (call_map_kept f k ps (put_calls k (f k) m) has ∙ here)
  | inr other ↦
      calls_at-call_map f p ps (put_calls k (f k) m)
        (elim i [ inl e ↦ let t = →≟ p k e in cc | inr q ↦ q ])
        (put_calls_other p k (f k) m other h)
]
