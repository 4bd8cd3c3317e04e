-- ===== src/Expr/Filter/Correct.antt =====
-- filter lists the outermost subterms that satisfy the test.
use seahorn.Prelude.{
  ℕ, ◌≤◌, ◌≡◌, refl, sym, ap, ◌↔◌, ◌⊎◌, inl, inr, Bool, true, false, List, [], ◌∷◌, ◌++◌, arith,
  subst, Bool-cases,
}
use seahorn.Expr.Syntax.{Op, Expr, Args, node, nil, cons, size, size_args, ◌≟◌, ≟→≡}
use seahorn.Expr.Replace.{member}
use seahorn.Expr.Filter.{Collected, collect_from, collect_args, filter}
use seahorn.Prelude.{In, Subset, In-append, In-append_left, In-append_right}

pub member-In : (x : Expr) (xs : List Expr) → member x xs ≡ true → In x xs
unfolding member
member-In x [] h = ground arith
member-In x (y ∷ xs) h = elim (Bool-cases (x ≟ y)) [
  | inl same ↦ inl (≟→≡ x y same)
  | inr other ↦ inr (member-In x xs (ground (arith, other, h)))
]

module _ (f : Expr → Bool) where
  -- `Hit x e`: x is in e, satisfies the test, and lies in no other such subterm of e.
  abbrev mutual
    pub Hit : Expr → Expr → Type 0
    Hit x (node op ks) =
        ((f (node op ks) ≡ true) × (x ≡ node op ks)) ⊎ ((f (node op ks) ≡ false) × HitIn x ks)

    pub HitIn : Expr → Args → Type 0
    HitIn x nil = ⊥
    HitIn x (cons e ks) = Hit x e ⊎ HitIn x ks

  abbrev Complete : Expr → List Expr → Type 0
  Complete e out = (x : Expr) → Hit x e → In x out

  -- From `st` to `st'`: nothing is lost; what is new in `out` is among `New`; and what is seen
  -- was seen before or is complete now.
  record Step (st st' : Collected) (New : Expr → Type 0) : Type 0 where
    kept : Subset st.out st'.out
    sound : (x : Expr) → In x st'.out → In x st.out ⊎ New x
    done : (y : Expr) → In y st'.seen → In y st.seen ⊎ Complete y st'.out
    complete : (x : Expr) → New x → In x st'.out

  -- The terms seen that are small are complete; the larger ones may still be in progress.
  abbrev Ready : ℕ → Collected → Type 0
  Ready n st = (y : Expr) → In y st.seen → size y ≤ n → Complete y st.out

  Ready-Step :
      (n : ℕ) (st st' : Collected) (New : Expr → Type 0)
      → Ready n st
      → Step st st' New
      → Ready n st'
  Ready-Step n st st' New r s y i le x h = elim (s.done y i) [
    | inl before ↦ s.kept x (r y before le x h)
    | inr now ↦ now x h
  ]

  module _ (op : Op) (ks : Args) (st : Collected) where
    abbrev entered : Collected
    entered = record st { seen = node op ks ∷ st.seen }

    from_seen : member (node op ks) st.seen ≡ true → collect_from f (node op ks) st ≡ st
    unfolding collect_from
    from_seen h = rw (collect_from, h) refl

    from_hit :
        member (node op ks) st.seen ≡ false
        → f (node op ks) ≡ true
        → collect_from f (node op ks) st
          ≡ record { seen = node op ks ∷ st.seen; out = st.out ++ node op ks ∷ [] }
    unfolding collect_from
    from_hit h k = rw (collect_from, h, k) refl

    from_kids :
        member (node op ks) st.seen ≡ false
        → f (node op ks) ≡ false
        → collect_from f (node op ks) st ≡ collect_args f ks entered
    unfolding collect_from
    from_kids h k = rw (collect_from, h, k) refl

  abbrev Visited : Expr → Collected → Collected → Type 0
  Visited e st st' = Step st st' (λ x. Hit x e)

  Visited-seen : (e : Expr) (st : Collected) → Ready (size e) st → In e st.seen → Visited e st st
  Visited-seen e st r i = record {
    kept = λ a h. h;
    sound = λ x h. inl h;
    done = λ y h. inl h;
    complete = λ x h. r e i (omega arith) x h;
  }

  Visited-hit :
      (op : Op) (ks : Args) (st : Collected)
      → f (node op ks) ≡ true
      → Visited
          (node op ks)
          st
          (record { seen = node op ks ∷ st.seen; out = st.out ++ node op ks ∷ [] })
  Visited-hit op ks st h =
      let e = node op ks in
      let listed : (x : Expr) → Hit x e → In x (st.out ++ e ∷ []) = λ x q. elim q [
        | inl (_, same) ↦ In-append_right x st.out (e ∷ []) (inl same)
        | inr (no_hit, _) ↦ cc
      ] in
      record {
        kept = λ a q. In-append_left a st.out (e ∷ []) q;
        sound = λ x q. elim (In-append x st.out (e ∷ []) q) [
          | inl old ↦ inl old
          | inr (inl same) ↦ inr (inl (h, same))
          | inr (inr n) ↦ absurd n
        ];
        done = λ y q. elim q [
          | inl same ↦ inr (subst (λ z. Complete z (st.out ++ e ∷ [])) (sym same) listed)
          | inr old ↦ inl old
        ];
        complete = listed;
      }

  Visited-kids :
      (op : Op) (ks : Args) (st st' : Collected)
      → f (node op ks) ≡ false
      → Step (entered op ks st) st' (λ x. HitIn x ks)
      → Visited (node op ks) st st'
  Visited-kids op ks st st' h s =
      let e = node op ks in
      let listed : (x : Expr) → Hit x e → In x st'.out =
        λ x q. elim q [ inl (hit, _) ↦ cc | inr (_, below) ↦ s.complete x below ] in
      record {
        kept = s.kept;
        sound = λ x q. elim (s.sound x q) [ inl old ↦ inl old | inr below ↦ inr (inr (h, below)) ];
        done = λ y q. elim (s.done y q) [
          | inl (inl same) ↦ inr (subst (λ z. Complete z st'.out) (sym same) listed)
          | inl (inr old) ↦ inl old
          | inr now ↦ inr now
        ];
        complete = listed;
      }

  Ready-entered :
      (op : Op) (ks : Args) (st : Collected)
      → Ready (size (node op ks)) st
      → Ready (size_args ks) (entered op ks st)
  Ready-entered op ks st r y i le = elim i [
    | inl same ↦ let sizes = ap size same in absurd (omega (arith, sizes, le))
    | inr old ↦ r y old (omega arith)
  ]

  Step_trans :
      (st s1 s2 : Collected) (N M : Expr → Type 0)
      → Step st s1 N
      → Step s1 s2 M
      → Step st s2 (λ x. N x ⊎ M x)
  Step_trans st s1 s2 N M a b = record {
    kept = λ x h. b.kept x (a.kept x h);
    sound = λ x h. elim (b.sound x h) [
      | inl early ↦ elim (a.sound x early) [ inl old ↦ inl old | inr new ↦ inr (inl new) ]
      | inr new ↦ inr (inr new)
    ];
    done = λ y h. elim (b.done y h) [
      | inl early ↦ elim (a.done y early) [
        | inl old ↦ inl old
        | inr now ↦ inr (λ x q. b.kept x (now x q))
      ]
      | inr now ↦ inr now
    ];
    complete = λ x h. elim h [ inl n ↦ b.kept x (a.complete x n) | inr m ↦ b.complete x m ];
  }

  mutual
    unfolding collect_from

    collect_from-Visited :
        (e : Expr) (st : Collected) → Ready (size e) st → Visited e st (collect_from f e st)
    collect_from-Visited (node op ks) st r = elim (Bool-cases (member (node op ks) st.seen)) [
      | inl was ↦
          subst (Visited (node op ks) st) (sym (from_seen op ks st was))
            (Visited-seen (node op ks) st r (member-In (node op ks) st.seen was))
      | inr fresh ↦ elim (Bool-cases (f (node op ks))) [
        | inl hit ↦
            subst (Visited (node op ks) st) (sym (from_hit op ks st fresh hit))
              (Visited-hit op ks st hit)
        | inr miss ↦ subst (Visited (node op ks) st) (sym (from_kids op ks st fresh miss)) (
            Visited-kids op ks st _ miss
              (collect_args-Visited ks (entered op ks st) (Ready-entered op ks st r)))
      ]
    ]

    collect_args-Visited :
        (ks : Args) (st : Collected)
        → Ready (size_args ks) st
        → Step st (collect_args f ks st) (λ x. HitIn x ks)
    collect_args-Visited nil st r = record {
      kept = λ a h. h;
      sound = λ x h. inl h;
      done = λ y h. inl h;
      complete = λ x h. absurd h;
    }
    collect_args-Visited (cons e ks) st r =
        let s1 = collect_from f e st in
        let first = collect_from-Visited e st (λ y i le. r y i (omega arith)) in
        let rest =
          collect_args-Visited ks s1 (
            Ready-Step (size_args ks) st s1 (λ x. Hit x e) (λ y i le. r y i (omega arith)) first) in
        Step_trans st s1 (collect_args f ks s1) (λ x. Hit x e) (λ x. HitIn x ks) first rest

-- filter lists a term exactly when it is a subterm that satisfies the test and lies, at some place, in
-- no larger subterm that does.
pub filter-Hit : (f : Expr → Bool) (e x : Expr) → In x (filter f e) ↔ Hit f x e
unfolding filter
filter-Hit f e x =
    let s = collect_from-Visited f e (record { seen = []; out = [] }) (λ y i. absurd i) in
    (λ h. elim (s.sound x h) [ inl n ↦ absurd n | inr new ↦ new ], λ h. s.complete x h)
