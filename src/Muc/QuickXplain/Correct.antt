-- ===== src/Muc/QuickXplain/Correct.antt =====
-- QuickXplain ends with a core, which is minimal if the solver always answers.
use seahorn.Prelude.{
  ℕ, zero, suc, ◌+◌, ◌-◌, ◌/◌, ◌≤◌, ◌<◌, ◌≡◌, ◌≢◌, refl, sym, ap, subst, inl, inr, Bool, true,
  false, not, ◌&&◌, Option, some, List, [], ◌∷◌, ◌++◌, length, ltb, ◌==◌, arith, Bool-cases,
  length-append, ltb→lt, lt→ltb,
}
use mathlib.Core.Option
use mathlib.Core.Bool.{false≢true}
use mathlib.Core.List.{append-nil, append_assoc}
use seahorn.Muc.{SolverResult, unsat, is_unsat, Solver, reset, push, pop, add_all, assertions}
use seahorn.Muc.Sets.{
  Subset, Subset-append, Subset-refl, subset_laws, Theory, IsSound, IsComplete, Critical,
  Critical-append, Critical-remove,
}
use seahorn.Muc.QuickXplain.Slices.{
  slice-append, slice_one, slice_all, drop-append, Subseq, Subseq-nil, Subseq-append, Subseq-refl,
  Subseq-Subset,
}
use seahorn.Muc.QuickXplain.{slice, Qx, halves, take_one, qx, run}

module _ {A : Type 0} (t : Theory A) (check : List A → SolverResult) (sound : IsSound t check) where
  open t use {Unsat, unsat_mono}

  -- What a call over the formulas `range`, from the assertions `base`, has to deliver.
  record IsCore (base range core : List A) (skipped : Bool) : Type 0 where
    part : Subseq core range
    refutes : Unsat (base ++ range) → Unsat (base ++ core)
    critical : IsComplete check → (skipped ≡ true → ¬ Unsat base) → Critical t base core

  Answers : List A → ℕ → ℕ → Bool → Solver A → List A → Option (Solver A × List A) → Type 0
  Answers target b e skipped s out r =
      (core : List A) × (r ≡ some (s, out ++ core))
      × IsCore (assertions s) (slice target b e) core skipped

  empty_of_length : (xs ys : List A) → ltb (length (xs ++ ys) - length xs) 1 ≡ true → ys ≡ []
  empty_of_length xs [] h = refl
  empty_of_length xs (y ∷ ys) h = absurd (omega (arith, length-append xs (y ∷ ys), ltb→lt _ _ h))

  module _ (target : List A) (go : Qx check) (b mid e : ℕ) (s : Solver A) (out : List A) where
    abbrev second : List A
    second = slice target mid e

    -- The core of the two halves, the first computed beside the second half.
    halves-IsCore :
        (skipped : Bool) (c1 c2 : List A)
        → b < mid
        → mid < e
        → IsCore (assertions s ++ second) (slice target b mid) c1 (ltb (e - mid) 1)
        → IsCore (assertions s ++ c1) second c2 (ltb (length (out ++ c1) - length out) 1)
        → (IsComplete check → (skipped ≡ true → ¬ Unsat (assertions s)) → ¬ Unsat (assertions s))
        → IsCore (assertions s) (slice target b e) (c1 ++ c2) skipped
    halves-IsCore skipped c1 c2 p q k1 k2 open_base = record {
      part = subst (Subseq (c1 ++ c2)) whole (Subseq-append k1.part k2.part);
      refutes = λ u. subst Unsat (append_assoc base c1 c2) (
          k2.refutes (
            unsat_mono ((base ++ second) ++ c1) ((base ++ c1) ++ second) turn_c (
              k1.refutes (
                unsat_mono (base ++ (first ++ second)) ((base ++ second) ++ first) turn_f
                  (subst (λ r. Unsat (base ++ r)) (sym whole) u)))));
      critical = λ complete pre.
          Critical-append t base c1 c2 second (Subseq-Subset k2.part)
            (k1.critical complete (λ h. absurd (omega (arith, ltb→lt _ _ h))))
            (k2.critical complete (λ h w. open_base complete pre (
              unsat_mono (base ++ c1) base
                (rw (empty_of_length out c1 h)
                  (Subset-append base [] base (Subset-refl base) (λ a z. absurd z)))
                w)));
    }
      where
        base : List A
        base = assertions s

        first : List A
        first = slice target b mid

        turn_f : Subset (base ++ (first ++ second)) ((base ++ second) ++ first)
        turn_f = search subset_laws depth 8

        turn_c : Subset ((base ++ second) ++ c1) ((base ++ c1) ++ second)
        turn_c = search subset_laws depth 8

        whole : slice target b mid ++ second ≡ slice target b e
        whole = slice-append target b mid e (omega arith) (omega arith)

    -- Both calls answer, so the range does.
    halves_lem :
        (skipped : Bool)
        → b < mid
        → mid < e
        → (IsComplete check → (skipped ≡ true → ¬ Unsat (assertions s)) → ¬ Unsat (assertions s))
        → ((k : Bool) (s' : Solver A) (o : List A) → Answers target b mid k s' o (go b mid k s' o))
        → ((k : Bool) (s' : Solver A) (o : List A) → Answers target mid e k s' o (go mid e k s' o))
        → Answers target b e skipped s out (halves check go target b mid e s out)
    unfolding halves Answers push pop add_all
    halves_lem skipped p q open_base left right =
        let (c1, e1, k1) = left (ltb (e - mid) 1) (add_all (push s) second) out in
        let (c2, e2, k2) =
          right (ltb (length (out ++ c1) - length out) 1) (add_all (push s) c1) (out ++ c1) in
        (
          c1 ++ c2,
          simp (halves, e1, drop-append out c1, e2, append_assoc),
          halves-IsCore skipped c1 c2 p q k1 k2 open_base,
        )

  -- After the check at the start of a call, the base is satisfiable if the solver always answers.
  open_after :
      (k : Bool) (base : List A)
      → (not k && is_unsat (check base)) ≡ false
      → IsComplete check
      → (k ≡ true → ¬ Unsat base)
      → ¬ Unsat base
  open_after true base h complete pre = pre refl
  open_after false base h complete pre = elim (complete base) [
    | inl s ↦ sound.sat_sound base s
    | inr u ↦ cc (ap is_unsat u)
  ]

  closed_after :
      (k : Bool) (base : List A) → (not k && is_unsat (check base)) ≡ true → check base ≡ unsat
  closed_after k base h = ground arith

  middle :
      (n b e : ℕ)
      → b < e
      → ((e - b) == 1) ≡ false
      → e - b ≤ suc n
      → (b < (b + e) / 2) × ((b + e) / 2 < e) × ((b + e) / 2 - b ≤ n) × (e - (b + e) / 2 ≤ n)
  middle n b e p q f = let apart : e - b ≢ 1 = ground arith in omega arith

  one-Answers :
      (target : List A) (b e : ℕ)
      → b < e
      → e ≤ length target
      → ((e - b) == 1) ≡ true
      → (k : Bool) (s : Solver A) (out : List A)
      → (IsComplete check → (k ≡ true → ¬ Unsat (assertions s)) → ¬ Unsat (assertions s))
      → Answers target b e k s out (take_one check target b s out)
  unfolding Answers take_one
  one-Answers target b e p q one k s out open_base =
      let (x, at, single) = slice_one target b (omega arith) in
      let next : e ≡ suc b = ground arith in
      (
        x ∷ [],
        rw (at, Option.map),
        rw (next, single)
            (record {
              part = Subseq-refl (x ∷ []);
              refutes = λ u. u;
              critical = λ complete pre. (
                λ u. open_base complete pre (
                    unsat_mono (assertions s ++ []) (assertions s)
                      (Subset-append (assertions s) [] (assertions s) (Subset-refl (assertions s))
                        (λ a z. absurd z))
                      u),
                tt,
              );
            }),
      )

  qx-Answers :
      (target : List A) (n b e : ℕ)
      → b < e
      → e ≤ length target
      → e - b ≤ n
      → (k : Bool) (s : Solver A) (out : List A)
      → Answers target b e k s out (qx check n target b e k s out)
  unfolding qx Answers take_one
  qx-Answers target zero b e p q f k s out = absurd (omega arith)
  qx-Answers target (suc n) b e p q f k s out =
      elim (Bool-cases (not k && is_unsat (check (assertions s)))) [
        | inl u ↦ rw u (
          [],
          rw append-nil refl,
          record {
            part = Subseq-nil (slice target b e);
            refutes = λ _.
                unsat_mono (assertions s) (assertions s ++ []) (search subset_laws)
                  (sound.unsat_sound (assertions s) (closed_after k (assertions s) u));
            critical = λ _ _. tt;
          },
        )
        | inr u ↦ rw u (elim (Bool-cases ((e - b) == 1)) [
          | inl one ↦
              rw one (one-Answers target b e p q one k s out (open_after k (assertions s) u))
          | inr more ↦
              let (l, r, fl, fr) = middle n b e p more f in
              rw (more, lt→ltb b e p)
                (halves_lem target (qx check n target) b ((b + e) / 2) e s out k l r
                  (open_after k (assertions s) u)
                  (qx-Answers target n b ((b + e) / 2) l (omega arith) fl)
                  (qx-Answers target n ((b + e) / 2) e r q fr))
        ])
      ]

-- QuickXplain on a formula set that is not empty returns, with the solver as `reset` left it, and
-- appends to `out` a core: a subsequence of the formulas that is unsatisfiable if all of them
-- together are, timeouts or not. If the solver always answers, no formula of the core can be left
-- out. The solver's answers are right where it gives one.
pub quick_xplain_correct :
    {A : Type 0} (t : Theory A) (check : List A → SolverResult) (formula out : List A)
    → IsSound t check
    → formula ≢ []
    → (core : List A) × (run check formula out ≡ some (reset, out ++ core))
      × (Subseq core formula
          × (t.Unsat formula → t.Unsat core)
          × (IsComplete check
              → (xs ys : List A) (y : A) → core ≡ xs ++ y ∷ ys
              → ¬ t.Unsat (xs ++ ys)))
unfolding run reset Answers
quick_xplain_correct t check [] out sound nonempty = absurd (nonempty refl)
quick_xplain_correct t check (f ∷ fs) out sound nonempty =
    let formula = f ∷ fs in
    let n = length formula in
    let (core, returns, k) =
      qx-Answers t check sound formula (suc n) 0 n (omega arith) (omega arith) (omega arith) false
        reset out in
    (
      core,
      returns,
      (
        subst (Subseq core) (slice_all formula) k.part,
        λ u. k.refutes (subst t.Unsat (sym (slice_all formula)) u),
        λ complete xs ys y e.
            Critical-remove t [] xs ys y
              (subst (Critical t []) e (k.critical complete (λ h. absurd (false≢true h)))),
      ),
    )
