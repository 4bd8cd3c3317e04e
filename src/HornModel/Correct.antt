-- ===== src/HornModel/Correct.antt =====
-- A definition that addDef stores, as getDef gives it back.
use seahorn.Prelude.{
  ℕ, ◌≡◌, refl, inl, inr, Bool, false, ◌||◌, Option, none, some, ◌∷◌, if◌then◌else◌, Bool-cases, ap,
  ap₂, ◌∙◌,
}
use seahorn.Expr.Syntax.{Op, Expr, Args, node, nil, cons, other, arity, is_true, is_false, tru}
use seahorn.Expr.Visitor.{Cache}
use seahorn.Expr.Replace.{replace}
use seahorn.Expr.Replace.Correct.{substitute, substitute_args, substitute_missing, replace_correct}
use seahorn.HornModel.{
  domain, args_to_bvars, bvars_to_args, renamed, Defs, def_of_lemma, add_def, get_def,
}
use seahorn.HornModel.Rename.{substitute-substitute, substitute_self}
use seahorn.HornModel.Lookup.{
  IsOpen, AllOpen, pairs, to_bvars, from_bvars, args_to_bvars_total, bvars_to_args_total,
  find_other, find_same, find-from_bvars_open,
}

-- A relation applied to arguments.
abbrev pub fapp : Expr → Args → Expr
fapp d xs = node (other 1) (cons d xs)

abbrev is_const : Expr → Bool
is_const e = is_true e || is_false e

mutual
  unfolding IsOpen substitute

  substitute_open :
      (i : ℕ) (tys ys : Args) (e : Expr) → IsOpen e → substitute (from_bvars i tys ys) e ≡ e
  substitute_open i tys ys (node op ks) h =
      substitute_missing (from_bvars i tys ys) op ks (find-from_bvars_open op ks i tys ys h.0)
      ∙ ap (node op) (substitute_args_open i tys ys ks h.1)

  substitute_args_open :
      (i : ℕ) (tys ys : Args) (ks : Args)
      → AllOpen ks
      → substitute_args (from_bvars i tys ys) ks ≡ ks
  substitute_args_open i tys ys nil h = refl
  substitute_args_open i tys ys (cons x ks) h =
      ap₂ cons (substitute_open i tys ys x h.0) (substitute_args_open i tys ys ks h.1)

renamed_total :
    (map_of : ℕ → Args → Args → Option Cache) (d e : Expr) (tys xs : Args) (m : Cache)
    → domain d ≡ some tys
    → map_of 0 tys xs ≡ some m
    → renamed map_of d (fapp d xs) e ≡ some (substitute m e)
unfolding renamed
renamed_total map_of d e tys xs m h k =
    ap
      (λ o. elim o [
        | none ↦ none
        | some ts ↦ elim (map_of 0 ts xs) [ none ↦ none | some n ↦ replace e n ]
      ])
      h
    ∙ ap (λ o. elim o [ none ↦ none | some n ↦ replace e n ]) k
    ∙ (replace_correct e m (λ _. false)).0

module _ (d lemma : Expr) (tys xs : Args) (m : Defs) (is_domain : domain d ≡ some tys)
    (as_many : arity xs ≡ arity tys) where
  abbrev stored : Expr
  stored = if is_const lemma then lemma else substitute (to_bvars 0 tys xs) lemma

  def_of_lemma_total : def_of_lemma d (fapp d xs) lemma ≡ some stored
  unfolding def_of_lemma
  def_of_lemma_total = elim (Bool-cases (is_const lemma)) [
    | inl const ↦ rw const refl
    | inr formula ↦ rw formula (
        renamed_total args_to_bvars d lemma tys xs (to_bvars 0 tys xs) is_domain
          (args_to_bvars_total 0 tys xs as_many))
  ]

  add_def_total : add_def (fapp d xs) lemma m ≡ some ((d, stored) ∷ m)
  unfolding add_def
  add_def_total = ap (λ o. elim o [ none ↦ none | some l ↦ some ((d, l) ∷ m) ]) def_of_lemma_total

  get_def-stored :
      (ys : Args)
      → arity ys ≡ arity tys
      → get_def (fapp d ys) ((d, stored) ∷ m) ≡ some (substitute (from_bvars 0 tys ys) stored)
  unfolding get_def
  get_def-stored ys h =
      ap (λ o. elim o [ none ↦ some tru | some l ↦ renamed bvars_to_args d (fapp d ys) l ])
        (find_same d stored m)
      ∙ renamed_total bvars_to_args d stored tys ys (from_bvars 0 tys ys) is_domain
          (bvars_to_args_total 0 tys ys h)

  instance_of :
      (ys : Args)
      → arity ys ≡ arity tys
      → IsOpen lemma
      → substitute (from_bvars 0 tys ys) stored
        ≡ (if is_const lemma then lemma else substitute (pairs tys xs ys) lemma)
  instance_of ys h clear = elim (Bool-cases (is_const lemma)) [
    | inl const ↦ rw const (substitute_open 0 tys ys lemma clear)
    | inr formula ↦ rw formula (substitute-substitute tys xs ys as_many h lemma clear)
  ]

  same_instance : (if is_const lemma then lemma else substitute (pairs tys xs xs) lemma) ≡ lemma
  same_instance = elim (Bool-cases (is_const lemma)) [
    | inl const ↦ rw const refl
    | inr formula ↦ rw formula (substitute_self tys xs lemma)
  ]

get_def_other :
    (k d l : Expr) (ks : Args) (op : Op) (m : Defs)
    → ¬ (k ≡ d)
    → get_def (node op (cons k ks)) ((d, l) ∷ m) ≡ get_def (node op (cons k ks)) m
unfolding get_def
get_def_other k d l ks op m n =
    ap (λ o. elim o [ none ↦ some tru | some e ↦ renamed bvars_to_args k (node op (cons k ks)) e ])
      (find_other k d l m n)

-- addDef succeeds and getDef gives the lemma back for the same application; for other arguments it
-- gives the lemma with these in place of the first ones, or a constant lemma itself. The definitions of
-- other relations are as before. The applications have as many arguments as the relation's domain, and
-- no bound variable occurs in the lemma.
pub get_def-add_def :
    (d lemma : Expr) (tys xs : Args) (m : Defs)
    → domain d ≡ some tys
    → arity xs ≡ arity tys
    → IsOpen lemma
    → (m' : Defs) × (add_def (fapp d xs) lemma m ≡ some m')
      × (get_def (fapp d xs) m' ≡ some lemma)
      × ((ys : Args)
          → arity ys ≡ arity tys
          → get_def (fapp d ys) m'
            ≡ some (
                if is_true lemma || is_false lemma
                then lemma
                else substitute (pairs tys xs ys) lemma))
      × ((k : Expr) (ks : Args) → ¬ (k ≡ d) → get_def (fapp k ks) m' ≡ get_def (fapp k ks) m)
get_def-add_def d lemma tys xs m is_domain as_many clear =
    let s = stored d lemma tys xs m is_domain as_many in
    let instance_at : (ys : Args)
        → arity ys ≡ arity tys
        → get_def (fapp d ys) ((d, s) ∷ m)
          ≡ some (if is_const lemma then lemma else substitute (pairs tys xs ys) lemma) =
      λ ys h.
        get_def-stored d lemma tys xs m is_domain as_many ys h
        ∙ ap some (instance_of d lemma tys xs m is_domain as_many ys h clear) in
    (
      (d, s) ∷ m,
      add_def_total d lemma tys xs m is_domain as_many,
      instance_at xs as_many ∙ ap some (same_instance d lemma tys xs m is_domain as_many),
      instance_at,
      λ k ks n. get_def_other k d s ks (other 1) m n,
    )
