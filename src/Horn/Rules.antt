-- ===== src/Horn/Rules.antt =====
-- Rules and the list of rules.
use seahorn.Prelude.{
  ℕ, zero, suc, ◌+◌, ◌≤◌, ◌<◌, ◌≡◌, refl, sym, ap, ◌∙◌, ◌⊎◌, inl, inr, Bool, true, false, none,
  some, List, [], ◌∷◌, ◌++◌, length, drop, ◌==◌, if◌then◌else◌, arith,
}
use mathlib.Core.List.{append-nil}
use seahorn.Expr.Syntax.{Expr, node, other, tru, is_true, mk_impl}
use seahorn.Horn.{
  HornRule, HornClauseDb, is_fapp, rule_of, get, without, remove_rule, reset_indexes,
}

fapp_rule :
    (v : List Expr) (h : Expr)
    → is_fapp h ≡ true
    → rule_of v h ≡ some (record { vars = v; head = h; body = tru })
unfolding rule_of
fapp_rule v (node (other (suc zero)) ks) e = refl
fapp_rule v h e = ground arith

get_head : (r : HornRule) → is_true r.body ≡ true → get r ≡ r.head
unfolding get
get_head r h = rw (get, h) refl

get_body : (r : HornRule) → is_true r.body ≡ false → get r ≡ mk_impl r.body r.head
unfolding get
get_body r h = rw (get, h) refl

rule_of_impl :
    (v : List Expr) (b h : Expr)
    → rule_of v (mk_impl b h) ≡ some (record { vars = v; head = h; body = b })
unfolding rule_of
rule_of_impl v b h = refl

-- The rule that is built from the formula of a rule is that rule: its head is an application, and its
-- body is the constant true or no node of that operator.
pub rule_of-get :
    (r : HornRule)
    → is_fapp r.head ≡ true
    → (r.body ≡ tru) ⊎ (is_true r.body ≡ false)
    → rule_of r.vars (get r) ≡ some r
rule_of-get r h (inl e) =
    ap (rule_of r.vars) (get_head r (ap is_true e))
    ∙ fapp_rule r.vars r.head h
    ∙ ap (λ b. some (record { vars = r.vars; head = r.head; body = b })) (sym e)
rule_of-get r h (inr n) = ap (rule_of r.vars) (get_body r n) ∙ rule_of_impl r.vars r.body r.head

-- How many rules compare equal.
abbrev pub count : (HornRule → Bool) → List HornRule → ℕ
count same [] = 0
count same (r ∷ rs) = if same r then suc (count same rs) else count same rs

length-without :
    (same : HornRule → Bool) (rs : List HornRule)
    → length (without same rs) + count same rs ≡ length rs
unfolding without
length-without same [] = refl
length-without same (r ∷ rs) = ground (arith, length-without same rs)

drop_all : {A : Type 0} (n : ℕ) (xs : List A) → length xs ≤ n → drop n xs ≡ []
drop_all zero [] h = refl
drop_all zero (x ∷ xs) h = absurd (omega arith)
drop_all (suc n) [] h = refl
drop_all (suc n) (x ∷ xs) h = drop_all n xs (omega arith)

length-drop :
    {A : Type 0} (n : ℕ) (xs : List A) → n ≤ length xs → length (drop n xs) + n ≡ length xs
length-drop zero xs h = omega arith
length-drop (suc n) [] h = absurd (omega arith)
length-drop (suc n) (x ∷ xs) h = let rest = length-drop n xs (omega arith) in omega (arith, rest)

length-append : {A : Type 0} (xs ys : List A) → length (xs ++ ys) ≡ length xs + length ys
length-append [] ys = omega arith
length-append (x ∷ xs) ys = let rest = length-append xs ys in omega (arith, rest)

module _ (same : HornRule → Bool) (db : HornClauseDb) where
  abbrev kept : List HornRule
  kept = without same db.rules

  abbrev after : List HornRule
  after = kept ++ drop (length kept + 1) db.rules

  removed :
      0 < count same db.rules
      → remove_rule same db ≡ some (reset_indexes (record db { rules = after }))
  unfolding remove_rule
  removed h =
      let total = length-without same db.rules in
      let differ : (length kept == length db.rules) ≡ false = ground (arith, total, h) in
      rw (remove_rule, differ) refl

  nothing_removed : count same db.rules ≡ 0 → remove_rule same db ≡ none
  unfolding remove_rule
  nothing_removed h =
      let total = length-without same db.rules in
      let equal : (length kept == length db.rules) ≡ true = ground (arith, total, h) in
      rw (remove_rule, equal) refl

  after_one : count same db.rules ≡ 1 → after ≡ kept
  after_one h =
      let total = length-without same db.rules in
      ap (λ r. kept ++ r) (drop_all (length kept + 1) db.rules (omega (arith, total, h)))
      ∙ append-nil kept

  length-after : 0 < count same db.rules → suc (length after) ≡ length db.rules
  length-after h =
      let total = length-without same db.rules in
      let dropped = length-drop (length kept + 1) db.rules (omega (arith, total, h)) in
      let whole = length-append kept (drop (length kept + 1) db.rules) in
      omega (arith, dropped, whole)

-- removeRule fails where no rule compares equal; where one does, it leaves the other rules in order and
-- no index; however many do, it removes one rule only.
pub remove_rule-count :
    (same : HornRule → Bool) (db : HornClauseDb)
    → (count same db.rules ≡ 0 → remove_rule same db ≡ none)
      × (count same db.rules ≡ 1
          → remove_rule same db
            ≡ some (reset_indexes (record db { rules = without same db.rules })))
      × (0 < count same db.rules
          → (rs : List HornRule) × (remove_rule same db
              ≡ some (reset_indexes (record db { rules = rs })))
            × (suc (length rs) ≡ length db.rules))
remove_rule-count same db = (
  nothing_removed same db,
  λ h.
      removed same db (omega (arith, h))
      ∙ ap (λ rs. some (reset_indexes (record db { rules = rs }))) (after_one same db h),
  λ h. (after same db, removed same db h, length-after same db h),
)
