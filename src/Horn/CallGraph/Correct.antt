-- ===== src/Horn/CallGraph/Correct.antt =====
-- The call graph of a database: calls both ways, and the entry.
use seahorn.Prelude.{
  ℕ, ◌≡◌, refl, sym, ap, ◌∙◌, ◌↔◌, ◌⊎◌, inl, inr, Bool, true, false, Option, none, some,
  Option-cases, List, [], ◌∷◌, In, get_elem?, if◌then◌else◌, subst, Bool-cases,
}
use seahorn.Expr.Syntax.{Expr}
use seahorn.Horn.{
  HornRule, HornClauseDb, build_indexes, use_of, def_of, used_relations, head_relations,
}
use seahorn.Horn.Indexes.{build_indexes-In}
use seahorn.Horn.Uses.{UsedIn, Applies, used_relations-UsedIn, head_relations-Applies}
use seahorn.Horn.CallGraph.Maps.{call_map_kept, calls_at-call_map}
use seahorn.Horn.CallGraph.{
  CallGraph, has_calls, relations_at, CallMap, calls_at, find_entry, build_call_graph,
}
use seahorn.Horn.CallGraph.Sets.{relations_at-In, same_rule}

-- A rule of the database whose body uses the first relation and whose head applies the second one.
abbrev pub Calls : HornClauseDb → Expr → Expr → Type 0
Calls db p q =
    (j : ℕ) × (r : HornRule) × (get_elem? db.rules j ≡ some r)
    × UsedIn db p r.body
    × Applies q r.head

callees_given :
    (is_main : Expr → Bool) (db : HornClauseDb) (cg : CallGraph) (p q : Expr)
    → In p db.rels
    → has_calls p cg.callees ≡ false
    → In q (calls_at p ((build_call_graph is_main db cg).callees)) ↔ Calls db p q
unfolding build_call_graph
callees_given is_main db cg p q i h =
    let idx = build_indexes db in
    let f : Expr → List Expr = λ k. relations_at head_relations (db.rules) (use_of k idx) [] in
    let (to, from) = relations_at-In head_relations (db.rules) q (use_of p idx) [] in
    subst (λ l. In q l ↔ Calls db p q) (sym (calls_at-call_map f p (db.rels) (cg.callees) i h))
      (
        λ k. elim (to k) [
          | inl (j, mem, (r, at, head)) ↦
              let (r', at', used) = (build_indexes-In db p j).0.0 mem in
              (
                j,
                r,
                at,
                subst (λ t. UsedIn db p t.body) (same_rule (sym at' ∙ at)) used,
                (head_relations-Applies r q).0 head,
              )
          | inr n ↦ absurd n
        ],
        λ (j, r, at, used, head). from (
            inl (
              j,
              (build_indexes-In db p j).0.1 (r, at, used),
              (r, at, (head_relations-Applies r q).1 head),
            )),
      )

callers_given :
    (is_main : Expr → Bool) (db : HornClauseDb) (cg : CallGraph) (p q : Expr)
    → In q db.rels
    → has_calls q cg.callers ≡ false
    → In p (calls_at q ((build_call_graph is_main db cg).callers)) ↔ Calls db p q
unfolding build_call_graph
callers_given is_main db cg p q i h =
    let idx = build_indexes db in
    let f : Expr → List Expr = λ k. relations_at (used_relations db) (db.rules) (def_of k idx) [] in
    let (to, from) = relations_at-In (used_relations db) (db.rules) p (def_of q idx) [] in
    subst (λ l. In p l ↔ Calls db p q) (sym (calls_at-call_map f q (db.rels) (cg.callers) i h))
      (
        λ k. elim (to k) [
          | inl (j, mem, (r, at, used)) ↦
              let (r', at', head) = (build_indexes-In db q j).1.0 mem in
              (
                j,
                r,
                at,
                (used_relations-UsedIn db r p).0 used,
                subst (λ t. Applies q t.head) (same_rule (sym at' ∙ at)) head,
              )
          | inr n ↦ absurd n
        ],
        λ (j, r, at, used, head). from (
            inl (
              j,
              (build_indexes-In db q j).1.1 (r, at, head),
              (r, at, (used_relations-UsedIn db r p).1 used),
            )),
      )

-- The entry is of main and has no caller; where there is none, each relation of main has a caller.
abbrev pub IsEntry : (Expr → Bool) → CallMap → List Expr → Option Expr → Type 0
IsEntry is_main callers ps none =
    (p : Expr) → In p ps → is_main p ≡ true → ¬ (calls_at p callers ≡ [])
IsEntry is_main callers ps (some e) = In e ps × (is_main e ≡ true) × (calls_at e callers ≡ [])

IsEntry-later :
    (is_main : Expr → Bool) (callers : CallMap) (p : Expr) (ps : List Expr) (o : Option Expr)
    → (is_main p ≡ true → ¬ (calls_at p callers ≡ []))
    → IsEntry is_main callers ps o
    → IsEntry is_main callers (p ∷ ps) o
IsEntry-later is_main callers p ps none n h = λ q mem main nil_at. elim mem [
  | inl e ↦ n (subst (λ y. is_main y ≡ true) e main) (subst (λ y. calls_at y callers ≡ []) e nil_at)
  | inr later ↦ h q later main nil_at
]
IsEntry-later is_main callers p ps (some e) n h = (inr h.0, h.1, h.2)

set-cases : (s : List Expr) → (s ≡ []) ⊎ ((c : Expr) × (cs : List Expr) × (s ≡ c ∷ cs))
set-cases [] = inl refl
set-cases (c ∷ cs) = inr (c, cs, refl)

find_entry-IsEntry :
    (is_main : Expr → Bool) (callers : CallMap) (ps : List Expr)
    → IsEntry is_main callers ps (find_entry is_main callers ps)
unfolding find_entry
find_entry-IsEntry is_main callers [] = λ p n. absurd n
find_entry-IsEntry is_main callers (p ∷ ps) =
    let rest = find_entry-IsEntry is_main callers ps in
    let chosen : List Expr → Option Expr = λ l. elim l [
      | [] ↦ if is_main p then some p else find_entry is_main callers ps
      | c ∷ cs ↦ find_entry is_main callers ps
    ] in
    elim (set-cases (calls_at p callers)) [
      | inl nothing ↦
          subst (λ l. IsEntry is_main callers (p ∷ ps) (chosen l)) (sym nothing)
            (elim (Bool-cases (is_main p)) [
              | inl main ↦
                  subst
                    (λ t.
                      IsEntry is_main callers (p ∷ ps)
                        (if t then some p else find_entry is_main callers ps))
                    (sym main) (inl refl, main, nothing)
              | inr other ↦
                  subst
                    (λ t.
                      IsEntry is_main callers (p ∷ ps)
                        (if t then some p else find_entry is_main callers ps))
                    (sym other)
                    (IsEntry-later is_main callers p ps (find_entry is_main callers ps) (λ main. cc)
                      rest)
            ])
      | inr (c, cs, called) ↦
          subst (λ l. IsEntry is_main callers (p ∷ ps) (chosen l)) (sym called)
            (IsEntry-later is_main callers p ps (find_entry is_main callers ps) (λ _ nothing. cc)
              rest)
    ]

-- What buildCallGraph leaves as the entry: one that it found, or, where each relation of main has a
-- caller, the old one.
abbrev pub IsNewEntry : (Expr → Bool) → CallMap → List Expr → Option Expr → Option Expr → Type 0
IsNewEntry is_main callers ps old new =
    ((e : Expr) × (new ≡ some e) × IsEntry is_main callers ps (some e))
    ⊎ ((new ≡ old) × IsEntry is_main callers ps none)

entry_given :
    (is_main : Expr → Bool) (db : HornClauseDb) (cg : CallGraph)
    → IsNewEntry is_main
        ((build_call_graph is_main db cg).callers)
        (db.rels)
        (cg.entry)
        ((build_call_graph is_main db cg).entry)
unfolding build_call_graph
entry_given is_main db cg =
    let callers' = (build_call_graph is_main db cg).callers in
    let found = find_entry-IsEntry is_main callers' (db.rels) in
    let left : Option Expr → Option Expr = λ o. elim o [ none ↦ cg.entry | some p ↦ some p ] in
    elim (Option-cases (find_entry is_main callers' (db.rels))) [
      | inl nothing ↦
          inr (ap left nothing, subst (IsEntry is_main callers' (db.rels)) nothing found)
      | inr (p, some_p) ↦
          inl (p, ap left some_p, subst (IsEntry is_main callers' (db.rels)) some_p found)
    ]

-- After buildCallGraph the callees of a registered relation that had no entry in the map of callees are
-- those terms that the heads of rules apply in whose bodies it is used; likewise the callers of a
-- registered relation that had no entry in the map of callers are those that are used in the bodies of
-- the rules whose heads apply it. Entries of an earlier build stay as they were. If a relation of main
-- has no caller, such a relation is the entry; otherwise the entry stays.
pub build_call_graph_correct :
    (is_main : Expr → Bool) (db : HornClauseDb) (cg : CallGraph)
    → ((p q : Expr)
        → In p db.rels
        → has_calls p cg.callees ≡ false
        → In q (calls_at p ((build_call_graph is_main db cg).callees)) ↔ Calls db p q)
      × ((p q : Expr)
          → In q db.rels
          → has_calls q cg.callers ≡ false
          → In p (calls_at q ((build_call_graph is_main db cg).callers)) ↔ Calls db p q)
      × ((p : Expr)
          → has_calls p cg.callees ≡ true
          → calls_at p ((build_call_graph is_main db cg).callees) ≡ calls_at p cg.callees)
      × ((p : Expr)
          → has_calls p cg.callers ≡ true
          → calls_at p ((build_call_graph is_main db cg).callers) ≡ calls_at p cg.callers)
      × IsNewEntry is_main
          ((build_call_graph is_main db cg).callers)
          (db.rels)
          (cg.entry)
          ((build_call_graph is_main db cg).entry)
unfolding build_call_graph
build_call_graph_correct is_main db cg = (
  callees_given is_main db cg,
  callers_given is_main db cg,
  λ p h. call_map_kept _ p (db.rels) (cg.callees) h,
  λ p h. call_map_kept _ p (db.rels) (cg.callers) h,
  entry_given is_main db cg,
)
