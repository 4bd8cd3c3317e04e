-- ===== src/CutPoints/Marks.antt =====
-- What computeCutPoints marks: distinct blocks of the order, and every target of a back-edge.
use seahorn.Prelude.{
  Distinct, ℕ, ◌≡◌, refl, ◌↔◌, ◌⊎◌, inl, inr, Bool, true, false, not, ◌&&◌, List, [], ◌∷◌, ◌++◌, In,
  In-append, In-append_left, In-append_right, Subset, length, ltb, if◌then◌else◌, arith, Bool-cases,
  subst, ap, sym, ◌∙◌,
}
use seahorn.CutPoints.{
  Cfg, ExtraCp, h0, h1, h2, is_h1, is_empty, elem, add_cp, mark_pred, mark_preds, mark_block,
  mark_blocks, mark_more, fwd_reach, with_extra, in_order, cut_points, BlockBitMap,
}
use seahorn.CutPoints.Paths.{BackCut, elem-In}

add_cp-In : (m : List ℕ) (b x : ℕ) → In x (add_cp m b) ↔ ((x ≡ b) ⊎ In x m)
unfolding add_cp
add_cp-In m b x = elim (Bool-cases (elem b m)) [
  | inl old ↦ rw old (
    λ h. inr h,
    λ h. elim h [ inl e ↦ subst (λ y. In y m) (sym e) ((elem-In b m).0 old) | inr q ↦ q ],
  )
  | inr new ↦ rw new (
    λ h. elim (In-append x m (b ∷ []) h) [
      | inl q ↦ inr q
      | inr (inl e) ↦ inl e
      | inr (inr n) ↦ absurd n
    ],
    λ h. elim h [
      | inl e ↦ In-append_right x m (b ∷ []) (inl e)
      | inr q ↦ In-append_left x m (b ∷ []) q
    ],
  )
]

-- An operation on the map that keeps what it has.
abbrev Keeps : List ℕ → List ℕ → Type 0
Keeps m m' = Subset m m'

add_cp-Keeps : (m : List ℕ) (b : ℕ) → Keeps m (add_cp m b)
add_cp-Keeps m b x h = (add_cp-In m b x).1 (inr h)

add_cp_if-Keeps : (t : Bool) (m : List ℕ) (b : ℕ) → Keeps m (if t then add_cp m b else m)
add_cp_if-Keeps true m b x h = add_cp-Keeps m b x h
add_cp_if-Keeps false m b x h = h

module _ (g : Cfg) (h : ExtraCp) where
  mark_pred-back : (b p : ℕ) (m : List ℕ) → g.back_edge p b ≡ true → In b (mark_pred g h b p m)
  unfolding mark_pred
  mark_pred-back b p m back =
      let added : In b (add_cp m b) = (add_cp-In m b b).1 (inl refl) in
      elim (Bool-cases (is_h1 h && ltb 1 (length (g.succs b)))) [
        | inl extra ↦ rw (back, extra) (add_cp-Keeps (add_cp m b) p b added)
        | inr plain ↦ rw (back, plain) added
      ]

  mark_pred-Keeps : (b p : ℕ) (m : List ℕ) → Keeps m (mark_pred g h b p m)
  unfolding mark_pred
  mark_pred-Keeps b p m = elim (Bool-cases (g.back_edge p b)) [
    | inl back ↦ elim (Bool-cases (is_h1 h && ltb 1 (length (g.succs b)))) [
      | inl extra ↦ λ x q. rw (back, extra) (add_cp-Keeps (add_cp m b) p x (add_cp-Keeps m b x q))
      | inr plain ↦ λ x q. rw (back, plain) (add_cp-Keeps m b x q)
    ]
    | inr fwd ↦ λ x q. rw fwd q
  ]

  mark_preds-Keeps : (b : ℕ) (ps m : List ℕ) → Keeps m (mark_preds g h b ps m)
  unfolding mark_preds
  mark_preds-Keeps b [] m x q = q
  mark_preds-Keeps b (p ∷ ps) m x q =
      mark_preds-Keeps b ps (mark_pred g h b p m) x (mark_pred-Keeps b p m x q)

  mark_preds-back :
      (b p : ℕ) (ps m : List ℕ) → In p ps → g.back_edge p b ≡ true → In b (mark_preds g h b ps m)
  unfolding mark_preds
  mark_preds-back b p [] m q back = absurd q
  mark_preds-back b p (r ∷ ps) m (inl e) back =
      mark_preds-Keeps b ps (mark_pred g h b r m) b
        (mark_pred-back b r m (sym (ap (λ y. g.back_edge y b) e) ∙ back))
  mark_preds-back b p (r ∷ ps) m (inr q) back = mark_preds-back b p ps (mark_pred g h b r m) q back

  abbrev ends_marked : ℕ → List ℕ → List ℕ
  ends_marked b m =
      let m1 = if is_empty (g.preds b) then add_cp m b else m in
      if is_empty (g.succs b) then add_cp m1 b else m1

  mark_block-back :
      (b p : ℕ) (m : List ℕ) → In p (g.preds b) → g.back_edge p b ≡ true → In b (mark_block g h b m)
  unfolding mark_block
  mark_block-back b p m q back = elim (Bool-cases (not (is_h1 h) && elem b m)) [
    | inl skip ↦ rw skip ((elem-In b m).0 (ground (arith, skip)))
    | inr go ↦ rw go (mark_preds-back b p (g.preds b) (ends_marked b m) q back)
  ]

  mark_block-Keeps : (b : ℕ) (m : List ℕ) → Keeps m (mark_block g h b m)
  unfolding mark_block
  mark_block-Keeps b m x q = elim (Bool-cases (not (is_h1 h) && elem b m)) [
    | inl skip ↦ rw skip q
    | inr go ↦ rw go (
        mark_preds-Keeps b (g.preds b) (ends_marked b m) x (
          add_cp_if-Keeps (is_empty (g.succs b)) _ b x
            (add_cp_if-Keeps (is_empty (g.preds b)) m b x q)))
  ]

  mark_blocks-Keeps : (bs m : List ℕ) → Keeps m (mark_blocks g h bs m)
  unfolding mark_blocks
  mark_blocks-Keeps [] m x q = q
  mark_blocks-Keeps (b ∷ bs) m x q =
      mark_blocks-Keeps bs (mark_block g h b m) x (mark_block-Keeps b m x q)

  mark_blocks-back :
      (b p : ℕ) (bs m : List ℕ)
      → In b bs
      → In p (g.preds b)
      → g.back_edge p b ≡ true
      → In b (mark_blocks g h bs m)
  unfolding mark_blocks
  mark_blocks-back b p [] m q pred back = absurd q
  mark_blocks-back b p (c ∷ bs) m (inl e) pred back = mark_blocks-Keeps bs (mark_block g h c m) b (
      subst (λ y. In y (mark_block g h c m)) (sym e)
        (mark_block-back c p m (subst (λ y. In p (g.preds y)) e pred)
          (subst (λ y. g.back_edge p y ≡ true) e back)))
  mark_blocks-back b p (c ∷ bs) m (inr q) pred back =
      mark_blocks-back b p bs (mark_block g h c m) q pred back

mark_more-Keeps : (g : Cfg) (fwd : BlockBitMap) (bs m : List ℕ) → Keeps m (mark_more g fwd bs m)
unfolding mark_more
mark_more-Keeps g fwd [] m x q = q
mark_more-Keeps g fwd (b ∷ bs) m x q = mark_more-Keeps g fwd bs _ x (add_cp_if-Keeps _ m b x q)

with_extra-Keeps : (g : Cfg) (h : ExtraCp) (m : List ℕ) → Keeps m (with_extra g h m)
with_extra-Keeps g h0 m x q = q
with_extra-Keeps g h1 m x q = q
with_extra-Keeps g h2 m x q = mark_more-Keeps g (fwd_reach g m g.topo) g.topo m x q

abbrev taken : List ℕ → List ℕ → ℕ → List ℕ
taken m cps b = if elem b m then add_cp cps b else cps

taken-In : (m cps : List ℕ) (b x : ℕ) → In x (taken m cps b) ↔ (((x ≡ b) × In b m) ⊎ In x cps)
taken-In m cps b x = elim (Bool-cases (elem b m)) [
  | inl marked ↦
      let (to, from) = add_cp-In cps b x in
      let mem = (elem-In b m).0 marked in
      rw marked (
        λ h. elim (to h) [ inl e ↦ inl (e, mem) | inr q ↦ inr q ],
        λ h. elim h [ inl p ↦ from (inl p.0) | inr q ↦ from (inr q) ],
      )
  | inr left ↦
      rw left
        (λ h. inr h, λ h. elim h [ inl p ↦ let marked = (elem-In b m).1 p.1 in cc | inr q ↦ q ])
]

in_order-In :
    (m bs cps : List ℕ) (x : ℕ) → In x (in_order m bs cps) ↔ (In x cps ⊎ (In x bs × In x m))
unfolding in_order
in_order-In m [] cps x = (λ h. inl h, λ h. elim h [ inl q ↦ q | inr q ↦ absurd q.0 ])
in_order-In m (b ∷ bs) cps x =
    let (to, from) = in_order-In m bs (taken m cps b) x in
    let (take, give) = taken-In m cps b x in
    (
      λ h. elim (to h) [
        | inl q ↦ elim (take q) [
          | inl (e, mem) ↦ inr (inl e, subst (λ y. In y m) (sym e) mem)
          | inr old ↦ inl old
        ]
        | inr (mem, q) ↦ inr (inr mem, q)
      ],
      λ h. elim h [
        | inl old ↦ from (inl (give (inr old)))
        | inr (inl e, q) ↦ from (inl (give (inl (e, subst (λ y. In y m) e q))))
        | inr (inr mem, q) ↦ from (inr (mem, q))
      ],
    )

Distinct-append : (m : List ℕ) (b : ℕ) → Distinct m → ¬ In b m → Distinct (m ++ b ∷ [])
Distinct-append [] b d n = (λ h. h, tt)
Distinct-append (x ∷ m) b d n = (
  λ h. elim (In-append x m (b ∷ []) h) [
    | inl q ↦ d.0 q
    | inr (inl e) ↦ n (inl (sym e))
    | inr (inr a) ↦ a
  ],
  Distinct-append m b d.1 (λ q. n (inr q)),
)

add_cp-Distinct : (m : List ℕ) (b : ℕ) → Distinct m → Distinct (add_cp m b)
unfolding add_cp
add_cp-Distinct m b d = elim (Bool-cases (elem b m)) [
  | inl old ↦ rw old d
  | inr new ↦ rw new (Distinct-append m b d (λ q. let old = (elem-In b m).1 q in cc))
]

taken-Distinct : (m cps : List ℕ) (b : ℕ) → Distinct cps → Distinct (taken m cps b)
taken-Distinct m cps b d = elim (Bool-cases (elem b m)) [
  | inl marked ↦ rw marked (add_cp-Distinct cps b d)
  | inr left ↦ rw left d
]

in_order-Distinct : (m bs cps : List ℕ) → Distinct cps → Distinct (in_order m bs cps)
unfolding in_order
in_order-Distinct m [] cps d = d
in_order-Distinct m (b ∷ bs) cps d =
    in_order-Distinct m bs (taken m cps b) (taken-Distinct m cps b d)

-- The cut points are distinct blocks of the order, and the target of every back-edge is one of them,
-- whichever heuristic is chosen.
pub cut_points_correct :
    (g : Cfg) (h : ExtraCp)
    → Distinct (cut_points g h)
      × ((b : ℕ) → In b (cut_points g h) → In b g.topo)
      × BackCut g (cut_points g h)
unfolding cut_points
cut_points_correct g h =
    let marked = mark_blocks g h g.topo [] in
    let all = with_extra g h marked in
    (
      in_order-Distinct all g.topo [] tt,
      λ b q. elim ((in_order-In all g.topo [] b).0 q) [ inl n ↦ absurd n | inr p ↦ p.0 ],
      λ p b mem pred back. (elem-In b (in_order all g.topo [])).1 (
          (in_order-In all g.topo [] b).1 (
            inr (
              mem,
              with_extra-Keeps g h marked b (mark_blocks-back g h b p g.topo [] mem pred back),
            ))),
    )
