-- ===== src/Alloc/Static/ModuleEntry.antt =====
-- The functions and globals that onModuleEntry places.
use seahorn.Prelude.{
  ℕ, ◌+◌, ◌*◌, ◌^◌, ◌≤◌, ◌<◌, ◌≡◌, refl, sym, ap, ◌∙◌, true, false, some, List, [], ◌∷◌, ◌++◌,
  arith, Bool-cases, Option-cases, inl, inr, ◌&&◌, ◌||◌, not,
}
use mathlib.Core.List.{append-nil}
use seahorn.Alloc.{
  u32, FuncAllocInfo, GlobalAllocInfo, Allocator, AddrInterval, code_end, brk0_addr, falloc, galloc,
  place_func,
}
use seahorn.Alloc.Layout.{IsAlignTo, IsLayout, falloc-IsLayout, galloc-IsLayout}
use seahorn.Alloc.Static.{Function, Global, place_functions, place_globals, on_module_entry}

abbrev pub func_space : List Function → ℕ
func_space [] = 0
func_space (f ∷ fs) = 4 + 2 * f.align + func_space fs

abbrev pub global_space : List Global → ℕ
global_space [] = 0
global_space (g ∷ gs) = g.bytes + 2 * g.align + global_space gs

-- The functions whose address is taken and that are not left out by name.
abbrev pub to_place : List Function → List ℕ
to_place [] = []
to_place (f ∷ fs) = elim f.address_taken [
  | false ↦ to_place fs
  | true ↦ elim f.skipped [ true ↦ to_place fs | false ↦ f.fn ∷ to_place fs ]
]

-- The globals that are neither skipped nor metadata, each with its size.
abbrev pub to_lay_out : List Global → List (ℕ × ℕ)
to_lay_out [] = []
to_lay_out (g ∷ gs) = elim g.skipped [
  | true ↦ to_lay_out gs
  | false ↦ elim g.metadata [ true ↦ to_lay_out gs | false ↦ (g.gv, u32 g.bytes) ∷ to_lay_out gs ]
]

append_snoc {ℓ} :
    {A : Type ℓ} (xs : List A) (x : A) (ys : List A) → (xs ++ x ∷ []) ++ ys ≡ xs ++ x ∷ ys
append_snoc [] x ys = refl
append_snoc (z ∷ xs) x ys = ap (λ l. z ∷ l) (append_snoc xs x ys)

abbrev pub placed_funcs : List FuncAllocInfo → List ℕ
placed_funcs [] = []
placed_funcs (i ∷ is) = i.fn ∷ placed_funcs is

abbrev pub placed_globals : List GlobalAllocInfo → List (ℕ × ℕ)
placed_globals [] = []
placed_globals (i ∷ is) = (i.gv, i.sz) ∷ placed_globals is

placed_funcs-append :
    (is : List FuncAllocInfo) (i : FuncAllocInfo)
    → placed_funcs (is ++ i ∷ []) ≡ placed_funcs is ++ i.fn ∷ []
placed_funcs-append [] i = refl
placed_funcs-append (j ∷ is) i = ap (λ l. j.fn ∷ l) (placed_funcs-append is i)

placed_globals-append :
    (is : List GlobalAllocInfo) (i : GlobalAllocInfo)
    → placed_globals (is ++ i ∷ []) ≡ placed_globals is ++ (i.gv, i.sz) ∷ []
placed_globals-append [] i = refl
placed_globals-append (j ∷ is) i = ap (λ l. (j.gv, j.sz) ∷ l) (placed_globals-append is i)

abbrev pub FuncsAligned : List Function → Type 0
FuncsAligned [] = Unit
FuncsAligned (f ∷ fs) = (0 < f.align) × FuncsAligned fs

abbrev pub GlobalsAligned : List Global → Type 0
GlobalsAligned [] = Unit
GlobalsAligned (g ∷ gs) = (0 < g.align) × GlobalsAligned gs

module _ (align_to : ℕ → ℕ → ℕ) (ok : IsAlignTo align_to) where
  falloc-globals :
      (f align : ℕ) (s s' : Allocator) (r : AddrInterval)
      → s.globals ≡ []
      → falloc align_to f align s ≡ some (r, s')
      → s'.globals ≡ []
  unfolding falloc place_func
  falloc-globals f align s s' r e h = ground arith

  place_functions_total :
      (fs : List Function) (s : Allocator) (extra : ℕ)
      → FuncsAligned fs
      → code_end s + func_space fs + extra ≤ 2 ^ 32
      → s.globals ≡ []
      → IsLayout s
      → (s' : Allocator) × (place_functions align_to fs s ≡ some s')
        × (IsLayout s' × (brk0_addr s' + extra ≤ 2 ^ 32))
  unfolding place_functions
  place_functions_total [] s extra h b e l = (s, refl, (l, rw e (omega arith)))
  place_functions_total (f ∷ fs) s extra h b e l =
      let (r, s1, done, (l1, fits, top)) =
        (falloc-IsLayout align_to ok f.fn f.align s h.0 (omega arith) l).0 e in
      elim (Bool-cases (f.address_taken && not f.skipped)) [
        | inl placed ↦
            let tight = fits.tight in
            let (s2, run, rest) =
              place_functions_total fs s1 extra h.1 (omega (arith, tight, top))
                (falloc-globals f.fn f.align s s1 r e done) l1 in
            (s2, ground arith, rest)
        | inr left ↦
            let (s2, run, rest) = place_functions_total fs s extra h.1 (omega arith) e l in
            (s2, ground arith, rest)
      ]

  place_globals-IsLayout :
      (gs : List Global) (s : Allocator)
      → GlobalsAligned gs
      → brk0_addr s + global_space gs ≤ 2 ^ 32
      → IsLayout s
      → IsLayout (place_globals align_to gs s)
  unfolding place_globals
  place_globals-IsLayout [] s h b l = l
  place_globals-IsLayout (g ∷ gs) s h b l =
      let (l1, fits, m, top) =
        galloc-IsLayout align_to ok g.gv g.bytes g.align s h.0 (omega arith) l in
      let tight = fits.tight in
      let placed =
        place_globals-IsLayout gs (galloc align_to g.gv g.bytes g.align s).1 h.1 (omega arith) l1 in
      let left = place_globals-IsLayout gs s h.1 (omega arith) l in
      elim (Bool-cases (g.skipped || g.metadata)) [
        | inl out ↦ rw out left
        | inr kept ↦ rw kept placed
      ]

module _ (align_to : ℕ → ℕ → ℕ) where
  falloc_names :
      (f align : ℕ) (s s' : Allocator) (r : AddrInterval)
      → s.globals ≡ []
      → falloc align_to f align s ≡ some (r, s')
      → (placed_funcs s'.funcs ≡ placed_funcs s.funcs ++ f ∷ []) × (s'.globals ≡ [])
  unfolding falloc place_func
  falloc_names f align s s' r e h =
      let done : falloc align_to f align s ≡ some (place_func align_to f align s) = ground arith in
      let same : (place_func align_to f align s).1 ≡ s' = cc in
      (
        ap (λ t. placed_funcs t.funcs) (sym same) ∙ placed_funcs-append s.funcs _,
        ap (λ t. t.globals) (sym same) ∙ e,
      )

  -- The functions that are placed, in order; no global is.
  pub place_functions_names :
      (fs : List Function) (s s' : Allocator)
      → s.globals ≡ []
      → place_functions align_to fs s ≡ some s'
      → (placed_funcs s'.funcs ≡ placed_funcs s.funcs ++ to_place fs) × (s'.globals ≡ [])
  unfolding place_functions
  place_functions_names [] s s' e h =
      let same : s ≡ s' = ground arith in
      (
        rw (append-nil (placed_funcs s.funcs)) (ap (λ t. placed_funcs t.funcs) (sym same)),
        ap (λ t. t.globals) (sym same) ∙ e,
      )
  place_functions_names (f ∷ fs) s s' e h = elim (Bool-cases f.address_taken) [
    | inr never ↦ rw never (place_functions_names fs s s' e (ground (arith, never, h)))
    | inl taken ↦ elim (Bool-cases f.skipped) [
      | inl out ↦ rw (taken, out) (place_functions_names fs s s' e (ground (arith, taken, out, h)))
      | inr kept ↦ elim (Option-cases (falloc align_to f.fn f.align s)) [
        | inl failed ↦ ground (arith, taken, kept, failed, h)
        | inr ((r, s1), done) ↦
            let (names, globals) = falloc_names f.fn f.align s s1 r e done in
            let (later, globals') =
              place_functions_names fs s1 s' globals (ground (arith, taken, kept, done, h)) in
            (
              rw (taken, kept)
                  (later
                    ∙ ap (λ l. l ++ to_place fs) names
                    ∙ append_snoc (placed_funcs s.funcs) f.fn (to_place fs)),
              globals',
            )
      ]
    ]
  ]

  -- The globals that are placed, in order; no function is.
  pub place_globals_names :
      (gs : List Global) (s : Allocator)
      → (placed_globals (place_globals align_to gs s).globals
          ≡ placed_globals s.globals ++ to_lay_out gs)
        × ((place_globals align_to gs s).funcs ≡ s.funcs)
  unfolding place_globals galloc
  place_globals_names [] s = (sym (append-nil (placed_globals s.globals)), refl)
  place_globals_names (g ∷ gs) s =
      let left = place_globals_names gs s in
      let (names, funcs) = place_globals_names gs (galloc align_to g.gv g.bytes g.align s).1 in
      elim (Bool-cases g.skipped) [
        | inl out ↦ rw out left
        | inr kept ↦ elim (Bool-cases g.metadata) [
          | inl out ↦ rw (kept, out) left
          | inr laid ↦
              rw (kept, laid)
                (
                  names
                      ∙ ap (λ l. l ++ to_lay_out gs) (placed_globals-append s.globals _)
                      ∙ append_snoc (placed_globals s.globals) (g.gv, u32 g.bytes) (to_lay_out gs),
                  funcs,
                )
        ]
      ]

-- From a state with no global, entering the module adds, in order, the functions whose address is taken
-- and that are not left out by name, and gives, in order and with their sizes modulo 2^32, the globals
-- that are neither skipped nor metadata; and the segments are in order. Alignments are not zero and 32
-- bits suffice.
pub on_module_entry-IsLayout :
    (align_to : ℕ → ℕ → ℕ) (fs : List Function) (gs : List Global) (s : Allocator)
    → IsAlignTo align_to
    → FuncsAligned fs
    → GlobalsAligned gs
    → code_end s + func_space fs + global_space gs ≤ 2 ^ 32
    → s.globals ≡ []
    → IsLayout s
    → (s' : Allocator) × (on_module_entry align_to fs gs s ≡ some s')
      × IsLayout s'
      × (placed_funcs s'.funcs ≡ placed_funcs s.funcs ++ to_place fs)
      × (placed_globals s'.globals ≡ to_lay_out gs)
unfolding on_module_entry
on_module_entry-IsLayout align_to fs gs s ok hf hg b e l =
    let (s1, run, (l1, b1)) = place_functions_total align_to ok fs s (global_space gs) hf b e l in
    let (funcs, none_yet) = place_functions_names align_to fs s s1 e run in
    let (globals, same) = place_globals_names align_to gs s1 in
    (
      place_globals align_to gs s1,
      ground arith,
      place_globals-IsLayout align_to ok gs s1 hg b1 l1,
      ap placed_funcs same ∙ funcs,
      globals ∙ ap (λ l. placed_globals l ++ to_lay_out gs) none_yet,
    )
