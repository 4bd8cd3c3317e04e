-- ===== src/Alloc/Static/Addresses.antt =====
-- What the static allocator answers for functions that it did not place.
use seahorn.Prelude.{
  ℕ, ◌≡◌, refl, sym, ap, ap₂, ◌∙◌, none, some, List, [], ◌∷◌, ◌++◌, arith, In, inl, inr, subst,
  Option-cases,
}
use seahorn.Alloc.{Allocator, FuncAllocInfo, find_func, get_function_addr}
use seahorn.Alloc.Lookup.{last_of-append, find_func-append}
use seahorn.Alloc.Static.{
  Function, Global, static_falloc, place_functions, place_globals, on_module_entry,
}
use seahorn.Alloc.Static.ModuleEntry.{
  to_place, placed_funcs, place_functions_names, place_globals_names,
}

addr_of_last :
    (f align : ℕ) (s : Allocator) (fs : List FuncAllocInfo) (i : FuncAllocInfo)
    → s.funcs ≡ fs ++ i ∷ []
    → find_func i.fn fs ≡ none
    → find_func f s.funcs ≡ none
    → (get_function_addr static_falloc f align s ≡ some (i.start, s))
      × (get_function_addr static_falloc i.fn align s ≡ some (i.start, s))
unfolding get_function_addr static_falloc
addr_of_last f align s fs i e once h =
    let last : find_func i.fn s.funcs ≡ some i = rw e (find_func-append i.fn fs i once refl) in
    (ground (arith, last_of-append fs i), ground arith)

-- Not found is not placed.
not_found_lem : (f : ℕ) (is : List FuncAllocInfo) → ¬ In f (placed_funcs is) → find_func f is ≡ none
unfolding find_func
not_found_lem f [] n = refl
not_found_lem f (i ∷ is) n =
    let apart : ¬ (f ≡ i.fn) = λ e. n (inl e) in
    ground (arith, apart, not_found_lem f is (λ h. n (inr h)))

-- The entry of the name that stands last.
last_entry :
    (is : List FuncAllocInfo) (ps : List ℕ) (k : ℕ)
    → placed_funcs is ≡ ps ++ k ∷ []
    → (js : List FuncAllocInfo) × (i : FuncAllocInfo) × (is ≡ js ++ i ∷ [])
      × (i.fn ≡ k)
      × (placed_funcs js ≡ ps)
last_entry [] [] k h = cc
last_entry (i ∷ []) [] k h = ([], i, refl, cc, refl)
last_entry (i ∷ j ∷ is) [] k h = cc
last_entry [] (p ∷ ps) k h = cc
last_entry (i ∷ is) (p ∷ ps) k h =
    let (js, l, e, name, rest) = last_entry is ps k cc in
    let first : i.fn ≡ p = cc in (i ∷ js, l, ap (λ t. i ∷ t) e, name, ap₂ (λ x t. x ∷ t) first rest)

-- After onModuleEntry on an empty state, a function that was not to be placed, since its address is not
-- taken or its name leaves it out, has the address of the function that was placed last, once.
pub static_addr_of_last :
    (align_to : ℕ → ℕ → ℕ) (fs : List Function) (gs : List Global) (s s' : Allocator) (ps : List ℕ)
    (f last align : ℕ)
    → s.funcs ≡ []
    → s.globals ≡ []
    → on_module_entry align_to fs gs s ≡ some s'
    → to_place fs ≡ ps ++ last ∷ []
    → ¬ In last ps
    → ¬ In f (to_place fs)
    → (a : ℕ) × (get_function_addr static_falloc f align s' ≡ some (a, s'))
      × (get_function_addr static_falloc last align s' ≡ some (a, s'))
unfolding on_module_entry
static_addr_of_last align_to fs gs s s' ps f last align no_func no_global run order once out =
    elim (Option-cases (place_functions align_to fs s)) [
      | inl failed ↦ ground (arith, failed, run)
      | inr (s1, placed) ↦
          let end : place_globals align_to gs s1 ≡ s' = ground (arith, placed, run) in
          let (names, _) = place_functions_names align_to fs s s1 no_global placed in
          let (_, same) = place_globals_names align_to gs s1 in
          let listed : placed_funcs s'.funcs ≡ to_place fs =
            ap (λ t. placed_funcs t.funcs) (sym end)
            ∙ ap placed_funcs same
            ∙ names
            ∙ ap (λ l. placed_funcs l ++ to_place fs) no_func in
          let (js, i, e, name, before) = last_entry s'.funcs ps last (listed ∙ order) in
          let (missing, found) =
            addr_of_last f align s' js i e
              (not_found_lem i.fn js
                (λ h. once (subst (λ k. In k ps) name (subst (In i.fn) before h))))
              (not_found_lem f s'.funcs (λ h. out (subst (In f) listed h))) in
          (
            i.start,
            missing,
            subst (λ k. get_function_addr static_falloc k align s' ≡ some (i.start, s')) name found,
          )
    ]
