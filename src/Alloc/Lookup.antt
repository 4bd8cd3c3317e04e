-- ===== src/Alloc/Lookup.antt =====
-- The addresses of functions and globals: what a second request returns.
use seahorn.Prelude.{
  ℕ, ◌+◌, ◌≡◌, refl, none, some, List, [], ◌∷◌, ◌++◌, arith, Option-cases, inl, inr,
}
use seahorn.Alloc.{
  u32, u64, brk0_addr, code_end, Allocator, FuncAllocInfo, GlobalAllocInfo, find_func, find_global,
  last_of, galloc, falloc, get_function_addr, get_global_addr,
}

pub last_of-append {ℓ} : {A : Type ℓ} (xs : List A) (x : A) → last_of (xs ++ x ∷ []) ≡ some x
last_of-append [] x = refl
last_of-append (y ∷ []) x = refl
last_of-append (y ∷ z ∷ xs) x = last_of-append (z ∷ xs) x

find_global-append :
    (g : ℕ) (is : List GlobalAllocInfo) (i : GlobalAllocInfo)
    → find_global g is ≡ none
    → i.gv ≡ g
    → find_global g (is ++ i ∷ []) ≡ some i
unfolding find_global
find_global-append g [] i h e = ground arith
find_global-append g (j ∷ is) i h e = ground (arith, find_global-append g is i)

pub find_func-append :
    (f : ℕ) (is : List FuncAllocInfo) (i : FuncAllocInfo)
    → find_func f is ≡ none
    → i.fn ≡ f
    → find_func f (is ++ i ∷ []) ≡ some i
unfolding find_func
find_func-append f [] i h e = ground arith
find_func-append f (j ∷ is) i h e = ground (arith, find_func-append f is i)

module _ (align_to : ℕ → ℕ → ℕ) where
  get_global_addr_stable :
      (g bytes align bytes' align' : ℕ) (s : Allocator)
      → (a : ℕ) × (s' : Allocator) × (get_global_addr (galloc align_to) g bytes align s
          ≡ some (a, s'))
        × (get_global_addr (galloc align_to) g bytes' align' s' ≡ some (a, s'))
  unfolding get_global_addr galloc
  get_global_addr_stable g bytes align bytes' align' s =
      elim (Option-cases (find_global g s.globals)) [
        | inl missing ↦
            let i : GlobalAllocInfo = record {
              gv = g;
              start = u32 (align_to (brk0_addr s) align);
              end = u32 (align_to (u64 (u32 (align_to (brk0_addr s) align) + bytes)) align);
              sz = u32 bytes;
            } in
            (
              i.start,
              record s { globals = s.globals ++ i ∷ [] },
              ground (arith, last_of-append s.globals i),
              ground (arith, find_global-append g s.globals i),
            )
        | inr (i, found) ↦ (i.start, s, ground arith, ground arith)
      ]

  get_function_addr_stable :
      (f align align' : ℕ) (s : Allocator)
      → s.globals ≡ []
      → (a : ℕ) × (s' : Allocator) × (get_function_addr (falloc align_to) f align s ≡ some (a, s'))
        × (get_function_addr (falloc align_to) f align' s' ≡ some (a, s'))
  unfolding get_function_addr falloc
  get_function_addr_stable f align align' s e = elim (Option-cases (find_func f s.funcs)) [
    | inl missing ↦
        let i : FuncAllocInfo = record {
          fn = f;
          start = code_end s;
          end = u32 (align_to (u32 (code_end s + 4)) align);
        } in
        (
          i.start,
          record s { funcs = s.funcs ++ i ∷ [] },
          ground (arith, last_of-append s.funcs i),
          ground (arith, find_func-append f s.funcs i),
        )
    | inr (i, found) ↦ (i.start, s, ground arith, ground arith)
  ]

  -- With the allocator's own galloc the address of a global is always given, and a later request for
  -- it gives the same address, whatever size and alignment it names, and changes nothing. So it is
  -- for a function with the allocator's own falloc, in a state without globals.
  pub addresses_stable :
      (g bytes align bytes' align' f : ℕ) (s t : Allocator)
      → t.globals ≡ []
      → ((a : ℕ) × (s' : Allocator) × (get_global_addr (galloc align_to) g bytes align s
            ≡ some (a, s'))
          × (get_global_addr (galloc align_to) g bytes' align' s' ≡ some (a, s')))
        × ((a : ℕ) × (t' : Allocator) × (get_function_addr (falloc align_to) f align t
              ≡ some (a, t'))
            × (get_function_addr (falloc align_to) f align' t' ≡ some (a, t')))
  addresses_stable g bytes align bytes' align' f s t e = (
    get_global_addr_stable g bytes align bytes' align' s,
    get_function_addr_stable f align align' t e,
  )
