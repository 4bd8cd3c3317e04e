-- ===== src/Alloc/Static/Prealloc.antt =====
-- The stack objects that onFunctionEntry places, and what salloc then returns for them.
use seahorn.Prelude.{
  Option, zero, suc, subst, ◌%◌, ℕ, ◌+◌, ◌*◌, ◌^◌, ◌≤◌, ◌<◌, ◌≡◌, refl, some, none, List, [], ◌∷◌,
  ◌++◌, arith, ◌∙◌,
}
use mathlib.Core.List.{append-nil}
use seahorn.Alloc.Intervals.{last_end}
use seahorn.Alloc.{u32, Allocator, AllocInfo, alloca_end, push_alloca}
use seahorn.Alloc.Layout.{IsAlignTo, IsLayout, Fits, push_alloca-IsLayout}
use seahorn.Alloc.Static.{
  Alloca, mem_sz, is_fixed, find_alloca, static_salloc, pre_alloc, on_function_entry,
}

-- An upper bound of the stack space that the allocas take.
abbrev pub space : List Alloca → ℕ
space [] = 0
space (a ∷ rest) = mem_sz a + 2 * a.align + space rest

-- The size of the object itself, which the code computes with 32 bits.
abbrev pub true_size : Alloca → ℕ
true_size a = elim a.count [ some n ↦ a.type_sz * n | none ↦ 4096 ]

narrow_lem : (t n : ℕ) → t * n < 2 ^ 32 → u32 (u32 t * u32 n) ≡ t * n
narrow_lem zero n h = grind arith
narrow_lem (suc t) zero h = grind arith
narrow_lem (suc t) (suc n) h =
    let left : suc t ≤ suc t * suc n = grind arith in
    let right : suc n ≤ suc t * suc n = grind arith in
    let same_t : u32 (suc t) ≡ suc t = omega (arith, h, left) in
    let same_n : u32 (suc n) ≡ suc n = omega (arith, h, right) in
    rw (same_t, same_n) (omega (arith, h))

abbrev size_by : ℕ → Option ℕ → ℕ
size_by t none = 4096
size_by t (some n) = u32 (u32 t * u32 n)

abbrev true_size_by : ℕ → Option ℕ → ℕ
true_size_by t none = 4096
true_size_by t (some n) = t * n

by_count : (t : ℕ) (c : Option ℕ) → true_size_by t c < 2 ^ 32 → size_by t c ≡ true_size_by t c
by_count t none k = refl
by_count t (some n) k = narrow_lem t n k

mem_sz_lem : (a : Alloca) → true_size a < 2 ^ 32 → mem_sz a ≡ true_size a
mem_sz_lem a h = by_count a.type_sz a.count h

abbrev pub AllAligned : List Alloca → Type 0
AllAligned [] = Unit
AllAligned (a ∷ rest) = (0 < a.align) × AllAligned rest

abbrev pub stack_top : Allocator → ℕ
stack_top s = last_end alloca_end 0 s.allocas

module _ (align_to : ℕ → ℕ → ℕ) (ok : IsAlignTo align_to) where
  pre_alloc-IsLayout :
      (a : Alloca) (s : Allocator)
      → 0 < a.align
      → stack_top s + (mem_sz a + 2 * a.align) ≤ 2 ^ 32
      → IsLayout s
      → IsLayout (pre_alloc align_to a s)
        × (stack_top (pre_alloc align_to a s) ≤ stack_top s + (mem_sz a + 2 * a.align))
  unfolding pre_alloc
  pre_alloc-IsLayout a s h b l =
      let (l', fits, m, top) =
        push_alloca-IsLayout align_to ok (some a.inst) (mem_sz a) a.align (is_fixed a) s h
          (omega arith) l in
      (l', omega (arith, fits.tight, top))

  -- Every stretch of allocas keeps the order, and takes no more than its space.
  on_function_entry_stretch :
      (list post : List Alloca) (s : Allocator)
      → AllAligned (list ++ post)
      → stack_top s + space (list ++ post) ≤ 2 ^ 32
      → IsLayout s
      → IsLayout (on_function_entry align_to list s)
        × (stack_top (on_function_entry align_to list s) + space post ≤ 2 ^ 32)
        × AllAligned post
  unfolding on_function_entry
  on_function_entry_stretch [] post s h b l = (l, b, h)
  on_function_entry_stretch (a ∷ rest) post s h b l =
      let (l', top) = pre_alloc-IsLayout a s h.0 (omega arith) l in
      on_function_entry_stretch rest post (pre_alloc align_to a s) h.1 (omega arith) l'

  on_function_entry_whole :
      (list : List Alloca) (s : Allocator)
      → AllAligned list
      → stack_top s + space list ≤ 2 ^ 32
      → IsLayout s
      → IsLayout (on_function_entry align_to list s)
  on_function_entry_whole list s h b l =
      (on_function_entry_stretch list [] s (rw (append-nil list) h) (rw (append-nil list) b) l).0

find_alloca-append :
    (i : ℕ) (xs : List AllocInfo) (x y : AllocInfo)
    → find_alloca i xs ≡ some x
    → find_alloca i (xs ++ y ∷ []) ≡ some x
unfolding find_alloca
find_alloca-append i [] x y h = cc
find_alloca-append i (z ∷ xs) x y h = ground (arith, find_alloca-append i xs x y)

find_alloca_new :
    (i : ℕ) (xs : List AllocInfo) (y : AllocInfo)
    → find_alloca i xs ≡ none
    → y.inst ≡ some i
    → find_alloca i (xs ++ y ∷ []) ≡ some y
unfolding find_alloca
find_alloca_new i [] y h e = ground arith
find_alloca_new i (z ∷ xs) y h e = ground (arith, find_alloca_new i xs y)

static_salloc-some :
    (i : ℕ) (s : Allocator) (x : AllocInfo)
    → find_alloca i s.allocas ≡ some x
    → static_salloc (some i) s ≡ (x.start, x.end)
unfolding static_salloc
static_salloc-some i s x h = ground arith

module _ (align_to : ℕ → ℕ → ℕ) where
  on_function_entry-append :
      (pre post : List Alloca) (s : Allocator)
      → on_function_entry align_to (pre ++ post) s
        ≡ on_function_entry align_to post (on_function_entry align_to pre s)
  unfolding on_function_entry
  on_function_entry-append [] post s = refl
  on_function_entry-append (a ∷ pre) post s =
      on_function_entry-append pre post (pre_alloc align_to a s)

  -- What was found before stays found.
  on_function_entry_keeps :
      (i : ℕ) (list : List Alloca) (s : Allocator) (x : AllocInfo)
      → find_alloca i s.allocas ≡ some x
      → find_alloca i (on_function_entry align_to list s).allocas ≡ some x
  unfolding on_function_entry pre_alloc push_alloca
  on_function_entry_keeps i [] s x h = h
  on_function_entry_keeps i (a ∷ rest) s x h =
      on_function_entry_keeps i rest (pre_alloc align_to a s) x
        (find_alloca-append i s.allocas x _ h)

  -- The object of an instruction that had none before.
  pre_alloc_found :
      (a : Alloca) (s : Allocator)
      → find_alloca a.inst s.allocas ≡ none
      → (x : AllocInfo) × (find_alloca a.inst (pre_alloc align_to a s).allocas ≡ some x)
        × ((x.start, x.end)
            ≡ (push_alloca align_to (some a.inst) (mem_sz a) a.align (is_fixed a) s).0)
  unfolding pre_alloc push_alloca
  pre_alloc_found a s h = (_, find_alloca_new a.inst s.allocas _ h refl, refl)

  -- So entering a function finds it at the end, too.
  static_salloc_found :
      (pre post : List Alloca) (a : Alloca) (s : Allocator)
      → find_alloca a.inst (on_function_entry align_to pre s).allocas ≡ none
      → static_salloc (some a.inst) (on_function_entry align_to (pre ++ a ∷ post) s)
        ≡ (push_alloca align_to
            (some a.inst)
            (mem_sz a)
            a.align
            (is_fixed a)
            (on_function_entry align_to pre s)).0
  unfolding on_function_entry
  static_salloc_found pre post a s h =
      let s1 = on_function_entry align_to pre s in
      let (x, found, e) = pre_alloc_found a s1 h in
      let s2 = on_function_entry align_to post (pre_alloc align_to a s1) in
      rw (on_function_entry-append pre (a ∷ post) s) (
        static_salloc-some a.inst s2 x
          (on_function_entry_keeps a.inst post (pre_alloc align_to a s1) x found)
        ∙ e)

-- Entering a function keeps the segments in order, and afterwards salloc gives each of its alloca
-- instructions that had no object before an interval behind the earlier objects that starts and ends at
-- multiples of its alignment, with room for its size (4096 bytes where the count is no constant). The
-- size has 32 bits, alignments are not zero, and 32 bits suffice for the stack.
pub on_function_entry-Fits :
    (align_to : ℕ → ℕ → ℕ) (pre post : List Alloca) (a : Alloca) (s : Allocator)
    → IsAlignTo align_to
    → AllAligned (pre ++ a ∷ post)
    → true_size a < 2 ^ 32
    → stack_top s + space (pre ++ a ∷ post) ≤ 2 ^ 32
    → find_alloca a.inst (on_function_entry align_to pre s).allocas ≡ none
    → IsLayout s
    → IsLayout (on_function_entry align_to (pre ++ a ∷ post) s)
      × Fits
          (stack_top (on_function_entry align_to pre s))
          (true_size a)
          a.align
          (static_salloc (some a.inst) (on_function_entry align_to (pre ++ a ∷ post) s))
      × ((static_salloc (some a.inst) (on_function_entry align_to (pre ++ a ∷ post) s)).0 % a.align
          ≡ 0)
unfolding on_function_entry
on_function_entry-Fits align_to pre post a s ok al narrow b h l =
    let (l1, b1, al1) = on_function_entry_stretch align_to ok pre (a ∷ post) s al b l in
    let s1 = on_function_entry align_to pre s in
    let l2 = on_function_entry_whole align_to ok (a ∷ post) s1 al1 b1 l1 in
    let (_, fits, starts, _) =
      push_alloca-IsLayout align_to ok (some a.inst) (mem_sz a) a.align (is_fixed a) s1 al1.0
        (omega arith) l1 in
    (
      rw (on_function_entry-append align_to pre (a ∷ post) s) l2,
      rw (static_salloc_found align_to pre post a s h) (
          subst
            (λ n.
              Fits (stack_top s1) n a.align
                (push_alloca align_to (some a.inst) (mem_sz a) a.align (is_fixed a) s1).0)
            (mem_sz_lem a narrow) fits),
      rw (static_salloc_found align_to pre post a s h) starts,
    )
