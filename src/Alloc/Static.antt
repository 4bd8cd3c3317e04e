-- ===== src/Alloc/Static.antt =====
-- StaticOpSemAllocator of lib/seahorn/BvOpSem2Allocators.cc: everything is placed before execution.
pub mod Prealloc
pub mod ModuleEntry
pub mod Addresses
use seahorn.Prelude.{
  ℕ, ◌*◌, Bool, true, false, ◌&&◌, ◌||◌, not, Option, none, some, List, [], ◌∷◌, ◌==◌,
  if◌then◌else◌,
}
use seahorn.Alloc.{
  u32, AddrInterval, Allocator, AllocInfo, FuncAllocInfo, GlobalAllocInfo, find_func, find_global,
  galloc, falloc, push_alloca,
}

-- What onModuleEntry reads of a function: `skipped` is the test on its name.
pub record Function : Type 0 where
  pub fn : ℕ
  pub address_taken : Bool
  pub skipped : Bool
  pub align : ℕ

-- What it reads of a global: `skipped` is Bv2OpSem::isSkipped, `metadata` the test on its section.
pub record Global : Type 0 where
  pub gv : ℕ
  pub skipped : Bool
  pub metadata : Bool
  pub bytes : ℕ
  pub align : ℕ

-- An alloca instruction: the size of its element type, its element count if that is a constant, and
-- its alignment.
pub record Alloca : Type 0 where
  pub inst : ℕ
  pub type_sz : ℕ
  pub count : Option ℕ
  pub align : ℕ

-- The overrides of galloc and falloc look up what was placed; (0, 0) means that nothing was.
unfoldable pub static_galloc : ℕ → ℕ → ℕ → Allocator → AddrInterval × Allocator
static_galloc g bytes align s = elim (find_global g s.globals) [
  | some i ↦ ((i.start, i.end), s)
  | none ↦ ((0, 0), s)
]

unfoldable pub static_falloc : ℕ → ℕ → Allocator → Option (AddrInterval × Allocator)
static_falloc f align s = elim (find_func f s.funcs) [
  | some i ↦ some ((i.start, i.end), s)
  | none ↦ some ((0, 0), s)
]

abbrev pub is_inst : Option ℕ → ℕ → Bool
is_inst none i = false
is_inst (some j) i = j == i

unfoldable pub find_alloca : ℕ → List AllocInfo → Option AllocInfo
find_alloca i [] = none
find_alloca i (a ∷ rest) = if is_inst a.inst i then some a else find_alloca i rest

-- salloc(unsigned, uint32_t); `current` is the current instruction if it is an alloca.
unfoldable pub static_salloc : Option ℕ → Allocator → AddrInterval
static_salloc none s = (0, 0)
static_salloc (some i) s = elim (find_alloca i s.allocas) [
  | some a ↦ (a.start, a.end)
  | none ↦ (0, 0)
]

abbrev pub mem_sz : Alloca → ℕ
mem_sz a = elim a.count [ some n ↦ u32 (u32 a.type_sz * u32 n) | none ↦ 4096 ]

abbrev pub is_fixed : Alloca → Bool
is_fixed a = elim a.count [ some n ↦ true | none ↦ false ]

module _ (align_to : ℕ → ℕ → ℕ) where
  -- preAlloc(const AllocaInst &)
  unfoldable pub pre_alloc : Alloca → Allocator → Allocator
  pre_alloc a s = (push_alloca align_to (some a.inst) (mem_sz a) a.align (is_fixed a) s).1

  unfoldable pub on_function_entry : List Alloca → Allocator → Allocator
  on_function_entry [] s = s
  on_function_entry (a ∷ rest) s = on_function_entry rest (pre_alloc a s)

  unfoldable pub place_functions : List Function → Allocator → Option Allocator
  place_functions [] s = some s
  place_functions (f ∷ fs) s =
      if f.address_taken && not f.skipped
      then elim (falloc align_to f.fn f.align s) [
        | none ↦ none
        | some (r, s') ↦ place_functions fs s'
      ]
      else place_functions fs s

  unfoldable pub place_globals : List Global → Allocator → Allocator
  place_globals [] s = s
  place_globals (g ∷ gs) s =
      if g.skipped || g.metadata
      then place_globals gs s
      else place_globals gs (galloc align_to g.gv g.bytes g.align s).1

  unfoldable pub on_module_entry : List Function → List Global → Allocator → Option Allocator
  on_module_entry fs gs s = elim (place_functions fs s) [
    | none ↦ none
    | some s' ↦ some (place_globals gs s')
  ]
