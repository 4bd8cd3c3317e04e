-- ===== src/Alloc.antt =====
-- lib/seahorn/BvOpSem2Allocators.cc: where functions, globals and stack objects are placed.
pub mod Intervals
pub mod Static
pub mod Layout
pub mod Lookup
mod Tests
use seahorn.Prelude.{
  ℕ, suc, ◌+◌, ◌*◌, ◌%◌, ◌^◌, Bool, true, false, not, ◌&&◌, Option, none, some, List, [], ◌∷◌, ◌++◌,
  length, ◌==◌, if◌then◌else◌,
}
use mathlib.Core.Option
use seahorn.Alloc.Intervals.{last_end}

-- Conversion to `unsigned` and to `uint64_t`.
abbrev pub u32 : ℕ → ℕ
u32 n = n % 2 ^ 32

abbrev pub u64 : ℕ → ℕ
u64 n = n % 2 ^ 64

abbrev pub text_segment_start : ℕ
text_segment_start = 0x08048000

-- Functions, globals and instructions are known by their addresses on the host.
pub record FuncAllocInfo : Type 0 where
  pub fn : ℕ
  pub start : ℕ
  pub end : ℕ

pub record GlobalAllocInfo : Type 0 where
  pub gv : ℕ
  pub start : ℕ
  pub end : ℕ
  pub sz : ℕ

pub record AllocInfo : Type 0 where
  pub id : ℕ
  pub start : ℕ
  pub end : ℕ
  pub sz : ℕ
  pub inst : Option ℕ
  pub fixed : Bool

pub record Allocator : Type 0 where
  pub allocas : List AllocInfo
  pub funcs : List FuncAllocInfo
  pub globals : List GlobalAllocInfo

abbrev pub AddrInterval : Type 0
AddrInterval = ℕ × ℕ

abbrev pub func_end : FuncAllocInfo → ℕ
func_end i = i.end

abbrev pub global_end : GlobalAllocInfo → ℕ
global_end i = i.end

abbrev pub alloca_end : AllocInfo → ℕ
alloca_end i = i.end

abbrev pub code_end : Allocator → ℕ
code_end s = last_end func_end text_segment_start s.funcs

-- OpSemAllocator::brk0Addr
abbrev pub brk0_addr : Allocator → ℕ
brk0_addr s = last_end global_end (code_end s) s.globals

unfoldable pub find_func : ℕ → List FuncAllocInfo → Option FuncAllocInfo
find_func f [] = none
find_func f (i ∷ is) = if i.fn == f then some i else find_func f is

unfoldable pub find_global : ℕ → List GlobalAllocInfo → Option GlobalAllocInfo
find_global g [] = none
find_global g (i ∷ is) = if i.gv == g then some i else find_global g is

abbrev pub last_of {ℓ} : {A : Type ℓ} → List A → Option A
last_of [] = none
last_of (x ∷ []) = some x
last_of (x ∷ y ∷ ys) = last_of (y ∷ ys)

-- `align_to` is llvm::alignTo.
module _ (align_to : ℕ → ℕ → ℕ) where
  -- OpSemAllocator::galloc
  unfoldable pub galloc : ℕ → ℕ → ℕ → Allocator → AddrInterval × Allocator
  galloc g bytes align s =
      let start = u32 (align_to (brk0_addr s) align) in
      let end = u32 (align_to (u64 (start + bytes)) align) in
      (
        (start, end),
        record s {
          globals = s.globals ++ record { gv = g; start = start; end = end; sz = u32 bytes } ∷ [];
        },
      )

  -- OpSemAllocator::falloc after its assertion.
  unfoldable pub place_func : ℕ → ℕ → Allocator → AddrInterval × Allocator
  place_func f align s =
      let start = code_end s in
      let end = u32 (align_to (u32 (start + 4)) align) in
      (
        (start, end),
        record s { funcs = s.funcs ++ record { fn = f; start = start; end = end } ∷ [] },
      )

  -- `none` is the failed assertion that no global was allocated before.
  unfoldable pub falloc : ℕ → ℕ → Allocator → Option (AddrInterval × Allocator)
  unfolding place_func
  falloc f align s = elim s.globals [ [] ↦ some (place_func f align s) | g ∷ gs ↦ none ]

  -- The new stack object of NormalOpSemAllocator::salloc and StaticOpSemAllocator::preAlloc.
  unfoldable pub push_alloca : Option ℕ → ℕ → ℕ → Bool → Allocator → AddrInterval × Allocator
  push_alloca i bytes align fix s =
      let start = u32 (align_to (last_end alloca_end 0 s.allocas) align) in
      let end = u32 (align_to (u32 (start + bytes)) align) in
      (
        (start, end),
        record s {
          allocas =
              s.allocas
              ++ record {
                id = length s.allocas + 1;
                start = start;
                end = end;
                sz = bytes;
                inst = i;
                fixed = fix;
              }
                ∷ [];
        },
      )

  -- NormalOpSemAllocator::salloc; the instruction is the current one, if it is an alloca.
  unfoldable pub salloc : Option ℕ → ℕ → ℕ → Allocator → AddrInterval × Allocator
  unfolding push_alloca
  salloc current bytes align s = push_alloca current bytes align true s

-- getFunctionAddr, with the class's own `falloc`: `none` is a read of an empty vector or the failed
-- assertion.
unfoldable pub get_function_addr :
    (ℕ → ℕ → Allocator → Option (AddrInterval × Allocator))
    → ℕ
    → ℕ
    → Allocator
    → Option (ℕ × Allocator)
get_function_addr virtual_falloc f align s = elim (find_func f s.funcs) [
  | some i ↦ some (i.start, s)
  | none ↦ elim (virtual_falloc f align s) [
    | none ↦ none
    | some (r, s') ↦ Option.map (λ l. (l.start, s')) (last_of s'.funcs)
  ]
]

-- getGlobalVariableAddr, with the class's own `galloc`.
unfoldable pub get_global_addr :
    (ℕ → ℕ → ℕ → Allocator → AddrInterval × Allocator)
    → ℕ
    → ℕ
    → ℕ
    → Allocator
    → Option (ℕ × Allocator)
get_global_addr virtual_galloc g bytes align s = elim (find_global g s.globals) [
  | some i ↦ some (i.start, s)
  | none ↦
      let (r, s') = virtual_galloc g bytes align s in
      Option.map (λ l. (l.start, s')) (last_of s'.globals)
]
