-- ===== src/Alloc/Tests.antt =====
-- Runs of the allocators with an alignTo by division.
use seahorn.Prelude.{
  ℕ, ◌+◌, ◌*◌, ◌/◌, ◌%◌, ◌-◌, ◌≡◌, refl, true, false, none, some, List, [], ◌∷◌, arith,
}
use seahorn.Alloc.{
  Allocator, FuncAllocInfo, GlobalAllocInfo, AddrInterval, code_end, brk0_addr, galloc, place_func,
  falloc, push_alloca, salloc, get_function_addr, get_global_addr,
}
use seahorn.Alloc.Layout.{IsAlignTo, IsLayout, Fits, galloc-IsLayout, falloc-IsLayout}
use seahorn.Alloc.Lookup.{addresses_stable}
use seahorn.Alloc.Static.{
  Alloca, Function, Global, static_falloc, static_salloc, on_function_entry, on_module_entry,
  place_functions, place_globals, pre_alloc, find_alloca,
}
use seahorn.Alloc.Static.Addresses.{static_addr_of_last}
use seahorn.Alloc.Static.ModuleEntry.{placed_funcs, placed_globals, on_module_entry-IsLayout}
use seahorn.Alloc.Static.Prealloc.{stack_top, on_function_entry-Fits}

abbrev up_to : ℕ → ℕ → ℕ
up_to v a = (v + a - 1) / a * a

up_to-IsAlignTo : IsAlignTo up_to
up_to-IsAlignTo = record {
  align_ge = λ v a h b. omega arith;
  align_lt = λ v a h b. omega arith;
  align_mod = λ v a h b. grind arith;
}

abbrev no_functions : Allocator
no_functions = record { allocas = []; funcs = []; globals = [] }

abbrev main_info : FuncAllocInfo
main_info = record { fn = 1; start = 0x08048000; end = 0x08048004 }

abbrev table_info : GlobalAllocInfo
table_info = record { gv = 7; start = 0x08048004; end = 0x08048010; sz = 12 }

abbrev loaded : Allocator
loaded = record { allocas = []; funcs = main_info ∷ []; globals = table_info ∷ [] }

loaded-IsLayout : IsLayout loaded
loaded-IsLayout = record {
  code = (omega arith, omega arith, tt);
  data_segment = (omega arith, omega arith, tt);
  stack = tt;
}

no_functions-IsLayout : IsLayout no_functions
no_functions-IsLayout = record { code = tt; data_segment = tt; stack = tt }

-- A pointer of four bytes, then an array with no constant count.
abbrev pointer_slot : Alloca
pointer_slot = record { inst = 20; type_sz = 4; count = some 1; align = 4 }

abbrev dynamic_array : Alloca
dynamic_array = record { inst = 21; type_sz = 8; count = none; align = 8 }

array_not_placed :
    find_alloca 21 (on_function_entry up_to (pointer_slot ∷ []) loaded).allocas ≡ none
unfolding find_alloca on_function_entry pre_alloc push_alloca
array_not_placed = refl

abbrev main_function : Function
main_function = record { fn = 1; address_taken = true; skipped = false; align = 4 }

abbrev table : Global
table = record { gv = 7; skipped = false; metadata = false; bytes = 12; align = 4 }

on_module_entry_run :
    on_module_entry up_to (main_function ∷ []) (table ∷ []) no_functions ≡ some loaded
unfolding on_module_entry place_functions place_globals falloc place_func galloc
on_module_entry_run = refl

galloc-IsLayout_example :
    IsLayout (galloc up_to 8 10 4 loaded).1
    × Fits (brk0_addr loaded) 10 4 (galloc up_to 8 10 4 loaded).0
    × ((galloc up_to 8 10 4 loaded).0.0 % 4 ≡ 0)
    × (brk0_addr (galloc up_to 8 10 4 loaded).1 ≡ (galloc up_to 8 10 4 loaded).0.1)
galloc-IsLayout_example =
    galloc-IsLayout up_to up_to-IsAlignTo 8 10 4 loaded (omega arith) (omega arith) loaded-IsLayout

galloc_run : (galloc up_to 8 10 4 loaded).0 ≡ (0x08048010, 0x0804801c)
unfolding galloc
galloc_run = refl

falloc-IsLayout_example :
    ((no_functions.globals ≡ [])
      → (r : AddrInterval) × (s' : Allocator) × (falloc up_to 1 4 no_functions ≡ some (r, s'))
        × (IsLayout s' × Fits (code_end no_functions) 4 4 r × (code_end s' ≡ r.1)))
    × ((g : GlobalAllocInfo) (gs : List GlobalAllocInfo)
        → no_functions.globals ≡ g ∷ gs
        → falloc up_to 1 4 no_functions ≡ none)
falloc-IsLayout_example =
    falloc-IsLayout up_to up_to-IsAlignTo 1 4 no_functions (omega arith) (omega arith)
      no_functions-IsLayout

salloc_run : (salloc up_to none 6 4 (salloc up_to none 5 8 loaded).1).0 ≡ (8, 16)
unfolding salloc push_alloca
salloc_run = refl

addresses_stable_example :
    ((a : ℕ) × (s' : Allocator) × (get_global_addr (galloc up_to) 8 10 4 loaded ≡ some (a, s'))
      × (get_global_addr (galloc up_to) 8 12 8 s' ≡ some (a, s')))
    × ((a : ℕ) × (t' : Allocator) × (get_function_addr (falloc up_to) 1 4 no_functions
          ≡ some (a, t'))
        × (get_function_addr (falloc up_to) 1 8 t' ≡ some (a, t')))
addresses_stable_example = addresses_stable up_to 8 10 4 12 8 1 loaded no_functions refl

-- A function that is left out by name, and a global that is metadata.
abbrev left_out : Function
left_out = record { fn = 3; address_taken = true; skipped = true; align = 4 }

abbrev notes : Global
notes = record { gv = 8; skipped = false; metadata = true; bytes = 16; align = 8 }

placed_run :
    on_module_entry up_to (left_out ∷ main_function ∷ []) (notes ∷ table ∷ []) no_functions
    ≡ some loaded
unfolding on_module_entry place_functions place_globals falloc place_func galloc
placed_run = refl

static_addr_of_last_example :
    (a : ℕ) × (get_function_addr static_falloc 3 4 loaded ≡ some (a, loaded))
    × (get_function_addr static_falloc 1 4 loaded ≡ some (a, loaded))
static_addr_of_last_example =
    static_addr_of_last up_to (left_out ∷ main_function ∷ []) (notes ∷ table ∷ []) no_functions
      loaded [] 3 1 4 refl refl placed_run refl (λ n. n) (λ n. ground arith)

on_function_entry-Fits_example :
    IsLayout (on_function_entry up_to (pointer_slot ∷ dynamic_array ∷ []) loaded)
    × Fits (stack_top (on_function_entry up_to (pointer_slot ∷ []) loaded)) 4096 8 (
        static_salloc
          (some 21)
          (on_function_entry up_to (pointer_slot ∷ dynamic_array ∷ []) loaded))
    × ((static_salloc
            (some 21)
            (on_function_entry up_to (pointer_slot ∷ dynamic_array ∷ []) loaded)).0
          % 8
        ≡ 0)
on_function_entry-Fits_example =
    on_function_entry-Fits up_to (pointer_slot ∷ []) [] dynamic_array loaded up_to-IsAlignTo
      (omega arith, (omega arith, tt)) (omega arith) (omega arith) array_not_placed loaded-IsLayout

on_module_entry-IsLayout_example :
    (s' : Allocator) × (on_module_entry up_to
        (left_out ∷ main_function ∷ [])
        (notes ∷ table ∷ [])
        no_functions
      ≡ some s')
    × IsLayout s'
    × (placed_funcs s'.funcs ≡ 1 ∷ [])
    × (placed_globals s'.globals ≡ (7, 12) ∷ [])
on_module_entry-IsLayout_example =
    on_module_entry-IsLayout up_to (left_out ∷ main_function ∷ []) (notes ∷ table ∷ []) no_functions
      up_to-IsAlignTo (omega arith, (omega arith, tt)) (omega arith, (omega arith, tt))
      (omega arith) refl no_functions-IsLayout
