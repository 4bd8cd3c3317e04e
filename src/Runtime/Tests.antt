-- ===== src/Runtime/Tests.antt =====
-- Runs with two regions that touch, and a third one that is allocated.
use seahorn.Prelude.{
  ℕ, ◌+◌, ◌-◌, ◌*◌, ◌/◌, ◌≤◌, ◌<◌, ◌≡◌, refl, ◌⊎◌, inl, ℕ_discrete, some, [], ◌∷◌, arith,
}
use seahorn.Runtime.{
  Addr, Runtime, find_key, lower_bound, copy_value, val_byte, get_abs_base_address, emv, mem_alloc,
  mem_store, mem_load, mem_init,
}
use seahorn.Runtime.Resolve.{
  IsRuntime, InRegion, get_abs_base_address_correct, get_abs_base_address_adjacent,
}
use seahorn.Runtime.Blocks.{mem_load-mem_store}
use seahorn.Runtime.Alloc.{mem_alloc_correct}

abbrev touching : Runtime
touching = record {
  absptrmap = (108, 112) ∷ (100, 108) ∷ [];
  concr = (100, 1000) ∷ (108, 2000) ∷ [];
  mem = λ a. a;
}

touching_block :
    (lb ub : Addr)
    → find_key lb touching.absptrmap ≡ some ub
    → (p : Addr) × (find_key lb touching.concr ≡ some p)
unfolding find_key
touching_block lb ub h = elim (ℕ_discrete lb 100) [
  | yes e ↦ (1000, ground arith)
  | no n ↦ elim (ℕ_discrete lb 108) [ yes e' ↦ (2000, ground arith) | no n' ↦ ground arith ]
]

abbrev touching-IsRuntime : IsRuntime touching
touching-IsRuntime = record {
  top = 200;
  regions = (omega arith, omega arith, omega arith, (omega arith, omega arith, omega arith, tt));
  blocks = touching_block;
}

get_abs_base_address_correct_example :
    ((get_abs_base_address 103 touching ≡ 0)
      ⊎ ((ub : Addr) × (find_key (get_abs_base_address 103 touching) touching.absptrmap ≡ some ub)
          × (get_abs_base_address 103 touching ≤ 103)
          × (103 < ub)))
    × ((lb ub : Addr) → InRegion 103 lb ub touching → get_abs_base_address 103 touching ≡ lb)
get_abs_base_address_correct_example = get_abs_base_address_correct 103 touching touching-IsRuntime

base_run : get_abs_base_address 103 touching ≡ 100
unfolding get_abs_base_address lower_bound
base_run = refl

right_behind : find_key (107 + 1) touching.absptrmap ≡ some 112
unfolding find_key
right_behind = refl

-- 107 is the last address of the region from 100 to 108.
get_abs_base_address_adjacent_example : get_abs_base_address 107 touching ≡ 0
get_abs_base_address_adjacent_example =
    get_abs_base_address_adjacent 107 112 touching touching-IsRuntime right_behind

source_at : emv 100 touching ≡ 1000
unfolding emv get_abs_base_address lower_bound find_key
source_at = refl

target_at : emv 108 touching ≡ 2000
unfolding emv get_abs_base_address lower_bound find_key
target_at = refl

host_at : emv 3000 touching ≡ 3000
unfolding emv get_abs_base_address lower_bound find_key
host_at = refl

mem_load-mem_store_example :
    (s1 : Runtime) × (s2 : Runtime) × (mem_store 100 108 4 touching ≡ some s1)
    × (mem_load 3000 108 4 s1 ≡ some s2)
    × ((j : ℕ) → j < 4 → s2.mem (emv 3000 touching + j) ≡ touching.mem (emv 100 touching + j))
    × ((a : Addr)
        → ((a < emv 108 touching) ⊎ (emv 108 touching + 4 ≤ a))
        → ((a < emv 3000 touching) ⊎ (emv 3000 touching + 4 ≤ a))
        → s2.mem a ≡ touching.mem a)
mem_load-mem_store_example =
    mem_load-mem_store 100 108 3000 4 touching touching-IsRuntime
      (inl (omega (arith, source_at, target_at))) (inl (omega (arith, target_at, host_at)))

mem_alloc_correct_example :
    (s' : Runtime) × (mem_alloc 120 130 7 4 (some 4000) touching ≡ some s')
    × IsRuntime s'
    × ((ip : Addr) → InRegion ip 120 130 s' → emv ip s' ≡ 4000 + (ip - 120))
    × ((e j : ℕ) → e < (130 - 120) / 4 → j < 4 → s'.mem (4000 + e * 4 + j) ≡ val_byte 7 j)
    × ((a : Addr) → (a < 4000) ⊎ (4000 + (130 - 120) / 4 * 4 ≤ a) → s'.mem a ≡ touching.mem a)
mem_alloc_correct_example =
    mem_alloc_correct 120 130 7 4 4000 touching touching-IsRuntime (omega arith) (omega arith)
      (omega arith) (omega arith) (omega arith) (omega arith)
      (inl (omega arith), (inl (omega arith), tt))

-- The value 515 is stored with its lowest byte first.
mem_init_run :
    (s : Runtime) × (mem_init 108 515 4 touching ≡ some s)
    × (s.mem 2000 ≡ 3)
    × (s.mem 2001 ≡ 2)
    × (s.mem 2004 ≡ 2004)
unfolding mem_init get_abs_base_address lower_bound find_key copy_value
mem_init_run = (_, refl, refl, refl, refl)
