-- ===== src/Runtime.antt =====
-- sea-rt/seahorn_mem.cpp: the memory that a counterexample harness runs with. Addresses that the program
-- invents (abstract) are mapped to blocks of the host (physical).
pub mod Regions
pub mod Resolve
pub mod Blocks
pub mod Alloc
mod Tests
use seahorn.Prelude.{
  ◌||◌, ℕ, zero, suc, ◌+◌, ◌-◌, ◌*◌, ◌/◌, ◌%◌, ◌^◌, Bool, true, false, ◌&&◌, Option, none, some,
  List, [], ◌∷◌, ◌==◌, ltb, leb, if◌then◌else◌,
}

-- Addresses lie below 2 ^ 63, where intptr_t is not negative.
abbrev pub Addr : Type 0
Addr = ℕ

-- Both maps and the bytes of the host. `absptrmap` is sorted by std::greater.
pub record Runtime : Type 0 where
  pub absptrmap : List (Addr × Addr)
  pub concr : List (Addr × Addr)
  pub mem : Addr → ℕ

unfoldable pub find_key : Addr → List (Addr × Addr) → Option Addr
find_key k [] = none
find_key k ((k', v) ∷ rest) = if k == k' then some v else find_key k rest

-- The first entry whose key is not greater than `k`.
unfoldable pub lower_bound : Addr → List (Addr × Addr) → Option (Addr × Addr)
lower_bound k [] = none
lower_bound k ((k', v) ∷ rest) = if leb k' k then some (k', v) else lower_bound k rest

-- m[k] = v in a map with std::greater.
unfoldable pub map_put : Addr → Addr → List (Addr × Addr) → List (Addr × Addr)
map_put k v [] = (k, v) ∷ []
map_put k v ((k', v') ∷ rest) =
    if ltb k' k
    then (k, v) ∷ (k', v') ∷ rest
    else if k == k'
    then (k, v) ∷ rest
    else (k', v') ∷ map_put k v rest

-- m[k] = v where the order of keys is of no use.
unfoldable pub concr_put : Addr → Addr → List (Addr × Addr) → List (Addr × Addr)
concr_put k v [] = (k, v) ∷ []
concr_put k v ((k', v') ∷ rest) = if k == k' then (k, v) ∷ rest else (k', v') ∷ concr_put k v rest

-- __seahorn_get_abs_base_address; 0 where there is none.
unfoldable pub get_abs_base_address : Addr → Runtime → Addr
get_abs_base_address ip s = elim (lower_bound (ip + 1) s.absptrmap) [
  | none ↦ 0
  | some (lb, ub) ↦ if leb lb ip && ltb ip ub then lb else 0
]

-- __emv
unfoldable pub emv : Addr → Runtime → Addr
emv p s =
    let ab = get_abs_base_address p s in
    if ab == 0 then p else elim (find_key ab s.concr) [ none ↦ p | some pb ↦ pb + (p - ab) ]

-- How store and load find the physical address; `none` is exit(1).
unfoldable pub physical : Addr → Runtime → Option Addr
physical p s =
    let base = get_abs_base_address p s in
    if base == 0
    then some p
    else elim (find_key base s.concr) [ none ↦ none | some pb ↦ some (pb + (p - base)) ]

-- Byte `k`, below 8, of a little-endian 64-bit value.
abbrev pub val_byte : ℕ → ℕ → ℕ
val_byte val k = val / 256 ^ k % 256

-- memcpy of `sz` bytes, at most 8, of a 64-bit value.
unfoldable pub copy_value : Addr → ℕ → ℕ → (Addr → ℕ) → Addr → ℕ
copy_value p val sz mem a = if leb p a && ltb a (p + sz) then val_byte val (a - p) else mem a

-- memcpy between blocks that do not overlap.
unfoldable pub copy : Addr → Addr → ℕ → (Addr → ℕ) → Addr → ℕ
copy dst src sz mem a = if leb dst a && ltb a (dst + sz) then mem (src + (a - dst)) else mem a

-- The loop of __seahorn_mem_alloc from index `i`, for `count` more elements, where the unsigned index
-- does not wrap around.
unfoldable pub fill : Addr → ℕ → ℕ → ℕ → ℕ → (Addr → ℕ) → Addr → ℕ
fill p val sz i zero mem = mem
fill p val sz i (suc count) mem = fill p val sz (suc i) count (copy_value (p + i * sz) val sz mem)

-- __seahorn_mem_alloc, where `block` is what malloc returned; `none` is exit(1), a division by zero, a
-- copy from behind the 64-bit value, or a loop that never ends, since its index has 32 bits.
unfoldable pub mem_alloc : Addr → Addr → ℕ → ℕ → Option Addr → Runtime → Option Runtime
mem_alloc start end val sz block s = if leb end start then none else elim block [
  | none ↦ none
  | some p ↦
      if sz == 0 || (ltb 8 sz && leb sz (end - start)) || leb (2 ^ 32) ((end - start) / sz)
      then none
      else some record {
        absptrmap = map_put start end s.absptrmap;
        concr = concr_put start p s.concr;
        mem = fill p val sz 0 ((end - start) / sz) s.mem;
      }
]

-- __seahorn_mem_init; `none` is a region without a block, or a copy from behind the 64-bit value.
unfoldable pub mem_init : Addr → ℕ → ℕ → Runtime → Option Runtime
mem_init addr val sz s =
    let base = get_abs_base_address addr s in
    if base == 0 then some s else if ltb 8 sz then none else elim (find_key base s.concr) [
      | none ↦ none
      | some p ↦ some (record s { mem = copy_value (p + (addr - base)) val sz s.mem })
    ]

-- __seahorn_mem_store and __seahorn_mem_load: both look up the source first.
unfoldable pub mem_store : Addr → Addr → ℕ → Runtime → Option Runtime
mem_store src dst sz s = elim (physical src s) [
  | none ↦ none
  | some p_src ↦ elim (physical dst s) [
    | none ↦ none
    | some p_dst ↦ some (record s { mem = copy p_dst p_src sz s.mem })
  ]
]

unfoldable pub mem_load : Addr → Addr → ℕ → Runtime → Option Runtime
mem_load dst src sz s = elim (physical src s) [
  | none ↦ none
  | some p_src ↦ elim (physical dst s) [
    | none ↦ none
    | some p_dst ↦ some (record s { mem = copy p_dst p_src sz s.mem })
  ]
]
