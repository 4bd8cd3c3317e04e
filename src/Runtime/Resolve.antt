-- ===== src/Runtime/Resolve.antt =====
-- From an abstract address to its region and its physical address.
use seahorn.Prelude.{
  ◌+◌, ◌-◌, ◌≤◌, ◌<◌, ◌≡◌, ◌⊎◌, inl, inr, none, some, arith, Option-cases, Bool-cases, ◌&&◌, leb,
  ltb,
}
use seahorn.Runtime.{Addr, Runtime, find_key, lower_bound, get_abs_base_address, physical, emv}
use seahorn.Runtime.Regions.{
  Regions, find_key-bounds, lower_bound_sound, lower_bound_complete, lower_bound_exact,
}

-- The regions are in order below 2 ^ 63, and each has a block.
pub record IsRuntime (s : Runtime) : Type 0 where
  pub top : Addr
  pub regions : Regions top s.absptrmap
  pub blocks :
      (lb ub : Addr)
      → find_key lb s.absptrmap ≡ some ub
      → (p : Addr) × (find_key lb s.concr ≡ some p)

-- An address of the region that begins at `lb` and ends at `ub`, with no region right behind the address.
pub record InRegion (ip lb ub : Addr) (s : Runtime) : Type 0 where
  pub entry : find_key lb s.absptrmap ≡ some ub
  pub low : lb ≤ ip
  pub high : ip < ub
  pub gap : find_key (ip + 1) s.absptrmap ≡ none

base_found :
    (ip lb ub : Addr) (s : Runtime)
    → IsRuntime s
    → InRegion ip lb ub s
    → (get_abs_base_address ip s ≡ lb) × (0 < lb)
unfolding get_abs_base_address
base_found ip lb ub s ok i =
    let (pos, _, _) = find_key-bounds ok.top lb ub s.absptrmap ok.regions i.entry in
    let found =
      lower_bound_complete ok.top ip lb ub s.absptrmap ok.regions i.entry i.low i.high i.gap in
    let low = i.low in let high = i.high in (ground (arith, found, low, high), pos)

base_sound :
    (ip : Addr) (s : Runtime)
    → IsRuntime s
    → (get_abs_base_address ip s ≡ 0)
      ⊎ ((ub : Addr) × (find_key (get_abs_base_address ip s) s.absptrmap ≡ some ub)
          × (get_abs_base_address ip s ≤ ip)
          × (ip < ub))
unfolding get_abs_base_address
base_sound ip s ok = elim (Option-cases (lower_bound (ip + 1) s.absptrmap)) [
  | inl missing ↦ inl (ground (arith, missing))
  | inr (r, found) ↦
      let sound = lower_bound_sound ok.top (ip + 1) r.0 r.1 s.absptrmap ok.regions found in
      elim (Bool-cases (leb r.0 ip && ltb ip r.1)) [
        | inl inside ↦
            let e : get_abs_base_address ip s ≡ r.0 = ground (arith, found, inside) in
            let low : r.0 ≤ ip = ground (arith, inside) in
            let high : ip < r.1 = ground (arith, inside) in inr (r.1, rw e sound.0, rw e low, high)
        | inr outside ↦ inl (ground (arith, found, outside))
      ]
]

-- A base address that is not 0 is that of a region that contains the address; and every address of a
-- region is given the region's base, unless a region begins right behind the address.
pub get_abs_base_address_correct :
    (ip : Addr) (s : Runtime)
    → IsRuntime s
    → ((get_abs_base_address ip s ≡ 0)
        ⊎ ((ub : Addr) × (find_key (get_abs_base_address ip s) s.absptrmap ≡ some ub)
            × (get_abs_base_address ip s ≤ ip)
            × (ip < ub)))
      × ((lb ub : Addr) → InRegion ip lb ub s → get_abs_base_address ip s ≡ lb)
get_abs_base_address_correct ip s ok =
    (base_sound ip s ok, λ lb ub i. (base_found ip lb ub s ok i).0)

-- An address right below a region has no base address, although it may be the last one of another
-- region.
pub get_abs_base_address_adjacent :
    (ip ub : Addr) (s : Runtime)
    → IsRuntime s
    → find_key (ip + 1) s.absptrmap ≡ some ub
    → get_abs_base_address ip s ≡ 0
unfolding get_abs_base_address
get_abs_base_address_adjacent ip ub s ok h =
    let found = lower_bound_exact ok.top (ip + 1) ub s.absptrmap ok.regions h in
    ground (arith, found)

pub physical_found :
    (ip lb ub p : Addr) (s : Runtime)
    → IsRuntime s
    → InRegion ip lb ub s
    → find_key lb s.concr ≡ some p
    → (physical ip s ≡ some (p + (ip - lb))) × (emv ip s ≡ p + (ip - lb))
unfolding physical emv
physical_found ip lb ub p s ok i h =
    let (base, pos) = base_found ip lb ub s ok i in
    (ground (arith, base, pos, h), ground (arith, base, pos, h))

-- With a block for every region, an address always has a physical address, the one that __emv gives.
pub physical-emv : (ip : Addr) (s : Runtime) → IsRuntime s → physical ip s ≡ some (emv ip s)
unfolding physical emv
physical-emv ip s ok = elim (base_sound ip s ok) [
  | inl zero_base ↦ ground (arith, zero_base)
  | inr (ub, entry, _, _) ↦
      let (p, h) = ok.blocks (get_abs_base_address ip s) ub entry in ground (arith, h)
]
