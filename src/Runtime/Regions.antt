-- ===== src/Runtime/Regions.antt =====
-- The map of abstract regions: sorted, apart, and what a search in it finds.
use seahorn.Prelude.{◌+◌, ◌≤◌, ◌<◌, ◌≡◌, ◌⊎◌, none, some, List, [], ◌∷◌, arith}
use seahorn.Runtime.{Addr, find_key, lower_bound, map_put}

-- Regions from the highest to the lowest, none empty, none at 0, each below the one before it.
abbrev pub Regions : Addr → List (Addr × Addr) → Type 0
Regions top [] = Unit
Regions top ((lb, ub) ∷ rest) = (0 < lb) × (lb < ub) × (ub ≤ top) × Regions lb rest

-- An interval that meets none of the regions.
abbrev pub Free : Addr → Addr → List (Addr × Addr) → Type 0
Free start end [] = Unit
Free start end ((lb, ub) ∷ rest) = ((ub ≤ start) ⊎ (end ≤ lb)) × Free start end rest

pub find_key-bounds :
    (top lb ub : Addr) (xs : List (Addr × Addr))
    → Regions top xs
    → find_key lb xs ≡ some ub
    → (0 < lb) × (lb < ub) × (ub ≤ top)
unfolding find_key
find_key-bounds top lb ub [] r h = ground arith
find_key-bounds top lb ub ((l, u) ∷ rest) r h = ground (arith, find_key-bounds l lb ub rest r.3)

pub lower_bound_sound :
    (top k lb ub : Addr) (xs : List (Addr × Addr))
    → Regions top xs
    → lower_bound k xs ≡ some (lb, ub)
    → (find_key lb xs ≡ some ub) × (lb ≤ k)
unfolding find_key lower_bound
lower_bound_sound top k lb ub [] r h = ground arith
lower_bound_sound top k lb ub ((l, u) ∷ rest) r h =
    ground (arith, lower_bound_sound l k lb ub rest r.3)

-- The region of an address is found, unless another one begins right behind the address.
pub lower_bound_complete :
    (top ip lb ub : Addr) (xs : List (Addr × Addr))
    → Regions top xs
    → find_key lb xs ≡ some ub
    → lb ≤ ip
    → ip < ub
    → find_key (ip + 1) xs ≡ none
    → lower_bound (ip + 1) xs ≡ some (lb, ub)
unfolding find_key lower_bound
lower_bound_complete top ip lb ub [] r h p q n = ground arith
lower_bound_complete top ip lb ub ((l, u) ∷ rest) r h p q n =
    ground (arith, lower_bound_complete l ip lb ub rest r.3, find_key-bounds l lb ub rest r.3)

pub lower_bound_exact :
    (top k ub : Addr) (xs : List (Addr × Addr))
    → Regions top xs
    → find_key k xs ≡ some ub
    → lower_bound k xs ≡ some (k, ub)
unfolding find_key lower_bound
lower_bound_exact top k ub [] r h = ground arith
lower_bound_exact top k ub ((l, u) ∷ rest) r h =
    ground (arith, lower_bound_exact l k ub rest r.3, find_key-bounds l k ub rest r.3)

pub map_put-Regions :
    (top start end : Addr) (xs : List (Addr × Addr))
    → 0 < start
    → start < end
    → end ≤ top
    → Free start end xs
    → Regions top xs
    → Regions top (map_put start end xs)
unfolding map_put
map_put-Regions top start end [] a b c f r = (a, b, c, tt)
map_put-Regions top start end ((l, u) ∷ rest) a b c f r =
    ground (arith, map_put-Regions l start end rest)

pub find_key-map_put :
    (k start end : Addr) (xs : List (Addr × Addr))
    → (find_key start (map_put start end xs) ≡ some end)
      × (¬ (k ≡ start) → find_key k (map_put start end xs) ≡ find_key k xs)
unfolding find_key map_put
find_key-map_put k start end [] = ground arith
find_key-map_put k start end ((l, u) ∷ rest) = ground (arith, find_key-map_put k start end rest)
