-- ===== src/Runtime/Alloc.antt =====
-- __seahorn_mem_alloc: the new region, its block and its contents.
use seahorn.Prelude.{
  ℕ, ◌^◌, ◌+◌, ◌-◌, ◌*◌, ◌/◌, ◌≤◌, ◌<◌, ◌≡◌, ◌⊎◌, inl, inr, some, List, [], ◌∷◌, arith, ◌∙◌, sym,
  ℕ_discrete,
}
use seahorn.Runtime.{Addr, Runtime, find_key, map_put, concr_put, val_byte, fill, mem_alloc, emv}
use seahorn.Runtime.Regions.{Free, map_put-Regions, find_key-map_put}
use seahorn.Runtime.Resolve.{IsRuntime, InRegion, physical_found}
use seahorn.Runtime.Blocks.{fill_inside, fill_outside}

find_key-concr_put :
    (k start p : Addr) (xs : List (Addr × Addr))
    → (find_key start (concr_put start p xs) ≡ some p)
      × (¬ (k ≡ start) → find_key k (concr_put start p xs) ≡ find_key k xs)
unfolding find_key concr_put
find_key-concr_put k start p [] = ground arith
find_key-concr_put k start p ((l, u) ∷ rest) = ground (arith, find_key-concr_put k start p rest)

abbrev after_alloc : Addr → Addr → ℕ → ℕ → Addr → Runtime → Runtime
after_alloc start end val sz p s = record {
  absptrmap = map_put start end s.absptrmap;
  concr = concr_put start p s.concr;
  mem = fill p val sz 0 ((end - start) / sz) s.mem;
}

mem_alloc_done :
    (start end val sz p : ℕ) (s : Runtime)
    → start < end
    → 0 < sz
    → sz ≤ 8
    → (end - start) / sz < 2 ^ 32
    → mem_alloc start end val sz (some p) s ≡ some (after_alloc start end val sz p s)
unfolding mem_alloc
mem_alloc_done start end val sz p s h k b c = ground arith

after_alloc-IsRuntime :
    (start end val sz p : ℕ) (s : Runtime) (ok : IsRuntime s)
    → 0 < start
    → start < end
    → end ≤ ok.top
    → Free start end s.absptrmap
    → IsRuntime (after_alloc start end val sz p s)
after_alloc-IsRuntime start end val sz p s ok a b c f = record {
  top = ok.top;
  regions = map_put-Regions ok.top start end s.absptrmap a b c f ok.regions;
  blocks = λ lb ub h. elim (ℕ_discrete lb start) [
    | yes e ↦ (p, rw e (find_key-concr_put lb start p s.concr).0)
    | no n ↦
        let (q, k) = ok.blocks lb ub (sym ((find_key-map_put lb start end s.absptrmap).1 n) ∙ h) in
        (q, (find_key-concr_put lb start p s.concr).1 n ∙ k)
  ];
}

-- For a region that is not empty and meets no other, with fewer than 2^32 elements of one to eight bytes
-- and a block from malloc, mem_alloc succeeds, keeps the regions in order, each with a block, and fills the block with
-- copies of the value; every address of the region, unless another region begins right behind it, is at
-- its offset in the block. Nothing outside the block's elements is written.
pub mem_alloc_correct :
    (start end val sz p : ℕ) (s : Runtime) (ok : IsRuntime s)
    → 0 < start
    → start < end
    → 0 < sz
    → sz ≤ 8
    → (end - start) / sz < 2 ^ 32
    → end ≤ ok.top
    → Free start end s.absptrmap
    → (s' : Runtime) × (mem_alloc start end val sz (some p) s ≡ some s')
      × IsRuntime s'
      × ((ip : Addr) → InRegion ip start end s' → emv ip s' ≡ p + (ip - start))
      × ((e j : ℕ) → e < (end - start) / sz → j < sz → s'.mem (p + e * sz + j) ≡ val_byte val j)
      × ((a : Addr) → (a < p) ⊎ (p + (end - start) / sz * sz ≤ a) → s'.mem a ≡ s.mem a)
mem_alloc_correct start end val sz p s ok h0 h1 h2 b c h3 free =
    let s' = after_alloc start end val sz p s in
    let ok' = after_alloc-IsRuntime start end val sz p s ok h0 h1 h3 free in
    (
      s',
      mem_alloc_done start end val sz p s h1 h2 b c,
      ok',
      λ ip i.
          (physical_found ip start end p s' ok' i (find_key-concr_put start start p s.concr).0).1,
      λ e j h k.
          let same : p + e * sz + j ≡ p + (0 + e) * sz + j = omega arith in
          rw same (fill_inside p val sz 0 ((end - start) / sz) e j s.mem h k),
      λ a h.
          fill_outside p val sz 0 ((end - start) / sz) a s.mem
            (elim h [ inl low ↦ inl (omega arith) | inr high ↦ inr (omega arith) ]),
    )
