-- ===== src/Runtime/Blocks.antt =====
-- The bytes after memcpy and after the loop of __seahorn_mem_alloc, and transfers between addresses.
use seahorn.Prelude.{
  true, ℕ, zero, suc, ◌+◌, ◌-◌, ◌*◌, ◌≤◌, ◌<◌, ◌≡◌, refl, ◌∙◌, ◌⊎◌, inl, inr, some, ltb, leb, ◌&&◌,
  arith,
}
use seahorn.Runtime.{
  Addr, Runtime, val_byte, copy, copy_value, fill, physical, emv, mem_store, mem_load,
  get_abs_base_address,
}
use seahorn.Runtime.Resolve.{IsRuntime, physical-emv}

-- Two blocks with no byte in common.
abbrev pub NoOverlap : Addr → Addr → ℕ → Type 0
NoOverlap a b sz = (a + sz ≤ b) ⊎ (b + sz ≤ a)

copy_inside :
    (dst src sz j : ℕ) (mem : Addr → ℕ) → j < sz → copy dst src sz mem (dst + j) ≡ mem (src + j)
unfolding copy
copy_inside dst src sz j mem h =
    let inside : (leb dst (dst + j) && ltb (dst + j) (dst + sz)) ≡ true = ground arith in
    let e : dst + j - dst ≡ j = omega arith in rw (inside, e) refl

copy_outside :
    (dst src sz a : ℕ) (mem : Addr → ℕ) → (a < dst) ⊎ (dst + sz ≤ a) → copy dst src sz mem a ≡ mem a
unfolding copy
copy_outside dst src sz a mem h = ground arith

copy_value_inside :
    (p val sz j : ℕ) (mem : Addr → ℕ) → j < sz → copy_value p val sz mem (p + j) ≡ val_byte val j
unfolding copy_value
copy_value_inside p val sz j mem h =
    let inside : (leb p (p + j) && ltb (p + j) (p + sz)) ≡ true = ground arith in
    let e : p + j - p ≡ j = omega arith in rw (inside, e) refl

copy_value_outside :
    (p val sz a : ℕ) (mem : Addr → ℕ) → (a < p) ⊎ (p + sz ≤ a) → copy_value p val sz mem a ≡ mem a
unfolding copy_value
copy_value_outside p val sz a mem h = ground arith

pub fill_outside :
    (p val sz i count a : ℕ) (mem : Addr → ℕ)
    → (a < p + i * sz) ⊎ (p + (i + count) * sz ≤ a)
    → fill p val sz i count mem a ≡ mem a
unfolding fill
fill_outside p val sz i zero a mem h = refl
fill_outside p val sz i (suc count) a mem h =
    fill_outside p val sz (suc i) count a (copy_value (p + i * sz) val sz mem)
      (elim h [ inl low ↦ inl (omega arith) | inr high ↦ inr (omega arith) ])
    ∙ copy_value_outside (p + i * sz) val sz a mem
        (elim h [ inl low ↦ inl low | inr high ↦ inr (omega arith) ])

pub fill_inside :
    (p val sz i count e j : ℕ) (mem : Addr → ℕ)
    → e < count
    → j < sz
    → fill p val sz i count mem (p + (i + e) * sz + j) ≡ val_byte val j
unfolding fill
fill_inside p val sz i zero e j mem h k = ground arith
fill_inside p val sz i (suc count) zero j mem h k =
    let same : p + (i + 0) * sz + j ≡ p + i * sz + j = omega arith in
    rw same (
      fill_outside p val sz (suc i) count (p + i * sz + j) (copy_value (p + i * sz) val sz mem)
        (inl (omega arith))
      ∙ copy_value_inside (p + i * sz) val sz j mem k)
fill_inside p val sz i (suc count) (suc e) j mem h k =
    let same : p + (i + suc e) * sz + j ≡ p + (suc i + e) * sz + j = omega arith in
    rw same
      (fill_inside p val sz (suc i) count e j (copy_value (p + i * sz) val sz mem) (omega arith) k)

physical-mem :
    (p : Addr) (s : Runtime) (m : Addr → ℕ) → physical p (record s { mem = m }) ≡ physical p s
unfolding physical get_abs_base_address
physical-mem p s m = refl

mem_store_done :
    (src dst sz a b : ℕ) (s : Runtime)
    → physical src s ≡ some a
    → physical dst s ≡ some b
    → mem_store src dst sz s ≡ some (record s { mem = copy b a sz s.mem })
unfolding mem_store
mem_store_done src dst sz a b s h k = ground arith

mem_load_done :
    (dst src sz a b : ℕ) (s : Runtime)
    → physical src s ≡ some a
    → physical dst s ≡ some b
    → mem_load dst src sz s ≡ some (record s { mem = copy b a sz s.mem })
unfolding mem_load
mem_load_done dst src sz a b s h k = ground arith

-- Storing from one address and loading from where it was stored copies the bytes of the first source,
-- and both succeed; no other byte changes. Every region has a block; physical blocks do not overlap.
pub mem_load-mem_store :
    (src dst out sz : ℕ) (s : Runtime)
    → IsRuntime s
    → NoOverlap (emv src s) (emv dst s) sz
    → NoOverlap (emv dst s) (emv out s) sz
    → (s1 : Runtime) × (s2 : Runtime) × (mem_store src dst sz s ≡ some s1)
      × (mem_load out dst sz s1 ≡ some s2)
      × ((j : ℕ) → j < sz → s2.mem (emv out s + j) ≡ s.mem (emv src s + j))
      × ((a : Addr)
          → ((a < emv dst s) ⊎ (emv dst s + sz ≤ a))
          → ((a < emv out s) ⊎ (emv out s + sz ≤ a))
          → s2.mem a ≡ s.mem a)
mem_load-mem_store src dst out sz s ok apart1 apart2 =
    let m1 : Addr → ℕ = copy (emv dst s) (emv src s) sz s.mem in
    let s1 : Runtime = record s { mem = m1 } in
    let s2 : Runtime = record s { mem = copy (emv out s) (emv dst s) sz m1 } in
    (
      s1,
      s2,
      mem_store_done src dst sz (emv src s) (emv dst s) s (physical-emv src s ok)
          (physical-emv dst s ok),
      mem_load_done out dst sz (emv dst s) (emv out s) s1
          (physical-mem dst s m1 ∙ physical-emv dst s ok)
          (physical-mem out s m1 ∙ physical-emv out s ok),
      λ j h.
          copy_inside (emv out s) (emv dst s) sz j m1 h
          ∙ copy_inside (emv dst s) (emv src s) sz j s.mem h,
      λ a h k.
          copy_outside (emv out s) (emv dst s) sz a m1 k
          ∙ copy_outside (emv dst s) (emv src s) sz a s.mem h,
    )
