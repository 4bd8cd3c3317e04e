-- ===== src/Alloc/Layout.antt =====
-- Allocation keeps the segments in order, and gives aligned intervals of the size asked for.
use seahorn.Prelude.{
  ℕ, ◌+◌, ◌*◌, ◌%◌, ◌^◌, ◌≤◌, ◌<◌, ◌≡◌, Bool, Option, some, none, List, [], ◌∷◌, arith,
}
use seahorn.Alloc.Intervals.{last_end, last_end-append, Chain, Chain-append}
use seahorn.Alloc.{
  u32, u64, text_segment_start, FuncAllocInfo, GlobalAllocInfo, AllocInfo, Allocator, AddrInterval,
  func_end, global_end, alloca_end, code_end, brk0_addr, galloc, place_func, falloc, push_alloca,
}

-- llvm::alignTo: the next multiple of the alignment, which is not zero, where no sum passes 64 bits.
pub record IsAlignTo (align_to : ℕ → ℕ → ℕ) : Type 0 where
  pub align_ge : (v a : ℕ) → 0 < a → v + a ≤ 2 ^ 64 → v ≤ align_to v a
  pub align_lt : (v a : ℕ) → 0 < a → v + a ≤ 2 ^ 64 → align_to v a < v + a
  pub align_mod : (v a : ℕ) → 0 < a → v + a ≤ 2 ^ 64 → align_to v a % a ≡ 0

abbrev pub func_start : FuncAllocInfo → ℕ
func_start i = i.start

abbrev pub global_start : GlobalAllocInfo → ℕ
global_start i = i.start

abbrev pub alloca_start : AllocInfo → ℕ
alloca_start i = i.start

-- Functions from the text segment on, globals behind them, stack objects from 0 on.
pub record IsLayout (s : Allocator) : Type 0 where
  pub code : Chain func_start func_end text_segment_start s.funcs
  pub data_segment : Chain global_start global_end (code_end s) s.globals
  pub stack : Chain alloca_start alloca_end 0 s.allocas

-- An interval at or above `floor` with room for `bytes`, that ends at a multiple of `align` and is
-- shorter than `bytes` and two alignments.
pub record Fits (floor bytes align : ℕ) (r : AddrInterval) : Type 0 where
  pub above : floor ≤ r.0
  pub room : r.0 + bytes ≤ r.1
  pub tight : r.1 < floor + bytes + 2 * align
  pub end_aligned : r.1 % align ≡ 0

module _ (align_to : ℕ → ℕ → ℕ) (ok : IsAlignTo align_to) where
  open ok use {align_ge, align_lt, align_mod}

  u32_align :
      (v a : ℕ)
      → 0 < a
      → v + a ≤ 2 ^ 32
      → (v ≤ u32 (align_to v a)) × (u32 (align_to v a) < v + a) × (u32 (align_to v a) % a ≡ 0)
  u32_align v a h b =
      let ge : v ≤ align_to v a = align_ge v a h (omega arith) in
      let lt : align_to v a < v + a = align_lt v a h (omega arith) in
      let same : u32 (align_to v a) ≡ align_to v a = omega arith in
      (omega arith, omega arith, rw same (align_mod v a h (omega arith)))

  -- A start that was aligned, and an end that is.
  place_lem :
      (floor bytes align start w : ℕ)
      → 0 < align
      → floor + bytes + 2 * align ≤ 2 ^ 32
      → floor ≤ start
      → start < floor + align
      → w ≡ start + bytes
      → Fits floor bytes align (start, u32 (align_to w align))
  place_lem floor bytes align start w h b p q e =
      let (ge, lt, m) = u32_align w align h (omega arith) in
      record { above = p; room = omega arith; tight = omega arith; end_aligned = m }

  -- A global is aligned, lies behind all functions and globals, has its size, becomes the new break, and
  -- keeps the segments in order. The alignment is not zero and 32 bits suffice.
  pub galloc-IsLayout :
      (g bytes align : ℕ) (s : Allocator)
      → 0 < align
      → brk0_addr s + bytes + 2 * align ≤ 2 ^ 32
      → IsLayout s
      → IsLayout (galloc align_to g bytes align s).1
        × Fits (brk0_addr s) bytes align (galloc align_to g bytes align s).0
        × ((galloc align_to g bytes align s).0.0 % align ≡ 0)
        × (brk0_addr (galloc align_to g bytes align s).1 ≡ (galloc align_to g bytes align s).0.1)
  unfolding galloc
  galloc-IsLayout g bytes align s h b l =
      let (ge, lt, m) = u32_align (brk0_addr s) align h (omega arith) in
      let start = u32 (align_to (brk0_addr s) align) in
      let fits =
        place_lem (brk0_addr s) bytes align start (u64 (start + bytes)) h b ge lt (omega arith) in
      (
        record {
          code = l.code;
          data_segment =
              Chain-append global_start global_end (code_end s) s.globals _ l.data_segment
                fits.above (omega (arith, fits.room));
          stack = l.stack;
        },
        fits,
        m,
        last_end-append global_end (code_end s) s.globals _,
      )

  place_func_lem :
      (f align : ℕ) (s : Allocator)
      → 0 < align
      → code_end s + 4 + 2 * align ≤ 2 ^ 32
      → s.globals ≡ []
      → IsLayout s
      → IsLayout (place_func align_to f align s).1
        × Fits (code_end s) 4 align (place_func align_to f align s).0
        × (code_end (place_func align_to f align s).1 ≡ (place_func align_to f align s).0.1)
  unfolding place_func
  place_func_lem f align s h b e l =
      let fits =
        place_lem (code_end s) 4 align (code_end s) (u32 (code_end s + 4)) h b (omega arith)
          (omega arith) (omega arith) in
      (
        record {
          code =
              Chain-append func_start func_end text_segment_start s.funcs _ l.code fits.above
                (omega (arith, fits.room));
          data_segment = rw e tt;
          stack = l.stack;
        },
        fits,
        last_end-append func_end text_segment_start s.funcs _,
      )

  -- Before any global is allocated, falloc puts a function of four bytes behind the others and keeps
  -- the segments in order; afterwards it fails. The alignment is not zero and 32 bits suffice.
  pub falloc-IsLayout :
      (f align : ℕ) (s : Allocator)
      → 0 < align
      → code_end s + 4 + 2 * align ≤ 2 ^ 32
      → IsLayout s
      → ((s.globals ≡ [])
          → (r : AddrInterval) × (s' : Allocator) × (falloc align_to f align s ≡ some (r, s'))
            × (IsLayout s' × Fits (code_end s) 4 align r × (code_end s' ≡ r.1)))
        × ((g : GlobalAllocInfo) (gs : List GlobalAllocInfo)
            → s.globals ≡ g ∷ gs
            → falloc align_to f align s ≡ none)
  unfolding falloc
  falloc-IsLayout f align s h b l = (
    λ e. (
      (place_func align_to f align s).0,
      (place_func align_to f align s).1,
      ground arith,
      place_func_lem f align s h b e l,
    ),
    λ g gs e. ground arith,
  )

  -- A stack object is aligned, lies behind the others, has its size, and keeps the segments in order. The
  -- alignment is not zero and 32 bits suffice.
  pub push_alloca-IsLayout :
      (i : Option ℕ) (bytes align : ℕ) (fix : Bool) (s : Allocator)
      → 0 < align
      → last_end alloca_end 0 s.allocas + bytes + 2 * align ≤ 2 ^ 32
      → IsLayout s
      → IsLayout (push_alloca align_to i bytes align fix s).1
        × Fits
            (last_end alloca_end 0 s.allocas)
            bytes
            align
            (push_alloca align_to i bytes align fix s).0
        × ((push_alloca align_to i bytes align fix s).0.0 % align ≡ 0)
        × (last_end alloca_end 0 (push_alloca align_to i bytes align fix s).1.allocas
            ≡ (push_alloca align_to i bytes align fix s).0.1)
  unfolding push_alloca
  push_alloca-IsLayout i bytes align fix s h b l =
      let floor = last_end alloca_end 0 s.allocas in
      let (ge, lt, m) = u32_align floor align h (omega arith) in
      let start = u32 (align_to floor align) in
      let fits = place_lem floor bytes align start (u32 (start + bytes)) h b ge lt (omega arith) in
      (
        record {
          code = l.code;
          data_segment = l.data_segment;
          stack =
              Chain-append alloca_start alloca_end 0 s.allocas _ l.stack fits.above
                (omega (arith, fits.room));
        },
        fits,
        m,
        last_end-append alloca_end 0 s.allocas _,
      )
