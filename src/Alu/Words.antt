-- ===== src/Alu/Words.antt =====
-- The operations of SMT-LIB's bit-vectors on numbers below `2 ^ w`.
use seahorn.Prelude.{
  ℕ, zero, suc, ◌+◌, ◌-◌, ◌*◌, ◌/◌, ◌%◌, ◌^◌, Bool, not, ◌&&◌, ◌||◌, leb, ◌==◌, if◌then◌else◌,
}
use seahorn.Alu.Terms.{ℤ, pos, negsuc, BoolOp, and, or, xor}

-- The sign bit's weight.
abbrev pub half : ℕ → ℕ
half w = 2 ^ (w - 1)

abbrev pub bit : Bool → ℕ
bit b = if b then 1 else 0

unfoldable pub num_value : ℕ → ℤ → ℕ
num_value w (pos n) = n % 2 ^ w
num_value w (negsuc n) = 2 ^ w - 1 - n % 2 ^ w

abbrev pub bool_op : BoolOp → Bool → Bool → Bool
bool_op and a b = a && b
bool_op or a b = a || b
bool_op xor a b = if a then not b else b

-- a Boolean operation on each of `w` bits
unfoldable pub bitwise : BoolOp → ℕ → ℕ → ℕ → ℕ
bitwise op zero x y = 0
bitwise op (suc w) x y =
    bit (bool_op op (x % 2 == 1) (y % 2 == 1)) + 2 * bitwise op w (x / 2) (y / 2)

unfoldable pub bv_add : ℕ → ℕ → ℕ → ℕ
bv_add w x y = (x + y) % 2 ^ w

unfoldable pub bv_neg : ℕ → ℕ → ℕ
bv_neg w x = (2 ^ w - x) % 2 ^ w

unfoldable pub bv_sub : ℕ → ℕ → ℕ → ℕ
bv_sub w x y = (x + (2 ^ w - y)) % 2 ^ w

unfoldable pub bv_mul : ℕ → ℕ → ℕ → ℕ
bv_mul w x y = (x * y) % 2 ^ w

-- division by zero gives all ones
unfoldable pub bv_udiv : ℕ → ℕ → ℕ → ℕ
bv_udiv w x y = if y == 0 then 2 ^ w - 1 else x / y

unfoldable pub bv_urem : ℕ → ℕ → ℕ → ℕ
bv_urem w x y = if y == 0 then x else x % y

-- the sign, and the magnitude of the number that a word stands for
abbrev pub negative : ℕ → ℕ → Bool
negative w x = leb (half w) x

abbrev pub magnitude : ℕ → ℕ → ℕ
magnitude w x = if negative w x then 2 ^ w - x else x

unfoldable pub bv_sdiv : ℕ → ℕ → ℕ → ℕ
unfolding bv_udiv bv_neg
bv_sdiv w x y =
    let q = bv_udiv w (magnitude w x) (magnitude w y) in
    if bool_op xor (negative w x) (negative w y) then bv_neg w q else q

unfoldable pub bv_srem : ℕ → ℕ → ℕ → ℕ
unfolding bv_urem bv_neg
bv_srem w x y =
    let r = bv_urem w (magnitude w x) (magnitude w y) in if negative w x then bv_neg w r else r

unfoldable pub bv_shl : ℕ → ℕ → ℕ → ℕ
bv_shl w x y = (x * 2 ^ y) % 2 ^ w

unfoldable pub bv_lshr : ℕ → ℕ → ℕ → ℕ
bv_lshr w x y = x / 2 ^ y

unfoldable pub bv_ashr : ℕ → ℕ → ℕ → ℕ
bv_ashr w x y = if negative w x then 2 ^ w - 1 - (2 ^ w - 1 - x) / 2 ^ y else x / 2 ^ y

-- `signed` order through the number plus `half w`, which is never negative
abbrev pub biased : ℕ → ℕ → ℕ
biased w x = if negative w x then x - half w else x + half w
