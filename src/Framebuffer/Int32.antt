-- ===== src/Framebuffer/Int32.antt =====
-- The remaining 32-bit operations of framebuffer.c. A signed number is its bit pattern and every result
-- wraps around.
use tutorial_os.Common.{ℕ, ◌+◌, ◌-◌, ◌*◌, ◌/◌, ◌%◌, ◌^◌, Bool, not, leb, if◌then◌else◌}
use tutorial_os.Framebuffer.{sub32, lt_i32}

abbrev pub mul32 : ℕ → ℕ → ℕ
mul32 a b = a * b % 2 ^ 32

abbrev pub neg32 : ℕ → ℕ
neg32 a = sub32 0 a

abbrev pub le_i32 : ℕ → ℕ → Bool
le_i32 a b = not (lt_i32 b a)

-- `x < 0`
abbrev pub is_negative : ℕ → Bool
is_negative x = leb (2 ^ 31) x

abbrev pub abs_i32 : ℕ → ℕ
abs_i32 x = if is_negative x then neg32 x else x

-- `a / b`, rounded towards zero
abbrev pub div_i32 : ℕ → ℕ → ℕ
div_i32 a b =
    let q = abs_i32 a / abs_i32 b in
    if is_negative a
    then (if is_negative b then q else neg32 q)
    else (if is_negative b then neg32 q else q)

-- `a >> 8`, rounded downwards
abbrev pub shift_right_8 : ℕ → ℕ
shift_right_8 a = if is_negative a then a / 2 ^ 8 + (2 ^ 32 - 2 ^ 24) else a / 2 ^ 8

-- -1
abbrev pub minus_one : ℕ
minus_one = 2 ^ 32 - 1
