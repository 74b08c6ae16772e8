-- ===== src/Word.antt =====
-- 64-bit machine words: uintptr_t and size_t as native numbers below 2 ^ 64, with the wrap-around of
-- each operation written out.
pub mod Bits
pub mod Masks
pub mod TestBit
use tutorial_os.Common.{ℕ, ◌+◌, ◌-◌, ◌*◌, ◌/◌, ◌%◌, ◌^◌, bit_and}

abbrev pub word_mod : ℕ
word_mod = 2 ^ 64

-- `a + b`
abbrev pub add64 : ℕ → ℕ → ℕ
add64 a b = (a + b) % word_mod

-- `a - b`
abbrev pub sub64 : ℕ → ℕ → ℕ
sub64 a b = (a + word_mod - b) % word_mod

-- `~a`
abbrev pub not64 : ℕ → ℕ
not64 a = word_mod - 1 - a

-- `~a` of a uint32_t
abbrev pub not32 : ℕ → ℕ
not32 a = 2 ^ 32 - 1 - a

-- `1u << k` of a uint32_t, for a shift count below 32
abbrev pub bit32 : ℕ → ℕ
bit32 k = 2 ^ k % 2 ^ 32
