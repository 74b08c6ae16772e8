-- ===== src/Word/Masks.antt =====
-- Low masks and single bits: `&` and `|` with the constants of the code, as arithmetic.
use native.Mathlib.Nat.{pow-suc, one-le-pow, div-div-eq-div-mul, div-add-mod, mul_comm}
use tutorial_os.Common.{
  ℕ, zero, suc, ◌+◌, ◌-◌, ◌*◌, ◌/◌, ◌%◌, ◌^◌, ◌<◌, bit_and, bit_or, ◌≡◌, refl, ◌∙◌, ap, arith,
}
use tutorial_os.Word.{not64}
use tutorial_os.Word.Bits.{by_halves, bit_and_halves, bit_or_halves}

pub bit_and-zero : (a : ℕ) → bit_and a 0 ≡ 0
bit_and-zero =
    by_halves (λ a. bit_and a 0 ≡ 0) refl (λ a h. omega (bit_and_halves (suc a) 0, h, arith))

pub bit_or-zero : (a : ℕ) → bit_or a 0 ≡ a
bit_or-zero =
    by_halves (λ a. bit_or a 0 ≡ a) refl (λ a h. omega (bit_or_halves (suc a) 0, h, arith))

mod_double : (a m : ℕ) → a % (m * 2) ≡ a / 2 % m * 2 + a % 2
mod_double a m =
    grind
      (arith, div-div-eq-div-mul a 2 m, mul_comm 2 m, div-add-mod a (m * 2), div-add-mod (a / 2) m)

half-mask : (k : ℕ) → (2 ^ k * 2 - 1) / 2 ≡ 2 ^ k - 1
half-mask k = omega arith

-- `&` with a mask of `k` ones is the remainder by `2 ^ k`
pub bit_and_ones : (k a : ℕ) → bit_and a (2 ^ k - 1) ≡ a % 2 ^ k
bit_and_ones zero a = omega (arith, bit_and-zero a)
bit_and_ones (suc k) a = rw (pow-suc 2 k) (
    bit_and_halves a (2 ^ k * 2 - 1)
    ∙ rw (half-mask k)
        (rw (bit_and_ones k (a / 2)) (omega (arith, mod_double a (2 ^ k), one-le-pow k 2))))

pub bit_and-one : (a : ℕ) → bit_and a 1 ≡ a % 2
bit_and-one a = bit_and_ones 1 a

pub bit_and-three : (a : ℕ) → bit_and a 3 ≡ a % 4
bit_and-three a = bit_and_ones 2 a

pub bit_and-two : (a : ℕ) → bit_and a 2 ≡ a / 2 % 2 * 2
bit_and-two a = omega (arith, bit_and_halves a 2, bit_and-one (a / 2))

-- the masks that clear low bits of a 64-bit word
pub bit_and-not64_one : (a : ℕ) → a < 2 ^ 64 → bit_and a (not64 1) ≡ a / 2 * 2
bit_and-not64_one a h = omega (arith, bit_and_halves a (not64 1), bit_and_ones 63 (a / 2))

pub bit_and-not64_two : (a : ℕ) → a < 2 ^ 64 → bit_and a (not64 2) ≡ a / 4 * 4 + a % 2
bit_and-not64_two a h =
    omega (arith, bit_and_halves a (not64 2), bit_and-not64_two_half (a / 2) (omega arith))
  where
    bit_and-not64_two_half : (b : ℕ) → b < 2 ^ 63 → bit_and b (2 ^ 63 - 2) ≡ b / 2 * 2
    bit_and-not64_two_half b p =
        omega (arith, bit_and_halves b (2 ^ 63 - 2), bit_and_ones 62 (b / 2))

pub bit_and-not64_three : (a : ℕ) → a < 2 ^ 64 → bit_and a (not64 3) ≡ a / 4 * 4
bit_and-not64_three a h = omega (
  arith,
  bit_and_halves a (not64 3),
  bit_and_halves (a / 2) (2 ^ 63 - 2),
  bit_and_ones 62 (a / 2 / 2),
)

pub bit_and-not64_seven : (a : ℕ) → a < 2 ^ 64 → bit_and a (not64 7) ≡ a / 8 * 8
bit_and-not64_seven a h = omega (
  arith,
  bit_and_halves a (not64 7),
  bit_and_halves (a / 2) (2 ^ 63 - 4),
  bit_and_halves (a / 2 / 2) (2 ^ 62 - 2),
  bit_and_ones 61 (a / 2 / 2 / 2),
)

-- the flag bits of a word
pub bit_or-one : (a : ℕ) → bit_or a 1 ≡ a / 2 * 2 + 1
bit_or-one a = omega (arith, bit_or_halves a 1, bit_or-zero (a / 2))

pub bit_or-two : (a : ℕ) → bit_or a 2 ≡ a / 4 * 4 + 2 + a % 2
bit_or-two a = omega (arith, bit_or_halves a 2, bit_or-one (a / 2))

-- `|` of a multiple of 4 and a value below 4 is their sum
pub bit_or_low : (a f : ℕ) → a % 4 ≡ 0 → f < 4 → bit_or a f ≡ a + f
bit_or_low a f h k = omega (
  arith,
  bit_or_halves a f,
  bit_or_halves (a / 2) (f / 2),
  bit_or-zero (a / 2 / 2),
  half_zero (f / 2 / 2) (omega arith),
)
  where
    half_zero : (z : ℕ) → z ≡ 0 → bit_or (a / 2 / 2) z ≡ a / 2 / 2
    half_zero z e = rw (e, bit_or-zero (a / 2 / 2))

-- numbers that share no digit are added
pub bit_or_shift : (k a b : ℕ) → b < 2 ^ k → bit_or (a * 2 ^ k) b ≡ a * 2 ^ k + b
bit_or_shift zero a b h = rw (zero_of_lt_one b h) (bit_or-zero (a * 2 ^ 0) ∙ omega arith)
  where
    zero_of_lt_one : (b : ℕ) → b < 2 ^ 0 → b ≡ 0
    zero_of_lt_one b h = omega arith
bit_or_shift (suc k) a b h = rw (pow-suc 2 k) (
    rw (assoc a (2 ^ k))
      (shifted (a * 2 ^ k) (bit_or_shift k a (b / 2) (half_lt b (2 ^ k) (rw⁻¹ (pow-suc 2 k) h)))))
  where
    assoc : (a p : ℕ) → a * (p * 2) ≡ a * p * 2
    assoc a p = grind arith

    half_lt : (b p : ℕ) → b < p * 2 → b / 2 < p
    half_lt b p h = omega arith

    shifted : (c : ℕ) → bit_or c (b / 2) ≡ c + b / 2 → bit_or (c * 2) b ≡ c * 2 + b
    shifted c e = omega (arith, bit_or_halves (c * 2) b, ap (λ d. bit_or d (b / 2)) (double_half c))
      where
        double_half : (c : ℕ) → c * 2 / 2 ≡ c
        double_half c = omega arith
