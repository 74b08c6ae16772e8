-- ===== src/Word/TestBit.antt =====
-- One binary digit of a number, and how `&`, `|`, `~` and `1u << k` act on it.
use native.Mathlib.Nat.{pow-suc, one-le-pow}
use tutorial_os.Common.{
  ℕ, zero, suc, ◌+◌, ◌-◌, ◌*◌, ◌/◌, ◌%◌, ◌^◌, ◌≤◌, ◌<◌, min, max, bit_and, bit_or, ◌≡◌, refl, ◌≢◌,
  ◌∙◌, ap, ◌⊎◌, inl, inr, arith, ℕ_discrete,
}
use tutorial_os.Word.{not32, bit32}
use tutorial_os.Word.Bits.{bit_and_halves, bit_or_halves}
use tutorial_os.Word.Masks.{bit_and-zero, bit_and-one}

-- digit `k` of `a`
pub test_bit : ℕ → ℕ → ℕ
test_bit a zero = a % 2
test_bit a (suc k) = test_bit (a / 2) k

pub test_bit-le-one : (a k : ℕ) → test_bit a k ≤ 1
unfolding test_bit
test_bit-le-one a zero = omega arith
test_bit-le-one a (suc k) = test_bit-le-one (a / 2) k

pub test_bit-bit_and : (k a b : ℕ) → test_bit (bit_and a b) k ≡ min (test_bit a k) (test_bit b k)
unfolding test_bit
test_bit-bit_and zero a b = omega (arith, bit_and_halves a b)
test_bit-bit_and (suc k) a b =
    ap (λ t. test_bit t k) (omega (arith, bit_and_halves a b)) ∙ test_bit-bit_and k (a / 2) (b / 2)

pub test_bit-bit_or : (k a b : ℕ) → test_bit (bit_or a b) k ≡ max (test_bit a k) (test_bit b k)
unfolding test_bit
test_bit-bit_or zero a b = omega (arith, bit_or_halves a b)
test_bit-bit_or (suc k) a b =
    ap (λ t. test_bit t k) (omega (arith, bit_or_halves a b)) ∙ test_bit-bit_or k (a / 2) (b / 2)

pub zero-test_bit : (k : ℕ) → test_bit 0 k ≡ 0
unfolding test_bit
zero-test_bit zero = refl
zero-test_bit (suc k) = zero-test_bit k

-- a number that has no digit set is 0
pub zero_of_test_bit : (n a : ℕ) → a < 2 ^ n → ((k : ℕ) → k < n → test_bit a k ≡ 0) → a ≡ 0
unfolding test_bit
zero_of_test_bit zero a h none_set = omega arith
zero_of_test_bit (suc n) a h none_set = omega (
  arith,
  none_set 0 (omega arith),
  zero_of_test_bit n (a / 2) (omega (arith, pow-suc 2 n)) (λ k p. none_set (suc k) (omega arith)),
)

half-pow : (k : ℕ) → 2 ^ suc k / 2 ≡ 2 ^ k
half-pow k = omega (arith, pow-suc 2 k)

pub test_bit-pow_self : (k : ℕ) → test_bit (2 ^ k) k ≡ 1
unfolding test_bit
test_bit-pow_self zero = refl
test_bit-pow_self (suc k) = rw (half-pow k) (test_bit-pow_self k)

pub test_bit-pow_ne : (k j : ℕ) → k ≢ j → test_bit (2 ^ k) j ≡ 0
unfolding test_bit
test_bit-pow_ne zero zero h = absurd (h refl)
test_bit-pow_ne zero (suc j) h = zero-test_bit j
test_bit-pow_ne (suc k) zero h = omega (arith, pow-suc 2 k)
test_bit-pow_ne (suc k) (suc j) h = rw (half-pow k) (test_bit-pow_ne k j (λ e. h (ap suc e)))

half-ones : (k : ℕ) → (2 ^ suc k - 1) / 2 ≡ 2 ^ k - 1
half-ones k = omega (arith, pow-suc 2 k)

pub test_bit-ones_lt : (k j : ℕ) → j < k → test_bit (2 ^ k - 1) j ≡ 1
unfolding test_bit
test_bit-ones_lt zero j h = absurd (omega arith)
test_bit-ones_lt (suc k) zero h = omega (arith, pow-suc 2 k, one-le-pow k 2)
test_bit-ones_lt (suc k) (suc j) h = rw (half-ones k) (test_bit-ones_lt k j (omega arith))

pub test_bit-ones_ge : (k j : ℕ) → k ≤ j → test_bit (2 ^ k - 1) j ≡ 0
unfolding test_bit
test_bit-ones_ge zero j h = zero-test_bit j
test_bit-ones_ge (suc k) zero h = absurd (omega arith)
test_bit-ones_ge (suc k) (suc j) h = rw (half-ones k) (test_bit-ones_ge k j (omega arith))

half_complement : (n a : ℕ) → (2 ^ suc n - 1 - a) / 2 ≡ 2 ^ n - 1 - a / 2
half_complement n a = omega (arith, pow-suc 2 n)

test_bit_complement :
    (n k a : ℕ) → k < n → a < 2 ^ n → test_bit (2 ^ n - 1 - a) k ≡ 1 - test_bit a k
unfolding test_bit
test_bit_complement zero k a h p = absurd (omega arith)
test_bit_complement (suc n) zero a h p = omega (arith, pow-suc 2 n)
test_bit_complement (suc n) (suc k) a h p =
    rw (half_complement n a)
      (test_bit_complement n k (a / 2) (omega arith) (omega (arith, pow-suc 2 n)))

pub test_bit-not32 : (k a : ℕ) → k < 32 → a < 2 ^ 32 → test_bit (not32 a) k ≡ 1 - test_bit a k
test_bit-not32 k a h p = test_bit_complement 32 k a h p

-- `a & (1 << k)` is nonzero exactly when the digit is set
pub bit_and-pow : (k a : ℕ) → bit_and a (2 ^ k) ≡ test_bit a k * 2 ^ k
unfolding test_bit
bit_and-pow zero a = omega (arith, bit_and-one a)
bit_and-pow (suc k) a =
    bit_and_halves a (2 ^ suc k)
    ∙ rw (half-pow k) (rw (bit_and-pow k (a / 2)) (grind (arith, pow-suc 2 k)))

pub pow-lt_32 : (k : ℕ) → k < 32 → 2 ^ k < 2 ^ 32
pow-lt_32 k h = pow_lt 32 k h
  where
    pow_lt : (n k : ℕ) → k < n → 2 ^ k < 2 ^ n
    pow_lt zero k h = absurd (omega arith)
    pow_lt (suc n) zero h = omega (arith, pow-suc 2 n, one-le-pow n 2)
    pow_lt (suc n) (suc k) h = omega (arith, pow-suc 2 n, pow-suc 2 k, pow_lt n k (omega arith))

pub bit32_lem : (k : ℕ) → k < 32 → bit32 k ≡ 2 ^ k
bit32_lem k h = omega (arith, pow-lt_32 k h)

pub bit_and-lt : (n a b : ℕ) → b < 2 ^ n → bit_and a b < 2 ^ n
bit_and-lt zero a b h = rw (zero_of_lt_one b h) (rw (bit_and-zero a) (omega arith))
  where
    zero_of_lt_one : (b : ℕ) → b < 2 ^ 0 → b ≡ 0
    zero_of_lt_one b h = omega arith
bit_and-lt (suc n) a b h = omega (
  arith,
  pow-suc 2 n,
  bit_and_halves a b,
  bit_and-lt n (a / 2) (b / 2) (omega (arith, pow-suc 2 n)),
)

-- The lowest digit that is set, among the first `k + n`, when the first `k` are not.
pub lowest_bit :
    (n k a : ℕ)
    → ((j : ℕ) → j < k → test_bit a j ≡ 0)
    → ((c : ℕ) × (c < k + n) × (test_bit a c ≡ 1) × ((j : ℕ) → j < c → test_bit a j ≡ 0))
      ⊎ ((j : ℕ) → j < k + n → test_bit a j ≡ 0)
lowest_bit zero k a below = inr (λ j h. below j (omega arith))
lowest_bit (suc n) k a below = elim (ℕ_discrete (test_bit a k) 0) [
  | yes e ↦ elim (lowest_bit n (k + 1) a (λ j h. further j h e)) [
    | inl (c, lt, set, first) ↦ inl (c, omega arith, set, first)
    | inr none_set ↦ inr (λ j h. none_set j (omega arith))
  ]
  | no ne ↦ inl (k, omega arith, omega (arith, test_bit-le-one a k), below)
]
  where
    further : (j : ℕ) → j < k + 1 → test_bit a k ≡ 0 → test_bit a j ≡ 0
    further j h e = elim (ℕ_discrete j k) [ yes p ↦ rw p e | no np ↦ below j (omega arith) ]
