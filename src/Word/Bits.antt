-- ===== src/Word/Bits.antt =====
-- Laws of `&` and `|` at variables: induction on the binary digits, and the lowest digit apart.
use Prim.Native.Nat.{digits, bit_and-bitwise, bit_or-bitwise}
use tutorial_os.Common.{
  zero, ◌≡◌, bit_or, bit_and, min, max, arith, refl, ◌≤◌, ◌%◌, ◌/◌, ◌*◌, ◌+◌, suc, ℕ,
}

-- What holds for 0, and for each number when it holds for the number's half, holds for all.
pub by_halves {ℓ} : (P : ℕ → Type ℓ) → P 0 → ((a : ℕ) → P (suc a / 2) → P (suc a)) → (a : ℕ) → P a
by_halves P base step a = up_to a a (omega arith)
  where
    up_to : (bound a : ℕ) → a ≤ bound → P a
    up_to bound zero h = base
    up_to zero (suc a) h = absurd (omega arith)
    up_to (suc bound) (suc a) h = step a (up_to bound (suc a / 2) (omega arith))

-- One digit-wise operation for both.
module _ (last : ℕ → ℕ) (op : ℕ → ℕ → ℕ) where
  abbrev run : ℕ → ℕ → ℕ → ℕ
  run fuel x y = digits last op fuel x y

  -- Two amounts of fuel that are both enough give the same result.
  run_enough : (x : ℕ) (f g y : ℕ) → x ≤ f → x ≤ g → run f x y ≡ run g x y
  run_enough x f g y = go f g x y
    where
      go : (f g x y : ℕ) → x ≤ f → x ≤ g → run f x y ≡ run g x y
      go (suc f) (suc g) (suc x) y hf hg =
          omega (arith, go f g (suc x / 2) (y / 2) (omega arith) (omega arith))
      go (suc f) (suc g) zero y hf hg = refl
      go (suc f) zero (suc x) y hf hg = absurd (omega arith)
      go (suc f) zero zero y hf hg = refl
      go zero (suc g) (suc x) y hf hg = absurd (omega arith)
      go zero (suc g) zero y hf hg = refl
      go zero zero x y hf hg = refl

  run_halves :
      (x y : ℕ)
      → run (suc x) (suc x) y ≡ run (suc x / 2) (suc x / 2) (y / 2) * 2 + op (suc x % 2) (y % 2)
  run_halves x y =
      omega (arith, run_enough (suc x / 2) x (suc x / 2) (y / 2) (omega arith) (omega arith))

pub zero-bit_and : (y : ℕ) → bit_and 0 y ≡ 0
zero-bit_and = bit_and-bitwise 0

pub zero-bit_or : (y : ℕ) → bit_or 0 y ≡ y
zero-bit_or = bit_or-bitwise 0

pub bit_and_halves : (x y : ℕ) → bit_and x y ≡ bit_and (x / 2) (y / 2) * 2 + min (x % 2) (y % 2)
bit_and_halves (suc x) y = omega (
  bit_and-bitwise (suc x / 2) (y / 2),
  run_halves (λ _. zero) min x y,
  bit_and-bitwise (suc x) y,
  arith,
)
bit_and_halves zero y = omega (zero-bit_and (y / 2), zero-bit_and y, arith)

pub bit_or_halves : (x y : ℕ) → bit_or x y ≡ bit_or (x / 2) (y / 2) * 2 + max (x % 2) (y % 2)
bit_or_halves (suc x) y = omega (
  bit_or-bitwise (suc x / 2) (y / 2),
  run_halves (λ y. y) max x y,
  bit_or-bitwise (suc x) y,
  arith,
)
bit_or_halves zero y = omega (zero-bit_or (y / 2), zero-bit_or y, arith)
