-- ===== src/Allocator/SizeClass/Bounds.antt =====
-- size_class against floor(log2(size)) - 5.
use native.Mathlib.Nat.{pow-suc, one-le-pow, le_trans}
use tutorial_os.Common.{
  ℕ, zero, suc, ◌+◌, ◌-◌, ◌/◌, ◌≤◌, ◌<◌, ◌^◌, ◌≡◌, ◌⊎◌, inl, inr, arith, min, dec_lt,
}
use tutorial_os.Allocator.SizeClass.{num_size_classes, bits_loop, size_class}

-- Enough fuel finds the place of the highest bit.
bits_loop_lem :
    (fuel temp bits k : ℕ)
    → k < fuel
    → 2 ^ k ≤ temp
    → temp < 2 ^ suc k
    → bits_loop fuel temp bits ≡ bits + k
unfolding bits_loop
bits_loop_lem zero temp bits k f lo hi = absurd (omega arith)
bits_loop_lem (suc fuel) temp bits zero f lo hi = ground arith
bits_loop_lem (suc fuel) temp bits (suc k) f lo hi = ground (
  arith,
  pow-suc 2 k,
  pow-suc 2 (suc k),
  one-le-pow k 2,
  bits_loop_lem fuel (temp / 2) (bits + 1) k (omega arith) (omega (arith, pow-suc 2 k))
      (omega (arith, pow-suc 2 (suc k))),
)

pow_le : (k n : ℕ) → k ≤ n → 2 ^ k ≤ 2 ^ n
pow_le zero n h = one-le-pow n 2 (omega arith)
pow_le (suc k) zero h = absurd (omega arith)
pow_le (suc k) (suc n) h = omega (arith, pow-suc 2 k, pow-suc 2 n, pow_le k n (omega arith))

-- A size from 32 on whose highest bit is at place `k` has class `k - 5`, or 25 where that is more.
size_class_log :
    (k size : ℕ)
    → 5 ≤ k
    → k < 64
    → 2 ^ k ≤ size
    → size < 2 ^ suc k
    → size_class size ≡ min (k - 5) 25
unfolding size_class
size_class_log k size lo hi p q = elim (dec_lt 5 k) [
  | yes big ↦ ground (arith, bits_loop_lem 64 size 0 k hi p q, pow_le 6 k big)
  | no small ↦ let e : k ≡ 5 = omega arith in ground (arith, bits_loop_lem 64 size 0 k hi p q)
]

-- the place of the highest bit
log2 :
    (n size : ℕ) → 0 < size → size < 2 ^ n → (k : ℕ) × (k < n) × (2 ^ k ≤ size) × (size < 2 ^ suc k)
log2 zero size p h = absurd (omega arith)
log2 (suc n) size p h = elim (dec_lt size (2 ^ n)) [
  | yes q ↦ let (k, kn, lo, hi) = log2 n size p q in (k, omega arith, lo, hi)
  | no q ↦ (n, omega arith, omega arith, h)
]

-- The class of every block size is below 26; class `c` starts at `2 ^ (c + 5)` and, but for the last
-- one, which takes all that is larger, ends before `2 ^ (c + 6)`.
pub size_class_bounds :
    (size : ℕ)
    → 32 ≤ size
    → size < 2 ^ 64
    → (size_class size < num_size_classes)
      × (2 ^ (size_class size + 5) ≤ size)
      × (size_class size < num_size_classes - 1 → size < 2 ^ (size_class size + 6))
size_class_bounds size lo hi =
    let (k, kn, p, q) = log2 64 size (omega arith) hi in
    let five : 5 ≤ k = at_least_five k size lo q in
    rw (size_class_log k size five kn p q) (
      omega arith,
      le_trans (pow_le (min (k - 5) 25 + 5) k (omega arith)) p,
      λ c. rw (same_exponent k five c) q,
    )
  where
    at_least_five : (k size : ℕ) → 32 ≤ size → size < 2 ^ suc k → 5 ≤ k
    at_least_five k size lo q = elim (dec_lt k 5) [
      | yes small ↦ absurd (omega (arith, pow_le (suc k) 5 small))
      | no big ↦ omega arith
    ]

    same_exponent : (k : ℕ) → 5 ≤ k → min (k - 5) 25 < 25 → min (k - 5) 25 + 6 ≡ suc k
    same_exponent k five c = omega arith

size_class_small : (size : ℕ) → size ≤ 32 → size_class size ≡ 0
unfolding size_class
size_class_small size h = ground arith

-- From the minimum block size on, a block of class `c` has at least 2 ^ (c + 5) bytes, and fewer than
-- twice as many unless the class is the last one.
pub size_class_range :
    (size : ℕ)
    → 32 ≤ size
    → size < 2 ^ 64
    → (size_class size < num_size_classes)
      × (2 ^ (size_class size + 5) ≤ size)
      × ((size_class size ≡ num_size_classes - 1) ⊎ (size < 2 ^ (size_class size + 6)))
size_class_range size lo hi =
    let (c, p, q) = size_class_bounds size lo hi in
    (
      c,
      p,
      elim (dec_lt (size_class size) (num_size_classes - 1)) [
        | yes below ↦ inr (q below)
        | no last ↦ inl (omega arith)
      ],
    )

pub size_class-lt : (size : ℕ) → size < 2 ^ 64 → size_class size < num_size_classes
size_class-lt size h = elim (dec_lt size 32) [
  | yes small ↦ omega (arith, size_class_small size (omega arith))
  | no big ↦ (size_class_bounds size (omega arith) h).0
]

-- A larger size has no smaller class.
pub size_class_mono : (a b : ℕ) → a ≤ b → b < 2 ^ 64 → size_class a ≤ size_class b
size_class_mono a b h k = elim (dec_lt a 32) [
  | yes small ↦ omega (arith, size_class_small a (omega arith))
  | no big ↦ elim (dec_lt (size_class b) (size_class a)) [
    | yes above ↦
        let (ca, lo, _) = size_class_bounds a (omega arith) (omega arith) in
        let (cb, _, hi) = size_class_bounds b (omega arith) k in
        absurd (
          omega
            (arith, hi (omega arith), pow_le (size_class b + 6) (size_class a + 5) (omega arith)))
    | no right ↦ omega arith
  ]
]

-- A block of a higher class is larger.
pub lt_of_size_class : (a b : ℕ) → size_class a < size_class b → a < 2 ^ 64 → a < b
lt_of_size_class a b h k = elim (dec_lt a b) [
  | yes below ↦ below
  | no above ↦ absurd (omega (arith, size_class_mono b a (omega arith) k))
]
