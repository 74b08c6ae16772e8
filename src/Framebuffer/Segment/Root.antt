-- ===== src/Framebuffer/Segment/Root.antt =====
-- fb_isqrt is the integer square root, and needs few rounds: each halves the distance to it.
use native.Mathlib.Nat.{
  mul-le-mul_left, pow-suc, lt-mul-div-succ, le-div_iff_mul-le, mul-div-le, div_self,
}
use tutorial_os.Common.{
  ℕ, zero, suc, ◌+◌, ◌-◌, ◌*◌, ◌/◌, ◌≤◌, ◌<◌, ◌^◌, ◌≡◌, refl, ◌∙◌, ap, false, some, ltb, arith,
  Bool-cases, ne→==_false, ◌⊎◌, inl, inr, dec_lt, dec_le,
}
use tutorial_os.Framebuffer.{add32}
use tutorial_os.Framebuffer.Segment.{isqrt_loop, fb_isqrt}

-- `r` is the integer square root of `n`
abbrev pub IsRoot : ℕ → ℕ → Type 0
IsRoot n r = (r * r ≤ n) × (n < (r + 1) * (r + 1))

product-le : (a d b : ℕ) → b ≤ a + 2 * d → a * b ≤ (a + d) * (a + d)
product-le a d b h =
    let le : a * b ≤ a * (a + 2 * d) = mul-le-mul_left a h in
    let e : (a + d) * (a + d) ≡ a * (a + 2 * d) + d * d = grind arith in omega arith

-- two numbers whose mean is at most `s`
mean-le : (a b s : ℕ) → a + b ≤ 2 * s → a * b ≤ s * s
mean-le a b s h = elim (dec_le a s) [
  | yes le ↦ let e : a + (s - a) ≡ s = omega arith in rw e at (product-le a (s - a) b (omega arith))
  | no gt ↦
      let e : b + (s - b) ≡ s = omega arith in
      let swap : a * b ≡ b * a = grind arith in
      rw swap (rw e at (product-le b (s - b) a (omega arith)))
]

quotient-le : (n x s : ℕ) → s < x → n < (s + 1) * (s + 1) → n / x ≤ s
quotient-le n x s h lt = elim (dec_le (n / x) s) [
  | yes le ↦ le
  | no gt ↦
      let most : (s + 1) * x ≤ n = (le-div_iff_mul-le {k = x} (omega arith)).0 (omega arith) in
      let least : (s + 1) * (s + 1) ≤ (s + 1) * x = mul-le-mul_left (s + 1) (omega arith) in
      absurd (omega arith)
]

sum-product : (a b : ℕ) → (a + 1) + (b + 1) ≤ (a + 1) * (b + 1) + 1
sum-product a b = let e : (a + 1) * (b + 1) ≡ a * b + a + b + 1 = grind arith in omega arith

-- `x + n / x` does not wrap around
sum-le : (n y : ℕ) → 0 < y → y ≤ n → y + n / y ≤ n + 1
sum-le n y h le =
    let some_q : 1 ≤ n / y = (le-div_iff_mul-le {k = y} h).1 (omega arith) in
    let ey : y - 1 + 1 ≡ y = omega arith in
    let eq : n / y - 1 + 1 ≡ n / y = omega arith in
    let sum = sum-product (y - 1) (n / y - 1) in
    let sum' : y + n / y ≤ y * (n / y) + 1 = rw ey at (rw eq at sum) in
    omega (arith, mul-div-le n y)

-- a round does not step below the root
root-le : (n x s : ℕ) → 0 < x → s * s ≤ n → s ≤ (x + n / x) / 2
root-le n x s h le = elim (dec_le s ((x + n / x) / 2)) [
  | yes ok ↦ ok
  | no low ↦
      let mean : x * (n / x + 1) ≤ s * s = mean-le x (n / x + 1) s (omega arith) in
      absurd (omega (arith, lt-mul-div-succ n h))
]

-- the value of the loop variable after a round
abbrev round : ℕ → ℕ → ℕ
round n x = (x + n / x) / 2

module _ (n s x : ℕ) (root : IsRoot n s) (pos : 0 < s) (low : s ≤ x) (high : x ≤ n)
    (small : n + 1 < 2 ^ 32) where
  round-ge : s ≤ round n x
  round-ge = root-le n x s (omega arith) root.0

  stops-at : ltb (round n x) x ≡ false → x ≡ s
  stops-at stop = elim (dec_le x s) [
    | yes le ↦ omega arith
    | no gt ↦ let q = quotient-le n x s (omega arith) root.1 in absurd (ground (arith, q))
  ]

  -- A round halves the distance to the root.
  halves : (k : ℕ) → x < s + 2 ^ suc k → round n x < x → round n x < s + 2 ^ k
  halves k near less =
      let q = quotient-le n x s (omega (arith, round-ge)) root.1 in omega (arith, pow-suc 2 k)

  one-round :
      (fuel : ℕ)
      → (isqrt_loop (suc fuel) n x (round n x) ≡ some s)
        ⊎ ((round n x < x)
            × (isqrt_loop (suc fuel) n x (round n x)
                ≡ isqrt_loop fuel n (round n x) (round n (round n x))))
  unfolding isqrt_loop
  one-round fuel = elim (Bool-cases (ltb (round n x) x)) [
    | inr stop ↦ inl (rw stop (ap some (stops-at stop)))
    | inl more ↦
        let y = round n x in
        let less : y < x = ground arith in
        let step : add32 y (n / y) / 2 ≡ (y + n / y) / 2 =
          omega (arith, sum-le n y (omega (arith, round-ge)) (omega arith)) in
        inr (less, rw more (rw step refl))
  ]

loop-IsRoot :
    (fuel k n s x : ℕ)
    → IsRoot n s
    → 0 < s
    → s ≤ x
    → x ≤ n
    → n + 1 < 2 ^ 32
    → x < s + 2 ^ k
    → k < fuel
    → isqrt_loop fuel n x (round n x) ≡ some s
loop-IsRoot zero k n s x root pos low high small near h = absurd (omega arith)
loop-IsRoot (suc fuel) zero n s x root pos low high small near h =
    elim (one-round n s x root pos low high small fuel) [
      | inl done ↦ done
      | inr (less, e) ↦ absurd (omega (arith, round-ge n s x root pos low high small))
    ]
loop-IsRoot (suc fuel) (suc k) n s x root pos low high small near h =
    elim (one-round n s x root pos low high small fuel) [
      | inl done ↦ done
      | inr (less, e) ↦
          e
          ∙ loop-IsRoot fuel k n s (round n x) root pos (round-ge n s x root pos low high small)
              (omega arith) small (halves n s x root pos low high small k near less) (omega arith)
    ]

-- every number has an integer square root
IsRoot-of : (n : ℕ) → (r : ℕ) × IsRoot n r
IsRoot-of zero = (0, (omega arith, omega arith))
IsRoot-of (suc n) =
    let (r, (low, high)) = IsRoot-of n in
    elim (dec_lt (suc n) ((r + 1) * (r + 1))) [
      | yes lt ↦ (r, (omega arith, lt))
      | no ge ↦
          let more : (r + 1 + 1) * (r + 1 + 1) ≡ (r + 1) * (r + 1) + 2 * r + 3 = grind arith in
          (r + 1, (omega arith, omega arith))
    ]

-- For every number but the largest, and fuel for 33 rounds, fb_isqrt returns the integer square root.
pub isqrt-IsRoot :
    (fuel n : ℕ)
    → 32 < fuel
    → n + 1 < 2 ^ 32
    → (r : ℕ) × (fb_isqrt fuel n ≡ some r) × (r * r ≤ n) × (n < (r + 1) * (r + 1))
unfolding fb_isqrt
isqrt-IsRoot fuel zero h small = (0, refl, omega arith, omega arith)
isqrt-IsRoot fuel (suc n) h small =
    let (r, (low, high)) = IsRoot-of (suc n) in
    let pos : 0 < r = elim (dec_lt 0 r) [
      | yes p ↦ p
      | no z ↦ let e : r ≡ 0 = omega arith in absurd (omega (arith, rw e at high))
    ] in
    let below : r ≤ suc n = omega (arith, mul-le-mul_left r pos) in
    let start : add32 (suc n) 1 / 2 ≡ round (suc n) (suc n) =
      omega (arith, div_self {n = suc n} (omega arith)) in
    (
      r,
      rw (ne→==_false (suc n) 0 (λ e. omega arith)) (
          rw (ne→==_false (suc n) (2 ^ 32 - 1) (λ e. omega arith)) (
            rw start (
              loop-IsRoot fuel 32 (suc n) r (suc n) (low, high) pos below (omega arith) small
                (omega arith) h))),
      low,
      high,
    )
