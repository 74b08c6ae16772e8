-- ===== src/Framebuffer/Color/Blend.antt =====
-- Colours as four components, and what blending does to each of them.
use native.Mathlib.Nat.{mul-le-mul_right}
use tutorial_os.Common.{
  ℕ, ◌+◌, ◌-◌, ◌*◌, ◌/◌, ◌%◌, ◌^◌, ◌≤◌, ◌<◌, ◌≡◌, refl, ◌∙◌, ap, bit_or, min, max, arith,
  ℕ_discrete, ne→==_false,
}
use tutorial_os.Word.Masks.{bit_or_shift}
use tutorial_os.Framebuffer.Color.{
  fb_argb, fb_alpha, fb_red, fb_green, fb_blue, fb_argb_to_565, fb_565_to_argb, mix, fb_color_lerp,
  fb_blend_alpha,
}

fb_argb_sum :
    (a r g b : ℕ)
    → a < 256
    → r < 256
    → g < 256
    → b < 256
    → fb_argb a r g b ≡ a * 2 ^ 24 + r * 2 ^ 16 + g * 2 ^ 8 + b
fb_argb_sum a r g b ha hr hg hb =
    let e1 : a * 2 ^ 24 % 2 ^ 32 ≡ a * 2 ^ 24 = omega arith in
    let e2 : r * 2 ^ 16 % 2 ^ 32 ≡ r * 2 ^ 16 = omega arith in
    let e3 : g * 2 ^ 8 % 2 ^ 32 ≡ g * 2 ^ 8 = omega arith in
    rw (e1, e2, e3)
      (rw (bit_or_shift 24 a (r * 2 ^ 16) (omega arith))
        (step16 (a * 2 ^ 24 + r * 2 ^ 16) (a * 2 ^ 8 + r) (omega arith)))
  where
    step8 : (s t : ℕ) → s ≡ t * 2 ^ 8 → bit_or s b ≡ s + b
    step8 s t e = rw e (bit_or_shift 8 t b (omega arith))

    step16 : (s t : ℕ) → s ≡ t * 2 ^ 16 → bit_or (bit_or s (g * 2 ^ 8)) b ≡ s + g * 2 ^ 8 + b
    step16 s t e =
        ap (λ u. bit_or u b)
          (ap (λ u. bit_or u (g * 2 ^ 8)) e ∙ bit_or_shift 16 t (g * 2 ^ 8) (omega arith))
        ∙ step8 (t * 2 ^ 16 + g * 2 ^ 8) (t * 2 ^ 8 + g) (omega arith)
        ∙ omega arith

-- the components of a colour are `a`, `r`, `g` and `b`
pub record Components (c a r g b : ℕ) : Type 0 where
  pub alpha : fb_alpha c ≡ a
  pub red : fb_red c ≡ r
  pub green : fb_green c ≡ g
  pub blue : fb_blue c ≡ b

-- A colour put together from components below 256 has these components.
pub fb_argb-Components :
    (a r g b : ℕ) → a < 256 → r < 256 → g < 256 → b < 256 → Components (fb_argb a r g b) a r g b
fb_argb-Components a r g b ha hr hg hb =
    rw (fb_argb_sum a r g b ha hr hg hb)
      (record { alpha = omega arith; red = omega arith; green = omega arith; blue = omega arith })

-- `v` lies between `p` and `q`
abbrev pub Between : ℕ → ℕ → ℕ → Type 0
Between p v q = (min p q ≤ v) × (v ≤ max p q)

mix-Between : (p q t : ℕ) → t ≤ 255 → Between p (mix p q t) q
mix-Between p q t h =
    (low (min p q) (omega arith) (omega arith), high (max p q) (omega arith) (omega arith))
  where
    split : (l : ℕ) → l * (255 - t) + l * t ≡ l * 255
    split l = grind (arith, ap (λ n. l * n) (parts h))
      where
        parts : t ≤ 255 → 255 - t + t ≡ 255
        parts h = omega arith

    low : (l : ℕ) → l ≤ p → l ≤ q → l ≤ mix p q t
    low l hp hq = omega (arith, split l, mul-le-mul_right (255 - t) hp, mul-le-mul_right t hq)

    high : (l : ℕ) → p ≤ l → q ≤ l → mix p q t ≤ l
    high l hp hq = omega (arith, split l, mul-le-mul_right (255 - t) hp, mul-le-mul_right t hq)

mix-lt : (p q t : ℕ) → t ≤ 255 → p < 256 → q < 256 → mix p q t < 256
mix-lt p q t h hp hq = let (_, hi) = mix-Between p q t h in omega arith

-- Each component of an interpolated colour lies between those of the two colours.
pub color_lerp-Between :
    (c1 c2 t : ℕ)
    → t ≤ 255
    → Between (fb_alpha c1) (fb_alpha (fb_color_lerp c1 c2 t)) (fb_alpha c2)
      × Between (fb_red c1) (fb_red (fb_color_lerp c1 c2 t)) (fb_red c2)
      × Between (fb_green c1) (fb_green (fb_color_lerp c1 c2 t)) (fb_green c2)
      × Between (fb_blue c1) (fb_blue (fb_color_lerp c1 c2 t)) (fb_blue c2)
unfolding fb_color_lerp
color_lerp-Between c1 c2 t h =
    let k =
      fb_argb-Components (mix (fb_alpha c1) (fb_alpha c2) t) (mix (fb_red c1) (fb_red c2) t)
        (mix (fb_green c1) (fb_green c2) t) (mix (fb_blue c1) (fb_blue c2) t)
        (mix-lt _ _ t h (omega arith) (omega arith)) (mix-lt _ _ t h (omega arith) (omega arith))
        (mix-lt _ _ t h (omega arith) (omega arith)) (mix-lt _ _ t h (omega arith) (omega arith)) in
    (
      rw k.alpha (mix-Between (fb_alpha c1) (fb_alpha c2) t h),
      rw k.red (mix-Between (fb_red c1) (fb_red c2) t h),
      rw k.green (mix-Between (fb_green c1) (fb_green c2) t h),
      rw k.blue (mix-Between (fb_blue c1) (fb_blue c2) t h),
    )

-- the general branch of fb_blend_alpha
abbrev over : ℕ → ℕ → ℕ
over src dst =
    let sa = fb_alpha src in
    let inv_sa = 255 - sa in
    fb_argb ((sa * 255 + fb_alpha dst * inv_sa) / 255)
      ((fb_red src * sa + fb_red dst * inv_sa) / 255)
      ((fb_green src * sa + fb_green dst * inv_sa) / 255)
      ((fb_blue src * sa + fb_blue dst * inv_sa) / 255)

over-mix :
    (src dst : ℕ)
    → over src dst
      ≡ fb_argb
          (mix (fb_alpha dst) 255 (fb_alpha src))
          (mix (fb_red dst) (fb_red src) (fb_alpha src))
          (mix (fb_green dst) (fb_green src) (fb_alpha src))
          (mix (fb_blue dst) (fb_blue src) (fb_alpha src))
over-mix src dst =
    rw
      (
        swap_full (fb_alpha dst) (fb_alpha src),
        swap (fb_red dst) (fb_red src) (fb_alpha src),
        swap (fb_green dst) (fb_green src) (fb_alpha src),
        swap (fb_blue dst) (fb_blue src) (fb_alpha src),
      )
      refl
  where
    swap : (p q t : ℕ) → (q * t + p * (255 - t)) / 255 ≡ mix p q t
    swap p q t = omega arith

    swap_full : (p t : ℕ) → (t * 255 + p * (255 - t)) / 255 ≡ mix p 255 t
    swap_full p t = omega arith

-- Alpha blending: red, green and blue of the result lie between those of the source and of the
-- destination, and its opacity between the destination's and full opacity.
pub blend_alpha-Between :
    (src dst : ℕ)
    → Between (fb_alpha dst) (fb_alpha (fb_blend_alpha src dst)) 255
      × Between (fb_red dst) (fb_red (fb_blend_alpha src dst)) (fb_red src)
      × Between (fb_green dst) (fb_green (fb_blend_alpha src dst)) (fb_green src)
      × Between (fb_blue dst) (fb_blue (fb_blend_alpha src dst)) (fb_blue src)
unfolding fb_blend_alpha
blend_alpha-Between src dst = elim (ℕ_discrete (fb_alpha src) 0) [
  | yes clear ↦ rw (clear) (
    (omega arith, omega arith),
    (omega arith, omega arith),
    (omega arith, omega arith),
    (omega arith, omega arith),
  )
  | no some ↦ elim (ℕ_discrete (fb_alpha src) 255) [
    | yes full ↦ rw (full) (
      (omega arith, omega arith),
      (omega arith, omega arith),
      (omega arith, omega arith),
      (omega arith, omega arith),
    )
    | no part ↦
        let t = fb_alpha src in
        let h : t ≤ 255 = omega arith in
        let k =
          fb_argb-Components (mix (fb_alpha dst) 255 t) (mix (fb_red dst) (fb_red src) t)
            (mix (fb_green dst) (fb_green src) t) (mix (fb_blue dst) (fb_blue src) t)
            (mix-lt _ _ t h (omega arith) (omega arith))
            (mix-lt _ _ t h (omega arith) (omega arith))
            (mix-lt _ _ t h (omega arith) (omega arith))
            (mix-lt _ _ t h (omega arith) (omega arith)) in
        rw (ne→==_false t 0 some, ne→==_false t 255 part)
          (rw (over-mix src dst) (
            rw k.alpha (mix-Between (fb_alpha dst) 255 t h),
            rw k.red (mix-Between (fb_red dst) (fb_red src) t h),
            rw k.green (mix-Between (fb_green dst) (fb_green src) t h),
            rw k.blue (mix-Between (fb_blue dst) (fb_blue src) t h),
          ))
  ]
]

replicate_bits :
    (k v d : ℕ) → d < 2 ^ k → v * 2 ^ k + d < 256 → bit_or (v * 2 ^ k) d % 256 ≡ v * 2 ^ k + d
replicate_bits k v d h small = rw (bit_or_shift k v d h) (omega arith)

pack_565 :
    (r g b : ℕ)
    → r < 32
    → g < 64
    → b < 32
    → bit_or (bit_or (r * 2 ^ 11) (g * 2 ^ 5)) b % 2 ^ 16 ≡ r * 2 ^ 11 + g * 2 ^ 5 + b
pack_565 r g b hr hg hb =
    ap (λ u. bit_or u b % 2 ^ 16)
      (bit_or_shift 11 r (g * 2 ^ 5) (omega arith) ∙ low (r * 2 ^ 11 + g * 2 ^ 5) (omega arith))
    ∙ rw (bit_or_shift 5 (r * 2 ^ 6 + g) b hb) (omega arith)
  where
    low : (u : ℕ) → u ≡ r * 2 ^ 11 + g * 2 ^ 5 → u ≡ (r * 2 ^ 6 + g) * 2 ^ 5
    low u e = omega arith

expand_565 :
    (c : ℕ)
    → let r = c / 2 ^ 11 % 32 in
      let g = c / 2 ^ 5 % 64 in
      let b = c % 32 in
      fb_565_to_argb c
      ≡ 255 * 2 ^ 24 + (r * 8 + r / 4) * 2 ^ 16 + (g * 4 + g / 16) * 2 ^ 8 + (b * 8 + b / 4)
unfolding fb_565_to_argb
expand_565 c =
    let r = c / 2 ^ 11 % 32 in
    let g = c / 2 ^ 5 % 64 in
    let b = c % 32 in
    rw
      (
        replicate_bits 3 r (r / 2 ^ 2) (omega arith) (omega arith),
        replicate_bits 2 g (g / 2 ^ 4) (omega arith) (omega arith),
        replicate_bits 3 b (b / 2 ^ 2) (omega arith) (omega arith),
      )
      (ap (λ u. bit_or (bit_or (bit_or 0xFF000000 u) ((g * 4 + g / 16) * 2 ^ 8)) (b * 8 + b / 4))
          (mod_small ((r * 8 + r / 4) * 2 ^ 16) (omega arith))
        ∙ ap
            (λ u.
              bit_or (bit_or (bit_or 0xFF000000 ((r * 8 + r / 4) * 2 ^ 16 % 2 ^ 32)) u)
                (b * 8 + b / 4))
            (mod_small ((g * 4 + g / 16) * 2 ^ 8) (omega arith))
        ∙ fb_argb_sum 255 (r * 8 + r / 4) (g * 4 + g / 16) (b * 8 + b / 4) (omega arith)
            (omega arith) (omega arith) (omega arith))
  where
    mod_small : (u : ℕ) → u < 2 ^ 32 → u ≡ u % 2 ^ 32
    mod_small u h = omega arith

-- A 16-bit pixel that is expanded to 32 bits and packed again is unchanged: reading a pixel and writing
-- it back loses nothing.
pub argb_to_565-expand : (c : ℕ) → c < 2 ^ 16 → fb_argb_to_565 (fb_565_to_argb c) ≡ c
unfolding fb_argb_to_565
argb_to_565-expand c h =
    rw (expand_565 c) (pack_565 _ _ _ (omega arith) (omega arith) (omega arith) ∙ omega arith)
