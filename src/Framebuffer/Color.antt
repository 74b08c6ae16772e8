-- ===== src/Framebuffer/Color.antt =====
-- drivers/src/framebuffer: colours. fb_pixel.h's conversions between 32-bit ARGB and 16-bit RGB565, and
-- framebuffer.c's blending.
pub mod Blend
use tutorial_os.Common.{ℕ, ◌+◌, ◌-◌, ◌*◌, ◌/◌, ◌%◌, ◌^◌, bit_or, ltb, ◌==◌, if◌then◌else◌}

-- FB_ARGB, FB_RGB and the components of a colour
abbrev pub fb_argb : ℕ → ℕ → ℕ → ℕ → ℕ
fb_argb a r g b =
    bit_or (bit_or (bit_or (a * 2 ^ 24 % 2 ^ 32) (r * 2 ^ 16 % 2 ^ 32)) (g * 2 ^ 8 % 2 ^ 32)) b

abbrev pub fb_rgb : ℕ → ℕ → ℕ → ℕ
fb_rgb r g b = fb_argb 255 r g b

-- `(c >> k) & 0xFF`
abbrev pub fb_alpha : ℕ → ℕ
fb_alpha c = c / 2 ^ 24 % 256

abbrev pub fb_red : ℕ → ℕ
fb_red c = c / 2 ^ 16 % 256

abbrev pub fb_green : ℕ → ℕ
fb_green c = c / 2 ^ 8 % 256

abbrev pub fb_blue : ℕ → ℕ
fb_blue c = c % 256

unfoldable pub fb_argb_to_565 : ℕ → ℕ
fb_argb_to_565 argb =
    let r = argb / 2 ^ 19 % 32 in
    let g = argb / 2 ^ 10 % 64 in
    let b = argb / 2 ^ 3 % 32 in bit_or (bit_or (r * 2 ^ 11) (g * 2 ^ 5)) b % 2 ^ 16

unfoldable pub fb_565_to_argb : ℕ → ℕ
fb_565_to_argb c =
    let r = c / 2 ^ 11 % 32 in
    let g = c / 2 ^ 5 % 64 in
    let b = c % 32 in
    let r8 = bit_or (r * 2 ^ 3) (r / 2 ^ 2) % 256 in
    let g8 = bit_or (g * 2 ^ 2) (g / 2 ^ 4) % 256 in
    let b8 = bit_or (b * 2 ^ 3) (b / 2 ^ 2) % 256 in
    bit_or (bit_or (bit_or 0xFF000000 (r8 * 2 ^ 16)) (g8 * 2 ^ 8)) b8

-- `(c1 * (255 - t) + c2 * t) / 255`
abbrev pub mix : ℕ → ℕ → ℕ → ℕ
mix c1 c2 t = (c1 * (255 - t) + c2 * t) / 255

unfoldable pub fb_color_lerp : ℕ → ℕ → ℕ → ℕ
fb_color_lerp c1 c2 t =
    fb_argb (mix (fb_alpha c1) (fb_alpha c2) t) (mix (fb_red c1) (fb_red c2) t)
      (mix (fb_green c1) (fb_green c2) t) (mix (fb_blue c1) (fb_blue c2) t)

unfoldable pub fb_blend_alpha : ℕ → ℕ → ℕ
fb_blend_alpha src dst =
    let sa = fb_alpha src in
    if sa == 0
    then dst
    else if sa == 255
    then src
    else let inv_sa = 255 - sa in
      let r = (fb_red src * sa + fb_red dst * inv_sa) / 255 in
      let g = (fb_green src * sa + fb_green dst * inv_sa) / 255 in
      let b = (fb_blue src * sa + fb_blue dst * inv_sa) / 255 in
      let a = (sa * 255 + fb_alpha dst * inv_sa) / 255 in fb_argb a r g b

abbrev pub min_u32 : ℕ → ℕ → ℕ
min_u32 a b = if ltb a b then a else b

unfoldable pub fb_blend_additive : ℕ → ℕ → ℕ
fb_blend_additive src dst =
    fb_rgb (min_u32 (fb_red src + fb_red dst) 255) (min_u32 (fb_green src + fb_green dst) 255)
      (min_u32 (fb_blue src + fb_blue dst) 255)

unfoldable pub fb_blend_multiply : ℕ → ℕ → ℕ
fb_blend_multiply src dst =
    fb_rgb (fb_red src * fb_red dst / 255) (fb_green src * fb_green dst / 255)
      (fb_blue src * fb_blue dst / 255)
