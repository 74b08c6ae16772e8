-- ===== src/Framebuffer/Fill.antt =====
-- drivers/src/framebuffer/framebuffer.c: fb_fill_rect, as loops over rows and pixels that count down.
pub mod Shown
use native.Mathlib.Nat.{mul-le-mul_right, mul_left_comm}
use tutorial_os.Common.{
  ℕ, zero, suc, ◌+◌, ◌-◌, ◌*◌, ◌/◌, ◌%◌, ◌≤◌, ◌<◌, ◌^◌, ◌≡◌, ◌≢◌, ◌⊎◌, inl, inr, refl, ◌∙◌, ap, ap₂,
  sym, Bool, true, false, not, ◌&&◌, ◌||◌, ltb, leb, ◌==◌, if◌then◌else◌, arith, Bool-cases,
  ℕ_discrete, eq→==, ne→==_false,
}
use tutorial_os.Memory.{Memory, load32, store32, load_bytes, store_bytes}
use tutorial_os.Framebuffer.Color.{fb_argb_to_565, min_u32}
use tutorial_os.Framebuffer.{
  add32, PixelFormat, argb8888, abgr8888, rgb565, Rect, Framebuffer, fb_get_clip, is_clipped,
  fb_mark_dirty, fb_row, fb_get_pixel,
}
use tutorial_os.Framebuffer.Clip.{OnScreen, within, shows, &&-swap, &&-false_left, &&-false_right}
use tutorial_os.Framebuffer.Clip.Stack.{Clipped, top-OnScreen, is_clipped_top}
use tutorial_os.Framebuffer.Pixel.{
  pixel_bytes, as_stored, Shaped, write_as, read_as, read-write_self, read-write_far, pixels-Apart,
  row-is, get_is,
}

abbrev pub max_u32 : ℕ → ℕ → ℕ
max_u32 a b = if ltb b a then a else b

-- the value that is stored for a colour, converted once
abbrev pub packed : PixelFormat → ℕ → ℕ
packed rgb565 color = fb_argb_to_565 color
packed argb8888 color = color
packed abgr8888 color = color

-- `row[px] = value`
abbrev pub store_px : PixelFormat → Memory → ℕ → ℕ → ℕ → Memory
store_px rgb565 m row px value = store_bytes 2 m (row + 2 * px) value
store_px argb8888 m row px value = store32 m (row + 4 * px) value
store_px abgr8888 m row px value = store32 m (row + 4 * px) value

-- `for (px = x1; px < x2; px++) row[px] = value;` for `n` pixels
unfoldable pub fill_span : PixelFormat → ℕ → Memory → ℕ → ℕ → ℕ → Memory
fill_span f zero m row px value = m
fill_span f (suc n) m row px value = fill_span f n (store_px f m row px value) row (px + 1) value

-- 16-bit rows are counted in bytes, 32-bit rows in words.
abbrev pub row_base : PixelFormat → Framebuffer → ℕ → ℕ
row_base rgb565 fb py = fb_row fb py
row_base argb8888 fb py = fb.addr + 4 * (py * (fb.pitch / 4) % 2 ^ 32)
row_base abgr8888 fb py = fb.addr + 4 * (py * (fb.pitch / 4) % 2 ^ 32)

unfoldable pub fill_rows : Framebuffer → ℕ → Memory → ℕ → ℕ → ℕ → ℕ → Memory
fill_rows fb zero m py x1 w value = m
fill_rows fb (suc n) m py x1 w value =
    fill_rows fb n (fill_span fb.pixel_format w m (row_base fb.pixel_format fb py) x1 value)
      (py + 1) x1 w value

unfoldable pub fb_fill_rect : Framebuffer → Memory → ℕ → ℕ → ℕ → ℕ → ℕ → Framebuffer × Memory
fb_fill_rect fb m x y w h color =
    let clip = fb_get_clip fb in
    let x1 = max_u32 x clip.x in
    let y1 = max_u32 y clip.y in
    let x2 = min_u32 (add32 x w) (add32 clip.x clip.w) in
    let y2 = min_u32 (add32 y h) (add32 clip.y clip.h) in
    if leb x2 x1 || leb y2 y1 then (fb, m) else (
      fb_mark_dirty fb x1 y1 (x2 - x1) (y2 - y1),
      fill_rows fb (y2 - y1) m y1 x1 (x2 - x1) (packed fb.pixel_format color),
    )
