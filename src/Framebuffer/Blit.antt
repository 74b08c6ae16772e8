-- ===== src/Framebuffer/Blit.antt =====
-- drivers/src/framebuffer/framebuffer.c: bitmaps, whose pixels are ARGB8888 words in memory.
use tutorial_os.Common.{
  ℕ, ◌+◌, ◌*◌, ◌/◌, not, ◌&&◌, ◌||◌, Option, none, some, ltb, ◌==◌, if◌then◌else◌,
}
use tutorial_os.Memory.{Memory, null, load32}
use tutorial_os.Framebuffer.Color.{fb_alpha, fb_blend_alpha, fb_blend_additive, fb_blend_multiply}
use tutorial_os.Framebuffer.{
  add32, sub32, lt_i32, max_i32, fb_get_clip, fb_row, fb_write_px, fb_read_px, fb_mark_dirty,
  fb_put_pixel_blend,
}
use tutorial_os.Framebuffer.Int32.{mul32, is_negative}
use tutorial_os.Framebuffer.Canvas.{Canvas, for_up, put_if}

pub data BlendMode : Type 0 where
  opaque : BlendMode
  alpha : BlendMode
  additive : BlendMode
  multiply : BlendMode

-- `pixels` is the field `data`, the address of the first pixel
pub record Bitmap : Type 0 where
  pub width : ℕ
  pub height : ℕ
  pub pixels : ℕ

-- `bitmap->data[i]`
abbrev pub bitmap_at : Memory → Bitmap → ℕ → ℕ
bitmap_at m bitmap i = load32 m (bitmap.pixels + 4 * i)

-- the colour that a source pixel gives on a destination pixel
abbrev pub blended : BlendMode → ℕ → ℕ → ℕ
blended opaque src dst = src
blended alpha src dst = fb_blend_alpha src dst
blended additive src dst = fb_blend_additive src dst
blended multiply src dst = fb_blend_multiply src dst

-- how far the clip edge lies inside the bitmap
abbrev pub cut_before : ℕ → ℕ → ℕ
cut_before x edge = if lt_i32 x edge then sub32 edge x else 0

-- the size that remains on one axis, as the two tests after the subtraction leave it
abbrev pub cut_after : ℕ → ℕ → ℕ → ℕ → ℕ
cut_after dst size edge screen =
    let inside = if ltb edge (add32 dst size) then sub32 edge dst else size in
    if ltb screen (add32 dst inside) then sub32 screen dst else inside

unfoldable pub blit_px : BlendMode → Bitmap → ℕ → ℕ → ℕ → Canvas → Canvas
blit_px blend bitmap i row px c = (
  c.0,
  fb_write_px c.0 c.1 row px (blended blend (bitmap_at c.1 bitmap i) (fb_read_px c.0 c.1 row px)),
)

-- one row of `w` pixels
unfoldable pub blit_row : BlendMode → Bitmap → ℕ → ℕ → ℕ → ℕ → ℕ → ℕ → Canvas → Canvas
blit_row blend bitmap src_x src_y dst_x dst_y w row c =
    let src_row = mul32 (add32 src_y row) bitmap.width in
    let dst_row = fb_row c.0 (add32 dst_y row) in
    for_up (λ col. blit_px blend bitmap (add32 (add32 src_row src_x) col) dst_row (add32 dst_x col))
      w 0 c

unfoldable pub fb_blit_bitmap_blend : ℕ → ℕ → Option Bitmap → BlendMode → Canvas → Canvas
fb_blit_bitmap_blend x y none blend c = c
fb_blit_bitmap_blend x y (some bitmap) blend c =
    let clip = fb_get_clip c.0 in
    let src_x = cut_before x clip.x in
    let src_y = cut_before y clip.y in
    let dst_x = max_i32 x clip.x in
    let dst_y = max_i32 y clip.y in
    let w = cut_after dst_x (sub32 bitmap.width src_x) (add32 clip.x clip.w) c.0.width in
    let h = cut_after dst_y (sub32 bitmap.height src_y) (add32 clip.y clip.h) c.0.height in
    let drawn = for_up (blit_row blend bitmap src_x src_y dst_x dst_y w) h 0 c in
    if bitmap.pixels == null || w == 0 || h == 0
    then c
    else (fb_mark_dirty drawn.0 dst_x dst_y w h, drawn.1)

unfoldable pub fb_blit_bitmap : ℕ → ℕ → Option Bitmap → Canvas → Canvas
fb_blit_bitmap x y bitmap c = fb_blit_bitmap_blend x y bitmap opaque c

unfoldable pub fb_blit_bitmap_alpha : ℕ → ℕ → Option Bitmap → Canvas → Canvas
fb_blit_bitmap_alpha x y bitmap c = fb_blit_bitmap_blend x y bitmap alpha c

unfoldable pub scaled_px : Bitmap → ℕ → ℕ → ℕ → ℕ → ℕ → ℕ → Canvas → Canvas
scaled_px bitmap x y scale_x scale_y dy dx c =
    let pixel = bitmap_at c.1 bitmap (add32 (mul32 (dy / scale_y) bitmap.width) (dx / scale_x)) in
    let px = add32 x dx in
    let py = add32 y dy in put_if (not (is_negative px) && not (is_negative py)) px py pixel c

unfoldable pub fb_blit_bitmap_scaled : ℕ → ℕ → Option Bitmap → ℕ → ℕ → Canvas → Canvas
fb_blit_bitmap_scaled x y none scale_x scale_y c = c
fb_blit_bitmap_scaled x y (some bitmap) scale_x scale_y c =
    if bitmap.pixels == null || scale_x == 0 || scale_y == 0
    then c
    else for_up
        (λ dy. for_up (scaled_px bitmap x y scale_x scale_y dy) (mul32 bitmap.width scale_x) 0)
        (mul32 bitmap.height scale_y) 0 c

unfoldable pub region_px : Bitmap → ℕ → ℕ → ℕ → ℕ → ℕ → ℕ → Canvas → Canvas
region_px bitmap src_x src_y dst_x dst_y row col c =
    let pixel =
      bitmap_at c.1 bitmap (add32 (add32 (mul32 (add32 src_y row) bitmap.width) src_x) col) in
    let px = add32 dst_x col in
    let py = add32 dst_y row in
    if not (is_negative px) && not (is_negative py) && ltb 0 (fb_alpha pixel)
    then (c.0, fb_put_pixel_blend c.0 c.1 px py pixel)
    else c

unfoldable pub fb_blit_bitmap_region : Option Bitmap → ℕ → ℕ → ℕ → ℕ → ℕ → ℕ → Canvas → Canvas
fb_blit_bitmap_region none src_x src_y src_w src_h dst_x dst_y c = c
fb_blit_bitmap_region (some bitmap) src_x src_y src_w src_h dst_x dst_y c =
    if bitmap.pixels == null
    then c
    else for_up (λ row. for_up (region_px bitmap src_x src_y dst_x dst_y row) src_w 0) src_h 0 c
