-- ===== src/Framebuffer/Screen.antt =====
-- drivers/src/framebuffer/framebuffer.c: copying a rectangle within the screen, scrolling, and the frame
-- and pictures of the Game Boy screen.
pub mod Raw
pub mod Moved
pub mod Scroll
use tutorial_os.Common.{
  ℕ, zero, suc, ◌+◌, ◌-◌, ◌*◌, ◌/◌, ◌%◌, ◌^◌, Bool, true, false, not, ◌&&◌, ◌||◌, Option, none,
  some, List, [], ◌∷◌, get_or, ltb, leb, ◌==◌, if◌then◌else◌,
}
use tutorial_os.Memory.{Memory, null, load_byte, load_bytes, store_bytes, load32, store32}
use tutorial_os.Framebuffer.{
  add32, sub32, PixelFormat, argb8888, abgr8888, rgb565, Framebuffer, fb_row, fb_mark_dirty,
}
use tutorial_os.Framebuffer.Int32.{mul32, abs_i32, is_negative}
use tutorial_os.Framebuffer.Canvas.{Canvas, for_up, put, fill}
use tutorial_os.Framebuffer.Area.{fb_clear}

-- `for (i = n; i > 0; i--) body(i)`
abbrev pub for_down {ℓ} : {A : Type ℓ} → (ℕ → A → A) → ℕ → A → A
for_down body zero a = a
for_down body (suc n) a = for_down body n (body (suc n) a)

-- the address of a pixel: 16-bit rows are counted in bytes, the 32-bit index in words
abbrev pub pixel_at : PixelFormat → Framebuffer → ℕ → ℕ → ℕ
pixel_at rgb565 fb x y = fb_row fb y + 2 * x
pixel_at argb8888 fb x y = fb.addr + 4 * add32 (mul32 y (fb.pitch / 4)) x
pixel_at abgr8888 fb x y = fb.addr + 4 * add32 (mul32 y (fb.pitch / 4)) x

-- one pixel, as it is stored
abbrev pub move_px : PixelFormat → Memory → ℕ → ℕ → Memory
move_px rgb565 m src dst = store_bytes 2 m dst (load_bytes 2 m src)
move_px argb8888 m src dst = store32 m dst (load32 m src)
move_px abgr8888 m src dst = store32 m dst (load32 m src)

unfoldable pub copy_px : Framebuffer → ℕ → ℕ → ℕ → ℕ → ℕ → ℕ → Memory → Memory
copy_px fb src_x src_y dst_x dst_y row col m =
    let f = fb.pixel_format in
    move_px f m (pixel_at f fb (add32 src_x col) (add32 src_y row))
      (pixel_at f fb (add32 dst_x col) (add32 dst_y row))

-- A rectangle that moves down, or right within its rows, is copied from its end.
unfoldable pub copy_rows : Framebuffer → ℕ → ℕ → ℕ → ℕ → ℕ → ℕ → Memory → Memory
copy_rows fb src_x src_y dst_x dst_y w h m =
    let px = copy_px fb src_x src_y dst_x dst_y in
    if ltb src_y dst_y || (src_y == dst_y && ltb src_x dst_x)
    then for_down (λ row. for_down (λ col. px (row - 1) (col - 1)) w) h m
    else for_up (λ row. for_up (px row) w 0) h 0 m

unfoldable pub fb_copy_rect : ℕ → ℕ → ℕ → ℕ → ℕ → ℕ → Canvas → Canvas
fb_copy_rect src_x src_y dst_x dst_y w h c =
    (fb_mark_dirty c.0 dst_x dst_y w h, copy_rows c.0 src_x src_y dst_x dst_y w h c.1)

unfoldable pub fb_scroll_v : ℕ → ℕ → Canvas → Canvas
fb_scroll_v pixels fill_color c =
    let n = abs_i32 pixels in
    let width = c.0.width in
    let height = c.0.height in
    if pixels == 0
    then c
    else if leb height n
    then fb_clear fill_color c
    else if is_negative pixels
    then fill 0 (sub32 height n) width n fill_color (fb_copy_rect 0 n 0 0 width (sub32 height n) c)
    else fill 0 0 width n fill_color (fb_copy_rect 0 0 0 n width (sub32 height n) c)

unfoldable pub fb_scroll_h : ℕ → ℕ → Canvas → Canvas
fb_scroll_h pixels fill_color c =
    let n = abs_i32 pixels in
    let width = c.0.width in
    let height = c.0.height in
    if pixels == 0
    then c
    else if leb width n
    then fb_clear fill_color c
    else if is_negative pixels
    then fill (sub32 width n) 0 n height fill_color (fb_copy_rect n 0 0 0 (sub32 width n) height c)
    else fill 0 0 n height fill_color (fb_copy_rect 0 0 n 0 (sub32 width n) height c)
