-- ===== src/Framebuffer/GameBoy.antt =====
-- drivers/src/framebuffer/framebuffer.c: the Game Boy screen, at twice its size in the middle of a screen
-- of the default size.
use tutorial_os.Common.{
  ℕ, ◌+◌, ◌-◌, ◌*◌, ◌/◌, ◌^◌, List, [], ◌∷◌, get_or, set, replicate, ltb, ◌==◌, if◌then◌else◌,
}
use tutorial_os.Memory.{Memory, null, load_byte, load32, store32}
use tutorial_os.Framebuffer.{PixelFormat, argb8888, abgr8888, rgb565}
use tutorial_os.Framebuffer.Int32.{mul32}
use tutorial_os.Framebuffer.Canvas.{Canvas, for_up, put, fill}

abbrev pub gb_width : ℕ
gb_width = 160

abbrev pub gb_height : ℕ
gb_height = 144

abbrev pub gb_scale : ℕ
gb_scale = 2

abbrev pub gb_scaled_w : ℕ
gb_scaled_w = gb_width * gb_scale

abbrev pub gb_scaled_h : ℕ
gb_scaled_h = gb_height * gb_scale

-- half of what a screen of 640 by 480 has left
abbrev pub gb_offset_x : ℕ
gb_offset_x = (640 - gb_scaled_w) / 2

abbrev pub gb_offset_y : ℕ
gb_offset_y = (480 - gb_scaled_h) / 2

abbrev pub gb_palette : List ℕ
gb_palette = 0xFFE0F8D0 ∷ 0xFF88C070 ∷ 0xFF346856 ∷ 0xFF081820 ∷ []

-- `palette[i]`, where NULL stands for gb_palette
abbrev pub palette_at : Memory → ℕ → ℕ → ℕ
palette_at m palette i =
    if palette == null then get_or gb_palette i 0 else load32 m (palette + 4 * i)

-- the colour of a pixel of the monochrome screen
unfoldable pub dmg_color : ℕ → ℕ → ℕ → ℕ → Memory → ℕ
dmg_color pal_data palette x y m =
    let i = load_byte m (pal_data + (y * gb_width + x)) in
    if ltb i 4 then palette_at m palette i else 0xFF000000

-- the colour of a pixel of the colour screen, three bytes in memory
unfoldable pub gbc_color : ℕ → ℕ → ℕ → Memory → ℕ
gbc_color rgb_data x y m =
    let i = rgb_data + (y * gb_width * 3 + x * 3) in
    0xFF000000 + load_byte m i * 2 ^ 16 + load_byte m (i + 1) * 2 ^ 8 + load_byte m (i + 2)

-- 16-bit screens: every pixel of the picture as a square of fb_put_pixel
unfoldable pub gb_square : (ℕ → ℕ → Memory → ℕ) → ℕ → ℕ → Canvas → Canvas
gb_square color_at y x c =
    let color = color_at x y c.1 in
    let dx = gb_offset_x + x * gb_scale in
    let dy = gb_offset_y + y * gb_scale in
    for_up (λ sy. for_up (λ sx. put (dx + sx) (dy + sy) color) gb_scale 0) gb_scale 0 c

-- 32-bit screens: a line of the picture at twice its width
unfoldable pub scanline_of : (ℕ → ℕ → Memory → ℕ) → ℕ → Memory → List ℕ
scanline_of color_at y m =
    for_up (λ x line. set (set line (x * 2) (color_at x y m)) (x * 2 + 1) (color_at x y m)) gb_width
      0 (replicate (gb_width * gb_scale) 0)

-- `WRITE_VOLATILE(&row0[i], scanline[i]); WRITE_VOLATILE(&row1[i], scanline[i]);`
abbrev pub write_twice : List ℕ → ℕ → ℕ → ℕ → Memory → Memory
write_twice line row0 row1 i m =
    store32 (store32 m (row0 + 4 * i) (get_or line i 0)) (row1 + 4 * i) (get_or line i 0)

unfoldable pub gb_line : (ℕ → ℕ → Memory → ℕ) → ℕ → Canvas → Canvas
gb_line color_at y c =
    let dst_y = gb_offset_y + y * gb_scale in
    let pitch_words = c.0.pitch / 4 in
    let row0 = c.0.addr + 4 * mul32 dst_y pitch_words + 4 * gb_offset_x in
    let row1 = c.0.addr + 4 * mul32 (dst_y + 1) pitch_words + 4 * gb_offset_x in
    (c.0, for_up (write_twice (scanline_of color_at y c.1) row0 row1) gb_scaled_w 0 c.1)

-- the two ways that a picture is drawn
abbrev pub gb_screen : PixelFormat → (ℕ → ℕ → Memory → ℕ) → Canvas → Canvas
gb_screen rgb565 color_at c = for_up (λ y. for_up (gb_square color_at y) gb_width 0) gb_height 0 c
gb_screen argb8888 color_at c = for_up (gb_line color_at) gb_height 0 c
gb_screen abgr8888 color_at c = for_up (gb_line color_at) gb_height 0 c

unfoldable pub fb_blit_gb_screen_dmg_palette : ℕ → ℕ → Canvas → Canvas
fb_blit_gb_screen_dmg_palette pal_data palette c =
    if pal_data == null then c else gb_screen c.0.pixel_format (dmg_color pal_data palette) c

-- NULL stands for gb_palette here too.
unfoldable pub fb_blit_gb_screen_dmg : ℕ → Canvas → Canvas
fb_blit_gb_screen_dmg pal_data c = fb_blit_gb_screen_dmg_palette pal_data null c

unfoldable pub fb_blit_gb_screen_gbc : ℕ → Canvas → Canvas
fb_blit_gb_screen_gbc rgb_data c =
    if rgb_data == null then c else gb_screen c.0.pixel_format (gbc_color rgb_data) c

unfoldable pub fb_draw_gb_border : ℕ → Canvas → Canvas
fb_draw_gb_border color c =
    let border : ℕ = 4 in
    let x = gb_offset_x - border in
    let y = gb_offset_y - border in
    let w = gb_scaled_w + border * 2 in
    let h = gb_scaled_h + border * 2 in
    let c1 = fill x y w border color c in
    let c2 = fill x (y + h - border) w border color c1 in
    let c3 = fill x y border h color c2 in fill (x + w - border) y border h color c3
