-- ===== src/Framebuffer/Command.antt =====
-- The drawing functions of framebuffer.c that respect the clip rectangle, as one type of commands. A
-- command that needs fuel has no result without it, and a filled triangle has none where its loop has
-- no end.
pub mod Session
use tutorial_os.Common.{ℕ, ◌≡◌, Bool, Option, none, some}
use tutorial_os.Memory.{Memory, load_byte}
use tutorial_os.Framebuffer.{Framebuffer, fb_put_pixel, fb_put_pixel_blend}
use tutorial_os.Framebuffer.Canvas.{Canvas, put, hline, fill}
use tutorial_os.Framebuffer.Segment.{fb_draw_vline, fb_draw_rect, fb_draw_line}
use tutorial_os.Framebuffer.Shape.{fb_fill_circle, fb_draw_circle, fb_draw_line_thick, fb_draw_arc}
use tutorial_os.Framebuffer.Area.{
  fb_fill_rounded_rect, fb_draw_rounded_rect, fb_draw_triangle, fb_fill_triangle,
  fb_fill_rect_gradient_v, fb_fill_rect_gradient_h, fb_fill_rect_blend, fb_fade,
}
use tutorial_os.Framebuffer.Text.{
  fb_draw_char, fb_draw_char_transparent, fb_draw_char_large, fb_draw_char_large_transparent,
  fb_draw_char_scaled, fb_draw_string, fb_draw_string_transparent, fb_draw_string_large,
  fb_draw_string_large_transparent, fb_draw_string_scaled, fb_draw_string_scaled_transparent,
  fb_draw_string_centered, fb_draw_string_center,
}
use tutorial_os.Framebuffer.Blit.{Bitmap, fb_blit_bitmap_scaled, fb_blit_bitmap_region}
use tutorial_os.Framebuffer.GameBoy.{fb_draw_gb_border}
use tutorial_os.Framebuffer.Canvas.Paints.{
  Ready, undirtied, Hidden, Painted, Painted-refl, Each, Each-some,
}
use tutorial_os.Framebuffer.Canvas.Paints.Basic.{put-Painted, hline-Painted, fill-Painted}
use tutorial_os.Framebuffer.Canvas.Paints.Column.{put_blend-Painted, vline-Painted, blend-Painted}
use tutorial_os.Framebuffer.Canvas.Paints.Lines.{
  rect-Painted, line-Painted, fill_circle-Painted, circle-Painted, line_thick-Painted, arc-Painted,
}
use tutorial_os.Framebuffer.Canvas.Paints.Areas.{
  fill_rounded-Painted, rounded-Painted, triangle-Painted, fill_triangle-Painted,
  gradient_v-Painted, gradient_h-Painted, fade-Painted, border-Painted,
}
use tutorial_os.Framebuffer.Canvas.Paints.Texts.{
  char-Painted, char_transparent-Painted, char_large-Painted, char_large_transparent-Painted,
  char_scaled-Painted, string-Painted, string_transparent-Painted, string_large-Painted,
  string_large_transparent-Painted, string_scaled-Painted, string_scaled_transparent-Painted,
  string_centered-Painted, string_center-Painted, scaled-Painted, region-Painted,
}

pub data Command : Type 0 where
  put_pixel : ℕ → ℕ → ℕ → Command
  put_pixel_blend : ℕ → ℕ → ℕ → Command
  draw_hline : ℕ → ℕ → ℕ → ℕ → Command
  draw_vline : ℕ → ℕ → ℕ → ℕ → Command
  fill_rect : ℕ → ℕ → ℕ → ℕ → ℕ → Command
  fill_rect_blend : ℕ → ℕ → ℕ → ℕ → ℕ → Command
  fade : ℕ → Command
  draw_rect : ℕ → ℕ → ℕ → ℕ → ℕ → Command
  draw_line : ℕ → ℕ → ℕ → ℕ → ℕ → Command
  draw_line_thick : ℕ → ℕ → ℕ → ℕ → ℕ → ℕ → Command
  fill_circle : ℕ → ℕ → ℕ → ℕ → Command
  draw_circle : ℕ → ℕ → ℕ → ℕ → Command
  draw_arc : ℕ → ℕ → ℕ → ℕ → ℕ → ℕ → Command
  fill_rounded_rect : ℕ → ℕ → ℕ → ℕ → ℕ → ℕ → Command
  draw_rounded_rect : ℕ → ℕ → ℕ → ℕ → ℕ → ℕ → Command
  draw_triangle : ℕ → ℕ → ℕ → ℕ → ℕ → ℕ → ℕ → Command
  fill_triangle : ℕ → ℕ → ℕ → ℕ → ℕ → ℕ → ℕ → Command
  fill_rect_gradient_v : ℕ → ℕ → ℕ → ℕ → ℕ → ℕ → Command
  fill_rect_gradient_h : ℕ → ℕ → ℕ → ℕ → ℕ → ℕ → Command
  draw_char : ℕ → ℕ → ℕ → ℕ → ℕ → Command
  draw_char_transparent : ℕ → ℕ → ℕ → ℕ → Command
  draw_char_large : ℕ → ℕ → ℕ → ℕ → ℕ → Command
  draw_char_large_transparent : ℕ → ℕ → ℕ → ℕ → Command
  draw_char_scaled : ℕ → ℕ → ℕ → ℕ → ℕ → ℕ → Command
  draw_string : ℕ → ℕ → ℕ → ℕ → ℕ → Command
  draw_string_transparent : ℕ → ℕ → ℕ → ℕ → Command
  draw_string_large : ℕ → ℕ → ℕ → ℕ → ℕ → Command
  draw_string_large_transparent : ℕ → ℕ → ℕ → ℕ → Command
  draw_string_scaled : ℕ → ℕ → ℕ → ℕ → ℕ → ℕ → Command
  draw_string_scaled_transparent : ℕ → ℕ → ℕ → ℕ → ℕ → Command
  draw_string_centered : ℕ → ℕ → ℕ → ℕ → Command
  draw_string_center : ℕ → ℕ → ℕ → Command
  blit_bitmap_scaled : ℕ → ℕ → Option Bitmap → ℕ → ℕ → Command
  blit_bitmap_region : Option Bitmap → ℕ → ℕ → ℕ → ℕ → ℕ → ℕ → Command
  draw_gb_border : ℕ → Command

unfoldable pub run : ℕ → Command → Canvas → Option Canvas
run fuel (put_pixel x y color) c = some (put x y color c)
run fuel (put_pixel_blend x y color) c = some (c.0, fb_put_pixel_blend c.0 c.1 x y color)
run fuel (draw_hline x y len color) c = some (hline x y len color c)
run fuel (draw_vline x y len color) c = some (fb_draw_vline x y len color c)
run fuel (fill_rect x y w h color) c = some (fill x y w h color c)
run fuel (fill_rect_blend x y w h color) c = some (fb_fill_rect_blend x y w h color c)
run fuel (fade amount) c = some (fb_fade amount c)
run fuel (draw_rect x y w h color) c = some (fb_draw_rect x y w h color c)
run fuel (draw_line x0 y0 x1 y1 color) c = fb_draw_line fuel x0 y0 x1 y1 color c
run fuel (draw_line_thick x0 y0 x1 y1 thickness color) c =
    fb_draw_line_thick fuel x0 y0 x1 y1 thickness color c
run fuel (fill_circle cx cy radius color) c = fb_fill_circle fuel cx cy radius color c
run fuel (draw_circle cx cy radius color) c = fb_draw_circle fuel cx cy radius color c
run fuel (draw_arc cx cy radius start_deg end_deg color) c =
    fb_draw_arc fuel cx cy radius start_deg end_deg color c
run fuel (fill_rounded_rect x y w h radius color) c =
    some (fb_fill_rounded_rect x y w h radius color c)
run fuel (draw_rounded_rect x y w h radius color) c =
    fb_draw_rounded_rect fuel x y w h radius color c
run fuel (draw_triangle x0 y0 x1 y1 x2 y2 color) c = fb_draw_triangle fuel x0 y0 x1 y1 x2 y2 color c
run fuel (fill_triangle x0 y0 x1 y1 x2 y2 color) c = fb_fill_triangle x0 y0 x1 y1 x2 y2 color c
run fuel (fill_rect_gradient_v x y w h top bottom) c =
    some (fb_fill_rect_gradient_v x y w h top bottom c)
run fuel (fill_rect_gradient_h x y w h left right) c =
    some (fb_fill_rect_gradient_h x y w h left right c)
run fuel (draw_char x y ch fg bg) c = some (fb_draw_char x y ch fg bg c)
run fuel (draw_char_transparent x y ch fg) c = some (fb_draw_char_transparent x y ch fg c)
run fuel (draw_char_large x y ch fg bg) c = some (fb_draw_char_large x y ch fg bg c)
run fuel (draw_char_large_transparent x y ch fg) c =
    some (fb_draw_char_large_transparent x y ch fg c)
run fuel (draw_char_scaled x y ch fg bg scale) c = some (fb_draw_char_scaled x y ch fg bg scale c)
run fuel (draw_string x y str fg bg) c = fb_draw_string fuel x y str fg bg c
run fuel (draw_string_transparent x y str fg) c = fb_draw_string_transparent fuel x y str fg c
run fuel (draw_string_large x y str fg bg) c = fb_draw_string_large fuel x y str fg bg c
run fuel (draw_string_large_transparent x y str fg) c =
    fb_draw_string_large_transparent fuel x y str fg c
run fuel (draw_string_scaled x y str fg bg scale) c =
    fb_draw_string_scaled fuel x y str fg bg scale c
run fuel (draw_string_scaled_transparent x y str fg scale) c =
    fb_draw_string_scaled_transparent fuel x y str fg scale c
run fuel (draw_string_centered y str fg bg) c = fb_draw_string_centered fuel y str fg bg c
run fuel (draw_string_center str fg bg) c = fb_draw_string_center fuel str fg bg c
run fuel (blit_bitmap_scaled x y bitmap scale_x scale_y) c =
    some (fb_blit_bitmap_scaled x y bitmap scale_x scale_y c)
run fuel (blit_bitmap_region bitmap src_x src_y src_w src_h dst_x dst_y) c =
    some (fb_blit_bitmap_region bitmap src_x src_y src_w src_h dst_x dst_y c)
run fuel (draw_gb_border color) c = some (fb_draw_gb_border color c)

run-Each :
    (fuel : ℕ) (command : Command) (f : Framebuffer) (m : Memory) (c : Canvas)
    → Ready f
    → Painted f m c
    → Each (Painted f m) (run fuel command c)
unfolding run
run-Each fuel (put_pixel x y color) f m c r p = Each-some _ (put-Painted r x y color c p)
run-Each fuel (put_pixel_blend x y color) f m c r p =
    Each-some _ (put_blend-Painted r x y color c p)
run-Each fuel (draw_hline x y len color) f m c r p = Each-some _ (hline-Painted r x y len color c p)
run-Each fuel (draw_vline x y len color) f m c r p = Each-some _ (vline-Painted r x y len color c p)
run-Each fuel (fill_rect x y w h color) f m c r p = Each-some _ (fill-Painted r x y w h color c p)
run-Each fuel (fill_rect_blend x y w h color) f m c r p =
    Each-some _ (blend-Painted r x y w h color c p)
run-Each fuel (fade amount) f m c r p = Each-some _ (fade-Painted r amount c p)
run-Each fuel (draw_rect x y w h color) f m c r p = Each-some _ (rect-Painted r x y w h color c p)
run-Each fuel (draw_line x0 y0 x1 y1 color) f m c r p = line-Painted r fuel x0 y0 x1 y1 color c p
run-Each fuel (draw_line_thick x0 y0 x1 y1 thickness color) f m c r p =
    line_thick-Painted r fuel x0 y0 x1 y1 thickness color c p
run-Each fuel (fill_circle cx cy radius color) f m c r p =
    fill_circle-Painted r fuel cx cy radius color c p
run-Each fuel (draw_circle cx cy radius color) f m c r p =
    circle-Painted r fuel cx cy radius color c p
run-Each fuel (draw_arc cx cy radius start_deg end_deg color) f m c r p =
    arc-Painted r fuel cx cy radius start_deg end_deg color c p
run-Each fuel (fill_rounded_rect x y w h radius color) f m c r p =
    Each-some _ (fill_rounded-Painted r x y w h radius color c p)
run-Each fuel (draw_rounded_rect x y w h radius color) f m c r p =
    rounded-Painted r fuel x y w h radius color c p
run-Each fuel (draw_triangle x0 y0 x1 y1 x2 y2 color) f m c r p =
    triangle-Painted r fuel x0 y0 x1 y1 x2 y2 color c p
run-Each fuel (fill_triangle x0 y0 x1 y1 x2 y2 color) f m c r p =
    fill_triangle-Painted r x0 y0 x1 y1 x2 y2 color c p
run-Each fuel (fill_rect_gradient_v x y w h top bottom) f m c r p =
    Each-some _ (gradient_v-Painted r x y w h top bottom c p)
run-Each fuel (fill_rect_gradient_h x y w h left right) f m c r p =
    Each-some _ (gradient_h-Painted r x y w h left right c p)
run-Each fuel (draw_char x y ch fg bg) f m c r p = Each-some _ (char-Painted r x y ch fg bg c p)
run-Each fuel (draw_char_transparent x y ch fg) f m c r p =
    Each-some _ (char_transparent-Painted r x y ch fg c p)
run-Each fuel (draw_char_large x y ch fg bg) f m c r p =
    Each-some _ (char_large-Painted r x y ch fg bg c p)
run-Each fuel (draw_char_large_transparent x y ch fg) f m c r p =
    Each-some _ (char_large_transparent-Painted r x y ch fg c p)
run-Each fuel (draw_char_scaled x y ch fg bg scale) f m c r p =
    Each-some _ (char_scaled-Painted r x y ch fg bg scale c p)
run-Each fuel (draw_string x y str fg bg) f m c r p = string-Painted r fuel x y str fg bg c p
run-Each fuel (draw_string_transparent x y str fg) f m c r p =
    string_transparent-Painted r fuel x y str fg c p
run-Each fuel (draw_string_large x y str fg bg) f m c r p =
    string_large-Painted r fuel x y str fg bg c p
run-Each fuel (draw_string_large_transparent x y str fg) f m c r p =
    string_large_transparent-Painted r fuel x y str fg c p
run-Each fuel (draw_string_scaled x y str fg bg scale) f m c r p =
    string_scaled-Painted r fuel x y str fg bg scale c p
run-Each fuel (draw_string_scaled_transparent x y str fg scale) f m c r p =
    string_scaled_transparent-Painted r fuel x y str fg scale c p
run-Each fuel (draw_string_centered y str fg bg) f m c r p =
    string_centered-Painted r fuel y str fg bg c p
run-Each fuel (draw_string_center str fg bg) f m c r p = string_center-Painted r fuel str fg bg c p
run-Each fuel (blit_bitmap_scaled x y bitmap scale_x scale_y) f m c r p =
    Each-some _ (scaled-Painted r x y bitmap scale_x scale_y c p)
run-Each fuel (blit_bitmap_region bitmap src_x src_y src_w src_h dst_x dst_y) f m c r p =
    Each-some _ (region-Painted r bitmap src_x src_y src_w src_h dst_x dst_y c p)
run-Each fuel (draw_gb_border color) f m c r p = Each-some _ (border-Painted r color c p)

-- Whatever its arguments are, a drawing command that returns leaves the framebuffer as it was but for the
-- dirty rectangles, and writes no byte that does not belong to a pixel on the screen and within the
-- clip rectangle; the framebuffer must have room for its rows, a pitch of whole words and a clip stack
-- in order.
pub run-Hidden :
    (fuel : ℕ) (command : Command) (c c' : Canvas) (a : ℕ)
    → Ready c.0
    → run fuel command c ≡ some c'
    → Hidden c.0 a
    → (undirtied c'.0 ≡ undirtied c.0) × (load_byte c'.1 a ≡ load_byte c.1 a)
run-Hidden fuel command c c' a r done h =
    let painted = (run-Each fuel command c.0 c.1 c r (Painted-refl c)).holds c' done in
    (painted.frame, painted.rest a h)
