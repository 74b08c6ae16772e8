-- ===== src/Framebuffer/Tests/Drawing.antt =====
-- Drawing on the screen of 8 by 4 pixels: the theorems at inputs, and runs that end as expected.
use tutorial_os.Common.{
  ℕ, ◌≤◌, ◌<◌, ◌+◌, ◌-◌, ◌*◌, ltb, ◌≡◌, inl, inr, refl, false, not, ◌&&◌, some, if◌then◌else◌,
  arith,
}
use tutorial_os.Memory.{load_byte}
use tutorial_os.Framebuffer.{
  argb8888, fb_get_clip, is_clipped, fb_row, fb_push_clip, fb_put_pixel, fb_get_pixel,
}
use tutorial_os.Framebuffer.Int32.{is_negative, neg32}
use tutorial_os.Framebuffer.Canvas.{put_if}
use tutorial_os.Framebuffer.Fill.Shown.{covers}
use tutorial_os.Framebuffer.Segment.Root.{isqrt-IsRoot}
use tutorial_os.Framebuffer.Segment.Bresenham.{NearBy, line-ends}
use tutorial_os.Framebuffer.Shape.{fb_draw_circle}
use tutorial_os.Framebuffer.Shape.Octants.{circles-return}
use tutorial_os.Framebuffer.Area.{fb_draw_rounded_rect}
use tutorial_os.Framebuffer.Font.{font_8x8}
use tutorial_os.Framebuffer.Text.{glyph_bit, fb_draw_char, fb_draw_char_transparent}
use tutorial_os.Framebuffer.Text.Glyph.{get_pixel-draw_char}
use tutorial_os.Framebuffer.Screen.{fb_copy_rect, fb_scroll_v}
use tutorial_os.Framebuffer.Screen.Moved.{get_pixel-copy_rect}
use tutorial_os.Framebuffer.Screen.Scroll.{get_pixel-scroll_v}
use tutorial_os.Framebuffer.Pixel.{Shaped, as_stored}
use tutorial_os.Framebuffer.Tests.{screen, blank, screen-Clipped, corner}
use tutorial_os.Framebuffer.Canvas.{Canvas}
use tutorial_os.Framebuffer.Canvas.Paints.{Ready, Hidden, undirtied}
use tutorial_os.Framebuffer.Area.{fb_clear}
use tutorial_os.Framebuffer.Area.Clear.{get_pixel-clear}
use tutorial_os.Framebuffer.Segment.{line_loop, fb_draw_line, fb_isqrt}
use tutorial_os.Framebuffer.Shape.{fb_fill_circle}
use tutorial_os.Framebuffer.Command.{Command, draw_line, run, run-Hidden}
use tutorial_os.Framebuffer.Command.Session.{draw, push, clear, Reach, here, next, Reach-OffScreen}

abbrev canvas : Canvas
canvas = (screen, blank)

screen-Shaped : Shaped screen
screen-Shaped = record { rows = omega arith; size = omega arith }

screen-Ready : Ready screen
screen-Ready = record { shaped = screen-Shaped; clipped = screen-Clipped; words = refl }

get_pixel-clear_example :
    fb_get_pixel (fb_clear 77 canvas).0 (fb_clear 77 canvas).1 7 3 ≡ as_stored argb8888 77
get_pixel-clear_example =
    get_pixel-clear 77 canvas 7 3 screen-Shaped refl (omega arith) (omega arith) (omega arith)

-- from the pixel (6, 2) past the right edge
abbrev dot : Command
dot = draw_line 6 2 6 2 77

abbrev dotted : Canvas
dotted = (screen, fb_put_pixel screen blank 6 2 77)

run-dot : run 1 dot canvas ≡ some dotted
unfolding run fb_draw_line line_loop
run-dot = refl

below-Hidden : Hidden screen 100
unfolding fb_row
below-Hidden x y hx hy shown = inr (omega arith)

run-Hidden_example :
    (undirtied screen ≡ undirtied screen)
    × (load_byte (fb_put_pixel screen blank 6 2 77) 100 ≡ load_byte blank 100)
run-Hidden_example = run-Hidden 1 dot canvas dotted 100 screen-Ready run-dot below-Hidden

session :
    Reach canvas (fb_clear 5 ((fb_push_clip screen corner).1, fb_put_pixel screen blank 6 2 77))
session =
    next (next (next here (draw 1 dot run-dot)) (push dotted corner (omega arith) (omega arith)))
      (clear ((fb_push_clip screen corner).1, fb_put_pixel screen blank 6 2 77) 5)

Reach-OffScreen_example :
    Ready (fb_clear 5 ((fb_push_clip screen corner).1, fb_put_pixel screen blank 6 2 77)).0
    × ((fb_clear 5 ((fb_push_clip screen corner).1, fb_put_pixel screen blank 6 2 77)).0.addr
        ≡ 8192)
    × (load_byte
          (fb_clear 5 ((fb_push_clip screen corner).1, fb_put_pixel screen blank 6 2 77)).1
          100
        ≡ load_byte blank 100)
Reach-OffScreen_example =
    Reach-OffScreen canvas
      (fb_clear 5 ((fb_push_clip screen corner).1, fb_put_pixel screen blank 6 2 77)) 100
      screen-Ready session (inl (omega arith))

isqrt-IsRoot_example : (r : ℕ) × (fb_isqrt 33 99 ≡ some r) × (r * r ≤ 99) × (99 < (r + 1) * (r + 1))
isqrt-IsRoot_example = isqrt-IsRoot 33 99 (omega arith) (omega arith)

near_x : NearBy 1 6
near_x = record {
  word0 = omega arith;
  word1 = omega arith;
  before = omega arith;
  after = omega arith;
}

-- from 3 up to -1
near_y : NearBy 3 4294967295
near_y = record {
  word0 = omega arith;
  word1 = omega arith;
  before = omega arith;
  after = omega arith;
}

line-ends_example :
    (d : Canvas) × (fb_draw_line 10 1 3 6 4294967295 77 canvas
      ≡ some (put_if (not (is_negative 6) && not (is_negative 4294967295)) 6 4294967295 77 d))
line-ends_example = line-ends 10 1 3 6 4294967295 77 canvas near_x near_y (omega arith)

circles-return_example :
    ((d : Canvas) × (fb_draw_circle 6 4 2 3 77 canvas ≡ some d))
    × ((d : Canvas) × (fb_fill_circle 6 4 2 3 77 canvas ≡ some d))
    × ((d : Canvas) × (fb_draw_rounded_rect 6 4 2 8 4 3 77 canvas ≡ some d))
circles-return_example = circles-return 6 3 77 canvas 4 2 8 4 (omega arith) (omega arith)

-- `A` has its top row at column 2 and 3
get_pixel-draw_char_example :
    (fb_get_pixel screen (fb_draw_char 0 0 65 77 5 canvas).1 3 0 ≡ (
      if covers 0 8 3 && covers 0 8 0 && not (is_clipped screen 3 0)
      then as_stored argb8888 (if glyph_bit font_8x8 65 0 3 then 77 else 5)
      else fb_get_pixel screen blank 3 0))
    × (fb_get_pixel screen (fb_draw_char_transparent 0 0 65 77 canvas).1 3 0 ≡ (
        if covers 0 8 3 && covers 0 8 0 && glyph_bit font_8x8 65 0 3 && not (is_clipped screen 3 0)
        then as_stored argb8888 77
        else fb_get_pixel screen blank 3 0))
get_pixel-draw_char_example =
    get_pixel-draw_char 0 0 65 77 5 canvas 3 0 screen-Shaped (omega arith) (omega arith)
      (omega arith) (omega arith) (omega arith) (omega arith)

get_pixel-copy_rect_example : fb_get_pixel screen (fb_copy_rect 0 0 2 1 4 2 canvas).1 5 2 ≡ (
    if covers 2 4 5 && covers 1 2 2
    then fb_get_pixel screen blank (0 + (5 - 2)) (0 + (2 - 1))
    else fb_get_pixel screen blank 5 2)
get_pixel-copy_rect_example =
    get_pixel-copy_rect 0 0 2 1 4 2 canvas 5 2 screen-Shaped refl (omega arith) (omega arith)
      (omega arith) (omega arith) (omega arith) (omega arith) (omega arith) (omega arith)

corner_shown : is_clipped screen 7 3 ≡ false
unfolding is_clipped fb_get_clip
corner_shown = refl

get_pixel-scroll_v_example :
    (fb_get_pixel screen (fb_scroll_v 1 77 canvas).1 7 3
      ≡ (if ltb 3 1 then as_stored argb8888 77 else fb_get_pixel screen blank 7 (3 - 1)))
    × (fb_get_pixel screen (fb_scroll_v (neg32 1) 77 canvas).1 7 3
        ≡ (if ltb 3 (4 - 1) then fb_get_pixel screen blank 7 (3 + 1) else as_stored argb8888 77))
get_pixel-scroll_v_example =
    get_pixel-scroll_v 1 77 canvas 7 3 screen-Ready (omega arith) (omega arith) (omega arith)
      (omega arith) (omega arith) corner_shown
