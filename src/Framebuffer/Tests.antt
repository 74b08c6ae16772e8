-- ===== src/Framebuffer/Tests.antt =====
-- A screen of 8 by 4 pixels.
mod Drawing
mod Display
use tutorial_os.Common.{
  ℕ, zero, suc, ◌≤◌, ◌≡◌, refl, true, false, not, ◌&&◌, ◌||◌, [], ◌∷◌, get_or, replicate, ◌==◌,
  if◌then◌else◌, arith,
}
use tutorial_os.Memory.{Memory}
use tutorial_os.Framebuffer.Color.{
  fb_argb, fb_alpha, fb_red, fb_green, fb_blue, fb_argb_to_565, fb_565_to_argb, fb_color_lerp,
  fb_blend_alpha,
}
use tutorial_os.Framebuffer.Color.Blend.{
  Components, Between, fb_argb-Components, color_lerp-Between, blend_alpha-Between,
  argb_to_565-expand,
}
use tutorial_os.Framebuffer.{
  argb8888, Rect, rect, Framebuffer, no_clip, fb_get_clip, is_clipped, fb_push_clip, fb_pop_clip,
  fb_reset_clip, fb_put_pixel, fb_get_pixel,
}
use tutorial_os.Framebuffer.Clip.{spans, Fits, OnScreen}
use tutorial_os.Framebuffer.Clip.Stack.{
  Clipped, Clipped-kept, push_clip-is_clipped, pop_clip-push_clip,
}
use tutorial_os.Framebuffer.Fill.{fb_fill_rect}
use tutorial_os.Framebuffer.Fill.Shown.{covers, get_pixel-fill_rect}
use tutorial_os.Framebuffer.Line.{fb_draw_hline, get_pixel-draw_hline}
use tutorial_os.Framebuffer.Pixel.{as_stored, get_pixel-put_pixel}

abbrev pub screen : Framebuffer
screen = record {
  addr = 8192;
  width = 8;
  height = 4;
  pitch = 32;
  buffers = 4096 ∷ 8192 ∷ [];
  front_buffer = 0;
  back_buffer = 1;
  buffer_size = 128;
  virtual_height = 8;
  dirty_rects = replicate 32 no_clip;
  dirty_count = 0;
  full_dirty = false;
  clip_stack = rect 0 0 8 4 ∷ replicate 15 no_clip;
  clip_depth = 0;
  frame_count = 0;
  vsync_enabled = false;
  initialized = true;
  pixel_format = argb8888;
}

abbrev pub blank : Memory
blank a = 0

-- from -2 on, 6 wide
abbrev corner : Rect
corner = rect 4294967294 1 6 2

pub screen-Clipped : Clipped screen
screen-Clipped = record {
  depth = omega arith;
  slots = refl;
  width = omega arith;
  height = omega arith;
  all = λ i h. bottom i h;
}
  where
    bottom : (i : ℕ) → i ≤ 0 → OnScreen 8 4 (get_or screen.clip_stack i no_clip)
    bottom zero h = record { x = omega arith; y = omega arith }
    bottom (suc i) h = absurd (omega arith)

corner-Fits : Fits corner
corner-Fits = record { x = omega arith; y = omega arith; x-lt = omega arith; y-lt = omega arith }

push_clip-is_clipped_example :
    ((fb_push_clip screen corner).0 ≡ true)
    × (is_clipped (fb_push_clip screen corner).1 3 2
        ≡ (is_clipped screen 3 2 || not (spans 4294967294 6 3 && spans 1 2 2)))
push_clip-is_clipped_example =
    push_clip-is_clipped screen corner 3 2 screen-Clipped (omega arith) corner-Fits (omega arith)
      (omega arith)

pushed_ok : (fb_push_clip screen corner).0 ≡ true
unfolding fb_push_clip
pushed_ok = refl

not_clipped : is_clipped screen 3 2 ≡ false
unfolding is_clipped fb_get_clip
not_clipped = refl

get_pixel-put_pixel_example :
    fb_get_pixel screen (fb_put_pixel screen blank 3 2 77) 3 2
    ≡ (if 3 == 3 && 2 == 2 then as_stored argb8888 77 else fb_get_pixel screen blank 3 2)
get_pixel-put_pixel_example =
    get_pixel-put_pixel screen blank 3 2 77 3 2 (record { rows = omega arith; size = omega arith })
      (omega arith) (omega arith) (omega arith) not_clipped (omega arith) (omega arith)

blend_alpha_example :
    Between (fb_alpha 0xFF000000) (fb_alpha (fb_blend_alpha 0x80FFEEDD 0xFF000000)) 255
    × Between
        (fb_red 0xFF000000)
        (fb_red (fb_blend_alpha 0x80FFEEDD 0xFF000000))
        (fb_red 0x80FFEEDD)
    × Between
        (fb_green 0xFF000000)
        (fb_green (fb_blend_alpha 0x80FFEEDD 0xFF000000))
        (fb_green 0x80FFEEDD)
    × Between
        (fb_blue 0xFF000000)
        (fb_blue (fb_blend_alpha 0x80FFEEDD 0xFF000000))
        (fb_blue 0x80FFEEDD)
blend_alpha_example = blend_alpha-Between 0x80FFEEDD 0xFF000000

get_pixel-fill_rect_example : fb_get_pixel screen (fb_fill_rect screen blank 2 1 9 2 77).1 7 2 ≡ (
    if (covers 2 9 7 && covers 1 2 2) && not (is_clipped screen 7 2)
    then as_stored argb8888 77
    else fb_get_pixel screen blank 7 2)
get_pixel-fill_rect_example =
    get_pixel-fill_rect screen blank 2 1 9 2 77 7 2
      (record { rows = omega arith; size = omega arith }) screen-Clipped (omega arith) (omega arith)
      (omega arith) (omega arith) (omega arith) (omega arith)

get_pixel-draw_hline_example : fb_get_pixel screen (fb_draw_hline screen blank 2 1 9 77) 7 1 ≡ (
    if (covers 2 9 7 && 1 == 1) && not (is_clipped screen 7 1)
    then as_stored argb8888 77
    else fb_get_pixel screen blank 7 1)
get_pixel-draw_hline_example =
    get_pixel-draw_hline screen blank 2 1 9 77 7 1
      (record { rows = omega arith; size = omega arith }) screen-Clipped (omega arith) (omega arith)
      (omega arith) (omega arith) (omega arith)
