-- ===== src/Framebuffer/Segment.antt =====
-- drivers/src/framebuffer/framebuffer.c: straight lines, rectangles' outlines, and the integer square
-- root and the sines that shapes are computed with.
pub mod Bresenham
pub mod Root
use tutorial_os.Common.{
  ℕ, zero, suc, ◌+◌, ◌-◌, ◌*◌, ◌/◌, ◌%◌, ◌^◌, Bool, true, false, not, ◌&&◌, ◌||◌, Option, none,
  some, List, [], ◌∷◌, get_or, ltb, leb, ◌==◌, if◌then◌else◌,
}
use tutorial_os.Memory.{Memory}
use tutorial_os.Framebuffer.Color.{min_u32}
use tutorial_os.Framebuffer.{
  add32, sub32, biased, lt_i32, Framebuffer, fb_get_clip, fb_row, fb_write_px,
}
use tutorial_os.Framebuffer.Fill.{max_u32}
use tutorial_os.Framebuffer.Int32.{mul32, neg32, le_i32, is_negative, abs_i32, div_i32, minus_one}
use tutorial_os.Framebuffer.Canvas.{Canvas, ◌>>=◌, for_up, try_up, put, put_if, hline}

-- `for (py = y1; py < y2; py++) fb_write_px(fb, fb_row(fb, py), x, color);`
abbrev pub write_column : ℕ → ℕ → ℕ → Canvas → Canvas
write_column x color py c = (c.0, fb_write_px c.0 c.1 (fb_row c.0 py) x color)

unfoldable pub fb_draw_vline : ℕ → ℕ → ℕ → ℕ → Canvas → Canvas
fb_draw_vline x y len color c =
    let clip = fb_get_clip c.0 in
    if ltb x clip.x || leb (add32 clip.x clip.w) x
    then c
    else let y1 = max_u32 y clip.y in
      let y2 = min_u32 (add32 y len) (add32 clip.y clip.h) in
      if leb y2 y1 then c else for_up (write_column x color) (y2 - y1) y1 c

unfoldable pub fb_draw_rect : ℕ → ℕ → ℕ → ℕ → ℕ → Canvas → Canvas
fb_draw_rect x y w h color c =
    if w == 0 || h == 0
    then c
    else let c1 = hline x y w color c in
      let c2 = hline x (sub32 (add32 y h) 1) w color c1 in
      let c3 = fb_draw_vline x y h color c2 in fb_draw_vline (sub32 (add32 x w) 1) y h color c3

-- the length of a span that is cut at the left and at the right edge of the screen
unfoldable pub cut_length : ℕ → ℕ → ℕ → ℕ
cut_length width x len =
    let len' = if is_negative x then add32 len x else len in
    let x' = if is_negative x then 0 else x in
    if lt_i32 width (add32 x' len') then sub32 width x' else len'

unfoldable pub fb_draw_hline_safe : ℕ → ℕ → ℕ → ℕ → Canvas → Canvas
fb_draw_hline_safe x y len color c =
    if is_negative y || le_i32 c.0.height y
    then c
    else if le_i32 c.0.width x
    then c
    else if le_i32 (add32 x len) 0
    then c
    else let len' = cut_length c.0.width x len in
      if lt_i32 0 len' then hline (if is_negative x then 0 else x) y len' color c else c

-- what the loop of fb_draw_line carries from round to round
pub record Cursor : Type 0 where
  pub x : ℕ
  pub y : ℕ
  pub err : ℕ

-- the steps of a line: `dx`, `dy`, `sx`, `sy` and the end point
pub record Slope : Type 0 where
  pub dx : ℕ
  pub dy : ℕ
  pub sx : ℕ
  pub sy : ℕ
  pub x1 : ℕ
  pub y1 : ℕ

-- one round's move: `if (e2 >= dy) { err += dy; x0 += sx; } if (e2 <= dx) { err += dx; y0 += sy; }`
unfoldable pub advance : Slope → Cursor → Cursor
advance s p =
    let e2 = mul32 2 p.err in
    let right = le_i32 s.dy e2 in
    let down = le_i32 e2 s.dx in
    let err1 = if right then add32 p.err s.dy else p.err in
    record {
      x = if right then add32 p.x s.sx else p.x;
      y = if down then add32 p.y s.sy else p.y;
      err = if down then add32 err1 s.dx else err1;
    }

unfoldable pub line_loop : ℕ → Slope → ℕ → Cursor → Canvas → Option Canvas
line_loop zero s color p c = none
line_loop (suc fuel) s color p c =
    let c' = put_if (not (is_negative p.x) && not (is_negative p.y)) p.x p.y color c in
    let rest = line_loop fuel s color (advance s p) c' in
    if p.x == s.x1 && p.y == s.y1 then some c' else rest

abbrev pub slope_of : ℕ → ℕ → ℕ → ℕ → Slope
slope_of x0 y0 x1 y1 = record {
  dx = abs_i32 (sub32 x1 x0);
  dy = neg32 (abs_i32 (sub32 y1 y0));
  sx = if lt_i32 x0 x1 then 1 else minus_one;
  sy = if lt_i32 y0 y1 then 1 else minus_one;
  x1 = x1;
  y1 = y1;
}

unfoldable pub fb_draw_line : ℕ → ℕ → ℕ → ℕ → ℕ → ℕ → Canvas → Option Canvas
fb_draw_line fuel x0 y0 x1 y1 color c =
    let s = slope_of x0 y0 x1 y1 in
    line_loop fuel s color (record { x = x0; y = y0; err = add32 s.dx s.dy }) c

-- `while (y < x) { x = y; y = (x + n / x) / 2; }`, with `x` at its end
unfoldable pub isqrt_loop : ℕ → ℕ → ℕ → ℕ → Option ℕ
isqrt_loop zero n x y = none
isqrt_loop (suc fuel) n x y =
    let rest = isqrt_loop fuel n y (add32 y (n / y) / 2) in if ltb y x then rest else some x

-- The division by zero at 2 ^ 32 - 1 has no result.
unfoldable pub fb_isqrt : ℕ → ℕ → Option ℕ
fb_isqrt fuel n =
    if n == 0 then some 0 else if n == 2 ^ 32 - 1 then none else isqrt_loop fuel n n (add32 n 1 / 2)
