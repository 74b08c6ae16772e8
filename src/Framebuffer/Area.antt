-- ===== src/Framebuffer/Area.antt =====
-- drivers/src/framebuffer/framebuffer.c: rounded rectangles, triangles, gradients and blended areas.
pub mod Clear
use tutorial_os.Common.{
  ℕ, zero, suc, ◌+◌, ◌-◌, ◌*◌, ◌/◌, ◌%◌, ◌^◌, Bool, true, false, not, ◌&&◌, ◌||◌, Option, none,
  some, ltb, leb, ◌==◌, if◌then◌else◌,
}
use tutorial_os.Memory.{Memory}
use tutorial_os.Framebuffer.Color.{min_u32, fb_argb_to_565, fb_color_lerp, fb_blend_alpha}
use tutorial_os.Framebuffer.{
  add32, sub32, lt_i32, max_i32, PixelFormat, argb8888, abgr8888, rgb565, Framebuffer, fb_get_clip,
  fb_row, fb_write_px, fb_read_px, fb_mark_dirty, fb_mark_all_dirty,
}
use tutorial_os.Framebuffer.Fill.{max_u32, fill_span, fill_rows}
use tutorial_os.Framebuffer.Int32.{mul32, le_i32, is_negative, div_i32}
use tutorial_os.Framebuffer.Canvas.{Canvas, ◌>>=◌, for_up, put, put_if, hline, fill}
use tutorial_os.Framebuffer.Segment.{fb_draw_vline, fb_draw_rect, fb_draw_line}
use tutorial_os.Framebuffer.Shape.{Octant, first_octant, octant_loop}

-- `if (radius > w / 2) radius = w / 2; if (radius > h / 2) radius = h / 2;`
abbrev pub cut_radius : ℕ → ℕ → ℕ → ℕ
cut_radius w h radius = min_u32 (min_u32 radius (w / 2)) (h / 2)

-- one point of each corner, `dx` and `dy` away from the corner's centre
unfoldable pub corner_points : ℕ → ℕ → ℕ → ℕ → ℕ → ℕ → ℕ → ℕ → Canvas → Canvas
corner_points x y w h r color dx dy c =
    let left = sub32 (add32 x r) dx in
    let right = add32 (sub32 (sub32 (add32 x w) 1) r) dx in
    let above = sub32 (add32 y r) dy in
    let below = add32 (sub32 (sub32 (add32 y h) 1) r) dy in
    let c1 = put left above color c in
    let c2 = put right above color c1 in
    let c3 = put left below color c2 in put right below color c3

unfoldable pub corner_if : ℕ → ℕ → ℕ → ℕ → ℕ → ℕ → ℕ → ℕ → Canvas → Canvas
corner_if x y w h r color dy dx c =
    if le_i32 (add32 (mul32 dx dx) (mul32 dy dy)) (mul32 r r)
    then corner_points x y w h r color dx dy c
    else c

unfoldable pub fb_fill_rounded_rect : ℕ → ℕ → ℕ → ℕ → ℕ → ℕ → Canvas → Canvas
fb_fill_rounded_rect x y w h radius color c =
    let r = cut_radius w h radius in
    let c1 = fill (add32 x r) y (sub32 w (mul32 2 r)) h color c in
    let c2 = fill x (add32 y r) r (sub32 h (mul32 2 r)) color c1 in
    let c3 = fill (sub32 (add32 x w) r) (add32 y r) r (sub32 h (mul32 2 r)) color c2 in
    if radius == 0
    then fill x y w h color c
    else for_up (λ dy. for_up (corner_if x y w h r color dy) (r + 1) 0) (r + 1) 0 c3

-- the eight points of a round
unfoldable pub corner_arcs : ℕ → ℕ → ℕ → ℕ → ℕ → ℕ → ℕ → ℕ → Canvas → Canvas
corner_arcs x y w h r color px py c =
    let left = λ (d : ℕ). sub32 (add32 x r) d in
    let right = λ (d : ℕ). add32 (sub32 (sub32 (add32 x w) 1) r) d in
    let above = λ (d : ℕ). sub32 (add32 y r) d in
    let below = λ (d : ℕ). add32 (sub32 (sub32 (add32 y h) 1) r) d in
    let c1 = put (left px) (above py) color c in
    let c2 = put (left py) (above px) color c1 in
    let c3 = put (right px) (above py) color c2 in
    let c4 = put (right py) (above px) color c3 in
    let c5 = put (left px) (below py) color c4 in
    let c6 = put (left py) (below px) color c5 in
    let c7 = put (right px) (below py) color c6 in put (right py) (below px) color c7

unfoldable pub fb_draw_rounded_rect : ℕ → ℕ → ℕ → ℕ → ℕ → ℕ → ℕ → Canvas → Option Canvas
fb_draw_rounded_rect fuel x y w h radius color c =
    let r = cut_radius w h radius in
    let c1 = hline (add32 x r) y (sub32 w (mul32 2 r)) color c in
    let c2 = hline (add32 x r) (sub32 (add32 y h) 1) (sub32 w (mul32 2 r)) color c1 in
    let c3 = fb_draw_vline x (add32 y r) (sub32 h (mul32 2 r)) color c2 in
    let c4 = fb_draw_vline (sub32 (add32 x w) 1) (add32 y r) (sub32 h (mul32 2 r)) color c3 in
    if radius == 0
    then some (fb_draw_rect x y w h color c)
    else octant_loop fuel (corner_arcs x y w h r color) (first_octant r) c4

unfoldable pub fb_draw_triangle : ℕ → ℕ → ℕ → ℕ → ℕ → ℕ → ℕ → ℕ → Canvas → Option Canvas
fb_draw_triangle fuel x0 y0 x1 y1 x2 y2 color c =
    fb_draw_line fuel x0 y0 x1 y1 color c
    >>= fb_draw_line fuel x1 y1 x2 y2 color
    >>= fb_draw_line fuel x2 y2 x0 y0 color

-- one row of a filled triangle between two columns in either order
unfoldable pub triangle_row : ℕ → ℕ → ℕ → ℕ → Canvas → Canvas
triangle_row a b y color c =
    let cx1 = if lt_i32 b a then b else a in
    let cx2 = if lt_i32 b a then a else b in
    if is_negative y then c else hline (max_i32 cx1 0) y (add32 (sub32 cx2 cx1) 1) color c

-- the rows from `y0` to `y1`, both included
abbrev pub rows_between : ℕ → ℕ → ℕ
rows_between y0 y1 = if le_i32 y0 y1 then sub32 y1 y0 + 1 else 0

-- The loop over the rows has no end where its counter's bound is the last signed number in its
-- direction.
abbrev pub triangle_rows : Bool → (ℕ → Canvas → Canvas) → ℕ → Canvas → Option Canvas
triangle_rows endless row n c = if endless then none else some (for_up row n 0 c)

unfoldable pub fb_fill_flat_bottom_triangle : ℕ → ℕ → ℕ → ℕ → ℕ → ℕ → Canvas → Option Canvas
fb_fill_flat_bottom_triangle x0 y0 x1 y1 x2 color c =
    let dy = sub32 y1 y0 in
    let at = λ (dx t : ℕ). add32 x0 (div_i32 (mul32 dx t) dy) in
    if y1 == y0
    then some c
    else triangle_rows (y1 == 2 ^ 31 - 1)
        (λ t. triangle_row (at (sub32 x1 x0) t) (at (sub32 x2 x0) t) (add32 y0 t) color)
        (rows_between y0 y1) c

-- The rows go upwards from `y2`.
unfoldable pub fb_fill_flat_top_triangle : ℕ → ℕ → ℕ → ℕ → ℕ → ℕ → Canvas → Option Canvas
fb_fill_flat_top_triangle x0 x1 y0 x2 y2 color c =
    let dy = sub32 y2 y0 in
    let at = λ (dx t : ℕ). sub32 x2 (div_i32 (mul32 dx t) dy) in
    if y2 == y0
    then some c
    else triangle_rows (y0 == 2 ^ 31)
        (λ t. triangle_row (at (sub32 x2 x0) t) (at (sub32 x2 x1) t) (sub32 y2 t) color)
        (rows_between y0 y2) c

-- two corners, the one with the smaller `y` first
abbrev pub by_height : ℕ × ℕ → ℕ × ℕ → (ℕ × ℕ) × (ℕ × ℕ)
by_height p q = if lt_i32 q.1 p.1 then (q, p) else (p, q)

-- a triangle whose corners are in order
unfoldable pub fill_sorted : ℕ × ℕ → ℕ × ℕ → ℕ × ℕ → ℕ → Canvas → Option Canvas
fill_sorted (x0, y0) (x1, y1) (x2, y2) color c =
    let x3 = add32 x0 (div_i32 (mul32 (sub32 y1 y0) (sub32 x2 x0)) (sub32 y2 y0)) in
    if y0 == y2
    then some c
    else if y1 == y2
    then fb_fill_flat_bottom_triangle x0 y0 x1 y1 x2 color c
    else if y0 == y1
    then fb_fill_flat_top_triangle x0 x1 y0 x2 y2 color c
    else fb_fill_flat_bottom_triangle x0 y0 x1 y1 x3 color c
      >>= fb_fill_flat_top_triangle x1 x3 y1 x2 y2 color

unfoldable pub fb_fill_triangle : ℕ → ℕ → ℕ → ℕ → ℕ → ℕ → ℕ → Canvas → Option Canvas
fb_fill_triangle x0 y0 x1 y1 x2 y2 color c =
    let first = by_height (x0, y0) (x1, y1) in
    let second = by_height first.1 (x2, y2) in
    let third = by_height first.0 second.0 in fill_sorted third.0 third.1 second.1 color c

-- the share of the second colour, a uint8_t, in step `i` of `n`
abbrev pub gradient_step : ℕ → ℕ → ℕ
gradient_step n i = if ltb 1 n then mul32 i 255 / (n - 1) % 256 else 0

unfoldable pub fb_fill_rect_gradient_v : ℕ → ℕ → ℕ → ℕ → ℕ → ℕ → Canvas → Canvas
fb_fill_rect_gradient_v x y w h top bottom c =
    for_up (λ row. hline x (add32 y row) w (fb_color_lerp top bottom (gradient_step h row))) h 0 c

unfoldable pub fb_fill_rect_gradient_h : ℕ → ℕ → ℕ → ℕ → ℕ → ℕ → Canvas → Canvas
fb_fill_rect_gradient_h x y w h left right c =
    for_up (λ col. fb_draw_vline (add32 x col) y h (fb_color_lerp left right (gradient_step w col)))
      w 0 c

-- `fb_write_px(fb, row, px, fb_blend_alpha(color, fb_read_px(fb, row, px)));`
abbrev pub blend_px : ℕ → ℕ → ℕ → Canvas → Canvas
blend_px row color px c =
    (c.0, fb_write_px c.0 c.1 row px (fb_blend_alpha color (fb_read_px c.0 c.1 row px)))

-- one row of a blended area
abbrev pub blend_row : ℕ → ℕ → ℕ → ℕ → Canvas → Canvas
blend_row x1 w color py c = for_up (blend_px (fb_row c.0 py) color) w x1 c

unfoldable pub fb_fill_rect_blend : ℕ → ℕ → ℕ → ℕ → ℕ → Canvas → Canvas
fb_fill_rect_blend x y w h color c =
    let clip = fb_get_clip c.0 in
    let x1 = max_u32 x clip.x in
    let y1 = max_u32 y clip.y in
    let x2 = min_u32 (add32 x w) (add32 clip.x clip.w) in
    let y2 = min_u32 (add32 y h) (add32 clip.y clip.h) in
    let drawn = for_up (blend_row x1 (x2 - x1) color) (y2 - y1) y1 c in
    if leb x2 x1 || leb y2 y1 then c else (fb_mark_dirty drawn.0 x1 y1 (x2 - x1) (y2 - y1), drawn.1)

-- FB_WITH_ALPHA(FB_COLOR_BLACK, amount) is the amount in the highest byte.
unfoldable pub fb_fade : ℕ → Canvas → Canvas
fb_fade amount c = fb_fill_rect_blend 0 0 c.0.width c.0.height (amount * 2 ^ 24) c

-- 16-bit pixels are filled as one run, the ends of the rows included.
abbrev pub clear_as : PixelFormat → ℕ → Framebuffer → Memory → Memory
clear_as rgb565 color fb m =
    fill_span rgb565 (mul32 (fb.pitch / 2) fb.height) m fb.addr 0 (fb_argb_to_565 color)
clear_as argb8888 color fb m = fill_rows fb fb.height m 0 0 fb.width color
clear_as abgr8888 color fb m = fill_rows fb fb.height m 0 0 fb.width color

unfoldable pub fb_clear : ℕ → Canvas → Canvas
fb_clear color c = (fb_mark_all_dirty c.0, clear_as c.0.pixel_format color c.0 c.1)
