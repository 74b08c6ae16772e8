-- ===== src/Framebuffer/Shape.antt =====
-- drivers/src/framebuffer/framebuffer.c: circles, thick lines and arcs.
pub mod Octants
use tutorial_os.Common.{
  ℕ, zero, suc, ◌+◌, ◌-◌, ◌*◌, ◌/◌, ◌%◌, ◌^◌, Bool, true, false, not, ◌&&◌, ◌||◌, Option, none,
  some, List, [], ◌∷◌, get_or, ltb, leb, ◌==◌, if◌then◌else◌,
}
use tutorial_os.Framebuffer.{add32, sub32, lt_i32, Framebuffer}
use tutorial_os.Framebuffer.Int32.{
  mul32, neg32, le_i32, is_negative, div_i32, shift_right_8, minus_one,
}
use tutorial_os.Framebuffer.Canvas.{Canvas, ◌>>=◌, try_up, put, put_if, hline}
use tutorial_os.Framebuffer.Segment.{fb_draw_hline_safe, fb_draw_line, fb_isqrt}

-- what the loop of the midpoint circle carries
pub record Octant : Type 0 where
  pub x : ℕ
  pub y : ℕ
  pub d : ℕ

abbrev pub first_octant : ℕ → Octant
first_octant r = record { x = 0; y = r; d = sub32 1 r }

-- `if (d < 0) { d += 2 * x + 3; } else { d += 2 * (x - y) + 5; y--; } x++;`
unfoldable pub next_octant : Octant → Octant
next_octant o = record {
  x = add32 o.x 1;
  y = if is_negative o.d then o.y else sub32 o.y 1;
  d =
      if is_negative o.d
      then add32 o.d (add32 (mul32 2 o.x) 3)
      else add32 o.d (add32 (mul32 2 (sub32 o.x o.y)) 5);
}

-- `while (x <= y) { draw(x, y); ... }`
unfoldable pub octant_loop : ℕ → (ℕ → ℕ → Canvas → Canvas) → Octant → Canvas → Option Canvas
octant_loop zero draw o c = none
octant_loop (suc fuel) draw o c =
    let rest = octant_loop fuel draw (next_octant o) (draw o.x o.y c) in
    if le_i32 o.x o.y then rest else some c

-- the four spans of a round
unfoldable pub circle_spans : ℕ → ℕ → ℕ → ℕ → ℕ → Canvas → Canvas
circle_spans cx cy color x y c =
    let c1 = fb_draw_hline_safe (sub32 cx x) (add32 cy y) (add32 (mul32 2 x) 1) color c in
    let c2 = fb_draw_hline_safe (sub32 cx x) (sub32 cy y) (add32 (mul32 2 x) 1) color c1 in
    let c3 = fb_draw_hline_safe (sub32 cx y) (add32 cy x) (add32 (mul32 2 y) 1) color c2 in
    fb_draw_hline_safe (sub32 cx y) (sub32 cy x) (add32 (mul32 2 y) 1) color c3

unfoldable pub fb_fill_circle : ℕ → ℕ → ℕ → ℕ → ℕ → Canvas → Option Canvas
fb_fill_circle fuel cx cy radius color c =
    if radius == 0
    then some (
        put_if
          (not (is_negative cx)
            && not (is_negative cy)
            && lt_i32 cx c.0.width
            && lt_i32 cy c.0.height)
          cx cy color c)
    else octant_loop fuel (circle_spans cx cy color) (first_octant radius) c

-- the eight points of a round
unfoldable pub circle_points : ℕ → ℕ → ℕ → ℕ → ℕ → Canvas → Canvas
circle_points cx cy color x y c =
    let c1 = put (add32 cx x) (add32 cy y) color c in
    let c2 = put (sub32 cx x) (add32 cy y) color c1 in
    let c3 = put (add32 cx x) (sub32 cy y) color c2 in
    let c4 = put (sub32 cx x) (sub32 cy y) color c3 in
    let c5 = put (add32 cx y) (add32 cy x) color c4 in
    let c6 = put (sub32 cx y) (add32 cy x) color c5 in
    let c7 = put (add32 cx y) (sub32 cy x) color c6 in put (sub32 cx y) (sub32 cy x) color c7

unfoldable pub fb_draw_circle : ℕ → ℕ → ℕ → ℕ → ℕ → Canvas → Option Canvas
fb_draw_circle fuel cx cy radius color c =
    if radius == 0
    then some (put_if (not (is_negative cx) && not (is_negative cy)) cx cy color c)
    else octant_loop fuel (circle_points cx cy color) (first_octant radius) c

-- the line at one offset across a thick line
unfoldable pub offset_line : ℕ → ℕ → ℕ → ℕ → ℕ → ℕ → ℕ → ℕ → Canvas → Option Canvas
offset_line fuel x0 y0 x1 y1 len color offset c =
    let dx = sub32 x1 x0 in
    let dy = sub32 y1 y0 in
    let ox = div_i32 (mul32 (neg32 dy) offset) len in
    let oy = div_i32 (mul32 dx offset) len in
    fb_draw_line fuel (add32 x0 ox) (add32 y0 oy) (add32 x1 ox) (add32 y1 oy) color c

-- the number of offsets from `-half` to `half`
abbrev pub offsets : ℕ → ℕ
offsets half = if is_negative half then 0 else 2 * half + 1

unfoldable pub fb_draw_line_thick : ℕ → ℕ → ℕ → ℕ → ℕ → ℕ → ℕ → Canvas → Option Canvas
fb_draw_line_thick fuel x0 y0 x1 y1 thickness color c =
    let dx = sub32 x1 x0 in
    let dy = sub32 y1 y0 in
    let len_sq = add32 (mul32 dx dx) (mul32 dy dy) in
    let half = div_i32 thickness 2 in
    let dot = fb_fill_circle fuel x0 y0 (thickness / 2) color c in
    if leb thickness 1
    then fb_draw_line fuel x0 y0 x1 y1 color c
    else if len_sq == 0
    then dot
    else fb_isqrt fuel len_sq >>= λ len.
        if len == 0
        then dot
        else try_up (λ i. offset_line fuel x0 y0 x1 y1 len color (sub32 i half)) (offsets half) 0 c

-- sin * 256 for each degree from 0 to 90
unfoldable pub sin_table : List ℕ
sin_table =
    0 ∷ 4 ∷ 9 ∷ 13 ∷ 18 ∷ 22 ∷ 27 ∷ 31 ∷ 36 ∷ 40 ∷ 44 ∷ 49 ∷ 53 ∷ 58 ∷ 62 ∷ 66 ∷ 71 ∷ 75 ∷ 79 ∷ 83
    ∷ 88 ∷ 92 ∷ 96 ∷ 100 ∷ 104 ∷ 108 ∷ 112 ∷ 116 ∷ 120 ∷ 124 ∷ 128 ∷ 131 ∷ 135 ∷ 139 ∷ 143 ∷ 146
    ∷ 150 ∷ 153 ∷ 157 ∷ 160 ∷ 164 ∷ 167 ∷ 171 ∷ 174 ∷ 177 ∷ 181 ∷ 184 ∷ 187 ∷ 190 ∷ 193 ∷ 196 ∷ 198
    ∷ 201 ∷ 204 ∷ 207 ∷ 209 ∷ 212 ∷ 214 ∷ 217 ∷ 219 ∷ 221 ∷ 223 ∷ 226 ∷ 228 ∷ 230 ∷ 232 ∷ 233 ∷ 235
    ∷ 237 ∷ 238 ∷ 240 ∷ 242 ∷ 243 ∷ 244 ∷ 246 ∷ 247 ∷ 248 ∷ 249 ∷ 250 ∷ 251 ∷ 252 ∷ 252 ∷ 253 ∷ 254
    ∷ 254 ∷ 255 ∷ 255 ∷ 255 ∷ 256 ∷ 256 ∷ 256 ∷ []

unfoldable pub sin_at : ℕ → ℕ
sin_at i = get_or sin_table i 0

-- the sine and the cosine of an angle, times 256
unfoldable pub fb_sin_cos_deg : ℕ → ℕ × ℕ
fb_sin_cos_deg angle =
    let deg = angle % 360 in
    if leb deg 90
    then (sin_at deg, sin_at (90 - deg))
    else if leb deg 180
    then (sin_at (180 - deg), neg32 (sin_at (deg - 90)))
    else if leb deg 270
    then (neg32 (sin_at (deg - 180)), neg32 (sin_at (270 - deg)))
    else (neg32 (sin_at (360 - deg)), sin_at (deg - 270))

-- the point of the arc at an angle
abbrev pub arc_x : ℕ → ℕ → ℕ → ℕ
arc_x cx radius deg = add32 cx (shift_right_8 (mul32 (fb_sin_cos_deg (deg % 360)).1 radius))

abbrev pub arc_y : ℕ → ℕ → ℕ → ℕ
arc_y cy radius deg = add32 cy (shift_right_8 (mul32 (fb_sin_cos_deg (deg % 360)).0 radius))

-- one chord, or none where the point before it does not count or is the same
abbrev pub chord : ℕ → ℕ → ℕ → ℕ → ℕ → ℕ → Canvas → Option Canvas
chord fuel px' py' px py color c =
    if not (is_negative px') && not (is_negative py') && (not (px == px') || not (py == py'))
    then fb_draw_line fuel px' py' px py color c
    else some c

-- the degrees from `deg` on, `n` of them; `px` and `py` are the point before
unfoldable pub arc_loop : ℕ → ℕ → ℕ → ℕ → ℕ → ℕ → ℕ → ℕ → ℕ → Canvas → Option Canvas
arc_loop fuel cx cy radius color zero deg px py c = some c
arc_loop fuel cx cy radius color (suc n) deg px py c =
    chord fuel px py (arc_x cx radius deg) (arc_y cy radius deg) color c
    >>= arc_loop fuel cx cy radius color n (deg + 1) (arc_x cx radius deg) (arc_y cy radius deg)

-- No number is above 2 ^ 32 - 1, so a loop up to it does not end.
unfoldable pub fb_draw_arc : ℕ → ℕ → ℕ → ℕ → ℕ → ℕ → ℕ → Canvas → Option Canvas
fb_draw_arc fuel cx cy radius start_deg end_deg color c =
    let start = start_deg % 360 in
    let end' = if leb end_deg start_deg then add32 end_deg 360 else end_deg in
    if radius == 0
    then some (put cx cy color c)
    else if end' == 2 ^ 32 - 1
    then none
    else arc_loop fuel cx cy radius color (end' + 1 - start) start minus_one minus_one c
