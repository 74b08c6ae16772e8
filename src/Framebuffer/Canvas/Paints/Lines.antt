-- ===== src/Framebuffer/Canvas/Paints/Lines.antt =====
-- Outlines, lines, circles and arcs touch only visible bytes.
use tutorial_os.Common.{ℕ, zero, suc, ◌+◌, ◌/◌, not, ◌&&◌, ◌||◌, Option, none, some, leb, ◌==◌}
use tutorial_os.Memory.{Memory}
use tutorial_os.Framebuffer.{sub32, Framebuffer}
use tutorial_os.Framebuffer.Int32.{is_negative, div_i32, le_i32, minus_one}
use tutorial_os.Framebuffer.Canvas.{Canvas, ◌>>=◌, put_if}
use tutorial_os.Framebuffer.Segment.{
  fb_draw_rect, fb_draw_hline_safe, Cursor, Slope, advance, line_loop, fb_draw_line, fb_isqrt,
}
use tutorial_os.Framebuffer.Shape.{
  Octant, first_octant, next_octant, octant_loop, circle_spans, fb_fill_circle, circle_points,
  fb_draw_circle, offset_line, offsets, fb_draw_line_thick, chord, arc_x, arc_y, arc_loop,
  fb_draw_arc,
}
use tutorial_os.Framebuffer.Canvas.Paints.{
  Ready, Painted, Each, Each-some, Each-none, Each->>=, try_up-keeps, if-keeps,
}
use tutorial_os.Framebuffer.Canvas.Paints.Basic.{put-Painted, put_if-Painted, hline-Painted}
use tutorial_os.Framebuffer.Canvas.Paints.Column.{vline-Painted}

module _ {f : Framebuffer} {m : Memory} (r : Ready f) where
  pub rect-Painted :
      (x y w h color : ℕ) (c : Canvas) → Painted f m c → Painted f m (fb_draw_rect x y w h color c)
  unfolding fb_draw_rect
  rect-Painted x y w h color c p =
      if-keeps (Painted f m) (w == 0 || h == 0) c _ p (search (vline-Painted r, hline-Painted r))

  pub hline_safe-Painted :
      (x y len color : ℕ) (c : Canvas)
      → Painted f m c
      → Painted f m (fb_draw_hline_safe x y len color c)
  unfolding fb_draw_hline_safe
  hline_safe-Painted x y len color c p = search (if-keeps (Painted f m), hline-Painted r)

  line_loop-Painted :
      (fuel : ℕ) (s : Slope) (color : ℕ) (k : Cursor) (c : Canvas)
      → Painted f m c
      → Each (Painted f m) (line_loop fuel s color k c)
  unfolding line_loop
  line_loop-Painted zero s color k c p = Each-none
  line_loop-Painted (suc fuel) s color k c p =
      let d = put_if (not (is_negative k.x) && not (is_negative k.y)) k.x k.y color c in
      let q : Painted f m d =
        put_if-Painted r (not (is_negative k.x) && not (is_negative k.y)) k.x k.y color c p in
      if-keeps (Each (Painted f m)) (k.x == s.x1 && k.y == s.y1) (some d)
        (line_loop fuel s color (advance s k) d) (Each-some d q)
        (line_loop-Painted fuel s color (advance s k) d q)

  pub line-Painted :
      (fuel x0 y0 x1 y1 color : ℕ) (c : Canvas)
      → Painted f m c
      → Each (Painted f m) (fb_draw_line fuel x0 y0 x1 y1 color c)
  unfolding fb_draw_line
  line-Painted fuel x0 y0 x1 y1 color c p = line_loop-Painted fuel _ color _ c p

  pub octant_loop-Painted :
      (fuel : ℕ) (draw : ℕ → ℕ → Canvas → Canvas) (o : Octant) (c : Canvas)
      → ((x y : ℕ) (d : Canvas) → Painted f m d → Painted f m (draw x y d))
      → Painted f m c
      → Each (Painted f m) (octant_loop fuel draw o c)
  unfolding octant_loop
  octant_loop-Painted zero draw o c keep p = Each-none
  octant_loop-Painted (suc fuel) draw o c keep p =
      if-keeps (Each (Painted f m)) (le_i32 o.x o.y)
        (octant_loop fuel draw (next_octant o) (draw o.x o.y c)) (some c)
        (octant_loop-Painted fuel draw (next_octant o) (draw o.x o.y c) keep (keep o.x o.y c p))
        (Each-some c p)

  spans-Painted :
      (cx cy color x y : ℕ) (c : Canvas)
      → Painted f m c
      → Painted f m (circle_spans cx cy color x y c)
  unfolding circle_spans
  spans-Painted cx cy color x y c p = search (hline_safe-Painted)

  points-Painted :
      (cx cy color x y : ℕ) (c : Canvas)
      → Painted f m c
      → Painted f m (circle_points cx cy color x y c)
  unfolding circle_points
  points-Painted cx cy color x y c p = search (put-Painted r) depth 10

  pub fill_circle-Painted :
      (fuel cx cy radius color : ℕ) (c : Canvas)
      → Painted f m c
      → Each (Painted f m) (fb_fill_circle fuel cx cy radius color c)
  unfolding fb_fill_circle
  fill_circle-Painted fuel cx cy radius color c p =
      if-keeps (Each (Painted f m)) (radius == 0) _ _
        (Each-some _ (put_if-Painted r _ cx cy color c p))
        (octant_loop-Painted fuel (circle_spans cx cy color) (first_octant radius) c
          (spans-Painted cx cy color) p)

  pub circle-Painted :
      (fuel cx cy radius color : ℕ) (c : Canvas)
      → Painted f m c
      → Each (Painted f m) (fb_draw_circle fuel cx cy radius color c)
  unfolding fb_draw_circle
  circle-Painted fuel cx cy radius color c p =
      if-keeps (Each (Painted f m)) (radius == 0) _ _
        (Each-some _ (put_if-Painted r _ cx cy color c p))
        (octant_loop-Painted fuel (circle_points cx cy color) (first_octant radius) c
          (points-Painted cx cy color) p)

  offset_line-Painted :
      (fuel x0 y0 x1 y1 len color offset : ℕ) (c : Canvas)
      → Painted f m c
      → Each (Painted f m) (offset_line fuel x0 y0 x1 y1 len color offset c)
  unfolding offset_line
  offset_line-Painted fuel x0 y0 x1 y1 len color offset c p = line-Painted fuel _ _ _ _ color c p

  pub line_thick-Painted :
      (fuel x0 y0 x1 y1 thickness color : ℕ) (c : Canvas)
      → Painted f m c
      → Each (Painted f m) (fb_draw_line_thick fuel x0 y0 x1 y1 thickness color c)
  unfolding fb_draw_line_thick
  line_thick-Painted fuel x0 y0 x1 y1 thickness color c p =
      let P = Each (Painted f m) in
      let dot = fill_circle-Painted fuel x0 y0 (thickness / 2) color c p in
      if-keeps P (leb thickness 1) _ _ (line-Painted fuel x0 y0 x1 y1 color c p) (
        if-keeps P _ _ _ dot (
          after (fb_isqrt fuel _) _ (λ len. if-keeps P (len == 0) _ _ dot (
            try_up-keeps
              (λ i. offset_line fuel x0 y0 x1 y1 len color (sub32 i (div_i32 thickness 2)))
              (λ i d q.
                offset_line-Painted fuel x0 y0 x1 y1 len color (sub32 i (div_i32 thickness 2)) d q)
              (offsets (div_i32 thickness 2)) 0 c p))))
    where
      after :
          (o : Option ℕ) (g : ℕ → Option Canvas)
          → ((n : ℕ) → Each (Painted f m) (g n))
          → Each (Painted f m) (o >>= g)
      after none g h = Each-none
      after (some n) g h = h n

  chord-Painted :
      (fuel a b x y color : ℕ) (c : Canvas)
      → Painted f m c
      → Each (Painted f m) (chord fuel a b x y color c)
  chord-Painted fuel a b x y color c p =
      if-keeps (Each (Painted f m)) _ _ _ (line-Painted fuel a b x y color c p) (Each-some c p)

  arc_loop-Painted :
      (fuel cx cy radius color n deg a b : ℕ) (c : Canvas)
      → Painted f m c
      → Each (Painted f m) (arc_loop fuel cx cy radius color n deg a b c)
  unfolding arc_loop
  arc_loop-Painted fuel cx cy radius color zero deg a b c p = Each-some c p
  arc_loop-Painted fuel cx cy radius color (suc n) deg a b c p =
      Each->>= _ _ (chord-Painted fuel a b (arc_x cx radius deg) (arc_y cy radius deg) color c p)
        (λ d q.
          arc_loop-Painted fuel cx cy radius color n (deg + 1) (arc_x cx radius deg)
            (arc_y cy radius deg) d q)

  pub arc-Painted :
      (fuel cx cy radius start_deg end_deg color : ℕ) (c : Canvas)
      → Painted f m c
      → Each (Painted f m) (fb_draw_arc fuel cx cy radius start_deg end_deg color c)
  unfolding fb_draw_arc
  arc-Painted fuel cx cy radius start_deg end_deg color c p =
      let P = Each (Painted f m) in
      if-keeps P (radius == 0) _ _ (Each-some _ (put-Painted r cx cy color c p)) (
        if-keeps P _ _ _ Each-none
          (arc_loop-Painted fuel cx cy radius color _ _ minus_one minus_one c p))
