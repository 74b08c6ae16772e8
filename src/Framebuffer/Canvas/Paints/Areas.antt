-- ===== src/Framebuffer/Canvas/Paints/Areas.antt =====
-- Rounded rectangles, triangles, gradients, the fade and the frame of the Game Boy screen touch only
-- visible bytes.
use tutorial_os.Common.{ℕ, ◌+◌, ◌*◌, ◌^◌, Bool, none, some, ◌==◌}
use tutorial_os.Memory.{Memory}
use tutorial_os.Framebuffer.Color.{fb_color_lerp}
use tutorial_os.Framebuffer.{add32, sub32, Framebuffer}
use tutorial_os.Framebuffer.Int32.{mul32, div_i32, is_negative}
use tutorial_os.Framebuffer.Canvas.{Canvas, for_up, hline}
use tutorial_os.Framebuffer.Segment.{fb_draw_vline, fb_draw_line}
use tutorial_os.Framebuffer.Shape.{first_octant}
use tutorial_os.Framebuffer.Area.{
  cut_radius, corner_points, corner_if, fb_fill_rounded_rect, corner_arcs, fb_draw_rounded_rect,
  fb_draw_triangle, triangle_row, triangle_rows, rows_between, fb_fill_flat_bottom_triangle,
  fb_fill_flat_top_triangle, fill_sorted, fb_fill_triangle, gradient_step, fb_fill_rect_gradient_v,
  fb_fill_rect_gradient_h, fb_fade,
}
use tutorial_os.Framebuffer.GameBoy.{fb_draw_gb_border}
use tutorial_os.Framebuffer.Canvas.Paints.{
  Ready, Painted, Each, Each-some, Each-none, Each->>=, for_up-keeps, if-keeps,
}
use tutorial_os.Framebuffer.Canvas.Paints.Basic.{put-Painted, hline-Painted, fill-Painted}
use tutorial_os.Framebuffer.Canvas.Paints.Column.{vline-Painted, blend-Painted}
use tutorial_os.Framebuffer.Canvas.Paints.Lines.{rect-Painted, line-Painted, octant_loop-Painted}

module _ {f : Framebuffer} {m : Memory} (r : Ready f) where
  corner_points-Painted :
      (x y w h s color dx dy : ℕ) (c : Canvas)
      → Painted f m c
      → Painted f m (corner_points x y w h s color dx dy c)
  unfolding corner_points
  corner_points-Painted x y w h s color dx dy c p = search (put-Painted r)

  corner_if-Painted :
      (x y w h s color dy dx : ℕ) (c : Canvas)
      → Painted f m c
      → Painted f m (corner_if x y w h s color dy dx c)
  unfolding corner_if
  corner_if-Painted x y w h s color dy dx c p =
      if-keeps (Painted f m) _ _ c (corner_points-Painted x y w h s color dx dy c p) p

  pub fill_rounded-Painted :
      (x y w h radius color : ℕ) (c : Canvas)
      → Painted f m c
      → Painted f m (fb_fill_rounded_rect x y w h radius color c)
  unfolding fb_fill_rounded_rect
  fill_rounded-Painted x y w h radius color c p =
      let s = cut_radius w h radius in
      if-keeps (Painted f m) (radius == 0) _ _ (fill-Painted r x y w h color c p) (
        for_up-keeps (Painted f m) (λ dy. for_up (corner_if x y w h s color dy) (s + 1) 0)
          (λ dy d q.
            for_up-keeps (Painted f m) (corner_if x y w h s color dy)
              (λ dx e t. corner_if-Painted x y w h s color dy dx e t) (s + 1) 0 d q)
          (s + 1) 0 _ (search (fill-Painted r)))

  corner_arcs-Painted :
      (x y w h s color px py : ℕ) (c : Canvas)
      → Painted f m c
      → Painted f m (corner_arcs x y w h s color px py c)
  unfolding corner_arcs
  corner_arcs-Painted x y w h s color px py c p = search (put-Painted r) depth 10

  pub rounded-Painted :
      (fuel x y w h radius color : ℕ) (c : Canvas)
      → Painted f m c
      → Each (Painted f m) (fb_draw_rounded_rect fuel x y w h radius color c)
  unfolding fb_draw_rounded_rect
  rounded-Painted fuel x y w h radius color c p =
      let s = cut_radius w h radius in
      if-keeps (Each (Painted f m)) (radius == 0) _ _
        (Each-some _ (rect-Painted r x y w h color c p))
        (octant_loop-Painted r fuel (corner_arcs x y w h s color) (first_octant s) _
          (λ px py d q. corner_arcs-Painted x y w h s color px py d q)
          (search (hline-Painted r, vline-Painted r)))

  pub triangle-Painted :
      (fuel x0 y0 x1 y1 x2 y2 color : ℕ) (c : Canvas)
      → Painted f m c
      → Each (Painted f m) (fb_draw_triangle fuel x0 y0 x1 y1 x2 y2 color c)
  unfolding fb_draw_triangle
  triangle-Painted fuel x0 y0 x1 y1 x2 y2 color c p =
      Each->>= _ (fb_draw_line fuel x2 y2 x0 y0 color)
        (Each->>= _ (fb_draw_line fuel x1 y1 x2 y2 color)
          (line-Painted r fuel x0 y0 x1 y1 color c p)
          (λ d q. line-Painted r fuel x1 y1 x2 y2 color d q))
        (λ d q. line-Painted r fuel x2 y2 x0 y0 color d q)

  triangle_row-Painted :
      (a b y color : ℕ) (c : Canvas) → Painted f m c → Painted f m (triangle_row a b y color c)
  unfolding triangle_row
  triangle_row-Painted a b y color c p =
      if-keeps (Painted f m) (is_negative y) c _ p (hline-Painted r _ y _ color c p)

  rows-Painted :
      (endless : Bool) (a b y : ℕ → ℕ) (color n : ℕ) (c : Canvas)
      → Painted f m c
      → Each (Painted f m) (triangle_rows endless (λ t. triangle_row (a t) (b t) (y t) color) n c)
  rows-Painted endless a b y color n c p = if-keeps (Each (Painted f m)) endless none _ Each-none (
      Each-some _ (
        for_up-keeps (Painted f m) (λ t. triangle_row (a t) (b t) (y t) color)
          (λ t d q. triangle_row-Painted (a t) (b t) (y t) color d q) n 0 c p))

  flat_bottom-Painted :
      (x0 y0 x1 y1 x2 color : ℕ) (c : Canvas)
      → Painted f m c
      → Each (Painted f m) (fb_fill_flat_bottom_triangle x0 y0 x1 y1 x2 color c)
  unfolding fb_fill_flat_bottom_triangle
  flat_bottom-Painted x0 y0 x1 y1 x2 color c p =
      if-keeps (Each (Painted f m)) (y1 == y0) (some c) _ (Each-some c p) (
        rows-Painted _ (λ t. add32 x0 (div_i32 (mul32 (sub32 x1 x0) t) (sub32 y1 y0)))
          (λ t. add32 x0 (div_i32 (mul32 (sub32 x2 x0) t) (sub32 y1 y0))) (λ t. add32 y0 t) color
          (rows_between y0 y1) c p)

  flat_top-Painted :
      (x0 x1 y0 x2 y2 color : ℕ) (c : Canvas)
      → Painted f m c
      → Each (Painted f m) (fb_fill_flat_top_triangle x0 x1 y0 x2 y2 color c)
  unfolding fb_fill_flat_top_triangle
  flat_top-Painted x0 x1 y0 x2 y2 color c p =
      if-keeps (Each (Painted f m)) (y2 == y0) (some c) _ (Each-some c p) (
        rows-Painted _ (λ t. sub32 x2 (div_i32 (mul32 (sub32 x2 x0) t) (sub32 y2 y0)))
          (λ t. sub32 x2 (div_i32 (mul32 (sub32 x2 x1) t) (sub32 y2 y0))) (λ t. sub32 y2 t) color
          (rows_between y0 y2) c p)

  sorted-Painted :
      (u v w : ℕ × ℕ) (color : ℕ) (c : Canvas)
      → Painted f m c
      → Each (Painted f m) (fill_sorted u v w color c)
  unfolding fill_sorted
  sorted-Painted (x0, y0) (x1, y1) (x2, y2) color c p =
      let P = Each (Painted f m) in
      if-keeps P (y0 == y2) (some c) _ (Each-some c p) (
        if-keeps P (y1 == y2) _ _ (flat_bottom-Painted x0 y0 x1 y1 x2 color c p) (
          if-keeps P (y0 == y1) _ _ (flat_top-Painted x0 x1 y0 x2 y2 color c p) (
            Each->>= _ _ (flat_bottom-Painted x0 y0 x1 y1 _ color c p)
              (λ d q. flat_top-Painted x1 _ y1 x2 y2 color d q))))

  pub fill_triangle-Painted :
      (x0 y0 x1 y1 x2 y2 color : ℕ) (c : Canvas)
      → Painted f m c
      → Each (Painted f m) (fb_fill_triangle x0 y0 x1 y1 x2 y2 color c)
  unfolding fb_fill_triangle
  fill_triangle-Painted x0 y0 x1 y1 x2 y2 color c p = sorted-Painted _ _ _ color c p

  pub gradient_v-Painted :
      (x y w h top bottom : ℕ) (c : Canvas)
      → Painted f m c
      → Painted f m (fb_fill_rect_gradient_v x y w h top bottom c)
  unfolding fb_fill_rect_gradient_v
  gradient_v-Painted x y w h top bottom c p =
      for_up-keeps (Painted f m)
        (λ row. hline x (add32 y row) w (fb_color_lerp top bottom (gradient_step h row)))
        (λ row d q. hline-Painted r x (add32 y row) w _ d q) h 0 c p

  pub gradient_h-Painted :
      (x y w h left right : ℕ) (c : Canvas)
      → Painted f m c
      → Painted f m (fb_fill_rect_gradient_h x y w h left right c)
  unfolding fb_fill_rect_gradient_h
  gradient_h-Painted x y w h left right c p =
      for_up-keeps (Painted f m)
        (λ col. fb_draw_vline (add32 x col) y h (fb_color_lerp left right (gradient_step w col)))
        (λ col d q. vline-Painted r (add32 x col) y h _ d q) w 0 c p

  pub fade-Painted : (amount : ℕ) (c : Canvas) → Painted f m c → Painted f m (fb_fade amount c)
  unfolding fb_fade
  fade-Painted amount c p = blend-Painted r 0 0 c.0.width c.0.height (amount * 2 ^ 24) c p

  pub border-Painted :
      (color : ℕ) (c : Canvas) → Painted f m c → Painted f m (fb_draw_gb_border color c)
  unfolding fb_draw_gb_border
  border-Painted color c p = search (fill-Painted r)
