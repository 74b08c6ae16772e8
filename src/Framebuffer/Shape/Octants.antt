-- ===== src/Framebuffer/Shape/Octants.antt =====
-- The midpoint circle ends: in every round `x` grows and `y` does not.
use tutorial_os.Common.{
  ℕ, zero, suc, ◌+◌, ◌≤◌, ◌<◌, ◌^◌, ◌≡◌, refl, not, ◌&&◌, Option, some, ◌==◌, arith, Bool-cases,
  inl, inr,
}
use tutorial_os.Framebuffer.Int32.{le_i32, is_negative}
use tutorial_os.Framebuffer.Canvas.{Canvas, put_if}
use tutorial_os.Framebuffer.Segment.{fb_draw_rect}
use tutorial_os.Framebuffer.Shape.{
  Octant, first_octant, next_octant, octant_loop, circle_spans, fb_fill_circle, circle_points,
  fb_draw_circle,
}
use tutorial_os.Framebuffer.Area.{cut_radius, corner_arcs, fb_draw_rounded_rect}

abbrev Returns : Option Canvas → Type 0
Returns o = (c : Canvas) × (o ≡ some c)

-- A round that is made moves `x` up by one, and `y` down by one at most.
next-x : (o : Octant) → o.x < 2 ^ 30 → (next_octant o).x ≡ o.x + 1
unfolding next_octant
next-x o h = omega arith

next-y :
    (o : Octant)
    → o.y < 2 ^ 30
    → 0 < o.y
    → ((next_octant o).y ≤ o.y) × (o.y ≤ (next_octant o).y + 1)
unfolding next_octant
next-y o h pos = (ground arith, ground arith)

loop-Returns :
    (fuel : ℕ) (draw : ℕ → ℕ → Canvas → Canvas) (o : Octant) (c : Canvas)
    → o.x ≤ o.y + 2
    → o.y < 2 ^ 30
    → 0 < o.x + o.y
    → o.y + 2 < fuel + o.x
    → Returns (octant_loop fuel draw o c)
unfolding octant_loop
loop-Returns zero draw o c hx hy pos h = absurd (omega arith)
loop-Returns (suc fuel) draw o c hx hy pos h = elim (Bool-cases (le_i32 o.x o.y)) [
  | inr stop ↦ rw stop (c, refl)
  | inl go ↦
      let le : o.x ≤ o.y = ground arith in
      let ex = next-x o (omega arith) in
      let ey = next-y o hy (omega arith) in
      rw go (
        loop-Returns fuel draw (next_octant o) (draw o.x o.y c) (omega arith) (omega arith)
          (omega arith) (omega arith))
]

-- Radius 0, which a rounded rectangle of width 1 is cut to, takes one round.
zero-Returns :
    (fuel : ℕ) (draw : ℕ → ℕ → Canvas → Canvas) (c : Canvas)
    → 2 < fuel
    → Returns (octant_loop fuel draw (first_octant 0) c)
unfolding octant_loop next_octant
zero-Returns zero draw c h = absurd (omega arith)
zero-Returns (suc zero) draw c h = absurd (omega arith)
zero-Returns (suc (suc fuel)) draw c h = (draw 0 0 c, refl)

-- a radius that the circle's arithmetic has room for, and fuel for its rounds
first-Returns :
    (fuel : ℕ) (draw : ℕ → ℕ → Canvas → Canvas) (r : ℕ) (c : Canvas)
    → r < 2 ^ 30
    → r + 2 < fuel
    → Returns (octant_loop fuel draw (first_octant r) c)
first-Returns fuel draw zero c small h = zero-Returns fuel draw c (omega arith)
first-Returns fuel draw (suc r) c small h =
    loop-Returns fuel draw (first_octant (suc r)) c (omega arith) small (omega arith) (omega arith)

module _ (fuel radius : ℕ) (small : radius < 2 ^ 30) (enough : radius + 2 < fuel) (color : ℕ)
    (c : Canvas) where
  cut-lt : (w h : ℕ) → cut_radius w h radius < 2 ^ 30
  cut-lt w h = ground arith

  cut-enough : (w h : ℕ) → cut_radius w h radius + 2 < fuel
  cut-enough w h = ground arith

  circle-Returns : (cx cy : ℕ) → Returns (fb_draw_circle fuel cx cy radius color c)
  unfolding fb_draw_circle
  circle-Returns cx cy = elim (Bool-cases (radius == 0)) [
    | inl dot ↦ rw dot (put_if (not (is_negative cx) && not (is_negative cy)) cx cy color c, refl)
    | inr round ↦ rw round (first-Returns fuel (circle_points cx cy color) radius c small enough)
  ]

  fill_circle-Returns : (cx cy : ℕ) → Returns (fb_fill_circle fuel cx cy radius color c)
  unfolding fb_fill_circle
  fill_circle-Returns cx cy = elim (Bool-cases (radius == 0)) [
    | inl dot ↦ rw dot (_, refl)
    | inr round ↦ rw round (first-Returns fuel (circle_spans cx cy color) radius c small enough)
  ]

  rounded-Returns : (x y w h : ℕ) → Returns (fb_draw_rounded_rect fuel x y w h radius color c)
  unfolding fb_draw_rounded_rect
  rounded-Returns x y w h = elim (Bool-cases (radius == 0)) [
    | inl square ↦ rw square (fb_draw_rect x y w h color c, refl)
    | inr round ↦ rw round (
        first-Returns fuel (corner_arcs x y w h (cut_radius w h radius) color)
          (cut_radius w h radius) _ (cut-lt w h) (cut-enough w h))
  ]

-- With a radius below 2 ^ 30 and fuel for three rounds more than the radius, circles, discs and rounded
-- outlines are drawn to their end, wherever they lie.
pub circles-return :
    (fuel radius color : ℕ) (c : Canvas) (x y w h : ℕ)
    → radius < 2 ^ 30
    → radius + 2 < fuel
    → ((d : Canvas) × (fb_draw_circle fuel x y radius color c ≡ some d))
      × ((d : Canvas) × (fb_fill_circle fuel x y radius color c ≡ some d))
      × ((d : Canvas) × (fb_draw_rounded_rect fuel x y w h radius color c ≡ some d))
circles-return fuel radius color c x y w h small enough = (
  circle-Returns fuel radius small enough color c x y,
  fill_circle-Returns fuel radius small enough color c x y,
  rounded-Returns fuel radius small enough color c x y w h,
)
