-- ===== src/Framebuffer/Canvas/Paints/Column.antt =====
-- Columns and blended areas touch only visible bytes.
use tutorial_os.Common.{
  ℕ, ◌+◌, ◌-◌, ◌≤◌, ◌<◌, ◌^◌, ◌≡◌, refl, ◌∙◌, ap, sym, subst, false, ◌||◌, ltb, leb, arith,
  Bool-cases, inl, inr,
}
use tutorial_os.Memory.{Memory}
use tutorial_os.Framebuffer.Color.{min_u32, fb_blend_alpha}
use tutorial_os.Framebuffer.{
  add32, Framebuffer, fb_get_clip, is_clipped, fb_row, fb_write_px, fb_read_px, fb_put_pixel_blend,
  fb_mark_dirty,
}
use tutorial_os.Framebuffer.Fill.{max_u32}
use tutorial_os.Framebuffer.Clip.Stack.{top-OnScreen}
use tutorial_os.Framebuffer.Canvas.{Canvas, for_up}
use tutorial_os.Framebuffer.Segment.{write_column, fb_draw_vline}
use tutorial_os.Framebuffer.Area.{blend_px, blend_row, fb_fill_rect_blend}
use tutorial_os.Framebuffer.Canvas.Paints.{
  Ready, undirtied, Painted, Ready-undirtied, undirtied-Ready, Painted-refl, for_up-within,
}
use tutorial_os.Framebuffer.Canvas.Paints.Basic.{
  clip-Visible, cut-within, guard-low, guard-high, write_px-Same, mark_dirty-frame, Painted-step,
}

-- the pixel is on the screen and not clipped
abbrev pub Visible : Framebuffer → ℕ → ℕ → Type 0
Visible fb x y = (x < fb.width) × (y < fb.height) × (is_clipped fb x y ≡ false)

Visible-undirtied : (fb : Framebuffer) (x y : ℕ) → Visible fb x y → Visible (undirtied fb) x y
unfolding is_clipped fb_get_clip
Visible-undirtied fb x y v = v

undirtied-Visible : (fb : Framebuffer) (x y : ℕ) → Visible (undirtied fb) x y → Visible fb x y
unfolding is_clipped fb_get_clip
undirtied-Visible fb x y v = v

row-undirtied : (fb : Framebuffer) (y : ℕ) → fb_row (undirtied fb) y ≡ fb_row fb y
unfolding fb_row
row-undirtied fb y = refl

module _ {f : Framebuffer} {m : Memory} (r : Ready f) where
  Visible-in : (x y : ℕ) (c : Canvas) → Painted f m c → Visible f x y → Visible c.0 x y
  Visible-in x y c p v =
      undirtied-Visible c.0 x y
        (subst (λ g. Visible g x y) (sym p.frame) (Visible-undirtied f x y v))

  row-in : (y : ℕ) (c : Canvas) → Painted f m c → fb_row f y ≡ fb_row c.0 y
  row-in y c p = sym (row-undirtied f y) ∙ ap (λ g. fb_row g y) (sym p.frame) ∙ row-undirtied c.0 y

  -- a visible pixel is written
  write_px-Painted :
      (x y color : ℕ) (c : Canvas)
      → Painted f m c
      → Visible f x y
      → Painted f m (c.0, fb_write_px c.0 c.1 (fb_row c.0 y) x color)
  write_px-Painted x y color c p v =
      let v' = Visible-in x y c p v in
      Painted-step c (c.0, fb_write_px c.0 c.1 (fb_row c.0 y) x color) r p refl
        (λ _. write_px-Same c.0 c.1 x y color v'.0 v'.1 v'.2)

  blend_px-Painted :
      (x y row color : ℕ) (c : Canvas)
      → Painted f m c
      → Visible f x y
      → row ≡ fb_row f y
      → Painted f m (blend_px row color x c)
  blend_px-Painted x y row color c p v e =
      subst (λ k. Painted f m (blend_px k color x c)) (sym (e ∙ row-in y c p))
        (write_px-Painted x y (fb_blend_alpha color (fb_read_px c.0 c.1 (fb_row c.0 y) x)) c p v)

  blend_row-Painted :
      (x1 w color y : ℕ) (c : Canvas)
      → Painted f m c
      → ((x : ℕ) → x1 ≤ x → x < x1 + w → Visible f x y)
      → Painted f m (blend_row x1 w color y c)
  blend_row-Painted x1 w color y c p see =
      for_up-within (Painted f m) (blend_px (fb_row c.0 y) color) w x1
        (λ x le lt d q.
          blend_px-Painted x y (fb_row c.0 y) color d q (see x le lt) (sym (row-in y c p)))
        c p

  -- what paints from a canvas on paints from where that canvas came
  pub Painted-then :
      (c c' : Canvas) → Painted f m c → (Ready c.0 → Painted c.0 c.1 c') → Painted f m c'
  Painted-then c c' p step =
      let ready = undirtied-Ready (subst Ready (sym p.frame) (Ready-undirtied r)) in
      Painted-step c c' r p (step ready).frame (λ _. (step ready).rest)

  pub put_blend-Painted :
      (x y color : ℕ) (c : Canvas)
      → Painted f m c
      → Painted f m (c.0, fb_put_pixel_blend c.0 c.1 x y color)
  unfolding fb_put_pixel_blend
  put_blend-Painted x y color c p =
      Painted-step c (c.0, fb_put_pixel_blend c.0 c.1 x y color) r p refl
        (λ _ a h. elim (Bool-cases (leb c.0.width x)) [
          | inl e ↦ rw e refl
          | inr e ↦ elim (Bool-cases (leb c.0.height y)) [
            | inl e' ↦ rw (e, e') refl
            | inr e' ↦ elim (Bool-cases (is_clipped c.0 x y)) [
              | inl e2 ↦ rw (e, e', e2) refl
              | inr e2 ↦
                  rw (e, e', e2)
                    (write_px-Same c.0 c.1 x y
                      (fb_blend_alpha color (fb_read_px c.0 c.1 (fb_row c.0 y) x)) (ground arith)
                      (ground arith) e2 a h)
            ]
          ]
        ])

vline-Painted_self :
    (x y len color : ℕ) (c : Canvas) → Ready c.0 → Painted c.0 c.1 (fb_draw_vline x y len color c)
unfolding fb_draw_vline
vline-Painted_self x y len color c r =
    let clip = fb_get_clip c.0 in
    let top = top-OnScreen r.clipped in
    let cx : clip.x + clip.w < 2 ^ 32 = omega (arith, top.x, r.clipped.width) in
    let cy : clip.y + clip.h < 2 ^ 32 = omega (arith, top.y, r.clipped.height) in
    let y1 = max_u32 y clip.y in
    let y2 = min_u32 (add32 y len) (add32 clip.y clip.h) in
    elim (Bool-cases (ltb x clip.x || leb (add32 clip.x clip.w) x)) [
      | inl e ↦ rw e (Painted-refl c)
      | inr on ↦ elim (Bool-cases (leb y2 y1)) [
        | inl e ↦ rw (on, e) (Painted-refl c)
        | inr ne ↦
            rw (on, ne)
              (for_up-within (Painted c.0 c.1) (write_column x color) (y2 - y1) y1
                (λ j le lt d p.
                  let iy = cut-within y len clip.y clip.h j cy ne le lt in
                  write_px-Painted r x j color d p (
                    clip-Visible c.0 r x j (guard-low x clip.x clip.w cx on)
                      (guard-high x clip.x clip.w cx on) iy.0 iy.1))
                c (Painted-refl c))
      ]
    ]

mark_dirty-Painted :
    (f : Framebuffer) (m : Memory) (x y w h : ℕ) (c : Canvas)
    → Painted f m c
    → Painted f m (fb_mark_dirty c.0 x y w h, c.1)
mark_dirty-Painted f m x y w h c p = record {
  frame = mark_dirty-frame c.0 x y w h ∙ p.frame;
  rest = p.rest;
}

blend-Painted_self :
    (x y w h color : ℕ) (c : Canvas)
    → Ready c.0
    → Painted c.0 c.1 (fb_fill_rect_blend x y w h color c)
unfolding fb_fill_rect_blend
blend-Painted_self x y w h color c r =
    let clip = fb_get_clip c.0 in
    let top = top-OnScreen r.clipped in
    let cx : clip.x + clip.w < 2 ^ 32 = omega (arith, top.x, r.clipped.width) in
    let cy : clip.y + clip.h < 2 ^ 32 = omega (arith, top.y, r.clipped.height) in
    let x1 = max_u32 x clip.x in
    let y1 = max_u32 y clip.y in
    let x2 = min_u32 (add32 x w) (add32 clip.x clip.w) in
    let y2 = min_u32 (add32 y h) (add32 clip.y clip.h) in
    elim (Bool-cases (leb x2 x1)) [
      | inl e ↦ rw e (Painted-refl c)
      | inr ex ↦ elim (Bool-cases (leb y2 y1)) [
        | inl e ↦ rw (ex, e) (Painted-refl c)
        | inr ey ↦
            rw (ex, ey)
              (mark_dirty-Painted c.0 c.1 x1 y1 (x2 - x1) (y2 - y1)
                (for_up (blend_row x1 (x2 - x1) color) (y2 - y1) y1 c)
                (for_up-within (Painted c.0 c.1) (blend_row x1 (x2 - x1) color) (y2 - y1) y1
                  (λ j jl jh d p.
                    let iy = cut-within y h clip.y clip.h j cy ey jl jh in
                    blend_row-Painted r x1 (x2 - x1) color j d p (λ k le lt.
                      let ix = cut-within x w clip.x clip.w k cx ex le lt in
                      clip-Visible c.0 r k j ix.0 ix.1 iy.0 iy.1))
                  c (Painted-refl c)))
      ]
    ]

module _ {f : Framebuffer} {m : Memory} (r : Ready f) where
  pub vline-Painted :
      (x y len color : ℕ) (c : Canvas) → Painted f m c → Painted f m (fb_draw_vline x y len color c)
  vline-Painted x y len color c p =
      Painted-then r c (fb_draw_vline x y len color c) p (vline-Painted_self x y len color c)

  pub blend-Painted :
      (x y w h color : ℕ) (c : Canvas)
      → Painted f m c
      → Painted f m (fb_fill_rect_blend x y w h color c)
  blend-Painted x y w h color c p =
      Painted-then r c (fb_fill_rect_blend x y w h color c) p (blend-Painted_self x y w h color c)
