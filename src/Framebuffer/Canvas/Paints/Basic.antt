-- ===== src/Framebuffer/Canvas/Paints/Basic.antt =====
-- The drawing functions that write memory themselves touch only visible bytes: single pixels, spans,
-- columns and filled rectangles.
use tutorial_os.Common.{
  ℕ, zero, suc, ◌+◌, ◌-◌, ◌*◌, ◌≤◌, ◌<◌, ◌^◌, ◌≡◌, refl, ◌∙◌, ap, sym, subst, Bool, true, false,
  ◌||◌, ltb, leb, arith, Bool-cases, inl, inr,
}
use tutorial_os.Memory.{Memory, load_byte}
use tutorial_os.Memory.Laws.{Apart, load_byte-store_bytes, load_byte-store32}
use tutorial_os.Framebuffer.Color.{min_u32}
use tutorial_os.Framebuffer.{
  add32, PixelFormat, argb8888, abgr8888, rgb565, Framebuffer, fb_get_clip, is_clipped, fb_row,
  fb_write_px, fb_put_pixel, fb_mark_dirty,
}
use tutorial_os.Framebuffer.Fill.{
  max_u32, packed, store_px, fill_span, row_base, fill_rows, fb_fill_rect,
}
use tutorial_os.Framebuffer.Fill.Shown.{row_base-is}
use tutorial_os.Framebuffer.Line.{fb_draw_hline}
use tutorial_os.Framebuffer.Clip.Stack.{top-OnScreen}
use tutorial_os.Framebuffer.Pixel.{pixel_bytes}
use tutorial_os.Framebuffer.Canvas.{Canvas, put, put_if, hline, fill}
use tutorial_os.Framebuffer.Canvas.Paints.{
  Ready, undirtied, Hidden, Painted, Hidden-undirtied, undirtied-Hidden, Ready-undirtied,
  undirtied-Ready,
}

-- the memories agree on every hidden byte
abbrev pub Same : Framebuffer → Memory → Memory → Type 0
Same fb m m' = (a : ℕ) → Hidden fb a → load_byte m' a ≡ load_byte m a

module _ (fb : Framebuffer) (r : Ready fb) where
  -- a pixel within the clip rectangle is on the screen and not clipped
  pub clip-Visible :
      (x y : ℕ)
      → (fb_get_clip fb).x ≤ x
      → x < (fb_get_clip fb).x + (fb_get_clip fb).w
      → (fb_get_clip fb).y ≤ y
      → y < (fb_get_clip fb).y + (fb_get_clip fb).h
      → (x < fb.width) × (y < fb.height) × (is_clipped fb x y ≡ false)
  unfolding is_clipped
  clip-Visible x y a b c d =
      let top = top-OnScreen r.clipped in
      (
        omega (arith, top.x),
        omega (arith, top.y),
        ground (arith, top.x, top.y, r.clipped.width, r.clipped.height),
      )

-- a pixel's store leaves the bytes of the others
pub store-far :
    (f : PixelFormat) (m : Memory) (row x value a : ℕ)
    → Apart (pixel_bytes f) (row + pixel_bytes f * x) 1 a
    → load_byte (store_px f m row x value) a ≡ load_byte m a
store-far rgb565 m row x value a h = load_byte-store_bytes 2 m (row + 2 * x) value a h
store-far argb8888 m row x value a h = load_byte-store32 m (row + 4 * x) value a h
store-far abgr8888 m row x value a h = load_byte-store32 m (row + 4 * x) value a h

-- fb_write_px is the store of the colour as the format packs it.
write_px-is :
    (f : PixelFormat) (fb : Framebuffer) (m : Memory) (row x color : ℕ)
    → fb.pixel_format ≡ f
    → fb_write_px fb m row x color ≡ store_px f m row x (packed f color)
unfolding fb_write_px
write_px-is rgb565 fb m row x color e = rw e refl
write_px-is argb8888 fb m row x color e = rw e refl
write_px-is abgr8888 fb m row x color e = rw e refl

-- a write to a visible pixel
pub write_px-Same :
    (fb : Framebuffer) (m : Memory) (x y color : ℕ)
    → x < fb.width
    → y < fb.height
    → is_clipped fb x y ≡ false
    → Same fb m (fb_write_px fb m (fb_row fb y) x color)
write_px-Same fb m x y color hx hy shown a h =
    ap (λ k. load_byte k a) (write_px-is fb.pixel_format fb m (fb_row fb y) x color refl)
    ∙ store-far fb.pixel_format m (fb_row fb y) x (packed fb.pixel_format color) a
        (h x y hx hy shown)

store_px-Same :
    (fb : Framebuffer) (m : Memory) (x y value : ℕ)
    → x < fb.width
    → y < fb.height
    → is_clipped fb x y ≡ false
    → Same fb m (store_px fb.pixel_format m (fb_row fb y) x value)
store_px-Same fb m x y value hx hy shown a h =
    store-far fb.pixel_format m (fb_row fb y) x value a (h x y hx hy shown)

span-Same :
    (fb : Framebuffer) (y value n x : ℕ) (m : Memory)
    → y < fb.height
    → ((k : ℕ) → x ≤ k → k < x + n → (k < fb.width) × (is_clipped fb k y ≡ false))
    → Same fb m (fill_span fb.pixel_format n m (fb_row fb y) x value)
unfolding fill_span
span-Same fb y value zero x m hy see a h = refl
span-Same fb y value (suc n) x m hy see a h =
    let here = see x (omega arith) (omega arith) in
    span-Same fb y value n (x + 1) (store_px fb.pixel_format m (fb_row fb y) x value) hy
      (λ k le lt. see k (omega arith) (omega arith)) a h
    ∙ store_px-Same fb m x y value here.0 hy here.1 a h

rows-Same :
    (fb : Framebuffer) (r : Ready fb) (x w value n y : ℕ) (m : Memory)
    → ((j k : ℕ)
        → y ≤ j
        → j < y + n
        → x ≤ k
        → k < x + w
        → (k < fb.width) × (j < fb.height) × (is_clipped fb k j ≡ false))
    → 0 < w
    → Same fb m (fill_rows fb n m y x w value)
unfolding fill_rows
rows-Same fb r x w value zero y m see ne a h = refl
rows-Same fb r x w value (suc n) y m see ne a h =
    let hy = (see y x (omega arith) (omega arith) (omega arith) (omega arith)).1 in
    rows-Same fb r x w value n (y + 1)
      (fill_span fb.pixel_format w m (row_base fb.pixel_format fb y) x value)
      (λ j k p q. see j k (omega arith) (omega arith)) ne a h
    ∙ ap (λ row. load_byte (fill_span fb.pixel_format w m row x value) a)
        (row_base-is fb.pixel_format fb y r.shaped r.words hy)
    ∙ span-Same fb y value w x m hy
        (λ k p q. let v = see y k (omega arith) (omega arith) p q in (v.0, v.2)) a h

-- the cut of one axis by the clip rectangle
pub cut-within :
    (x w c cw p : ℕ)
    → c + cw < 2 ^ 32
    → leb (min_u32 (add32 x w) (add32 c cw)) (max_u32 x c) ≡ false
    → max_u32 x c ≤ p
    → p < max_u32 x c + (min_u32 (add32 x w) (add32 c cw) - max_u32 x c)
    → (c ≤ p) × (p < c + cw)
cut-within x w c cw p hc ne le lt = ground arith

pub guard-low : (y c h : ℕ) → c + h < 2 ^ 32 → (ltb y c || leb (add32 c h) y) ≡ false → c ≤ y
guard-low y c h b e = ground arith

pub guard-high : (y c h : ℕ) → c + h < 2 ^ 32 → (ltb y c || leb (add32 c h) y) ≡ false → y < c + h
guard-high y c h b e = ground arith

hline-Same :
    (fb : Framebuffer) (m : Memory)
    → Ready fb
    → (x y len color : ℕ) → Same fb m (fb_draw_hline fb m x y len color)
unfolding fb_draw_hline
hline-Same fb m r x y len color a h =
    let clip = fb_get_clip fb in
    let top = top-OnScreen r.clipped in
    let f = fb.pixel_format in
    let x1 = max_u32 x clip.x in
    let x2 = min_u32 (add32 x len) (add32 clip.x clip.w) in
    let cx : clip.x + clip.w < 2 ^ 32 = omega (arith, top.x, r.clipped.width) in
    let cy : clip.y + clip.h < 2 ^ 32 = omega (arith, top.y, r.clipped.height) in
    elim (Bool-cases (ltb y clip.y || leb (add32 clip.y clip.h) y)) [
      | inl e ↦ rw e refl
      | inr on ↦ elim (Bool-cases (leb x2 x1)) [
        | inl e ↦ rw (on, e) refl
        | inr ne ↦
            let see : (k : ℕ)
                → x1 ≤ k
                → k < x1 + (x2 - x1)
                → (k < fb.width) × (y < fb.height) × (is_clipped fb k y ≡ false) =
              λ k le lt.
                let inside = cut-within x len clip.x clip.w k cx ne le lt in
                clip-Visible fb r k y inside.0 inside.1 (guard-low y clip.y clip.h cy on)
                  (guard-high y clip.y clip.h cy on) in
            let hy = (see x1 (omega arith) (ground arith)).1 in
            rw (on, ne)
              (ap (λ row. load_byte (fill_span f (x2 - x1) m row x1 (packed f color)) a)
                  (row_base-is f fb y r.shaped r.words hy)
                ∙ span-Same fb y (packed f color) (x2 - x1) x1 m hy
                    (λ k le lt. let v = see k le lt in (v.0, v.2)) a h)
      ]
    ]

fill-Same :
    (fb : Framebuffer) (m : Memory)
    → Ready fb
    → (x y w h color : ℕ) → Same fb m (fb_fill_rect fb m x y w h color).1
unfolding fb_fill_rect
fill-Same fb m r x y w h color a hid =
    let clip = fb_get_clip fb in
    let top = top-OnScreen r.clipped in
    let cx : clip.x + clip.w < 2 ^ 32 = omega (arith, top.x, r.clipped.width) in
    let cy : clip.y + clip.h < 2 ^ 32 = omega (arith, top.y, r.clipped.height) in
    let x1 = max_u32 x clip.x in
    let y1 = max_u32 y clip.y in
    let x2 = min_u32 (add32 x w) (add32 clip.x clip.w) in
    let y2 = min_u32 (add32 y h) (add32 clip.y clip.h) in
    elim (Bool-cases (leb x2 x1)) [
      | inl e ↦ rw e refl
      | inr ex ↦ elim (Bool-cases (leb y2 y1)) [
        | inl e ↦ rw (ex, e) refl
        | inr ey ↦
            rw (ex, ey)
              (rows-Same fb r x1 (x2 - x1) (packed fb.pixel_format color) (y2 - y1) y1 m
                (λ j k jl jh kl kh.
                  let ix = cut-within x w clip.x clip.w k cx ex kl kh in
                  let iy = cut-within y h clip.y clip.h j cy ey jl jh in
                  clip-Visible fb r k j ix.0 ix.1 iy.0 iy.1)
                (ground arith) a hid)
      ]
    ]

pub mark_dirty-frame :
    (fb : Framebuffer) (x y w h : ℕ) → undirtied (fb_mark_dirty fb x y w h) ≡ undirtied fb
unfolding fb_mark_dirty
mark_dirty-frame fb x y w h = elim (Bool-cases fb.full_dirty) [
  | inl e ↦ rw e refl
  | inr e ↦ elim (Bool-cases (leb 32 fb.dirty_count)) [
    | inl e' ↦ rw (e, e') refl
    | inr e' ↦ rw (e, e') refl
  ]
]

fill-frame :
    (fb : Framebuffer) (m : Memory) (x y w h color : ℕ)
    → undirtied (fb_fill_rect fb m x y w h color).0 ≡ undirtied fb
unfolding fb_fill_rect
fill-frame fb m x y w h color =
    let clip = fb_get_clip fb in
    let x1 = max_u32 x clip.x in
    let y1 = max_u32 y clip.y in
    let x2 = min_u32 (add32 x w) (add32 clip.x clip.w) in
    let y2 = min_u32 (add32 y h) (add32 clip.y clip.h) in
    elim (Bool-cases (leb x2 x1 || leb y2 y1)) [
      | inl e ↦ rw e refl
      | inr e ↦ rw e (mark_dirty-frame fb x1 y1 (x2 - x1) (y2 - y1))
    ]

-- A step that leaves the framebuffer but for dirty rectangles, and writes only visible bytes.
pub Painted-step :
    {f : Framebuffer} {m : Memory} (c c' : Canvas)
    → Ready f
    → Painted f m c
    → undirtied c'.0 ≡ undirtied c.0
    → (Ready c.0 → Same c.0 c.1 c'.1)
    → Painted f m c'
Painted-step {f} c c' r p same step =
    let ready = undirtied-Ready (subst Ready (sym p.frame) (Ready-undirtied r)) in
    record {
      frame = same ∙ p.frame;
      rest = λ a h.
          step ready a (
            undirtied-Hidden c.0 a (subst (λ g. Hidden g a) (sym p.frame) (Hidden-undirtied f a h)))
          ∙ p.rest a h;
    }

module _ {f : Framebuffer} {m : Memory} (r : Ready f) where
  pub put-Painted : (x y color : ℕ) (c : Canvas) → Painted f m c → Painted f m (put x y color c)
  unfolding fb_put_pixel
  put-Painted x y color c p = Painted-step c (put x y color c) r p refl (λ _ a h.
      elim (Bool-cases (leb c.0.width x)) [
        | inl e ↦ rw e refl
        | inr e ↦ elim (Bool-cases (leb c.0.height y)) [
          | inl e' ↦ rw (e, e') refl
          | inr e' ↦ elim (Bool-cases (is_clipped c.0 x y)) [
            | inl e2 ↦ rw (e, e', e2) refl
            | inr e2 ↦
                rw (e, e', e2)
                  (write_px-Same c.0 c.1 x y color (ground arith) (ground arith) e2 a h)
          ]
        ]
      ])

  pub put_if-Painted :
      (b : Bool) (x y color : ℕ) (c : Canvas) → Painted f m c → Painted f m (put_if b x y color c)
  put_if-Painted true x y color c p = put-Painted x y color c p
  put_if-Painted false x y color c p = p

  pub hline-Painted :
      (x y len color : ℕ) (c : Canvas) → Painted f m c → Painted f m (hline x y len color c)
  hline-Painted x y len color c p =
      Painted-step c (hline x y len color c) r p refl
        (λ ready. hline-Same c.0 c.1 ready x y len color)

  pub fill-Painted :
      (x y w h color : ℕ) (c : Canvas) → Painted f m c → Painted f m (fill x y w h color c)
  fill-Painted x y w h color c p =
      Painted-step c (fill x y w h color c) r p (fill-frame c.0 c.1 x y w h color)
        (λ ready. fill-Same c.0 c.1 ready x y w h color)
