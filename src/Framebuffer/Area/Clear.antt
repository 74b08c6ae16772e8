-- ===== src/Framebuffer/Area/Clear.antt =====
-- fb_clear gives every pixel of the screen the colour and stays within the rows of the screen.
use native.Mathlib.Nat.{mul-le-mul_left}
use tutorial_os.Common.{
  ℕ, zero, suc, ◌+◌, ◌*◌, ◌/◌, ◌%◌, ◌≤◌, ◌<◌, ◌^◌, ◌≡◌, ◌⊎◌, inl, inr, refl, ◌∙◌, ap, sym, subst,
  ◌&&◌, if◌then◌else◌, arith, ℕ_discrete,
}
use tutorial_os.Memory.{Memory, load_byte, load_bytes}
use tutorial_os.Memory.Laws.{load_bytes-cong, load_bytes-store_bytes_self}
use tutorial_os.Framebuffer.Color.{fb_argb_to_565, fb_565_to_argb}
use tutorial_os.Framebuffer.{
  PixelFormat, argb8888, abgr8888, rgb565, Framebuffer, fb_row, fb_get_pixel, fb_read_px,
  fb_mark_all_dirty,
}
use tutorial_os.Framebuffer.Fill.{packed, store_px, fill_span, row_base, fill_rows}
use tutorial_os.Framebuffer.Fill.Shown.{row_base-is, covers, rows_seen}
use tutorial_os.Framebuffer.Int32.{mul32}
use tutorial_os.Framebuffer.Pixel.{
  pixel_bytes, as_stored, Shaped, read_as, row-is, row-after, get_is, packed-lt,
}
use tutorial_os.Framebuffer.Canvas.{Canvas}
use tutorial_os.Framebuffer.Area.{clear_as, fb_clear}
use tutorial_os.Framebuffer.Canvas.Paints.{OffScreen}
use tutorial_os.Framebuffer.Canvas.Paints.Basic.{store-far}

span-far :
    (f : PixelFormat) (n : ℕ) (m : Memory) (row x value a : ℕ)
    → (a < row + pixel_bytes f * x) ⊎ (row + pixel_bytes f * (x + n) ≤ a)
    → load_byte (fill_span f n m row x value) a ≡ load_byte m a
unfolding fill_span
span-far f zero m row x value a h = refl
span-far f (suc n) m row x value a h =
    let b = pixel_bytes f in
    let one : b * (x + 1) ≡ b * x + b = grind arith in
    let rest : b * (x + suc n) ≡ b * (x + 1 + n) = ap (λ k. b * k) (omega arith) in
    let le : b * (x + 1) ≤ b * (x + 1 + n) = mul-le-mul_left b (omega arith) in
    span-far f n (store_px f m row x value) row (x + 1) value a
      (elim h [ inl lt ↦ inl (omega arith) | inr ge ↦ inr (omega arith) ])
    ∙ store-far f m row x value a
        (elim h [ inl lt ↦ inr (omega arith) | inr ge ↦ inl (omega arith) ])

rows-OffScreen :
    (fb : Framebuffer) (n : ℕ) (m : Memory) (y value a : ℕ)
    → Shaped fb
    → fb.pitch % 4 ≡ 0
    → y + n ≤ fb.height
    → OffScreen fb a
    → load_byte (fill_rows fb n m y 0 fb.width value) a ≡ load_byte m a
unfolding fill_rows
rows-OffScreen fb zero m y value a sh al hy off = refl
rows-OffScreen fb (suc n) m y value a sh al hy off =
    let f = fb.pixel_format in
    let base : row_base f fb y ≡ fb.addr + y * fb.pitch =
      row_base-is f fb y sh al (omega arith) ∙ row-is fb sh y (omega arith) in
    let below = row-after fb sh y fb.height (omega arith) in
    rows-OffScreen fb n (fill_span f fb.width m (row_base f fb y) 0 value) (y + 1) value a sh al
      (omega arith) off
    ∙ span-far f fb.width m (row_base f fb y) 0 value a
        (elim off [ inl lt ↦ inl (omega arith) | inr ge ↦ inr (omega (arith, sh.rows)) ])

-- the pixels of a 16-bit screen, counted with the ends of the rows
run-length :
    (fb : Framebuffer)
    → Shaped fb
    → fb.pitch % 4 ≡ 0
    → 2 * mul32 (fb.pitch / 2) fb.height ≡ fb.height * fb.pitch
run-length fb sh al =
    let whole : fb.pitch ≡ 2 * (fb.pitch / 2) = omega arith in
    let e : fb.height * fb.pitch ≡ 2 * (fb.pitch / 2 * fb.height) =
      ap (λ p. fb.height * p) whole ∙ grind arith in
    omega (arith, sh.size)

-- fb_clear writes nothing outside the rows of the screen.
pub clear-OffScreen :
    (color : ℕ) (c : Canvas) (a : ℕ)
    → Shaped c.0
    → c.0.pitch % 4 ≡ 0
    → OffScreen c.0 a
    → load_byte (fb_clear color c).1 a ≡ load_byte c.1 a
unfolding fb_clear
clear-OffScreen color c a sh al off = at c.0.pixel_format
  where
    at : (f : PixelFormat) → load_byte (clear_as f color c.0 c.1) a ≡ load_byte c.1 a
    at rgb565 =
        span-far rgb565 (mul32 (c.0.pitch / 2) c.0.height) c.1 c.0.addr 0 (fb_argb_to_565 color) a
          (elim off [
            | inl lt ↦ inl (omega arith)
            | inr ge ↦ inr (omega (arith, run-length c.0 sh al))
          ])
    at argb8888 = rows-OffScreen c.0 c.0.height c.1 0 color a sh al (omega arith) off
    at abgr8888 = rows-OffScreen c.0 c.0.height c.1 0 color a sh al (omega arith) off

span_read :
    (n : ℕ) (m : Memory) (row x value j : ℕ)
    → x ≤ j
    → j < x + n
    → load_bytes 2 (fill_span rgb565 n m row x value) (row + 2 * j) ≡ value % 256 ^ 2
unfolding fill_span
span_read zero m row x value j le lt = absurd (omega arith)
span_read (suc n) m row x value j le lt =
    let m' = store_px rgb565 m row x value in
    elim (ℕ_discrete x j) [
      | yes e ↦
          load_bytes-cong 2 (fill_span rgb565 n m' row (x + 1) value) m' (row + 2 * j)
            (λ b p q. span-far rgb565 n m' row (x + 1) value b (inl (omega arith)))
          ∙ ap (λ k. load_bytes 2 m' (row + 2 * k)) (sym e)
          ∙ load_bytes-store_bytes_self 2 m (row + 2 * x) value
      | no ne ↦ span_read n m' row (x + 1) value j (omega arith) (omega arith)
    ]

clear_565 :
    (fb : Framebuffer) (m : Memory) (color x y : ℕ)
    → Shaped fb
    → fb.pitch % 4 ≡ 0
    → fb.pixel_format ≡ rgb565
    → x < fb.width
    → y < fb.height
    → read_as rgb565 (clear_as rgb565 color fb m) (fb_row fb y) x ≡ as_stored rgb565 color
clear_565 fb m color x y sh al e hx hy =
    let wide : pixel_bytes rgb565 * fb.width ≤ fb.pitch =
      subst (λ f. pixel_bytes f * fb.width ≤ fb.pitch) e sh.rows in
    let whole : fb.pitch ≡ 2 * (fb.pitch / 2) = omega arith in
    let start : y * fb.pitch ≡ 2 * (y * (fb.pitch / 2)) = ap (λ p. y * p) whole ∙ grind arith in
    let j = y * (fb.pitch / 2) + x in
    let last = row-after fb sh y fb.height hy in
    let place : fb_row fb y + 2 * x ≡ fb.addr + 2 * j = omega (arith, row-is fb sh y hy) in
    ap (λ b. fb_565_to_argb (load_bytes 2 (clear_as rgb565 color fb m) b)) place
    ∙ ap fb_565_to_argb (
        span_read (mul32 (fb.pitch / 2) fb.height) m fb.addr 0 (fb_argb_to_565 color) j
          (omega arith) (omega (arith, run-length fb sh al))
        ∙ packed-lt color)

marked :
    (fb : Framebuffer) (m : Memory) (x y : ℕ)
    → fb_get_pixel (fb_mark_all_dirty fb) m x y ≡ fb_get_pixel fb m x y
unfolding fb_get_pixel fb_read_px fb_row fb_mark_all_dirty
marked fb m x y = refl

covered : (w h x y u v : ℕ) → x < w → y < h → (if covers 0 w x && covers 0 h y then u else v) ≡ u
covered w h x y u v hx hy = ground arith

-- On a framebuffer with room for its rows and a pitch of whole words, fb_clear gives every pixel of the
-- screen the colour, as the format stores it, whatever the clip rectangle is.
pub get_pixel-clear :
    (color : ℕ) (c : Canvas) (x y : ℕ)
    → Shaped c.0
    → c.0.pitch % 4 ≡ 0
    → color < 2 ^ 32
    → x < c.0.width
    → y < c.0.height
    → fb_get_pixel (fb_clear color c).0 (fb_clear color c).1 x y ≡ as_stored c.0.pixel_format color
unfolding fb_clear
get_pixel-clear color c x y sh al small hx hy =
    marked c.0 _ x y
    ∙ get_is c.0 (clear_as c.0.pixel_format color c.0 c.1) x y hx hy
    ∙ at c.0.pixel_format refl
  where
    words :
        read_as c.0.pixel_format
          (fill_rows c.0 c.0.height c.1 0 0 c.0.width (packed c.0.pixel_format color))
          (fb_row c.0 y)
          x
        ≡ as_stored c.0.pixel_format color
    words =
        rows_seen c.0 sh color x y small hx hy c.0.height c.1 0 0 c.0.width al (omega arith)
          (omega arith)
        ∙ covered c.0.width c.0.height x y (as_stored c.0.pixel_format color) _ hx hy

    at :
        (f : PixelFormat)
        → c.0.pixel_format ≡ f
        → read_as f (clear_as f color c.0 c.1) (fb_row c.0 y) x ≡ as_stored f color
    at rgb565 e = clear_565 c.0 c.1 color x y sh al e hx hy
    at argb8888 e =
        subst
          (λ f.
            read_as f (fill_rows c.0 c.0.height c.1 0 0 c.0.width (packed f color)) (fb_row c.0 y) x
            ≡ as_stored f color)
          e words
    at abgr8888 e =
        subst
          (λ f.
            read_as f (fill_rows c.0 c.0.height c.1 0 0 c.0.width (packed f color)) (fb_row c.0 y) x
            ≡ as_stored f color)
          e words
