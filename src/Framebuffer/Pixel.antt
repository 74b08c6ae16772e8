-- ===== src/Framebuffer/Pixel.antt =====
-- Single pixels: what fb_put_pixel writes is what fb_get_pixel reads, and no other pixel changes.
use native.Mathlib.Nat.{mul-le-mul_right, mul-le-mul_left}
use tutorial_os.Common.{
  ℕ, ◌+◌, ◌*◌, ◌%◌, ◌≤◌, ◌<◌, ◌^◌, ◌≡◌, ◌≢◌, ◌⊎◌, inl, inr, refl, ◌∙◌, ap, sym, false, ◌&&◌, ◌==◌,
  if◌then◌else◌, arith, ℕ_discrete, dec_lt, lt→leb_false, ap₂, eq→==, ne→==_false,
}
use tutorial_os.Memory.{Memory, load32, store32, load_bytes, store_bytes}
use tutorial_os.Memory.Laws.{
  Apart, load_bytes-store_bytes-Apart, load_bytes-store_bytes_self, load32-store32_self,
  load32-store32-Apart,
}
use tutorial_os.Framebuffer.Color.{fb_argb_to_565, fb_565_to_argb}
use tutorial_os.Framebuffer.{
  PixelFormat, argb8888, abgr8888, rgb565, Framebuffer, is_clipped, fb_row, fb_write_px, fb_read_px,
  fb_put_pixel, fb_get_pixel,
}

-- the bytes of one pixel
abbrev pub pixel_bytes : PixelFormat → ℕ
pixel_bytes rgb565 = 2
pixel_bytes argb8888 = 4
pixel_bytes abgr8888 = 4

-- what a colour becomes when it is stored and read again
abbrev pub as_stored : PixelFormat → ℕ → ℕ
as_stored rgb565 color = fb_565_to_argb (fb_argb_to_565 color)
as_stored argb8888 color = color
as_stored abgr8888 color = color

-- A row has room for its pixels, and the whole screen is smaller than 4 GiB.
pub record Shaped (fb : Framebuffer) : Type 0 where
  pub rows : pixel_bytes fb.pixel_format * fb.width ≤ fb.pitch
  pub size : fb.height * fb.pitch < 2 ^ 32

module _ (fb : Framebuffer) (sh : Shaped fb) where
  abbrev n : ℕ
  n = pixel_bytes fb.pixel_format

  pub row-is : (y : ℕ) → y < fb.height → fb_row fb y ≡ fb.addr + y * fb.pitch
  unfolding fb_row
  row-is y h =
      let below : y * fb.pitch ≤ fb.height * fb.pitch = mul-le-mul_right fb.pitch (omega arith) in
      omega (arith, sh.size)

  pub row-after : (y y' : ℕ) → y < y' → y * fb.pitch + fb.pitch ≤ y' * fb.pitch
  row-after y y' h =
      let le : (y + 1) * fb.pitch ≤ y' * fb.pitch = mul-le-mul_right fb.pitch (omega arith) in
      let e : (y + 1) * fb.pitch ≡ y * fb.pitch + fb.pitch = grind arith in omega arith

  pub column-le : (x : ℕ) → x < fb.width → n * x + n ≤ fb.pitch
  column-le x h =
      let le : n * (x + 1) ≤ n * fb.width = mul-le-mul_left n (omega arith) in
      let e : n * (x + 1) ≡ n * x + n = grind arith in omega (arith, sh.rows)

  column-after : (x x' : ℕ) → x < x' → n * x + n ≤ n * x'
  column-after x x' h =
      let le : n * (x + 1) ≤ n * x' = mul-le-mul_left n (omega arith) in
      let e : n * (x + 1) ≡ n * x + n = grind arith in omega arith

  -- Two pixels do not share a byte.
  pub pixels-Apart :
      (x y x' y' : ℕ)
      → x < fb.width
      → x' < fb.width
      → y < fb.height
      → y' < fb.height
      → (x ≢ x') ⊎ (y ≢ y')
      → Apart n (fb_row fb y + n * x) n (fb_row fb y' + n * x')
  pixels-Apart x y x' y' hx hx' hy hy' ne =
      rw (row-is y hy, row-is y' hy')
        (elim (dec_lt y y') [
          | yes above ↦ inl (omega (arith, row-after y y' above, column-le x hx))
          | no up ↦ elim (dec_lt y' y) [
            | yes below ↦ inr (omega (arith, row-after y' y below, column-le x' hx'))
            | no down ↦ same_row (omega arith)
          ]
        ])
    where
      same_row :
          y ≡ y' → Apart n (fb.addr + y * fb.pitch + n * x) n (fb.addr + y' * fb.pitch + n * x')
      same_row e =
          let e' : y * fb.pitch ≡ y' * fb.pitch = ap (λ k. k * fb.pitch) e in
          elim (dec_lt x x') [
            | yes left ↦ inl (omega (arith, column-after x x' left))
            | no right ↦ elim (dec_lt x' x) [
              | yes other ↦ inr (omega (arith, column-after x' x other))
              | no same ↦ absurd (elim ne [ inl k ↦ k (omega arith) | inr k ↦ k e ])
            ]
          ]

-- fb_write_px and fb_read_px for a given format
abbrev pub write_as : PixelFormat → Memory → ℕ → ℕ → ℕ → Memory
write_as f m row x color = elim f [
  | rgb565 ↦ store_bytes 2 m (row + 2 * x) (fb_argb_to_565 color)
  | _ ↦ store32 m (row + 4 * x) color
]

abbrev pub read_as : PixelFormat → Memory → ℕ → ℕ → ℕ
read_as f m row x = elim f [
  | rgb565 ↦ fb_565_to_argb (load_bytes 2 m (row + 2 * x))
  | _ ↦ load32 m (row + 4 * x)
]

pub packed-lt : (color : ℕ) → fb_argb_to_565 color % 256 ^ 2 ≡ fb_argb_to_565 color
unfolding fb_argb_to_565
packed-lt color = omega arith

pub read-write_self :
    (f : PixelFormat) (m : Memory) (row x color : ℕ)
    → color < 2 ^ 32
    → read_as f (write_as f m row x color) row x ≡ as_stored f color
read-write_self rgb565 m row x color h =
    ap fb_565_to_argb
      (load_bytes-store_bytes_self 2 m (row + 2 * x) (fb_argb_to_565 color) ∙ packed-lt color)
read-write_self argb8888 m row x color h = load32-store32_self m (row + 4 * x) color h
read-write_self abgr8888 m row x color h = load32-store32_self m (row + 4 * x) color h

pub read-write_far :
    (f : PixelFormat) (m : Memory) (row x color row' x' : ℕ)
    → Apart (pixel_bytes f) (row + pixel_bytes f * x) (pixel_bytes f) (row' + pixel_bytes f * x')
    → read_as f (write_as f m row x color) row' x' ≡ read_as f m row' x'
read-write_far rgb565 m row x color row' x' h =
    ap fb_565_to_argb
      (load_bytes-store_bytes-Apart 2 2 m (row + 2 * x) (fb_argb_to_565 color) (row' + 2 * x') h)
read-write_far argb8888 m row x color row' x' h =
    load32-store32-Apart m (row + 4 * x) color (row' + 4 * x') h
read-write_far abgr8888 m row x color row' x' h =
    load32-store32-Apart m (row + 4 * x) color (row' + 4 * x') h

put_is :
    (fb : Framebuffer) (m : Memory) (x y color : ℕ)
    → x < fb.width
    → y < fb.height
    → is_clipped fb x y ≡ false
    → fb_put_pixel fb m x y color ≡ write_as fb.pixel_format m (fb_row fb y) x color
unfolding fb_put_pixel fb_write_px
put_is fb m x y color hx hy shown =
    rw (lt→leb_false x fb.width hx) (rw (lt→leb_false y fb.height hy) (rw shown refl))

pub get_is :
    (fb : Framebuffer) (m : Memory) (x y : ℕ)
    → x < fb.width
    → y < fb.height
    → fb_get_pixel fb m x y ≡ read_as fb.pixel_format m (fb_row fb y) x
unfolding fb_get_pixel fb_read_px
get_is fb m x y hx hy = rw (lt→leb_false x fb.width hx) (rw (lt→leb_false y fb.height hy) refl)

-- On a framebuffer whose rows have room for their pixels and that is smaller than 4 GiB, fb_put_pixel
-- to a pixel on the screen and not clipped makes fb_get_pixel return the colour there, in 16-bit
-- formats the colour as rounded, and leaves every other pixel of the screen as it was.
pub get_pixel-put_pixel :
    (fb : Framebuffer) (m : Memory) (x y color x' y' : ℕ)
    → Shaped fb
    → color < 2 ^ 32
    → x < fb.width
    → y < fb.height
    → is_clipped fb x y ≡ false
    → x' < fb.width
    → y' < fb.height
    → fb_get_pixel fb (fb_put_pixel fb m x y color) x' y'
      ≡ (if x == x' && y == y' then as_stored fb.pixel_format color else fb_get_pixel fb m x' y')
get_pixel-put_pixel fb m x y color x' y' sh small hx hy shown hx' hy' =
    let f = fb.pixel_format in
    let written = write_as f m (fb_row fb y) x color in
    let start : fb_get_pixel fb (fb_put_pixel fb m x y color) x' y'
        ≡ read_as f written (fb_row fb y') x' =
      ap (λ k. fb_get_pixel fb k x' y') (put_is fb m x y color hx hy shown)
      ∙ get_is fb written x' y' hx' hy' in
    let other : (x ≢ x') ⊎ (y ≢ y')
        → read_as f written (fb_row fb y') x' ≡ fb_get_pixel fb m x' y' =
      λ ne.
        read-write_far f m (fb_row fb y) x color (fb_row fb y') x'
          (pixels-Apart fb sh x y x' y' hx hx' hy hy' ne)
        ∙ sym (get_is fb m x' y' hx' hy') in
    start ∙ elim (ℕ_discrete x x') [
      | yes ex ↦ elim (ℕ_discrete y y') [
        | yes ey ↦
            rw (eq→== x x' ex, eq→== y y' ey)
              (ap₂ (λ a b. read_as f written (fb_row fb a) b) (sym ey) (sym ex)
                ∙ read-write_self f m (fb_row fb y) x color small)
        | no ny ↦ rw (eq→== x x' ex) (rw (ne→==_false y y' ny) (other (inr ny)))
      ]
      | no nx ↦ rw (ne→==_false x x' nx) (other (inl nx))
    ]
