-- ===== src/Framebuffer/Screen/Raw.antt =====
-- A pixel as it is stored, and what moving one does to the others.
use native.Mathlib.Nat.{mod-eq_of_lt}
use tutorial_os.Common.{
  ℕ, ◌+◌, ◌*◌, ◌/◌, ◌%◌, ◌≤◌, ◌<◌, ◌^◌, ◌≡◌, ◌≢◌, ◌⊎◌, inl, inr, refl, ◌∙◌, ap, ap₂, sym, ◌&&◌,
  ◌==◌, if◌then◌else◌, arith, ℕ_discrete, eq→==, ne→==_false,
}
use tutorial_os.Memory.{Memory, load_bytes, store_bytes, load32}
use tutorial_os.Memory.Laws.{
  load_bytes-store_bytes-Apart, load_bytes-store_bytes_self, load_bytes-lt, load32-is, store32-is,
}
use tutorial_os.Framebuffer.Color.{fb_565_to_argb}
use tutorial_os.Framebuffer.{
  add32, PixelFormat, argb8888, abgr8888, rgb565, Framebuffer, fb_row, fb_get_pixel,
}
use tutorial_os.Framebuffer.Int32.{mul32}
use tutorial_os.Framebuffer.Fill.Shown.{row_base-is}
use tutorial_os.Framebuffer.Pixel.{
  pixel_bytes, Shaped, read_as, pixels-Apart, row-is, row-after, column-le, get_is,
}
use tutorial_os.Framebuffer.Screen.{pixel_at, move_px}

-- the stored value of a pixel
abbrev pub raw : Framebuffer → Memory → ℕ → ℕ → ℕ
raw fb m x y =
    load_bytes (pixel_bytes fb.pixel_format) m (fb_row fb y + pixel_bytes fb.pixel_format * x)

-- the colour that a stored value stands for
abbrev pub decode : PixelFormat → ℕ → ℕ
decode rgb565 v = fb_565_to_argb v
decode argb8888 v = v
decode abgr8888 v = v

read-raw :
    (f : PixelFormat) (m : Memory) (row x : ℕ)
    → read_as f m row x ≡ decode f (load_bytes (pixel_bytes f) m (row + pixel_bytes f * x))
read-raw rgb565 m row x = refl
read-raw argb8888 m row x = load32-is m (row + 4 * x)
read-raw abgr8888 m row x = load32-is m (row + 4 * x)

pub get-raw :
    (fb : Framebuffer) (m : Memory) (x y : ℕ)
    → x < fb.width
    → y < fb.height
    → fb_get_pixel fb m x y ≡ decode fb.pixel_format (raw fb m x y)
get-raw fb m x y hx hy = get_is fb m x y hx hy ∙ read-raw fb.pixel_format m (fb_row fb y) x

move-is :
    (f : PixelFormat) (m : Memory) (s d : ℕ)
    → move_px f m s d ≡ store_bytes (pixel_bytes f) m d (load_bytes (pixel_bytes f) m s)
move-is rgb565 m s d = refl
move-is argb8888 m s d = store32-is m d (load32 m s) ∙ ap (store_bytes 4 m d) (load32-is m s)
move-is abgr8888 m s d = store32-is m d (load32 m s) ∙ ap (store_bytes 4 m d) (load32-is m s)

word_at :
    (addr base row x : ℕ)
    → addr + 4 * base ≡ row
    → 4 * base + 4 * x < 2 ^ 32
    → addr + 4 * add32 base x ≡ row + 4 * x
word_at addr base row x e h = omega arith

pub pixel_at-is :
    (fb : Framebuffer) (x y : ℕ)
    → Shaped fb
    → fb.pitch % 4 ≡ 0
    → x < fb.width
    → y < fb.height
    → pixel_at fb.pixel_format fb x y ≡ fb_row fb y + pixel_bytes fb.pixel_format * x
pixel_at-is fb x y sh al hx hy = at fb.pixel_format refl
  where
    end' :
        y * fb.pitch + pixel_bytes fb.pixel_format * x + pixel_bytes fb.pixel_format
        ≤ fb.height * fb.pitch
    end' = omega (arith, row-after fb sh y fb.height hy, column-le fb sh x hx)

    base : fb.addr + 4 * mul32 y (fb.pitch / 4) ≡ fb_row fb y
    base = row_base-is argb8888 fb y sh al hy

    word :
        pixel_bytes fb.pixel_format ≡ 4
        → fb.addr + 4 * add32 (mul32 y (fb.pitch / 4)) x ≡ fb_row fb y + 4 * x
    word e =
        let end4 : y * fb.pitch + 4 * x + 4 ≤ fb.height * fb.pitch = rw e at end' in
        word_at fb.addr (mul32 y (fb.pitch / 4)) (fb_row fb y) x base
          (omega (arith, base, row-is fb sh y hy, sh.size))

    at :
        (f : PixelFormat)
        → fb.pixel_format ≡ f
        → pixel_at f fb x y ≡ fb_row fb y + pixel_bytes f * x
    at rgb565 e = refl
    at argb8888 e = word (ap pixel_bytes e)
    at abgr8888 e = word (ap pixel_bytes e)

module _ (fb : Framebuffer) (sh : Shaped fb) (m : Memory) (x y x' y' : ℕ) (hx : x < fb.width)
    (hy : y < fb.height) (hx' : x' < fb.width) (hy' : y' < fb.height) where
  -- the pixel (x', y') is overwritten with the pixel (x, y)
  abbrev pub moved : Memory
  moved =
      move_px fb.pixel_format m (fb_row fb y + pixel_bytes fb.pixel_format * x)
        (fb_row fb y' + pixel_bytes fb.pixel_format * x')

  pub raw-move :
      (p q : ℕ)
      → p < fb.width
      → q < fb.height
      → raw fb moved p q ≡ (if p == x' && q == y' then raw fb m x y else raw fb m p q)
  raw-move p q hp hq =
      let n = pixel_bytes fb.pixel_format in
      let s = fb_row fb y + n * x in
      let d = fb_row fb y' + n * x' in
      let v = load_bytes n m s in
      let far : (p ≢ x') ⊎ (q ≢ y') → raw fb (store_bytes n m d v) p q ≡ raw fb m p q = λ ne.
        load_bytes-store_bytes-Apart n n m d v (fb_row fb q + n * p) (
          pixels-Apart fb sh x' y' p q hx' hp hy' hq
            (elim ne [ inl a ↦ inl (λ e. a (sym e)) | inr b ↦ inr (λ e. b (sym e)) ])) in
      ap (λ k. raw fb k p q) (move-is fb.pixel_format m s d) ∙ elim (ℕ_discrete p x') [
        | yes ep ↦ elim (ℕ_discrete q y') [
          | yes eq ↦
              rw (eq→== p x' ep, eq→== q y' eq)
                (ap₂ (λ a b. raw fb (store_bytes n m d v) a b) ep eq
                  ∙ load_bytes-store_bytes_self n m d v
                  ∙ mod-eq_of_lt (load_bytes-lt n m s))
          | no nq ↦ rw (eq→== p x' ep) (rw (ne→==_false q y' nq) (far (inr nq)))
        ]
        | no np ↦ rw (ne→==_false p x' np) (far (inl np))
      ]
