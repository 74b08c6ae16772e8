-- ===== src/Framebuffer/Fill/Shown.antt =====
-- What fb_fill_rect shows: the loops over pixels and rows, and the cut by the clip rectangle.
use native.Mathlib.Nat.{mul-le-mul_right, mul_left_comm}
use tutorial_os.Common.{
  ℕ, zero, suc, ◌+◌, ◌-◌, ◌*◌, ◌/◌, ◌%◌, ◌≤◌, ◌<◌, ◌^◌, ◌≡◌, inl, inr, refl, ◌∙◌, ap, ap₂, sym,
  Bool, true, false, not, ◌&&◌, ltb, leb, ◌==◌, if◌then◌else◌, arith, Bool-cases, ℕ_discrete, eq→==,
  ne→==_false,
}
use tutorial_os.Memory.{Memory}
use tutorial_os.Framebuffer.Color.{min_u32}
use tutorial_os.Framebuffer.{
  add32, PixelFormat, argb8888, abgr8888, rgb565, Framebuffer, fb_get_clip, is_clipped, fb_row,
  fb_get_pixel,
}
use tutorial_os.Framebuffer.Clip.{within, &&-swap, &&-false_left, &&-false_right}
use tutorial_os.Framebuffer.Clip.Stack.{Clipped, top-OnScreen, is_clipped_top}
use tutorial_os.Framebuffer.Pixel.{
  as_stored, Shaped, write_as, read_as, read-write_self, read-write_far, pixels-Apart, row-is,
  get_is,
}
use tutorial_os.Framebuffer.Fill.{
  max_u32, packed, store_px, fill_span, row_base, fill_rows, fb_fill_rect,
}

store_packed :
    (f : PixelFormat) (m : Memory) (row px color : ℕ)
    → store_px f m row px (packed f color) ≡ write_as f m row px color
store_packed rgb565 m row px color = refl
store_packed argb8888 m row px color = refl
store_packed abgr8888 m row px color = refl

words-is :
    (fb : Framebuffer) (y : ℕ)
    → Shaped fb
    → fb.pitch % 4 ≡ 0
    → y < fb.height
    → fb.addr + 4 * (y * (fb.pitch / 4) % 2 ^ 32) ≡ fb_row fb y
words-is fb y sh al h =
    let below : y * fb.pitch ≤ fb.height * fb.pitch = mul-le-mul_right fb.pitch (omega arith) in
    let whole : fb.pitch ≡ 4 * (fb.pitch / 4) = omega arith in
    let e : y * fb.pitch ≡ 4 * (y * (fb.pitch / 4)) =
      ap (λ p. y * p) whole ∙ mul_left_comm y 4 (fb.pitch / 4) in
    omega (arith, sh.size, row-is fb sh y h)

pub row_base-is :
    (f : PixelFormat) (fb : Framebuffer) (y : ℕ)
    → Shaped fb
    → fb.pitch % 4 ≡ 0
    → y < fb.height
    → row_base f fb y ≡ fb_row fb y
row_base-is rgb565 fb y sh al h = refl
row_base-is argb8888 fb y sh al h = words-is fb y sh al h
row_base-is abgr8888 fb y sh al h = words-is fb y sh al h

-- `x` is one of the `n` positions from `s`
abbrev pub covers : ℕ → ℕ → ℕ → Bool
covers s n x = leb s x && ltb x (s + n)

module _ (fb : Framebuffer) (sh : Shaped fb) (color x' y' : ℕ) (small : color < 2 ^ 32)
    (hx' : x' < fb.width) (hy' : y' < fb.height) where
  abbrev f : PixelFormat
  f = fb.pixel_format

  abbrev seen : Memory → ℕ
  seen m = read_as f m (fb_row fb y') x'

  one :
      (m : Memory) (x y : ℕ)
      → x < fb.width
      → y < fb.height
      → seen (store_px f m (fb_row fb y) x (packed f color))
        ≡ (if x == x' && y == y' then as_stored f color else seen m)
  one m x y hx hy = ap seen (store_packed f m (fb_row fb y) x color) ∙ elim (ℕ_discrete x x') [
    | yes ex ↦ elim (ℕ_discrete y y') [
      | yes ey ↦
          rw (eq→== x x' ex, eq→== y y' ey)
            (ap₂ (λ a b. read_as f (write_as f m (fb_row fb y) x color) (fb_row fb a) b) (sym ey)
                (sym ex)
              ∙ read-write_self f m (fb_row fb y) x color small)
      | no ny ↦ rw (eq→== x x' ex) (
          rw (ne→==_false y y' ny) (
            read-write_far f m (fb_row fb y) x color (fb_row fb y') x'
              (pixels-Apart fb sh x y x' y' hx hx' hy hy' (inr ny))))
    ]
    | no nx ↦ rw (ne→==_false x x' nx) (
        read-write_far f m (fb_row fb y) x color (fb_row fb y') x'
          (pixels-Apart fb sh x y x' y' hx hx' hy hy' (inl nx)))
  ]

  pub span_seen :
      (n : ℕ) (m : Memory) (x y : ℕ)
      → x + n ≤ fb.width
      → y < fb.height
      → seen (fill_span f n m (fb_row fb y) x (packed f color))
        ≡ (if covers x n x' && y == y' then as_stored f color else seen m)
  unfolding fill_span
  span_seen zero m x y hx hy = ground arith
  span_seen (suc n) m x y hx hy = ground (
    arith,
    span_seen n (store_px f m (fb_row fb y) x (packed f color)) (x + 1) y (omega arith) hy,
    one m x y (omega arith) hy,
  )

  pub rows_seen :
      (n : ℕ) (m : Memory) (y x w : ℕ)
      → fb.pitch % 4 ≡ 0
      → x + w ≤ fb.width
      → y + n ≤ fb.height
      → seen (fill_rows fb n m y x w (packed f color))
        ≡ (if covers x w x' && covers y n y' then as_stored f color else seen m)
  unfolding fill_rows
  rows_seen zero m y x w al hx hy = ground arith
  rows_seen (suc n) m y x w al hx hy = rw (row_base-is f fb y sh al (omega arith)) (
      ground (
        arith,
        rows_seen n (fill_span f w m (fb_row fb y) x (packed f color)) (y + 1) x w al hx
            (omega arith),
        span_seen w m x y hx (omega arith),
      ))

-- one axis of the part of the rectangle that the clip rectangle shows
module _ (x w c cw p : ℕ) (hx : x + w < 2 ^ 32) (hc : c + cw < 2 ^ 31) where
  abbrev pub lo : ℕ
  lo = max_u32 x c

  abbrev pub hi : ℕ
  hi = min_u32 (add32 x w) (add32 c cw)

  pub cut-some : leb hi lo ≡ false → covers lo (hi - lo) p ≡ (covers x w p && within c cw p)
  cut-some h = ground arith

  pub cut-none : leb hi lo ≡ true → (covers x w p && within c cw p) ≡ false
  cut-none h = ground arith

  pub cut-le : leb hi lo ≡ false → lo + (hi - lo) ≤ c + cw
  cut-le h = ground arith

pub choose_false : (b : Bool) (u v : ℕ) → b ≡ false → v ≡ (if b then u else v)
choose_false b u v e = rw e refl

pub not-not : (b : Bool) → b ≡ not (not b)
not-not true = refl
not-not false = refl

-- On a framebuffer with room for its rows, a pitch of whole words and a clip stack in order,
-- fb_fill_rect with a rectangle whose ends do not wrap around gives its colour, as the format stores it,
-- to exactly those pixels of the screen that are in the rectangle and not clipped.
pub get_pixel-fill_rect :
    (fb : Framebuffer) (m : Memory) (x y w h color x' y' : ℕ)
    → Shaped fb
    → Clipped fb
    → fb.pitch % 4 ≡ 0
    → color < 2 ^ 32
    → x + w < 2 ^ 32
    → y + h < 2 ^ 32
    → x' < fb.width
    → y' < fb.height
    → fb_get_pixel fb (fb_fill_rect fb m x y w h color).1 x' y' ≡ (
        if (covers x w x' && covers y h y') && not (is_clipped fb x' y')
        then as_stored fb.pixel_format color
        else fb_get_pixel fb m x' y')
unfolding fb_fill_rect
get_pixel-fill_rect fb m x y w h color x' y' sh inv al small hx hy hx' hy' =
    let clip = fb_get_clip fb in
    let top = top-OnScreen inv in
    let cx : clip.x + clip.w < 2 ^ 31 = omega (arith, top.x, inv.width) in
    let cy : clip.y + clip.h < 2 ^ 31 = omega (arith, top.y, inv.height) in
    let a = covers x w x' in
    let b = covers y h y' in
    let s = within clip.x clip.w x' in
    let t = within clip.y clip.h y' in
    let shown : (s && t) ≡ not (is_clipped fb x' y') =
      not-not (s && t) ∙ ap not (sym (is_clipped_top fb clip x' y' refl)) in
    let goal : Bool → ℕ =
      λ c. if c then as_stored fb.pixel_format color else fb_get_pixel fb m x' y' in
    let at : (k : Memory) → fb_get_pixel fb k x' y' ≡ read_as fb.pixel_format k (fb_row fb y') x' =
      λ k. get_is fb k x' y' hx' hy' in
    let kept : ((a && b) && (s && t)) ≡ false
        → fb_get_pixel fb m x' y' ≡ goal ((a && b) && not (is_clipped fb x' y')) =
      λ e.
        choose_false ((a && b) && (s && t)) (as_stored fb.pixel_format color)
          (fb_get_pixel fb m x' y') e
        ∙ ap (λ v. goal ((a && b) && v)) shown in
    elim (Bool-cases (leb (hi x w clip.x clip.w x' hx cx) (lo x w clip.x clip.w x' hx cx))) [
      | inl ex ↦ rw ex (kept (&&-false_left a b s t (cut-none x w clip.x clip.w x' hx cx ex)))
      | inr ex ↦
          elim (Bool-cases (leb (hi y h clip.y clip.h y' hy cy) (lo y h clip.y clip.h y' hy cy))) [
            | inl ey ↦
                rw (ex, ey) (kept (&&-false_right a b s t (cut-none y h clip.y clip.h y' hy cy ey)))
            | inr ey ↦
                rw (ex, ey)
                  (at _
                    ∙ rows_seen fb sh color x' y' small hx' hy' _ m _ _ _ al
                        (omega (arith, cut-le x w clip.x clip.w x' hx cx ex, top.x))
                        (omega (arith, cut-le y h clip.y clip.h y' hy cy ey, top.y))
                    ∙ ap₂ (λ c v. if c then as_stored fb.pixel_format color else v)
                        (ap₂ (λ c d. c && d) (cut-some x w clip.x clip.w x' hx cx ex)
                            (cut-some y h clip.y clip.h y' hy cy ey)
                          ∙ &&-swap a b s t
                          ∙ ap (λ v. (a && b) && v) shown)
                        (sym (at m)))
          ]
    ]
