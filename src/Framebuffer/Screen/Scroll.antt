-- ===== src/Framebuffer/Screen/Scroll.antt =====
-- fb_scroll_v moves every line and fills the lines that come free.
use tutorial_os.Common.{
  ℕ, ◌+◌, ◌-◌, ◌<◌, ◌^◌, ◌≡◌, refl, ◌∙◌, ap, sym, subst, Bool, true, false, not, ◌&&◌, ltb, leb,
  ◌==◌, if◌then◌else◌, arith,
}
use tutorial_os.Memory.{Memory}
use tutorial_os.Framebuffer.{
  sub32, Framebuffer, is_clipped, fb_get_clip, fb_row, fb_read_px, fb_get_pixel,
}
use tutorial_os.Framebuffer.Int32.{neg32, is_negative}
use tutorial_os.Framebuffer.Fill.Shown.{covers, get_pixel-fill_rect}
use tutorial_os.Framebuffer.Pixel.{as_stored}
use tutorial_os.Framebuffer.Canvas.{Canvas, fill}
use tutorial_os.Framebuffer.Canvas.Paints.{Ready, undirtied, Ready-undirtied, undirtied-Ready}
use tutorial_os.Framebuffer.Canvas.Paints.Basic.{mark_dirty-frame}
use tutorial_os.Framebuffer.Screen.{fb_copy_rect, fb_scroll_v}
use tutorial_os.Framebuffer.Screen.Moved.{get_pixel-copy_rect}

get-undirtied :
    (fb : Framebuffer) (m : Memory) (x y : ℕ)
    → fb_get_pixel fb m x y ≡ fb_get_pixel (undirtied fb) m x y
unfolding fb_get_pixel fb_read_px fb_row
get-undirtied fb m x y = refl

clipped-undirtied : (fb : Framebuffer) (x y : ℕ) → is_clipped fb x y ≡ is_clipped (undirtied fb) x y
unfolding is_clipped fb_get_clip
clipped-undirtied fb x y = refl

copy-frame :
    (sx sy dx dy w h : ℕ) (c : Canvas)
    → undirtied (fb_copy_rect sx sy dx dy w h c).0 ≡ undirtied c.0
unfolding fb_copy_rect
copy-frame sx sy dx dy w h c = mark_dirty-frame c.0 dx dy w h

unclipped :
    (a b clipped : Bool) (u u' v v' : ℕ)
    → clipped ≡ false
    → u ≡ u'
    → v ≡ v'
    → (if (a && b) && not clipped then u else v) ≡ (if a && b then u' else v')
unclipped true true clipped u u' v v' e eu ev = rw e eu
unclipped true false clipped u u' v v' e eu ev = ev
unclipped false b clipped u u' v v' e eu ev = ev

-- A filled rectangle on a canvas that differs from `c` by dirty rectangles alone.
fill-after :
    (c d : Canvas) (x y w h color x' y' : ℕ)
    → Ready c.0
    → undirtied d.0 ≡ undirtied c.0
    → color < 2 ^ 32
    → x + w < 2 ^ 32
    → y + h < 2 ^ 32
    → x' < c.0.width
    → y' < c.0.height
    → is_clipped c.0 x' y' ≡ false
    → fb_get_pixel c.0 (fill x y w h color d).1 x' y' ≡ (
        if covers x w x' && covers y h y'
        then as_stored c.0.pixel_format color
        else fb_get_pixel c.0 d.1 x' y')
fill-after c d x y w h color x' y' r e small hx hy hx' hy' shown =
    let r' = undirtied-Ready (subst Ready (sym e) (Ready-undirtied r)) in
    let get : (m : Memory) → fb_get_pixel c.0 m x' y' ≡ fb_get_pixel d.0 m x' y' = λ m.
      get-undirtied c.0 m x' y'
      ∙ ap (λ g. fb_get_pixel g m x' y') (sym e)
      ∙ sym (get-undirtied d.0 m x' y') in
    let shown' : is_clipped d.0 x' y' ≡ false =
      clipped-undirtied d.0 x' y'
      ∙ ap (λ g. is_clipped g x' y') e
      ∙ sym (clipped-undirtied c.0 x' y')
      ∙ shown in
    let wide : x' < d.0.width = subst (λ g. x' < g.width) (sym e) hx' in
    let high : y' < d.0.height = subst (λ g. y' < g.height) (sym e) hy' in
    get (fill x y w h color d).1
    ∙ get_pixel-fill_rect d.0 d.1 x y w h color x' y' r'.shaped r'.clipped r'.words small hx hy wide
        high
    ∙ unclipped (covers x w x') (covers y h y') (is_clipped d.0 x' y')
        (as_stored d.0.pixel_format color) (as_stored c.0.pixel_format color)
        (fb_get_pixel d.0 d.1 x' y') (fb_get_pixel c.0 d.1 x' y') shown'
        (ap (λ g. as_stored g.pixel_format color) e) (sym (get d.1))

module _ (n color : ℕ) (c : Canvas) (pos : 0 < n) (some_left : n < c.0.height)
    (low : c.0.height < 2 ^ 31) where
  down-is :
      fb_scroll_v n color c
      ≡ fill 0 0 c.0.width n color (fb_copy_rect 0 0 0 n c.0.width (c.0.height - n) c)
  unfolding fb_scroll_v
  down-is =
      let positive : is_negative n ≡ false = ground arith in
      let some_n : (n == 0) ≡ false = ground arith in
      let less : leb c.0.height n ≡ false = ground arith in
      let rest : sub32 c.0.height n ≡ c.0.height - n = omega arith in
      rw (positive, some_n, less, rest) refl

  up-is :
      fb_scroll_v (neg32 n) color c
      ≡ fill 0
          (c.0.height - n)
          c.0.width
          n
          color
          (fb_copy_rect 0 n 0 0 c.0.width (c.0.height - n) c)
  unfolding fb_scroll_v
  up-is =
      let negative : is_negative (neg32 n) ≡ true = ground arith in
      let some_n : (neg32 n == 0) ≡ false = ground arith in
      let size : neg32 (neg32 n) ≡ n = omega arith in
      let less : leb c.0.height n ≡ false = ground arith in
      let rest : sub32 c.0.height n ≡ c.0.height - n = omega arith in
      rw (negative, some_n) (rw (size, less, rest) refl)

-- where a pixel of a scrolled screen comes from
from-above :
    (x y width height n u v w : ℕ)
    → x < width
    → y < height
    → (if covers 0 width x && covers 0 n y
        then u
        else (if covers 0 width x && covers n (height - n) y then w else v))
      ≡ (if ltb y n then u else w)
from-above x y width height n u v w hx hy = ground arith

from-below :
    (x y width height n u v w : ℕ)
    → x < width
    → y < height
    → n < height
    → (if covers 0 width x && covers (height - n) n y
        then u
        else (if covers 0 width x && covers 0 (height - n) y then w else v))
      ≡ (if ltb y (height - n) then w else u)
from-below x y width height n u v w hx hy less = ground arith

-- On a framebuffer that can be drawn on, a pixel of the screen that is not clipped shows, after
-- fb_scroll_v by 0 < n < height lines, the pixel n lines above it, or n lines below it when scrolled by
-- -n; in the n lines that come free it shows the fill colour.
pub get_pixel-scroll_v :
    (n color : ℕ) (c : Canvas) (x' y' : ℕ)
    → Ready c.0
    → 0 < n
    → n < c.0.height
    → color < 2 ^ 32
    → x' < c.0.width
    → y' < c.0.height
    → is_clipped c.0 x' y' ≡ false
    → (fb_get_pixel c.0 (fb_scroll_v n color c).1 x' y'
        ≡ (if ltb y' n then as_stored c.0.pixel_format color else fb_get_pixel c.0 c.1 x' (y' - n)))
      × (fb_get_pixel c.0 (fb_scroll_v (neg32 n) color c).1 x' y' ≡ (
          if ltb y' (c.0.height - n)
          then fb_get_pixel c.0 c.1 x' (y' + n)
          else as_stored c.0.pixel_format color))
get_pixel-scroll_v n color c x' y' r pos less small hx' hy' shown =
    let low = r.clipped.height in
    let narrow = r.clipped.width in
    let width = c.0.width in
    let height = c.0.height in
    let same_column : 0 + (x' - 0) ≡ x' = omega arith in
    let same_row : 0 + (y' - n) ≡ y' - n = omega arith in
    let row_below : n + (y' - 0) ≡ y' + n = omega arith in
    (
      ap (λ d. fb_get_pixel c.0 d.1 x' y') (down-is n color c pos less low)
          ∙ fill-after c (fb_copy_rect 0 0 0 n width (height - n) c) 0 0 width n color x' y' r
              (copy-frame 0 0 0 n width (height - n) c) small (omega arith) (omega arith) hx' hy'
              shown
          ∙ ap
              (λ v.
                if covers 0 width x' && covers 0 n y' then as_stored c.0.pixel_format color else v)
              (get_pixel-copy_rect 0 0 0 n width (height - n) c x' y' r.shaped r.words narrow low
                  (omega arith) (omega arith) (omega arith) (omega arith) hx' hy'
                ∙ rw (same_column, same_row) refl)
          ∙ from-above x' y' width height n (as_stored c.0.pixel_format color)
              (fb_get_pixel c.0 c.1 x' y') (fb_get_pixel c.0 c.1 x' (y' - n)) hx' hy',
      ap (λ d. fb_get_pixel c.0 d.1 x' y') (up-is n color c pos less low)
          ∙ fill-after c (fb_copy_rect 0 n 0 0 width (height - n) c) 0 (height - n) width n color x'
              y' r (copy-frame 0 n 0 0 width (height - n) c) small (omega arith) (omega arith) hx'
              hy' shown
          ∙ ap
              (λ v.
                if covers 0 width x' && covers (height - n) n y'
                then as_stored c.0.pixel_format color
                else v)
              (get_pixel-copy_rect 0 n 0 0 width (height - n) c x' y' r.shaped r.words narrow low
                  (omega arith) (omega arith) (omega arith) (omega arith) hx' hy'
                ∙ rw (same_column, row_below) refl)
          ∙ from-below x' y' width height n (as_stored c.0.pixel_format color)
              (fb_get_pixel c.0 c.1 x' y') (fb_get_pixel c.0 c.1 x' (y' + n)) hx' hy' less,
    )
