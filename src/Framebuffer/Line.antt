-- ===== src/Framebuffer/Line.antt =====
-- drivers/src/framebuffer/framebuffer.c: fb_draw_hline.
use tutorial_os.Common.{
  ℕ, ◌+◌, ◌-◌, ◌%◌, ◌≤◌, ◌<◌, ◌^◌, ◌≡◌, refl, ◌∙◌, ap, ap₂, sym, inl, inr, Bool, true, false, not,
  ◌&&◌, ◌||◌, ltb, leb, ◌==◌, if◌then◌else◌, arith, Bool-cases,
}
use tutorial_os.Memory.{Memory}
use tutorial_os.Framebuffer.Color.{min_u32}
use tutorial_os.Framebuffer.{add32, Framebuffer, fb_get_clip, is_clipped, fb_get_pixel}
use tutorial_os.Framebuffer.Clip.{within, &&-swap, &&-false_left, &&-false_right}
use tutorial_os.Framebuffer.Clip.Stack.{Clipped, top-OnScreen, is_clipped_top}
use tutorial_os.Framebuffer.Pixel.{as_stored, Shaped, get_is}
use tutorial_os.Framebuffer.Fill.{max_u32, packed, fill_span, row_base}
use tutorial_os.Framebuffer.Fill.Shown.{
  covers, span_seen, row_base-is, lo, hi, cut-some, cut-none, cut-le, choose_false, not-not,
}

unfoldable pub fb_draw_hline : Framebuffer → Memory → ℕ → ℕ → ℕ → ℕ → Memory
fb_draw_hline fb m x y len color =
    let clip = fb_get_clip fb in
    if ltb y clip.y || leb (add32 clip.y clip.h) y
    then m
    else let x1 = max_u32 x clip.x in
      let x2 = min_u32 (add32 x len) (add32 clip.x clip.w) in
      let f = fb.pixel_format in
      if leb x2 x1 then m else fill_span f (x2 - x1) m (row_base f fb y) x1 (packed f color)

guard-within : (y c h : ℕ) → (ltb y c || leb (add32 c h) y) ≡ not (within c h y)
guard-within y c h = ground arith

same_row : (y y' c h : ℕ) → within c h y ≡ false → ((y == y') && within c h y') ≡ false
same_row y y' c h e = ground arith

shown_row : (y y' c h : ℕ) → within c h y ≡ true → (y == y') ≡ ((y == y') && within c h y')
shown_row y y' c h e = ground arith

within-lt : (y c h height : ℕ) → within c h y ≡ true → c + h ≤ height → height < 2 ^ 31 → y < height
within-lt y c h height e le small = ground arith

-- On a framebuffer with room for its rows, a pitch of whole words and a clip stack in order,
-- fb_draw_hline whose end does not wrap around gives its colour, as the format stores it, to exactly
-- those pixels of the screen that are on the line and not clipped.
pub get_pixel-draw_hline :
    (fb : Framebuffer) (m : Memory) (x y len color x' y' : ℕ)
    → Shaped fb
    → Clipped fb
    → fb.pitch % 4 ≡ 0
    → color < 2 ^ 32
    → x + len < 2 ^ 32
    → x' < fb.width
    → y' < fb.height
    → fb_get_pixel fb (fb_draw_hline fb m x y len color) x' y' ≡ (
        if (covers x len x' && y == y') && not (is_clipped fb x' y')
        then as_stored fb.pixel_format color
        else fb_get_pixel fb m x' y')
unfolding fb_draw_hline
get_pixel-draw_hline fb m x y len color x' y' sh inv al small hx hx' hy' =
    let clip = fb_get_clip fb in
    let top = top-OnScreen inv in
    let f = fb.pixel_format in
    let cx : clip.x + clip.w < 2 ^ 31 = omega (arith, top.x, inv.width) in
    let a = covers x len x' in
    let b = y == y' in
    let s = within clip.x clip.w x' in
    let t = within clip.y clip.h y' in
    let shown : (s && t) ≡ not (is_clipped fb x' y') =
      not-not (s && t) ∙ ap not (sym (is_clipped_top fb clip x' y' refl)) in
    let goal : Bool → ℕ = λ c. if c then as_stored f color else fb_get_pixel fb m x' y' in
    let kept : ((a && b) && (s && t)) ≡ false
        → fb_get_pixel fb m x' y' ≡ goal ((a && b) && not (is_clipped fb x' y')) =
      λ e.
        choose_false ((a && b) && (s && t)) (as_stored f color) (fb_get_pixel fb m x' y') e
        ∙ ap (λ v. goal ((a && b) && v)) shown in
    elim (Bool-cases (within clip.y clip.h y)) [
      | inr out ↦
          rw (guard-within y clip.y clip.h)
            (rw out (kept (&&-false_right a b s t (same_row y y' clip.y clip.h out))))
      | inl on ↦ rw (guard-within y clip.y clip.h) (
          rw on
            (elim (Bool-cases
              (leb (hi x len clip.x clip.w x' hx cx) (lo x len clip.x clip.w x' hx cx))) [
                | inl none ↦
                    rw none
                      (kept (&&-false_left a b s t (cut-none x len clip.x clip.w x' hx cx none)))
                | inr some ↦
                    let hy = within-lt y clip.y clip.h fb.height on top.y inv.height in
                    rw some (
                      rw (row_base-is f fb y sh al hy) (
                        get_is fb _ x' y' hx' hy'
                        ∙ span_seen fb sh color x' y' small hx' hy' _ m _ y
                            (omega (arith, cut-le x len clip.x clip.w x' hx cx some, top.x)) hy
                        ∙ ap₂ (λ c v. if c then as_stored f color else v)
                            (ap₂ (λ c d. c && d) (cut-some x len clip.x clip.w x' hx cx some)
                                (shown_row y y' clip.y clip.h on)
                              ∙ &&-swap a b s t
                              ∙ ap (λ v. (a && b) && v) shown)
                            (sym (get_is fb m x' y' hx' hy'))))
              ]))
    ]
