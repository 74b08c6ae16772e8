-- ===== src/Ui/Returns/Items.antt =====
-- List items are drawn to their end.
use tutorial_os.Common.{ℕ, ◌<◌, ◌≡◌, refl, Bool, true, Option, arith, Bool-cases, inl, inr}
use tutorial_os.Memory.{Memory}
use tutorial_os.Framebuffer.{add32, Framebuffer}
use tutorial_os.Framebuffer.Int32.{mul32}
use tutorial_os.Framebuffer.Canvas.{Canvas, ◌>>=◌}
use tutorial_os.Framebuffer.Canvas.Paints.{Ready}
use tutorial_os.Ui.{UiRect, Theme, off_screen}
use tutorial_os.Ui.Items.{
  has_text, badge_width, draw_selection, draw_item_badge, ui_draw_list_item,
  ui_draw_list_item_with_badge,
}
use tutorial_os.Ui.Legible.{
  Returns, Returns-if, Returns->>=, Legible, Legible-Drawn, width-Returns, computed-Returns,
}
use tutorial_os.Ui.Drawn.{Drawn, label-Drawn, selection-Drawn}
use tutorial_os.Ui.Legible.Strings.{string-Returns, Buffer, label-Returns}
use tutorial_os.Ui.Returns.{Every, optional, given, has_text-ne, fill-Drawn, guarded-Returns}

badge_width-Returns :
    {f : Framebuffer} {g : Memory} {fuel t s : ℕ} (theme : Theme) (k : ℕ → Option Canvas)
    → (has_text g s ≡ true → Legible f g fuel t s)
    → ((w : ℕ) → Returns (k w))
    → Returns (badge_width fuel theme g s >>= k)
unfolding badge_width
badge_width-Returns {f} {g} {fuel} {t} {s} theme k l all = elim (Bool-cases (has_text g s)) [
  | inl b ↦ rw b (
      computed-Returns (λ w. add32 (add32 w (mul32 theme.spacing.xs 2)) theme.spacing.sm) k (l b)
        all)
  | inr b ↦ rw b (all 0)
]

module _ {f : Framebuffer} {m : Memory} {fuel t : ℕ} (r : Ready f) where
  selection-Returns :
      (marker : ℕ) (bounds : UiRect) (theme : Theme) (selected : Bool) (c : Canvas)
      → Legible f m fuel t marker
      → Drawn f m t c
      → Returns (draw_selection fuel marker bounds theme selected c)
  unfolding draw_selection
  selection-Returns marker bounds theme selected c l d =
      Returns-if selected _ _ (string-Returns r l _ _ _ _ (fill-Drawn r _ _ _ _ _ _ c d)) (c, refl)

  pub item-Returns :
      (marker : ℕ) (bounds : UiRect) (theme : Theme) (label : ℕ) (selected : Bool) (c : Canvas)
      → Buffer f t
      → 255 < fuel
      → Legible f m fuel t marker
      → Legible f m fuel t label
      → Drawn f m t c
      → Returns (ui_draw_list_item fuel marker t bounds theme label selected c)
  unfolding ui_draw_list_item
  item-Returns marker bounds theme label selected c buffer much k l d =
      guarded-Returns (off_screen bounds.x bounds.y) c _ (
        Returns->>= _ _ (selection-Returns marker bounds theme selected c k d)
          (selection-Drawn r t fuel marker bounds theme selected c d)
          (λ c1 d1. label-Returns r l buffer much _ _ _ _ c1 (omega arith) d1))

  item_badge-Returns :
      (bounds : UiRect) (theme : Theme) (text : ℕ) (c : Canvas)
      → Every (Legible f m fuel t) (optional text)
      → Drawn f m t c
      → Returns (draw_item_badge fuel bounds theme text c)
  unfolding draw_item_badge
  item_badge-Returns bounds theme text c h d = elim (Bool-cases (has_text c.1 text)) [
    | inl b ↦
        let l = given text (has_text-ne c.1 text b) h in
        rw b (
          width-Returns _ (Legible-Drawn d l)
            (λ w. string-Returns r l _ _ _ _ (fill-Drawn r _ _ _ _ _ _ c d)))
    | inr b ↦ rw b (c, refl)
  ]

  pub badged-Returns :
      (marker : ℕ) (bounds : UiRect) (theme : Theme) (label text : ℕ) (selected : Bool) (c : Canvas)
      → Buffer f t
      → 255 < fuel
      → Legible f m fuel t marker
      → Legible f m fuel t label
      → Every (Legible f m fuel t) (optional text)
      → Drawn f m t c
      → Returns (ui_draw_list_item_with_badge fuel marker t bounds theme label text selected c)
  unfolding ui_draw_list_item_with_badge
  badged-Returns marker bounds theme label text selected c buffer much k l b d =
      guarded-Returns (off_screen bounds.x bounds.y) c _ (
        Returns->>= _ _ (selection-Returns marker bounds theme selected c k d)
          (selection-Drawn r t fuel marker bounds theme selected c d)
          (λ c1 d1.
            badge_width-Returns theme _
              (λ e. Legible-Drawn d1 (given text (has_text-ne c1.1 text e) b))
              (λ w.
                Returns->>= _ _ (label-Returns r l buffer much _ _ _ _ c1 (omega arith) d1)
                  (label-Drawn r t fuel _ _ label _ _ c1 d1)
                  (λ c2 d2. item_badge-Returns bounds theme text c2 b d2))))
