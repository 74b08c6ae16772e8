-- ===== src/Ui/Drawn.antt =====
-- What a list item may touch: as Painted, but for the buffer of its label.
use tutorial_os.Common.{ℕ, ◌≡◌, ◌∙◌, refl, Bool, Option, none, some}
use tutorial_os.Memory.{Memory, load_byte}
use tutorial_os.Memory.Laws.{Apart}
use tutorial_os.Framebuffer.{Framebuffer}
use tutorial_os.Framebuffer.Canvas.{Canvas}
use tutorial_os.Framebuffer.Text.{fb_text_width, fb_draw_string_transparent}
use tutorial_os.Framebuffer.Canvas.Paints.{
  Ready, undirtied, Hidden, Painted, Each, Each-some, Each-none, Each->>=, if-keeps,
}
use tutorial_os.Framebuffer.Canvas.Paints.Areas.{fill_rounded-Painted}
use tutorial_os.Framebuffer.Canvas.Paints.Texts.{given-Each, string_transparent-Painted}
use tutorial_os.Ui.{UiRect, Theme, off_screen}
use tutorial_os.Ui.Text.{ui_strlen, shortened, fill_truncated, draw_label}
use tutorial_os.Ui.Label.{fill_truncated-Apart}
use tutorial_os.Ui.Items.{
  draw_selection, ui_draw_list_item, has_text, badge_width, draw_item_badge,
  ui_draw_list_item_with_badge,
}

-- like Painted, but the 256 bytes from `t` on are free
pub record Drawn (f : Framebuffer) (m : Memory) (t : ℕ) (c : Canvas) : Type 0 where
  pub frame : undirtied c.0 ≡ undirtied f
  pub rest : (a : ℕ) → Hidden f a → Apart 256 t 1 a → load_byte c.1 a ≡ load_byte m a

-- What is painted on a drawn canvas is drawn.
pub Painted-Drawn :
    {f : Framebuffer} {m : Memory} {t : ℕ} {c d : Canvas}
    → Drawn f m t c
    → Painted f c.1 d
    → Drawn f m t d
Painted-Drawn h p = record {
  frame = p.frame;
  rest = λ a hidden apart. p.rest a hidden ∙ h.rest a hidden apart;
}

pub Each-Drawn :
    {f : Framebuffer} {m : Memory} {t : ℕ} {c : Canvas} (o : Option Canvas)
    → Drawn f m t c
    → (Painted f c.1 c → Each (Painted f c.1) o)
    → Each (Drawn f m t) o
Each-Drawn none h g = Each-none
Each-Drawn {c} (some d) h g =
    Each-some d
      (Painted-Drawn h ((g (record { frame = h.frame; rest = λ a hidden. refl })).holds d refl))

module _ {f : Framebuffer} {m : Memory} (r : Ready f) (t : ℕ) where
  pub truncated-Drawn :
      (label max_chars : ℕ) (c : Canvas)
      → Drawn f m t c
      → Drawn f m t (c.0, fill_truncated c.1 t label (shortened max_chars))
  truncated-Drawn label max_chars c h = record {
    frame = h.frame;
    rest = λ a hidden apart.
        fill_truncated-Apart c.1 t label max_chars a apart ∙ h.rest a hidden apart;
  }

  pub string-Drawn :
      (fuel x y s color : ℕ) (c : Canvas)
      → Drawn f m t c
      → Each (Drawn f m t) (fb_draw_string_transparent fuel x y s color c)
  string-Drawn fuel x y s color c h =
      Each-Drawn _ h (λ p. string_transparent-Painted r fuel x y s color c p)

  pub label-Drawn :
      (fuel x y label available color : ℕ) (c : Canvas)
      → Drawn f m t c
      → Each (Drawn f m t) (draw_label fuel t x y label available color c)
  unfolding draw_label
  label-Drawn fuel x y label available color c h =
      given-Each (ui_strlen fuel c.1 label) _ (λ label_len.
        if-keeps (Each (Drawn f m t)) _ _ _
          (string-Drawn fuel x y t color _ (truncated-Drawn label _ c h))
          (string-Drawn fuel x y label color c h))

  pub selection-Drawn :
      (fuel marker : ℕ) (bounds : UiRect) (theme : Theme) (selected : Bool) (c : Canvas)
      → Drawn f m t c
      → Each (Drawn f m t) (draw_selection fuel marker bounds theme selected c)
  unfolding draw_selection
  selection-Drawn fuel marker bounds theme selected c h =
      if-keeps (Each (Drawn f m t)) selected _ _
        (Each-Drawn _ h (λ p.
          string_transparent-Painted r fuel _ _ marker _ _
            (fill_rounded-Painted r _ _ _ _ _ _ c p)))
        (Each-some c h)

  pub item-Drawn :
      (fuel marker : ℕ) (bounds : UiRect) (theme : Theme) (label : ℕ) (selected : Bool) (c : Canvas)
      → Drawn f m t c
      → Each (Drawn f m t) (ui_draw_list_item fuel marker t bounds theme label selected c)
  unfolding ui_draw_list_item
  item-Drawn fuel marker bounds theme label selected c h =
      if-keeps (Each (Drawn f m t)) (off_screen bounds.x bounds.y) _ _ (Each-some c h) (
        Each->>= _ _ (selection-Drawn fuel marker bounds theme selected c h)
          (λ c1 h1. label-Drawn fuel _ _ label _ _ c1 h1))

  item_badge-Drawn :
      (fuel : ℕ) (bounds : UiRect) (theme : Theme) (text : ℕ) (c : Canvas)
      → Drawn f m t c
      → Each (Drawn f m t) (draw_item_badge fuel bounds theme text c)
  unfolding draw_item_badge
  item_badge-Drawn fuel bounds theme text c h =
      if-keeps (Each (Drawn f m t)) (has_text c.1 text) _ _
        (given-Each (fb_text_width fuel c.1 text) _ (λ text_w. Each-Drawn _ h (λ p.
          string_transparent-Painted r fuel _ _ text _ _ (fill_rounded-Painted r _ _ _ _ _ _ c p))))
        (Each-some c h)

  pub badged-Drawn :
      (fuel marker : ℕ) (bounds : UiRect) (theme : Theme) (label text : ℕ) (selected : Bool)
      (c : Canvas)
      → Drawn f m t c
      → Each
          (Drawn f m t)
          (ui_draw_list_item_with_badge fuel marker t bounds theme label text selected c)
  unfolding ui_draw_list_item_with_badge
  badged-Drawn fuel marker bounds theme label text selected c h =
      if-keeps (Each (Drawn f m t)) (off_screen bounds.x bounds.y) _ _ (Each-some c h) (
        Each->>= _ _ (selection-Drawn fuel marker bounds theme selected c h) (λ c1 h1.
          given-Each (badge_width fuel theme c1.1 text) _ (λ width.
            Each->>= _ _ (label-Drawn fuel _ _ label _ _ c1 h1)
              (λ c2 h2. item_badge-Drawn fuel bounds theme text c2 h2))))
