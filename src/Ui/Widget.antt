-- ===== src/Ui/Widget.antt =====
-- The widgets of ui_widgets.c as one type.
use tutorial_os.Common.{ℕ, ◌≡◌, refl, Bool, Option, some, List}
use tutorial_os.Memory.{Memory, load_byte}
use tutorial_os.Memory.Laws.{Apart}
use tutorial_os.Framebuffer.{Framebuffer}
use tutorial_os.Framebuffer.Canvas.{Canvas}
use tutorial_os.Framebuffer.Canvas.Paints.{Ready, undirtied, Hidden, Each, Each-some}
use tutorial_os.Ui.{UiRect, Theme}
use tutorial_os.Ui.Widgets.{
  PanelStyle, ui_draw_panel, ui_draw_panel_with_header, ButtonState, ui_draw_button, ui_draw_badge,
  ui_draw_divider_h, ui_draw_divider_v, ToastStyle, ui_draw_toast, Hint, ui_draw_help_bar,
  ui_draw_section_header,
}
use tutorial_os.Ui.Gauges.{ui_draw_scrollbar_v, ui_draw_progress_bar}
use tutorial_os.Ui.Items.{ui_draw_list_item, ui_draw_list_item_with_badge}
use tutorial_os.Ui.Paints.{
  panel-Painted, header-Painted, button-Painted, badge-Painted, scrollbar-Painted, progress-Painted,
  divider_h-Painted, divider_v-Painted, toast-Painted, help_bar-Painted, section-Painted,
}
use tutorial_os.Ui.Drawn.{Drawn, Each-Drawn, item-Drawn, badged-Drawn}

pub data Widget : Type 0 where
  panel : UiRect → PanelStyle → Widget
  panel_with_header : UiRect → ℕ → Widget
  button : UiRect → ℕ → ButtonState → Widget
  list_item : UiRect → ℕ → Bool → Widget
  list_item_with_badge : UiRect → ℕ → ℕ → Bool → Widget
  badge : ℕ → ℕ → ℕ → Widget
  scrollbar_v : UiRect → ℕ → ℕ → ℕ → Widget
  progress_bar : UiRect → ℕ → ℕ → Widget
  divider_h : ℕ → ℕ → ℕ → Widget
  divider_v : ℕ → ℕ → ℕ → Widget
  toast : UiRect → ℕ → ToastStyle → Widget
  help_bar : UiRect → List Hint → Widget
  section_header : UiRect → ℕ → Widget

-- `marker` and `truncated` are the addresses that the list items use.
unfoldable pub show : ℕ → ℕ → ℕ → Theme → Widget → Canvas → Option Canvas
show fuel marker truncated theme (panel bounds style) c = ui_draw_panel fuel bounds theme style c
show fuel marker truncated theme (panel_with_header bounds title) c =
    ui_draw_panel_with_header fuel bounds theme title c
show fuel marker truncated theme (button bounds label state) c =
    ui_draw_button fuel bounds theme label state c
show fuel marker truncated theme (list_item bounds label selected) c =
    ui_draw_list_item fuel marker truncated bounds theme label selected c
show fuel marker truncated theme (list_item_with_badge bounds label text selected) c =
    ui_draw_list_item_with_badge fuel marker truncated bounds theme label text selected c
show fuel marker truncated theme (badge x y label) c = ui_draw_badge fuel x y theme label c
show fuel marker truncated theme (scrollbar_v bounds scroll_offset visible_count total_count) c =
    some (ui_draw_scrollbar_v bounds theme scroll_offset visible_count total_count c)
show fuel marker truncated theme (progress_bar bounds progress_pct color) c =
    some (ui_draw_progress_bar bounds theme progress_pct color c)
show fuel marker truncated theme (divider_h x y width) c =
    some (ui_draw_divider_h x y width theme c)
show fuel marker truncated theme (divider_v x y height) c =
    some (ui_draw_divider_v x y height theme c)
show fuel marker truncated theme (toast bounds message style) c =
    ui_draw_toast fuel bounds theme message style c
show fuel marker truncated theme (help_bar bounds hints) c =
    ui_draw_help_bar fuel bounds theme hints c
show fuel marker truncated theme (section_header bounds title) c =
    ui_draw_section_header fuel bounds theme title c

module _ {f : Framebuffer} {m : Memory} (r : Ready f) (t : ℕ) where
  show-Each :
      (fuel marker : ℕ) (theme : Theme) (widget : Widget) (c : Canvas)
      → Drawn f m t c
      → Each (Drawn f m t) (show fuel marker t theme widget c)
  unfolding show
  show-Each fuel marker theme (panel bounds style) c h =
      Each-Drawn _ h (panel-Painted r fuel bounds theme style c)
  show-Each fuel marker theme (panel_with_header bounds title) c h =
      Each-Drawn _ h (header-Painted r fuel bounds theme title c)
  show-Each fuel marker theme (button bounds label state) c h =
      Each-Drawn _ h (button-Painted r fuel bounds theme label state c)
  show-Each fuel marker theme (list_item bounds label selected) c h =
      item-Drawn r t fuel marker bounds theme label selected c h
  show-Each fuel marker theme (list_item_with_badge bounds label text selected) c h =
      badged-Drawn r t fuel marker bounds theme label text selected c h
  show-Each fuel marker theme (badge x y label) c h =
      Each-Drawn _ h (badge-Painted r fuel x y theme label c)
  show-Each fuel marker theme (scrollbar_v bounds offset visible total) c h =
      Each-Drawn _ h (λ p. Each-some _ (scrollbar-Painted r bounds theme offset visible total c p))
  show-Each fuel marker theme (progress_bar bounds pct color) c h =
      Each-Drawn _ h (λ p. Each-some _ (progress-Painted r bounds theme pct color c p))
  show-Each fuel marker theme (divider_h x y width) c h =
      Each-Drawn _ h (λ p. Each-some _ (divider_h-Painted r x y width theme c p))
  show-Each fuel marker theme (divider_v x y height) c h =
      Each-Drawn _ h (λ p. Each-some _ (divider_v-Painted r x y height theme c p))
  show-Each fuel marker theme (toast bounds message style) c h =
      Each-Drawn _ h (toast-Painted r fuel bounds theme message style c)
  show-Each fuel marker theme (help_bar bounds hints) c h =
      Each-Drawn _ h (help_bar-Painted r fuel bounds theme hints c)
  show-Each fuel marker theme (section_header bounds title) c h =
      Each-Drawn _ h (section-Painted r fuel bounds theme title c)

-- Whatever its arguments are, a widget that returns leaves the framebuffer as it was but for the dirty
-- rectangles, and writes no byte but those of pixels on the screen and within the clip rectangle and
-- the 256 bytes of a list item's buffer; the framebuffer must have room for its rows, a pitch of whole
-- words and a clip stack in order.
pub show-Hidden :
    (fuel marker truncated : ℕ) (theme : Theme) (widget : Widget) (c c' : Canvas) (a : ℕ)
    → Ready c.0
    → show fuel marker truncated theme widget c ≡ some c'
    → Hidden c.0 a
    → Apart 256 truncated 1 a
    → (undirtied c'.0 ≡ undirtied c.0) × (load_byte c'.1 a ≡ load_byte c.1 a)
show-Hidden fuel marker truncated theme widget c c' a r done hidden apart =
    let start : Drawn c.0 c.1 truncated c = record { frame = refl; rest = λ b h g. refl } in
    let drawn = (show-Each r truncated fuel marker theme widget c start).holds c' done in
    (drawn.frame, drawn.rest a hidden apart)
