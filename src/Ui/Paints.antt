-- ===== src/Ui/Paints.antt =====
-- What the widgets may touch: visible bytes, and for a list item the buffer of its label.
use tutorial_os.Common.{ℕ, Bool, ◌||◌, Option, some, List, [], ◌∷◌, leb, ltb, ◌==◌, if◌then◌else◌}
use tutorial_os.Memory.{Memory, null}
use tutorial_os.Framebuffer.{Framebuffer}
use tutorial_os.Framebuffer.Canvas.{Canvas}
use tutorial_os.Framebuffer.Text.{fb_text_width}
use tutorial_os.Framebuffer.Canvas.Paints.{Ready, Painted, Each, Each-some, Each->>=, if-keeps}
use tutorial_os.Framebuffer.Canvas.Paints.Basic.{hline-Painted}
use tutorial_os.Framebuffer.Canvas.Paints.Column.{vline-Painted}
use tutorial_os.Framebuffer.Canvas.Paints.Areas.{fill_rounded-Painted, rounded-Painted}
use tutorial_os.Framebuffer.Canvas.Paints.Texts.{
  given-Each, string_transparent-Painted, string_scaled_transparent-Painted,
}
use tutorial_os.Ui.{UiRect, Theme, off_screen}
use tutorial_os.Ui.Text.{wstr, wtw, clamp100}
use tutorial_os.Ui.Widgets.{
  PanelStyle, panel_flat, panel_elevated, panel_modal, panel_outlined, raised_panel, panel_styled,
  ui_draw_panel, ui_draw_panel_with_header, ButtonState, ui_draw_button, ui_draw_badge,
  ui_draw_divider_h, ui_draw_divider_v, ToastStyle, ui_draw_toast, Hint, hint_loop,
  ui_draw_help_bar, ui_draw_section_header,
}
use tutorial_os.Ui.Gauges.{ui_draw_scrollbar_v, ui_draw_progress_bar}

module _ {f : Framebuffer} {m : Memory} (r : Ready f) where
  -- a widget that is drawn only if a test fails
  guarded :
      (test : Bool) (c : Canvas) (o : Option Canvas)
      → Painted f m c
      → Each (Painted f m) o
      → Each (Painted f m) (if test then some c else o)
  guarded test c o p e = if-keeps (Each (Painted f m)) test (some c) o (Each-some c p) e

  wstr-Painted :
      (fuel : ℕ) (theme : Theme) (x y s color : ℕ) (c : Canvas)
      → Painted f m c
      → Each (Painted f m) (wstr fuel theme x y s color c)
  unfolding wstr
  wstr-Painted fuel theme x y s color c p =
      if-keeps (Each (Painted f m)) (leb theme.font_scale 1) _ _
        (string_transparent-Painted r fuel x y s color c p)
        (string_scaled_transparent-Painted r fuel x y s color theme.font_scale c p)

  raised-Painted :
      (bounds : UiRect) (theme : Theme) (dx dy : ℕ) (c : Canvas)
      → Painted f m c
      → Painted f m (raised_panel bounds theme dx dy c)
  raised-Painted bounds theme dx dy c p =
      fill_rounded-Painted r _ _ _ _ _ _ _ (fill_rounded-Painted r _ _ _ _ _ _ c p)

  styled-Painted :
      (fuel : ℕ) (bounds : UiRect) (theme : Theme) (style : PanelStyle) (c : Canvas)
      → Painted f m c
      → Each (Painted f m) (panel_styled fuel bounds theme style c)
  unfolding panel_styled
  styled-Painted fuel bounds theme panel_flat c p =
      Each-some _ (fill_rounded-Painted r _ _ _ _ _ _ c p)
  styled-Painted fuel bounds theme panel_elevated c p =
      Each-some _ (raised-Painted bounds theme _ _ c p)
  styled-Painted fuel bounds theme panel_modal c p =
      Each-some _ (raised-Painted bounds theme _ _ c p)
  styled-Painted fuel bounds theme panel_outlined c p = rounded-Painted r fuel _ _ _ _ _ _ c p

  pub panel-Painted :
      (fuel : ℕ) (bounds : UiRect) (theme : Theme) (style : PanelStyle) (c : Canvas)
      → Painted f m c
      → Each (Painted f m) (ui_draw_panel fuel bounds theme style c)
  unfolding ui_draw_panel
  panel-Painted fuel bounds theme style c p =
      guarded (off_screen bounds.x bounds.y) c _ p (styled-Painted fuel bounds theme style c p)

  pub header-Painted :
      (fuel : ℕ) (bounds : UiRect) (theme : Theme) (title : ℕ) (c : Canvas)
      → Painted f m c
      → Each (Painted f m) (ui_draw_panel_with_header fuel bounds theme title c)
  unfolding ui_draw_panel_with_header
  header-Painted fuel bounds theme title c p = guarded (off_screen bounds.x bounds.y) c _ p (
      Each->>= _ _ (panel-Painted fuel bounds theme panel_elevated c p) (λ c1 p1.
        Each->>= _ _
          (string_transparent-Painted r fuel _ _ title _ _
            (fill_rounded-Painted r _ _ _ _ _ _ c1 p1))
          (λ c2 p2. Each-some _ (hline-Painted r _ _ _ _ c2 p2))))

  pub button-Painted :
      (fuel : ℕ) (bounds : UiRect) (theme : Theme) (label : ℕ) (state : ButtonState) (c : Canvas)
      → Painted f m c
      → Each (Painted f m) (ui_draw_button fuel bounds theme label state c)
  unfolding ui_draw_button
  button-Painted fuel bounds theme label state c p = guarded (off_screen bounds.x bounds.y) c _ p (
      given-Each (fb_text_width fuel _ label) _ (λ text_w.
        string_transparent-Painted r fuel _ _ label _ _ (
          fill_rounded-Painted r _ _ _ _ _ _ _
            (if-keeps (Painted f m) _ _ c (fill_rounded-Painted r _ _ _ _ _ _ c p) p))))

  pub badge-Painted :
      (fuel x y : ℕ) (theme : Theme) (label : ℕ) (c : Canvas)
      → Painted f m c
      → Each (Painted f m) (ui_draw_badge fuel x y theme label c)
  unfolding ui_draw_badge
  badge-Painted fuel x y theme label c p = guarded (off_screen x y || label == null) c _ p (
      given-Each (fb_text_width fuel c.1 label) _ (λ text_w.
        string_transparent-Painted r fuel _ _ label _ _ (fill_rounded-Painted r _ _ _ _ _ _ c p)))

  pub scrollbar-Painted :
      (bounds : UiRect) (theme : Theme) (scroll_offset visible_count total_count : ℕ) (c : Canvas)
      → Painted f m c
      → Painted f m (ui_draw_scrollbar_v bounds theme scroll_offset visible_count total_count c)
  unfolding ui_draw_scrollbar_v
  scrollbar-Painted bounds theme scroll_offset visible_count total_count c p =
      if-keeps (Painted f m) (leb total_count visible_count || off_screen bounds.x bounds.y) c _ p
        (fill_rounded-Painted r _ _ _ _ _ _ _ (fill_rounded-Painted r _ _ _ _ _ _ c p))

  pub progress-Painted :
      (bounds : UiRect) (theme : Theme) (progress_pct color : ℕ) (c : Canvas)
      → Painted f m c
      → Painted f m (ui_draw_progress_bar bounds theme progress_pct color c)
  unfolding ui_draw_progress_bar
  progress-Painted bounds theme progress_pct color c p =
      let p1 = fill_rounded-Painted r _ _ _ _ _ _ c p in
      if-keeps (Painted f m) (off_screen bounds.x bounds.y) c _ p (
        if-keeps (Painted f m) (ltb 0 (clamp100 progress_pct)) _ _
          (fill_rounded-Painted r _ _ _ _ _ _ _ p1) p1)

  pub divider_h-Painted :
      (x y width : ℕ) (theme : Theme) (c : Canvas)
      → Painted f m c
      → Painted f m (ui_draw_divider_h x y width theme c)
  unfolding ui_draw_divider_h
  divider_h-Painted x y width theme c p =
      if-keeps (Painted f m) (off_screen x y) c _ p (hline-Painted r _ _ _ _ c p)

  pub divider_v-Painted :
      (x y height : ℕ) (theme : Theme) (c : Canvas)
      → Painted f m c
      → Painted f m (ui_draw_divider_v x y height theme c)
  unfolding ui_draw_divider_v
  divider_v-Painted x y height theme c p =
      if-keeps (Painted f m) (off_screen x y) c _ p (vline-Painted r _ _ _ _ c p)

  pub toast-Painted :
      (fuel : ℕ) (bounds : UiRect) (theme : Theme) (message : ℕ) (style : ToastStyle) (c : Canvas)
      → Painted f m c
      → Each (Painted f m) (ui_draw_toast fuel bounds theme message style c)
  unfolding ui_draw_toast
  toast-Painted fuel bounds theme message style c p = guarded (off_screen bounds.x bounds.y) c _ p (
      given-Each (wtw fuel theme _ message) _ (λ text_w.
        wstr-Painted fuel theme _ _ message _ _
          (fill_rounded-Painted r _ _ _ _ _ _ _ (fill_rounded-Painted r _ _ _ _ _ _ c p))))

  hint_loop-Painted :
      (fuel : ℕ) (theme : Theme) (y : ℕ) (hints : List Hint) (x : ℕ) (c : Canvas)
      → Painted f m c
      → Each (Painted f m) (hint_loop fuel theme x y hints c)
  unfolding hint_loop
  hint_loop-Painted fuel theme y [] x c p = Each-some c p
  hint_loop-Painted fuel theme y (hint ∷ hints) x c p =
      given-Each (fb_text_width fuel c.1 hint.key) _ (λ key_w.
        Each->>= _ _
          (string_transparent-Painted r fuel _ _ hint.key _ _
            (fill_rounded-Painted r _ _ _ _ _ _ c p))
          (λ c1 p1.
            Each->>= _ _ (string_transparent-Painted r fuel _ _ hint.action _ c1 p1) (λ c2 p2.
              given-Each (fb_text_width fuel c2.1 hint.action) _
                (λ action_w. hint_loop-Painted fuel theme y hints _ c2 p2))))

  pub help_bar-Painted :
      (fuel : ℕ) (bounds : UiRect) (theme : Theme) (hints : List Hint) (c : Canvas)
      → Painted f m c
      → Each (Painted f m) (ui_draw_help_bar fuel bounds theme hints c)
  unfolding ui_draw_help_bar
  help_bar-Painted fuel bounds theme hints c p =
      guarded (off_screen bounds.x bounds.y) c _ p (hint_loop-Painted fuel theme _ hints _ c p)

  pub section-Painted :
      (fuel : ℕ) (bounds : UiRect) (theme : Theme) (title : ℕ) (c : Canvas)
      → Painted f m c
      → Each (Painted f m) (ui_draw_section_header fuel bounds theme title c)
  unfolding ui_draw_section_header
  section-Painted fuel bounds theme title c p = guarded (off_screen bounds.x bounds.y) c _ p (
      Each->>= _ _ (string_transparent-Painted r fuel _ _ title _ c p) (λ c1 p1.
        given-Each (fb_text_width fuel c1.1 title) _
          (λ text_width. Each-some _ (hline-Painted r _ _ _ _ c1 p1))))
