-- ===== src/Ui/Widgets.antt =====
-- ui/src/widgets/ui_widgets.c: panels, buttons, badges, bars, dividers and headers. A text is the
-- address of its first byte.
use tutorial_os.Common.{
  ℕ, ◌-◌, ◌/◌, Bool, true, false, ◌||◌, Option, some, List, [], ◌∷◌, ltb, ◌==◌, if◌then◌else◌,
}
use tutorial_os.Memory.{null}
use tutorial_os.Framebuffer.{add32, sub32}
use tutorial_os.Framebuffer.Int32.{mul32}
use tutorial_os.Framebuffer.Canvas.{Canvas, ◌>>=◌, hline}
use tutorial_os.Framebuffer.Segment.{fb_draw_vline}
use tutorial_os.Framebuffer.Area.{fb_fill_rounded_rect, fb_draw_rounded_rect}
use tutorial_os.Framebuffer.Text.{char_height, fb_text_width, fb_draw_string_transparent}
use tutorial_os.Ui.{
  UiRect, Theme, off_screen, ui_theme_panel_bg, ui_theme_panel_border, ui_theme_button_bg,
  ui_theme_button_bg_focused, ui_theme_button_bg_pressed, ui_theme_button_text,
  ui_theme_button_text_pressed, ui_theme_header_bg, ui_theme_header_text,
}
use tutorial_os.Ui.Text.{wstr, wtw}

pub data PanelStyle : Type 0 where
  panel_flat : PanelStyle
  panel_elevated : PanelStyle
  panel_modal : PanelStyle
  panel_outlined : PanelStyle

-- a shadow at an offset and the panel on top
abbrev pub raised_panel : UiRect → Theme → ℕ → ℕ → Canvas → Canvas
raised_panel bounds theme dx dy c =
    let radius = theme.radii.md in
    let c1 =
      fb_fill_rounded_rect (add32 bounds.x dx) (add32 bounds.y dy) bounds.w bounds.h radius
        theme.shadow.color c in
    fb_fill_rounded_rect bounds.x bounds.y bounds.w bounds.h radius (ui_theme_panel_bg theme) c1

-- `switch (style)`
unfoldable pub panel_styled : ℕ → UiRect → Theme → PanelStyle → Canvas → Option Canvas
panel_styled fuel bounds theme panel_flat c = some (
    fb_fill_rounded_rect bounds.x bounds.y bounds.w bounds.h theme.radii.md
      theme.colors.bg_secondary c)
panel_styled fuel bounds theme panel_elevated c =
    some (raised_panel bounds theme theme.shadow.offset_x theme.shadow.offset_y c)
panel_styled fuel bounds theme panel_modal c =
    some
      (raised_panel bounds theme (mul32 theme.shadow.offset_x 2) (mul32 theme.shadow.offset_y 2) c)
panel_styled fuel bounds theme panel_outlined c =
    fb_draw_rounded_rect fuel bounds.x bounds.y bounds.w bounds.h theme.radii.md
      (ui_theme_panel_border theme) c

unfoldable pub ui_draw_panel : ℕ → UiRect → Theme → PanelStyle → Canvas → Option Canvas
ui_draw_panel fuel bounds theme style c =
    if off_screen bounds.x bounds.y then some c else panel_styled fuel bounds theme style c

unfoldable pub ui_draw_panel_with_header : ℕ → UiRect → Theme → ℕ → Canvas → Option Canvas
ui_draw_panel_with_header fuel bounds theme title c =
    let header_height = add32 theme.line_height (mul32 theme.spacing.sm 2) in
    let radius = theme.radii.md in
    if off_screen bounds.x bounds.y
    then some c
    else ui_draw_panel fuel bounds theme panel_elevated c >>= λ c1.
        fb_draw_string_transparent fuel (add32 bounds.x theme.spacing.md)
          (add32 bounds.y theme.spacing.sm) title (ui_theme_header_text theme)
          (fb_fill_rounded_rect bounds.x bounds.y bounds.w (add32 header_height radius) radius
            (ui_theme_header_bg theme) c1)
        >>= λ c2.
            some (hline bounds.x (add32 bounds.y header_height) bounds.w theme.colors.divider c2)

pub data ButtonState : Type 0 where
  button_normal : ButtonState
  button_focused : ButtonState
  button_pressed : ButtonState
  button_disabled : ButtonState

-- the colours of background and text, and whether a shadow is drawn
abbrev pub button_look : Theme → ButtonState → ℕ × ℕ × Bool
button_look theme button_normal = (ui_theme_button_bg theme, ui_theme_button_text theme, true)
button_look theme button_focused =
    (ui_theme_button_bg_focused theme, ui_theme_button_text theme, true)
button_look theme button_pressed =
    (ui_theme_button_bg_pressed theme, ui_theme_button_text_pressed theme, false)
button_look theme button_disabled = (theme.colors.bg_secondary, theme.colors.text_disabled, false)

unfoldable pub ui_draw_button : ℕ → UiRect → Theme → ℕ → ButtonState → Canvas → Option Canvas
ui_draw_button fuel bounds theme label state c =
    let (bg, fg, draw_shadow) = button_look theme state in
    let radius = theme.radii.sm in
    let c1 =
      if draw_shadow
      then fb_fill_rounded_rect bounds.x (add32 bounds.y theme.shadow.offset_y) bounds.w bounds.h
          radius theme.shadow.color c
      else c in
    let c2 = fb_fill_rounded_rect bounds.x bounds.y bounds.w bounds.h radius bg c1 in
    if off_screen bounds.x bounds.y
    then some c
    else fb_text_width fuel c2.1 label >>= λ text_w.
        fb_draw_string_transparent fuel (add32 bounds.x (sub32 bounds.w text_w / 2))
          (add32 bounds.y (sub32 bounds.h char_height / 2)) label fg c2

unfoldable pub ui_draw_badge : ℕ → ℕ → ℕ → Theme → ℕ → Canvas → Option Canvas
ui_draw_badge fuel x y theme label c =
    let padding_x = theme.spacing.xs in
    let padding_y = theme.spacing.xs / 2 in
    if off_screen x y || label == null
    then some c
    else fb_text_width fuel c.1 label >>= λ text_w.
        fb_draw_string_transparent fuel (add32 x padding_x) (add32 y padding_y) label
          theme.colors.text_on_accent
          (fb_fill_rounded_rect x y (add32 text_w (mul32 padding_x 2))
            (add32 char_height (mul32 padding_y 2)) theme.radii.sm theme.colors.accent_bright c)

unfoldable pub ui_draw_divider_h : ℕ → ℕ → ℕ → Theme → Canvas → Canvas
ui_draw_divider_h x y width theme c =
    if off_screen x y then c else hline x y width theme.colors.divider c

unfoldable pub ui_draw_divider_v : ℕ → ℕ → ℕ → Theme → Canvas → Canvas
ui_draw_divider_v x y height theme c =
    if off_screen x y then c else fb_draw_vline x y height theme.colors.divider c

pub data ToastStyle : Type 0 where
  toast_info : ToastStyle
  toast_success : ToastStyle
  toast_warning : ToastStyle
  toast_error : ToastStyle

abbrev pub toast_bg : Theme → ToastStyle → ℕ
toast_bg theme toast_success = theme.colors.success
toast_bg theme toast_warning = theme.colors.warning
toast_bg theme toast_error = theme.colors.error
toast_bg theme toast_info = theme.colors.info

-- `outer > inner ? (outer - inner) / 2 : 0`
abbrev pub margin : ℕ → ℕ → ℕ
margin outer inner = if ltb inner outer then (outer - inner) / 2 else 0

unfoldable pub ui_draw_toast : ℕ → UiRect → Theme → ℕ → ToastStyle → Canvas → Option Canvas
ui_draw_toast fuel bounds theme message style c =
    let c1 =
      fb_fill_rounded_rect (add32 bounds.x theme.shadow.offset_x)
        (add32 bounds.y theme.shadow.offset_y) bounds.w bounds.h theme.radii.md theme.shadow.color
        c in
    let c2 =
      fb_fill_rounded_rect bounds.x bounds.y bounds.w bounds.h theme.radii.md (toast_bg theme style)
        c1 in
    let text_h = mul32 char_height theme.font_scale in
    if off_screen bounds.x bounds.y
    then some c
    else wtw fuel theme c2.1 message >>= λ text_w.
        wstr fuel theme (add32 bounds.x (margin bounds.w text_w))
          (add32 bounds.y (margin bounds.h text_h)) message theme.colors.text_on_accent c2

-- ui_help_hint_t
pub record Hint : Type 0 where
  pub key : ℕ
  pub action : ℕ

-- `for (size_t i = 0; i < hint_count; i++)`, the hints being those from `i` on
unfoldable pub hint_loop : ℕ → Theme → ℕ → ℕ → List Hint → Canvas → Option Canvas
hint_loop fuel theme x y [] c = some c
hint_loop fuel theme x y (hint ∷ hints) c =
    let text_y = add32 y (theme.spacing.xs / 2) in
    fb_text_width fuel c.1 hint.key >>= λ key_w.
    let key_width = add32 key_w (mul32 theme.spacing.xs 2) in
    let key_height = add32 theme.line_height theme.spacing.xs in
    let x' = add32 x (add32 key_width 2) in
    fb_draw_string_transparent fuel (add32 x theme.spacing.xs) text_y hint.key
      theme.colors.text_on_accent
      (fb_fill_rounded_rect x y key_width key_height theme.radii.sm theme.colors.accent c)
    >>= λ c1.
        fb_draw_string_transparent fuel x' text_y hint.action theme.colors.text_secondary c1
        >>= λ c2. fb_text_width fuel c2.1 hint.action >>= λ action_w.
            hint_loop fuel theme (add32 x' (add32 action_w theme.spacing.sm)) y hints c2

unfoldable pub ui_draw_help_bar : ℕ → UiRect → Theme → List Hint → Canvas → Option Canvas
ui_draw_help_bar fuel bounds theme hints c =
    if off_screen bounds.x bounds.y
    then some c
    else hint_loop fuel theme (add32 bounds.x theme.spacing.sm) (add32 bounds.y theme.spacing.xs)
        hints c

unfoldable pub ui_draw_section_header : ℕ → UiRect → Theme → ℕ → Canvas → Option Canvas
ui_draw_section_header fuel bounds theme title c =
    let text_y = add32 bounds.y theme.spacing.xs in
    let line_y = add32 (add32 text_y char_height) 1 in
    if off_screen bounds.x bounds.y
    then some c
    else fb_draw_string_transparent fuel bounds.x text_y title theme.colors.text_secondary c
      >>= λ c1. fb_text_width fuel c1.1 title >>= λ text_width.
          some (hline bounds.x line_y (add32 text_width theme.spacing.sm) theme.colors.divider c1)
