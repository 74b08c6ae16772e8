-- ===== src/Ui/Items.antt =====
-- ui/src/widgets/ui_widgets.c: list items. `truncated` is the address of their buffer of 256 bytes on
-- the stack, `marker` that of the text ">".
use tutorial_os.Common.{ℕ, ◌/◌, Bool, not, ◌&&◌, Option, some, ◌==◌, if◌then◌else◌}
use tutorial_os.Memory.{Memory, null, load_byte}
use tutorial_os.Framebuffer.{add32, sub32}
use tutorial_os.Framebuffer.Int32.{mul32}
use tutorial_os.Framebuffer.Canvas.{Canvas, ◌>>=◌}
use tutorial_os.Framebuffer.Area.{fb_fill_rounded_rect}
use tutorial_os.Framebuffer.Text.{char_height, fb_text_width, fb_draw_string_transparent}
use tutorial_os.Ui.{
  UiRect, Theme, off_screen, ui_theme_list_item_bg_selected, ui_theme_list_item_text,
  ui_theme_list_item_text_selected,
}
use tutorial_os.Ui.Text.{draw_label}

-- the highlight and the indicator of a selected item
unfoldable pub draw_selection : ℕ → ℕ → UiRect → Theme → Bool → Canvas → Option Canvas
draw_selection fuel marker bounds theme selected c =
    if selected
    then fb_draw_string_transparent fuel (add32 bounds.x theme.spacing.xs)
        (add32 bounds.y theme.spacing.xs) marker theme.colors.accent_bright
        (fb_fill_rounded_rect bounds.x bounds.y bounds.w bounds.h theme.radii.sm
          (ui_theme_list_item_bg_selected theme) c)
    else some c

abbrev pub item_text_color : Theme → Bool → ℕ
item_text_color theme selected =
    if selected then ui_theme_list_item_text_selected theme else ui_theme_list_item_text theme

unfoldable pub ui_draw_list_item : ℕ → ℕ → ℕ → UiRect → Theme → ℕ → Bool → Canvas → Option Canvas
ui_draw_list_item fuel marker truncated bounds theme label selected c =
    if off_screen bounds.x bounds.y
    then some c
    else draw_selection fuel marker bounds theme selected c >>= λ c1.
        draw_label fuel truncated (add32 bounds.x theme.spacing.md)
          (add32 bounds.y theme.spacing.xs) label (sub32 bounds.w theme.spacing.lg)
          (item_text_color theme selected) c1

-- `badge && badge[0]`
abbrev pub has_text : Memory → ℕ → Bool
has_text m badge = not (badge == null) && not (load_byte m badge == 0)

unfoldable pub badge_width : ℕ → Theme → Memory → ℕ → Option ℕ
badge_width fuel theme m badge =
    if has_text m badge
    then (fb_text_width fuel m badge >>= λ w.
        some (add32 (add32 w (mul32 theme.spacing.xs 2)) theme.spacing.sm))
    else some 0

unfoldable pub draw_item_badge : ℕ → UiRect → Theme → ℕ → Canvas → Option Canvas
draw_item_badge fuel bounds theme badge c =
    let padding = theme.spacing.xs in
    let badge_h = add32 char_height padding in
    let badge_y = add32 bounds.y (sub32 bounds.h badge_h / 2) in
    if has_text c.1 badge
    then (fb_text_width fuel c.1 badge >>= λ text_w.
        let badge_w = add32 text_w (mul32 padding 2) in
        let badge_x = sub32 (sub32 (add32 bounds.x bounds.w) badge_w) theme.spacing.sm in
        fb_draw_string_transparent fuel (add32 badge_x padding) (add32 badge_y (padding / 2)) badge
          theme.colors.text_on_accent
          (fb_fill_rounded_rect badge_x badge_y badge_w badge_h theme.radii.sm
            theme.colors.accent_dim c))
    else some c

unfoldable pub ui_draw_list_item_with_badge :
    ℕ → ℕ → ℕ → UiRect → Theme → ℕ → ℕ → Bool → Canvas → Option Canvas
ui_draw_list_item_with_badge fuel marker truncated bounds theme label badge selected c =
    if off_screen bounds.x bounds.y
    then some c
    else draw_selection fuel marker bounds theme selected c >>= λ c1.
        badge_width fuel theme c1.1 badge >>= λ width.
        draw_label fuel truncated (add32 bounds.x theme.spacing.md)
          (add32 bounds.y theme.spacing.xs) label (sub32 (sub32 bounds.w theme.spacing.lg) width)
          (item_text_color theme selected) c1
        >>= draw_item_badge fuel bounds theme badge
