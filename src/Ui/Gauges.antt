-- ===== src/Ui/Gauges.antt =====
-- ui/src/widgets/ui_widgets.c: the scrollbar and the progress bar.
use tutorial_os.Common.{ℕ, ◌/◌, ◌||◌, ◌&&◌, ltb, leb, ◌==◌, if◌then◌else◌}
use tutorial_os.Framebuffer.{add32, sub32}
use tutorial_os.Framebuffer.Int32.{mul32}
use tutorial_os.Framebuffer.Canvas.{Canvas}
use tutorial_os.Framebuffer.Area.{fb_fill_rounded_rect}
use tutorial_os.Ui.{UiRect, Theme, off_screen, ui_theme_scrollbar_track, ui_theme_scrollbar_thumb}
use tutorial_os.Ui.Text.{clamp100}

-- `thumb_height`
abbrev pub thumb_height : Theme → ℕ → ℕ → ℕ → ℕ
thumb_height theme h visible_count total_count =
    let t = mul32 visible_count h / total_count in
    if ltb t theme.spacing.md then theme.spacing.md else t

-- `thumb_offset`
abbrev pub thumb_offset : Theme → ℕ → ℕ → ℕ → ℕ → ℕ
thumb_offset theme h scroll_offset visible_count total_count =
    let scroll_range = sub32 total_count visible_count in
    let thumb_range = sub32 h (thumb_height theme h visible_count total_count) in
    if ltb 0 scroll_range && ltb 0 thumb_range
    then mul32 scroll_offset thumb_range / scroll_range
    else 0

unfoldable pub ui_draw_scrollbar_v : UiRect → Theme → ℕ → ℕ → ℕ → Canvas → Canvas
ui_draw_scrollbar_v bounds theme scroll_offset visible_count total_count c =
    let radius = bounds.w / 2 in
    let c1 =
      fb_fill_rounded_rect bounds.x bounds.y bounds.w bounds.h radius
        (ui_theme_scrollbar_track theme) c in
    if leb total_count visible_count || off_screen bounds.x bounds.y
    then c
    else fb_fill_rounded_rect bounds.x
        (add32 bounds.y (thumb_offset theme bounds.h scroll_offset visible_count total_count))
        bounds.w (thumb_height theme bounds.h visible_count total_count) radius
        (ui_theme_scrollbar_thumb theme) c1

-- `fill_width`
abbrev pub fill_width : ℕ → ℕ → ℕ → ℕ
fill_width radius w progress_pct =
    let f = mul32 progress_pct w / 100 in if ltb f (mul32 radius 2) then mul32 radius 2 else f

unfoldable pub ui_draw_progress_bar : UiRect → Theme → ℕ → ℕ → Canvas → Canvas
ui_draw_progress_bar bounds theme progress_pct color c =
    let radius = theme.radii.sm in
    let fill_color = if color == 0 then theme.colors.accent else color in
    let c1 =
      fb_fill_rounded_rect bounds.x bounds.y bounds.w bounds.h radius
        (ui_theme_scrollbar_track theme) c in
    let pct = clamp100 progress_pct in
    if off_screen bounds.x bounds.y
    then c
    else if ltb 0 pct
    then fb_fill_rounded_rect bounds.x bounds.y (fill_width radius bounds.w pct) bounds.h radius
        fill_color c1
    else c1
