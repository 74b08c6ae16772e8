-- ===== src/Ui/Rect.antt =====
-- ui/src/core/ui_types.h: the arithmetic of rectangles. Coordinates are signed, and sums wrap around.
use tutorial_os.Common.{ℕ, ◌-◌, ◌/◌, Bool, ◌||◌, ◌&&◌, ltb, ◌==◌, if◌then◌else◌}
use tutorial_os.Framebuffer.{add32, sub32, lt_i32, min_i32, max_i32}
use tutorial_os.Framebuffer.Int32.{mul32, le_i32, div_i32}
use tutorial_os.Ui.{UiRect}

abbrev pub ui_rect : ℕ → ℕ → ℕ → ℕ → UiRect
ui_rect x y w h = record { x = x; y = y; w = w; h = h }

abbrev pub rect_zero : UiRect
rect_zero = ui_rect 0 0 0 0

abbrev pub ui_rect_right : UiRect → ℕ
ui_rect_right r = add32 r.x r.w

abbrev pub ui_rect_bottom : UiRect → ℕ
ui_rect_bottom r = add32 r.y r.h

abbrev pub ui_rect_center_x : UiRect → ℕ
ui_rect_center_x r = add32 r.x (r.w / 2)

abbrev pub ui_rect_center_y : UiRect → ℕ
ui_rect_center_y r = add32 r.y (r.h / 2)

abbrev pub ui_rect_is_empty : UiRect → Bool
ui_rect_is_empty r = (r.w == 0) || (r.h == 0)

unfoldable pub ui_rect_inset : UiRect → ℕ → UiRect
ui_rect_inset r amount =
    let doubled = mul32 amount 2 in
    ui_rect (add32 r.x amount) (add32 r.y amount) (if ltb doubled r.w then r.w - doubled else 0)
      (if ltb doubled r.h then r.h - doubled else 0)

unfoldable pub ui_rect_offset : UiRect → ℕ → ℕ → UiRect
ui_rect_offset r dx dy = ui_rect (add32 r.x dx) (add32 r.y dy) r.w r.h

unfoldable pub ui_rect_expand : UiRect → ℕ → UiRect
ui_rect_expand r amount =
    ui_rect (sub32 r.x amount) (sub32 r.y amount) (add32 r.w (mul32 amount 2))
      (add32 r.h (mul32 amount 2))

unfoldable pub ui_rect_center_in : UiRect → ℕ → ℕ → UiRect
ui_rect_center_in outer inner_w inner_h =
    ui_rect (add32 outer.x (div_i32 (sub32 outer.w inner_w) 2))
      (add32 outer.y (div_i32 (sub32 outer.h inner_h) 2)) inner_w inner_h

-- `if (n > limit) n = limit;`
abbrev pub at_most : ℕ → ℕ → ℕ
at_most limit n = if ltb limit n then limit else n

unfoldable pub ui_rect_split_top : UiRect → ℕ → UiRect
ui_rect_split_top r height = ui_rect r.x r.y r.w (at_most r.h height)

unfoldable pub ui_rect_split_bottom : UiRect → ℕ → UiRect
ui_rect_split_bottom r height =
    let n = at_most r.h height in ui_rect r.x (add32 r.y (sub32 r.h n)) r.w n

unfoldable pub ui_rect_split_left : UiRect → ℕ → UiRect
ui_rect_split_left r width = ui_rect r.x r.y (at_most r.w width) r.h

unfoldable pub ui_rect_split_right : UiRect → ℕ → UiRect
ui_rect_split_right r width =
    let n = at_most r.w width in ui_rect (add32 r.x (sub32 r.w n)) r.y n r.h

unfoldable pub ui_rect_contains : UiRect → ℕ → ℕ → Bool
ui_rect_contains r x y =
    (le_i32 r.x x && lt_i32 x (ui_rect_right r)) && (le_i32 r.y y && lt_i32 y (ui_rect_bottom r))

unfoldable pub ui_rect_intersect : UiRect → UiRect → UiRect
ui_rect_intersect a b =
    let x1 = max_i32 a.x b.x in
    let y1 = max_i32 a.y b.y in
    let x2 = min_i32 (ui_rect_right a) (ui_rect_right b) in
    let y2 = min_i32 (ui_rect_bottom a) (ui_rect_bottom b) in
    if le_i32 x2 x1 || le_i32 y2 y1 then rect_zero else ui_rect x1 y1 (sub32 x2 x1) (sub32 y2 y1)
