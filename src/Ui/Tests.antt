-- ===== src/Ui/Tests.antt =====
-- Concrete widgets on a small screen.
use tutorial_os.Common.{
  ◌||◌, ◌&&◌, false, true, ◌==◌, ℕ, ◌+◌, ◌*◌, ◌≤◌, ◌<◌, ◌≡◌, ◌⊎◌, inl, inr, refl, some, leb, ltb,
  if◌then◌else◌, arith,
}
use tutorial_os.Memory.{Memory, load_byte}
use tutorial_os.CString.Compare.{IsText}
use tutorial_os.Framebuffer.{fb_row}
use tutorial_os.Framebuffer.Canvas.{Canvas}
use tutorial_os.Framebuffer.Canvas.Paints.{Ready, Hidden, undirtied}
use tutorial_os.Framebuffer.Tests.{screen, blank, screen-Clipped}
use tutorial_os.Ui.{UiRect, Theme, palette_dark, ui_theme_for_width}
use tutorial_os.Ui.Text.{fill_truncated}
use tutorial_os.Ui.Widgets.{panel_elevated, raised_panel, panel_styled, ui_draw_panel}
use tutorial_os.Ui.Gauges.{thumb_height, thumb_offset}
use tutorial_os.Ui.Widget.{Widget, panel, list_item, show, show-Hidden}
use tutorial_os.Ui.Rect.{
  ui_rect_contains, ui_rect_intersect, ui_rect_split_top, ui_rect_split_bottom, ui_rect_split_left,
  ui_rect_split_right,
}
use tutorial_os.Ui.Overlap.{Within, contains-intersect, contains-split}
use tutorial_os.Ui.Legible.{Legible}
use tutorial_os.Ui.Label.{fill_truncated_lem}
use tutorial_os.Ui.Bars.{thumb_lem}

abbrev theme : Theme
theme = ui_theme_for_width 320 palette_dark

abbrev bounds : UiRect
bounds = record { x = 1; y = 1; w = 4; h = 2 }

abbrev canvas : Canvas
canvas = (screen, blank)

screen-Ready : Ready screen
screen-Ready = record {
  shaped = record { rows = omega arith; size = omega arith };
  clipped = screen-Clipped;
  words = refl;
}

below-Hidden : Hidden screen 100
unfolding fb_row
below-Hidden x y hx hy shown = inr (omega arith)

abbrev raised : Canvas
raised = raised_panel bounds theme theme.shadow.offset_x theme.shadow.offset_y canvas

show-raised : show 1 900 1000 theme (panel bounds panel_elevated) canvas ≡ some raised
unfolding show ui_draw_panel panel_styled
show-raised = refl

show-Hidden_example :
    (undirtied raised.0 ≡ undirtied screen) × (load_byte raised.1 100 ≡ load_byte blank 100)
show-Hidden_example =
    show-Hidden 1 900 1000 theme (panel bounds panel_elevated) canvas raised 100 screen-Ready
      show-raised below-Hidden (inr (omega arith))

-- six letters at 2000
abbrev letters : Memory
letters a = if leb 2000 a && ltb a 2006 then b'a' else 0

letters-IsText : IsText letters 2000 6
unfolding load_byte
letters-IsText = record { chars = λ i hi e. ground arith; ends = refl }

fill_truncated_example :
    IsText (fill_truncated letters 1000 2000 2) 1000 5
    × ((i : ℕ)
        → i < 2
        → load_byte (fill_truncated letters 1000 2000 2) (1000 + i) ≡ load_byte letters (2000 + i))
    × ((i : ℕ) → 2 ≤ i → i < 5 → load_byte (fill_truncated letters 1000 2000 2) (1000 + i) ≡ b'.')
    × (5 * 8 ≤ 40)
    × (6 ≤ 256)
    × ((◌≡◌ {A = ℕ} 2 252) ⊎ (40 < 6 * 8))
fill_truncated_example =
    fill_truncated_lem letters 1000 2000 6 40 letters-IsText (omega arith) (inl (omega arith))
      (omega arith) (omega arith)

thumb_example :
    (theme.spacing.md ≤ thumb_height theme 100 5 10)
    × (thumb_offset theme 100 3 5 10 + thumb_height theme 100 5 10 ≤ 100)
    × (thumb_offset theme 100 0 5 10 ≡ 0)
    × (thumb_offset theme 100 5 5 10 + thumb_height theme 100 5 10 ≡ 100)
unfolding ui_theme_for_width
thumb_example =
    thumb_lem theme 100 3 5 10 (omega arith) (omega arith) (omega arith) (omega arith) (omega arith)
      (omega arith)

-- six letters at 2000 and the marker at 3000
abbrev labels : Memory
labels a = if a == 3000 then b'>' else letters a

-- a selected item with room for four characters
abbrev item : Widget
item = list_item (record { x = 1; y = 1; w = 44; h = 12 }) 2000 true

-- from -5 on
abbrev left_out : UiRect
left_out = record { x = 4294967291; y = 2; w = 10; h = 4 }

left_out-Within : Within left_out
left_out-Within = record {
  across = record { pattern = omega arith; fits = omega arith };
  down = record { pattern = omega arith; fits = omega arith };
}

bounds-Within : Within bounds
bounds-Within = record {
  across = record { pattern = omega arith; fits = omega arith };
  down = record { pattern = omega arith; fits = omega arith };
}

contains-intersect_example :
    ui_rect_contains (ui_rect_intersect left_out bounds) 3 2
    ≡ (ui_rect_contains left_out 3 2 && ui_rect_contains bounds 3 2)
contains-intersect_example = contains-intersect left_out bounds 3 2 left_out-Within bounds-Within

contains-split_example :
    ((ui_rect_contains (ui_rect_split_top left_out 1) 3 2
        || ui_rect_contains (ui_rect_split_bottom left_out 3) 3 2)
      ≡ ui_rect_contains left_out 3 2)
    × ((ui_rect_contains (ui_rect_split_top left_out 1) 3 2
          && ui_rect_contains (ui_rect_split_bottom left_out 3) 3 2)
        ≡ false)
    × ((ui_rect_contains (ui_rect_split_left left_out 1) 3 2
          || ui_rect_contains (ui_rect_split_right left_out 9) 3 2)
        ≡ ui_rect_contains left_out 3 2)
    × ((ui_rect_contains (ui_rect_split_left left_out 1) 3 2
          && ui_rect_contains (ui_rect_split_right left_out 9) 3 2)
        ≡ false)
contains-split_example = contains-split left_out 1 3 2 left_out-Within
