-- ===== src/Ui.antt =====
-- ui/src/core/ui_types.h and ui/src/themes/ui_theme.h: rectangles, palettes and themes of the widgets.
-- A colour is an ARGB word, a signed number its 32-bit pattern.
pub mod Rect
pub mod Overlap
pub mod Text
pub mod Widgets
pub mod Gauges
pub mod Items
pub mod Paints
pub mod Drawn
pub mod Widget
pub mod Legible
pub mod Returns
pub mod Label
pub mod Bars
mod Tests
use tutorial_os.Common.{ℕ, ◌/◌, Bool, ◌||◌, ltb, leb, if◌then◌else◌}
use tutorial_os.Framebuffer.Int32.{is_negative}

-- ui_rect_t, whose `x` and `y` are signed
pub record UiRect : Type 0 where
  pub x : ℕ
  pub y : ℕ
  pub w : ℕ
  pub h : ℕ

pub record Palette : Type 0 where
  pub bg_primary : ℕ
  pub bg_secondary : ℕ
  pub bg_elevated : ℕ
  pub bg_overlay : ℕ
  pub accent : ℕ
  pub accent_dim : ℕ
  pub accent_bright : ℕ
  pub text_primary : ℕ
  pub text_secondary : ℕ
  pub text_disabled : ℕ
  pub text_on_accent : ℕ
  pub success : ℕ
  pub warning : ℕ
  pub error : ℕ
  pub info : ℕ
  pub border : ℕ
  pub divider : ℕ
  pub shadow : ℕ
  pub transparent : ℕ

abbrev pub palette_dark : Palette
palette_dark = record {
  bg_primary = 0xFF0A0A14;
  bg_secondary = 0xFF14142D;
  bg_elevated = 0xFF1E1E3C;
  bg_overlay = 0xC8000000;
  accent = 0xFF4080FF;
  accent_dim = 0xFF285099;
  accent_bright = 0xFF60A0FF;
  text_primary = 0xFFE8E8F0;
  text_secondary = 0xFFA0A0B0;
  text_disabled = 0xFF606070;
  text_on_accent = 0xFF0A0A14;
  success = 0xFF40C080;
  warning = 0xFFF0A030;
  error = 0xFFE04040;
  info = 0xFF40A0E0;
  border = 0xFF3C3C50;
  divider = 0xFF28283C;
  shadow = 0x80000000;
  transparent = 0x00000000;
}

abbrev pub palette_light : Palette
palette_light = record {
  bg_primary = 0xFFF5F5FA;
  bg_secondary = 0xFFEBEBF2;
  bg_elevated = 0xFFFFFFFF;
  bg_overlay = 0xC8FFFFFF;
  accent = 0xFF3064DC;
  accent_dim = 0xFF5082C8;
  accent_bright = 0xFF2050C8;
  text_primary = 0xFF14141E;
  text_secondary = 0xFF505064;
  text_disabled = 0xFFA0A0B0;
  text_on_accent = 0xFFFFFFFF;
  success = 0xFF20A060;
  warning = 0xFFDC8C20;
  error = 0xFFC83030;
  info = 0xFF308CC8;
  border = 0xFFC8C8D2;
  divider = 0xFFDCDCE6;
  shadow = 0x40000000;
  transparent = 0x00000000;
}

abbrev pub palette_gameboy : Palette
palette_gameboy = record {
  bg_primary = 0xFF0F380F;
  bg_secondary = 0xFF306230;
  bg_elevated = 0xFF8BAC0F;
  bg_overlay = 0xC80F380F;
  accent = 0xFF9BBC0F;
  accent_dim = 0xFF8BAC0F;
  accent_bright = 0xFFCADC9F;
  text_primary = 0xFF9BBC0F;
  text_secondary = 0xFF8BAC0F;
  text_disabled = 0xFF306230;
  text_on_accent = 0xFF0F380F;
  success = 0xFF9BBC0F;
  warning = 0xFF8BAC0F;
  error = 0xFF0F380F;
  info = 0xFF8BAC0F;
  border = 0xFF306230;
  divider = 0xFF306230;
  shadow = 0x40000000;
  transparent = 0x00000000;
}

abbrev pub palette_cyan : Palette
palette_cyan = record {
  bg_primary = 0xFF285064;
  bg_secondary = 0xFF326478;
  bg_elevated = 0xFF3C788C;
  bg_overlay = 0xC8143246;
  accent = 0xFF00DCDC;
  accent_dim = 0xFF00A0B4;
  accent_bright = 0xFF64FFFF;
  text_primary = 0xFFFFFFFF;
  text_secondary = 0xFFC8DCE6;
  text_disabled = 0xFF7896A0;
  text_on_accent = 0xFF002832;
  success = 0xFF50DC78;
  warning = 0xFFFFC850;
  error = 0xFFFF6464;
  info = 0xFF64C8FF;
  border = 0xFF508CA0;
  divider = 0xFF46788C;
  shadow = 0x64001E28;
  transparent = 0x00000000;
}

pub record Spacing : Type 0 where
  pub xs : ℕ
  pub sm : ℕ
  pub md : ℕ
  pub lg : ℕ
  pub xl : ℕ

abbrev pub spacing_low : Spacing
spacing_low = record { xs = 2; sm = 4; md = 8; lg = 12; xl = 16 }

abbrev pub spacing_med : Spacing
spacing_med = record { xs = 4; sm = 8; md = 16; lg = 24; xl = 32 }

abbrev pub spacing_high : Spacing
spacing_high = record { xs = 8; sm = 16; md = 24; lg = 32; xl = 48 }

-- The field `none` of the source is `square`.
pub record Radii : Type 0 where
  pub square : ℕ
  pub sm : ℕ
  pub md : ℕ
  pub lg : ℕ
  pub full : ℕ

abbrev pub radii_low : Radii
radii_low = record { square = 0; sm = 2; md = 4; lg = 6; full = 100 }

abbrev pub radii_med : Radii
radii_med = record { square = 0; sm = 4; md = 8; lg = 12; full = 100 }

abbrev pub radii_high : Radii
radii_high = record { square = 0; sm = 8; md = 12; lg = 16; full = 100 }

-- The offsets are signed.
pub record Shadow : Type 0 where
  pub offset_x : ℕ
  pub offset_y : ℕ
  pub blur : ℕ
  pub color : ℕ

abbrev pub ui_shadow_simple : ℕ → ℕ → Shadow
ui_shadow_simple offset color = record {
  offset_x = offset;
  offset_y = offset;
  blur = 0;
  color = color;
}

pub record Theme : Type 0 where
  pub colors : Palette
  pub spacing : Spacing
  pub radii : Radii
  pub shadow : Shadow
  pub line_height : ℕ
  pub line_height_sm : ℕ
  pub font_scale : ℕ

-- the multiplier of the text's pixels, between 1 and 3
abbrev pub font_scale_for : ℕ → ℕ
font_scale_for width =
    let s = width / 1280 in let s' = if ltb s 1 then 1 else s in if ltb 3 s' then 3 else s'

unfoldable pub ui_theme_for_width : ℕ → Palette → Theme
ui_theme_for_width width palette =
    if leb width 400
    then record {
      colors = palette;
      spacing = spacing_low;
      radii = radii_low;
      shadow = ui_shadow_simple 1 palette.shadow;
      line_height = 8;
      line_height_sm = 7;
      font_scale = font_scale_for width;
    }
    else if leb width 800
    then record {
      colors = palette;
      spacing = spacing_med;
      radii = radii_med;
      shadow = ui_shadow_simple 2 palette.shadow;
      line_height = 12;
      line_height_sm = 10;
      font_scale = font_scale_for width;
    }
    else record {
      colors = palette;
      spacing = spacing_high;
      radii = radii_high;
      shadow = ui_shadow_simple 4 palette.shadow;
      line_height = 16;
      line_height_sm = 12;
      font_scale = font_scale_for width;
    }

-- `bounds.x < 0 || bounds.y < 0`
abbrev pub off_screen : ℕ → ℕ → Bool
off_screen x y = is_negative x || is_negative y

abbrev pub ui_theme_panel_bg : Theme → ℕ
ui_theme_panel_bg t = t.colors.bg_elevated

abbrev pub ui_theme_panel_border : Theme → ℕ
ui_theme_panel_border t = t.colors.border

abbrev pub ui_theme_button_bg : Theme → ℕ
ui_theme_button_bg t = t.colors.bg_elevated

abbrev pub ui_theme_button_bg_focused : Theme → ℕ
ui_theme_button_bg_focused t = t.colors.accent_dim

abbrev pub ui_theme_button_bg_pressed : Theme → ℕ
ui_theme_button_bg_pressed t = t.colors.accent

abbrev pub ui_theme_button_text : Theme → ℕ
ui_theme_button_text t = t.colors.text_primary

abbrev pub ui_theme_button_text_pressed : Theme → ℕ
ui_theme_button_text_pressed t = t.colors.text_on_accent

abbrev pub ui_theme_list_item_bg_selected : Theme → ℕ
ui_theme_list_item_bg_selected t = t.colors.accent_dim

abbrev pub ui_theme_list_item_text : Theme → ℕ
ui_theme_list_item_text t = t.colors.text_secondary

abbrev pub ui_theme_list_item_text_selected : Theme → ℕ
ui_theme_list_item_text_selected t = t.colors.text_primary

abbrev pub ui_theme_scrollbar_track : Theme → ℕ
ui_theme_scrollbar_track t = t.colors.bg_secondary

abbrev pub ui_theme_scrollbar_thumb : Theme → ℕ
ui_theme_scrollbar_thumb t = t.colors.accent

abbrev pub ui_theme_header_bg : Theme → ℕ
ui_theme_header_bg t = t.colors.bg_elevated

abbrev pub ui_theme_header_text : Theme → ℕ
ui_theme_header_text t = t.colors.text_primary
