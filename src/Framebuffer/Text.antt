-- ===== src/Framebuffer/Text.antt =====
-- drivers/src/framebuffer/framebuffer.c: characters and strings. A string is the address of its first
-- byte, and a loop over it takes fuel.
pub mod Glyph
use tutorial_os.Common.{
  ℕ, zero, suc, ◌+◌, ◌-◌, ◌*◌, ◌/◌, ◌%◌, ◌^◌, Bool, true, false, not, ◌||◌, Option, none, some,
  List, [], ◌∷◌, get_or, ltb, leb, ◌==◌, if◌then◌else◌,
}
use tutorial_os.Memory.{Memory, load_byte}
use tutorial_os.Framebuffer.{add32, sub32, Framebuffer}
use tutorial_os.Framebuffer.Int32.{mul32}
use tutorial_os.Framebuffer.Canvas.{Canvas, ◌>>=◌, for_up, put, put_if}
use tutorial_os.Framebuffer.Font.{font_8x8, font_8x16}

-- FB_CHAR_WIDTH and FB_CHAR_WIDTH_LG, FB_CHAR_HEIGHT
abbrev pub char_width : ℕ
char_width = 8

abbrev pub char_height : ℕ
char_height = 8

-- `if (ch < 32 || ch > 126) ch = '?';` and `ch - 32`
abbrev pub glyph_index : ℕ → ℕ
glyph_index ch = if ltb ch 32 || ltb 126 ch then b'?' - 32 else ch - 32

-- `glyph[row] & (0x80 >> col)`
unfoldable pub glyph_bit : List (List ℕ) → ℕ → ℕ → ℕ → Bool
glyph_bit font ch row col = get_or (get_or font (glyph_index ch) []) row 0 / 2 ^ (7 - col) % 2 == 1

-- the loops over the rows and columns of a glyph
abbrev pub for_glyph : ℕ → (ℕ → ℕ → Canvas → Canvas) → Canvas → Canvas
for_glyph rows plot c = for_up (λ row. for_up (plot row) 8 0) rows 0 c

-- a glyph pixel in the foreground or the background colour
abbrev pub plot_solid : List (List ℕ) → ℕ → ℕ → ℕ → ℕ → ℕ → ℕ → ℕ → Canvas → Canvas
plot_solid font x y ch fg bg row col c =
    put (add32 x col) (add32 y row) (if glyph_bit font ch row col then fg else bg) c

-- a glyph pixel that is drawn only where it is set
abbrev pub plot_set : List (List ℕ) → ℕ → ℕ → ℕ → ℕ → ℕ → ℕ → Canvas → Canvas
plot_set font x y ch fg row col c =
    put_if (glyph_bit font ch row col) (add32 x col) (add32 y row) fg c

unfoldable pub fb_draw_char : ℕ → ℕ → ℕ → ℕ → ℕ → Canvas → Canvas
fb_draw_char x y ch fg bg c = for_glyph 8 (plot_solid font_8x8 x y ch fg bg) c

unfoldable pub fb_draw_char_transparent : ℕ → ℕ → ℕ → ℕ → Canvas → Canvas
fb_draw_char_transparent x y ch fg c = for_glyph 8 (plot_set font_8x8 x y ch fg) c

unfoldable pub fb_draw_char_large : ℕ → ℕ → ℕ → ℕ → ℕ → Canvas → Canvas
fb_draw_char_large x y ch fg bg c = for_glyph 16 (plot_solid font_8x16 x y ch fg bg) c

unfoldable pub fb_draw_char_large_transparent : ℕ → ℕ → ℕ → ℕ → Canvas → Canvas
fb_draw_char_large_transparent x y ch fg c = for_glyph 16 (plot_set font_8x16 x y ch fg) c

-- a glyph pixel as a square of `scale` pixels
abbrev pub square : ℕ → ℕ → ℕ → ℕ → ℕ → ℕ → Canvas → Canvas
square x y scale row col color c =
    for_up
      (λ sy.
        for_up
          (λ sx.
            put (add32 (add32 x (mul32 col scale)) sx) (add32 (add32 y (mul32 row scale)) sy) color)
          scale 0)
      scale 0 c

unfoldable pub fb_draw_char_scaled : ℕ → ℕ → ℕ → ℕ → ℕ → ℕ → Canvas → Canvas
fb_draw_char_scaled x y ch fg bg scale c =
    for_glyph 8
      (λ row col. square x y scale row col (if glyph_bit font_8x8 ch row col then fg else bg)) c

-- the body of fb_draw_string_scaled_transparent
unfoldable pub draw_char_scaled_transparent : ℕ → ℕ → ℕ → ℕ → ℕ → Canvas → Canvas
draw_char_scaled_transparent x y ch fg scale c =
    for_glyph 8
      (λ row col c. if glyph_bit font_8x8 ch row col then square x y scale row col fg c else c) c

-- `while (*str) { if (x + char_w > fb->width) break; draw(x, *str++); x += char_w; }`
unfoldable pub string_loop : ℕ → (ℕ → ℕ → Canvas → Canvas) → ℕ → ℕ → ℕ → Canvas → Option Canvas
string_loop zero draw char_w x str c = none
string_loop (suc fuel) draw char_w x str c =
    let ch = load_byte c.1 str in
    let rest = string_loop fuel draw char_w (add32 x char_w) (str + 1) (draw x ch c) in
    if ch == 0 then some c else if ltb c.0.width (add32 x char_w) then some c else rest

unfoldable pub fb_draw_string : ℕ → ℕ → ℕ → ℕ → ℕ → ℕ → Canvas → Option Canvas
fb_draw_string fuel x y str fg bg c =
    string_loop fuel (λ x' ch. fb_draw_char x' y ch fg bg) char_width x str c

unfoldable pub fb_draw_string_transparent : ℕ → ℕ → ℕ → ℕ → ℕ → Canvas → Option Canvas
fb_draw_string_transparent fuel x y str fg c =
    string_loop fuel (λ x' ch. fb_draw_char_transparent x' y ch fg) char_width x str c

unfoldable pub fb_draw_string_large : ℕ → ℕ → ℕ → ℕ → ℕ → ℕ → Canvas → Option Canvas
fb_draw_string_large fuel x y str fg bg c =
    string_loop fuel (λ x' ch. fb_draw_char_large x' y ch fg bg) char_width x str c

unfoldable pub fb_draw_string_large_transparent : ℕ → ℕ → ℕ → ℕ → ℕ → Canvas → Option Canvas
fb_draw_string_large_transparent fuel x y str fg c =
    string_loop fuel (λ x' ch. fb_draw_char_large_transparent x' y ch fg) char_width x str c

unfoldable pub fb_draw_string_scaled : ℕ → ℕ → ℕ → ℕ → ℕ → ℕ → ℕ → Canvas → Option Canvas
fb_draw_string_scaled fuel x y str fg bg scale c =
    string_loop fuel (λ x' ch. fb_draw_char_scaled x' y ch fg bg scale) (mul32 char_width scale) x
      str c

unfoldable pub fb_draw_string_scaled_transparent : ℕ → ℕ → ℕ → ℕ → ℕ → ℕ → Canvas → Option Canvas
fb_draw_string_scaled_transparent fuel x y str fg scale c =
    if leb scale 1
    then fb_draw_string_transparent fuel x y str fg c
    else string_loop fuel (λ x' ch. draw_char_scaled_transparent x' y ch fg scale)
        (mul32 char_width scale) x str c

unfoldable pub strlen_local : ℕ → Memory → ℕ → ℕ → Option ℕ
strlen_local zero m s len = none
strlen_local (suc fuel) m s len =
    let rest = strlen_local fuel m (s + 1) (len + 1) in
    if load_byte m s == 0 then some len else rest

-- The length is cast to a uint32_t.
unfoldable pub fb_text_width : ℕ → Memory → ℕ → Option ℕ
fb_text_width fuel m str =
    strlen_local fuel m str 0 >>= λ len. some (mul32 (len % 2 ^ 32) char_width)

-- Both fonts have the same width.
unfoldable pub fb_text_width_large : ℕ → Memory → ℕ → Option ℕ
fb_text_width_large fuel m str =
    strlen_local fuel m str 0 >>= λ len. some (mul32 (len % 2 ^ 32) char_width)

unfoldable pub fb_measure_string : ℕ → Memory → ℕ → Bool → Option ℕ
fb_measure_string fuel m str large = strlen_local fuel m str 0 >>= λ len.
    some (mul32 (len % 2 ^ 32) (if large then char_width else char_width))

-- where a text of a width starts on a line
abbrev pub centre : ℕ → ℕ → ℕ
centre width text_width = if ltb text_width width then sub32 width text_width / 2 else 0

unfoldable pub fb_draw_string_centered : ℕ → ℕ → ℕ → ℕ → ℕ → Canvas → Option Canvas
fb_draw_string_centered fuel y str fg bg c = fb_text_width fuel c.1 str >>= λ text_width.
    fb_draw_string fuel (centre c.0.width text_width) y str fg bg c

unfoldable pub fb_draw_string_center : ℕ → ℕ → ℕ → ℕ → Canvas → Option Canvas
fb_draw_string_center fuel str fg bg c = fb_text_width fuel c.1 str >>= λ text_width.
    fb_draw_string fuel (centre c.0.width text_width) (sub32 c.0.height char_height / 2) str fg bg c
