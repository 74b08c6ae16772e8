-- ===== src/Ui/Text.antt =====
-- ui/src/widgets/ui_widgets.c: the text helpers of the widgets, and the shortened label of a list item,
-- which is built in a buffer on the stack.
use tutorial_os.Common.{
  ℕ, zero, suc, ◌+◌, ◌/◌, Bool, false, ◌&&◌, Option, none, some, ltb, leb, ◌==◌, if◌then◌else◌,
}
use tutorial_os.Memory.{Memory, null, load_byte, store_byte}
use tutorial_os.Framebuffer.{sub32}
use tutorial_os.Framebuffer.Int32.{mul32}
use tutorial_os.Framebuffer.Canvas.{Canvas, ◌>>=◌}
use tutorial_os.Framebuffer.Text.{
  char_width, fb_text_width, fb_draw_string_transparent, fb_draw_string_scaled_transparent,
}
use tutorial_os.Ui.{Theme}

unfoldable pub wstr : ℕ → Theme → ℕ → ℕ → ℕ → ℕ → Canvas → Option Canvas
wstr fuel theme x y s color c =
    if leb theme.font_scale 1
    then fb_draw_string_transparent fuel x y s color c
    else fb_draw_string_scaled_transparent fuel x y s color theme.font_scale c

unfoldable pub wtw : ℕ → Theme → Memory → ℕ → Option ℕ
wtw fuel theme m s = fb_text_width fuel m s >>= λ width. some (mul32 width theme.font_scale)

abbrev pub clamp100 : ℕ → ℕ
clamp100 v = if ltb 100 v then 100 else v

-- `while (*s++) len++;`
unfoldable pub ui_strlen_loop : ℕ → Memory → ℕ → ℕ → Option ℕ
ui_strlen_loop zero m s len = none
ui_strlen_loop (suc fuel) m s len =
    let rest = ui_strlen_loop fuel m (s + 1) (len + 1) in
    if load_byte m s == 0 then some len else rest

unfoldable pub ui_strlen : ℕ → Memory → ℕ → Option ℕ
ui_strlen fuel m s = if s == null then some 0 else ui_strlen_loop fuel m s 0

-- `while (n--) *d++ = *s++;`
unfoldable pub ui_memcpy : Memory → ℕ → ℕ → ℕ → Memory
ui_memcpy m d s zero = m
ui_memcpy m d s (suc n) = ui_memcpy (store_byte m d (load_byte m s)) (d + 1) (s + 1) n

-- Both fonts have the same width, which is not 0.
abbrev pub chars_that_fit : ℕ → Bool → ℕ
chars_that_fit width large =
    let char_w = if large then char_width else char_width in
    if ltb 0 char_w then width / char_w else 0

-- `copy_len`, at most `sizeof(truncated) - 4`
abbrev pub shortened : ℕ → ℕ
shortened max_chars = let copy_len = sub32 max_chars 3 in if ltb 252 copy_len then 252 else copy_len

-- the first bytes of the label and "..." in the buffer
unfoldable pub fill_truncated : Memory → ℕ → ℕ → ℕ → Memory
fill_truncated m truncated label copy_len =
    let m1 = ui_memcpy m truncated label copy_len in
    let m2 = store_byte m1 (truncated + copy_len) b'.' in
    let m3 = store_byte m2 (truncated + copy_len + 1) b'.' in
    let m4 = store_byte m3 (truncated + copy_len + 2) b'.' in
    store_byte m4 (truncated + copy_len + 3) 0

-- the label of a list item in `available` pixels
unfoldable pub draw_label : ℕ → ℕ → ℕ → ℕ → ℕ → ℕ → ℕ → Canvas → Option Canvas
draw_label fuel truncated x y label available color c =
    let max_chars = chars_that_fit available false in
    ui_strlen fuel c.1 label >>= λ label_len.
    if ltb max_chars label_len && ltb 3 max_chars
    then fb_draw_string_transparent fuel x y truncated color
        (c.0, fill_truncated c.1 truncated label (shortened max_chars))
    else fb_draw_string_transparent fuel x y label color c
