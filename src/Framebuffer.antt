-- ===== src/Framebuffer.antt =====
-- drivers/src/framebuffer/framebuffer.c, framebuffer.h and fb_pixel.h: the state of a framebuffer, its
-- clip stack, its dirty rectangles and the access to single pixels. An int32_t is its bit pattern, and
-- a sum of two wraps around; the pixels lie in memory, which is passed on.
pub mod Color
pub mod Clip
pub mod Pixel
pub mod Fill
pub mod Line
pub mod Int32
pub mod Canvas
pub mod Segment
pub mod Shape
pub mod Area
pub mod Font
pub mod Text
pub mod Blit
pub mod Screen
pub mod GameBoy
pub mod Present
pub mod Command
pub mod Tests
use tutorial_os.Common.{
  ℕ, ◌+◌, ◌-◌, ◌*◌, ◌%◌, ◌^◌, Bool, true, false, not, ◌&&◌, ◌||◌, List, get_or, set, ltb, leb,
  if◌then◌else◌,
}
use tutorial_os.Memory.{Memory, load32, store32, load_bytes, store_bytes}
use tutorial_os.Framebuffer.Color.{fb_argb_to_565, fb_565_to_argb, fb_blend_alpha}

abbrev pub fb_max_clip_depth : ℕ
fb_max_clip_depth = 16

abbrev pub fb_max_dirty_rects : ℕ
fb_max_dirty_rects = 32

-- `a + b` and `a - b` of a uint32_t
abbrev pub add32 : ℕ → ℕ → ℕ
add32 a b = (a + b) % 2 ^ 32

abbrev pub sub32 : ℕ → ℕ → ℕ
sub32 a b = (a + 2 ^ 32 - b) % 2 ^ 32

-- the order of bit patterns as signed numbers is the order of these
abbrev pub biased : ℕ → ℕ
biased a = (a + 2 ^ 31) % 2 ^ 32

abbrev pub lt_i32 : ℕ → ℕ → Bool
lt_i32 a b = ltb (biased a) (biased b)

abbrev pub min_i32 : ℕ → ℕ → ℕ
min_i32 a b = if lt_i32 a b then a else b

abbrev pub max_i32 : ℕ → ℕ → ℕ
max_i32 a b = if lt_i32 b a then a else b

pub data PixelFormat : Type 0 where
  argb8888 : PixelFormat
  abgr8888 : PixelFormat
  rgb565 : PixelFormat

-- a rectangle; `x` and `y` are signed in an fb_rect_t, unsigned in a clip or dirty rectangle
pub record Rect : Type 0 where
  pub x : ℕ
  pub y : ℕ
  pub w : ℕ
  pub h : ℕ

abbrev pub rect : ℕ → ℕ → ℕ → ℕ → Rect
rect x y w h = record { x = x; y = y; w = w; h = h }

pub record Framebuffer : Type 0 where
  pub addr : ℕ
  pub width : ℕ
  pub height : ℕ
  pub pitch : ℕ
  pub buffers : List ℕ
  pub front_buffer : ℕ
  pub back_buffer : ℕ
  pub buffer_size : ℕ
  pub virtual_height : ℕ
  pub dirty_rects : List Rect
  pub dirty_count : ℕ
  pub full_dirty : Bool
  pub clip_stack : List Rect
  pub clip_depth : ℕ
  pub frame_count : ℕ
  pub vsync_enabled : Bool
  pub initialized : Bool
  pub pixel_format : PixelFormat

-- what a slot of the stack holds that was never written
abbrev pub no_clip : Rect
no_clip = rect 0 0 0 0

unfoldable pub fb_get_clip : Framebuffer → Rect
fb_get_clip fb = get_or fb.clip_stack fb.clip_depth no_clip

unfoldable pub is_clipped : Framebuffer → ℕ → ℕ → Bool
is_clipped fb x y =
    let clip = fb_get_clip fb in
    ltb x clip.x || ltb y clip.y || leb (add32 clip.x clip.w) x || leb (add32 clip.y clip.h) y

-- the clip rectangle that fb_push_clip computes
unfoldable pub clip_to : Rect → Rect → Rect
clip_to current r =
    let x1 = max_i32 r.x current.x in
    let y1 = max_i32 r.y current.y in
    let x2 = min_i32 (add32 r.x r.w) (add32 current.x current.w) in
    let y2 = min_i32 (add32 r.y r.h) (add32 current.y current.h) in
    if not (lt_i32 x1 x2) || not (lt_i32 y1 y2)
    then no_clip
    else rect x1 y1 (sub32 x2 x1) (sub32 y2 y1)

unfoldable pub fb_push_clip : Framebuffer → Rect → Bool × Framebuffer
fb_push_clip fb r =
    if leb (fb_max_clip_depth - 1) fb.clip_depth
    then (false, fb)
    else let depth = fb.clip_depth + 1 in
      (
        true,
        record fb {
          clip_depth = depth;
          clip_stack = set fb.clip_stack depth (clip_to (fb_get_clip fb) r);
        },
      )

unfoldable pub fb_pop_clip : Framebuffer → Framebuffer
fb_pop_clip fb = if ltb 0 fb.clip_depth then record fb { clip_depth = fb.clip_depth - 1 } else fb

unfoldable pub fb_reset_clip : Framebuffer → Framebuffer
fb_reset_clip fb = record fb {
  clip_depth = 0;
  clip_stack = set fb.clip_stack 0 (rect 0 0 fb.width fb.height);
}

unfoldable pub fb_mark_dirty : Framebuffer → ℕ → ℕ → ℕ → ℕ → Framebuffer
fb_mark_dirty fb x y w h =
    if fb.full_dirty
    then fb
    else if leb fb_max_dirty_rects fb.dirty_count
    then record fb { full_dirty = true }
    else record fb {
      dirty_rects = set fb.dirty_rects fb.dirty_count (rect x y w h);
      dirty_count = fb.dirty_count + 1;
    }

unfoldable pub fb_mark_all_dirty : Framebuffer → Framebuffer
fb_mark_all_dirty fb = record fb { full_dirty = true }

unfoldable pub fb_clear_dirty : Framebuffer → Framebuffer
fb_clear_dirty fb = record fb { dirty_count = 0; full_dirty = false }

unfoldable pub fb_is_dirty : Framebuffer → Bool
fb_is_dirty fb = fb.full_dirty || ltb 0 fb.dirty_count

-- `y * fb->pitch` is a uint32_t, the address is not.
unfoldable pub fb_row : Framebuffer → ℕ → ℕ
fb_row fb y = fb.addr + (y * fb.pitch) % 2 ^ 32

unfoldable pub fb_write_px : Framebuffer → Memory → ℕ → ℕ → ℕ → Memory
fb_write_px fb m row x color = elim fb.pixel_format [
  | rgb565 ↦ store_bytes 2 m (row + 2 * x) (fb_argb_to_565 color)
  | _ ↦ store32 m (row + 4 * x) color
]

unfoldable pub fb_read_px : Framebuffer → Memory → ℕ → ℕ → ℕ
fb_read_px fb m row x = elim fb.pixel_format [
  | rgb565 ↦ fb_565_to_argb (load_bytes 2 m (row + 2 * x))
  | _ ↦ load32 m (row + 4 * x)
]

unfoldable pub fb_put_pixel : Framebuffer → Memory → ℕ → ℕ → ℕ → Memory
fb_put_pixel fb m x y color =
    if leb fb.width x || leb fb.height y || is_clipped fb x y
    then m
    else fb_write_px fb m (fb_row fb y) x color

unfoldable pub fb_put_pixel_blend : Framebuffer → Memory → ℕ → ℕ → ℕ → Memory
fb_put_pixel_blend fb m x y color =
    if leb fb.width x || leb fb.height y || is_clipped fb x y
    then m
    else let row = fb_row fb y in
      let dst = fb_read_px fb m row x in fb_write_px fb m row x (fb_blend_alpha color dst)

unfoldable pub fb_put_pixel_unchecked : Framebuffer → Memory → ℕ → ℕ → ℕ → Memory
fb_put_pixel_unchecked fb m x y color = fb_write_px fb m (fb_row fb y) x color

-- FB_COLOR_TRANSPARENT is 0.
unfoldable pub fb_get_pixel : Framebuffer → Memory → ℕ → ℕ → ℕ
fb_get_pixel fb m x y =
    if leb fb.width x || leb fb.height y then 0 else fb_read_px fb m (fb_row fb y) x
