-- ===== src/Framebuffer/Present.antt =====
-- drivers/src/framebuffer/framebuffer.c: setting the framebuffer up through the VideoCore mailbox, and
-- presenting a frame. The mailbox is a parameter; what else is done to the hardware is a list of
-- actions.
pub mod Buffers
use tutorial_os.Common.{
  ℕ, ◌+◌, ◌-◌, ◌*◌, ◌/◌, ◌%◌, ◌^◌, Bool, true, false, not, ◌||◌, List, [], ◌∷◌, ◌++◌, get_or, set,
  ltb, ◌==◌, if◌then◌else◌,
}
use tutorial_os.Framebuffer.{Rect, rect, Framebuffer, no_clip, fb_clear_dirty}
use tutorial_os.Framebuffer.Int32.{mul32}

abbrev pub fb_buffer_count : ℕ
fb_buffer_count = 2

-- The mailbox sends a message of 32-bit words and answers whether the call succeeded and in place.
abbrev pub Mailbox : Type 0
Mailbox = List ℕ → Bool × List ℕ

-- the message of fb_init_with_size; the buffer's address and size stand at 28, its pitch at 33
unfoldable pub init_message : ℕ → ℕ → List ℕ
init_message width height =
    (35 * 4)
    ∷ 0
    ∷ 0x00048003
    ∷ 8
    ∷ 0
    ∷ width
    ∷ height
    ∷ 0x00048004
    ∷ 8
    ∷ 0
    ∷ width
    ∷ mul32 height fb_buffer_count
    ∷ 0x00048009
    ∷ 8
    ∷ 0
    ∷ 0
    ∷ 0
    ∷ 0x00048005
    ∷ 4
    ∷ 0
    ∷ 32
    ∷ 0x00048006
    ∷ 4
    ∷ 0
    ∷ 0
    ∷ 0x00040001
    ∷ 8
    ∷ 0
    ∷ 16
    ∷ 0
    ∷ 0x00040008
    ∷ 4
    ∷ 0
    ∷ 0
    ∷ 0
    ∷ []

abbrev pub alloc_idx : ℕ
alloc_idx = 28

abbrev pub pitch_idx : ℕ
pitch_idx = 33

-- BCM_BUS_TO_ARM
abbrev pub bus_to_arm : ℕ → ℕ
bus_to_arm a = a % 2 ^ 30

-- the fields that a successful answer sets; the pixel format is not among them. The product of two
-- uint32_t wraps around before it becomes a size_t, and the second address is a sum of 64 bits.
unfoldable pub set_up : ℕ → ℕ → ℕ → ℕ → Framebuffer → Framebuffer
set_up width height fb_addr pitch fb =
    let size = mul32 pitch height in
    let buffers = set (set fb.buffers 0 fb_addr) 1 ((fb_addr + size) % 2 ^ 64) in
    record fb {
      width = width;
      height = height;
      pitch = pitch;
      virtual_height = mul32 height fb_buffer_count;
      buffer_size = size;
      buffers = buffers;
      front_buffer = 0;
      back_buffer = 1;
      addr = get_or buffers 1 0;
      clip_depth = 0;
      clip_stack = set fb.clip_stack 0 (rect 0 0 width height);
      dirty_count = 0;
      full_dirty = true;
      frame_count = 0;
      vsync_enabled = true;
      initialized = true;
    }

unfoldable pub fb_init_with_size : Mailbox → ℕ → ℕ → Framebuffer → Bool × Framebuffer
fb_init_with_size call width height fb =
    let answer = call (init_message width height) in
    let fb_addr = get_or answer.1 alloc_idx 0 in
    let fb_size_bytes = get_or answer.1 (alloc_idx + 1) 0 in
    let pitch = get_or answer.1 pitch_idx 0 in
    if not answer.0
    then (false, fb)
    else if fb_addr == 0 || fb_size_bytes == 0
    then (false, fb)
    else (true, set_up width height (bus_to_arm fb_addr) pitch fb)

unfoldable pub fb_init : Mailbox → Framebuffer → Bool × Framebuffer
fb_init call fb = fb_init_with_size call 640 480 fb

unfoldable pub fb_set_vsync : Bool → Framebuffer → Framebuffer
fb_set_vsync enabled fb = record fb { vsync_enabled = enabled }

unfoldable pub fb_swap_buffers : Framebuffer → Framebuffer
fb_swap_buffers fb = record fb {
  front_buffer = fb.back_buffer;
  back_buffer = fb.front_buffer;
  addr = get_or fb.buffers fb.front_buffer 0;
}

-- what presenting does to the hardware; `dsb` is HAL_DSB
pub data Action : Type 0 where
  dsb : Action
  clean_dcache : ℕ → ℕ → Action
  set_virtual_offset : ℕ → ℕ → Action
  wait_vsync : Action

unfoldable pub fb_flip_display : Framebuffer → Action
fb_flip_display fb = set_virtual_offset 0 (mul32 fb.front_buffer fb.height)

unfoldable pub fb_present : Framebuffer → List Action × Framebuffer
fb_present fb =
    let swapped = fb_swap_buffers fb in
    let cleared = fb_clear_dirty swapped in
    let wait = if fb.vsync_enabled then wait_vsync ∷ [] else [] in
    if not fb.initialized then ([], fb) else (
      dsb ∷ clean_dcache fb.addr fb.buffer_size ∷ dsb ∷ fb_flip_display swapped ∷ wait,
      record cleared { frame_count = (fb.frame_count + 1) % 2 ^ 64 },
    )

unfoldable pub fb_present_immediate : Framebuffer → List Action
fb_present_immediate fb =
    if not fb.initialized then [] else dsb ∷ clean_dcache fb.addr fb.buffer_size ∷ dsb ∷ []
