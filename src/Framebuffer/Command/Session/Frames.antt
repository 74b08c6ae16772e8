-- ===== src/Framebuffer/Command/Session/Frames.antt =====
-- Drawing and presenting in any order, after fb_init_with_size.
use tutorial_os.Memory.{Memory}
use tutorial_os.Framebuffer.{Framebuffer}
use tutorial_os.Framebuffer.Canvas.{Canvas}
