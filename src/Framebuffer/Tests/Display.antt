-- ===== src/Framebuffer/Tests/Display.antt =====
-- Setting the framebuffer up, drawing on it and presenting it.
use tutorial_os.Common.{true, set}
use tutorial_os.Framebuffer.{Framebuffer, fb_mark_all_dirty}
use tutorial_os.Framebuffer.Tests.{screen, blank}
use tutorial_os.Framebuffer.Canvas.{Canvas}
use tutorial_os.Framebuffer.Present.{Mailbox, fb_init_with_size, fb_present}

-- a mailbox that puts the buffer at the bus address 0xC0001000, with rows of 2560 bytes
abbrev granting : Mailbox
granting message = (true, set (set (set message 28 0xC0001000) 29 2457600) 33 2560)

abbrev ready : Framebuffer
ready = (fb_init_with_size granting 640 480 screen).1

-- marked as dirty and presented
abbrev dirtied : Framebuffer
dirtied = fb_mark_all_dirty ready

abbrev presented : Canvas
presented = ((fb_present dirtied).1, blank)
