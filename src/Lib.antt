-- ===== src/Lib.antt =====
-- Tutorial-OS is a bare-metal teaching kernel in C. Its parts are a freestanding C library
-- (common/src/string.c), the kernel heap (memory/src/allocator.c and allocator.h), a software
-- framebuffer (drivers/src/framebuffer), user interface widgets (ui/src) that draw on it, the
-- hardware abstraction headers (hal/src) and their implementations for two chips (soc/bcm2710 and
-- soc/jh7110), and kernel/src/main.c, which brings all of it up. The heap calls memcpy from the C
-- library; the rest of the kernel takes memory from the heap.
--
-- Files:
--   Common, Word, Memory: shared names, 64-bit and 32-bit words with their wrap-around written out, and
--     byte memory with little-endian words. A pointer is the number of its first byte, NULL is 0.
--   CString: common/src/string.c, one function for each of memset, memcpy, memmove, memcmp, strlen,
--     strcmp, strncmp, strcpy and strncpy; memory is passed on explicitly. Fill, Copy, Compare and Text
--     hold the proofs.
--   Allocator: memory/src/allocator.c. Block models the header word, footer and links of a block;
--     SizeClass the power-of-two classes; FreeList the doubly linked lists and their bitmap
--     (remove_from_free_list, insert_into_free_list, find_free_block); Merge split_block and coalesce;
--     Api the allocator_ functions and Global the heap_ functions. The state is allocator_t with the
--     memory that its blocks lie in.
--   Allocator.Tiling and Allocator.Heap: the abstract heap, a list of blocks with a size and a flag,
--     and the relation Heap between a state and such a list: the blocks tile the heap, every free block
--     has a footer and stands in the list of its class, the bitmap agrees with the lists, no two free
--     blocks are neighbours, and the statistics are the sums of the sizes. Around is the same with a
--     region that an operation owns while it works on it.
--   Framebuffer: drivers/src/framebuffer. The state of framebuffer_t with its clip stack and dirty
--     rectangles, and single pixels in memory; Color holds fb_pixel.h's conversions and the blending
--     of framebuffer.c, Fill fb_fill_rect, Line fb_draw_hline, Segment the other straight lines and
--     fb_isqrt, Shape circles, thick lines and arcs, Area rounded rectangles, triangles, gradients,
--     blended areas and fb_clear, Font the two fonts, Text characters and strings, Blit bitmaps, Screen
--     copying and scrolling, GameBoy the Game Boy pictures, Present initialisation and presenting. An
--     int32_t is its bit pattern, compared as a signed number, and its sums and products wrap around,
--     also where C leaves an overflow undefined. Canvas is the state that drawing passes on.
--   Framebuffer.Canvas.Paints: what a drawing may touch, and that every function keeps to it.
--     Framebuffer.Command is the type of the drawing calls, and Command.Session a step relation for
--     sequences of them with the calls for clip and dirty rectangles. Command.Session.Flips is the
--     relation for drawing and presenting with the actions on the hardware, and Session.Frames is
--     about it after fb_init_with_size.
--   Ui: ui/src/core/ui_types.h and ui/src/themes/ui_theme.h, the rectangle and the themes, with
--     Rect the functions on rectangles and Overlap the points of their results. Ui.Text holds the
--     text helpers of ui/src/widgets/ui_widgets.c, Widgets, Gauges and Items its widgets,
--     Ui.Widget the type of the widget calls. Paints, Drawn, Legible and Returns are about the
--     memory that a widget writes and about its end, Label about the shortened label of a list
--     item, Bars about the thumb of a scrollbar and the fill of a progress bar. A text is an
--     address in the memory that is drawn on, the hints of a help bar are a list, and the buffer
--     and the text ">" of a list item stand at addresses that are arguments.
--
-- Bounds and fuel: a size_t has 64 bits, so size_class needs at most 64 rounds; the bitmap has 32
-- digits, so the search for its lowest digit needs at most 32. strlen, strcmp and strcpy read up to a
-- NUL and take fuel; one more than the text's length is enough. Addresses in string.c are not wrapped
-- around, as the regions lie in the address space. A line of the framebuffer needs one round more than
-- its extents together, a circle three more than its radius, fb_isqrt 33 rounds, a string one more than
-- its length, and a widget as much as its texts and its outline, and 256 rounds for a shortened label;
-- a drawing without fuel is none, and so is a filled triangle whose loop over the rows has no end as
-- its bound is the last signed number. The loops of the other functions are bounded by their
-- count.
--
-- Parameters: the linker symbol __heap_start is an argument of heap_init; the VideoCore mailbox is an
-- argument of fb_init_with_size, a function from a message to success and an answer. The screen's default
-- size is 640 by 480, two buffers are used, and the mailbox of the BCM platforms is assumed.
--
-- Not modelled: barriers, cache maintenance and the vertical blank beyond the order in which they are
-- called; the colour helpers of ui_types.h, ui_canvas.h, the drivers of the two
-- chips, the HAL headers and kernel_main (later components of this library); boot assembly, linker
-- scripts and board files; and the Rust sources, which are a second implementation of the same
-- parts.
pub mod Common
pub mod Word
pub mod Memory
pub mod CString
pub mod Allocator
pub mod Framebuffer
pub mod Ui
