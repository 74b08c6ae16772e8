-- ===== src/Allocator.antt =====
-- memory/src/allocator.c and allocator.h: the kernel's heap, a segregated-fit allocator over raw
-- memory. `Block` models the header and footer words, `SizeClass` the size classes, `FreeList` the
-- doubly linked free lists and their bitmap, `Merge` splitting and coalescing, and `Api` the public
-- functions. `Tiling` and `Heap` hold the abstract heap that these refine.
pub mod Block
pub mod SizeClass
pub mod FreeList
pub mod Merge
pub mod Api
pub mod Tiling
pub mod Heap
pub mod Global
mod Tests
