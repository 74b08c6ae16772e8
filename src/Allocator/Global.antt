-- ===== src/Allocator/Global.antt =====
-- memory/src/allocator.c: the heap_ functions, which call the allocator on the one global instance. The
-- linker symbol __heap_start is a parameter.
use tutorial_os.Common.{ℕ, ◌+◌, ◌-◌, ◌*◌, ◌/◌, ◌≤◌, ◌<◌, ◌^◌, ◌≡◌, refl, true, [], ◌∷◌, arith}
use tutorial_os.Word.{add64, sub64}
use tutorial_os.Memory.{Memory}
use tutorial_os.Allocator.Block.{min_align}
use tutorial_os.Allocator.FreeList.{State}
use tutorial_os.Allocator.Api.{
  jit_size, Regions, allocator_init_from_ram, allocator_alloc, allocator_free, allocator_realloc,
}
use tutorial_os.Allocator.Tiling.{block}
use tutorial_os.Allocator.Heap.{Heap}
use tutorial_os.Allocator.Heap.Init.{allocator_init_lem}

pub heap_init : Memory → ℕ → ℕ → ℕ → State
heap_init m heap_symbol ram_base ram_size =
    (allocator_init_from_ram m ram_base ram_size heap_symbol).1

unfoldable heap_alloc : State → ℕ → ℕ × State
heap_alloc s size = allocator_alloc s size min_align

unfoldable heap_alloc_aligned : State → ℕ → ℕ → ℕ × State
heap_alloc_aligned s size align = allocator_alloc s size align

unfoldable heap_free : State → ℕ → State
heap_free s ptr = allocator_free s ptr

unfoldable heap_realloc : State → ℕ → ℕ → ℕ × State
heap_realloc s ptr size = allocator_realloc s ptr size

-- What the layout of RAM promises: the heap's end is where the JIT region starts, which is the last
-- 4 MiB of RAM.
pub record Laid (r : Regions) (heap_symbol ram_end : ℕ) : Type 0 where
  pub heap_start : r.heap_start ≡ heap_symbol
  pub adjacent : r.heap_end ≡ r.jit_start
  pub jit : r.jit_start + jit_size ≡ r.jit_end
  pub top : r.jit_end ≡ ram_end

-- Where RAM ends below 2 ^ 64 and at 4 MiB at least, the linker symbol is at least 16, and 32 bytes
-- are left between the symbol and the last 4 MiB once both are aligned, heap_init reserves these
-- 4 MiB of RAM for the JIT and makes the rest, from the linker symbol on, a represented heap of one
-- free block.
pub heap_init_lem :
    (m : Memory) (heap_symbol ram_base ram_size : ℕ)
    → ram_base + ram_size < 2 ^ 64
    → jit_size ≤ ram_base + ram_size
    → 16 ≤ heap_symbol
    → let start = (heap_symbol + 7) / 8 * 8 in
      let end = (ram_base + ram_size - jit_size) / 8 * 8 in
      start + 32 ≤ end
      → Laid
          (allocator_init_from_ram m ram_base ram_size heap_symbol).0
          heap_symbol
          (ram_base + ram_size)
        × Heap (heap_init m heap_symbol ram_base ram_size) (block (end - start) true ∷ [])
unfolding heap_init allocator_init_from_ram
heap_init_lem m h base size fits jit low room =
    let e : add64 base size ≡ base + size = omega arith in
    let f : sub64 (add64 base size) jit_size ≡ base + size - jit_size = omega arith in
    (
      record { heap_start = refl; adjacent = refl; jit = omega arith; top = e },
      rw f (allocator_init_lem m h (base + size - jit_size) low (omega arith) room).0,
    )
