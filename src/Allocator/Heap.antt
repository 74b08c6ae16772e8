-- ===== src/Allocator/Heap.antt =====
-- The invariant of the whole allocator, against the abstract heap, and the invariant with a hole: a
-- region of the heap that an operation owns while it works on it.
pub mod Region
pub mod Fresh
pub mod Split
pub mod Seal
pub mod Take
pub mod Join
pub mod JoinLeft
pub mod Release
pub mod Balance
pub mod Free
pub mod Init
pub mod Alloc
pub mod Return
pub mod Payload
use tutorial_os.Common.{ℕ, ◌+◌, ◌%◌, ◌≤◌, ◌<◌, ◌^◌, ◌≡◌, ◌⊎◌, Bool, true, false, List}
use tutorial_os.Memory.{Memory}
use tutorial_os.Allocator.FreeList.{Allocator, State}
use tutorial_os.Allocator.FreeList.Listing.{Blocks, Listing}
use tutorial_os.Allocator.Tiling.{Block, Tiled, FreeAt, taken_bytes, free_bytes, Merged}

-- The state `s` represents the heap `bs`.
pub record Heap (s : State) (bs : List Block) : Type 0 where
  pub ready : s.alloc.initialized ≡ true
  pub low : 16 ≤ s.alloc.heap_start
  pub high : s.alloc.heap_end < 2 ^ 64
  pub aligned : s.alloc.heap_start % 8 ≡ 0
  pub tiled : Tiled s.mem s.alloc.heap_start false bs s.alloc.heap_end
  pub merged : Merged false bs
  pub chains : ℕ → List ℕ
  pub listing : Listing s (FreeAt s.alloc.heap_start bs) chains
  pub taken : s.alloc.allocated ≡ taken_bytes bs
  pub spare : s.alloc.free_space ≡ free_bytes bs

-- the free blocks on the two sides of a hole
abbrev pub FreeAround : ℕ → List Block → ℕ → List Block → Blocks
FreeAround a pre z post y u = FreeAt a pre y u ⊎ FreeAt z post y u

-- The heap but for the bytes from `x` up to `z`; `q` is what the block at `z` says of the one in front.
pub record Around (s : State) (pre : List Block) (x z : ℕ) (q : Bool) (post : List Block)
    : Type 0 where
  pub low : 16 ≤ s.alloc.heap_start
  pub high : s.alloc.heap_end < 2 ^ 64
  pub order : x ≤ z
  pub front : Tiled s.mem s.alloc.heap_start false pre x
  pub back : Tiled s.mem z q post s.alloc.heap_end
  pub chains : ℕ → List ℕ
  pub listing : Listing s (FreeAround s.alloc.heap_start pre z post) chains
