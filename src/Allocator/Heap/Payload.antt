-- ===== src/Allocator/Heap/Payload.antt =====
-- Where an allocated payload lies, and allocator_realloc when the block is large enough.
use tutorial_os.Common.{
  ℕ, ◌+◌, ◌%◌, ◌≤◌, ◌<◌, ◌^◌, ◌≡◌, ◌≢◌, refl, subst, Bool, true, false, List, [], ◌∷◌, ◌++◌, arith,
  ne→==_false, le→leb,
}
use tutorial_os.Word.{sub64}
use tutorial_os.Memory.{Memory, null}
use tutorial_os.Allocator.Block.Header.{block_size_lem, block_from_payload_lem}
use tutorial_os.Allocator.SizeClass.{size_class}
use tutorial_os.Allocator.FreeList.{Allocator, State}
use tutorial_os.Allocator.Api.{block_size_needed, allocator_alloc, allocator_realloc}
use tutorial_os.Allocator.Api.Needed.{block_size_needed_lem}
use tutorial_os.Allocator.Tiling.{Block, block, Tiled, FreeAt, stop}
use tutorial_os.Allocator.Tiling.Place.{Tiled-split, Tiled-le}
use tutorial_os.Allocator.Heap.{Heap}
use tutorial_os.Allocator.Heap.Alloc.{Served-of}

stop_aligned :
    (m : Memory) (a : ℕ) (p : Bool) (pre : List Block) (e : ℕ)
    → Tiled m a p pre e
    → a % 8 ≡ 0
    → stop a pre % 8 ≡ 0
stop_aligned m a p [] e h al = al
stop_aligned m a p (b ∷ pre) e h al =
    stop_aligned m (a + b.size) b.free pre e h.1 (omega (arith, h.0.head.aligned))

-- the place of a block of the heap
record Placed (a : Allocator) (x t : ℕ) : Type 0 where
  aligned : x % 8 ≡ 0
  low : a.heap_start ≤ x
  high : x + t ≤ a.heap_end

Heap-Placed :
    (s : State) (pre : List Block) (b : Block) (post : List Block)
    → Heap s (pre ++ b ∷ post)
    → Placed s.alloc (stop s.alloc.heap_start pre) b.size
Heap-Placed s pre b post h =
    let start = s.alloc.heap_start in
    let (front, (hb, rest)) =
      Tiled-split s.mem start false pre (b ∷ post) s.alloc.heap_end h.tiled in
    record {
      aligned = stop_aligned s.mem start false pre (stop start pre) front h.aligned;
      low = Tiled-le s.mem start false pre (stop start pre) front;
      high = Tiled-le s.mem (stop start pre + b.size) b.free post s.alloc.heap_end rest;
    }

-- Under the conditions of allocator_alloc_lem, a pointer that an allocation returns is a multiple of
-- 8, and the bytes asked for lie between the heap's bounds, behind the first header.
pub alloc_within :
    (s : State) (bs : List Block) (size align : ℕ)
    → Heap s bs
    → 0 < size
    → size + 23 < 2 ^ 64
    → ((x t : ℕ)
        → FreeAt s.alloc.heap_start bs x t
        → size_class t ≡ size_class (block_size_needed size)
        → block_size_needed size ≤ t)
    → (allocator_alloc s size align).0 ≢ null
    → ((allocator_alloc s size align).0 % 8 ≡ 0)
      × (s.alloc.heap_start + 8 ≤ (allocator_alloc s size align).0)
      × ((allocator_alloc s size align).0 + size ≤ s.alloc.heap_end)
alloc_within s bs size align h pos room fits got =
    let v = Served-of s bs size align h pos room fits got in
    let k = block_size_needed_lem size room in
    let p = Heap-Placed s v.front (block v.bytes true) v.behind (subst (Heap s) v.place h) in
    (
      omega (arith, v.payload, p.aligned),
      omega (arith, v.payload, p.low),
      omega (arith, v.payload, p.high, v.fits, k.payload),
    )

-- Reallocating an allocated block to a size that its payload has room for returns the same pointer
-- and changes nothing.
pub realloc_in_place :
    (s : State) (pre : List Block) (t : ℕ) (post : List Block) (new_size : ℕ)
    → Heap s (pre ++ block t false ∷ post)
    → 0 < new_size
    → new_size + 8 ≤ t
    → let ptr = stop s.alloc.heap_start pre + 8 in allocator_realloc s ptr new_size ≡ (ptr, s)
unfolding allocator_realloc
realloc_in_place s pre t post n h pos room =
    let x = stop s.alloc.heap_start pre in
    let p = Heap-Placed s pre (block t false) post h in
    let hb =
      (Tiled-split s.mem s.alloc.heap_start false pre (block t false ∷ post) s.alloc.heap_end
        h.tiled).1.0 in
    let here = block_from_payload_lem x (omega (arith, h.high, p.high, hb.big)) in
    rw (ne→==_false (x + 8) 0 (λ e. omega arith), ne→==_false n 0 (λ e. omega arith))
      (rw here (
        rw (block_size_lem hb.head)
          (rw (le→leb n (sub64 t 8) (omega (arith, h.high, p.high))) refl)))
