-- ===== src/Allocator/Heap/Seal.antt =====
-- Between the invariant of the heap and the one with an empty region.
use tutorial_os.Common.{ℕ, ◌%◌, ◌≡◌, sym, subst, true, false, List, ◌++◌, arith}
use tutorial_os.Allocator.FreeList.{State}
use tutorial_os.Allocator.Tiling.{Block, FreeAt, stop, last_free, taken_bytes, free_bytes, Merged}
use tutorial_os.Allocator.Tiling.Place.{Tiled-split, Tiled-join, FreeAt-split, FreeAt-join}
use tutorial_os.Allocator.Heap.{Heap, FreeAround, Around}
use tutorial_os.Allocator.Heap.Region.{Listing-iff}

-- An operation may look at the heap as what stands before a point and what stands behind it.
pub unseal :
    (s : State) (pre bs : List Block)
    → Heap s (pre ++ bs)
    → let x = stop s.alloc.heap_start pre in Around s pre x x (last_free false pre) bs
unseal s pre bs h =
    let start = s.alloc.heap_start in
    let (front, back) = Tiled-split s.mem start false pre bs s.alloc.heap_end h.tiled in
    record {
      low = h.low;
      high = h.high;
      order = omega arith;
      front = front;
      back = back;
      chains = h.chains;
      listing =
          Listing-iff (FreeAround start pre (stop start pre) bs) h.listing
            (λ y u f. FreeAt-split start pre bs y u f) (λ y u f. FreeAt-join start pre bs y u f);
    }

-- Once the region is empty again, the two sides make up the heap.
pub seal :
    (s : State) (pre bs : List Block)
    → Around s pre
        (stop s.alloc.heap_start pre)
        (stop s.alloc.heap_start pre)
        (last_free false pre)
        bs
    → s.alloc.initialized ≡ true
    → s.alloc.heap_start % 8 ≡ 0
    → Merged false (pre ++ bs)
    → s.alloc.allocated ≡ taken_bytes (pre ++ bs)
    → s.alloc.free_space ≡ free_bytes (pre ++ bs)
    → Heap s (pre ++ bs)
seal s pre bs h ready aligned merged taken spare =
    let start = s.alloc.heap_start in
    record {
      ready = ready;
      low = h.low;
      high = h.high;
      aligned = aligned;
      tiled = Tiled-join s.mem start false pre bs s.alloc.heap_end h.front h.back;
      merged = merged;
      chains = h.chains;
      listing =
          Listing-iff (FreeAt start (pre ++ bs)) h.listing (λ y u f. FreeAt-join start pre bs y u f)
            (λ y u f. FreeAt-split start pre bs y u f);
      taken = taken;
      spare = spare;
    }

-- The same, where the operation has kept the heap's bounds.
pub seal_at :
    (s s' : State) (pre bs : List Block)
    → Around s' pre
        (stop s.alloc.heap_start pre)
        (stop s.alloc.heap_start pre)
        (last_free false pre)
        bs
    → s'.alloc.heap_start ≡ s.alloc.heap_start
    → s'.alloc.initialized ≡ true
    → s.alloc.heap_start % 8 ≡ 0
    → Merged false (pre ++ bs)
    → s'.alloc.allocated ≡ taken_bytes (pre ++ bs)
    → s'.alloc.free_space ≡ free_bytes (pre ++ bs)
    → Heap s' (pre ++ bs)
seal_at s s' pre bs h start ready aligned merged taken spare =
    seal s' pre bs
      (subst (λ a. Around s' pre (stop a pre) (stop a pre) (last_free false pre) bs) (sym start) h)
      ready (start_aligned s'.alloc.heap_start s.alloc.heap_start start aligned) merged taken spare
  where
    start_aligned : (a b : ℕ) → a ≡ b → b % 8 ≡ 0 → a % 8 ≡ 0
    start_aligned a b e h = omega arith
