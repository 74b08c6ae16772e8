-- ===== src/Allocator/Heap/Region/Give.antt =====
-- Giving the right end of the region back, as a free block or as a taken one, and telling the block
-- behind the region what stands in front of it.
use tutorial_os.Common.{
  ℕ, ◌+◌, ◌≤◌, ◌<◌, ◌^◌, ◌≡◌, ◌⊎◌, inl, inr, refl, ◌∙◌, sym, Bool, true, false, List, ◌∷◌, arith,
}
use tutorial_os.Allocator.Block.Header.{block_size_lem}
use tutorial_os.Allocator.FreeList.{State, insert_into_free_list}
use tutorial_os.Allocator.FreeList.Chain.{Far}
use tutorial_os.Allocator.FreeList.Listing.{Blocks, Sparse, With}
use tutorial_os.Allocator.FreeList.Inserted.{insert-Listing}
use tutorial_os.Allocator.Tiling.{Block, block, HasBlock}
use tutorial_os.Allocator.Heap.{FreeAround, Around}
use tutorial_os.Allocator.Heap.Region.{Listing-iff, Around-ends, Around-bounds, Around-Sparse}
use tutorial_os.Allocator.Heap.Region.Grow.{Grown, Grown-of, Around_of}

module _ (s : State) (pre : List Block) (x r t : ℕ) (post : List Block)
    (h : Around s pre x (r + t) true post) (inside : x ≤ r) (big : 32 ≤ t) where
  abbrev F : Blocks
  F = FreeAround s.alloc.heap_start pre (r + t) post

  given_Far : (y u : ℕ) → F y u → Far r y
  given_Far y u f = let (_, _, large, side) = Around-bounds h y u f in far y u large side
    where
      far : (y u : ℕ) → 32 ≤ u → (y + u ≤ x) ⊎ (r + t ≤ y) → Far r y
      far y u large (inl k) = inr (omega arith)
      far y u large (inr k) = inl (omega arith)

  given-Sparse : Sparse (With F r t)
  given-Sparse = record {
    apart = λ y u w v f g. both y u w v f g;
    low = λ y u f. low y u f;
    high = λ y u f. high y u f;
    big = λ y u f. large y u f;
  }
    where
      both : (y u w v : ℕ) → With F r t y u → With F r t w v → ((y ≡ w) × (u ≡ v)) ⊎ Far y w
      both y u w v (inl f) (inl g) = (Around-Sparse h).apart y u w v f g
      both y u w v (inl f) (inr (ew, _)) =
          inr (elim (given_Far y u f) [ inl k ↦ inr (omega arith) | inr k ↦ inl (omega arith) ])
      both y u w v (inr (ey, _)) (inl g) =
          inr (elim (given_Far w v g) [ inl k ↦ inl (omega arith) | inr k ↦ inr (omega arith) ])
      both y u w v (inr (ey, eu)) (inr (ew, ev)) = inl (ey ∙ sym ew, eu ∙ sym ev)

      low : (y u : ℕ) → With F r t y u → 16 ≤ y
      low y u (inl f) = (Around-Sparse h).low y u f
      low y u (inr (ey, _)) = omega (arith, h.low, Around-ends h)

      high : (y u : ℕ) → With F r t y u → y + u < 2 ^ 64
      high y u (inl f) = (Around-Sparse h).high y u f
      high y u (inr (ey, eu)) = omega (arith, h.high, Around-ends h)

      large : (y u : ℕ) → With F r t y u → 32 ≤ u
      large y u (inl f) = (Around-Sparse h).big y u f
      large y u (inr (ey, eu)) = omega arith

  given_fresh : (u : ℕ) → ¬ F r u
  given_fresh u f = let (_, _, large, side) = Around-bounds h r u f in no_room u large side
    where
      no_room : (u : ℕ) → 32 ≤ u → ¬ ((r + u ≤ x) ⊎ (r + t ≤ r))
      no_room u large (inl k) = omega arith
      no_room u large (inr k) = omega arith

  from : (y u : ℕ) → With F r t y u → FreeAround s.alloc.heap_start pre r (block t true ∷ post) y u
  from y u (inl (inl f)) = inl f
  from y u (inl (inr f)) = inr (inr f)
  from y u (inr (ey, eu)) = inr (inl (ey, eu, refl))

  to : (y u : ℕ) → FreeAround s.alloc.heap_start pre r (block t true ∷ post) y u → With F r t y u
  to y u (inl f) = inl (inl f)
  to y u (inr (inl (ey, eu, _))) = inr (ey, eu)
  to y u (inr (inr f)) = inl (inr f)

  out : (y u : ℕ) → With F r t y u → (32 ≤ u) × ((y + u ≤ x) ⊎ (r ≤ y))
  out y u (inl f) =
      let (_, _, large, side) = Around-bounds h y u f in
      (large, elim side [ inl k ↦ inl k | inr k ↦ inr (omega arith) ])
  out y u (inr (ey, eu)) = (omega arith, inr (omega arith))

-- A free block at the right end is put into the lists.
pub give_free :
    (s : State) (pre : List Block) (x r t : ℕ) (g : Bool) (post : List Block)
    → Around s pre x (r + t) true post
    → x ≤ r
    → HasBlock s.mem r g (block t true)
    → Around (insert_into_free_list s r) pre x r g (block t true ∷ post)
      × Grown s (insert_into_free_list s r) x r
give_free s pre x r t g post h inside hb =
    let start = s.alloc.heap_start in
    let (chains, l, o, b) =
      insert-Listing s (FreeAround start pre (r + t) post) h.chains r t h.listing
        (given-Sparse s pre x r t post h inside hb.big)
        (given_fresh s pre x r t post h inside hb.big) (block_size_lem hb.head) in
    (
      Around_of s (insert_into_free_list s r) pre x r g (block t true ∷ post)
          (With (FreeAround start pre (r + t) post) r t) chains h.low h.high inside h.front
          (hb, h.back) o b l (from s pre x r t post h inside hb.big)
          (to s pre x r t post h inside hb.big),
      Grown-of s (insert_into_free_list s r) (With (FreeAround start pre (r + t) post) r t) x r
          (omega (arith, h.low, Around-ends h)) o b (out s pre x r t post h inside hb.big),
    )

-- A taken block at the right end needs only its header.
pub give_taken :
    (s : State) (pre : List Block) (x r t : ℕ) (g : Bool) (post : List Block)
    → Around s pre x (r + t) false post
    → x ≤ r
    → HasBlock s.mem r g (block t false)
    → Around s pre x r g (block t false ∷ post)
give_taken s pre x r t g post h inside hb = record {
  low = h.low;
  high = h.high;
  order = inside;
  front = h.front;
  back = (hb, h.back);
  chains = h.chains;
  listing =
      Listing-iff (FreeAround s.alloc.heap_start pre r (block t false ∷ post)) h.listing give keep;
}
  where
    give :
        (y u : ℕ)
        → FreeAround s.alloc.heap_start pre (r + t) post y u
        → FreeAround s.alloc.heap_start pre r (block t false ∷ post) y u
    give y u (inl f) = inl f
    give y u (inr f) = inr (inr f)

    keep :
        (y u : ℕ)
        → FreeAround s.alloc.heap_start pre r (block t false ∷ post) y u
        → FreeAround s.alloc.heap_start pre (r + t) post y u
    keep y u (inl f) = inl f
    keep y u (inr (inl (_, _, e))) = cc
    keep y u (inr (inr f)) = inr f

-- A taken block that stands right behind the region joins it.
pub own_taken :
    (s : State) (pre : List Block) (x z t : ℕ) (q : Bool) (post : List Block)
    → Around s pre x z q (block t false ∷ post)
    → Around s pre x (z + t) false post
own_taken s pre x z t q post h = record {
  low = h.low;
  high = h.high;
  order = omega (arith, h.order);
  front = h.front;
  back = h.back.1;
  chains = h.chains;
  listing = Listing-iff (FreeAround s.alloc.heap_start pre (z + t) post) h.listing give keep;
}
  where
    give :
        (y u : ℕ)
        → FreeAround s.alloc.heap_start pre z (block t false ∷ post) y u
        → FreeAround s.alloc.heap_start pre (z + t) post y u
    give y u (inl f) = inl f
    give y u (inr (inl (_, _, e))) = cc
    give y u (inr (inr f)) = inr f

    keep :
        (y u : ℕ)
        → FreeAround s.alloc.heap_start pre (z + t) post y u
        → FreeAround s.alloc.heap_start pre z (block t false ∷ post) y u
    keep y u (inl f) = inl f
    keep y u (inr f) = inr (inr f)
