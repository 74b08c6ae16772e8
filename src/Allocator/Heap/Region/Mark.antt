-- ===== src/Allocator/Heap/Region/Mark.antt =====
-- mark_next: the PREV_FREE flag of the block behind the region.
use tutorial_os.Common.{
  ℕ, ◌+◌, ◌-◌, ◌≤◌, ◌<◌, ◌^◌, ◌≡◌, ◌⊎◌, inl, inr, refl, ◌∙◌, Bool, false, List, [], ◌∷◌, arith,
  lt→ltb, le→ltb_false,
}
use tutorial_os.Memory.{store64}
use tutorial_os.Memory.Laws.{Apart, load64-store64_self, load64-store64-Apart}
use tutorial_os.Memory.Writes.{Writes-store64}
use tutorial_os.Allocator.Block.{block_next}
use tutorial_os.Allocator.Block.Header.{header, size-lt, block_set_prev_free_lem}
use tutorial_os.Allocator.FreeList.{State}
use tutorial_os.Allocator.FreeList.Listing.{SameBounds}
use tutorial_os.Allocator.Merge.{mark_next}
use tutorial_os.Allocator.Tiling.{Block, HasBlock}
use tutorial_os.Allocator.Tiling.Place.{Tiled-le}
use tutorial_os.Allocator.Tiling.Frame.{Tiled-Writes}
use tutorial_os.Allocator.Heap.{FreeAround, Around}
use tutorial_os.Allocator.Heap.Region.{Listing-frame, Around-bounds}
use tutorial_os.Allocator.Heap.Region.Grow.{Grown}

SameBounds-refl : (s : State) → SameBounds s.alloc s.alloc
SameBounds-refl s = record {
  heap_start = refl;
  heap_end = refl;
  allocated = refl;
  free_space = refl;
  initialized = refl;
}

mark_at_end :
    (s : State) (b x z : ℕ) (v : Bool)
    → block_next s.mem b ≡ z
    → z ≡ s.alloc.heap_end
    → mark_next s b v ≡ s
unfolding mark_next
mark_at_end s b x z v e at = rw e (rw (le→ltb_false z s.alloc.heap_end (omega arith)))

mark_block :
    (s : State) (b z : ℕ) (v q : Bool) (c : Block)
    → block_next s.mem b ≡ z
    → z < s.alloc.heap_end
    → HasBlock s.mem z q c
    → mark_next s b v ≡ record s { mem = store64 s.mem z (header c.size c.free v) }
unfolding mark_next
mark_block s b z v q c e lt hb =
    rw e (rw (lt→ltb z s.alloc.heap_end lt) (rw (block_set_prev_free_lem hb.head v)))

-- The block behind the region is told `v`; nothing inside the region changes.
pub mark_next_lem :
    (s : State) (pre : List Block) (b x z : ℕ) (v q : Bool) (post : List Block)
    → Around s pre x z q post
    → block_next s.mem b ≡ z
    → Around (mark_next s b v) pre x z v post
      × Grown s (mark_next s b v) x z
      × ((mark_next s b v).alloc ≡ s.alloc)
mark_next_lem s pre b x z v q [] h e = rw (mark_at_end s b x z v e h.back) (
  record {
    low = h.low;
    high = h.high;
    order = h.order;
    front = h.front;
    back = h.back;
    chains = h.chains;
    listing = h.listing;
  },
  record { words = λ w lo hi. refl; bounds = SameBounds-refl s },
  refl,
)
mark_next_lem s pre b x z v q (c ∷ post) h e =
    let end = s.alloc.heap_end in
    let start = s.alloc.heap_start in
    let (hb, rest) = h.back in
    let behind : z + c.size ≤ end = Tiled-le s.mem (z + c.size) c.free post end rest in
    let val = header c.size c.free v in
    let m' = store64 s.mem z val in
    rw (mark_block s b z v q c e (omega (arith, hb.big)) hb) (
      record {
        low = h.low;
        high = h.high;
        order = h.order;
        front =
            Tiled-Writes s.mem m' (z ∷ []) start false pre x h.front (Writes-store64 s.mem z val)
              (λ w lo hi. (omega (arith, h.order), tt));
        back = (
          record {
            head = record {
              word = load64-store64_self s.mem z val (header-lt c.size c.free v (size-lt hb.head));
              aligned = hb.head.aligned;
            };
            big = hb.big;
            foot = λ k.
                load64-store64-Apart s.mem z val (z + c.size - 8) (omega (arith, hb.big))
                ∙ hb.foot k;
          },
          Tiled-Writes s.mem m' (z ∷ []) (z + c.size) c.free post end rest
              (Writes-store64 s.mem z val) (λ w lo hi. (omega (arith, hb.big), tt)),
        );
        chains = h.chains;
        listing =
            Listing-frame (record s { mem = m' }) h.listing refl refl
              (λ y u f. (
                load64-store64-Apart s.mem z val (y + 8)
                    (link_apart y u 8 f (omega arith) (omega arith)),
                load64-store64-Apart s.mem z val (y + 16)
                    (link_apart y u 16 f (omega arith) (omega arith)),
              ));
      },
      record {
        words = λ w lo hi. load64-store64-Apart s.mem z val w (omega arith);
        bounds = SameBounds-refl s;
      },
      refl,
    )
  where
    header-lt : (size : ℕ) (f v : Bool) → size + 4 < 2 ^ 64 → header size f v < 2 ^ 64
    header-lt size f v h = ground arith

    link_apart :
        (y u k : ℕ)
        → FreeAround s.alloc.heap_start pre z (c ∷ post) y u
        → 8 ≤ k
        → k ≤ 16
        → Apart 8 z 8 (y + k)
    link_apart y u k f lo hi =
        let (_, _, large, side) = Around-bounds h y u f in far y u k large lo hi side
      where
        far : (y u k : ℕ) → 32 ≤ u → 8 ≤ k → k ≤ 16 → (y + u ≤ x) ⊎ (z ≤ y) → Apart 8 z 8 (y + k)
        far y u k large lo hi (inl d) = inr (omega (arith, h.order))
        far y u k large lo hi (inr d) = inl (omega arith)
