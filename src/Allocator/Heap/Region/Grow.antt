-- ===== src/Allocator/Heap/Region/Grow.antt =====
-- A free neighbour joins the region: it leaves its list, and its bytes are the operation's.
use tutorial_os.Common.{
  ℕ, ◌+◌, ◌≤◌, ◌<◌, ◌^◌, ◌≡◌, ◌≢◌, ◌⊎◌, inl, inr, refl, sym, subst, Bool, true, false, List, [],
  ◌∷◌, ◌++◌, arith,
}
use tutorial_os.Memory.{load64}
use tutorial_os.Memory.Laws.{Apart}
use tutorial_os.Allocator.Block.Header.{block_size_lem}
use tutorial_os.Allocator.FreeList.{State, remove_from_free_list}
use tutorial_os.Allocator.FreeList.Listing.{
  Blocks, Listing, OnlyLinks, OnlyLinks-load64, SameBounds, Without,
}
use tutorial_os.Allocator.FreeList.Removed.{remove-Listing}
use tutorial_os.Allocator.Tiling.{Block, block, Tiled, FreeAt, stop, last_free}
use tutorial_os.Allocator.Tiling.Place.{
  FreeAt-bounds, Tiled-le, Tiled-split, FreeAt-split, FreeAt-join,
}
use tutorial_os.Allocator.Tiling.Frame.{Tiled-OnlyLinks}
use tutorial_os.Allocator.Heap.{FreeAround, Around}
use tutorial_os.Allocator.Heap.Region.{Listing-iff, Around-ends, Around-Sparse}

-- what removing a neighbour leaves alone: the words of the enlarged region, the bounds and statistics
pub record Grown (s s' : State) (x z : ℕ) : Type 0 where
  pub words : (w : ℕ) → x ≤ w → w + 8 ≤ z → load64 s'.mem w ≡ load64 s.mem w
  pub bounds : SameBounds s.alloc s'.alloc

-- The blocks that are left lie outside the enlarged region.
pub Grown-of :
    (s s' : State) (F : Blocks) (x z : ℕ)
    → 16 ≤ x
    → OnlyLinks F s.mem s'.mem
    → SameBounds s.alloc s'.alloc
    → ((y u : ℕ) → F y u → (32 ≤ u) × ((y + u ≤ x) ⊎ (z ≤ y)))
    → Grown s s' x z
Grown-of s s' F x z low o b out = record {
  words = λ w lo hi.
      OnlyLinks-load64 F s.mem s'.mem w o (λ y u f. apart w y u lo hi (out y u f).0 (out y u f).1);
  bounds = b;
}
  where
    apart : (w y u : ℕ) → x ≤ w → w + 8 ≤ z → 32 ≤ u → (y + u ≤ x) ⊎ (z ≤ y) → Apart 16 (y + 8) 8 w
    apart w y u lo hi big (inl k) = inl (omega arith)
    apart w y u lo hi big (inr k) = inr (omega arith)

-- Both tilings and the lists of a hole survive the removal.
pub Around_of :
    (s s' : State) (pre : List Block) (x z : ℕ) (q : Bool) (post : List Block) (F : Blocks)
    (chains : ℕ → List ℕ)
    → 16 ≤ s.alloc.heap_start
    → s.alloc.heap_end < 2 ^ 64
    → x ≤ z
    → Tiled s.mem s.alloc.heap_start false pre x
    → Tiled s.mem z q post s.alloc.heap_end
    → OnlyLinks F s.mem s'.mem
    → SameBounds s.alloc s'.alloc
    → Listing s' F chains
    → ((y u : ℕ) → F y u → FreeAround s.alloc.heap_start pre z post y u)
    → ((y u : ℕ) → FreeAround s.alloc.heap_start pre z post y u → F y u)
    → Around s' pre x z q post
Around_of s s' pre x z q post F chains low high order front back o b l from to = record {
  low = rw b.heap_start low;
  high = rw b.heap_end high;
  order = order;
  front = rw b.heap_start (
      Tiled-OnlyLinks F s.mem s'.mem s.alloc.heap_start false pre x front low o
        (λ y u f. in_front y u (from y u f)) (λ y u f. large y u (from y u f)));
  back = rw b.heap_end (
      Tiled-OnlyLinks F s.mem s'.mem z q post s.alloc.heap_end back (omega (arith, low, front_le)) o
        (λ y u f. behind y u (from y u f)) (λ y u f. large y u (from y u f)));
  chains = chains;
  listing =
      subst (λ a. Listing s' (FreeAround a pre z post) chains) (sym b.heap_start)
        (Listing-iff (FreeAround s.alloc.heap_start pre z post) l from to);
}
  where
    front_le : s.alloc.heap_start ≤ x
    front_le = Tiled-le s.mem s.alloc.heap_start false pre x front

    large : (y u : ℕ) → FreeAround s.alloc.heap_start pre z post y u → 32 ≤ u
    large y u (inl f) = (FreeAt-bounds s.mem s.alloc.heap_start false pre x y u front f).2
    large y u (inr f) = (FreeAt-bounds s.mem z q post s.alloc.heap_end y u back f).2

    in_front :
        (y u : ℕ)
        → FreeAround s.alloc.heap_start pre z post y u
        → FreeAt s.alloc.heap_start pre y u ⊎ (y + u ≤ s.alloc.heap_start) ⊎ (x ≤ y)
    in_front y u (inl f) = inl f
    in_front y u (inr f) =
        inr (inr (omega (arith, (FreeAt-bounds s.mem z q post s.alloc.heap_end y u back f).0)))

    behind :
        (y u : ℕ)
        → FreeAround s.alloc.heap_start pre z post y u
        → FreeAt z post y u ⊎ (y + u ≤ z) ⊎ (s.alloc.heap_end ≤ y)
    behind y u (inl f) =
        inr
          (inl (omega (arith, (FreeAt-bounds s.mem s.alloc.heap_start false pre x y u front f).1)))
    behind y u (inr f) = inl f

-- The next block is free: the region takes it in.
pub grow_right :
    (s : State) (pre : List Block) (x z : ℕ) (q : Bool) (u : ℕ) (post : List Block)
    → Around s pre x z q (block u true ∷ post)
    → Around (remove_from_free_list s z) pre x (z + u) true post
      × Grown s (remove_from_free_list s z) x (z + u)
grow_right s pre x z q u post h =
    let start = s.alloc.heap_start in
    let F = FreeAround start pre z (block u true ∷ post) in
    let (chains, l, o, b) =
      remove-Listing s F h.chains z u (Around-Sparse h) h.listing (inr (inl (refl, refl, refl)))
        (block_size_lem h.back.0.head) in
    (
      Around_of s (remove_from_free_list s z) pre x (z + u) true post (Without F z) chains h.low
          h.high (omega (arith, h.order)) h.front h.back.1 o b l (λ y w f. from y w f.0 f.1) to,
      Grown-of s (remove_from_free_list s z) (Without F z) x (z + u)
          (omega (arith, h.low, Around-ends h)) o b (λ y w f. out y w (from y w f.0 f.1)),
    )
  where
    from :
        (y w : ℕ)
        → FreeAround s.alloc.heap_start pre z (block u true ∷ post) y w
        → y ≢ z
        → FreeAround s.alloc.heap_start pre (z + u) post y w
    from y w (inl f) ne = inl f
    from y w (inr (inl (e, _, _))) ne = absurd (ne e)
    from y w (inr (inr f)) ne = inr f

    to :
        (y w : ℕ)
        → FreeAround s.alloc.heap_start pre (z + u) post y w
        → Without (FreeAround s.alloc.heap_start pre z (block u true ∷ post)) z y w
    to y w (inl f) =
        let (_, hi, big, _) = FreeAt-bounds s.mem s.alloc.heap_start false pre x y w h.front f in
        (inl f, λ e. omega (arith, h.order))
    to y w (inr f) =
        let (lo, _, _, _) = FreeAt-bounds s.mem (z + u) true post s.alloc.heap_end y w h.back.1 f in
        (inr (inr f), λ e. omega (arith, h.back.0.big))

    out :
        (y w : ℕ)
        → FreeAround s.alloc.heap_start pre (z + u) post y w
        → (32 ≤ w) × ((y + w ≤ x) ⊎ (z + u ≤ y))
    out y w (inl f) =
        let (_, hi, big, _) = FreeAt-bounds s.mem s.alloc.heap_start false pre x y w h.front f in
        (big, inl hi)
    out y w (inr f) =
        let (lo, _, big, _) =
          FreeAt-bounds s.mem (z + u) true post s.alloc.heap_end y w h.back.1 f in
        (big, inr lo)

-- The previous block is free: the region takes it in.
pub grow_left :
    (s : State) (pre : List Block) (v x z : ℕ) (q : Bool) (post : List Block)
    → Around s (pre ++ block v true ∷ []) x z q post
    → let y = stop s.alloc.heap_start pre in
      (y + v ≡ x)
      × Around (remove_from_free_list s y) pre y z q post
      × Grown s (remove_from_free_list s y) y z
grow_left s pre v x z q post h =
    let start = s.alloc.heap_start in
    let F = FreeAround start (pre ++ block v true ∷ []) z post in
    let (front, (hb, here)) = parts in
    let (chains, l, o, b) =
      remove-Listing s F h.chains (stop start pre) v (Around-Sparse h) h.listing
        (inl (
          FreeAt-join start pre (block v true ∷ []) (stop start pre) v
            (inr (inl (refl, refl, refl)))))
        (block_size_lem hb.head) in
    (
      here,
      Around_of s (remove_from_free_list s (stop start pre)) pre (stop start pre) z q post
          (Without F (stop start pre)) chains h.low h.high (omega (arith, h.order)) front h.back o b
          l (λ y w f. from y w f.0 f.1) to,
      Grown-of s (remove_from_free_list s (stop start pre)) (Without F (stop start pre))
          (stop start pre) z
          (omega (arith, h.low, Tiled-le s.mem start false pre (stop start pre) front)) o b
          (λ y w f. out y w (from y w f.0 f.1)),
    )
  where
    parts :
        Tiled s.mem s.alloc.heap_start false pre (stop s.alloc.heap_start pre)
        × Tiled s.mem (stop s.alloc.heap_start pre) (last_free false pre) (block v true ∷ []) x
    parts = Tiled-split s.mem s.alloc.heap_start false pre (block v true ∷ []) x h.front

    from :
        (y w : ℕ)
        → FreeAround s.alloc.heap_start (pre ++ block v true ∷ []) z post y w
        → y ≢ stop s.alloc.heap_start pre
        → FreeAround s.alloc.heap_start pre z post y w
    from y w (inl f) ne = elim (FreeAt-split s.alloc.heap_start pre (block v true ∷ []) y w f) [
      | inl g ↦ inl g
      | inr g ↦ elim g [ inl k ↦ absurd (ne k.0) | inr k ↦ absurd k ]
    ]
    from y w (inr f) ne = inr f

    to :
        (y w : ℕ)
        → FreeAround s.alloc.heap_start pre z post y w
        → Without
            (FreeAround s.alloc.heap_start (pre ++ block v true ∷ []) z post)
            (stop s.alloc.heap_start pre)
            y
            w
    to y w (inl f) =
        let (_, hi, big, _) =
          FreeAt-bounds s.mem s.alloc.heap_start false pre (stop s.alloc.heap_start pre) y w parts.0
            f in
        (inl (FreeAt-join s.alloc.heap_start pre (block v true ∷ []) y w (inl f)), λ e. omega arith)
    to y w (inr f) =
        let (lo, _, _, _) = FreeAt-bounds s.mem z q post s.alloc.heap_end y w h.back f in
        (inr f, λ e. omega (arith, h.order, parts.1.0.big, parts.1.1))

    out :
        (y w : ℕ)
        → FreeAround s.alloc.heap_start pre z post y w
        → (32 ≤ w) × ((y + w ≤ stop s.alloc.heap_start pre) ⊎ (z ≤ y))
    out y w (inl f) =
        let (_, hi, big, _) =
          FreeAt-bounds s.mem s.alloc.heap_start false pre (stop s.alloc.heap_start pre) y w parts.0
            f in
        (big, inl hi)
    out y w (inr f) =
        let (lo, _, big, _) = FreeAt-bounds s.mem z q post s.alloc.heap_end y w h.back f in
        (big, inr lo)
