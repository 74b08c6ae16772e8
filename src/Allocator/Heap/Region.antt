-- ===== src/Allocator/Heap/Region.antt =====
-- Rules for a region that an operation owns: how it grows, how it is written and given back.
pub mod Grow
pub mod Give
pub mod Mark
use tutorial_os.Common.{
  ℕ, ◌+◌, ◌-◌, ◌%◌, ◌≤◌, ◌<◌, ◌^◌, ◌≡◌, ◌≢◌, ◌⊎◌, inl, inr, refl, ◌∙◌, ap, sym, subst, Bool, true,
  false, List, [], ◌∷◌, ◌++◌, arith,
}
use tutorial_os.Memory.{Memory, null, load_byte, load64}
use tutorial_os.Memory.Laws.{Apart}
use tutorial_os.Memory.Writes.{Writes, Outside, Writes-load64}
use tutorial_os.Allocator.SizeClass.{num_size_classes, size_class}
use tutorial_os.Allocator.FreeList.{Allocator, State, head_of}
use tutorial_os.Allocator.FreeList.Bitmap.{HasBitmap}
use tutorial_os.Allocator.FreeList.Chain.{In, Chain, Far, Chain-frame}
use tutorial_os.Allocator.FreeList.Listing.{Blocks, Sparse, Listing, OnlyLinks}
use tutorial_os.Allocator.Tiling.{Block, HasBlock, Tiled, FreeAt}
use tutorial_os.Allocator.Tiling.Place.{FreeAt-bounds, FreeAt-apart, Tiled-le}
use tutorial_os.Allocator.Tiling.Frame.{Tiled-Writes}
use tutorial_os.Allocator.Heap.{FreeAround, Around}

-- The lists hold the same blocks by another name.
pub Listing-iff :
    {s : State} {F : Blocks} {chains : ℕ → List ℕ} (G : Blocks)
    → Listing s F chains
    → ((y u : ℕ) → F y u → G y u)
    → ((y u : ℕ) → G y u → F y u)
    → Listing s G chains
Listing-iff G l f g = record {
  bitmap = l.bitmap;
  chain = l.chain;
  once = l.once;
  sound = λ c x hc i. let (t, fx, e) = l.sound c x hc i in (t, f x t fx, e);
  complete = λ x t gx. l.complete x t (g x t gx);
}

-- Only the links, the list heads and the bitmap matter to the lists.
pub Listing-frame :
    {s : State} {F : Blocks} {chains : ℕ → List ℕ} (s' : State)
    → Listing s F chains
    → s'.alloc.free_lists ≡ s.alloc.free_lists
    → s'.alloc.free_bitmap ≡ s.alloc.free_bitmap
    → ((y u : ℕ)
        → F y u
        → (load64 s'.mem (y + 8) ≡ load64 s.mem (y + 8))
          × (load64 s'.mem (y + 16) ≡ load64 s.mem (y + 16)))
    → Listing s' F chains
Listing-frame {s} {F} {chains} s' l el eb same = record {
  bitmap = record {
    lists = rw el l.bitmap.lists;
    set_iff = λ c hc. rw (el, eb) (l.bitmap.set_iff c hc);
  };
  chain = λ c hc. rw el (
      Chain-frame s.mem s'.mem null (head_of s.alloc c) (chains c) (l.chain c hc)
        (λ b i. let (t, fb, _) = l.sound c b hc i in same b t fb));
  once = l.once;
  sound = l.sound;
  complete = l.complete;
}

module _ {s : State} {pre : List Block} {x z : ℕ} {q : Bool} {post : List Block}
    (h : Around s pre x z q post) where
  abbrev start : ℕ
  start = s.alloc.heap_start

  abbrev end : ℕ
  end = s.alloc.heap_end

  pub Around-ends : (start ≤ x) × (z ≤ end)
  Around-ends = (Tiled-le s.mem start false pre x h.front, Tiled-le s.mem z q post end h.back)

  -- where a listed block lies
  pub Around-bounds :
      (y u : ℕ)
      → FreeAround start pre z post y u
      → (start ≤ y) × (y + u ≤ end) × (32 ≤ u) × ((y + u ≤ x) ⊎ (z ≤ y))
  Around-bounds y u (inl f) =
      let (lo, hi, big, _) = FreeAt-bounds s.mem start false pre x y u h.front f in
      (lo, omega (arith, Around-ends, h.order), big, inl hi)
  Around-bounds y u (inr f) =
      let (lo, hi, big, _) = FreeAt-bounds s.mem z q post end y u h.back f in
      (omega (arith, Around-ends, h.order), hi, big, inr lo)

  across : (y u w v : ℕ) → FreeAt start pre y u → FreeAt z post w v → Far y w
  across y u w v f g =
      let (_, hi, big, _) = FreeAt-bounds s.mem start false pre x y u h.front f in
      let (lo, _, _, _) = FreeAt-bounds s.mem z q post end w v h.back g in
      inl (omega (arith, h.order))

  pub Around-Sparse : Sparse (FreeAround start pre z post)
  Around-Sparse = record {
    apart = λ y u w v f g. both y u w v f g;
    low = λ y u f. omega (arith, h.low, (Around-bounds y u f).0);
    high = λ y u f. omega (arith, h.high, (Around-bounds y u f).1);
    big = λ y u f. (Around-bounds y u f).2;
  }
    where
      both :
          (y u w v : ℕ)
          → FreeAround start pre z post y u
          → FreeAround start pre z post w v
          → ((y ≡ w) × (u ≡ v)) ⊎ Far y w
      both y u w v (inl f) (inl g) = FreeAt-apart s.mem start false pre x y u w v h.front f g
      both y u w v (inl f) (inr g) = inr (across y u w v f g)
      both y u w v (inr f) (inl g) =
          inr (elim (across w v y u g f) [ inl k ↦ inr k | inr k ↦ inl k ])
      both y u w v (inr f) (inr g) = FreeAt-apart s.mem z q post end y u w v h.back f g

  -- Writes inside the region leave all around it as it is; the statistics may change.
  pub Around-Writes :
      (s' : State) (ws : List ℕ)
      → Writes s.mem ws s'.mem
      → ((w : ℕ) → (w + 8 ≤ x) ⊎ (z ≤ w) → Outside ws 8 w)
      → s'.alloc.free_lists ≡ s.alloc.free_lists
      → s'.alloc.free_bitmap ≡ s.alloc.free_bitmap
      → s'.alloc.heap_start ≡ s.alloc.heap_start
      → s'.alloc.heap_end ≡ s.alloc.heap_end
      → Around s' pre x z q post
  Around-Writes s' ws wr out el eb es ee = record {
    low = rw es h.low;
    high = rw ee h.high;
    order = h.order;
    front =
        rw es
          (Tiled-Writes s.mem s'.mem ws start false pre x h.front wr (λ w lo hi. out w (inl hi)));
    back = rw ee (Tiled-Writes s.mem s'.mem ws z q post end h.back wr (λ w lo hi. out w (inr lo)));
    chains = h.chains;
    listing =
        subst (λ a. Listing s' (FreeAround a pre z post) h.chains) (sym es)
          (Listing-frame s' h.listing el eb (λ y u f. (
            Writes-load64 (y + 8) wr (out (y + 8) (link_place y u 8 f (omega arith))),
            Writes-load64 (y + 16) wr (out (y + 16) (link_place y u 16 f (omega arith))),
          )));
  }
    where
      link_place :
          (y u k : ℕ) → FreeAround start pre z post y u → k ≤ 16 → (y + k + 8 ≤ x) ⊎ (z ≤ y + k)
      link_place y u k f hk =
          let (lo, hi, big, side) = Around-bounds y u f in place y u k side big hk
        where
          place :
              (y u k : ℕ) → (y + u ≤ x) ⊎ (z ≤ y) → 32 ≤ u → k ≤ 16 → (y + k + 8 ≤ x) ⊎ (z ≤ y + k)
          place y u k (inl a) big hk = inl (omega arith)
          place y u k (inr a) big hk = inr (omega arith)
