-- ===== src/Allocator/Tiling/Frame.antt =====
-- What a tiling depends on: the headers and footers, and not the links or the payloads.
use tutorial_os.Common.{ℕ, ◌+◌, ◌-◌, ◌≤◌, ◌≡◌, ◌⊎◌, inl, inr, ◌∙◌, Bool, List, [], ◌∷◌, arith}
use tutorial_os.Memory.{Memory, load64}
use tutorial_os.Memory.Laws.{Apart}
use tutorial_os.Memory.Writes.{Writes, Outside, Writes-load64}
use tutorial_os.Allocator.Tiling.{Block, HasBlock, Tiled, FreeAt}
use tutorial_os.Allocator.Tiling.Place.{FreeAt-bounds, Tiled-le}
use tutorial_os.Allocator.FreeList.Listing.{Blocks, OnlyLinks, OnlyLinks-load64}

pub HasBlock-frame :
    (m m' : Memory) (a : ℕ) (p : Bool) (b : Block)
    → HasBlock m a p b
    → load64 m' a ≡ load64 m a
    → load64 m' (a + b.size - 8) ≡ load64 m (a + b.size - 8)
    → HasBlock m' a p b
HasBlock-frame m m' a p b h e f = record {
  head = record { word = e ∙ h.head.word; aligned = h.head.aligned };
  big = h.big;
  foot = λ k. f ∙ h.foot k;
}

pub Tiled-frame :
    (m m' : Memory) (a : ℕ) (p : Bool) (bs : List Block) (e : ℕ)
    → Tiled m a p bs e
    → ((w : ℕ)
        → a ≤ w
        → w + 8 ≤ e
        → ((y t : ℕ) → FreeAt a bs y t → Apart 16 (y + 8) 8 w)
        → load64 m' w ≡ load64 m w)
    → Tiled m' a p bs e
Tiled-frame m m' a p [] e h same = h
Tiled-frame m m' a p (b ∷ bs) e (hb, rest) same =
    let le : a + b.size ≤ e = Tiled-le m (a + b.size) b.free bs e rest in
    (
      HasBlock-frame m m' a p b hb
          (same a (omega arith) (omega (arith, hb.big)) (λ y t f. head_apart y t f))
          (same (a + b.size - 8) (omega (arith, hb.big)) (omega (arith, hb.big))
            (λ y t f. foot_apart y t f)),
      Tiled-frame m m' (a + b.size) b.free bs e rest
          (λ w lo hi apart. same w (omega arith) hi (λ y t f. both y t w lo f (apart y t))),
    )
  where
    later : (y t : ℕ) → FreeAt (a + b.size) bs y t → a + b.size ≤ y
    later y t f = (FreeAt-bounds m (a + b.size) b.free bs e y t rest f).0

    head_apart : (y t : ℕ) → FreeAt a (b ∷ bs) y t → Apart 16 (y + 8) 8 a
    head_apart y t (inl (ey, et, _)) = omega arith
    head_apart y t (inr f) = omega (arith, later y t f)

    foot_apart : (y t : ℕ) → FreeAt a (b ∷ bs) y t → Apart 16 (y + 8) 8 (a + b.size - 8)
    foot_apart y t (inl (ey, et, _)) = inl (omega (arith, hb.big))
    foot_apart y t (inr f) = inr (omega (arith, later y t f, hb.big))

    both :
        (y t w : ℕ)
        → a + b.size ≤ w
        → FreeAt a (b ∷ bs) y t
        → (FreeAt (a + b.size) bs y t → Apart 16 (y + 8) 8 w)
        → Apart 16 (y + 8) 8 w
    both y t w lo (inl (ey, et, _)) k = inl (omega (arith, hb.big))
    both y t w lo (inr f) k = k f

-- Link writes leave a tiling alone.
pub Tiled-OnlyLinks :
    (F : Blocks) (m m' : Memory) (a : ℕ) (p : Bool) (bs : List Block) (e : ℕ)
    → Tiled m a p bs e
    → 16 ≤ a
    → OnlyLinks F m m'
    → ((y t : ℕ) → F y t → FreeAt a bs y t ⊎ (y + t ≤ a) ⊎ (e ≤ y))
    → ((y t : ℕ) → F y t → 32 ≤ t)
    → Tiled m' a p bs e
Tiled-OnlyLinks F m m' a p bs e h lo o known big =
    Tiled-frame m m' a p bs e h
      (λ w p q apart. OnlyLinks-load64 F m m' w o (λ y t fy. place w y t p q fy (apart y t)))
  where
    place :
        (w y t : ℕ)
        → a ≤ w
        → w + 8 ≤ e
        → F y t
        → (FreeAt a bs y t → Apart 16 (y + 8) 8 w)
        → Apart 16 (y + 8) 8 w
    place w y t p q fy k = elim (known y t fy) [ inl f ↦ k f | inr r ↦ omega (arith, big y t fy) ]

-- So do writes outside it.
pub Tiled-Writes :
    (m m' : Memory) (ws : List ℕ) (a : ℕ) (p : Bool) (bs : List Block) (e : ℕ)
    → Tiled m a p bs e
    → Writes m ws m'
    → ((w : ℕ) → a ≤ w → w + 8 ≤ e → Outside ws 8 w)
    → Tiled m' a p bs e
Tiled-Writes m m' ws a p bs e h wr out =
    Tiled-frame m m' a p bs e h (λ w lo hi _. Writes-load64 w wr (out w lo hi))
