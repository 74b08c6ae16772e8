-- ===== src/Allocator/Tiling/Place.antt =====
-- Where the blocks of a tiling stand: bounds, and the apartness of distinct blocks.
use tutorial_os.Common.{
  ℕ, ◌+◌, ◌%◌, ◌≤◌, ◌<◌, ◌^◌, ◌≡◌, ◌⊎◌, inl, inr, refl, ◌∙◌, ap, sym, Bool, true, List, [], ◌∷◌,
  ◌++◌, arith,
}
use tutorial_os.Memory.{Memory}
use tutorial_os.Allocator.Tiling.{
  Block, Tiled, FreeAt, stop, last_free, taken_bytes, free_bytes, Merged,
}
use tutorial_os.Allocator.FreeList.Chain.{Far}
use tutorial_os.Allocator.FreeList.Listing.{Sparse}

pub Tiled-le : (m : Memory) (a : ℕ) (p : Bool) (bs : List Block) (e : ℕ) → Tiled m a p bs e → a ≤ e
Tiled-le m a p [] e h = omega arith
Tiled-le m a p (b ∷ bs) e h = omega (arith, Tiled-le m (a + b.size) b.free bs e h.1)

pub FreeAt-bounds :
    (m : Memory) (a : ℕ) (p : Bool) (bs : List Block) (e x t : ℕ)
    → Tiled m a p bs e
    → FreeAt a bs x t
    → (a ≤ x) × (x + t ≤ e) × (32 ≤ t) × (t % 8 ≡ 0)
FreeAt-bounds m a p [] e x t h f = absurd f
FreeAt-bounds m a p (b ∷ bs) e x t (hb, rest) (inl (ex, et, _)) =
    let le : a + b.size ≤ e = Tiled-le m (a + b.size) b.free bs e rest in
    (omega arith, omega arith, omega (arith, hb.big), omega (arith, hb.head.aligned))
FreeAt-bounds m a p (b ∷ bs) e x t (hb, rest) (inr f) =
    let (lo, hi, big, al) = FreeAt-bounds m (a + b.size) b.free bs e x t rest f in
    (omega arith, hi, big, al)

pub FreeAt-apart :
    (m : Memory) (a : ℕ) (p : Bool) (bs : List Block) (e x s y t : ℕ)
    → Tiled m a p bs e
    → FreeAt a bs x s
    → FreeAt a bs y t
    → ((x ≡ y) × (s ≡ t)) ⊎ Far x y
FreeAt-apart m a p [] e x s y t h f g = absurd f
FreeAt-apart m a p (b ∷ bs) e x s y t (hb, rest) (inl (ex, es, _)) (inl (ey, et, _)) =
    inl (ex ∙ sym ey, es ∙ sym et)
FreeAt-apart m a p (b ∷ bs) e x s y t (hb, rest) (inl (ex, es, _)) (inr g) =
    let (lo, _, _, _) = FreeAt-bounds m (a + b.size) b.free bs e y t rest g in
    inr (inl (omega (arith, hb.big)))
FreeAt-apart m a p (b ∷ bs) e x s y t (hb, rest) (inr f) (inl (ey, et, _)) =
    let (lo, _, _, _) = FreeAt-bounds m (a + b.size) b.free bs e x s rest f in
    inr (inr (omega (arith, hb.big)))
FreeAt-apart m a p (b ∷ bs) e x s y t (hb, rest) (inr f) (inr g) =
    FreeAt-apart m (a + b.size) b.free bs e x s y t rest f g

pub FreeAt-Sparse :
    (m : Memory) (a : ℕ) (p : Bool) (bs : List Block) (e : ℕ)
    → Tiled m a p bs e
    → 16 ≤ a
    → e < 2 ^ 64
    → Sparse (FreeAt a bs)
FreeAt-Sparse m a p bs e h lo hi = record {
  apart = λ x s y t f g. FreeAt-apart m a p bs e x s y t h f g;
  low = λ x s f. let (p, _, _, _) = FreeAt-bounds m a p bs e x s h f in omega arith;
  high = λ x s f. let (_, p, _, _) = FreeAt-bounds m a p bs e x s h f in omega arith;
  big = λ x s f. let (_, _, p, _) = FreeAt-bounds m a p bs e x s h f in p;
}

-- a tiling in two parts
pub Tiled-split :
    (m : Memory) (a : ℕ) (p : Bool) (pre bs : List Block) (e : ℕ)
    → Tiled m a p (pre ++ bs) e
    → Tiled m a p pre (stop a pre) × Tiled m (stop a pre) (last_free p pre) bs e
Tiled-split m a p [] bs e h = (refl, h)
Tiled-split m a p (b ∷ pre) bs e (hb, rest) =
    let (l, r) = Tiled-split m (a + b.size) b.free pre bs e rest in ((hb, l), r)

pub Tiled-join :
    (m : Memory) (a : ℕ) (p : Bool) (pre bs : List Block) (e : ℕ)
    → Tiled m a p pre (stop a pre)
    → Tiled m (stop a pre) (last_free p pre) bs e
    → Tiled m a p (pre ++ bs) e
Tiled-join m a p [] bs e l r = r
Tiled-join m a p (b ∷ pre) bs e (hb, l) r = (hb, Tiled-join m (a + b.size) b.free pre bs e l r)

pub FreeAt-split :
    (a : ℕ) (pre bs : List Block) (x t : ℕ)
    → FreeAt a (pre ++ bs) x t
    → FreeAt a pre x t ⊎ FreeAt (stop a pre) bs x t
FreeAt-split a [] bs x t f = inr f
FreeAt-split a (b ∷ pre) bs x t (inl h) = inl (inl h)
FreeAt-split a (b ∷ pre) bs x t (inr f) = elim (FreeAt-split (a + b.size) pre bs x t f) [
  | inl g ↦ inl (inr g)
  | inr g ↦ inr g
]

pub FreeAt-join :
    (a : ℕ) (pre bs : List Block) (x t : ℕ)
    → FreeAt a pre x t ⊎ FreeAt (stop a pre) bs x t
    → FreeAt a (pre ++ bs) x t
FreeAt-join a [] bs x t (inl f) = absurd f
FreeAt-join a [] bs x t (inr f) = f
FreeAt-join a (b ∷ pre) bs x t (inl (inl h)) = inl h
FreeAt-join a (b ∷ pre) bs x t (inl (inr f)) = inr (FreeAt-join (a + b.size) pre bs x t (inl f))
FreeAt-join a (b ∷ pre) bs x t (inr f) = inr (FreeAt-join (a + b.size) pre bs x t (inr f))

-- the block in which a free block of a split tiling stands
pub FreeAt-place :
    (a : ℕ) (bs : List Block) (x t : ℕ)
    → FreeAt a bs x t
    → (pre post : List Block) × (bs ≡ pre ++ record { size = t; free = true } ∷ post)
      × (stop a pre ≡ x)
FreeAt-place a [] x t f = absurd f
FreeAt-place a (b ∷ bs) x t (inl (ex, et, ef)) =
    ([], bs, ap (λ c. c ∷ bs) (λ i. record { size = sym et i; free = ef i }), sym ex)
FreeAt-place a (b ∷ bs) x t (inr f) =
    let (pre, post, e, here) = FreeAt-place (a + b.size) bs x t f in
    (b ∷ pre, post, ap (λ r. b ∷ r) e, here)

pub taken_bytes-append :
    (xs ys : List Block) → taken_bytes (xs ++ ys) ≡ taken_bytes xs + taken_bytes ys
taken_bytes-append [] ys = omega arith
taken_bytes-append (x ∷ xs) ys = omega (arith, taken_bytes-append xs ys)

pub free_bytes-append : (xs ys : List Block) → free_bytes (xs ++ ys) ≡ free_bytes xs + free_bytes ys
free_bytes-append [] ys = omega arith
free_bytes-append (x ∷ xs) ys = omega (arith, free_bytes-append xs ys)

-- The two statistics make up the whole heap.
pub taken_add_free :
    (m : Memory) (a : ℕ) (p : Bool) (bs : List Block) (e : ℕ)
    → Tiled m a p bs e
    → a + (taken_bytes bs + free_bytes bs) ≡ e
taken_add_free m a p [] e h = omega arith
taken_add_free m a p (b ∷ bs) e h = ground (arith, taken_add_free m (a + b.size) b.free bs e h.1)

pub Merged-split :
    (p : Bool) (pre bs : List Block)
    → Merged p (pre ++ bs)
    → Merged p pre × Merged (last_free p pre) bs
Merged-split p [] bs h = (tt, h)
Merged-split p (b ∷ pre) bs h = let (l, r) = Merged-split b.free pre bs h.1 in ((h.0, l), r)

pub Merged-join :
    (p : Bool) (pre bs : List Block)
    → Merged p pre
    → Merged (last_free p pre) bs
    → Merged p (pre ++ bs)
Merged-join p [] bs l r = r
Merged-join p (b ∷ pre) bs l r = (l.0, Merged-join b.free pre bs l.1 r)
