-- ===== src/Allocator/Tiling.antt =====
-- The abstract heap: a list of blocks that lie one behind the other from the heap's start to its end,
-- each with the header, and if it is free the footer, that the allocator keeps in memory.
pub mod Place
pub mod Frame
use tutorial_os.Common.{
  ℕ, ◌+◌, ◌-◌, ◌%◌, ◌≤◌, ◌<◌, ◌≡◌, ◌⊎◌, Bool, true, false, List, [], ◌∷◌, if◌then◌else◌,
}
use tutorial_os.Memory.{Memory, load64}
use tutorial_os.Allocator.Block.Header.{HasHeader}

pub record Block : Type 0 where
  pub size : ℕ
  pub free : Bool

abbrev pub block : ℕ → Bool → Block
block size free = record { size = size; free = free }

-- Block `b` stands at `a`; `p` says whether the block in front of it is free.
pub record HasBlock (m : Memory) (a : ℕ) (p : Bool) (b : Block) : Type 0 where
  pub head : HasHeader m a b.size b.free p
  pub big : 32 ≤ b.size
  pub foot : b.free ≡ true → load64 m (a + b.size - 8) ≡ b.size

abbrev pub Tiled : Memory → ℕ → Bool → List Block → ℕ → Type 0
Tiled m a p [] e = a ≡ e
Tiled m a p (b ∷ bs) e = HasBlock m a p b × Tiled m (a + b.size) b.free bs e

-- a free block of `t` bytes stands at `x`
abbrev pub FreeAt : ℕ → List Block → ℕ → ℕ → Type 0
FreeAt a [] x t = ⊥
FreeAt a (b ∷ bs) x t = ((x ≡ a) × (t ≡ b.size) × (b.free ≡ true)) ⊎ FreeAt (a + b.size) bs x t

-- where the blocks end, and whether the last of them is free
abbrev pub stop : ℕ → List Block → ℕ
stop a [] = a
stop a (b ∷ bs) = stop (a + b.size) bs

abbrev pub last_free : Bool → List Block → Bool
last_free p [] = p
last_free p (b ∷ bs) = last_free b.free bs

-- the bytes in taken and in free blocks
abbrev pub taken_bytes : List Block → ℕ
taken_bytes [] = 0
taken_bytes (b ∷ bs) = (if b.free then 0 else b.size) + taken_bytes bs

abbrev pub free_bytes : List Block → ℕ
free_bytes [] = 0
free_bytes (b ∷ bs) = (if b.free then b.size else 0) + free_bytes bs

-- no two neighbours are free
abbrev pub Merged : Bool → List Block → Type 0
Merged p [] = Unit {0}
Merged p (b ∷ bs) = (p ≡ true → b.free ≡ false) × Merged b.free bs
