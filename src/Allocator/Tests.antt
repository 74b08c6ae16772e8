-- ===== src/Allocator/Tests.antt =====
-- The allocator on a heap of 4096 bytes.
use tutorial_os.Common.{
  ℕ, ◌+◌, ◌%◌, ◌≤◌, ◌<◌, ◌^◌, ◌≡◌, ◌≢◌, ◌⊎◌, inl, inr, refl, ◌∙◌, ap, sym, Bool, true, false, List,
  [], ◌∷◌, arith,
}
use tutorial_os.Memory.{Memory, null}
use tutorial_os.Allocator.Block.{align_up}
use tutorial_os.Allocator.Block.Header.{HasHeader, block_size_lem}
use tutorial_os.Allocator.SizeClass.{bits_loop, num_size_classes, size_class}
use tutorial_os.Allocator.FreeList.{
  State, head_of, find_free_block, remove_from_free_list, insert_into_free_list,
}
use tutorial_os.Allocator.FreeList.Chain.{Far}
use tutorial_os.Allocator.FreeList.Listing.{
  Blocks, Sparse, Listing, OnlyLinks, SameBounds, With, Without,
}
use tutorial_os.Allocator.FreeList.Find.{Found, find_free_block_lem}
use tutorial_os.Allocator.FreeList.Removed.{remove-Listing}
use tutorial_os.Allocator.FreeList.Inserted.{insert-Listing}
use tutorial_os.Allocator.Merge.{split_block, coalesce}
use tutorial_os.Allocator.Api.{
  block_size_needed, take_block, allocator_init, allocator_init_from_ram, allocator_alloc,
  allocator_free,
}
use tutorial_os.Allocator.Api.Needed.{Enough, block_size_needed_lem}
use tutorial_os.Allocator.Global.{Laid, heap_init, heap_init_lem}
use tutorial_os.Allocator.Tiling.{Block, block, FreeAt}
use tutorial_os.Allocator.Tiling.Place.{FreeAt-Sparse}
use tutorial_os.Allocator.Heap.{Heap, Around}
use tutorial_os.Allocator.Heap.Init.{allocator_init_lem}
use tutorial_os.Allocator.Heap.Split.{Carved, split_block_lem}
use tutorial_os.Allocator.Heap.Seal.{unseal}
use tutorial_os.Allocator.Heap.Region.Grow.{grow_right}
use tutorial_os.Allocator.Heap.Take.{take_block_lem}
use tutorial_os.Allocator.Heap.Release.{Settled, coalesce_lem}
use tutorial_os.Allocator.Heap.Free.{s1, owned1, head1, allocator_free_lem}
use tutorial_os.Allocator.Heap.Alloc.{Served, allocator_alloc_lem}
use tutorial_os.Allocator.Heap.Return.{free-alloc}
use tutorial_os.Allocator.Heap.Payload.{alloc_within}

abbrev zeroes : Memory
zeroes a = 0

abbrev fresh : State
fresh = allocator_init zeroes 4100 8200

abbrev whole : List Block
whole = block 4096 true ∷ []

fresh-Heap : Heap fresh whole
fresh-Heap = (allocator_init_lem zeroes 4100 8200 (omega arith) (omega arith) (omega arith)).0

allocator_init_example :
    Heap fresh whole × (fresh.alloc.heap_start ≡ 4104) × (fresh.alloc.heap_end ≡ 8200)
allocator_init_example =
    allocator_init_lem zeroes 4100 8200 (omega arith) (omega arith) (omega arith)

needed_100 : block_size_needed 100 ≡ 112
unfolding block_size_needed align_up
needed_100 = refl

class_112 : size_class 112 ≡ 1
unfolding size_class bits_loop
class_112 = refl

class_4096 : size_class 4096 ≡ 7
unfolding size_class bits_loop
class_4096 = refl

fresh_fits :
    (x t : ℕ)
    → FreeAt fresh.alloc.heap_start whole x t
    → size_class t ≡ size_class (block_size_needed 100)
    → block_size_needed 100 ≤ t
fresh_fits x t (inl f) e = omega (arith, f.1, needed_100)
fresh_fits x t (inr f) e = absurd f

allocator_alloc_example :
    Served fresh.alloc.heap_start whole (block_size_needed 100) (allocator_alloc fresh 100 8)
    ⊎ (((x t : ℕ)
          → FreeAt fresh.alloc.heap_start whole x t
          → size_class t < size_class (block_size_needed 100))
        × (allocator_alloc fresh 100 8 ≡ (null, fresh)))
allocator_alloc_example =
    allocator_alloc_lem fresh whole 100 8 fresh-Heap (omega arith) (omega arith) fresh_fits

fresh_got : (allocator_alloc fresh 100 8).0 ≢ null
fresh_got =
    elim (allocator_alloc_lem fresh whole 100 8 fresh-Heap (omega arith) (omega arith) fresh_fits) [
      | inl v ↦ λ e. omega (arith, v.payload)
      | inr (low, _) ↦ absurd (
          omega (
            arith,
            low fresh.alloc.heap_start 4096 (inl (refl, refl, refl)),
            class_4096,
            class_112,
            ap size_class needed_100,
          ))
    ]

alloc_within_example :
    ((allocator_alloc fresh 100 8).0 % 8 ≡ 0)
    × (fresh.alloc.heap_start + 8 ≤ (allocator_alloc fresh 100 8).0)
    × ((allocator_alloc fresh 100 8).0 + 100 ≤ fresh.alloc.heap_end)
alloc_within_example =
    alloc_within fresh whole 100 8 fresh-Heap (omega arith) (omega arith) fresh_fits fresh_got

free-alloc_example :
    Heap (allocator_free (allocator_alloc fresh 100 8).1 (allocator_alloc fresh 100 8).0) whole
free-alloc_example =
    free-alloc fresh whole 100 8 fresh-Heap (omega arith) (omega arith) fresh_fits fresh_got

take_block_example :
    ((take_block fresh fresh.alloc.heap_start 112).0 ≡ fresh.alloc.heap_start + 8)
    × Heap (take_block fresh fresh.alloc.heap_start 112).1 (block 112 false ∷ block 3984 true ∷ [])
    × ((take_block fresh fresh.alloc.heap_start 112).1.alloc.heap_start ≡ fresh.alloc.heap_start)
take_block_example =
    take_block_lem fresh [] 4096 112 [] fresh-Heap (omega arith) (omega arith) (omega arith)

-- a heap with a taken block
abbrev used : State
used = (take_block fresh fresh.alloc.heap_start 112).1

abbrev rest : List Block
rest = block 3984 true ∷ []

used-Heap : Heap used (block 112 false ∷ rest)
used-Heap =
    (take_block_lem fresh [] 4096 112 [] fresh-Heap (omega arith) (omega arith) (omega arith)).1

allocator_free_example :
    Heap (allocator_free used (used.alloc.heap_start + 8)) (block 4096 true ∷ [])
    × ((allocator_free used (used.alloc.heap_start + 8)).alloc.heap_start ≡ used.alloc.heap_start)
allocator_free_example = allocator_free_lem used [] 112 rest used-Heap

coalesce_example :
    ((coalesce (s1 used [] 112 rest used-Heap) used.alloc.heap_start).0 ≡ used.alloc.heap_start)
    × Settled
        (s1 used [] 112 rest used-Heap)
        (coalesce (s1 used [] 112 rest used-Heap) used.alloc.heap_start).1
        []
        used.alloc.heap_start
        4096
        false
        []
coalesce_example =
    coalesce_lem (s1 used [] 112 rest used-Heap) [] 112 false rest
      (owned1 used [] 112 rest used-Heap) (head1 used [] 112 rest used-Heap) (omega arith)

fresh-Around : Around fresh [] fresh.alloc.heap_start fresh.alloc.heap_start false whole
fresh-Around = unseal fresh [] whole fresh-Heap

-- the fresh heap's only block, out of its list
abbrev unlisted : State
unlisted = remove_from_free_list fresh fresh.alloc.heap_start

unlisted-Around : Around unlisted [] fresh.alloc.heap_start (fresh.alloc.heap_start + 4096) true []
unlisted-Around =
    (grow_right fresh [] fresh.alloc.heap_start fresh.alloc.heap_start false 4096 [] fresh-Around).0

unlisted-HasHeader : HasHeader unlisted.mem fresh.alloc.heap_start 4096 true false
unlisted-HasHeader =
    let grown =
      (grow_right fresh [] fresh.alloc.heap_start fresh.alloc.heap_start false 4096 []
        fresh-Around).1 in
    record {
      word =
          grown.words fresh.alloc.heap_start (omega arith) (omega arith)
          ∙ fresh-Heap.tiled.0.head.word;
      aligned = refl;
    }

split_block_example :
    (n : ℕ) × (g : Bool) × (rest : List Block) × Carved unlisted
      (split_block unlisted fresh.alloc.heap_start 112)
      []
      fresh.alloc.heap_start
      4096
      112
      false
      []
      n
      g
      rest
split_block_example =
    split_block_lem unlisted [] fresh.alloc.heap_start 4096 112 false [] unlisted-Around
      unlisted-HasHeader (omega arith) (omega arith) (omega arith)

find_free_block_example :
    ((c : ℕ) × Found fresh.alloc 112 c)
    ⊎ (((d : ℕ) → size_class 112 ≤ d → d < num_size_classes → head_of fresh.alloc d ≡ null)
        × (find_free_block fresh.alloc 112 ≡ null))
find_free_block_example =
    find_free_block_lem fresh.alloc 112 fresh-Heap.listing.bitmap (omega arith)

remove-Listing_example :
    (chains' : ℕ → List ℕ) × Listing
      (remove_from_free_list fresh fresh.alloc.heap_start)
      (Without (FreeAt fresh.alloc.heap_start whole) fresh.alloc.heap_start)
      chains'
    × OnlyLinks
        (Without (FreeAt fresh.alloc.heap_start whole) fresh.alloc.heap_start)
        fresh.mem
        (remove_from_free_list fresh fresh.alloc.heap_start).mem
    × SameBounds fresh.alloc (remove_from_free_list fresh fresh.alloc.heap_start).alloc
remove-Listing_example =
    remove-Listing fresh (FreeAt fresh.alloc.heap_start whole) fresh-Heap.chains
      fresh.alloc.heap_start 4096
      (FreeAt-Sparse fresh.mem fresh.alloc.heap_start false whole fresh.alloc.heap_end
        fresh-Heap.tiled fresh-Heap.low fresh-Heap.high)
      fresh-Heap.listing (inl (refl, refl, refl)) (block_size_lem fresh-Heap.tiled.0.head)

block_size_needed_example : Enough 100 (block_size_needed 100)
block_size_needed_example = block_size_needed_lem 100 (omega arith)

-- the removed block goes back
abbrev others : Blocks
others = Without (FreeAt fresh.alloc.heap_start whole) fresh.alloc.heap_start

no_others : (y u : ℕ) → ¬ others y u
no_others y u (inl f, ne) = ne f.0
no_others y u (inr f, ne) = f

others-Sparse : Sparse (With others fresh.alloc.heap_start 4096)
others-Sparse = record {
  apart = λ y u w v f g. both y u w v f g;
  low = λ y u f. low y u f;
  high = λ y u f. high y u f;
  big = λ y u f. big y u f;
}
  where
    both :
        (y u w v : ℕ)
        → With others fresh.alloc.heap_start 4096 y u
        → With others fresh.alloc.heap_start 4096 w v
        → ((y ≡ w) × (u ≡ v)) ⊎ Far y w
    both y u w v (inl f) g = absurd (no_others y u f)
    both y u w v (inr f) (inl g) = absurd (no_others w v g)
    both y u w v (inr f) (inr g) = inl (f.0 ∙ sym g.0, f.1 ∙ sym g.1)

    low : (y u : ℕ) → With others fresh.alloc.heap_start 4096 y u → 16 ≤ y
    low y u (inl f) = absurd (no_others y u f)
    low y u (inr f) = omega (arith, f.0, fresh-Heap.low)

    high : (y u : ℕ) → With others fresh.alloc.heap_start 4096 y u → y + u < 2 ^ 64
    high y u (inl f) = absurd (no_others y u f)
    high y u (inr f) = omega (arith, f.0, f.1, fresh-Heap.high, fresh-Heap.tiled.1)

    big : (y u : ℕ) → With others fresh.alloc.heap_start 4096 y u → 32 ≤ u
    big y u (inl f) = absurd (no_others y u f)
    big y u (inr f) = omega (arith, f.1)

removed :
    (chains' : ℕ → List ℕ) × Listing unlisted others chains'
    × OnlyLinks others fresh.mem unlisted.mem
    × SameBounds fresh.alloc unlisted.alloc
removed =
    remove-Listing fresh (FreeAt fresh.alloc.heap_start whole) fresh-Heap.chains
      fresh.alloc.heap_start 4096
      (FreeAt-Sparse fresh.mem fresh.alloc.heap_start false whole fresh.alloc.heap_end
        fresh-Heap.tiled fresh-Heap.low fresh-Heap.high)
      fresh-Heap.listing (inl (refl, refl, refl)) (block_size_lem fresh-Heap.tiled.0.head)

insert-Listing_example :
    (chains' : ℕ → List ℕ) × Listing
      (insert_into_free_list unlisted fresh.alloc.heap_start)
      (With others fresh.alloc.heap_start 4096)
      chains'
    × OnlyLinks
        (With others fresh.alloc.heap_start 4096)
        unlisted.mem
        (insert_into_free_list unlisted fresh.alloc.heap_start).mem
    × SameBounds unlisted.alloc (insert_into_free_list unlisted fresh.alloc.heap_start).alloc
insert-Listing_example =
    insert-Listing unlisted others removed.0 fresh.alloc.heap_start 4096 removed.1 others-Sparse
      (λ u f. no_others fresh.alloc.heap_start u f) (block_size_lem unlisted-HasHeader)

heap_init_example :
    Laid (allocator_init_from_ram zeroes 65536 8388608 70000).0 70000 (65536 + 8388608)
    × Heap (heap_init zeroes 70000 65536 8388608) (block 4189840 true ∷ [])
heap_init_example =
    heap_init_lem zeroes 70000 65536 8388608 (omega arith) (omega arith) (omega arith) (omega arith)
