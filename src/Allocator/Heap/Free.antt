-- ===== src/Allocator/Heap/Free.antt =====
-- allocator_free on a block that was allocated.
use tutorial_os.Common.{
  ℕ, ◌+◌, ◌<◌, ◌^◌, ◌≡◌, refl, ◌∙◌, ap, sym, subst, Bool, true, false, List, [], ◌∷◌, ◌++◌, arith,
  ne→==_false, guard_open,
}
use tutorial_os.Word.{add64, sub64}
use tutorial_os.Memory.{store64}
use tutorial_os.Memory.Laws.{load64-store64_self}
use tutorial_os.Memory.Writes.{Writes-store64}
use tutorial_os.Allocator.Block.Header.{
  HasHeader, header, size-lt, block_size_lem, block_set_free_lem, block_from_payload_lem,
}
use tutorial_os.Allocator.FreeList.{Allocator, State, insert_into_free_list}
use tutorial_os.Allocator.Merge.{coalesce}
use tutorial_os.Allocator.Api.{free_block, allocator_free}
use tutorial_os.Allocator.Tiling.{Block, block, stop, last_free, taken_bytes, free_bytes}
use tutorial_os.Allocator.Tiling.Place.{taken_add_free}
use tutorial_os.Allocator.Heap.{Heap, Around}
use tutorial_os.Allocator.Heap.Region.{Around-ends, Around-Writes}
use tutorial_os.Allocator.Heap.Region.Give.{own_taken, give_free}
use tutorial_os.Allocator.Heap.Seal.{unseal, seal_at}
use tutorial_os.Allocator.Heap.Join.{SameBounds-trans, header-lt}
use tutorial_os.Allocator.Heap.Release.{joined, coalesce_lem}
use tutorial_os.Allocator.Heap.Balance.{joined-Merged, joined_bytes}

abbrev count_freed : Allocator → ℕ → Allocator
count_freed a n = record a { allocated = sub64 a.allocated n; free_space = add64 a.free_space n }

-- The block merged with its neighbours goes into the lists.
abbrev listed : ℕ × State → State
listed r = insert_into_free_list r.1 r.0

module _ (s : State) (pre : List Block) (t : ℕ) (post : List Block)
    (h : Heap s (pre ++ block t false ∷ post)) where
  abbrev pub x : ℕ
  x = stop s.alloc.heap_start pre

  abbrev pub q : Bool
  q = last_free false pre

  abbrev j : List Block × ℕ × List Block
  j = joined pre t post

  abbrev y : ℕ
  y = stop s.alloc.heap_start j.0

  whole : Around s pre x x q (block t false ∷ post)
  whole = unseal s pre (block t false ∷ post) h

  owned : Around s pre x (x + t) false post
  owned = own_taken s pre x x t q post whole

  top : x + t < 2 ^ 64
  top = omega (arith, h.high, Around-ends owned)

  abbrev pub s1 : State
  s1 = record { alloc = count_freed s.alloc t; mem = store64 s.mem x (header t true q) }

  free_block_is : free_block s (x + 8) ≡ listed (coalesce s1 x)
  unfolding free_block
  free_block_is =
      let (hb, _) = whole.back in
      rw (block_from_payload_lem x (omega (arith, top, hb.big)))
        (rw (block_size_lem hb.head, block_set_free_lem hb.head true) refl)

  pub owned1 : Around s1 pre x (x + t) false post
  owned1 =
      let (hb, _) = whole.back in
      Around-Writes owned s1 (x ∷ []) (Writes-store64 s.mem x (header t true q))
        (λ w o. (omega (arith, hb.big), tt)) refl refl refl refl

  pub head1 : HasHeader s1.mem x t true q
  head1 =
      let (hb, _) = whole.back in
      record {
        word = load64-store64_self s.mem x (header t true q) (header-lt t true q (size-lt hb.head));
        aligned = hb.head.aligned;
      }

  total :
      taken_bytes (pre ++ block t false ∷ post) + free_bytes (pre ++ block t false ∷ post) < 2 ^ 64
  total = omega (
    arith,
    h.high,
    taken_add_free s.mem s.alloc.heap_start false (pre ++ block t false ∷ post) s.alloc.heap_end
        h.tiled,
  )

  freed :
      Heap (free_block s (x + 8)) (j.0 ++ block j.1 true ∷ j.2)
      × ((free_block s (x + 8)).alloc.heap_start ≡ s.alloc.heap_start)
  freed =
      let (here, settled) = coalesce_lem s1 pre t false post owned1 head1 whole.back.0.big in
      let s2 = (coalesce s1 x).1 in
      let (a, grown) =
        give_free s2 j.0 y y j.1 (last_free false j.0) j.2 settled.around (omega arith)
          settled.here in
      let b = SameBounds-trans settled.bounds grown.bounds in
      let (taken, spare) = joined_bytes pre t post h.merged in
      subst (λ u. Heap u (j.0 ++ block j.1 true ∷ j.2) × (u.alloc.heap_start ≡ s.alloc.heap_start))
        (ap (λ k. insert_into_free_list s2 k) (sym here) ∙ sym free_block_is)
        (
          seal_at s (insert_into_free_list s2 y) j.0 (block j.1 true ∷ j.2) a b.heap_start
              (b.initialized ∙ h.ready) h.aligned (joined-Merged pre t post h.merged)
              (b.allocated ∙ omega (arith, h.taken, total))
              (b.free_space ∙ omega (arith, h.spare, total)),
          b.heap_start,
        )

-- Freeing an allocated block: the block and its free neighbours become one free block, and all else
-- of the heap stands as it is.
pub allocator_free_lem :
    (s : State) (pre : List Block) (t : ℕ) (post : List Block)
    → Heap s (pre ++ block t false ∷ post)
    → let j = joined pre t post in
      let s' = allocator_free s (stop s.alloc.heap_start pre + 8) in
      Heap s' (j.0 ++ block j.1 true ∷ j.2) × (s'.alloc.heap_start ≡ s.alloc.heap_start)
unfolding allocator_free
allocator_free_lem s pre t post h =
    let x = stop s.alloc.heap_start pre in
    let j = joined pre t post in
    rw (ne→==_false (x + 8) 0 (λ e. omega arith)) (
      subst (λ u. Heap u (j.0 ++ block j.1 true ∷ j.2) × (u.alloc.heap_start ≡ s.alloc.heap_start))
        (sym (guard_open s.alloc.initialized s (free_block s (x + 8)) h.ready))
        (freed s pre t post h))
