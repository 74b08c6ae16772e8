-- ===== src/Allocator/Heap/Return.antt =====
-- allocator_alloc followed by allocator_free.
use tutorial_os.Common.{
  ℕ, ◌+◌, ◌-◌, ◌≤◌, ◌<◌, ◌^◌, ◌≡◌, ◌≢◌, refl, ◌∙◌, ap, sym, subst, true, false, List, [], ◌∷◌, ◌++◌,
  arith, if◌then◌else◌, dec_lt, lt→ltb, le→ltb_false,
}
use tutorial_os.Memory.{null}
use tutorial_os.Allocator.FreeList.{State}
use tutorial_os.Allocator.SizeClass.{size_class}
use tutorial_os.Allocator.Api.{allocator_alloc, allocator_free, block_size_needed}
use tutorial_os.Allocator.Tiling.{Block, block, FreeAt, stop, last_free, Merged}
use tutorial_os.Allocator.Tiling.Place.{Merged-split}
use tutorial_os.Allocator.Heap.{Heap}
use tutorial_os.Allocator.Heap.Split.{carve}
use tutorial_os.Allocator.Heap.Join.{join_right, join_left}
use tutorial_os.Allocator.Heap.JoinLeft.{
  Snoc, empty, snoc, Snoc-view, join_left_taken, last_free-append,
}
use tutorial_os.Allocator.Heap.Release.{joined}
use tutorial_os.Allocator.Heap.Free.{allocator_free_lem}
use tutorial_os.Allocator.Heap.Alloc.{Served, Served-of}

join_right-Merged_rest :
    (t : ℕ) (post : List Block) → Merged true post → join_right t post ≡ (t, post)
join_right-Merged_rest t [] m = refl
join_right-Merged_rest t (b ∷ post) m = rw (m.0 refl) refl

join_left_merged :
    (pre : List Block) (t : ℕ) → (last_free false pre ≡ true → ⊥) → join_left pre t ≡ (pre, t)
join_left_merged pre t m = by_view pre (Snoc-view pre) m
  where
    by_view :
        (pre : List Block)
        → Snoc pre
        → (last_free false pre ≡ true → ⊥)
        → join_left pre t ≡ (pre, t)
    by_view _ empty m = refl
    by_view _ (snoc pre v false) m = join_left_taken pre v t
    by_view _ (snoc pre v true) m = absurd (m (last_free-append false pre (block v true)))

abbrev rejoined : List Block × ℕ × List Block → List Block
rejoined j = j.0 ++ block j.1 true ∷ j.2

rejoin :
    (pre : List Block) (n t : ℕ) (rest post : List Block)
    → (last_free false pre ≡ true → ⊥)
    → join_right n rest ≡ (t, post)
    → rejoined (joined pre n rest) ≡ pre ++ block t true ∷ post
rejoin pre n t rest post m e =
    ap (λ r. rejoined ((join_left pre r.0).0, (join_left pre r.0).1, r.1)) e
    ∙ ap (λ l. rejoined (l.0, l.1, post)) (join_left_merged pre t m)

-- Freeing the block that was carved off makes the free block whole again.
free_carved :
    (s : State) (pre : List Block) (t needed : ℕ) (post : List Block)
    → Merged false (pre ++ block t true ∷ post)
    → needed ≤ t
    → Heap s (pre ++ carve t needed post)
    → Heap (allocator_free s (stop s.alloc.heap_start pre + 8)) (pre ++ block t true ∷ post)
free_carved s pre t needed post m le h =
    let (_, r) = Merged-split false pre (block t true ∷ post) m in
    let taken : last_free false pre ≡ true → ⊥ = λ e. cc (r.0 e) in
    let done = Heap (allocator_free s (stop s.alloc.heap_start pre + 8)) in
    elim (dec_lt (t - needed) 32) [
      | yes small ↦
          let h' : Heap s (pre ++ block t false ∷ post) =
            subst
              (λ b. Heap s (
                pre
                ++ (if b
                    then block t false ∷ post
                    else block needed false ∷ block (t - needed) true ∷ post)))
              (lt→ltb (t - needed) 32 small) h in
          subst done (rejoin pre t t post post taken (join_right-Merged_rest t post r.1))
            (allocator_free_lem s pre t post h').0
      | no large ↦
          let h' : Heap s (pre ++ block needed false ∷ block (t - needed) true ∷ post) =
            subst
              (λ b. Heap s (
                pre
                ++ (if b
                    then block t false ∷ post
                    else block needed false ∷ block (t - needed) true ∷ post)))
              (le→ltb_false (t - needed) 32 (omega arith)) h in
          let whole : needed + (t - needed) ≡ t = omega arith in
          subst done
            (rejoin pre needed t (block (t - needed) true ∷ post) post taken
              (ap (λ k. (k, post)) whole))
            (allocator_free_lem s pre needed (block (t - needed) true ∷ post) h').0
    ]

free-Served :
    (s : State) (bs : List Block) (size align : ℕ)
    → Heap s bs
    → let out = allocator_alloc s size align in
      Served s.alloc.heap_start bs (block_size_needed size) out
      → Heap (allocator_free out.1 out.0) bs
free-Served s bs size align h v =
    let out = allocator_alloc s size align in
    let needed = block_size_needed size in
    let back =
      free_carved out.1 v.front v.bytes needed v.behind (subst (Merged false) v.place h.merged)
        v.fits v.heap in
    let here : stop out.1.alloc.heap_start v.front + 8 ≡ out.0 =
      ap (λ a. stop a v.front + 8) v.start_kept ∙ sym v.payload in
    subst (Heap (allocator_free out.1 out.0)) (sym v.place) (
      subst (λ p. Heap (allocator_free out.1 p) (v.front ++ block v.bytes true ∷ v.behind)) here
        back)

-- Under the conditions of allocator_alloc_lem, freeing what an allocation has returned restores the
-- abstract heap: the same blocks, in the same places, free and taken as before.
pub free-alloc :
    (s : State) (bs : List Block) (size align : ℕ)
    → Heap s bs
    → 0 < size
    → size + 23 < 2 ^ 64
    → ((x t : ℕ)
        → FreeAt s.alloc.heap_start bs x t
        → size_class t ≡ size_class (block_size_needed size)
        → block_size_needed size ≤ t)
    → (allocator_alloc s size align).0 ≢ null
    → Heap (allocator_free (allocator_alloc s size align).1 (allocator_alloc s size align).0) bs
free-alloc s bs size align h pos room fits got =
    free-Served s bs size align h (Served-of s bs size align h pos room fits got)
