-- ===== src/Allocator/Heap/JoinLeft.antt =====
-- coalesce on a region that holds one block: a free block in front takes it in.
use tutorial_os.Common.{
  ℕ, ◌+◌, ◌-◌, ◌≤◌, ◌≡◌, refl, ◌∙◌, ap, sym, subst, Bool, true, false, List, [], ◌∷◌, ◌++◌, arith,
}
use tutorial_os.Word.{add64}
use tutorial_os.Memory.{load64}
use tutorial_os.Allocator.Block.{block_prev}
use tutorial_os.Allocator.Block.Header.{
  HasHeader, block_size_lem, block_prev_lem, block_is_prev_free_lem,
}
use tutorial_os.Allocator.FreeList.{State, remove_from_free_list}
use tutorial_os.Allocator.Merge.{absorb_prev}
use tutorial_os.Allocator.Tiling.{Block, block, HasBlock, stop, last_free}
use tutorial_os.Allocator.Tiling.Place.{Tiled-split}
use tutorial_os.Allocator.Heap.{Around}
use tutorial_os.Allocator.Heap.Region.{Around-ends}
use tutorial_os.Allocator.Heap.Region.Grow.{grow_left}
use tutorial_os.Allocator.Heap.Join.{join_left, Holds, SameBounds-refl, resize}

-- a list from its right end
pub data Snoc : List Block → Type 0 where
  empty : Snoc []
  snoc : (pre : List Block) (v : ℕ) (f : Bool) → Snoc (pre ++ block v f ∷ [])

pub Snoc-view : (bs : List Block) → Snoc bs
Snoc-view [] = empty
Snoc-view (b ∷ bs) = longer b bs (Snoc-view bs)
  where
    longer : (b : Block) (bs : List Block) → Snoc bs → Snoc (b ∷ bs)
    longer b _ empty = snoc [] b.size b.free
    longer b _ (snoc pre v f) = snoc (b ∷ pre) v f

pub join_left_free :
    (pre : List Block) (v t : ℕ) → join_left (pre ++ block v true ∷ []) t ≡ (pre, v + t)
join_left_free [] v t = refl
join_left_free (b ∷ []) v t = refl
join_left_free (b ∷ c ∷ pre) v t = ap (λ r. (b ∷ r.0, r.1)) (join_left_free (c ∷ pre) v t)

pub join_left_taken :
    (pre : List Block) (v t : ℕ)
    → join_left (pre ++ block v false ∷ []) t ≡ (pre ++ block v false ∷ [], t)
join_left_taken [] v t = refl
join_left_taken (b ∷ []) v t = refl
join_left_taken (b ∷ c ∷ pre) v t = ap (λ r. (b ∷ r.0, r.1)) (join_left_taken (c ∷ pre) v t)

pub last_free-append :
    (p : Bool) (pre : List Block) (b : Block) → last_free p (pre ++ b ∷ []) ≡ b.free
last_free-append p [] b = refl
last_free-append p (c ∷ pre) b = last_free-append c.free pre b

-- What is left when the block in front has been looked at: the block at the end of `r.0`, of `r.1` bytes.
abbrev pub Joined : ℕ → State → ℕ × State → List Block × ℕ → Bool → List Block → Type 0
Joined start s out r g post =
    (out.0 ≡ stop start r.0) × Holds s out.1 r.0 (stop start r.0) r.1 g (last_free false r.0) post

absorb_taken :
    (s : State) (pre : List Block) (t : ℕ) (g : Bool) (post : List Block)
    → let x = stop s.alloc.heap_start pre in
      Around s pre x (x + t) g post
      → HasHeader s.mem x t true (last_free false pre)
      → 32 ≤ t
      → last_free false pre ≡ false
      → Joined s.alloc.heap_start s (absorb_prev s x) (pre, t) g post
unfolding absorb_prev
absorb_taken s pre t g post h hd big e = rw (block_is_prev_free_lem hd) (
    rw e (
      refl,
      record {
        around = h;
        head = subst (HasHeader s.mem (stop s.alloc.heap_start pre) t true) e hd;
        bounds = SameBounds-refl s.alloc;
        big = big;
      },
    ))

module _ (s : State) (pre : List Block) (v x t : ℕ) (g : Bool) (post : List Block)
    (h : Around s (pre ++ block v true ∷ []) x (x + t) g post)
    (hd : HasHeader s.mem x t true true) where
  abbrev y : ℕ
  y = stop s.alloc.heap_start pre

  last_block : HasBlock s.mem y (last_free false pre) (block v true)
  last_block = (Tiled-split s.mem s.alloc.heap_start false pre (block v true ∷ []) x h.front).1.0

  prev_is : y + v ≡ x → block_prev s.mem x ≡ y
  prev_is e =
      block_prev_lem s.mem x v (omega (arith, h.low, Around-ends h))
        (omega (arith, h.high, Around-ends h))
        (subst (λ k. load64 s.mem (k - 8) ≡ v) e (last_block.foot refl)) (omega arith)
      ∙ omega arith

  absorb_free : 32 ≤ t → Joined s.alloc.heap_start s (absorb_prev s x) (pre, v + t) g post
  unfolding absorb_prev
  absorb_free big =
      let (e, a, grown) = grow_left s pre v x (x + t) g post h in
      let s1 = remove_from_free_list s y in
      let large = last_block.big in
      let hy : HasHeader s1.mem y v true (last_free false pre) = record {
        word = grown.words y (omega arith) (omega (arith, big)) ∙ last_block.head.word;
        aligned = last_block.head.aligned;
      } in
      let hx : HasHeader s1.mem x t true true = record {
        word = grown.words x (omega arith) (omega (arith, big)) ∙ hd.word;
        aligned = hd.aligned;
      } in
      let sum : add64 v t ≡ v + t = omega (arith, a.high, Around-ends a) in
      rw (block_is_prev_free_lem hd) (
        rw (prev_is e) (
          rw (block_size_lem hy, block_size_lem hx)
            (rw sum (
              refl,
              resize s s1 pre y (x + t) (v + t) g (last_free false pre) post v a hy grown.bounds
                  (omega arith) (omega arith) (omega (arith, hd.aligned, hy.aligned)),
            ))))

-- absorb_prev lets the block in front take the region's block in if it is free.
pub absorb_prev_lem :
    (s : State) (pre : List Block) (t : ℕ) (g : Bool) (post : List Block)
    → let x = stop s.alloc.heap_start pre in
      Around s pre x (x + t) g post
      → HasHeader s.mem x t true (last_free false pre)
      → 32 ≤ t
      → Joined s.alloc.heap_start s (absorb_prev s x) (join_left pre t) g post
absorb_prev_lem s pre t g post h hd big = by_view pre (Snoc-view pre) h hd
  where
    by_view :
        (pre : List Block)
        → Snoc pre
        → let x = stop s.alloc.heap_start pre in
          Around s pre x (x + t) g post
          → HasHeader s.mem x t true (last_free false pre)
          → Joined s.alloc.heap_start s (absorb_prev s x) (join_left pre t) g post
    by_view _ empty h hd = absorb_taken s [] t g post h hd big refl
    by_view _ (snoc pre v false) h hd =
        subst
          (λ r.
            Joined s.alloc.heap_start s
              (absorb_prev s (stop s.alloc.heap_start (pre ++ block v false ∷ []))) r g post)
          (sym (join_left_taken pre v t))
          (absorb_taken s (pre ++ block v false ∷ []) t g post h hd big
            (last_free-append false pre (block v false)))
    by_view _ (snoc pre v true) h hd =
        let x = stop s.alloc.heap_start (pre ++ block v true ∷ []) in
        subst (λ r. Joined s.alloc.heap_start s (absorb_prev s x) r g post)
          (sym (join_left_free pre v t))
          (absorb_free s pre v x t g post h
            (subst (HasHeader s.mem x t true) (last_free-append false pre (block v true)) hd) big)
