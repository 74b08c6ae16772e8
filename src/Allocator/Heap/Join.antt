-- ===== src/Allocator/Heap/Join.antt =====
-- coalesce on a region that holds one block: free neighbours on either side are taken in.
use tutorial_os.Common.{
  ℕ, ◌+◌, ◌%◌, ◌≤◌, ◌<◌, ◌^◌, ◌≡◌, refl, ◌∙◌, sym, subst, Bool, true, false, ◌&&◌, List, [], ◌∷◌,
  arith, ltb, if◌then◌else◌, lt→ltb, le→ltb_false,
}
use tutorial_os.Word.{add64}
use tutorial_os.Memory.{store64}
use tutorial_os.Memory.Laws.{load64-store64_self}
use tutorial_os.Memory.Writes.{Writes-store64}
use tutorial_os.Allocator.Block.{block_size, block_set_size, block_next, block_is_free}
use tutorial_os.Allocator.Block.Header.{
  HasHeader, header, block_size_lem, block_set_size_lem, block_next_lem, block_is_free_lem,
}
use tutorial_os.Allocator.FreeList.{Allocator, State, remove_from_free_list}
use tutorial_os.Allocator.FreeList.Listing.{SameBounds}
use tutorial_os.Allocator.Merge.{absorb_next}
use tutorial_os.Allocator.Tiling.{Block, block, HasBlock}
use tutorial_os.Allocator.Tiling.Place.{Tiled-le}
use tutorial_os.Allocator.Heap.{Around}
use tutorial_os.Allocator.Heap.Region.{Around-ends, Around-Writes}
use tutorial_os.Allocator.Heap.Region.Grow.{grow_right}

-- the size and the rest when a free block of `t` bytes takes in a free block behind it
abbrev pub join_right : ℕ → List Block → ℕ × List Block
join_right t [] = (t, [])
join_right t (b ∷ post) = if b.free then (t + b.size, post) else (t, b ∷ post)

-- the front and the size when it is taken in by a free block in front of it
abbrev pub join_left : List Block → ℕ → List Block × ℕ
join_left [] t = ([], t)
join_left (b ∷ []) t = if b.free then ([], b.size + t) else (b ∷ [], t)
join_left (b ∷ c ∷ pre) t = let (pre', t') = join_left (c ∷ pre) t in (b ∷ pre', t')

-- The region from `x` holds one free block of `t` bytes.
pub record Holds (s s' : State) (pre : List Block) (x t : ℕ) (g q : Bool) (post : List Block)
    : Type 0 where
  pub around : Around s' pre x (x + t) g post
  pub head : HasHeader s'.mem x t true q
  pub bounds : SameBounds s.alloc s'.alloc
  pub big : 32 ≤ t

pub SameBounds-refl : (a : Allocator) → SameBounds a a
SameBounds-refl a = record {
  heap_start = refl;
  heap_end = refl;
  allocated = refl;
  free_space = refl;
  initialized = refl;
}

pub SameBounds-trans : {a b c : Allocator} → SameBounds a b → SameBounds b c → SameBounds a c
SameBounds-trans f g = record {
  heap_start = g.heap_start ∙ f.heap_start;
  heap_end = g.heap_end ∙ f.heap_end;
  allocated = g.allocated ∙ f.allocated;
  free_space = g.free_space ∙ f.free_space;
  initialized = g.initialized ∙ f.initialized;
}

pub header-lt : (n : ℕ) (f q : Bool) → n + 4 < 2 ^ 64 → header n f q < 2 ^ 64
header-lt n f q k = ground arith

-- A new size in the header of the block that the region holds.
pub resize :
    (s s' : State) (pre : List Block) (x z t : ℕ) (g q : Bool) (post : List Block) (old : ℕ)
    → Around s' pre x z g post
    → HasHeader s'.mem x old true q
    → SameBounds s.alloc s'.alloc
    → x + t ≡ z
    → 32 ≤ t
    → t % 8 ≡ 0
    → Holds s (record s' { mem = block_set_size s'.mem x t }) pre x t g q post
resize s s' pre x z t g q post old h hd b e big al =
    let top : z < 2 ^ 64 = omega (arith, h.high, Around-ends h) in
    rw (block_set_size_lem hd t al) (record {
      around =
          subst
            (λ k. Around (record s' { mem = store64 s'.mem x (header t true q) }) pre x k g post)
            (sym e)
            (Around-Writes h (record s' { mem = store64 s'.mem x (header t true q) }) (x ∷ [])
              (Writes-store64 s'.mem x (header t true q)) (λ w o. (omega arith, tt)) refl refl refl
              refl);
      head = record {
        word = load64-store64_self s'.mem x (header t true q) (header-lt t true q (omega arith));
        aligned = al;
      };
      bounds = b;
      big = big;
    })

module _ (s : State) (pre : List Block) (x t : ℕ) (g q : Bool) where
  next_is :
      (post : List Block)
      → Around s pre x (x + t) g post
      → HasHeader s.mem x t true q
      → block_next s.mem x ≡ x + t
  next_is post h hd = block_next_lem hd (omega (arith, h.high, Around-ends h))

  -- absorb_next takes in the block behind if it is free.
  pub absorb_next_lem :
      (post : List Block)
      → Around s pre x (x + t) g post
      → HasHeader s.mem x t true q
      → 32 ≤ t
      → (g' : Bool) × Holds s
          (absorb_next s x)
          pre
          x
          (join_right t post).0
          g'
          q
          (join_right t post).1
  unfolding absorb_next
  absorb_next_lem [] h hd big = (
    g,
    rw (next_is [] h hd) (
        rw (le→ltb_false (x + t) s.alloc.heap_end (omega (arith, h.back)))
          (record { around = h; head = hd; bounds = SameBounds-refl s.alloc; big = big })),
  )
  absorb_next_lem (b ∷ post) h hd big =
      let (hb, rest) = h.back in
      let behind = Tiled-le s.mem (x + t + b.size) b.free post s.alloc.heap_end rest in
      let lt = lt→ltb (x + t) s.alloc.heap_end (omega (arith, hb.big)) in next b.size b.free h hb lt
    where
      next :
          (u : ℕ) (f : Bool)
          → Around s pre x (x + t) g (block u f ∷ post)
          → HasBlock s.mem (x + t) g (block u f)
          → ltb (x + t) s.alloc.heap_end ≡ true
          → (g' : Bool) × Holds s
              (if ltb (block_next s.mem x) s.alloc.heap_end
                  && block_is_free s.mem (block_next s.mem x)
                then (let s1 = remove_from_free_list s (block_next s.mem x) in
                    let new_size =
                      add64 (block_size s1.mem x) (block_size s1.mem (block_next s.mem x)) in
                    record s1 { mem = block_set_size s1.mem x new_size })
                else s)
              pre
              x
              (join_right t (block u f ∷ post)).0
              g'
              q
              (join_right t (block u f ∷ post)).1
      next u false h hb lt = (
        g,
        rw (next_is (block u false ∷ post) h hd) (
            rw lt (
              rw (block_is_free_lem hb.head)
                (record { around = h; head = hd; bounds = SameBounds-refl s.alloc; big = big }))),
      )
      next u true h hb lt =
          let (a, grown) = grow_right s pre x (x + t) g u post h in
          let s1 = remove_from_free_list s (x + t) in
          let hx : HasHeader s1.mem x t true q = record {
            word = grown.words x (omega arith) (omega (arith, hb.big)) ∙ hd.word;
            aligned = hd.aligned;
          } in
          let hn : HasHeader s1.mem (x + t) u true g = record {
            word = grown.words (x + t) (omega arith) (omega (arith, hb.big)) ∙ hb.head.word;
            aligned = hb.head.aligned;
          } in
          let sum : add64 t u ≡ t + u = omega (arith, a.high, Around-ends a) in
          (
            true,
            rw (next_is (block u true ∷ post) h hd) (
                rw lt (
                  rw (block_is_free_lem hb.head) (
                    rw (block_size_lem hx, block_size_lem hn)
                      (rw sum (
                        resize s s1 pre x (x + t + u) (t + u) true q post t a hx grown.bounds
                          (omega arith) (omega arith)
                          (omega (arith, hd.aligned, hb.head.aligned))))))),
          )
