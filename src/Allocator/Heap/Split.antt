-- ===== src/Allocator/Heap/Split.antt =====
-- split_block on a region that holds one block: the block keeps what is needed, and a remainder of at
-- least 32 bytes goes back to the lists as a free block.
use tutorial_os.Common.{
  ℕ, ◌+◌, ◌-◌, ◌%◌, ◌≤◌, ◌<◌, ◌^◌, ◌≡◌, refl, ◌∙◌, ap, sym, subst, Bool, true, false, List, [], ◌∷◌,
  arith, ltb, if◌then◌else◌, lt→ltb, le→ltb_false, dec_lt,
}
use tutorial_os.Word.{add64, sub64}
use tutorial_os.Memory.{Memory, store64}
use tutorial_os.Memory.Laws.{load64-store64_self}
use tutorial_os.Memory.Writes.{Writes, Writes-store64, Writes-load64, Writes-same}
use tutorial_os.Allocator.Block.{block_next}
use tutorial_os.Allocator.Block.Header.{
  HasHeader, header, block_size_lem, block_set_size_lem, block_next_lem, block_set_prev_free_lem,
}
use tutorial_os.Allocator.FreeList.{State, insert_into_free_list}
use tutorial_os.Allocator.FreeList.Listing.{SameBounds}
use tutorial_os.Allocator.Merge.{mark_next, make_remainder, split_block}
use tutorial_os.Allocator.Tiling.{Block, block, HasBlock, Tiled}
use tutorial_os.Allocator.Tiling.Place.{Tiled-le}
use tutorial_os.Allocator.Heap.{Around}
use tutorial_os.Allocator.Heap.Fresh.{fresh_words, make_remainder_lem}
use tutorial_os.Allocator.Heap.Region.{Around-ends, Around-Writes}
use tutorial_os.Allocator.Heap.Region.Give.{give_free}

-- what becomes of a free block of `t` bytes of which `needed` are taken
abbrev pub carve : ℕ → ℕ → List Block → List Block
carve t needed post =
    if ltb (t - needed) 32
    then block t false ∷ post
    else block needed false ∷ block (t - needed) true ∷ post

-- The flag of the block behind a free block is already set; setting it again changes nothing.
mark_again :
    (s : State) (pre : List Block) (x r u : ℕ) (g : Bool) (post : List Block)
    → Around s pre x r g (block u true ∷ post)
    → Writes s.mem [] (mark_next s r true).mem × ((mark_next s r true).alloc ≡ s.alloc)
unfolding mark_next
mark_again s pre x r u g post h = again post h.back
  where
    next_is : block_next s.mem r ≡ r + u
    next_is =
        block_next_lem h.back.0.head
          (omega (arith, h.high, Tiled-le s.mem (r + u) true post s.alloc.heap_end h.back.1))

    again :
        (post : List Block)
        → Tiled s.mem r g (block u true ∷ post) s.alloc.heap_end
        → Writes s.mem [] (mark_next s r true).mem × ((mark_next s r true).alloc ≡ s.alloc)
    again [] (hb, at) = rw next_is (
        rw (le→ltb_false (r + u) s.alloc.heap_end (omega arith))
          (record { same = λ c o. refl }, refl))
    again (c ∷ post) (hb, (hc, rest)) =
        let behind = Tiled-le s.mem (r + u + c.size) c.free post s.alloc.heap_end rest in
        rw next_is (
          rw (lt→ltb (r + u) s.alloc.heap_end (omega (arith, hc.big))) (
            rw (block_set_prev_free_lem hc.head true)
              (Writes-same s.mem (r + u) (header c.size c.free true) hc.head.word, refl)))

-- The state that split_block leaves: the block at `x` has `n` bytes, `rest` follows it.
pub record Carved (s s' : State) (pre : List Block) (x t needed : ℕ) (q : Bool) (post : List Block)
    (n : ℕ) (g : Bool) (rest : List Block) : Type 0 where
  pub around : Around s' pre x (x + n) g rest
  pub head : HasHeader s'.mem x n true q
  pub bounds : SameBounds s.alloc s'.alloc
  pub blocks : carve t needed post ≡ block n false ∷ rest
  pub enough : needed ≤ n
  pub within : n ≤ t

module _ (s : State) (pre : List Block) (x t needed : ℕ) (q : Bool) (post : List Block)
    (h : Around s pre x (x + t) true post) (hd : HasHeader s.mem x t true q) (le : needed ≤ t)
    (big : 32 ≤ needed) (al : needed % 8 ≡ 0) where
  top : x + t < 2 ^ 64
  top = omega (arith, h.high, Around-ends h)

  whole : t - needed < 32 → split_block s x needed ≡ s
  unfolding split_block
  whole small = rw (block_size_lem hd) (rw (lt→ltb (sub64 t needed) 32 (omega (arith, top, small))))

  SameBounds-refl : SameBounds s.alloc s.alloc
  SameBounds-refl = record {
    heap_start = refl;
    heap_end = refl;
    allocated = refl;
    free_space = refl;
    initialized = refl;
  }

  Carved-whole :
      t - needed < 32 → Carved s (split_block s x needed) pre x t needed q post t true post
  Carved-whole small = rw (whole small) (record {
    around = h;
    head = hd;
    bounds = SameBounds-refl;
    blocks = rw (lt→ltb (t - needed) 32 small);
    enough = le;
    within = omega arith;
  })

  module _ (large : 32 ≤ t - needed) where
    abbrev r : ℕ
    r = x + needed

    abbrev u : ℕ
    u = t - needed

    abbrev m1 : Memory
    m1 = store64 s.mem x (header needed true q)

    abbrev m2 : Memory
    m2 = make_remainder m1 (x + needed) (t - needed)

    abbrev s2 : State
    s2 = record s { mem = m2 }

    fresh : HasBlock m2 r false (block u true) × Writes m1 (fresh_words r u) m2
    fresh = make_remainder_lem m1 r u large (omega (arith, hd.aligned)) (omega (arith, top))

    head1 : HasHeader m1 x needed true q
    head1 = record {
      word =
          load64-store64_self s.mem x (header needed true q)
            (header-lt needed q (omega (arith, top)));
      aligned = al;
    }
      where
        header-lt : (n : ℕ) (q : Bool) → n + 4 < 2 ^ 64 → header n true q < 2 ^ 64
        header-lt n q k = ground arith

    head2 : HasHeader m2 x needed true q
    head2 = record {
      word =
          Writes-load64 x fresh.1 (omega arith, (omega arith, (omega arith, (omega arith, tt))))
          ∙ head1.word;
      aligned = al;
    }

    around1 : Around (record s { mem = m1 }) pre x (x + t) true post
    around1 =
        Around-Writes h (record s { mem = m1 }) (x ∷ [])
          (Writes-store64 s.mem x (header needed true q)) (λ w o. (omega arith, tt)) refl refl refl
          refl

    around2 : Around s2 pre x (r + u) true post
    around2 =
        subst (λ z. Around s2 pre x z true post) (omega arith)
          (Around-Writes around1 s2 (fresh_words r u) fresh.1
            (λ w o. (omega arith, (omega arith, (omega arith, (omega arith, tt))))) refl refl refl
            refl)

    split_eq : split_block s x needed ≡ mark_next (insert_into_free_list s2 r) r true
    unfolding split_block
    split_eq = rw (block_size_lem hd) (
        rw (remainder_is) (
          rw (le→ltb_false (t - needed) 32 large)
            (rw (block_set_size_lem hd needed al) (rw (place_is)))))
      where
        remainder_is : sub64 t needed ≡ t - needed
        remainder_is = omega (arith, top)

        place_is : add64 x needed ≡ x + needed
        place_is = omega (arith, top)

    Carved-split :
        Carved s
          (split_block s x needed)
          pre
          x
          t
          needed
          q
          post
          needed
          false
          (block (t - needed) true ∷ post)
    Carved-split =
        let (around3, grown) = give_free s2 pre x r u false post around2 (omega arith) fresh.0 in
        let s3 = insert_into_free_list s2 r in
        let (same, alloc_same) = mark_again s3 pre x r u false post around3 in
        rw split_eq (record {
          around =
              Around-Writes around3 (mark_next s3 r true) [] same (λ w o. tt)
                (ap (λ a. a.free_lists) alloc_same) (ap (λ a. a.free_bitmap) alloc_same)
                (ap (λ a. a.heap_start) alloc_same) (ap (λ a. a.heap_end) alloc_same);
          head = record {
            word = Writes-load64 x same tt ∙ grown.words x (omega arith) (omega arith) ∙ head2.word;
            aligned = al;
          };
          bounds = subst (λ a. SameBounds s.alloc a) (sym alloc_same) grown.bounds;
          blocks = rw (le→ltb_false (t - needed) 32 large);
          enough = omega arith;
          within = le;
        })

-- split_block on an owned free block of at least the bytes needed, which are at least 32 and a
-- multiple of 8, carves it up as the abstract heap says and keeps all around it.
pub split_block_lem :
    (s : State) (pre : List Block) (x t needed : ℕ) (q : Bool) (post : List Block)
    → Around s pre x (x + t) true post
    → HasHeader s.mem x t true q
    → needed ≤ t
    → 32 ≤ needed
    → needed % 8 ≡ 0
    → (n : ℕ) × (g : Bool) × (rest : List Block) × Carved s
        (split_block s x needed)
        pre
        x
        t
        needed
        q
        post
        n
        g
        rest
split_block_lem s pre x t needed q post h hd le big al = elim (dec_lt (t - needed) 32) [
  | yes small ↦ (t, true, post, Carved-whole s pre x t needed q post h hd le big al small)
  | no large ↦ (
    needed,
    false,
    block (t - needed) true ∷ post,
    Carved-split s pre x t needed q post h hd le big al (omega arith),
  )
]
