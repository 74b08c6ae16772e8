-- ===== src/Allocator/Heap/Take.antt =====
-- The block that the search found is taken: out of its list, split, marked and counted.
use tutorial_os.Common.{
  ℕ, ◌+◌, ◌-◌, ◌%◌, ◌≤◌, ◌<◌, ◌^◌, ◌≡◌, refl, ◌∙◌, ap, sym, subst, Bool, true, false, List, [], ◌∷◌,
  ◌++◌, arith, dec_lt, lt→ltb, le→ltb_false,
}
use tutorial_os.Word.{add64, sub64}
use tutorial_os.Memory.{store64}
use tutorial_os.Memory.Laws.{load64-store64_self}
use tutorial_os.Memory.Writes.{Writes-store64, Writes-refl}
use tutorial_os.Allocator.Block.{block_size, block_set_free}
use tutorial_os.Allocator.Block.Header.{
  HasHeader, header, size-lt, block_size_lem, block_set_free_lem, block_next_lem, block_payload_lem,
}
use tutorial_os.Allocator.FreeList.{Allocator, State, remove_from_free_list}
use tutorial_os.Allocator.FreeList.Listing.{SameBounds}
use tutorial_os.Allocator.Merge.{mark_next, split_block}
use tutorial_os.Allocator.Api.{take_block}
use tutorial_os.Allocator.Tiling.{Block, block, stop, last_free, taken_bytes, free_bytes, Merged}
use tutorial_os.Allocator.Tiling.Place.{
  taken_bytes-append, free_bytes-append, Merged-split, Merged-join, taken_add_free,
}
use tutorial_os.Allocator.Heap.{Heap, Around}
use tutorial_os.Allocator.Heap.Split.{carve, Carved, split_block_lem}
use tutorial_os.Allocator.Heap.Seal.{unseal, seal_at}
use tutorial_os.Allocator.Heap.Region.{Around-ends, Around-Writes}
use tutorial_os.Allocator.Heap.Region.Grow.{grow_right}
use tutorial_os.Allocator.Heap.Region.Give.{give_taken}
use tutorial_os.Allocator.Heap.Region.Mark.{mark_next_lem}

-- The block is marked, its neighbour told, and the statistics brought up to date.
abbrev marked : State → ℕ → State
marked s x = record s { mem = block_set_free s.mem x false }

abbrev count_taken : Allocator → ℕ → Allocator
count_taken a n = record a { allocated = add64 a.allocated n; free_space = sub64 a.free_space n }

abbrev counted : State → ℕ → State
counted s n = record s { alloc = count_taken s.alloc n }

abbrev finished : State → ℕ → State
finished s x = counted (mark_next s x false) (block_size s.mem x)

module _ (s : State) (pre : List Block) (x n : ℕ) (q g : Bool) (rest : List Block)
    (h : Around s pre x (x + n) g rest) (hd : HasHeader s.mem x n true q) (big : 32 ≤ n) where
  top : x + n < 2 ^ 64
  top = omega (arith, h.high, Around-ends h)

  abbrev sm : State
  sm = record s { mem = store64 s.mem x (header n false q) }

  marked_is : marked s x ≡ sm
  marked_is = rw (block_set_free_lem hd false)

  head : HasHeader (store64 s.mem x (header n false q)) x n false q
  head = record {
    word = load64-store64_self s.mem x (header n false q) (header-lt n q (size-lt hd));
    aligned = hd.aligned;
  }
    where
      header-lt : (n : ℕ) (q : Bool) → n + 4 < 2 ^ 64 → header n false q < 2 ^ 64
      header-lt n q k = ground arith

  around : Around sm pre x (x + n) g rest
  around =
      Around-Writes h sm (x ∷ []) (Writes-store64 s.mem x (header n false q))
        (λ w o. (omega arith, tt)) refl refl refl refl

  abbrev after : State
  after = finished (marked s x) x

  after_is : after ≡ counted (mark_next sm x false) n
  after_is =
      ap (λ t. finished t x) marked_is
      ∙ ap (λ k. counted (mark_next sm x false) k) (block_size_lem head)

  finish : Around after pre x x q (block n false ∷ rest) × (after.alloc ≡ count_taken s.alloc n)
  finish =
      let (a, grown, same) =
        mark_next_lem sm pre x x (x + n) false g rest around (block_next_lem head top) in
      let hd' : HasHeader (mark_next sm x false).mem x n false q = record {
        word = grown.words x (omega arith) (omega arith) ∙ head.word;
        aligned = hd.aligned;
      } in
      let given =
        give_taken (mark_next sm x false) pre x x n q rest a (omega arith)
          (record { head = hd'; big = big; foot = λ k. cc }) in
      let done =
        Around-Writes given (counted (mark_next sm x false) n) []
          (Writes-refl (mark_next sm x false).mem) (λ w o. tt) refl refl refl refl in
      (
        subst (λ t. Around t pre x x q (block n false ∷ rest)) (sym after_is) done,
        ap (λ t. t.alloc) after_is ∙ ap (λ a. count_taken a n) same,
      )

head_size : List Block → ℕ
head_size [] = 0
head_size (b ∷ bs) = b.size

carve_bytes :
    (t needed : ℕ) (post : List Block)
    → needed ≤ t
    → (n : ℕ) (rest : List Block) → carve t needed post ≡ block n false ∷ rest
    → (taken_bytes rest ≡ taken_bytes post) × (free_bytes rest + n ≡ free_bytes post + t)
unfolding head_size
carve_bytes t needed post le n rest e =
    ground (arith, ap taken_bytes e, ap free_bytes e, ap head_size e)

Merged-weaken : (bs : List Block) → Merged true bs → Merged false bs
Merged-weaken [] h = tt
Merged-weaken (b ∷ bs) h = (λ e. cc, h.1)

carve-Merged :
    (t needed : ℕ) (q : Bool) (post : List Block)
    → Merged q (block t true ∷ post)
    → Merged q (carve t needed post)
carve-Merged t needed q post h = elim (dec_lt (t - needed) 32) [
  | yes small ↦ rw (lt→ltb (t - needed) 32 small) ((λ e. refl), Merged-weaken post h.1)
  | no large ↦ rw (le→ltb_false (t - needed) 32 (omega arith)) ((λ e. refl), (λ e. cc, h.1))
]

taken_count :
    (pre : List Block) (t n : ℕ) (post rest : List Block) (a : ℕ)
    → a ≡ taken_bytes (pre ++ block t true ∷ post)
    → taken_bytes rest ≡ taken_bytes post
    → n ≤ t
    → taken_bytes (pre ++ block t true ∷ post) + free_bytes (pre ++ block t true ∷ post) < 2 ^ 64
    → add64 a n ≡ taken_bytes (pre ++ block n false ∷ rest)
taken_count pre t n post rest a e f le room = omega (
  arith,
  taken_bytes-append pre (block t true ∷ post),
  free_bytes-append pre (block t true ∷ post),
  taken_bytes-append pre (block n false ∷ rest),
)

free_count :
    (pre : List Block) (t n : ℕ) (post rest : List Block) (a : ℕ)
    → a ≡ free_bytes (pre ++ block t true ∷ post)
    → free_bytes rest + n ≡ free_bytes post + t
    → n ≤ t
    → taken_bytes (pre ++ block t true ∷ post) + free_bytes (pre ++ block t true ∷ post) < 2 ^ 64
    → sub64 a n ≡ free_bytes (pre ++ block n false ∷ rest)
free_count pre t n post rest a e f le room = omega (
  arith,
  free_bytes-append pre (block t true ∷ post),
  free_bytes-append pre (block n false ∷ rest),
)

-- What is left of the heap once the region has been given back.
module _ (s s1 s2 : State) (pre : List Block) (t needed n : ℕ) (g : Bool) (rest post : List Block)
    (h : Heap s (pre ++ block t true ∷ post)) (b : SameBounds s.alloc s1.alloc)
    (carved : Carved s1 s2 pre
      (stop s.alloc.heap_start pre)
      t
      needed
      (last_free false pre)
      post
      n
      g
      rest)
    (le : needed ≤ t) (s3 : State) (counts : s3.alloc ≡ count_taken s2.alloc n)
    (around3 : Around s3 pre
      (stop s.alloc.heap_start pre)
      (stop s.alloc.heap_start pre)
      (last_free false pre)
      (block n false ∷ rest)) where
  total :
      taken_bytes (pre ++ block t true ∷ post) + free_bytes (pre ++ block t true ∷ post) < 2 ^ 64
  total = omega (
    arith,
    h.high,
    taken_add_free s.mem s.alloc.heap_start false (pre ++ block t true ∷ post) s.alloc.heap_end
        h.tiled,
  )

  bytes : (taken_bytes rest ≡ taken_bytes post) × (free_bytes rest + n ≡ free_bytes post + t)
  bytes = carve_bytes t needed post le n rest carved.blocks

  Merged-rest : Merged false (pre ++ block n false ∷ rest)
  Merged-rest =
      let (l, r) = Merged-split false pre (block t true ∷ post) h.merged in
      Merged-join false pre (block n false ∷ rest) l (
        subst (Merged (last_free false pre)) carved.blocks
          (carve-Merged t needed (last_free false pre) post r))

  start_kept : s3.alloc.heap_start ≡ s.alloc.heap_start
  start_kept = ap (λ a. a.heap_start) counts ∙ carved.bounds.heap_start ∙ b.heap_start

  taken_Heap : Heap s3 (pre ++ carve t needed post)
  taken_Heap =
      subst (λ bs. Heap s3 (pre ++ bs)) (sym carved.blocks)
        (seal_at s s3 pre (block n false ∷ rest) around3 start_kept
          (ap (λ a. a.initialized) counts ∙ carved.bounds.initialized ∙ b.initialized ∙ h.ready)
          h.aligned Merged-rest
          (ap (λ a. a.allocated) counts
            ∙ taken_count pre t n post rest s2.alloc.allocated
                (carved.bounds.allocated ∙ b.allocated ∙ h.taken) bytes.0 carved.within total)
          (ap (λ a. a.free_space) counts
            ∙ free_count pre t n post rest s2.alloc.free_space
                (carved.bounds.free_space ∙ b.free_space ∙ h.spare) bytes.1 carved.within total))

-- Taking a free block of at least the bytes needed, which are at least 32 and a multiple of 8,
-- returns the address behind its header and represents the heap with the block carved up,
-- statistics and flags included.
pub take_block_lem :
    (s : State) (pre : List Block) (t needed : ℕ) (post : List Block)
    → Heap s (pre ++ block t true ∷ post)
    → needed ≤ t
    → 32 ≤ needed
    → needed % 8 ≡ 0
    → let x = stop s.alloc.heap_start pre in
      ((take_block s x needed).0 ≡ x + 8)
      × Heap (take_block s x needed).1 (pre ++ carve t needed post)
      × ((take_block s x needed).1.alloc.heap_start ≡ s.alloc.heap_start)
unfolding take_block
take_block_lem s pre t needed post h le big al =
    let x = stop s.alloc.heap_start pre in
    let q = last_free false pre in
    let whole = unseal s pre (block t true ∷ post) h in
    let (around1, grown1) = grow_right s pre x x q t post whole in
    let s1 = remove_from_free_list s x in
    let hd1 : HasHeader s1.mem x t true q = record {
      word = grown1.words x (omega arith) (omega (arith, big)) ∙ whole.back.0.head.word;
      aligned = whole.back.0.head.aligned;
    } in
    let (n, g, rest, carved) = split_block_lem s1 pre x t needed q post around1 hd1 le big al in
    let s2 = split_block s1 x needed in
    let (around3, alloc3) =
      finish s2 pre x n q g rest carved.around carved.head (omega (arith, carved.enough)) in
    (
      block_payload_lem x (omega (arith, h.high, Around-ends around1)),
      taken_Heap s s1 s2 pre t needed n g rest post h grown1.bounds carved le
          (finished (marked s2 x) x) alloc3 around3,
      start_kept s s1 s2 pre t needed n g rest post h grown1.bounds carved le
          (finished (marked s2 x) x) alloc3 around3,
    )
