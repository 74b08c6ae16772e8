-- ===== src/Allocator/Heap/Alloc.antt =====
-- allocator_alloc: when a request is refused, and what is left of the heap when it is served.
use tutorial_os.Common.{
  ℕ, ◌+◌, ◌%◌, ◌≤◌, ◌<◌, ◌^◌, ◌≡◌, ◌≢◌, ◌⊎◌, inl, inr, refl, ◌∙◌, ap, sym, subst, true, false, List,
  [], ◌∷◌, ◌++◌, arith, ◌==◌, if◌then◌else◌, dec_lt, ne→==_false, guard_open,
}
use tutorial_os.Memory.{Memory, null}
use tutorial_os.Allocator.Block.{block_from_node}
use tutorial_os.Allocator.Block.Header.{block_from_node_lem}
use tutorial_os.Allocator.SizeClass.{num_size_classes, size_class}
use tutorial_os.Allocator.SizeClass.Bounds.{size_class-lt, lt_of_size_class}
use tutorial_os.Allocator.FreeList.{State, head_of, find_free_block}
use tutorial_os.Allocator.FreeList.Chain.{In, Chain}
use tutorial_os.Allocator.FreeList.Find.{Found, find_free_block_lem}
use tutorial_os.Allocator.Api.{block_size_needed, take_block, allocator_alloc}
use tutorial_os.Allocator.Api.Needed.{block_size_needed_lem}
use tutorial_os.Allocator.Tiling.{Block, block, FreeAt, stop}
use tutorial_os.Allocator.Tiling.Place.{FreeAt-bounds, FreeAt-place}
use tutorial_os.Allocator.Heap.{Heap}
use tutorial_os.Allocator.Heap.Split.{carve}
use tutorial_os.Allocator.Heap.Take.{take_block_lem}

-- One free block of the heap serves the request: it is carved up, and the result is its payload.
pub record Served (start : ℕ) (bs : List Block) (needed : ℕ) (out : ℕ × State) : Type 0 where
  pub front : List Block
  pub bytes : ℕ
  pub behind : List Block
  pub place : bs ≡ front ++ block bytes true ∷ behind
  pub fits : needed ≤ bytes
  pub payload : out.0 ≡ stop start front + 8
  pub heap : Heap out.1 (front ++ carve bytes needed behind)
  pub start_kept : out.1.alloc.heap_start ≡ start

head_In :
    (m : Memory) (p c : ℕ) (bs : List ℕ)
    → Chain m p c bs
    → c ≢ null
    → (b : ℕ) × In b bs × (c ≡ b + 8)
head_In m p c [] h held = absurd (held h)
head_In m p c (b ∷ bs) h held = (b, inl refl, h.0)

null_empty : (m : Memory) (p b : ℕ) (bs : List ℕ) → Chain m p null bs → ¬ In b bs
null_empty m p b [] h i = absurd i
null_empty m p b (c ∷ bs) h i = omega (arith, h.0)

module _ (s : State) (bs : List Block) (needed : ℕ) (h : Heap s bs) where
  FreeAt-room : (x t : ℕ) → FreeAt s.alloc.heap_start bs x t → x + t < 2 ^ 64
  FreeAt-room x t f = omega (
    arith,
    h.high,
    (FreeAt-bounds s.mem s.alloc.heap_start false bs s.alloc.heap_end x t h.tiled f).1,
  )

  -- The search finds a free block of the heap.
  Found-block :
      (c : ℕ)
      → Found s.alloc needed c
      → (x t : ℕ) × FreeAt s.alloc.heap_start bs x t
        × (size_class needed ≤ size_class t)
        × (find_free_block s.alloc needed ≡ x)
        × (16 ≤ x)
  Found-block c f =
      let (b, i, e) =
        head_In s.mem null (head_of s.alloc c) (h.chains c) (h.listing.chain c f.in_range) f.held in
      let (t, fb, ec) = h.listing.sound c b f.in_range i in
      let (lo, _, _, _) =
        FreeAt-bounds s.mem s.alloc.heap_start false bs s.alloc.heap_end b t h.tiled fb in
      (
        b,
        t,
        fb,
        omega (arith, f.enough),
        f.result
            ∙ ap block_from_node e
            ∙ block_from_node_lem b (
                omega (
                  arith,
                  FreeAt-room b t fb,
                  (FreeAt-bounds s.mem s.alloc.heap_start false bs s.alloc.heap_end b t h.tiled
                      fb).2,
                )),
        omega (arith, h.low),
      )

  -- When every list from the class on is empty, every free block is of a lower class.
  none_free :
      ((d : ℕ) → size_class needed ≤ d → d < num_size_classes → head_of s.alloc d ≡ null)
      → (x t : ℕ) → FreeAt s.alloc.heap_start bs x t
      → size_class t < size_class needed
  none_free empty x t f = elim (dec_lt (size_class t) (size_class needed)) [
    | yes below ↦ below
    | no above ↦
        let lt = size_class-lt t (omega (arith, FreeAt-room x t f)) in
        absurd (
          null_empty s.mem null x (h.chains (size_class t))
            (subst (λ c. Chain s.mem null c (h.chains (size_class t)))
              (empty (size_class t) (omega arith) lt) (h.listing.chain (size_class t) lt))
            (h.listing.complete x t f))
  ]

  serve :
      (x t : ℕ)
      → FreeAt s.alloc.heap_start bs x t
      → needed ≤ t
      → 32 ≤ needed
      → needed % 8 ≡ 0
      → Served s.alloc.heap_start bs needed (take_block s x needed)
  serve x t f le big al =
      let (pre, post, e, here) = FreeAt-place s.alloc.heap_start bs x t f in
      let (p, h', kept) = take_block_lem s pre t needed post (subst (Heap s) e h) le big al in
      subst (λ a. Served s.alloc.heap_start bs needed (take_block s a needed)) here
        (record {
          front = pre;
          bytes = t;
          behind = post;
          place = e;
          fits = le;
          payload = p;
          heap = h';
          start_kept = kept;
        })

-- the part of allocator_alloc behind its guards
abbrev search : State → ℕ → ℕ × State
search s needed =
    let block = find_free_block s.alloc needed in
    if block == null then (null, s) else take_block s block needed

alloc_is_search :
    (s : State) (size align : ℕ)
    → s.alloc.initialized ≡ true
    → 0 < size
    → allocator_alloc s size align ≡ search s (block_size_needed size)
unfolding allocator_alloc
alloc_is_search s size align ready pos =
    guard_open s.alloc.initialized (null, s) _ ready
    ∙ ap (λ b. if b then (null, s) else search s (block_size_needed size))
        (ne→==_false size 0 (λ e. omega arith))

-- A request, of a size that can be rounded up, on a heap in which no free block of the request's own
-- class is too small: it is refused with the state unchanged exactly when every free block is of a
-- lower class, and is otherwise served from a free block that is large enough.
pub allocator_alloc_lem :
    (s : State) (bs : List Block) (size align : ℕ)
    → Heap s bs
    → 0 < size
    → size + 23 < 2 ^ 64
    → ((x t : ℕ)
        → FreeAt s.alloc.heap_start bs x t
        → size_class t ≡ size_class (block_size_needed size)
        → block_size_needed size ≤ t)
    → Served s.alloc.heap_start bs (block_size_needed size) (allocator_alloc s size align)
      ⊎ (((x t : ℕ)
            → FreeAt s.alloc.heap_start bs x t
            → size_class t < size_class (block_size_needed size))
          × (allocator_alloc s size align ≡ (null, s)))
allocator_alloc_lem s bs size align h pos room fits =
    let needed = block_size_needed size in
    let k = block_size_needed_lem size room in
    let small : needed < 2 ^ 64 = elim k.tight [ inl e ↦ omega arith | inr e ↦ omega arith ] in
    let is = alloc_is_search s size align h.ready pos in
    elim (find_free_block_lem s.alloc needed h.listing.bitmap small) [
      | inl (c, f) ↦
          let (x, t, at, class, result, lo) = Found-block s bs needed h c f in
          let le : needed ≤ t = elim (dec_lt (size_class needed) (size_class t)) [
            | yes above ↦ omega (arith, lt_of_size_class needed t above small)
            | no below ↦ fits x t at (omega arith)
          ] in
          inl (
            subst (Served s.alloc.heap_start bs needed)
              (sym (
                is
                ∙ ap (λ b. if b == null then (null, s) else take_block s b needed) result
                ∙ ap (λ b. if b then (null, s) else take_block s x needed)
                    (ne→==_false x null (λ e. omega arith))))
              (serve s bs needed h x t at le k.minimum k.aligned))
      | inr (empty, result) ↦ inr (
        none_free s bs needed h empty,
        is ∙ ap (λ b. if b == null then (null, s) else take_block s b needed) result,
      )
    ]

-- An allocation that returns a block has served the request.
pub Served-of :
    (s : State) (bs : List Block) (size align : ℕ)
    → Heap s bs
    → 0 < size
    → size + 23 < 2 ^ 64
    → ((x t : ℕ)
        → FreeAt s.alloc.heap_start bs x t
        → size_class t ≡ size_class (block_size_needed size)
        → block_size_needed size ≤ t)
    → (allocator_alloc s size align).0 ≢ null
    → Served s.alloc.heap_start bs (block_size_needed size) (allocator_alloc s size align)
Served-of s bs size align h pos room fits got =
    elim (allocator_alloc_lem s bs size align h pos room fits) [
      | inl v ↦ v
      | inr (_, e) ↦ absurd (got (ap (λ r. r.0) e))
    ]
