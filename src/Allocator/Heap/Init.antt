-- ===== src/Allocator/Heap/Init.antt =====
-- allocator_init: the heap is one free block.
use tutorial_os.Common.{
  ℕ, ◌+◌, ◌-◌, ◌*◌, ◌/◌, ◌%◌, ◌≤◌, ◌<◌, ◌^◌, ◌≡◌, ◌≢◌, inl, inr, refl, ◌∙◌, ap, sym, subst, true,
  List, [], ◌∷◌, arith, ◌==◌, if◌then◌else◌, ℕ_discrete, ==_self, ne→==_false, set, replicate,
  length-set, length-replicate, get_or-set_self, get_or-set_ne, get_or-replicate, bit_and,
}
use tutorial_os.Word.{sub64, not64, bit32}
use tutorial_os.Word.Masks.{bit_and-not64_seven}
use tutorial_os.Word.TestBit.{test_bit, test_bit-pow_self, test_bit-pow_ne, bit32_lem}
use tutorial_os.Memory.{Memory, null}
use tutorial_os.Allocator.Block.{min_align, align_up}
use tutorial_os.Allocator.Block.Header.{align_up_eight_eq, free_list_node_lem}
use tutorial_os.Allocator.SizeClass.{num_size_classes, size_class}
use tutorial_os.Allocator.SizeClass.Bounds.{size_class-lt}
use tutorial_os.Allocator.FreeList.{State, head_of}
use tutorial_os.Allocator.FreeList.Bitmap.{HasBitmap}
use tutorial_os.Allocator.FreeList.Chain.{In, Chain}
use tutorial_os.Allocator.FreeList.Listing.{Once, Listing}
use tutorial_os.Allocator.Api.{make_initial, allocator_init}
use tutorial_os.Allocator.Tiling.{block, FreeAt}
use tutorial_os.Allocator.Heap.{Heap}
use tutorial_os.Allocator.Heap.Fresh.{make_initial_lem, make_initial-links}

module _ (m : Memory) (start end : ℕ) (low : 16 ≤ start) (high : end < 2 ^ 64) (al : start % 8 ≡ 0)
    (al' : end % 8 ≡ 0) (room : start + 32 ≤ end) where
  abbrev u : ℕ
  u = end - start

  abbrev k : ℕ
  k = size_class u

  k-lt : k < num_size_classes
  k-lt = size_class-lt u (omega arith)

  -- the state that allocator_init leaves
  abbrev initial : State
  initial = record {
    alloc = record {
      free_bitmap = bit32 k;
      free_lists = set (replicate num_size_classes null) k (start + 8);
      heap_start = start;
      heap_end = end;
      allocated = 0;
      free_space = u;
      initialized = true;
    };
    mem = make_initial m start u;
  }

  head-own : (c : ℕ) → k ≡ c → head_of initial.alloc c ≡ start + 8
  head-own c e =
      subst (λ d. head_of initial.alloc d ≡ start + 8) e
        (get_or-set_self (replicate num_size_classes null) k (start + 8) null
          (omega (arith, k-lt, length-replicate num_size_classes null)))

  head-other : (c : ℕ) → k ≢ c → head_of initial.alloc c ≡ null
  head-other c ne =
      get_or-set_ne (replicate num_size_classes null) k c (start + 8) null ne
      ∙ get_or-replicate num_size_classes c null

  bitmap : HasBitmap initial.alloc
  bitmap = record {
    lists =
        length-set (replicate num_size_classes null) k (start + 8)
        ∙ length-replicate num_size_classes null;
    set_iff = λ c hc. elim (ℕ_discrete k c) [
      | yes e ↦ ground (
        arith,
        bit32_lem k (omega (arith, k-lt)),
        test_bit-pow_self k,
        ap (λ d. test_bit (bit32 k) d) e,
        ap (λ b. test_bit b k) (bit32_lem k (omega (arith, k-lt))),
        head-own c e,
      )
      | no ne ↦ ground (
        arith,
        ap (λ b. test_bit b c) (bit32_lem k (omega (arith, k-lt))),
        test_bit-pow_ne k c ne,
        head-other c ne,
      )
    ];
  }

  abbrev chains : ℕ → List ℕ
  chains c = if k == c then start ∷ [] else []

  chain : (c : ℕ) → Chain initial.mem null (head_of initial.alloc c) (chains c)
  chain c = elim (ℕ_discrete k c) [
    | yes e ↦
        let (next, prev) = make_initial-links m start u (omega arith) (omega arith) (omega arith) in
        subst (λ d. Chain initial.mem null (head_of initial.alloc d) (chains d)) e
          (rw (==_self k) (head-own k refl, prev, next))
    | no ne ↦ rw (ne→==_false k c ne) (head-other c ne)
  ]

  once : (c : ℕ) → Once (chains c)
  once c = elim (ℕ_discrete k c) [
    | yes e ↦ rw (e, ==_self c) ((λ y i. absurd i), tt)
    | no ne ↦ rw (ne→==_false k c ne) tt
  ]

  In-chains : (c x : ℕ) → In x (chains c) → (x ≡ start) × (k ≡ c)
  In-chains c x i = elim (ℕ_discrete k c) [
    | yes e ↦
        let i' : In x (start ∷ []) =
          subst (λ b. In x (if b then start ∷ [] else [])) (ap (λ d. d == c) e ∙ ==_self c) i in
        elim i' [ inl h ↦ (h, e) | inr h ↦ absurd h ]
    | no ne ↦ absurd (subst (λ b. In x (if b then start ∷ [] else [])) (ne→==_false k c ne) i)
  ]

  listing : Listing initial (FreeAt start (block u true ∷ [])) chains
  listing = record {
    bitmap = bitmap;
    chain = λ c hc. chain c;
    once = λ c hc. once c;
    sound = λ c x hc i. let (ex, ec) = In-chains c x i in (u, inl (ex, refl, refl), ec);
    complete = λ x t f. elim f [ inl g ↦ rw (g.1, ==_self k) (inl g.0) | inr g ↦ absurd g ];
  }

  initial-Heap : Heap initial (block u true ∷ [])
  initial-Heap =
      let (hb, _) = make_initial_lem m start u (omega arith) (omega arith) (omega arith) in
      record {
        ready = refl;
        low = low;
        high = high;
        aligned = al;
        tiled = (hb, omega arith);
        merged = ((λ e. cc), tt);
        chains = chains;
        listing = listing;
        taken = omega arith;
        spare = omega arith;
      }

  init_is :
      (a b : ℕ)
      → align_up a min_align ≡ start
      → bit_and b (not64 (min_align - 1)) ≡ end
      → allocator_init m a b ≡ initial
  unfolding allocator_init
  init_is a b ea eb =
      let size : sub64 end start ≡ u = omega arith in
      rw (ea, eb) (rw size (rw (free_list_node_lem start (omega arith)) refl))

-- allocator_init on bounds of which the lower is at least 16 and the upper is below 2 ^ 64, and
-- which hold 32 bytes once aligned, gives a represented heap of one free block between the aligned
-- bounds.
pub allocator_init_lem :
    (m : Memory) (heap_start heap_end : ℕ)
    → 16 ≤ heap_start
    → heap_end < 2 ^ 64
    → let start = (heap_start + 7) / 8 * 8 in
      let end = heap_end / 8 * 8 in
      start + 32 ≤ end
      → Heap (allocator_init m heap_start heap_end) (block (end - start) true ∷ [])
        × ((allocator_init m heap_start heap_end).alloc.heap_start ≡ start)
        × ((allocator_init m heap_start heap_end).alloc.heap_end ≡ end)
allocator_init_lem m a b low high room =
    let start = (a + 7) / 8 * 8 in
    let end = b / 8 * 8 in
    let e =
      init_is m start end (omega arith) (omega arith) (omega arith) (omega arith) room a b
        (align_up_eight_eq a (omega arith)) (bit_and-not64_seven b high) in
    (
      subst (λ s. Heap s (block (end - start) true ∷ [])) (sym e)
          (initial-Heap m start end (omega arith) (omega arith) (omega arith) (omega arith) room),
      ap (λ s. s.alloc.heap_start) e,
      ap (λ s. s.alloc.heap_end) e,
    )
