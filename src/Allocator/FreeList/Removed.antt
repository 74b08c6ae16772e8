-- ===== src/Allocator/FreeList/Removed.antt =====
-- remove_from_free_list keeps the promise of the lists, for the blocks other than the one removed.
use tutorial_os.Common.{
  ℕ, ◌+◌, ◌<◌, ◌^◌, ◌≡◌, ◌≢◌, ◌⊎◌, inl, inr, refl, ◌∙◌, ap, sym, subst, true, List, [], ◌∷◌, ◌++◌,
  arith, ◌==◌, length, length-set, get_or-set_self, get_or-set_ne, if◌then◌else◌, ne→==_false,
  ==_self, ℕ_discrete,
}
use tutorial_os.Memory.{Memory, null, load64}
use tutorial_os.Memory.Laws.{Apart, load64-lt}
use tutorial_os.Allocator.Block.{block_size}
use tutorial_os.Allocator.Block.Header.{free_list_node_lem}
use tutorial_os.Allocator.SizeClass.{num_size_classes, size_class}
use tutorial_os.Allocator.SizeClass.Bounds.{size_class-lt}
use tutorial_os.Allocator.FreeList.{Allocator, State, head_of, clear_bit, remove_from_free_list}
use tutorial_os.Allocator.FreeList.Bitmap.{clear_bit-HasBitmap}
use tutorial_os.Allocator.FreeList.Chain.{
  In, Chain, Far, Spread, In-middle, In-left, In-right, In-without, In-other, split, before,
  before-In, Chain-prev, Chain-rest, Chain-frame, Spread-before,
}
use tutorial_os.Allocator.FreeList.Unlink.{Clear, Unlinked, Unlinked-links, unlink-Chain, start}
use tutorial_os.Allocator.FreeList.Listing.{
  Blocks, Sparse, Once, Listing, update, Once-without, Once-middle, Without, OnlyLinks, SameBounds,
  listed-Far, listed-low, listed-Spread,
}
use tutorial_os.Allocator.FreeList.Remove.{
  Between, unlink_lem, unlinked_alloc, unlinked_mem, unlinked_mem-Unlinked, unlinked_mem_same,
}

head_of-clear_bit : (a : Allocator) (c d : ℕ) → head_of (clear_bit a c) d ≡ head_of a d
unfolding clear_bit
head_of-clear_bit a c d = ground arith

SameBounds-unlinked :
    (a : Allocator) (c p n : ℕ) → SameBounds a (clear_bit (unlinked_alloc a c p n) c)
unfolding clear_bit
SameBounds-unlinked a c p n = record {
  heap_start = ground arith;
  heap_end = ground arith;
  allocated = ground arith;
  free_space = ground arith;
  initialized = ground arith;
}

head_of-unlinked_ne :
    (a : Allocator) (c p n d : ℕ) → c ≢ d → head_of (unlinked_alloc a c p n) d ≡ head_of a d
head_of-unlinked_ne a c p n d ne = ground (arith, get_or-set_ne a.free_lists c d n null ne)

head_of-unlinked_self :
    (a : Allocator) (c n : ℕ) (pre : List ℕ)
    → c < length a.free_lists
    → head_of (unlinked_alloc a c (before null pre) n) c ≡ start pre (head_of a c) n
head_of-unlinked_self a c n [] h = get_or-set_self a.free_lists c n null h
head_of-unlinked_self a c n (q ∷ pre) h =
    let (z, i, e) = before-In null q pre in
    rw e (rw (ne→==_false (z + 8) null (λ k. absurd (omega arith))))

length-unlinked :
    (a : Allocator) (c p n : ℕ) → length (unlinked_alloc a c p n).free_lists ≡ length a.free_lists
length-unlinked a c p n = ground (arith, length-set a.free_lists c n)

-- the node behind a block of a chain
next_cases :
    (m : Memory) (p c : ℕ) (xs : List ℕ)
    → Chain m p c xs
    → (c ≡ null) ⊎ ((y : ℕ) × In y xs × (c ≡ y + 8))
next_cases m p c [] h = inl h
next_cases m p c (y ∷ ys) h = inr (y, inl refl, h.0)

before_cases :
    (pre : List ℕ) → (before null pre ≡ null) ⊎ ((z : ℕ) × In z pre × (before null pre ≡ z + 8))
before_cases [] = inl refl
before_cases (q ∷ pre) = inr (before-In null q pre)

module _ {s : State} {F : Blocks} {chains : ℕ → List ℕ} (sp : Sparse F) (l : Listing s F chains)
    (x t : ℕ) (fx : F x t) (pre post : List ℕ)
    (place : chains (size_class t) ≡ pre ++ x ∷ post) where
  abbrev m : Memory
  m = s.mem

  abbrev c : ℕ
  c = size_class t

  abbrev p : ℕ
  p = before null pre

  abbrev n : ℕ
  n = load64 m (x + 8)

  c-lt : c < num_size_classes
  c-lt = size_class-lt t (omega (arith, sp.high x t fx))

  Chain-here : Chain m null (head_of s.alloc c) (pre ++ x ∷ post)
  Chain-here = subst (Chain m null (head_of s.alloc c)) place (l.chain c c-lt)

  spread : Spread (pre ++ x ∷ post)
  spread = subst Spread place (listed-Spread sp l c c-lt)

  once : Once (pre ++ x ∷ post)
  once = subst Once place (l.once c c-lt)

  listed : (w : ℕ) → In w (pre ++ x ∷ post) → In w (chains c)
  listed w i = subst (In w) (sym place) i

  next_is_block : (n ≡ null) ⊎ ((y : ℕ) × In y post × (n ≡ y + 8))
  next_is_block =
      next_cases m (x + 8) n post (Chain-rest m null (head_of s.alloc c) pre x post Chain-here)

  in_pre : (z : ℕ) → In z pre → In z (pre ++ x ∷ post)
  in_pre z i = In-left z pre (x ∷ post) i

  in_post : (y : ℕ) → In y post → In y (pre ++ x ∷ post)
  in_post y i = In-right y pre (x ∷ post) (inr i)

  -- Neither neighbour's links belong to a listed block other than the neighbour itself.
  Clear-prev :
      (d w : ℕ)
      → d < num_size_classes
      → In w (chains d)
      → (c ≢ d) ⊎ ((z : ℕ) → In z pre → z ≢ w)
      → Clear p w
  Clear-prev d w hd i ne = elim (before_cases pre) [
    | inl e ↦ inl e
    | inr (z, j, e) ↦ inr (
      z,
      e,
      listed-Far sp l c d z w c-lt hd (listed z (in_pre z j)) i
          (elim ne [ inl k ↦ inl k | inr k ↦ inr (k z j) ]),
    )
  ]

  Clear-next :
      (d w : ℕ)
      → d < num_size_classes
      → In w (chains d)
      → (c ≢ d) ⊎ ((y : ℕ) → In y post → y ≢ w)
      → Clear n w
  Clear-next d w hd i ne = elim next_is_block [
    | inl e ↦ inl e
    | inr (y, j, e) ↦ inr (
      y,
      e,
      listed-Far sp l c d y w c-lt hd (listed y (in_post y j)) i
          (elim ne [ inl k ↦ inl k | inr k ↦ inr (k y j) ]),
    )
  ]

  neighbours-Apart : p ≢ null → n ≢ null → Apart 8 (n + 8) 8 p
  neighbours-Apart np nn = elim (before_cases pre) [
    | inl e ↦ absurd (np e)
    | inr (z, i, e) ↦ elim next_is_block [
      | inl f ↦ absurd (nn f)
      | inr (y, j, f) ↦
          let far : Far z y = (Spread-before pre x post z spread i).1 y j in omega arith
    ]
  ]

  next_room : n + 16 < 2 ^ 64
  next_room = elim next_is_block [
    | inl e ↦ omega arith
    | inr (y, j, e) ↦
        let (u, fy, _) = l.sound c y c-lt (listed y (in_post y j)) in
        omega (arith, sp.high y u fy, sp.big y u fy)
  ]

  between : Between m x p n
  between = record {
    prev_is = Chain-prev m null (head_of s.alloc c) pre x post Chain-here;
    next_is = refl;
    room = omega (arith, sp.high x t fx, sp.big x t fx);
    low = sp.low x t fx;
    clear = elim (before_cases pre) [
      | inl e ↦ inl e
      | inr (z, i, e) ↦ inr (z, e, (Spread-before pre x post z spread i).0)
    ];
    next_room = next_room;
    apart = neighbours-Apart;
  }

  prev-lt : p < 2 ^ 64
  prev-lt = rw (← between.prev_is) (load64-lt m (x + 16))

  unlinked : Unlinked m p n (unlinked_mem m p n)
  unlinked = unlinked_mem-Unlinked m p n prev-lt (load64-lt m (x + 8)) neighbours-Apart

  remove_eq :
      block_size m x ≡ t
      → remove_from_free_list s x
        ≡ record { alloc = clear_bit (unlinked_alloc s.alloc c p n) c; mem = unlinked_mem m p n }
  unfolding remove_from_free_list
  remove_eq size =
      rw (size, free_list_node_lem x (omega (arith, between.room)))
        (ap (λ (r : State). record r { alloc = clear_bit r.alloc c })
          (unlink_lem s c x p n between))

  abbrev after : State
  after = record { alloc = clear_bit (unlinked_alloc s.alloc c p n) c; mem = unlinked_mem m p n }

  Chain-same : Chain (unlinked_mem m p n) null (head_of after.alloc c) (pre ++ post)
  Chain-same = rw (head_of-clear_bit (unlinked_alloc s.alloc c p n) c c) (
      rw (head_of-unlinked_self s.alloc c n pre (omega (arith, c-lt, l.bitmap.lists))) (
        unlink-Chain m (unlinked_mem m p n) null (head_of s.alloc c) pre x post Chain-here spread
          (λ w i. (listed-low sp l c w c-lt (listed w i), inl refl)) unlinked))

  Chain-other :
      (d : ℕ)
      → d < num_size_classes
      → c ≢ d
      → Chain (unlinked_mem m p n) null (head_of after.alloc d) (chains d)
  Chain-other d hd ne = rw (head_of-clear_bit (unlinked_alloc s.alloc c p n) c d) (
      rw (head_of-unlinked_ne s.alloc c p n d ne) (
        Chain-frame m (unlinked_mem m p n) null (head_of s.alloc d) (chains d) (l.chain d hd)
          (λ w i.
            Unlinked-links w unlinked (listed-low sp l d w hd i) (Clear-prev d w hd i (inl ne))
              (Clear-next d w hd i (inl ne)))))

  head_held : head_of s.alloc c ≢ null
  head_held e = held (head_of s.alloc c) pre Chain-here e
    where
      held : (h : ℕ) (pre : List ℕ) → Chain m null h (pre ++ x ∷ post) → h ≢ null
      held h [] ch e = absurd (omega (arith, ch.0))
      held h (q ∷ pre) ch e = absurd (omega (arith, ch.0))

  removed-Listing : Listing after (Without F x) (update chains c (pre ++ post))
  removed-Listing = record {
    bitmap =
        clear_bit-HasBitmap s.alloc (unlinked_alloc s.alloc c p n) c l.bitmap c-lt head_held
          (ground arith) (length-unlinked s.alloc c p n ∙ l.bitmap.lists)
          (λ d ne. head_of-unlinked_ne s.alloc c p n d ne);
    chain = λ d hd. elim (ℕ_discrete c d) [
      | yes e ↦ rw (← e) (rw (==_self c) Chain-same)
      | no ne ↦ rw (ne→==_false c d ne) (Chain-other d hd ne)
    ];
    once = λ d hd. elim (ℕ_discrete c d) [
      | yes e ↦ rw (← e) (rw (==_self c) (Once-without pre x post once))
      | no ne ↦ rw (ne→==_false c d ne) (l.once d hd)
    ];
    sound = λ d y hd i. elim (ℕ_discrete c d) [
      | yes e ↦
          removed_sound d y e
            (subst (In y) (ap (λ b. if b then pre ++ post else chains d) (same_class d e)) i)
      | no ne ↦
          other_sound d y hd ne
            (subst (In y) (ap (λ b. if b then pre ++ post else chains d) (ne→==_false c d ne)) i)
    ];
    complete = λ y u (fy, ne). elim (ℕ_discrete c (size_class u)) [
      | yes e ↦
          rw (same_class (size_class u) e) (
            In-other y pre x post (subst (In y) (ap chains (sym e) ∙ place) (l.complete y u fy)) ne)
      | no nc ↦ rw (ne→==_false c (size_class u) nc) (l.complete y u fy)
    ];
  }
    where
      same_class : (d : ℕ) → c ≡ d → (c == d) ≡ true
      same_class d e = ground arith

      removed_sound :
          (d y : ℕ) → c ≡ d → In y (pre ++ post) → (u : ℕ) × Without F x y u × (size_class u ≡ d)
      removed_sound d y e i =
          let (u, fy, cu) = l.sound c y c-lt (listed y (In-without y pre x post i)) in
          (u, (fy, Once-middle pre x post once y i), cu ∙ e)

      other_sound :
          (d y : ℕ)
          → d < num_size_classes
          → c ≢ d
          → In y (chains d)
          → (u : ℕ) × Without F x y u × (size_class u ≡ d)
      other_sound d y hd ne i =
          let (u, fy, cu) = l.sound d y hd i in
          let far : Far x y =
            listed-Far sp l c d x y c-lt hd (listed x (In-middle pre x post)) i (inl ne) in
          (u, (fy, λ e. omega arith), cu)

  removed-OnlyLinks : OnlyLinks (Without F x) m (unlinked_mem m p n)
  removed-OnlyLinks = record {
    same = λ b apart. unlinked_mem_same m p n b (prev_out b apart) (next_out b apart);
  }
    where
      prev_out :
          (b : ℕ) → ((y u : ℕ) → Without F x y u → Apart 16 (y + 8) 1 b) → p ≢ null → Apart 8 p 1 b
      prev_out b apart ne = elim (before_cases pre) [
        | inl e ↦ absurd (ne e)
        | inr (z, i, e) ↦
            let (u, fz, _) = l.sound c z c-lt (listed z (in_pre z i)) in
            let at_z : Apart 16 (z + 8) 1 b =
              apart z u (fz, Once-middle pre x post once z (In-left z pre post i)) in
            omega arith
      ]

      next_out :
          (b : ℕ)
          → ((y u : ℕ) → Without F x y u → Apart 16 (y + 8) 1 b)
          → n ≢ null
          → Apart 8 (n + 8) 1 b
      next_out b apart ne = elim next_is_block [
        | inl e ↦ absurd (ne e)
        | inr (y, j, e) ↦
            let (u, fy, _) = l.sound c y c-lt (listed y (in_post y j)) in
            let at_y : Apart 16 (y + 8) 1 b =
              apart y u (fy, Once-middle pre x post once y (In-right y pre post j)) in
            omega arith
      ]

-- remove_from_free_list takes a listed block out of its list wherever it stands there: afterwards the
-- lists hold exactly the other blocks, the bitmap agrees with them, only links of those blocks have
-- changed, and the heap's bounds and statistics are the same.
pub remove-Listing :
    (s : State) (F : Blocks) (chains : ℕ → List ℕ) (x t : ℕ)
    → Sparse F
    → Listing s F chains
    → F x t
    → block_size s.mem x ≡ t
    → (chains' : ℕ → List ℕ) × Listing (remove_from_free_list s x) (Without F x) chains'
      × OnlyLinks (Without F x) s.mem (remove_from_free_list s x).mem
      × SameBounds s.alloc (remove_from_free_list s x).alloc
remove-Listing s F chains x t sp l fx size =
    let (pre, post, place) = split x (chains (size_class t)) (l.complete x t fx) in
    (
      update chains (size_class t) (pre ++ post),
      rw (remove_eq sp l x t fx pre post place size) (removed-Listing sp l x t fx pre post place),
      rw (remove_eq sp l x t fx pre post place size) (removed-OnlyLinks sp l x t fx pre post place),
      rw (remove_eq sp l x t fx pre post place size)
          (SameBounds-unlinked s.alloc (size_class t) (before null pre) (load64 s.mem (x + 8))),
    )
