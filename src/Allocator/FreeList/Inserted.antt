-- ===== src/Allocator/FreeList/Inserted.antt =====
-- insert_into_free_list on whole states.
use tutorial_os.Common.{
  ℕ, ◌+◌, ◌≤◌, ◌<◌, ◌^◌, ◌≡◌, ◌≢◌, ◌⊎◌, inl, inr, refl, ◌∙◌, ap, sym, subst, true, List, [], ◌∷◌,
  arith, ◌==◌, set, get_or-set_self, get_or-set_ne, bit_or, if◌then◌else◌, ne→==_false, ==_self,
  ℕ_discrete,
}
use tutorial_os.Word.{bit32}
use tutorial_os.Memory.{Memory, null}
use tutorial_os.Memory.Laws.{Apart}
use tutorial_os.Allocator.Block.{block_size}
use tutorial_os.Allocator.Block.Header.{free_list_node_lem}
use tutorial_os.Allocator.SizeClass.{num_size_classes, size_class}
use tutorial_os.Allocator.SizeClass.Bounds.{size_class-lt}
use tutorial_os.Allocator.FreeList.{State, head_of, insert_into_free_list}
use tutorial_os.Allocator.FreeList.Bitmap.{insert-HasBitmap}
use tutorial_os.Allocator.FreeList.Chain.{In, Chain, Far, Chain-frame}
use tutorial_os.Allocator.FreeList.Unlink.{Clear}
use tutorial_os.Allocator.FreeList.Listing.{
  Blocks, Sparse, Listing, update, With, OnlyLinks, SameBounds, listed-Far, listed-low,
  listed-Spread,
}
use tutorial_os.Allocator.FreeList.Insert.{
  linked_mem, link_head_lem, Linked, linked_mem-Linked, Linked-links, link-Chain, linked_mem_same,
}

-- the first block of a chain
first_cases :
    (m : Memory) (p c : ℕ) (xs : List ℕ)
    → Chain m p c xs
    → (c ≡ null) ⊎ ((y : ℕ) × In y xs × (c ≡ y + 8))
first_cases m p c [] h = inl h
first_cases m p c (y ∷ ys) h = inr (y, inl refl, h.0)

module _ {s : State} {F : Blocks} {chains : ℕ → List ℕ} (l : Listing s F chains) (x t : ℕ)
    (sp : Sparse (With F x t)) (fresh : (u : ℕ) → ¬ F x u) where
  abbrev m : Memory
  m = s.mem

  abbrev c : ℕ
  c = size_class t

  abbrev old : ℕ
  old = head_of s.alloc c

  abbrev after : State
  after = record {
    alloc = record (s.alloc) {
      free_lists = set s.alloc.free_lists c (x + 8);
      free_bitmap = bit_or s.alloc.free_bitmap (bit32 c);
    };
    mem = linked_mem m x old;
  }

  sp_old : Sparse F
  sp_old = record {
    apart = λ y u z v fy fz. sp.apart y u z v (inl fy) (inl fz);
    low = λ y u fy. sp.low y u (inl fy);
    high = λ y u fy. sp.high y u (inl fy);
    big = λ y u fy. sp.big y u (inl fy);
  }

  x-low : 16 ≤ x
  x-low = sp.low x t (inr (refl, refl))

  room : x + 24 < 2 ^ 64
  room = omega (arith, sp.high x t (inr (refl, refl)), sp.big x t (inr (refl, refl)))

  c-lt : c < num_size_classes
  c-lt = size_class-lt t (omega (arith, sp.high x t (inr (refl, refl))))

  x-Far : (d y : ℕ) → d < num_size_classes → In y (chains d) → Far x y
  x-Far d y hd i =
      let (u, fy, _) = l.sound d y hd i in
      elim (sp.apart x t y u (inr (refl, refl)) (inl fy)) [
        | inl same ↦ absurd (fresh u (subst (λ z. F z u) (sym same.0) fy))
        | inr far ↦ far
      ]

  old_cases : (old ≡ null) ⊎ ((y : ℕ) × In y (chains c) × (old ≡ y + 8))
  old_cases = first_cases m null old (chains c) (l.chain c c-lt)

  old_room : old + 16 < 2 ^ 64
  old_room = elim old_cases [
    | inl e ↦ omega arith
    | inr (y, i, e) ↦
        let (u, fy, _) = l.sound c y c-lt i in omega (arith, sp_old.high y u fy, sp_old.big y u fy)
  ]

  linked : Linked m x old (linked_mem m x old)
  linked = linked_mem-Linked m x old room (omega (arith, old_room)) (λ ne. elim old_cases [
    | inl e ↦ absurd (ne e)
    | inr (y, i, e) ↦ let far : Far x y = x-Far c y c-lt i in omega arith
  ])

  insert_eq : block_size s.mem x ≡ t → insert_into_free_list s x ≡ after
  unfolding insert_into_free_list
  insert_eq size =
      rw (size, free_list_node_lem x (omega (arith, room)))
        (rw (link_head_lem m x old room old_room))

  Chain-new : Chain (linked_mem m x old) null (x + 8) (x ∷ chains c)
  Chain-new =
      link-Chain m (linked_mem m x old) x old (chains c) (l.chain c c-lt)
        (listed-Spread sp_old l c c-lt) (λ w i. (listed-low sp_old l c w c-lt i, x-Far c w c-lt i))
        linked

  Clear-old : (d w : ℕ) → d < num_size_classes → In w (chains d) → c ≢ d → Clear old w
  Clear-old d w hd i ne = elim old_cases [
    | inl e ↦ inl e
    | inr (y, j, e) ↦ inr (y, e, listed-Far sp_old l c d y w c-lt hd j i (inl ne))
  ]

  same_class : (d : ℕ) → c ≡ d → (c == d) ≡ true
  same_class d e = ground arith

  inserted_sound :
      (d y : ℕ) → c ≡ d → In y (x ∷ chains c) → (u : ℕ) × With F x t y u × (size_class u ≡ d)
  inserted_sound d y e (inl here) = (t, inr (here, refl), e)
  inserted_sound d y e (inr i) = let (u, fy, cu) = l.sound c y c-lt i in (u, inl fy, cu ∙ e)

  inserted_complete : (y u : ℕ) → With F x t y u → c ≡ size_class u → In y (x ∷ chains c)
  inserted_complete y u (inl fy) e = inr (subst (In y) (ap chains (sym e)) (l.complete y u fy))
  inserted_complete y u (inr (e, _)) _ = inl e

  other_complete : (y u : ℕ) → With F x t y u → c ≢ size_class u → In y (chains (size_class u))
  other_complete y u (inl fy) ne = l.complete y u fy
  other_complete y u (inr (_, e)) ne = absurd (ne (ap size_class (sym e)))

  inserted-Listing : Listing after (With F x t) (update chains c (x ∷ chains c))
  inserted-Listing = record {
    bitmap = insert-HasBitmap s.alloc c (x + 8) l.bitmap c-lt (λ e. omega arith);
    chain = λ d hd. elim (ℕ_discrete c d) [
      | yes e ↦ rw (← e) (
          rw (==_self c) (
            rw
              (get_or-set_self s.alloc.free_lists c (x + 8) null
                (omega (arith, c-lt, l.bitmap.lists)))
              Chain-new))
      | no ne ↦ rw (ne→==_false c d ne) (
          rw (get_or-set_ne s.alloc.free_lists c d (x + 8) null ne) (
            Chain-frame m (linked_mem m x old) null (head_of s.alloc d) (chains d) (l.chain d hd)
              (λ w i.
                Linked-links w linked (listed-low sp_old l d w hd i) (x-Far d w hd i)
                  (Clear-old d w hd i ne))))
    ];
    once = λ d hd. elim (ℕ_discrete c d) [
      | yes e ↦ rw (← e) (
          rw (==_self c)
            ((λ y i e. let far : Far x y = x-Far c y c-lt i in omega arith), l.once c c-lt))
      | no ne ↦ rw (ne→==_false c d ne) (l.once d hd)
    ];
    sound = λ d y hd i. elim (ℕ_discrete c d) [
      | yes e ↦
          inserted_sound d y e
            (subst (In y) (ap (λ b. if b then x ∷ chains c else chains d) (same_class d e)) i)
      | no ne ↦
          let (u, fy, cu) = l.sound d y hd (
            subst (In y) (ap (λ b. if b then x ∷ chains c else chains d) (ne→==_false c d ne)) i) in
          (u, inl fy, cu)
    ];
    complete = λ y u f. elim (ℕ_discrete c (size_class u)) [
      | yes e ↦ rw (same_class (size_class u) e) (inserted_complete y u f e)
      | no ne ↦ rw (ne→==_false c (size_class u) ne) (other_complete y u f ne)
    ];
  }

  inserted-OnlyLinks : OnlyLinks (With F x t) m (linked_mem m x old)
  inserted-OnlyLinks = record {
    same = λ b apart. linked_mem_same m x old b (apart x t (inr (refl, refl))) (old_out b apart);
  }
    where
      old_out :
          (b : ℕ)
          → ((y u : ℕ) → With F x t y u → Apart 16 (y + 8) 1 b)
          → old ≢ null
          → Apart 8 (old + 8) 1 b
      old_out b apart ne = elim old_cases [
        | inl e ↦ absurd (ne e)
        | inr (y, i, e) ↦
            let (u, fy, _) = l.sound c y c-lt i in
            let at_y : Apart 16 (y + 8) 1 b = apart y u (inl fy) in omega arith
      ]

-- insert_into_free_list puts a block in front of the list of its class: afterwards the lists hold
-- exactly one block more, the bitmap agrees with them, only links of listed blocks have changed, and
-- the heap's bounds and statistics are the same.
pub insert-Listing :
    (s : State) (F : Blocks) (chains : ℕ → List ℕ) (x t : ℕ)
    → Listing s F chains
    → Sparse (With F x t)
    → ((u : ℕ) → ¬ F x u)
    → block_size s.mem x ≡ t
    → (chains' : ℕ → List ℕ) × Listing (insert_into_free_list s x) (With F x t) chains'
      × OnlyLinks (With F x t) s.mem (insert_into_free_list s x).mem
      × SameBounds s.alloc (insert_into_free_list s x).alloc
insert-Listing s F chains x t l sp fresh size = (
  update chains (size_class t) (x ∷ chains (size_class t)),
  rw (insert_eq l x t sp fresh size) (inserted-Listing l x t sp fresh),
  rw (insert_eq l x t sp fresh size) (inserted-OnlyLinks l x t sp fresh),
  rw (insert_eq l x t sp fresh size) (record {
    heap_start = refl;
    heap_end = refl;
    allocated = refl;
    free_space = refl;
    initialized = refl;
  }),
)
