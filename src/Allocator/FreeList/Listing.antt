-- ===== src/Allocator/FreeList/Listing.antt =====
-- What the free lists promise: every class's chain holds exactly the free blocks of that class.
use tutorial_os.Common.{
  ℕ, ◌+◌, ◌≤◌, ◌<◌, ◌^◌, ◌≡◌, ◌≢◌, ◌⊎◌, inl, inr, refl, ◌∙◌, ap, sym, List, [], ◌∷◌, ◌++◌, arith,
  ◌==◌, if◌then◌else◌,
}
use tutorial_os.Memory.{Memory, null, load_byte, load64}
use tutorial_os.Memory.Laws.{Apart, load64-cong}
use tutorial_os.Allocator.SizeClass.{num_size_classes, size_class}
use tutorial_os.Allocator.FreeList.{Allocator, State, head_of}
use tutorial_os.Allocator.FreeList.Bitmap.{HasBitmap}
use tutorial_os.Allocator.FreeList.Chain.{In, Chain, Far, Spread, In-middle, In-without}

-- a set of blocks: address and size
abbrev pub Blocks : Type 1
Blocks = ℕ → ℕ → Type 0

-- the blocks of a set do not overlap, are large enough and lie in the address space
pub record Sparse (F : Blocks) : Type 0 where
  pub apart : (x s y t : ℕ) → F x s → F y t → ((x ≡ y) × (s ≡ t)) ⊎ Far x y
  pub low : (x s : ℕ) → F x s → 16 ≤ x
  pub high : (x s : ℕ) → F x s → x + s < 2 ^ 64
  pub big : (x s : ℕ) → F x s → 32 ≤ s

-- no element twice
abbrev pub Once : List ℕ → Type 0
Once [] = Unit {0}
Once (x ∷ xs) = ((y : ℕ) → In y xs → x ≢ y) × Once xs

pub record Listing (s : State) (F : Blocks) (chains : ℕ → List ℕ) : Type 0 where
  pub bitmap : HasBitmap s.alloc
  pub chain : (c : ℕ) → c < num_size_classes → Chain s.mem null (head_of s.alloc c) (chains c)
  pub once : (c : ℕ) → c < num_size_classes → Once (chains c)
  pub sound :
      (c x : ℕ) → c < num_size_classes → In x (chains c) → (t : ℕ) × F x t × (size_class t ≡ c)
  pub complete : (x t : ℕ) → F x t → In x (chains (size_class t))

-- the chain of one class, given anew
abbrev pub update : (ℕ → List ℕ) → ℕ → List ℕ → ℕ → List ℕ
update chains c xs d = if c == d then xs else chains d

pub Spread-of :
    (F : Blocks) (xs : List ℕ)
    → Sparse F
    → ((x : ℕ) → In x xs → (t : ℕ) × F x t)
    → Once xs
    → Spread xs
Spread-of F [] sp sound once = tt
Spread-of F (x ∷ xs) sp sound once = (
  λ y i.
      let (t, fx) = sound x (inl refl) in
      let (u, fy) = sound y (inr i) in other x y (once.0 y i) t u (sp.apart x t y u fx fy),
  Spread-of F xs sp (λ y i. sound y (inr i)) once.1,
)
  where
    other : (x y : ℕ) → x ≢ y → (t u : ℕ) → ((x ≡ y) × (t ≡ u)) ⊎ Far x y → Far x y
    other x y ne t u (inl e) = absurd (ne e.0)
    other x y ne t u (inr far) = far

pub Once-without :
    (pre : List ℕ) (x : ℕ) (post : List ℕ) → Once (pre ++ x ∷ post) → Once (pre ++ post)
Once-without [] x post o = o.1
Once-without (q ∷ pre) x post o =
    (λ y i. o.0 y (In-without y pre x post i), Once-without pre x post o.1)

pub Once-middle :
    (pre : List ℕ) (x : ℕ) (post : List ℕ)
    → Once (pre ++ x ∷ post)
    → (y : ℕ) → In y (pre ++ post)
    → y ≢ x
Once-middle [] x post o y i e = o.0 y i (sym e)
Once-middle (q ∷ pre) x post o y (inl e) f = o.0 x (In-middle pre x post) (sym e ∙ f)
Once-middle (q ∷ pre) x post o y (inr i) f = Once-middle pre x post o.1 y i f

abbrev pub Without : Blocks → ℕ → Blocks
Without F x y t = F y t × (y ≢ x)

abbrev pub With : Blocks → ℕ → ℕ → Blocks
With F x s y t = F y t ⊎ ((y ≡ x) × (t ≡ s))

-- `m'` differs from `m` at most in the links of the blocks of `F`.
pub record OnlyLinks (F : Blocks) (m m' : Memory) : Type 0 where
  pub same : (c : ℕ) → ((y t : ℕ) → F y t → Apart 16 (y + 8) 1 c) → load_byte m' c ≡ load_byte m c

pub OnlyLinks-load64 :
    (F : Blocks) (m m' : Memory) (w : ℕ)
    → OnlyLinks F m m'
    → ((y t : ℕ) → F y t → Apart 16 (y + 8) 8 w)
    → load64 m' w ≡ load64 m w
OnlyLinks-load64 F m m' w o apart =
    load64-cong m' m w (λ c p q. o.same c (λ y t fy. inside w c (y + 8) p q (apart y t fy)))
  where
    inside : (w c y : ℕ) → w ≤ c → c < w + 8 → Apart 16 y 8 w → Apart 16 y 1 c
    inside w c y p q h = omega arith

-- what the list operations leave alone in the allocator
pub record SameBounds (a a' : Allocator) : Type 0 where
  pub heap_start : a'.heap_start ≡ a.heap_start
  pub heap_end : a'.heap_end ≡ a.heap_end
  pub allocated : a'.allocated ≡ a.allocated
  pub free_space : a'.free_space ≡ a.free_space
  pub initialized : a'.initialized ≡ a.initialized

module _ {s : State} {F : Blocks} {chains : ℕ → List ℕ} (sp : Sparse F)
    (l : Listing s F chains) where
  -- listed blocks do not overlap, in one class or in two
  pub listed-Far :
      (c d x y : ℕ)
      → c < num_size_classes
      → d < num_size_classes
      → In x (chains c)
      → In y (chains d)
      → (c ≢ d) ⊎ (x ≢ y)
      → Far x y
  listed-Far c d x y hc hd i j ne =
      let (t, fx, ct) = l.sound c x hc i in
      let (u, fy, cu) = l.sound d y hd j in
      elim (sp.apart x t y u fx fy) [
        | inl same ↦
            let e : c ≡ d = sym ct ∙ ap size_class same.1 ∙ cu in
            elim ne [ inl nc ↦ absurd (nc e) | inr nx ↦ absurd (nx same.0) ]
        | inr far ↦ far
      ]

  pub listed-low : (c x : ℕ) → c < num_size_classes → In x (chains c) → 16 ≤ x
  listed-low c x hc i = let (t, fx, _) = l.sound c x hc i in sp.low x t fx

  pub listed-Spread : (c : ℕ) → c < num_size_classes → Spread (chains c)
  listed-Spread c hc =
      Spread-of F (chains c) sp (λ x i. let (t, fx, _) = l.sound c x hc i in (t, fx)) (l.once c hc)
