-- ===== src/Allocator/FreeList/Chain.antt =====
-- A free list in memory: a doubly linked chain of blocks, each named by the address of its header.
use tutorial_os.Common.{ℕ, ◌+◌, ◌≤◌, ◌≡◌, ◌≢◌, ◌⊎◌, inl, inr, refl, ◌∙◌, ap, List, [], ◌∷◌, ◌++◌}
use tutorial_os.Memory.{Memory, null, load64}

abbrev pub In : ℕ → List ℕ → Type 0
In x [] = ⊥
In x (y ∷ ys) = (x ≡ y) ⊎ In x ys

-- From the link `c` the chain runs through the blocks `bs`; `p` is what the first one's `prev` holds.
abbrev pub Chain : Memory → ℕ → ℕ → List ℕ → Type 0
Chain m p c [] = c ≡ null
Chain m p c (b ∷ bs) = (c ≡ b + 8) × (load64 m (b + 16) ≡ p) × Chain m (b + 8) (load64 m (b + 8)) bs

-- two blocks that do not overlap
abbrev pub Far : ℕ → ℕ → Type 0
Far x y = (x + 32 ≤ y) ⊎ (y + 32 ≤ x)

abbrev pub FarFrom : ℕ → List ℕ → Type 0
FarFrom x ys = (y : ℕ) → In y ys → Far x y

-- no two of the blocks overlap
abbrev pub Spread : List ℕ → Type 0
Spread [] = Unit {0}
Spread (b ∷ bs) = FarFrom b bs × Spread bs

pub In-middle : (pre : List ℕ) (x : ℕ) (post : List ℕ) → In x (pre ++ x ∷ post)
In-middle [] x post = inl refl
In-middle (q ∷ pre) x post = inr (In-middle pre x post)

pub In-left : (y : ℕ) (pre rest : List ℕ) → In y pre → In y (pre ++ rest)
In-left y [] rest i = absurd i
In-left y (q ∷ pre) rest (inl e) = inl e
In-left y (q ∷ pre) rest (inr i) = inr (In-left y pre rest i)

pub In-right : (y : ℕ) (pre rest : List ℕ) → In y rest → In y (pre ++ rest)
In-right y [] rest i = i
In-right y (q ∷ pre) rest i = inr (In-right y pre rest i)

-- What is in a list with one element less is in the list.
pub In-without :
    (y : ℕ) (pre : List ℕ) (x : ℕ) (post : List ℕ) → In y (pre ++ post) → In y (pre ++ x ∷ post)
In-without y [] x post i = inr i
In-without y (q ∷ pre) x post (inl e) = inl e
In-without y (q ∷ pre) x post (inr i) = inr (In-without y pre x post i)

pub In-other :
    (y : ℕ) (pre : List ℕ) (x : ℕ) (post : List ℕ)
    → In y (pre ++ x ∷ post)
    → y ≢ x
    → In y (pre ++ post)
In-other y [] x post (inl e) ne = absurd (ne e)
In-other y [] x post (inr i) ne = i
In-other y (q ∷ pre) x post (inl e) ne = inl e
In-other y (q ∷ pre) x post (inr i) ne = inr (In-other y pre x post i ne)

-- where an element of a list stands
pub split : (x : ℕ) (xs : List ℕ) → In x xs → (pre post : List ℕ) × (xs ≡ pre ++ x ∷ post)
split x [] i = absurd i
split x (y ∷ ys) (inl e) = ([], ys, rw e)
split x (y ∷ ys) (inr i) = let (pre, post, e) = split x ys i in (y ∷ pre, post, ap (λ t. y ∷ t) e)

-- A chain survives what leaves the links of its blocks alone.
pub Chain-frame :
    (m m' : Memory) (p c : ℕ) (xs : List ℕ)
    → Chain m p c xs
    → ((b : ℕ)
        → In b xs
        → (load64 m' (b + 8) ≡ load64 m (b + 8)) × (load64 m' (b + 16) ≡ load64 m (b + 16)))
    → Chain m' p c xs
Chain-frame m m' p c [] h same = h
Chain-frame m m' p c (b ∷ bs) (e, q, r) same =
    let (next, prev) = same b (inl refl) in
    (
      e,
      prev ∙ q,
      rw next (Chain-frame m m' (b + 8) (load64 m (b + 8)) bs r (λ z i. same z (inr i))),
    )

-- the node in front of what follows `pre`
abbrev pub before : ℕ → List ℕ → ℕ
before p [] = p
before p (q ∷ pre) = before (q + 8) pre

pub before-In : (p q : ℕ) (pre : List ℕ) → (z : ℕ) × In z (q ∷ pre) × (before p (q ∷ pre) ≡ z + 8)
before-In p q [] = (q, inl refl, refl)
before-In p q (r ∷ pre) = let (z, i, e) = before-In (q + 8) r pre in (z, inr i, e)

-- the links of a block in a chain
pub Chain-prev :
    (m : Memory) (p c : ℕ) (pre : List ℕ) (x : ℕ) (post : List ℕ)
    → Chain m p c (pre ++ x ∷ post)
    → load64 m (x + 16) ≡ before p pre
Chain-prev m p c [] x post h = h.1
Chain-prev m p c (q ∷ pre) x post h = Chain-prev m (q + 8) (load64 m (q + 8)) pre x post h.2

pub Chain-rest :
    (m : Memory) (p c : ℕ) (pre : List ℕ) (x : ℕ) (post : List ℕ)
    → Chain m p c (pre ++ x ∷ post)
    → Chain m (x + 8) (load64 m (x + 8)) post
Chain-rest m p c [] x post h = h.2
Chain-rest m p c (q ∷ pre) x post h = Chain-rest m (q + 8) (load64 m (q + 8)) pre x post h.2

pub Spread-rest :
    (pre : List ℕ) (x : ℕ) (post : List ℕ) → Spread (pre ++ x ∷ post) → FarFrom x post × Spread post
Spread-rest [] x post h = h
Spread-rest (q ∷ pre) x post h = Spread-rest pre x post h.1

pub Spread-before :
    (pre : List ℕ) (x : ℕ) (post : List ℕ) (z : ℕ)
    → Spread (pre ++ x ∷ post)
    → In z pre
    → Far z x × FarFrom z post
Spread-before [] x post z h i = absurd i
Spread-before (q ∷ pre) x post z h (inl e) =
    rw e (h.0 x (In-middle pre x post), λ y i. h.0 y (In-right y pre (x ∷ post) (inr i)))
Spread-before (q ∷ pre) x post z h (inr i) = Spread-before pre x post z h.1 i
