-- ===== src/Allocator/FreeList/Unlink.antt =====
-- Taking a block out of its chain, wherever it stands, and putting one in front.
use tutorial_os.Common.{
  ℕ, ◌+◌, ◌≤◌, ◌≡◌, ◌≢◌, ◌⊎◌, inl, inr, refl, ◌∙◌, ap, List, [], ◌∷◌, ◌++◌, arith,
}
use tutorial_os.Memory.{Memory, null, load64}
use tutorial_os.Memory.Writes.{Writes, Outside, Writes-load64}
use tutorial_os.Allocator.FreeList.Chain.{
  In, Chain, Far, FarFrom, Spread, In-left, In-right, Chain-frame, Chain-rest, before, before-In,
}

-- no link of block `w` is a link that the node `p` holds
abbrev pub Clear : ℕ → ℕ → Type 0
Clear p w = (p ≡ null) ⊎ ((z : ℕ) × (p ≡ z + 8) × Far z w)

-- `m'` is `m` with the nodes `p` and `n` made neighbours.
pub record Unlinked (m : Memory) (p n : ℕ) (m' : Memory) : Type 0 where
  pub prev_next : p ≢ null → load64 m' p ≡ n
  pub next_prev : n ≢ null → load64 m' (n + 8) ≡ p
  pub writes : Writes m (p ∷ (n + 8) ∷ []) m'

Clear-next : (p w k : ℕ) → Clear p w → 16 ≤ w → 8 ≤ k → k ≤ 16 → Outside (p ∷ []) 8 (w + k)
Clear-next p w k (inl e) h a b = (omega arith, tt)
Clear-next p w k (inr (z, e, far)) h a b = (omega arith, tt)

Clear-prev : (n w k : ℕ) → Clear n w → 16 ≤ w → 8 ≤ k → k ≤ 16 → Outside ((n + 8) ∷ []) 8 (w + k)
Clear-prev n w k (inl e) h a b = (omega arith, tt)
Clear-prev n w k (inr (z, e, far)) h a b = (omega arith, tt)

pub Unlinked-links :
    {m : Memory} {p n : ℕ} {m' : Memory} (w : ℕ)
    → Unlinked m p n m'
    → 16 ≤ w
    → Clear p w
    → Clear n w
    → (load64 m' (w + 8) ≡ load64 m (w + 8)) × (load64 m' (w + 16) ≡ load64 m (w + 16))
Unlinked-links {p} {n} w u h cp cn = (
  Writes-load64 (w + 8) u.writes (
    (Clear-next p w 8 cp h (omega arith) (omega arith)).0,
    Clear-prev n w 8 cn h (omega arith) (omega arith),
  ),
  Writes-load64 (w + 16) u.writes (
    (Clear-next p w 16 cp h (omega arith) (omega arith)).0,
    Clear-prev n w 16 cn h (omega arith) (omega arith),
  ),
)

pub Far-sym : (x y : ℕ) → Far x y → Far y x
Far-sym x y (inl h) = inr h
Far-sym x y (inr h) = inl h

-- the first link of a chain holds none of a block that is far from it
pub Chain-Clear :
    (m : Memory) (p c : ℕ) (xs : List ℕ) (w : ℕ) → Chain m p c xs → FarFrom w xs → Clear c w
Chain-Clear m p c [] w h far = inl h
Chain-Clear m p c (y ∷ ys) w h far = inr (y, h.0, Far-sym w y (far y (inl refl)))

module _ {m : Memory} {p n : ℕ} {m' : Memory} (u : Unlinked m p n m') where
  -- what follows the block
  unlink-tail :
      (q : ℕ) (post : List ℕ)
      → Chain m q n post
      → Spread post
      → ((w : ℕ) → In w post → 16 ≤ w)
      → ((w : ℕ) → In w post → Clear p w)
      → Chain m' p n post
  unlink-tail q [] h sp big clear = h
  unlink-tail q (y ∷ r) (e, back, rest) sp big clear =
      let next : load64 m' (y + 8) ≡ load64 m (y + 8) = Writes-load64 (y + 8) u.writes (
        (Clear-next p y 8 (clear y (inl refl)) (big y (inl refl)) (omega arith) (omega arith)).0,
        (omega arith, tt),
      ) in
      (
        e,
        ap (load64 m') (omega arith) ∙ u.next_prev (λ z. absurd (omega arith)),
        rw next (
            Chain-frame m m' (y + 8) (load64 m (y + 8)) r rest
              (λ w i. Unlinked-links w u (big w (inr i)) (clear w (inr i)) (inr (y, e, sp.0 w i)))),
      )

-- the link to what is left
abbrev pub start : List ℕ → ℕ → ℕ → ℕ
start [] c n = n
start (q ∷ pre) c n = c

pub unlink-Chain :
    (m m' : Memory) (p c : ℕ) (pre : List ℕ) (x : ℕ) (post : List ℕ)
    → Chain m p c (pre ++ x ∷ post)
    → Spread (pre ++ x ∷ post)
    → ((w : ℕ) → In w (pre ++ x ∷ post) → (16 ≤ w) × Clear p w)
    → Unlinked m (before p pre) (load64 m (x + 8)) m'
    → Chain m' p (start pre c (load64 m (x + 8))) (pre ++ post)
unlink-Chain m m' p c [] x post h sp ok u =
    unlink-tail u (x + 8) post h.2 sp.1 (λ w i. (ok w (inr i)).0) (λ w i. (ok w (inr i)).1)
unlink-Chain m m' p c (q ∷ []) x post (e, back, rest) sp ok u =
    let clear : Clear (load64 m (x + 8)) q =
      Chain-Clear m (x + 8) (load64 m (x + 8)) post q rest.2 (λ y i. sp.0 y (inr i)) in
    (
      e,
      Writes-load64 (q + 16) u.writes (
        omega arith,
        Clear-prev (load64 m (x + 8)) q 16 clear (ok q (inl refl)).0 (omega arith) (omega arith),
      )
          ∙ back,
      rw (u.prev_next (λ z. omega arith)) (
          unlink-tail u (x + 8) post rest.2 sp.1.1 (λ w i. (ok w (inr (inr i))).0)
            (λ w i. inr (q, refl, sp.0 w (inr i)))),
    )
unlink-Chain m m' p c (q ∷ r ∷ pre) x post (e, back, rest) sp ok u =
    let (z, i, ez) = before-In (q + 8) r pre in
    let clear : Clear (load64 m (x + 8)) q =
      Chain-Clear m (x + 8) (load64 m (x + 8)) post q
        (Chain-rest m (q + 8) (load64 m (q + 8)) (r ∷ pre) x post rest)
        (λ y j. sp.0 y (In-right y (r ∷ pre) (x ∷ post) (inr j))) in
    let (next, prev) =
      Unlinked-links q u (ok q (inl refl)).0
        (inr (z, ez, Far-sym q z (sp.0 z (In-left z (r ∷ pre) (x ∷ post) i)))) clear in
    (
      e,
      prev ∙ back,
      rw next (
          unlink-Chain m m' (q + 8) (load64 m (q + 8)) (r ∷ pre) x post rest sp.1
            (λ w j. ((ok w (inr j)).0, inr (q, refl, sp.0 w j))) u),
    )
