-- ===== src/Allocator/Heap/Balance.antt =====
-- What merging a free block with its neighbours does to the byte counts and to their being merged.
use tutorial_os.Common.{
  ℕ, ◌+◌, ◌≡◌, refl, sym, subst, Bool, true, false, List, [], ◌∷◌, ◌++◌, arith,
}
use tutorial_os.Allocator.Tiling.{Block, block, last_free, taken_bytes, free_bytes, Merged}
use tutorial_os.Allocator.Tiling.Place.{
  taken_bytes-append, free_bytes-append, Merged-split, Merged-join,
}
use tutorial_os.Allocator.Heap.Join.{join_right, join_left}
use tutorial_os.Allocator.Heap.JoinLeft.{
  Snoc, empty, snoc, Snoc-view, join_left_free, join_left_taken, last_free-append,
}
use tutorial_os.Allocator.Heap.Release.{joined}

-- A front and a free block after it have the same bytes and are as merged as another such pair.
abbrev Even : List Block → ℕ → List Block × ℕ → Type 0
Even pre t r =
    (taken_bytes r.0 ≡ taken_bytes pre)
    × (free_bytes r.0 + r.1 ≡ free_bytes pre + t)
    × Merged false r.0
    × (last_free false r.0 ≡ true → ⊥)

join_left-Even : (pre : List Block) (t : ℕ) → Merged false pre → Even pre t (join_left pre t)
join_left-Even pre t = by_view pre (Snoc-view pre)
  where
    by_view : (pre : List Block) → Snoc pre → Merged false pre → Even pre t (join_left pre t)
    by_view _ empty m = (refl, refl, tt, λ e. cc)
    by_view _ (snoc pre v false) m =
        subst (Even (pre ++ block v false ∷ []) t) (sym (join_left_taken pre v t))
          (refl, refl, m, λ e. cc (e, last_free-append false pre (block v false)))
    by_view _ (snoc pre v true) m =
        let (l, r) = Merged-split false pre (block v true ∷ []) m in
        subst (Even (pre ++ block v true ∷ []) t) (sym (join_left_free pre v t)) (
          omega (arith, taken_bytes-append pre (block v true ∷ [])),
          omega (arith, free_bytes-append pre (block v true ∷ [])),
          l,
          λ e. cc (r.0 e),
        )

join_right_bytes :
    (t : ℕ) (post : List Block)
    → (taken_bytes (join_right t post).1 ≡ taken_bytes post)
      × ((join_right t post).0 + free_bytes (join_right t post).1 ≡ t + free_bytes post)
join_right_bytes t [] = (refl, refl)
join_right_bytes t (b ∷ post) = ground arith

join_right-Merged :
    (t : ℕ) (post : List Block) → Merged false post → Merged true (join_right t post).1
join_right-Merged t [] m = tt
join_right-Merged t (b ∷ post) m = by_flag b.size b.free m.1
  where
    by_flag : (u : ℕ) (f : Bool) → Merged f post → Merged true (join_right t (block u f ∷ post)).1
    by_flag u true r = r
    by_flag u false r = ((λ e. refl), r)

module _ (pre : List Block) (t : ℕ) (post : List Block) where
  pub joined-Merged :
      Merged false (pre ++ block t false ∷ post)
      → let j = joined pre t post in Merged false (j.0 ++ block j.1 true ∷ j.2)
  joined-Merged m =
      let (l, r) = Merged-split false pre (block t false ∷ post) m in
      let j = joined pre t post in
      let (_, _, merged, taken) = join_left-Even pre (join_right t post).0 l in
      Merged-join false j.0 (block j.1 true ∷ j.2) merged
        ((λ e. absurd (taken e)), join_right-Merged t post r.1)

  pub joined_bytes :
      Merged false (pre ++ block t false ∷ post)
      → let j = joined pre t post in
        (taken_bytes (j.0 ++ block j.1 true ∷ j.2) + t ≡ taken_bytes (pre ++ block t false ∷ post))
        × (free_bytes (j.0 ++ block j.1 true ∷ j.2) ≡ free_bytes (pre ++ block t false ∷ post) + t)
  joined_bytes m =
      let (l, r) = Merged-split false pre (block t false ∷ post) m in
      let j = joined pre t post in
      let (et, ef, _, _) = join_left-Even pre (join_right t post).0 l in
      let (rt, rf) = join_right_bytes t post in
      (
        omega (
          arith,
          taken_bytes-append pre (block t false ∷ post),
          taken_bytes-append j.0 (block j.1 true ∷ j.2),
        ),
        omega (
          arith,
          free_bytes-append pre (block t false ∷ post),
          free_bytes-append j.0 (block j.1 true ∷ j.2),
        ),
      )
