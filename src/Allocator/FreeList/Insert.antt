-- ===== src/Allocator/FreeList/Insert.antt =====
-- insert_into_free_list keeps the promise of the lists, for one block more.
use tutorial_os.Common.{
  ℕ, ◌+◌, ◌≤◌, ◌<◌, ◌^◌, ◌≡◌, ◌≢◌, inl, inr, refl, ◌∙◌, ap, List, [], ◌∷◌, arith, ◌==◌, not,
  if◌then◌else◌, ne→==_false, ℕ_discrete,
}
use tutorial_os.Memory.{Memory, null, load_byte, load64, store64}
use tutorial_os.Memory.Laws.{Apart, load_byte-store64, load64-store64_self, load64-store64-Apart}
use tutorial_os.Memory.Writes.{Writes, Writes-load64, Writes-refl, Writes-then, Writes-weaken}
use tutorial_os.Allocator.Block.{node_set_next}
use tutorial_os.Allocator.FreeList.{link_head}
use tutorial_os.Allocator.FreeList.Chain.{In, Chain, Far, Spread, Chain-frame}
use tutorial_os.Allocator.FreeList.Unlink.{Clear}
use tutorial_os.Allocator.FreeList.Remove.{node_set_prev_lem}

-- the memory after the links of a new head have been written
abbrev pub linked_mem : Memory → ℕ → ℕ → Memory
linked_mem m x old =
    let m' = store64 (store64 m (x + 16) null) (x + 8) old in
    if not (old == null) then store64 m' (old + 8) (x + 8) else m'

pub link_head_lem :
    (m : Memory) (x old : ℕ)
    → x + 24 < 2 ^ 64
    → old + 16 < 2 ^ 64
    → link_head m (x + 8) old ≡ linked_mem m x old
unfolding link_head node_set_next
link_head_lem m x old hx ho = rw (node_set_prev_lem m (x + 8) null (omega arith)) (
    rw (node_set_prev_lem (store64 (store64 m (x + 8 + 8) null) (x + 8) old) old (x + 8) ho)
      (rw (eight_more x)))
  where
    eight_more : (x : ℕ) → x + 8 + 8 ≡ x + 16
    eight_more x = omega arith

-- the links that the new head and the old one hold afterwards
pub record Linked (m : Memory) (x old : ℕ) (m' : Memory) : Type 0 where
  pub prev_null : load64 m' (x + 16) ≡ null
  pub next_old : load64 m' (x + 8) ≡ old
  pub old_prev : old ≢ null → load64 m' (old + 8) ≡ x + 8
  pub writes : Writes m ((old + 8) ∷ (x + 8) ∷ (x + 16) ∷ []) m'

pub linked_mem-Linked :
    (m : Memory) (x old : ℕ)
    → x + 24 < 2 ^ 64
    → old < 2 ^ 64
    → (old ≢ null → Apart 8 (old + 8) 16 (x + 8))
    → Linked m x old (linked_mem m x old)
linked_mem-Linked m x old hx ho apart = elim (ℕ_discrete old null) [
  | yes e ↦ rw e (record {
    prev_null =
        load64-store64-Apart (store64 m (x + 16) null) (x + 8) null (x + 16) (omega arith)
        ∙ load64-store64_self m (x + 16) null (omega arith);
    next_old = load64-store64_self (store64 m (x + 16) null) (x + 8) null (omega arith);
    old_prev = λ z. absurd (z refl);
    writes =
        Writes-weaken ((null + 8) ∷ (x + 8) ∷ (x + 16) ∷ [])
          (Writes-then (x + 8) null (Writes-then (x + 16) null (Writes-refl m))) (λ c o. o.1);
  })
  | no ne ↦ rw (ne→==_false _ _ ne) (
      let m1 = store64 m (x + 16) null in
      let m2 = store64 m1 (x + 8) old in
      let off : Apart 8 (old + 8) 16 (x + 8) = apart ne in
      record {
        prev_null =
            load64-store64-Apart m2 (old + 8) (x + 8) (x + 16) (omega arith)
            ∙ load64-store64-Apart m1 (x + 8) old (x + 16) (omega arith)
            ∙ load64-store64_self m (x + 16) null (omega arith);
        next_old =
            load64-store64-Apart m2 (old + 8) (x + 8) (x + 8) (omega arith)
            ∙ load64-store64_self m1 (x + 8) old ho;
        old_prev = λ z. load64-store64_self m2 (old + 8) (x + 8) (omega arith);
        writes =
            Writes-then (old + 8) (x + 8)
              (Writes-then (x + 8) old (Writes-then (x + 16) null (Writes-refl m)));
      })
]

-- An old head that is NULL is not written.
pub linked_mem_same :
    (m : Memory) (x old b : ℕ)
    → Apart 16 (x + 8) 1 b
    → (old ≢ null → Apart 8 (old + 8) 1 b)
    → load_byte (linked_mem m x old) b ≡ load_byte m b
linked_mem_same m x old b hx ho =
    let m1 = store64 m (x + 16) null in
    let own : load_byte (store64 m1 (x + 8) old) b ≡ load_byte m b =
      load_byte-store64 m1 (x + 8) old b (omega arith)
      ∙ load_byte-store64 m (x + 16) null b (omega arith) in
    elim (ℕ_discrete old null) [
      | yes e ↦ rw (ap (λ k. k == null) e) own
      | no ne ↦
          rw (ne→==_false _ _ ne)
            (load_byte-store64 (store64 m1 (x + 8) old) (old + 8) (x + 8) b (ho ne) ∙ own)
    ]

-- the links of a block that is neither the new head nor the old one
pub Linked-links :
    {m : Memory} {x old : ℕ} {m' : Memory} (w : ℕ)
    → Linked m x old m'
    → 16 ≤ w
    → Far x w
    → Clear old w
    → (load64 m' (w + 8) ≡ load64 m (w + 8)) × (load64 m' (w + 16) ≡ load64 m (w + 16))
Linked-links {x} {old} w u h far (inl e) = (
  Writes-load64 (w + 8) u.writes (omega arith, (omega arith, (omega arith, tt))),
  Writes-load64 (w + 16) u.writes (omega arith, (omega arith, (omega arith, tt))),
)
Linked-links {x} {old} w u h far (inr (z, e, f)) = (
  Writes-load64 (w + 8) u.writes (omega arith, (omega arith, (omega arith, tt))),
  Writes-load64 (w + 16) u.writes (omega arith, (omega arith, (omega arith, tt))),
)

pub link-Chain :
    (m m' : Memory) (x old : ℕ) (xs : List ℕ)
    → Chain m null old xs
    → Spread xs
    → ((w : ℕ) → In w xs → (16 ≤ w) × Far x w)
    → Linked m x old m'
    → Chain m' null (x + 8) (x ∷ xs)
link-Chain m m' x old [] h sp ok u = (refl, u.prev_null, u.next_old ∙ h)
link-Chain m m' x old (y ∷ r) (e, back, rest) sp ok u =
    let (low, far) = ok y (inl refl) in
    let next : load64 m' (y + 8) ≡ load64 m (y + 8) =
      Writes-load64 (y + 8) u.writes (omega arith, (omega arith, (omega arith, tt))) in
    (
      refl,
      u.prev_null,
      (
        u.next_old ∙ e,
        ap (load64 m') (omega arith) ∙ u.old_prev (λ z. absurd (omega arith)),
        rw next (
            Chain-frame m m' (y + 8) (load64 m (y + 8)) r rest
              (λ w i. Linked-links w u (ok w (inr i)).0 (ok w (inr i)).1 (inr (y, e, sp.0 w i)))),
      ),
    )
