-- ===== src/Allocator/FreeList/Remove.antt =====
-- remove_from_free_list: the block leaves its chain, and nothing but links of listed blocks changes.
use tutorial_os.Common.{
  ℕ, ◌+◌, ◌≤◌, ◌<◌, ◌^◌, ◌≡◌, ◌≢◌, refl, ◌∙◌, ap, [], ◌∷◌, arith, ◌==◌, set, not, if◌then◌else◌,
  ne→==_false, ℕ_discrete,
}
use tutorial_os.Memory.{Memory, null, load_byte, load64, store64}
use tutorial_os.Memory.Laws.{Apart, load_byte-store64, load64-store64_self, load64-store64-Apart}
use tutorial_os.Memory.Writes.{Writes-refl, Writes-then, Writes-weaken}
use tutorial_os.Allocator.Block.{node_next, node_prev, node_set_next, node_set_prev}
use tutorial_os.Allocator.FreeList.{Allocator, State, unlink_prev, unlink_next}
use tutorial_os.Allocator.FreeList.Unlink.{Clear, Unlinked}

node_prev_lem : (m : Memory) (x : ℕ) → x + 24 < 2 ^ 64 → node_prev m (x + 8) ≡ load64 m (x + 16)
unfolding node_prev
node_prev_lem m x h = ap (load64 m) (omega arith)

pub node_set_prev_lem :
    (m : Memory) (n v : ℕ) → n + 16 < 2 ^ 64 → node_set_prev m n v ≡ store64 m (n + 8) v
unfolding node_set_prev
node_set_prev_lem m n v h = ap (λ a. store64 m a v) (omega arith)

-- the states that the two unlinking steps leave, given the links that they read
abbrev after_prev : State → ℕ → ℕ → ℕ → State
after_prev s c p n =
    if not (p == null)
    then record s { mem = store64 s.mem p n }
    else record s { alloc = record (s.alloc) { free_lists = set s.alloc.free_lists c n } }

abbrev after_next : State → ℕ → ℕ → State
after_next s p n = if not (n == null) then record s { mem = store64 s.mem (n + 8) p } else s

unlink_next_lem :
    (s : State) (x p n : ℕ)
    → load64 s.mem (x + 8) ≡ n
    → load64 s.mem (x + 16) ≡ p
    → x + 24 < 2 ^ 64
    → n + 16 < 2 ^ 64
    → unlink_next s (x + 8) ≡ after_next s p n
unfolding unlink_next node_next
unlink_next_lem s x p n e f hx hn =
    rw (node_prev_lem s.mem x hx) (rw (e, f) (rw (node_set_prev_lem s.mem n p hn)))

unlink_prev_lem :
    (s : State) (c x p n : ℕ)
    → load64 s.mem (x + 8) ≡ n
    → load64 s.mem (x + 16) ≡ p
    → x + 24 < 2 ^ 64
    → unlink_prev s c (x + 8) ≡ after_prev s c p n
unfolding unlink_prev node_next node_set_next
unlink_prev_lem s c x p n e f hx = rw (node_prev_lem s.mem x hx) (rw (e, f) refl)

-- the hypotheses under which the two steps take block `x` out from between `p` and `n`
pub record Between (m : Memory) (x p n : ℕ) : Type 0 where
  pub prev_is : load64 m (x + 16) ≡ p
  pub next_is : load64 m (x + 8) ≡ n
  pub room : x + 24 < 2 ^ 64
  pub low : 16 ≤ x
  pub clear : Clear p x
  pub next_room : n + 16 < 2 ^ 64
  pub apart : p ≢ null → n ≢ null → Apart 8 (n + 8) 8 p

-- the allocator and the memory that the unlinking steps leave
abbrev pub unlinked_alloc : Allocator → ℕ → ℕ → ℕ → Allocator
unlinked_alloc alloc c p n =
    if not (p == null) then alloc else record alloc { free_lists = set alloc.free_lists c n }

abbrev pub unlinked_mem : Memory → ℕ → ℕ → Memory
unlinked_mem m p n =
    let m' = if not (p == null) then store64 m p n else m in
    if not (n == null) then store64 m' (n + 8) p else m'

module _ (s : State) (c x p n : ℕ) (b : Between s.mem x p n) where
  open b use {prev_is, next_is, room, low, clear, next_room, apart}

  Clear-Apart : p ≢ null → (k : ℕ) → 8 ≤ k → k ≤ 16 → Apart 8 p 8 (x + k)
  Clear-Apart ne k h j = ground (arith, clear)

  after_prev-links :
      (load64 (after_prev s c p n).mem (x + 8) ≡ n) × (load64 (after_prev s c p n).mem (x + 16) ≡ p)
  after_prev-links = elim (ℕ_discrete p null) [
    | yes e ↦ rw e (next_is, prev_is ∙ e)
    | no ne ↦ rw (ne→==_false _ _ ne) (
      load64-store64-Apart s.mem p n (x + 8) (Clear-Apart ne 8 (omega arith) (omega arith))
          ∙ next_is,
      load64-store64-Apart s.mem p n (x + 16) (Clear-Apart ne 16 (omega arith) (omega arith))
          ∙ prev_is,
    )
  ]

  pub unlink_lem :
      unlink_next (unlink_prev s c (x + 8)) (x + 8)
      ≡ record { alloc = unlinked_alloc s.alloc c p n; mem = unlinked_mem s.mem p n }
  unlink_lem =
      ap (λ t. unlink_next t (x + 8)) (unlink_prev_lem s c x p n next_is prev_is room)
      ∙ unlink_next_lem (after_prev s c p n) x p n after_prev-links.0 after_prev-links.1 room
          next_room
      ∙ ground arith

pub unlinked_mem-Unlinked :
    (m : Memory) (p n : ℕ)
    → p < 2 ^ 64
    → n < 2 ^ 64
    → (p ≢ null → n ≢ null → Apart 8 (n + 8) 8 p)
    → Unlinked m p n (unlinked_mem m p n)
unlinked_mem-Unlinked m p n hp hn apart = elim (ℕ_discrete p null) [
  | yes e ↦ elim (ℕ_discrete n null) [
    | yes f ↦
        rw (e, f)
          (record {
            prev_next = λ z. absurd (z refl);
            next_prev = λ z. absurd (z refl);
            writes = Writes-weaken (null ∷ (null + 8) ∷ []) (Writes-refl m) (λ c o. tt);
          })
    | no nf ↦
        rw (e, ne→==_false _ _ nf)
          (record {
            prev_next = λ z. absurd (z refl);
            next_prev = λ z. load64-store64_self m (n + 8) null (omega arith);
            writes =
                Writes-weaken (null ∷ (n + 8) ∷ []) (Writes-then (n + 8) null (Writes-refl m))
                  (λ c o. o.1);
          })
  ]
  | no ne ↦ elim (ℕ_discrete n null) [
    | yes f ↦
        rw (f, ne→==_false _ _ ne)
          (record {
            prev_next = λ z. load64-store64_self m p null (omega arith);
            next_prev = λ z. absurd (z refl);
            writes =
                Writes-weaken (p ∷ (null + 8) ∷ []) (Writes-then p null (Writes-refl m))
                  (λ c o. (o.0, tt));
          })
    | no nf ↦
        rw (ne→==_false _ _ ne, ne→==_false _ _ nf)
          (record {
            prev_next = λ z.
                load64-store64-Apart (store64 m p n) (n + 8) p p (apart ne nf)
                ∙ load64-store64_self m p n hn;
            next_prev = λ z. load64-store64_self (store64 m p n) (n + 8) p hp;
            writes =
                Writes-weaken (p ∷ (n + 8) ∷ [])
                  (Writes-then (n + 8) p (Writes-then p n (Writes-refl m)))
                  (λ c o. (o.1.0, (o.0, tt)));
          })
  ]
]

-- A node that is NULL is not written.
pub unlinked_mem_same :
    (m : Memory) (p n b : ℕ)
    → (p ≢ null → Apart 8 p 1 b)
    → (n ≢ null → Apart 8 (n + 8) 1 b)
    → load_byte (unlinked_mem m p n) b ≡ load_byte m b
unlinked_mem_same m p n b hp hn = elim (ℕ_discrete p null) [
  | yes e ↦ elim (ℕ_discrete n null) [
    | yes f ↦ rw (e, f) refl
    | no nf ↦ rw (e, ne→==_false _ _ nf) (load_byte-store64 m (n + 8) null b (hn nf))
  ]
  | no ne ↦ elim (ℕ_discrete n null) [
    | yes f ↦ rw (f, ne→==_false _ _ ne) (load_byte-store64 m p null b (hp ne))
    | no nf ↦
        rw (ne→==_false _ _ ne, ne→==_false _ _ nf)
          (load_byte-store64 (store64 m p n) (n + 8) p b (hn nf)
            ∙ load_byte-store64 m p n b (hp ne))
  ]
]
