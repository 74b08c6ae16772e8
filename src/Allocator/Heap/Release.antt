-- ===== src/Allocator/Heap/Release.antt =====
-- coalesce as a whole: both neighbours looked at, the footer written and the block behind told.
use tutorial_os.Common.{
  ℕ, ◌+◌, ◌-◌, ◌≤◌, ◌<◌, ◌^◌, ◌≡◌, refl, ◌∙◌, ap, sym, subst, Bool, true, false, List, [], ◌∷◌,
  arith,
}
use tutorial_os.Memory.{load64, store64}
use tutorial_os.Memory.Laws.{load64-store64_self, load64-store64-Apart}
use tutorial_os.Memory.Writes.{Writes-store64}
use tutorial_os.Allocator.Block.{write_footer}
use tutorial_os.Allocator.Block.Header.{HasHeader, block_next_lem, write_footer_lem}
use tutorial_os.Allocator.FreeList.{State}
use tutorial_os.Allocator.FreeList.Listing.{SameBounds}
use tutorial_os.Allocator.Merge.{mark_next, absorb_next, absorb_prev, coalesce}
use tutorial_os.Allocator.Tiling.{Block, block, HasBlock, stop, last_free}
use tutorial_os.Allocator.Heap.{Around}
use tutorial_os.Allocator.Heap.Region.{Around-ends, Around-Writes}
use tutorial_os.Allocator.Heap.Region.Mark.{mark_next_lem}
use tutorial_os.Allocator.Heap.Join.{
  join_right, join_left, Holds, SameBounds-trans, absorb_next_lem,
}
use tutorial_os.Allocator.Heap.JoinLeft.{Joined, absorb_prev_lem}

-- The region from `y` holds one free block, footer included, which the block behind knows of.
pub record Settled (s s' : State) (pre : List Block) (y t : ℕ) (q : Bool) (post : List Block)
    : Type 0 where
  pub around : Around s' pre y (y + t) true post
  pub here : HasBlock s'.mem y q (block t true)
  pub bounds : SameBounds s.alloc s'.alloc

abbrev footed : State → ℕ → State
footed s y = record s { mem = write_footer s.mem y }

module _ (s s2 : State) (pre : List Block) (y t : ℕ) (g q : Bool) (post : List Block)
    (h : Holds s s2 pre y t g q post) where
  top : y + t < 2 ^ 64
  top = omega (arith, h.around.high, Around-ends h.around)

  abbrev sf : State
  sf = record s2 { mem = store64 s2.mem (y + t - 8) t }

  footed_is : footed s2 y ≡ sf
  footed_is = ap (λ m. record s2 { mem = m }) (write_footer_lem h.head (omega (arith, h.big)) top)

  settle_stored : Settled s (mark_next sf y true) pre y t q post
  settle_stored =
      let large = h.big in
      let a =
        Around-Writes h.around sf ((y + t - 8) ∷ []) (Writes-store64 s2.mem (y + t - 8) t)
          (λ w o. (omega arith, tt)) refl refl refl refl in
      let word : load64 sf.mem y ≡ load64 s2.mem y =
        load64-store64-Apart s2.mem (y + t - 8) t y (omega arith) in
      let head : HasHeader sf.mem y t true q = record {
        word = word ∙ h.head.word;
        aligned = h.head.aligned;
      } in
      let (a', grown, same) =
        mark_next_lem sf pre y y (y + t) true g post a (block_next_lem head top) in
      record {
        around = a';
        here = record {
          head = record {
            word = grown.words y (omega arith) (omega arith) ∙ head.word;
            aligned = h.head.aligned;
          };
          big = h.big;
          foot = λ _.
              grown.words (y + t - 8) (omega arith) (omega arith)
              ∙ load64-store64_self s2.mem (y + t - 8) t (omega (arith, top));
        };
        bounds = SameBounds-trans h.bounds grown.bounds;
      }

  settle : Settled s (mark_next (footed s2 y) y true) pre y t q post
  settle = subst (λ u. Settled s (mark_next u y true) pre y t q post) (sym footed_is) settle_stored

absorb_prev_at :
    (start : ℕ) (s : State) (pre : List Block) (t : ℕ) (g : Bool) (post : List Block)
    → s.alloc.heap_start ≡ start
    → let x = stop start pre in
      Around s pre x (x + t) g post
      → HasHeader s.mem x t true (last_free false pre)
      → 32 ≤ t
      → Joined start s (absorb_prev s x) (join_left pre t) g post
absorb_prev_at start s pre t g post e =
    subst
      (λ a.
        Around s pre (stop a pre) (stop a pre + t) g post
        → HasHeader s.mem (stop a pre) t true (last_free false pre)
        → 32 ≤ t
        → Joined a s (absorb_prev s (stop a pre)) (join_left pre t) g post)
      e (absorb_prev_lem s pre t g post)

-- the blocks in front, the size and the blocks behind once a free block of `t` bytes is merged
abbrev pub joined : List Block → ℕ → List Block → List Block × ℕ × List Block
joined pre t post = let r = join_right t post in let l = join_left pre r.0 in (l.0, l.1, r.1)

Holds-from :
    {s s1 s2 : State} {pre : List Block} {y t : ℕ} {g q : Bool} {post : List Block}
    → SameBounds s.alloc s1.alloc
    → Holds s1 s2 pre y t g q post
    → Holds s s2 pre y t g q post
Holds-from b h = record {
  around = h.around;
  head = h.head;
  bounds = SameBounds-trans b h.bounds;
  big = h.big;
}

-- coalesce leaves one free block where the block and its free neighbours were, and returns it.
pub coalesce_lem :
    (s : State) (pre : List Block) (t : ℕ) (g : Bool) (post : List Block)
    → let start = s.alloc.heap_start in
      let x = stop start pre in
      Around s pre x (x + t) g post
      → HasHeader s.mem x t true (last_free false pre)
      → 32 ≤ t
      → let j = joined pre t post in
        ((coalesce s x).0 ≡ stop start j.0)
        × Settled s (coalesce s x).1 j.0 (stop start j.0) j.1 (last_free false j.0) j.2
unfolding coalesce
coalesce_lem s pre t g post h hd big =
    let start = s.alloc.heap_start in
    let x = stop start pre in
    let (g', r) = absorb_next_lem s pre x t g (last_free false pre) post h hd big in
    let s1 = absorb_next s x in
    let j = joined pre t post in
    let (here, l) =
      absorb_prev_at start s1 pre (join_right t post).0 g' j.2 r.bounds.heap_start r.around r.head
        r.big in
    let s2 = (absorb_prev s1 x).1 in
    (
      here,
      subst
          (λ y.
            Settled s (mark_next (footed s2 y) y true) j.0 (stop start j.0) j.1
              (last_free false j.0) j.2)
          (sym here)
          (settle s s2 j.0 (stop start j.0) j.1 g' (last_free false j.0) j.2
            (Holds-from r.bounds l)),
    )
