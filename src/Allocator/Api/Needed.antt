-- ===== src/Allocator/Api/Needed.antt =====
-- block_size_needed: the block size that allocator_alloc rounds a request up to.
use tutorial_os.Common.{
  ℕ, ◌+◌, ◌%◌, ◌≤◌, ◌<◌, ◌^◌, ◌≡◌, ◌⊎◌, inl, inr, arith, ltb, if◌then◌else◌, dec_lt, lt→ltb,
  le→ltb_false,
}
use tutorial_os.Word.{add64}
use tutorial_os.Allocator.Block.{align_up}
use tutorial_os.Allocator.Block.Header.{align_up_eight}
use tutorial_os.Allocator.Api.{block_size_needed}

-- what a request of `size` bytes is entitled to
pub record Enough (size needed : ℕ) : Type 0 where
  pub payload : size + 8 ≤ needed
  pub minimum : 32 ≤ needed
  pub aligned : needed % 8 ≡ 0
  pub tight : (needed ≡ 32) ⊎ (needed < size + 16)

module _ (size p : ℕ) (le : size ≤ p) (least : 16 ≤ p) (tight : (p ≡ 16) ⊎ (p ≡ size))
    (room : p + 23 < 2 ^ 64) where
  Enough-of : Enough size (if ltb (align_up (add64 8 p) 8) 32 then 32 else align_up (add64 8 p) 8)
  Enough-of =
      let (al, lo, hi) = align_up_eight (8 + p) (omega arith) in
      let e : add64 8 p ≡ 8 + p = omega arith in
      rw e (elim (dec_lt (align_up (8 + p) 8) 32) [
        | yes small ↦ rw (lt→ltb _ 32 small) (record {
          payload = omega arith;
          minimum = omega arith;
          aligned = omega arith;
          tight = inl (omega arith);
        })
        | no large ↦ rw (le→ltb_false (align_up (8 + p) 8) 32 (omega arith)) (record {
          payload = omega arith;
          minimum = omega arith;
          aligned = al;
          tight = elim tight [ inl k ↦ inl (omega arith) | inr k ↦ inr (omega arith) ];
        })
      ])

-- For a size whose sum with 23 is below 2 ^ 64, the block size for a request holds header and
-- request, is at least 32, a multiple of 8, and wastes less than 8 bytes above the minimum.
pub block_size_needed_lem : (size : ℕ) → size + 23 < 2 ^ 64 → Enough size (block_size_needed size)
unfolding block_size_needed
block_size_needed_lem size h = elim (dec_lt size 16) [
  | yes small ↦
      rw (lt→ltb size 16 small)
        (Enough-of size 16 (omega arith) (omega arith) (inl (omega arith)) (omega arith))
  | no large ↦
      rw (le→ltb_false size 16 (omega arith))
        (Enough-of size size (omega arith) (omega arith) (inr (omega arith)) h)
]
