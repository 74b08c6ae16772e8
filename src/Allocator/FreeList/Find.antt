-- ===== src/Allocator/FreeList/Find.antt =====
-- find_free_block: the head of the lowest class, from the requested one on, that has a block.
use tutorial_os.Common.{
  ℕ, zero, suc, ◌+◌, ◌-◌, ◌*◌, ◌≤◌, ◌<◌, ◌^◌, ◌≡◌, ◌≢◌, ◌⊎◌, inl, inr, ap, bit_and, if◌then◌else◌,
  arith, ℕ_discrete, dec_lt, ne→==_false, ltb, get_or-out,
}
use native.Mathlib.Nat.{one-le-pow}
use tutorial_os.Word.{not32, bit32}
use tutorial_os.Word.TestBit.{
  test_bit, test_bit-le-one, test_bit-bit_and, test_bit-not32, test_bit-ones_lt, test_bit-ones_ge,
  bit_and-pow, bit_and-lt, bit32_lem, pow-lt_32, lowest_bit, zero_of_test_bit, zero-test_bit,
}
use tutorial_os.Memory.{null}
use tutorial_os.Allocator.Block.{block_from_node}
use tutorial_os.Allocator.SizeClass.{num_size_classes, size_class}
use tutorial_os.Allocator.SizeClass.Bounds.{size_class-lt}
use tutorial_os.Allocator.FreeList.{Allocator, head_of, first_class, find_free_block}
use tutorial_os.Allocator.FreeList.Bitmap.{HasBitmap}

-- the bits from class `k` on
abbrev pub available : ℕ → ℕ → ℕ
available bitmap k = bit_and bitmap (not32 (bit32 k - 1))

test_bit-available :
    (bitmap k d : ℕ)
    → k < 32
    → d < 32
    → test_bit (available bitmap k) d ≡ (if ltb d k then 0 else test_bit bitmap d)
test_bit-available bitmap k d hk hd = rw (bit32_lem k hk) (
    rw (test_bit-bit_and d bitmap (not32 (2 ^ k - 1))) (
      rw (test_bit-not32 d (2 ^ k - 1) hd (omega (arith, pow-lt_32 k hk))) (elim (dec_lt d k) [
        | yes below ↦ ground (arith, test_bit-ones_lt k d below)
        | no above ↦ ground (arith, test_bit-ones_ge k d (omega arith), test_bit-le-one bitmap d)
      ])))

available-lt : (bitmap k : ℕ) → available bitmap k < 2 ^ 32
available-lt bitmap k = bit_and-lt 32 bitmap (not32 (bit32 k - 1)) (omega arith)

-- The loop stops at the lowest set bit.
first_class_lem :
    (fuel a k c : ℕ)
    → c < k + fuel
    → k ≤ c
    → c < 32
    → test_bit a c ≡ 1
    → ((j : ℕ) → j < c → test_bit a j ≡ 0)
    → first_class fuel a k ≡ c
unfolding first_class
first_class_lem zero a k c hf hk hc set first = absurd (omega arith)
first_class_lem (suc fuel) a k c hf hk hc set first = elim (ℕ_discrete k c) [
  | yes e ↦ ground (
    arith,
    ap (λ t. bit_and a (bit32 t)) e,
    ap (bit_and a) (bit32_lem c hc),
    bit_and-pow c a,
    one-le-pow c 2,
    ap (λ (t : ℕ). t * 2 ^ c) set,
  )
  | no ne ↦ ground (
    arith,
    ap (bit_and a) (bit32_lem k (omega arith)),
    bit_and-pow k a,
    ap (λ (t : ℕ). t * 2 ^ k) (first k (omega arith)),
    first_class_lem fuel a (k + 1) c (omega arith) (omega arith) hc set first,
  )
]

-- What a search for `size` bytes finds: class `c` is the lowest one, from the size's own on, whose
-- list is not empty.
pub record Found (a : Allocator) (size c : ℕ) : Type 0 where
  pub enough : size_class size ≤ c
  pub in_range : c < num_size_classes
  pub held : head_of a c ≢ null
  pub first : (d : ℕ) → size_class size ≤ d → d < c → head_of a d ≡ null
  pub result : find_free_block a size ≡ block_from_node (head_of a c)

module _ (a : Allocator) (size : ℕ) (h : HasBitmap a) (small : size < 2 ^ 64) where
  abbrev k : ℕ
  k = size_class size

  k-lt : k < 32
  k-lt = omega (arith, size_class-lt size small)

  bit-null :
      (d : ℕ) → d < 32 → k ≤ d → test_bit (available a.free_bitmap k) d ≡ 0 → head_of a d ≡ null
  bit-null d hd above e =
      ground (arith, test_bit-available a.free_bitmap k d k-lt hd, h.set_iff d hd)

  bit-held :
      (d : ℕ) → d < 32 → test_bit (available a.free_bitmap k) d ≡ 1 → (k ≤ d) × (head_of a d ≢ null)
  bit-held d hd e = (
    ground (arith, test_bit-available a.free_bitmap k d k-lt hd, h.set_iff d hd),
    λ z. ground (arith, test_bit-available a.free_bitmap k d k-lt hd, h.set_iff d hd),
  )

  available-ne :
      (c : ℕ) → test_bit (available a.free_bitmap k) c ≡ 1 → available a.free_bitmap k ≢ 0
  available-ne c set e = ground (arith, ap (λ t. test_bit t c) e, zero-test_bit c)

  find_held :
      (c : ℕ)
      → c < 32
      → test_bit (available a.free_bitmap k) c ≡ 1
      → ((j : ℕ) → j < c → test_bit (available a.free_bitmap k) j ≡ 0)
      → Found a size c
  unfolding find_free_block
  find_held c hc set first =
      let (above, held) = bit-held c hc set in
      record {
        enough = above;
        in_range = elim (dec_lt c num_size_classes) [
          | yes p ↦ p
          | no q ↦ absurd (held (get_or-out a.free_lists c null (omega (arith, h.lists))))
        ];
        held = held;
        first = λ d p q. bit-null d (omega arith) p (first d q);
        result = rw (ne→==_false _ _ (available-ne c set)) (
            rw (first_class_lem 32 (available a.free_bitmap k) 0 c hc (omega arith) hc set first)
              (rw (ne→==_false _ _ held)));
      }

  find_null :
      ((j : ℕ) → j < 32 → test_bit (available a.free_bitmap k) j ≡ 0)
      → find_free_block a size ≡ null
  unfolding find_free_block
  find_null none_set =
      rw (zero_of_test_bit 32 (available a.free_bitmap k) (available-lt a.free_bitmap k) none_set)

-- Where the bitmap agrees with the lists, find_free_block returns the head of the lowest class, from
-- the class of the size on, whose list is not empty, and NULL exactly when all these lists are empty.
pub find_free_block_lem :
    (a : Allocator) (size : ℕ)
    → HasBitmap a
    → size < 2 ^ 64
    → ((c : ℕ) × Found a size c)
      ⊎ (((d : ℕ) → size_class size ≤ d → d < num_size_classes → head_of a d ≡ null)
          × (find_free_block a size ≡ null))
find_free_block_lem a size h small =
    elim (lowest_bit 32 0 (available a.free_bitmap (size_class size))
      (λ j p. absurd (omega arith))) [
        | inl (c, hc, set, first) ↦ inl (c, find_held a size h small c (omega arith) set first)
        | inr none_set ↦ inr (
          λ d p q. bit-null a size h small d (omega arith) p (none_set d (omega arith)),
          find_null a size h small (λ j p. none_set j (omega arith)),
        )
      ]
