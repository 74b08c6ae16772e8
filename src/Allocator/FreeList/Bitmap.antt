-- ===== src/Allocator/FreeList/Bitmap.antt =====
-- The bitmap: digit `c` is set exactly when list `c` has a block.
use tutorial_os.Common.{
  ℕ, ◌<◌, ◌^◌, ◌≡◌, ◌≢◌, ◌∙◌, ap, length, get_or, set, length-set, get_or-set_self, get_or-set_ne,
  bit_and, bit_or, ◌==◌, if◌then◌else◌, arith, ℕ_discrete, ne→==_false,
}
use tutorial_os.Word.{not32, bit32}
use tutorial_os.Word.TestBit.{
  test_bit, test_bit-le-one, test_bit-bit_and, test_bit-bit_or, test_bit-not32, test_bit-pow_self,
  test_bit-pow_ne, bit32_lem, pow-lt_32,
}
use tutorial_os.Memory.{null}
use tutorial_os.Allocator.SizeClass.{num_size_classes}
use tutorial_os.Allocator.FreeList.{Allocator, head_of, clear_bit}

pub record HasBitmap (alloc : Allocator) : Type 0 where
  pub lists : length alloc.free_lists ≡ num_size_classes
  pub set_iff :
      (c : ℕ) → c < 32 → test_bit alloc.free_bitmap c ≡ (if head_of alloc c == null then 0 else 1)

module _ (bitmap c d : ℕ) (cc : c < 32) (dd : d < 32) where
  pub test_bit-clear :
      test_bit (bit_and bitmap (not32 (bit32 c))) d ≡ (if c == d then 0 else test_bit bitmap d)
  test_bit-clear = rw (bit32_lem c cc) (
      rw (test_bit-bit_and d bitmap (not32 (2 ^ c))) (
        rw (test_bit-not32 d (2 ^ c) dd (pow-lt_32 c cc)) (elim (ℕ_discrete c d) [
          | yes e ↦ ground (arith, ap (λ t. test_bit (2 ^ c) t) e, test_bit-pow_self c)
          | no ne ↦ ground (arith, test_bit-pow_ne c d ne, test_bit-le-one bitmap d)
        ])))

  pub test_bit-set :
      test_bit (bit_or bitmap (bit32 c)) d ≡ (if c == d then 1 else test_bit bitmap d)
  test_bit-set = rw (bit32_lem c cc) (
      rw (test_bit-bit_or d bitmap (2 ^ c)) (elim (ℕ_discrete c d) [
        | yes e ↦
            ground
              (arith, ap (λ t. test_bit (2 ^ c) t) e, test_bit-pow_self c, test_bit-le-one bitmap d)
        | no ne ↦ ground (arith, test_bit-pow_ne c d ne)
      ]))

-- Where only list `c` has changed, and had a block before, clear_bit mends the bitmap.
pub clear_bit-HasBitmap :
    (a a' : Allocator) (c : ℕ)
    → HasBitmap a
    → c < num_size_classes
    → head_of a c ≢ null
    → a'.free_bitmap ≡ a.free_bitmap
    → length a'.free_lists ≡ num_size_classes
    → ((d : ℕ) → c ≢ d → head_of a' d ≡ head_of a d)
    → HasBitmap (clear_bit a' c)
unfolding clear_bit
clear_bit-HasBitmap a a' c h cc held eb el same = elim (ℕ_discrete (head_of a' c) null) [
  | yes empty ↦
      rw (empty, clear_bit)
        (record {
          lists = el;
          set_iff = λ d dd. elim (ℕ_discrete c d) [
            | yes e ↦
                ground
                  (arith, test_bit-clear a'.free_bitmap c d (omega arith) dd, ap (head_of a') e)
            | no ne ↦ ground (
              arith,
              test_bit-clear a'.free_bitmap c d (omega arith) dd,
              h.set_iff d dd,
              same d ne,
              ap (λ t. test_bit t d) eb,
            )
          ];
        })
  | no full ↦
      rw (ne→==_false _ _ full, clear_bit)
        (record {
          lists = el;
          set_iff = λ d dd. elim (ℕ_discrete c d) [
            | yes e ↦ ground (
              arith,
              h.set_iff d dd,
              ap (head_of a') e,
              ap (head_of a) e,
              ap (λ t. test_bit t d) eb,
            )
            | no ne ↦ ground (arith, h.set_iff d dd, same d ne, ap (λ t. test_bit t d) eb)
          ];
        })
]

-- A block in front of list `c` sets the digit.
pub insert-HasBitmap :
    (a : Allocator) (c node : ℕ)
    → HasBitmap a
    → c < num_size_classes
    → node ≢ null
    → HasBitmap (record a {
      free_lists = set a.free_lists c node;
      free_bitmap = bit_or a.free_bitmap (bit32 c);
    })
insert-HasBitmap a c node h cc ne = record {
  lists = length-set a.free_lists c node ∙ h.lists;
  set_iff = λ d dd. elim (ℕ_discrete c d) [
    | yes e ↦
        let got = get_or-set_self a.free_lists c node null (omega (arith, h.lists)) in
        ground (
          arith,
          test_bit-set a.free_bitmap c d (omega arith) dd,
          ap (λ t. get_or (set a.free_lists c node) t null) e,
        )
    | no other ↦ ground (
      arith,
      test_bit-set a.free_bitmap c d (omega arith) dd,
      h.set_iff d dd,
      get_or-set_ne a.free_lists c d node null other,
    )
  ];
}
