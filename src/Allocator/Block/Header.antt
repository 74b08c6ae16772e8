-- ===== src/Allocator/Block/Header.antt =====
-- The header word as a size and two flags, and what each header operation makes of it.
use tutorial_os.Common.{
  ℕ, ◌+◌, ◌-◌, ◌*◌, ◌/◌, ◌%◌, ◌≤◌, ◌<◌, ◌^◌, ◌≡◌, ap, Bool, true, false, bit_and, arith,
}
use tutorial_os.Word.{add64, sub64}
use tutorial_os.Word.Masks.{
  bit_and-one, bit_and-two, bit_and-three, bit_and-not64_one, bit_and-not64_two,
  bit_and-not64_three, bit_and-not64_seven, bit_or-one, bit_or-two, bit_or_low,
}
use tutorial_os.Memory.{Memory, load64, store64}
use tutorial_os.Memory.Laws.{load64-lt}
use tutorial_os.Allocator.Block.{
  align_up, block_size, block_set_size, block_is_free, block_set_free, block_is_prev_free,
  block_set_prev_free, block_payload, block_from_payload, block_next, block_prev, free_list_node,
  block_from_node, write_footer,
}

abbrev pub flag : Bool → ℕ
flag true = 1
flag false = 0

-- the header of a block of `size` bytes
abbrev pub header : ℕ → Bool → Bool → ℕ
header size free prev_free = size + flag free + 2 * flag prev_free

-- align_up to 8 gives the least multiple of 8 that is not below the address, for every address whose
-- rounding does not leave the address space.
pub align_up_eight :
    (addr : ℕ)
    → addr + 7 < 2 ^ 64
    → (align_up addr 8 % 8 ≡ 0) × (addr ≤ align_up addr 8) × (align_up addr 8 < addr + 8)
unfolding align_up
align_up_eight addr h = omega (arith, bit_and-not64_seven (sub64 (add64 addr 8) 1) (omega arith))

pub align_up_eight_eq : (addr : ℕ) → addr + 7 < 2 ^ 64 → align_up addr 8 ≡ (addr + 7) / 8 * 8
unfolding align_up
align_up_eight_eq addr h = omega (arith, bit_and-not64_seven (sub64 (add64 addr 8) 1) (omega arith))

pub record HasHeader (m : Memory) (b size : ℕ) (free prev_free : Bool) : Type 0 where
  pub word : load64 m b ≡ header size free prev_free
  pub aligned : size % 8 ≡ 0

module _ {m : Memory} {b size : ℕ} {free prev_free : Bool}
    (h : HasHeader m b size free prev_free) where
  pub size-lt : size + 4 < 2 ^ 64
  size-lt = ground (arith, load64-lt m b)

  pub block_size_lem : block_size m b ≡ size
  unfolding block_size
  block_size_lem = ground (arith, load64-lt m b, bit_and-not64_three (load64 m b))

  pub block_is_free_lem : block_is_free m b ≡ free
  unfolding block_is_free
  block_is_free_lem = ground (arith, bit_and-one (load64 m b))

  pub block_is_prev_free_lem : block_is_prev_free m b ≡ prev_free
  unfolding block_is_prev_free
  block_is_prev_free_lem = ground (arith, bit_and-two (load64 m b))

  pub block_set_size_lem :
      (s : ℕ) → s % 8 ≡ 0 → block_set_size m b s ≡ store64 m b (header s free prev_free)
  unfolding block_set_size
  block_set_size_lem s e =
      ap (store64 m b)
        (ground (arith, bit_and-three (load64 m b), bit_or_low s (bit_and (load64 m b) 3)))

  pub block_set_free_lem : (v : Bool) → block_set_free m b v ≡ store64 m b (header size v prev_free)
  unfolding block_set_free
  block_set_free_lem true = ap (store64 m b) (ground (arith, bit_or-one (load64 m b)))
  block_set_free_lem false =
      ap (store64 m b) (ground (arith, load64-lt m b, bit_and-not64_one (load64 m b)))

  pub block_set_prev_free_lem :
      (v : Bool) → block_set_prev_free m b v ≡ store64 m b (header size free v)
  unfolding block_set_prev_free
  block_set_prev_free_lem true = ap (store64 m b) (ground (arith, bit_or-two (load64 m b)))
  block_set_prev_free_lem false =
      ap (store64 m b) (ground (arith, load64-lt m b, bit_and-not64_two (load64 m b)))

  pub block_next_lem : b + size < 2 ^ 64 → block_next m b ≡ b + size
  unfolding block_next
  block_next_lem k = omega (arith, block_size_lem)

  pub write_footer_lem :
      8 ≤ size → b + size < 2 ^ 64 → write_footer m b ≡ store64 m (b + size - 8) size
  unfolding write_footer
  write_footer_lem k r = rw block_size_lem (ap (λ a. store64 m a size) (omega arith))

pub block_payload_lem : (b : ℕ) → b + 8 < 2 ^ 64 → block_payload b ≡ b + 8
unfolding block_payload
block_payload_lem b h = omega arith

pub free_list_node_lem : (b : ℕ) → b + 8 < 2 ^ 64 → free_list_node b ≡ b + 8
unfolding free_list_node
free_list_node_lem b h = block_payload_lem b h

pub block_from_payload_lem : (b : ℕ) → b + 8 < 2 ^ 64 → block_from_payload (b + 8) ≡ b
unfolding block_from_payload
block_from_payload_lem b h = omega arith

pub block_from_node_lem : (b : ℕ) → b + 8 < 2 ^ 64 → block_from_node (b + 8) ≡ b
unfolding block_from_node
block_from_node_lem b h = omega arith

pub block_prev_lem :
    (m : Memory) (b size : ℕ)
    → 8 ≤ b
    → b < 2 ^ 64
    → load64 m (b - 8) ≡ size
    → size ≤ b
    → block_prev m b ≡ b - size
unfolding block_prev
block_prev_lem m b size h k e le =
    let place : sub64 b 8 ≡ b - 8 = omega arith in rw (place, e) (omega arith)
