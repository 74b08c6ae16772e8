-- ===== src/Allocator/SizeClass.antt =====
-- memory/src/allocator.c: size_class, the power-of-two class of a block size.
pub mod Bounds
use tutorial_os.Common.{
  ℕ, zero, suc, ◌+◌, ◌-◌, ◌*◌, ◌/◌, ◌≤◌, ◌<◌, ◌^◌, ◌≡◌, leb, ltb, if◌then◌else◌,
}
use tutorial_os.Allocator.Block.{min_block_size}

abbrev pub num_size_classes : ℕ
num_size_classes = 26

-- `while (temp > 1) { temp >>= 1; bits++; }`
unfoldable pub bits_loop : ℕ → ℕ → ℕ → ℕ
bits_loop zero temp bits = bits
bits_loop (suc fuel) temp bits =
    let rest = bits_loop fuel (temp / 2) (bits + 1) in if ltb 1 temp then rest else bits

-- A size_t has 64 bits, so 64 rounds are enough.
unfoldable pub size_class : ℕ → ℕ
size_class size =
    if leb size min_block_size
    then 0
    else let bits = bits_loop 64 size 0 in
      let min_bits : ℕ = 5 in
      let class = if ltb min_bits bits then bits - min_bits else 0 in
      if leb num_size_classes class then num_size_classes - 1 else class
