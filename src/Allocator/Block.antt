-- ===== src/Allocator/Block.antt =====
-- memory/src/allocator.c: the header word of a block (size and two flags), its footer, and the
-- pointers computed from them. A block is the address of its header.
pub mod Header
use tutorial_os.Common.{ℕ, ◌+◌, ◌-◌, Bool, true, false, not, bit_and, bit_or, ◌==◌, if◌then◌else◌}
use tutorial_os.Word.{add64, sub64, not64}
use tutorial_os.Memory.{Memory, load64, store64}

abbrev pub min_block_size : ℕ
min_block_size = 32

abbrev pub min_align : ℕ
min_align = 8

abbrev pub header_size : ℕ
header_size = 8

abbrev pub footer_size : ℕ
footer_size = 8

abbrev pub flag_free : ℕ
flag_free = 0x01

abbrev pub flag_prev_free : ℕ
flag_prev_free = 0x02

abbrev pub flag_mask : ℕ
flag_mask = 0x03

unfoldable pub align_up : ℕ → ℕ → ℕ
align_up addr align = bit_and (sub64 (add64 addr align) 1) (not64 (sub64 align 1))

unfoldable pub block_size : Memory → ℕ → ℕ
block_size m block = bit_and (load64 m block) (not64 flag_mask)

unfoldable pub block_set_size : Memory → ℕ → ℕ → Memory
block_set_size m block size = store64 m block (bit_or size (bit_and (load64 m block) flag_mask))

unfoldable pub block_is_free : Memory → ℕ → Bool
block_is_free m block = not (bit_and (load64 m block) flag_free == 0)

unfoldable pub block_set_free : Memory → ℕ → Bool → Memory
block_set_free m block free =
    if free
    then store64 m block (bit_or (load64 m block) flag_free)
    else store64 m block (bit_and (load64 m block) (not64 flag_free))

unfoldable pub block_is_prev_free : Memory → ℕ → Bool
block_is_prev_free m block = not (bit_and (load64 m block) flag_prev_free == 0)

unfoldable pub block_set_prev_free : Memory → ℕ → Bool → Memory
block_set_prev_free m block prev_free =
    if prev_free
    then store64 m block (bit_or (load64 m block) flag_prev_free)
    else store64 m block (bit_and (load64 m block) (not64 flag_prev_free))

unfoldable pub block_payload : ℕ → ℕ
block_payload block = add64 block header_size

unfoldable pub block_from_payload : ℕ → ℕ
block_from_payload payload = sub64 payload header_size

unfoldable pub block_next : Memory → ℕ → ℕ
block_next m block = add64 block (block_size m block)

-- The footer of the block in front holds that block's size.
unfoldable pub block_prev : Memory → ℕ → ℕ
block_prev m block = let prev_size = load64 m (sub64 block 8) in sub64 block prev_size

-- The links of a free block stand in its payload: `next`, then `prev`.
unfoldable pub free_list_node : ℕ → ℕ
free_list_node block = block_payload block

unfoldable pub block_from_node : ℕ → ℕ
block_from_node node = sub64 node header_size

unfoldable pub node_next : Memory → ℕ → ℕ
node_next m node = load64 m node

unfoldable pub node_prev : Memory → ℕ → ℕ
node_prev m node = load64 m (add64 node 8)

unfoldable pub node_set_next : Memory → ℕ → ℕ → Memory
node_set_next m node next = store64 m node next

unfoldable pub node_set_prev : Memory → ℕ → ℕ → Memory
node_set_prev m node prev = store64 m (add64 node 8) prev

unfoldable pub write_footer : Memory → ℕ → Memory
write_footer m block =
    let size = block_size m block in store64 m (sub64 (add64 block size) footer_size) size
