-- ===== src/Allocator/Merge.antt =====
-- memory/src/allocator.c: split_block and coalesce, each as the sequence of memory writes and list
-- operations that it makes.
use tutorial_os.Common.{ℕ, Bool, true, false, ◌&&◌, bit_or, ltb, if◌then◌else◌}
use tutorial_os.Word.{add64, sub64}
use tutorial_os.Memory.{Memory, null, store64}
use tutorial_os.Allocator.Block.{
  min_block_size, flag_free, block_size, block_set_size, block_is_free, block_is_prev_free,
  block_set_prev_free, block_next, block_prev, free_list_node, node_set_next, node_set_prev,
  write_footer,
}
use tutorial_os.Allocator.FreeList.{State, remove_from_free_list, insert_into_free_list}

-- `next_addr = block_next(block); if (next_addr < heap_end) block_set_prev_free(next, v);`
unfoldable pub mark_next : State → ℕ → Bool → State
mark_next s block v =
    let next_addr = block_next s.mem block in
    if ltb next_addr s.alloc.heap_end
    then record s { mem = block_set_prev_free s.mem next_addr v }
    else s

-- the header, empty links and footer of the remainder
unfoldable pub make_remainder : Memory → ℕ → ℕ → Memory
make_remainder m rem remainder =
    let m1 = store64 m rem (bit_or remainder flag_free) in
    let m2 = block_set_prev_free m1 rem false in
    let rem_node = free_list_node rem in
    let m3 = node_set_next m2 rem_node null in
    let m4 = node_set_prev m3 rem_node null in write_footer m4 rem

unfoldable pub split_block : State → ℕ → ℕ → State
split_block s block needed =
    let current_size = block_size s.mem block in
    let remainder = sub64 current_size needed in
    if ltb remainder min_block_size
    then s
    else let m1 = block_set_size s.mem block needed in
      let rem = add64 block needed in
      let m2 = make_remainder m1 rem remainder in
      mark_next (insert_into_free_list (record s { mem = m2 }) rem) rem true

-- A free next block leaves its list, and its size is added to the block's.
unfoldable pub absorb_next : State → ℕ → State
absorb_next s block =
    let next_addr = block_next s.mem block in
    if ltb next_addr s.alloc.heap_end && block_is_free s.mem next_addr
    then (let s1 = remove_from_free_list s next_addr in
        let new_size = add64 (block_size s1.mem block) (block_size s1.mem next_addr) in
        record s1 { mem = block_set_size s1.mem block new_size })
    else s

-- A free previous block leaves its list and takes the block's size; the result is the block that
-- remains.
unfoldable pub absorb_prev : State → ℕ → ℕ × State
absorb_prev s block =
    if block_is_prev_free s.mem block
    then (let prev = block_prev s.mem block in
        let s1 = remove_from_free_list s prev in
        let new_size = add64 (block_size s1.mem prev) (block_size s1.mem block) in
        (prev, record s1 { mem = block_set_size s1.mem prev new_size }))
    else (block, s)

unfoldable pub coalesce : State → ℕ → ℕ × State
coalesce s block =
    let s1 = absorb_next s block in
    let (block', s2) = absorb_prev s1 block in
    let s3 = record s2 { mem = write_footer s2.mem block' } in (block', mark_next s3 block' true)
