-- ===== src/Allocator/Api.antt =====
-- memory/src/allocator.c: the public functions. A pointer result is an address, NULL is 0. The global
-- allocator is the state that these functions pass on.
pub mod Needed
use tutorial_os.Common.{
  ℕ, ◌+◌, ◌-◌, ◌*◌, Bool, true, false, not, ◌||◌, bit_and, bit_or, List, replicate, set, ltb, leb,
  ◌==◌, if◌then◌else◌,
}
use tutorial_os.Word.{add64, sub64, not64, bit32}
use tutorial_os.Memory.{Memory, null, load64, store64}
use tutorial_os.CString.{memcpy}
use tutorial_os.Allocator.Block.{
  min_block_size, min_align, header_size, flag_free, align_up, block_size, block_set_free,
  block_payload, block_from_payload, free_list_node, node_set_next, node_set_prev, write_footer,
}
use tutorial_os.Allocator.SizeClass.{num_size_classes, size_class}
use tutorial_os.Allocator.FreeList.{
  Allocator, State, remove_from_free_list, insert_into_free_list, find_free_block,
}
use tutorial_os.Allocator.Merge.{mark_next, split_block, coalesce}

abbrev pub jit_size : ℕ
jit_size = 4 * 1024 * 1024

-- `sizeof(free_node_t)`
abbrev pub node_size : ℕ
node_size = 16

-- the header, empty links and footer of the first block
unfoldable pub make_initial : Memory → ℕ → ℕ → Memory
make_initial m start size =
    let m1 = store64 m start (bit_or size flag_free) in
    let node = free_list_node start in
    let m2 = node_set_next m1 node null in
    let m3 = node_set_prev m2 node null in write_footer m3 start

-- Every field of the allocator is written; only the memory matters before.
unfoldable pub allocator_init : Memory → ℕ → ℕ → State
allocator_init m heap_start heap_end =
    let start = align_up heap_start min_align in
    let end = bit_and heap_end (not64 (min_align - 1)) in
    let size = sub64 end start in
    let class = size_class size in
    record {
      alloc = record {
        free_bitmap = bit32 class;
        free_lists = set (replicate num_size_classes null) class (free_list_node start);
        heap_start = start;
        heap_end = end;
        allocated = 0;
        free_space = size;
        initialized = true;
      };
      mem = make_initial m start size;
    }

-- the bounds that allocator_init_from_ram returns through its pointers
pub record Regions : Type 0 where
  pub heap_start : ℕ
  pub heap_end : ℕ
  pub jit_start : ℕ
  pub jit_end : ℕ

unfoldable pub allocator_init_from_ram : Memory → ℕ → ℕ → ℕ → Regions × State
allocator_init_from_ram m ram_base ram_size heap_symbol =
    let ram_end = add64 ram_base ram_size in
    let jit_start = sub64 ram_end jit_size in
    let heap_end = jit_start in
    (
      record {
        heap_start = heap_symbol;
        heap_end = heap_end;
        jit_start = jit_start;
        jit_end = ram_end;
      },
      allocator_init m heap_symbol heap_end,
    )

-- the block size that a request of `size` bytes is rounded up to
unfoldable pub block_size_needed : ℕ → ℕ
block_size_needed size =
    let payload_size = if ltb size node_size then node_size else size in
    let needed = align_up (add64 header_size payload_size) min_align in
    if ltb needed min_block_size then min_block_size else needed

-- what happens to the block that the search found
unfoldable pub take_block : State → ℕ → ℕ → ℕ × State
take_block s block needed =
    let s1 = remove_from_free_list s block in
    let s2 = split_block s1 block needed in
    let s3 = record s2 { mem = block_set_free s2.mem block false } in
    let final_size = block_size s3.mem block in
    let s4 = mark_next s3 block false in
    (
      block_payload block,
      record s4 {
        alloc = record (s4.alloc) {
          allocated = add64 s4.alloc.allocated final_size;
          free_space = sub64 s4.alloc.free_space final_size;
        };
      },
    )

-- `align` is raised to the minimum and then not used.
unfoldable pub allocator_alloc : State → ℕ → ℕ → ℕ × State
allocator_alloc s size align =
    if not s.alloc.initialized
    then (null, s)
    else if size == 0
    then (null, s)
    else let needed = block_size_needed size in
      let block = find_free_block s.alloc needed in
      if block == null then (null, s) else take_block s block needed

unfoldable pub free_block : State → ℕ → State
free_block s ptr =
    let block = block_from_payload ptr in
    let size = block_size s.mem block in
    let s1 : State = record {
      alloc = record (s.alloc) {
        allocated = sub64 s.alloc.allocated size;
        free_space = add64 s.alloc.free_space size;
      };
      mem = block_set_free s.mem block true;
    } in
    let (block', s2) = coalesce s1 block in insert_into_free_list s2 block'

unfoldable pub allocator_free : State → ℕ → State
allocator_free s ptr =
    if ptr == null then s else if not s.alloc.initialized then s else free_block s ptr

-- the growing branch of allocator_realloc
unfoldable pub move_block : State → ℕ → ℕ → ℕ → ℕ × State
move_block s ptr current_size new_size =
    let (new_ptr, s1) = allocator_alloc s new_size min_align in
    if new_ptr == null
    then (null, s1)
    else let s2 = record s1 { mem = (memcpy s1.mem new_ptr ptr current_size).1 } in
      (new_ptr, allocator_free s2 ptr)

unfoldable pub allocator_realloc : State → ℕ → ℕ → ℕ × State
allocator_realloc s ptr new_size =
    if ptr == null
    then allocator_alloc s new_size min_align
    else if new_size == 0
    then (null, allocator_free s ptr)
    else let block = block_from_payload ptr in
      let current_size = sub64 (block_size s.mem block) header_size in
      if leb new_size current_size then (ptr, s) else move_block s ptr current_size new_size

-- allocated and free bytes
unfoldable pub allocator_stats : Allocator → ℕ × ℕ
allocator_stats alloc = (alloc.allocated, alloc.free_space)

unfoldable pub allocator_bounds : Allocator → ℕ × ℕ
allocator_bounds alloc = (alloc.heap_start, alloc.heap_end)

unfoldable pub allocator_is_initialized : Allocator → Bool
allocator_is_initialized alloc = alloc.initialized
