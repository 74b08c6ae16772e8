-- ===== src/Allocator/FreeList.antt =====
-- memory/src/allocator.c and allocator.h: the allocator's state, its segregated free lists with their
-- bitmap, and the search for a block. The lists' links stand in memory, so an operation takes the
-- allocator and the memory and returns both.
pub mod Bitmap
pub mod Chain
pub mod Unlink
pub mod Listing
pub mod Remove
pub mod Removed
pub mod Insert
pub mod Inserted
pub mod Find
use tutorial_os.Common.{
  ℕ, zero, suc, ◌+◌, ◌-◌, ◌^◌, ◌%◌, List, Bool, true, false, not, get_or, set, bit_and, bit_or,
  ◌==◌, if◌then◌else◌,
}
use tutorial_os.Word.{not32, bit32}
use tutorial_os.Memory.{Memory, null}
use tutorial_os.Allocator.Block.{
  block_size, free_list_node, block_from_node, node_next, node_prev, node_set_next, node_set_prev,
}
use tutorial_os.Allocator.SizeClass.{size_class}

-- allocator_t; `free_lists` has one head for each size class.
pub record Allocator : Type 0 where
  pub free_bitmap : ℕ
  pub free_lists : List ℕ
  pub heap_start : ℕ
  pub heap_end : ℕ
  pub allocated : ℕ
  pub free_space : ℕ
  pub initialized : Bool

-- the allocator, with the memory that its blocks lie in
pub record State : Type 0 where
  pub alloc : Allocator
  pub mem : Memory

-- `alloc->free_lists[class]`
abbrev pub head_of : Allocator → ℕ → ℕ
head_of alloc class = get_or alloc.free_lists class null

-- `if (node->prev) node->prev->next = node->next; else alloc->free_lists[class] = node->next;`
unfoldable pub unlink_prev : State → ℕ → ℕ → State
unlink_prev s class node =
    let prev = node_prev s.mem node in
    if not (prev == null)
    then record s { mem = node_set_next s.mem prev (node_next s.mem node) }
    else record s {
      alloc = record (s.alloc) { free_lists = set s.alloc.free_lists class (node_next s.mem node) };
    }

-- `if (node->next) node->next->prev = node->prev;`
unfoldable pub unlink_next : State → ℕ → State
unlink_next s node =
    let next = node_next s.mem node in
    if not (next == null)
    then record s { mem = node_set_prev s.mem next (node_prev s.mem node) }
    else s

-- `if (alloc->free_lists[class] == NULL) alloc->free_bitmap &= ~(1u << class);`
unfoldable pub clear_bit : Allocator → ℕ → Allocator
clear_bit alloc class =
    if head_of alloc class == null
    then record alloc { free_bitmap = bit_and alloc.free_bitmap (not32 (bit32 class)) }
    else alloc

unfoldable pub remove_from_free_list : State → ℕ → State
remove_from_free_list s block =
    let class = size_class (block_size s.mem block) in
    let node = free_list_node block in
    let s' = unlink_next (unlink_prev s class node) node in
    record s' { alloc = clear_bit s'.alloc class }

-- `node->prev = NULL; node->next = old_head; if (old_head) old_head->prev = node;`
unfoldable pub link_head : Memory → ℕ → ℕ → Memory
link_head m node old_head =
    let m' = node_set_next (node_set_prev m node null) node old_head in
    if not (old_head == null) then node_set_prev m' old_head node else m'

unfoldable pub insert_into_free_list : State → ℕ → State
insert_into_free_list s block =
    let class = size_class (block_size s.mem block) in
    let node = free_list_node block in
    record {
      alloc = record (s.alloc) {
        free_lists = set s.alloc.free_lists class node;
        free_bitmap = bit_or s.alloc.free_bitmap (bit32 class);
      };
      mem = link_head s.mem node (head_of s.alloc class);
    }

-- `while ((available & (1u << class)) == 0) class++;`
unfoldable pub first_class : ℕ → ℕ → ℕ → ℕ
first_class zero available class = class
first_class (suc fuel) available class =
    let rest = first_class fuel available (class + 1) in
    if bit_and available (bit32 class) == 0 then rest else class

-- A uint32_t has 32 bits, so 32 rounds are enough.
unfoldable pub find_free_block : Allocator → ℕ → ℕ
find_free_block alloc size =
    let min_class = size_class size in
    let available = bit_and alloc.free_bitmap (not32 (bit32 min_class - 1)) in
    if available == 0
    then null
    else let class = first_class 32 available 0 in
      let node = head_of alloc class in if node == null then null else block_from_node node
