-- ===== src/Allocator/Heap/Fresh.antt =====
-- A new free block: its header, empty links and footer, as split_block and allocator_init write them.
use tutorial_os.Common.{
  ℕ, ◌+◌, ◌-◌, ◌%◌, ◌≤◌, ◌<◌, ◌^◌, ◌≡◌, ◌∙◌, ap, true, false, List, [], ◌∷◌, arith, bit_or,
}
use tutorial_os.Word.Masks.{bit_or-one}
use tutorial_os.Memory.{Memory, null, load64, store64}
use tutorial_os.Memory.Laws.{load64-store64_self, load64-store64-Apart}
use tutorial_os.Memory.Writes.{Writes, Writes-refl, Writes-then, Writes-weaken}
use tutorial_os.Allocator.Block.{
  free_list_node, node_set_next, node_set_prev, write_footer, flag_free,
}
use tutorial_os.Allocator.Block.Header.{
  HasHeader, header, free_list_node_lem, block_set_prev_free_lem, write_footer_lem,
}
use tutorial_os.Allocator.FreeList.Remove.{node_set_prev_lem}
use tutorial_os.Allocator.Merge.{make_remainder}
use tutorial_os.Allocator.Api.{make_initial}
use tutorial_os.Allocator.Tiling.{block, HasBlock}

-- the words of a free block that the allocator writes
abbrev pub fresh_words : ℕ → ℕ → List ℕ
fresh_words r u = (r + u - 8) ∷ (r + 16) ∷ (r + 8) ∷ r ∷ []

module _ (m : Memory) (r u : ℕ) (big : 32 ≤ u) (al : u % 8 ≡ 0) (room : r + u < 2 ^ 64) where
  new_header : bit_or u flag_free ≡ header u true false
  new_header = omega (arith, bit_or-one u)

  abbrev linked : Memory → Memory
  linked m' = store64 (store64 m' (r + 8) null) (r + 16) null

  links_lem :
      (m' : Memory)
      → node_set_prev (node_set_next m' (free_list_node r) null) (free_list_node r) null ≡ linked m'
  unfolding node_set_next
  links_lem m' = rw (free_list_node_lem r (omega arith)) (
      node_set_prev_lem (store64 m' (r + 8) null) (r + 8) null (omega arith)
      ∙ ap (λ a. store64 (store64 m' (r + 8) null) a null) (omega arith))

  linked-header : (m' : Memory) → HasHeader m' r u true false → HasHeader (linked m') r u true false
  linked-header m' h = record {
    word =
        load64-store64-Apart (store64 m' (r + 8) null) (r + 16) null r (omega arith)
        ∙ load64-store64-Apart m' (r + 8) null r (omega arith)
        ∙ h.word;
    aligned = al;
  }

  stored-header : (m' : Memory) → HasHeader (store64 m' r (header u true false)) r u true false
  stored-header m' = record {
    word = load64-store64_self m' r (header u true false) (omega arith);
    aligned = al;
  }

  footed :
      (m' : Memory)
      → HasHeader m' r u true false
      → HasBlock (write_footer (linked m') r) r false (block u true)
  footed m' h = rw (write_footer_lem (linked-header m' h) (omega arith) room) (record {
    head = record {
      word =
          load64-store64-Apart (linked m') (r + u - 8) u r (omega arith)
          ∙ (linked-header m' h).word;
      aligned = al;
    };
    big = big;
    foot = λ _. load64-store64_self (linked m') (r + u - 8) u (omega arith);
  })

  footed-Writes :
      (m' : Memory)
      → HasHeader m' r u true false
      → Writes m (r ∷ []) m'
      → Writes m (fresh_words r u) (write_footer (linked m') r)
  footed-Writes m' h w =
      rw (write_footer_lem (linked-header m' h) (omega arith) room)
        (Writes-then (r + u - 8) u (Writes-then (r + 16) null (Writes-then (r + 8) null w)))

  footed_links :
      (m' : Memory)
      → HasHeader m' r u true false
      → (load64 (write_footer (linked m') r) (r + 8) ≡ null)
        × (load64 (write_footer (linked m') r) (r + 16) ≡ null)
  footed_links m' h = rw (write_footer_lem (linked-header m' h) (omega arith) room) (
    load64-store64-Apart (linked m') (r + u - 8) u (r + 8) (omega arith)
        ∙ load64-store64-Apart (store64 m' (r + 8) null) (r + 16) null (r + 8) (omega arith)
        ∙ load64-store64_self m' (r + 8) null (omega arith),
    load64-store64-Apart (linked m') (r + u - 8) u (r + 16) (omega arith)
        ∙ load64-store64_self (store64 m' (r + 8) null) (r + 16) null (omega arith),
  )

  abbrev once : Memory
  once = store64 m r (header u true false)

  pub make_initial_lem :
      HasBlock (make_initial m r u) r false (block u true)
      × Writes m (fresh_words r u) (make_initial m r u)
  unfolding make_initial
  make_initial_lem = rw (new_header) (
      rw (links_lem once) (
        footed once (stored-header m),
        footed-Writes once (stored-header m) (Writes-then r (header u true false) (Writes-refl m)),
      ))

  pub make_initial-links :
      (load64 (make_initial m r u) (r + 8) ≡ null) × (load64 (make_initial m r u) (r + 16) ≡ null)
  unfolding make_initial
  make_initial-links = rw (new_header) (rw (links_lem once) (footed_links once (stored-header m)))

  pub make_remainder_lem :
      HasBlock (make_remainder m r u) r false (block u true)
      × Writes m (fresh_words r u) (make_remainder m r u)
  unfolding make_remainder
  make_remainder_lem =
      let twice = store64 once r (header u true false) in
      rw (new_header) (
        rw (block_set_prev_free_lem (stored-header m) false) (
          rw (links_lem twice) (
            footed twice (stored-header once),
            footed-Writes twice (stored-header once) (
                Writes-weaken (r ∷ [])
                  (Writes-then r (header u true false)
                    (Writes-then r (header u true false) (Writes-refl m)))
                  (λ c o. (o.0, (o.0, tt)))),
          )))
