-- ===== src/Samples/Calls.antt =====
-- gc_malloc, gc_realloc and the traversal at the sample heap.
use precision_gc.Base.{ℕ, ◌≡◌, refl, true, false, arith, All, ◌==◌, if◌then◌else◌, [], ◌∷◌}
use precision_gc.Heap.{mark_block}
use precision_gc.Heap.Blocks.{IsHeap, UserSame}
use precision_gc.Heap.Flags.{mark_at}
use precision_gc.Heap.Marks.{mark_block-IsHeap}
use precision_gc.Types.{valid_bigalloc}
use precision_gc.Malloc.{Gc, returns, blocked, gc_malloc}
use precision_gc.Malloc.Fresh.{IsZeroed}
use precision_gc.Malloc.Laws.{IsFresh, gc_malloc-cons, gc_malloc-blocked}
use precision_gc.Realloc.{gc_realloc}
use precision_gc.Realloc.Remove.{gc_realloc-remove}
use precision_gc.Samples.{
  layout, memory, block, first, second, third, clean_heap, clean_heap-IsHeap, clean_heap-clean,
  free, free-FreeLaws, mymalloc, mymalloc_fails, myrealloc, lib,
}

abbrev pub state : Gc
state = record { memory = memory 0 first; bigallocs = []; mutex = 1; lowest = 0; highest = 0 }

pub third-IsFresh : IsFresh layout (memory 0 third) clean_heap (block third false)
third-IsFresh = record {
  block = record {
    live = refl;
    insert_eq = refl;
    room = omega arith;
    even = refl;
    ne_null = omega arith;
    below = omega arith;
  };
  apart = omega arith;
  off = omega arith;
  unmarked = refl;
}

gc_malloc-cons_example :
    (t : Gc) × (gc_malloc layout lib mymalloc 32 state ≡ returns third t)
    × IsHeap layout t.memory (block third false ∷ clean_heap)
    × IsZeroed t.memory (block third false)
    × All (UserSame (memory 0 third) t.memory) clean_heap
    × (t.mutex ≡ 1)
    × (valid_bigalloc lib t.bigallocs third ≡ true)
gc_malloc-cons_example =
    gc_malloc-cons layout lib mymalloc 32 state (memory 0 third) (block third false) clean_heap
      (omega arith) refl (clean_heap-IsHeap third) clean_heap-clean third-IsFresh

gc_malloc-blocked_example :
    (t : Gc) × (gc_malloc layout lib mymalloc_fails 32 state ≡ returns 0 t)
    × ((later : ℕ) → gc_malloc layout lib mymalloc_fails later t ≡ blocked)
gc_malloc-blocked_example =
    gc_malloc-blocked layout lib mymalloc_fails 32 state (memory 0 first) refl refl

gc_realloc-remove_example :
    (t : Gc) × (gc_realloc layout lib mymalloc myrealloc free second 0 state ≡ returns 0 t)
    × IsHeap layout t.memory (block first false ∷ [])
    × ((q : ℕ) → t.memory.live q ≡ (if q == second then false else (memory 0 first).live q))
    × All (UserSame (memory 0 first) t.memory) (block first false ∷ [])
    × (t.mutex ≡ 1)
gc_realloc-remove_example =
    gc_realloc-remove layout lib mymalloc myrealloc free free-FreeLaws (block first false ∷ [])
      (block second false) [] state (omega arith) (clean_heap-IsHeap first) clean_heap-clean

mark_block-IsHeap_example :
    IsHeap layout (mark_block layout (memory 0 first) second) (mark_at second clean_heap)
mark_block-IsHeap_example =
    mark_block-IsHeap layout (memory 0 first) second clean_heap (clean_heap-IsHeap first) refl
