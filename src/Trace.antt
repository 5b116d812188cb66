-- ===== src/Trace.antt =====
-- mark_reachable_heap_objects of gc.c: the traversal of the heap from the queued objects.
pub mod Graph
pub mod Inv
pub mod Loop
use precision_gc.Base.{ℕ, zero, suc, Bool, true, false, not, ◌&&◌, none, List, [], ◌∷◌, ◌==◌}
use precision_gc.Heap.{Memory, Layout, previous_pointer, marked, mark_block}
use precision_gc.Types.{Run, done, out_of_fuel, ◌>>=◌, Liballocs, process_heap_object_recursive}

-- what the previous pointer of an object holds that is not of the collected heap
abbrev pub sentinel : ℕ
sentinel = 0xcccc_cccc_cccc_cccc

-- dequeue_heap_queue_node, which does nothing on an empty queue
unfoldable pub dequeue : List ℕ → List ℕ
dequeue [] = []
dequeue (o ∷ queue) = queue

module _ (v : Layout) where
  -- the test of the loop: neither marked nor foreign
  unfoldable pub is_untraced : Memory → ℕ → Bool
  is_untraced m heap_object =
      not (marked v m heap_object) && not (previous_pointer v m heap_object == sentinel)

  module _ (lib : Liballocs) (bigallocs : List ℕ) (depth : ℕ) where
    -- The queue holds the objects from q_head on; `depth` is the fuel of the scan of one object.
    unfoldable pub mark_reachable_heap_objects : ℕ → Memory → List ℕ → Run Memory
    mark_reachable_heap_objects zero m queue = out_of_fuel
    mark_reachable_heap_objects (suc fuel) m [] = done m
    mark_reachable_heap_objects (suc fuel) m (heap_object ∷ queue) =
        elim (is_untraced m heap_object) [
          | true ↦
              process_heap_object_recursive lib bigallocs m depth heap_object none
                (heap_object ∷ queue)
              >>= λ found.
                  mark_reachable_heap_objects fuel (mark_block v m heap_object) (dequeue found)
          | false ↦ mark_reachable_heap_objects fuel m (dequeue (heap_object ∷ queue))
        ]
