-- ===== src/Samples/Program.antt =====
-- The whole run of a program: the calls of Session, and then a collection.
use precision_gc.Base.{◌+◌, false, ◌≡◌, inl, inr, none, refl, List, [], ◌∷◌, arith, subst}
use precision_gc.Heap.{
  store, set_previous, set_next, previous_pointer, next_pointer, insert_address,
}
use precision_gc.Heap.Blocks.{Block, IsHeap}
use precision_gc.Heap.Unique.{IsHeap-unique}
use precision_gc.Types.{
  done, new_bigalloc, valid_bigalloc, valid_heap_object, process_typed, process_members,
  process_member, element_type, element_offset, element_known, members, visit_pointer,
  is_plausible_pointer, has_index, process_heap_object_recursive, object_uniqtype,
}
use precision_gc.Trace.Graph.{HeapGraph}
use precision_gc.Collect.{Collector, gc_collect}
use precision_gc.Collect.Whole.{gc_collect-Reach}
use precision_gc.Malloc.{Gc, clear, link_back, thread_block}
use precision_gc.Malloc.Bounds.{IsWithin, gc_malloc-IsWithin}
use precision_gc.Realloc.{set_link, set_back, set_header, refill, remove_block}
use precision_gc.System.{
  IsReady, collection, at_once, Steps, start, then_, allocate, write, resize, release, collect,
  IsOk,
}
use precision_gc.System.Invariant.{Steps-IsOk}
use precision_gc.Samples.{
  layout, first, second, third, memory, clean_heap, clean_heap-clean, free, free-FreeLaws, mymalloc,
  lib,
}
use precision_gc.Samples.Session.{
  served, state-IsOk, allocated, call, spared, myrealloc, third_block, third-IsBlock, third-OnList,
  emptied, third-IsResized, resizes, released, releases, still-OnList, released-IsHeap,
}
use precision_gc.Samples.Calls.{state}
use precision_gc.Samples.Collection.{children, has-cases, Slot-start, root_set, fuel, scannable}

scan_first :
    process_heap_object_recursive lib released.bigallocs released.memory 2 first none []
    ≡ done (second ∷ [])
unfolding process_heap_object_recursive object_uniqtype process_typed process_members process_member
    element_type element_offset element_known members visit_pointer valid_heap_object valid_bigalloc
    is_plausible_pointer new_bigalloc has_index remove_block set_link set_back refill set_header
    thread_block set_previous set_next link_back clear store previous_pointer next_pointer
    insert_address
scan_first = refl

scan_second :
    process_heap_object_recursive lib released.bigallocs released.memory 2 second none [] ≡ done []
unfolding process_heap_object_recursive object_uniqtype process_typed process_members process_member
    element_type element_offset element_known members visit_pointer valid_heap_object valid_bigalloc
    is_plausible_pointer new_bigalloc has_index remove_block set_link set_back refill set_header
    thread_block set_previous set_next link_back clear store previous_pointer next_pointer
    insert_address
scan_second = refl

graph : HeapGraph layout released.memory clean_heap lib released.bigallocs 2
graph = record {
  children = children;
  scans = λ o h. elim (has-cases o h) [ inl e ↦ rw e scan_first | inr e ↦ rw e scan_second ];
  valid = λ p ok. inl (ground (arith, ok.generic));
  clear = λ o a h slot. elim (has-cases o h) [
    | inl e ↦ omega (arith, Slot-start slot.2)
    | inr e ↦ omega (arith, Slot-start slot.2)
  ];
}

abbrev begun : Collector
begun = record {
  memory = released.memory;
  bigallocs = released.bigallocs;
  queue = [];
  num_collections = 0;
  running = false;
}

ready :
    (xs : List Block)
    → IsHeap layout released.memory xs
    → IsReady layout lib fuel 1 released.memory released.bigallocs xs
unfolding graph
ready xs heap =
    subst (λ ys. IsReady layout lib fuel 1 released.memory released.bigallocs ys)
      (IsHeap-unique layout released.memory clean_heap xs released-IsHeap heap)
      (record { graph = graph; mark = omega arith; sweep = omega arith })

collects : (c : Collector) × (gc_collect layout lib free fuel root_set begun ≡ done c)
unfolding graph
collects =
    let (c, zs, runs, kept, empty, counted, idle) =
      gc_collect-Reach layout lib free fuel root_set begun clean_heap 1 graph free-FreeLaws
        scannable released-IsHeap clean_heap-clean refl (omega arith) (omega arith) in
    (c, runs)

abbrev ended : Gc
ended = record released { memory = collects.0.memory }

steps : Steps layout lib mymalloc myrealloc free state ended
steps =
    then_
      (then_
        (then_
          (then_
            (then_ start
              (allocate 32 (memory 0 first) (memory 0 third) third_block at_once refl served call))
            (write (third + 8) first (omega arith) spared refl))
          (resize third_block third_block 40 emptied third-OnList third-IsBlock (omega arith) refl
            third-IsResized resizes))
        (release third still-OnList (omega arith) releases))
      (collect (collection fuel root_set 1 0 collects.0 scannable ready collects.1) refl)

Steps-IsOk_example : IsOk layout ended
Steps-IsOk_example =
    Steps-IsOk layout lib mymalloc myrealloc free free-FreeLaws state ended state-IsOk steps

gc_malloc-IsWithin_example : IsWithin state allocated third
gc_malloc-IsWithin_example =
    gc_malloc-IsWithin layout lib mymalloc 32 state allocated third call (omega arith)
