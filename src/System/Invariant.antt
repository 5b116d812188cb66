-- ===== src/System/Invariant.antt =====
-- The invariant of a program that runs with the collector.
use precision_gc.Base.{ℕ, refl, sym, subst}
use precision_gc.Heap.{Memory, Layout}
use precision_gc.Sweep.Free.{FreeLaws}
use precision_gc.Types.{Liballocs}
use precision_gc.Malloc.{Gc}
use precision_gc.System.{
  Step, allocate, release, resize, exhaust, collect, write, Steps, start, then_, IsOk,
}
use precision_gc.System.Listed.{store-IsHeap}
use precision_gc.System.Kept.{
  parted, allocate-IsOk, release-IsOk, exhaust-IsOk, resize-IsOk, collect-IsOk,
}

module _ (v : Layout) (lib : Liballocs) (mymalloc : ℕ → Memory → ℕ × Memory)
    (myrealloc : ℕ → ℕ → Memory → ℕ × Memory) (free : ℕ → Memory → Memory)
    (laws : FreeLaws v free) where
  Step-IsOk : (s t : Gc) → IsOk v s → Step v lib mymalloc myrealloc free s t → IsOk v t
  Step-IsOk s t ok (allocate size m n x searched given served run) =
      allocate-IsOk v lib mymalloc myrealloc free laws s ok t size m n x searched given served run
  Step-IsOk s t ok (release ptr on ne run) =
      release-IsOk v lib mymalloc myrealloc free laws s ok
        (parted v lib mymalloc myrealloc free laws s ok ptr on ne) t run
  Step-IsOk s t ok (resize x y size n on b some_ given resized run) =
      resize-IsOk v lib mymalloc myrealloc free laws s ok
        (parted v lib mymalloc myrealloc free laws s ok x.addr on b.ne_null) t x y size n refl b
        some_ given resized run
  Step-IsOk s t ok (exhaust ptr size n on ne some_ given kept run) =
      exhaust-IsOk v lib mymalloc myrealloc free laws s ok
        (parted v lib mymalloc myrealloc free laws s ok ptr on ne) t size n some_ given kept run
  Step-IsOk s t ok (collect c e) = collect-IsOk v lib mymalloc myrealloc free laws s ok t c e
  Step-IsOk s t ok (write a w ne safe e) = subst (IsOk v) (sym e) (record {
    blocks = ok.blocks;
    heap = store-IsHeap v s.memory a w ok.blocks ne safe ok.heap;
    clean = ok.clean;
    free = ok.free;
  })

  -- From a state with a well formed heap list, no marks and a free semaphore, a program comes only to such
  -- states by these steps, in any order: calls of gc_malloc that find memory, at once or after a
  -- collection that mymalloc runs; calls of gc_realloc on pointers of the heap list within which no
  -- collection runs; collections, whose conditions are those of gc_collect-Reach; and stores that spare
  -- heap_list_head and the headers. The allocator is taken to keep its promises: a new or resized block
  -- is apart from the others, and it changes no other block, nor heap_list_head.
  pub Steps-IsOk : (s t : Gc) → IsOk v s → Steps v lib mymalloc myrealloc free s t → IsOk v t
  Steps-IsOk s _ ok start = ok
  Steps-IsOk s u ok (then_ {t} steps step) = Step-IsOk t u (Steps-IsOk s t ok steps) step
