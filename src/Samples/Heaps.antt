-- ===== src/Samples/Heaps.antt =====
-- sweep and print_heap at the sample heap.
use precision_gc.Base.{ℕ, ◌++◌, ◌≡◌, false, some, arith, All, if◌then◌else◌}
use precision_gc.Heap.{Memory}
use precision_gc.Heap.Blocks.{IsHeap, UserSame}
use precision_gc.Sweep.{sweep}
use precision_gc.Sweep.Swept.{survivors, garbage}
use precision_gc.Sweep.Loop.{sweep-survivors}
use precision_gc.Report.{print_heap}
use precision_gc.Report.Lines.{heading, lines, print_heap-lines}
use precision_gc.Samples.{
  first, layout, memory, marked_heap, marked_heap-IsHeap, free, free-FreeLaws,
}

sweep-survivors_example :
    (n : Memory) × (sweep layout free 3 (memory 1 first) ≡ some n)
    × IsHeap layout n (survivors marked_heap)
    × ((q : ℕ) → n.live q ≡ (if garbage q marked_heap then false else (memory 1 first).live q))
    × All (UserSame (memory 1 first) n) (survivors marked_heap)
sweep-survivors_example =
    sweep-survivors layout free free-FreeLaws (memory 1 first) marked_heap 3 marked_heap-IsHeap
      (omega arith)

print_heap-lines_example :
    print_heap layout 3 (memory 1 first) ≡ some (heading marked_heap ++ lines marked_heap)
print_heap-lines_example =
    print_heap-lines layout (memory 1 first) marked_heap 3 marked_heap-IsHeap (omega arith)
