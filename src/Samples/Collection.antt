-- ===== src/Samples/Collection.antt =====
-- A collection of the small heap: only the second block is reachable.
use mathlib.Core.List.{Memᴰ}
use mathlib.Core.List.Memᴰ
use precision_gc.Base.{
  ℕ, ◌≡◌, ◌↔◌, ◌≢◌, refl, ◌⊎◌, inl, inr, true, false, none, arith, ◌==◌, if◌then◌else◌, List, [],
  ◌∷◌, ◌+◌, ◌%◌, ◌^◌,
}
use precision_gc.Heap.{Memory}
use precision_gc.Heap.Blocks.{Block, IsHeap}
use precision_gc.Heap.Flags.{has, flagged, SameSpots}
use precision_gc.Types.{
  done, out_of_fuel, valid_bigalloc, new_bigalloc, valid_heap_object, process_typed,
  process_members, process_member, element_type, element_offset, element_known, members,
  visit_pointer, is_plausible_pointer, has_index, process_heap_object_recursive, object_uniqtype,
}
use precision_gc.Types.Slots.{Scanned, Slot, direct, nested}
use precision_gc.Types.Object.{ObjectSlot, process_heap_object_recursive-Scanned}
use precision_gc.Types.Fuel.{Nesting, process_typed_ends}
use precision_gc.Types.Bigallocs.{IsDistinct, valid_bigalloc-new_bigalloc}
use precision_gc.Trace.{mark_reachable_heap_objects}
use precision_gc.Trace.Graph.{Foreign, HeapGraph, Reach}
use precision_gc.Trace.Inv.{Calm}
use precision_gc.Trace.Loop.{mark_reachable-Reach}
use precision_gc.Samples.{
  layout, memory, first, second, clean_heap, clean_heap-IsHeap, clean_heap-clean, free,
  free-FreeLaws, lib,
}
use precision_gc.Collect.{Registers, RootSet, Collector, Fuel, gc_collect}
use precision_gc.Collect.RootScan.{IsRoot, IsScannable}
use precision_gc.Collect.Whole.{Collected, gc_collect-Reach}

abbrev pub bigallocs : List ℕ
bigallocs = 1024 ∷ []

bigallocs-IsDistinct : IsDistinct lib bigallocs
unfolding has_index
bigallocs-IsDistinct = (refl, tt)

lib-Nesting : Nesting lib
unfolding element_type
lib-Nesting = record { depth = λ t. if t == 0 then 1 else 0; member = λ t i sub hi c. ground arith }

scan_first :
    process_heap_object_recursive lib bigallocs (memory 0 first) 2 first none []
    ≡ done (second ∷ [])
unfolding process_heap_object_recursive object_uniqtype process_typed process_members process_member
    element_type element_offset element_known members visit_pointer valid_heap_object valid_bigalloc
    is_plausible_pointer
scan_first = refl

scan_second :
    process_heap_object_recursive lib bigallocs (memory 0 first) 2 second none [] ≡ done []
unfolding process_heap_object_recursive object_uniqtype process_typed process_members process_member
    element_type element_offset element_known members visit_pointer valid_heap_object valid_bigalloc
    is_plausible_pointer
scan_second = refl

abbrev pub children : ℕ → List ℕ
children o = if o == first then second ∷ [] else []

pub has-cases : (o : ℕ) → has o clean_heap ≡ true → (o ≡ first) ⊎ (o ≡ second)
has-cases o h = ground arith

pub Slot-start : {t o a : ℕ} → Slot lib t o a → a ≡ o
unfolding element_type element_offset
Slot-start (direct e nv sub el p) = elim el [
  | inl (_, (i, h, te, at)) ↦ omega arith
  | inr (_, (i, h, te, at)) ↦ absurd (omega arith)
]
Slot-start (nested e b nv sub el np c s) = elim el [
  | inl (_, (i, h, te, at)) ↦ absurd (ground (arith, te, c))
  | inr (_, (i, h, te, at)) ↦ absurd (omega arith)
]

graph : HeapGraph layout (memory 0 first) clean_heap lib bigallocs 2
graph = record {
  children = children;
  scans = λ o h. elim (has-cases o h) [ inl e ↦ rw e scan_first | inr e ↦ rw e scan_second ];
  valid = λ p ok. inl (ground (arith, ok.generic));
  clear = λ o a h slot. elim (has-cases o h) [
    | inl e ↦ omega (arith, Slot-start slot.2)
    | inr e ↦ omega (arith, Slot-start slot.2)
  ];
}

process_heap_object_recursive-Scanned_example :
    Scanned lib bigallocs
      (ObjectSlot lib first)
      (λ m q. process_heap_object_recursive lib bigallocs m 2 first none q)
      (memory 0 first)
      []
      (second ∷ [])
process_heap_object_recursive-Scanned_example =
    process_heap_object_recursive-Scanned lib bigallocs 2 (memory 0 first) first [] (second ∷ [])
      scan_first

process_typed_ends_example : process_typed lib bigallocs (memory 0 first) 2 first 0 [] ≢ out_of_fuel
unfolding lib-Nesting
process_typed_ends_example =
    process_typed_ends lib lib-Nesting bigallocs (memory 0 first) 2 first 0 [] (omega arith)

roots_known :
    (p : ℕ)
    → Memᴰ p (first ∷ [])
    → (has p clean_heap ≡ true) ⊎ Foreign layout (memory 0 first) clean_heap p
roots_known p at = inl (rw (Memᴰ.eq_of_singleton at) refl)

mark_reachable-Reach_example :
    (n : Memory) × (ys : List Block) × (mark_reachable_heap_objects layout lib bigallocs 2 3
        (memory 0 first)
        (first ∷ [])
      ≡ done n)
    × IsHeap layout n ys
    × SameSpots ys clean_heap
    × ((p : ℕ)
        → has p clean_heap ≡ true
        → (flagged p ys ≡ true)
          ↔ Reach layout (memory 0 first) clean_heap lib bigallocs (λ q. Memᴰ q (first ∷ [])) p)
    × Calm (memory 0 first) n clean_heap
unfolding graph
mark_reachable-Reach_example =
    mark_reachable-Reach layout (memory 0 first) clean_heap lib bigallocs 2 graph (first ∷ []) 3
      (clean_heap-IsHeap first) clean_heap-clean roots_known (omega arith)

valid_bigalloc-new_bigalloc_example :
    (valid_bigalloc lib (new_bigalloc lib [] first) second ≡ true)
    ↔ ((lib.page_index second ≡ lib.page_index first) ⊎ (valid_bigalloc lib [] second ≡ true))
valid_bigalloc-new_bigalloc_example = valid_bigalloc-new_bigalloc lib [] first second

abbrev pub registers : Registers
registers = record {
  rax = second;
  rbx = 0;
  rcx = 0;
  rdx = 0;
  rbp = 0;
  rsp = 0;
  rsi = 0;
  rdi = 0;
  r8 = 0;
  r9 = 0;
  r10 = 0;
  r11 = 0;
  r12 = 0;
  r13 = 0;
  r14 = 0;
  r15 = 0;
}

-- the word of .bss is heap_list_head
abbrev pub root_set : RootSet
root_set = record {
  registers = registers;
  stack_pointer = 0x7000;
  stack_base = 0x7008;
  data_start = 0x100;
  edata = 0x108;
  bss_start = 16;
  end = 24;
}

abbrev pub fuel : Fuel
fuel = record { scan = 2; depth = 2; mark = 64; sweep = 3 }

abbrev start : Collector
start = record {
  memory = memory 0 first;
  bigallocs = bigallocs;
  queue = [];
  num_collections = 0;
  running = false;
}

pub scannable : IsScannable root_set fuel 1
scannable = record {
  scan = refl;
  pointer = omega arith;
  base = omega arith;
  stack = omega arith;
  segment = omega arith;
  bss = omega arith;
}

gc_collect-Reach_example :
    (t : Collector) × (zs : List Block) × (gc_collect layout lib free fuel root_set start ≡ done t)
    × Collected layout (memory 0 first) t.memory clean_heap zs (
        Reach layout
          (memory 0 first)
          clean_heap
          lib
          bigallocs
          (IsRoot layout lib bigallocs root_set (memory 0 first)))
    × (t.queue ≡ [])
    × (t.num_collections ≡ (0 + 1) % 2 ^ 32)
    × (t.running ≡ false)
unfolding graph
gc_collect-Reach_example =
    gc_collect-Reach layout lib free fuel root_set start clean_heap 1 graph free-FreeLaws scannable
      (clean_heap-IsHeap first) clean_heap-clean refl (omega arith) (omega arith)
