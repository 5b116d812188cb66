-- ===== src/Collect.antt =====
-- gc_collect of gc.c and its scans of the root set: registers, stack, .data and .bss.
pub mod Roots
pub mod RootScan
pub mod Outcome
pub mod Whole
use precision_gc.Base.{
  ℕ, zero, suc, ◌+◌, ◌%◌, ◌^◌, Bool, true, false, ◌&&◌, Option, none, some, List, [], ◌∷◌, ◌++◌,
  ltb, ◌==◌, if◌then◌else◌,
}
use precision_gc.Heap.{Memory, Layout, pointer_size}
use precision_gc.Sweep.{sweep}
use precision_gc.Types.{
  Run, done, abort, out_of_fuel, ◌>>=◌, Liballocs, valid_heap_object, visit_pointer,
}
use precision_gc.Trace.{mark_reachable_heap_objects}

-- The sixteen general registers, in the order of the scan.
pub record Registers : Type 0 where
  pub rax : ℕ
  pub rbx : ℕ
  pub rcx : ℕ
  pub rdx : ℕ
  pub rbp : ℕ
  pub rsp : ℕ
  pub rsi : ℕ
  pub rdi : ℕ
  pub r8 : ℕ
  pub r9 : ℕ
  pub r10 : ℕ
  pub r11 : ℕ
  pub r12 : ℕ
  pub r13 : ℕ
  pub r14 : ℕ
  pub r15 : ℕ

-- Where a collection finds its roots: the registers and the stack pointer at the call, the base of the
-- stack, and the bounds of the segments that the linker gives.
pub record RootSet : Type 0 where
  pub registers : Registers
  pub stack_pointer : ℕ
  pub stack_base : ℕ
  pub data_start : ℕ
  pub edata : ℕ
  pub bss_start : ℕ
  pub end : ℕ

-- The globals of a collection, with the queue from q_head on. The int num_collections is given by its 32
-- bits.
pub record Collector : Type 0 where
  pub memory : Memory
  pub bigallocs : List ℕ
  pub queue : List ℕ
  pub num_collections : ℕ
  pub running : Bool

-- The fuel of the loops: rounds of each segment scan, nesting of types, rounds of the traversal and of
-- sweep.
pub record Fuel : Type 0 where
  pub scan : ℕ
  pub depth : ℕ
  pub mark : ℕ
  pub sweep : ℕ

abbrev pub register_list : Registers → List ℕ
register_list g =
    g.rax ∷ g.rbx ∷ g.rcx ∷ g.rdx ∷ g.rbp ∷ g.rsp ∷ g.rsi ∷ g.rdi ∷ g.r8 ∷ g.r9 ∷ g.r10 ∷ g.r11
    ∷ g.r12 ∷ g.r13 ∷ g.r14 ∷ g.r15 ∷ []

abbrev pub no_skip : ℕ → Bool
no_skip walker = false

-- The word of heap_list_head is no root.
abbrev pub is_head : Layout → Memory → ℕ → Bool
is_head v m walker = (walker == v.heap_list_head) && (m.word walker == m.word v.heap_list_head)

module _ (lib : Liballocs) (bigallocs : List ℕ) where
  -- `if (valid_heap_object(r)) enqueue_heap_queue_node(r)`
  unfoldable pub visit_register : ℕ → List ℕ → List ℕ
  visit_register r queue = if valid_heap_object lib bigallocs r then queue ++ (r ∷ []) else queue

  unfoldable pub visit_registers : List ℕ → List ℕ → List ℕ
  visit_registers [] queue = queue
  visit_registers (r ∷ rs) queue = visit_registers rs (visit_register r queue)

  unfoldable pub scan_registers : Registers → List ℕ → List ℕ
  unfolding visit_registers
  scan_registers g = visit_registers (register_list g)

  -- The loop of the stack scan and of the two segment scans, from `walker` up to `limit` in steps of a
  -- pointer; a word at which `skip` holds is passed over.
  unfoldable pub scan_words : (ℕ → Bool) → ℕ → ℕ → ℕ → Memory → List ℕ → Run (List ℕ)
  scan_words skip zero walker limit m queue = out_of_fuel
  scan_words skip (suc fuel) walker limit m queue =
      let rest =
        scan_words skip fuel (walker + pointer_size) limit m
          (if skip walker then queue else visit_pointer lib bigallocs m walker queue) in
      if ltb walker limit then rest else done queue

  unfoldable pub scan_stack : ℕ → RootSet → Memory → List ℕ → Run (List ℕ)
  unfolding scan_words
  scan_stack fuel r m queue =
      if r.stack_base == 0
      then abort
      else if r.stack_pointer == 0
      then abort
      else scan_words no_skip fuel r.stack_pointer r.stack_base m queue

  unfoldable pub scan_data_segment : ℕ → RootSet → Memory → List ℕ → Run (List ℕ)
  unfolding scan_words
  scan_data_segment fuel r = scan_words no_skip fuel r.data_start r.edata

  unfoldable pub scan_bss_segment : Layout → ℕ → RootSet → Memory → List ℕ → Run (List ℕ)
  unfolding scan_words
  scan_bss_segment v fuel r m = scan_words (is_head v m) fuel r.bss_start r.end m

module _ (v : Layout) (lib : Liballocs) (free : ℕ → Memory → Memory) (fuel : Fuel)
    (roots : RootSet) where
  -- the four scans in the order of gc_collect
  unfoldable pub scan_roots : List ℕ → Memory → List ℕ → Run (List ℕ)
  scan_roots bigallocs m queue = do
    stack ←
        scan_stack lib bigallocs fuel.scan roots m
          (scan_registers lib bigallocs roots.registers queue)
    segment ← scan_data_segment lib bigallocs fuel.scan roots m stack
    scan_bss_segment lib bigallocs v fuel.scan roots m segment

  abbrev pub swept : Option Memory → Run Memory
  swept none = out_of_fuel
  swept (some m) = done m

  -- The assertions are that the queue is empty.
  unfoldable pub gc_collect : Collector → Run Collector
  gc_collect s = elim s.queue [
    | _ ∷ _ ↦ abort
    | [] ↦ do
      queue ← scan_roots s.bigallocs s.memory []
      marked ← mark_reachable_heap_objects v lib s.bigallocs fuel.depth fuel.mark s.memory queue
      memory ← swept (sweep v free fuel.sweep marked)
      done (record s {
        memory = memory;
        num_collections = (s.num_collections + 1) % 2 ^ 32;
        running = false;
      })
  ]
