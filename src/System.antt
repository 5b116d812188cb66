-- ===== src/System.antt =====
-- A program that runs with the collector: its calls of gc_malloc and gc_realloc the collections
-- between them and its own stores (gc.c as a whole), as steps.
pub mod Listed
pub mod Kept
pub mod Invariant
use precision_gc.Base.{ℕ, ◌+◌, ◌-◌, ◌*◌, ◌≡◌, ◌≢◌, ◌<◌, false, List, [], All, length}
use precision_gc.Heap.{Memory, Layout, store, next_pointer}
use precision_gc.Heap.Blocks.{Block, IsBlock, IsHeap, Apart, Outside, SameBlock}
use precision_gc.Sweep.Free.{FreeLaws}
use precision_gc.Types.{done, Liballocs}
use precision_gc.Trace.Graph.{HeapGraph}
use precision_gc.Trace.Inv.{pending}
use precision_gc.Malloc.{Gc, returns, gc_malloc}
use precision_gc.Realloc.{set_header, gc_realloc}
use precision_gc.Realloc.Refill.{IsResized, IsKept}
use precision_gc.Collect.{RootSet, Collector, Fuel, gc_collect}
use precision_gc.Collect.RootScan.{IsScannable}

module _ (v : Layout) where
  -- What mymalloc promises of a new block: it is in use and shares no byte with heap_list_head or a
  -- block that was in use, all of which are as they were.
  pub record IsServed (m n : Memory) (x : Block) : Type 0 where
    pub same : (z : Block) → IsBlock v m z → SameBlock m n z
    pub head : n.word v.heap_list_head ≡ m.word v.heap_list_head
    pub block : IsBlock v n x
    pub off : Outside v.heap_list_head x
    pub apart : (z : Block) → IsBlock v m z → Apart x z
    pub unmarked : x.mark ≡ false

  -- The pointer is found by following the next pointers from heap_list_head.
  pub data OnList (m : Memory) : ℕ → Type 0 where
    first : OnList m (m.word v.heap_list_head)
    next : {p : ℕ} → OnList m p → p ≢ 0 → OnList m (next_pointer v m p)

  -- Everything a collection needs to know of the heap, and fuel for it.
  pub record IsReady (lib : Liballocs) (fuel : Fuel) (words : ℕ) (m : Memory) (bigallocs : List ℕ)
      (xs : List Block) : Type 1 where
    pub graph : HeapGraph v m xs lib bigallocs fuel.depth
    pub mark : 16 + 3 * words + pending graph.children xs < fuel.mark
    pub sweep : length xs < fuel.sweep

  module _ (lib : Liballocs) (mymalloc : ℕ → Memory → ℕ × Memory)
      (myrealloc : ℕ → ℕ → Memory → ℕ × Memory) (free : ℕ → Memory → Memory) where
    -- what memory is after a collection that starts in the state
    pub data Collection (s : Gc) : Memory → Type 1 where
      collection :
          (fuel : Fuel) (r : RootSet) (words count : ℕ) (c : Collector)
          → IsScannable r fuel words
          → ((xs : List Block)
              → IsHeap v s.memory xs
              → IsReady lib fuel words s.memory s.bigallocs xs)
          → gc_collect v lib free fuel r (record {
            memory = s.memory;
            bigallocs = s.bigallocs;
            queue = [];
            num_collections = count;
            running = false;
          })
            ≡ done c
          → Collection s c.memory

    -- The memory in which mymalloc looks for a block: that of the call, or what a collection within
    -- mymalloc has made of it.
    pub data Searched (s : Gc) : Memory → Type 1 where
      at_once : Searched s s.memory
      collected : {m : Memory} → Collection s m → Searched s m

    -- One call, one collection or one store. The program passes gc_realloc pointers of the heap list only,
    -- the allocator does not run out of memory in gc_malloc, and no collection runs within myrealloc.
    pub data Step (s t : Gc) : Type 1 where
      allocate :
          (size : ℕ) (m n : Memory) (x : Block)
          → Searched s m
          → mymalloc size s.memory ≡ (x.addr, n)
          → IsServed m n x
          → gc_malloc v lib mymalloc size s ≡ returns x.addr t
          → Step s t
      release :
          (ptr : ℕ)
          → OnList s.memory ptr
          → ptr ≢ 0
          → gc_realloc v lib mymalloc myrealloc free ptr 0 s ≡ returns 0 t
          → Step s t
      resize :
          (x y : Block) (size : ℕ) (n : Memory)
          → OnList s.memory x.addr
          → IsBlock v s.memory x
          → size ≢ 0
          → myrealloc x.addr size (set_header v x.addr 0 0 s.memory) ≡ (y.addr, n)
          → IsResized v (set_header v x.addr 0 0 s.memory) n x y
          → gc_realloc v lib mymalloc myrealloc free x.addr size s ≡ returns y.addr t
          → Step s t
      exhaust :
          (ptr size : ℕ) (n : Memory)
          → OnList s.memory ptr
          → ptr ≢ 0
          → size ≢ 0
          → myrealloc ptr size (set_header v ptr 0 0 s.memory) ≡ (0, n)
          → IsKept v (set_header v ptr 0 0 s.memory) n
          → gc_realloc v lib mymalloc myrealloc free ptr size s ≡ returns 0 t
          → Step s t
      collect : {m : Memory} → Collection s m → t ≡ record s { memory = m } → Step s t
      -- the program stores a word, but not in heap_list_head or a header
      write :
          (a w : ℕ)
          → a ≢ v.heap_list_head
          → ((x : Block) → IsBlock v s.memory x → (a ≢ x.insert - 16) × (a ≢ x.insert - 8))
          → t ≡ record s { memory = store s.memory a w }
          → Step s t

    pub data Steps (s : Gc) : Gc → Type 1 where
      start : Steps s s
      then_ : {t u : Gc} → Steps s t → Step t u → Steps s u

  -- The heap list is well formed, no block is marked, and the semaphore is free.
  pub record IsOk (s : Gc) : Type 0 where
    pub blocks : List Block
    pub heap : IsHeap v s.memory blocks
    pub clean : All (λ x. x.mark ≡ false) blocks
    pub free : s.mutex ≢ 0
