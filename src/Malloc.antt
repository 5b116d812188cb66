-- ===== src/Malloc.antt =====
-- gc_malloc of gc.c, over the allocator's mymalloc.
pub mod Fresh
pub mod Laws
pub mod Bounds
pub mod Ghosts
use precision_gc.Base.{ℕ, ◌+◌, ◌-◌, Bool, List, ltb, leb, ◌&&◌, ◌==◌, if◌then◌else◌}
use precision_gc.Heap.{Memory, Layout, store, insert_address, set_previous, set_next}
use precision_gc.Types.{Liballocs, new_bigalloc}

-- The globals that the allocation functions use: memory, the indices of bigallocs_list, the count of
-- the semaphore allocator_mutex, and the bounds of the addresses that were handed out.
pub record Gc : Type 0 where
  pub memory : Memory
  pub bigallocs : List ℕ
  pub mutex : ℕ
  pub lowest : ℕ
  pub highest : ℕ

-- A call returns a pointer, or waits for the semaphore for ever if nobody else posts it.
pub data Call : Type 0 where
  returns : ℕ → Gc → Call
  blocked : Call

-- sem_wait in front of the rest of a function, and sem_post
unfoldable pub wait : (Gc → Call) → Gc → Call
wait rest s = if s.mutex == 0 then blocked else rest (record s { mutex = s.mutex - 1 })

unfoldable pub post : Gc → Gc
post s = record s { mutex = s.mutex + 1 }

-- memset to zero of the words from `lo` up to `hi`
unfoldable pub clear : Memory → ℕ → ℕ → Memory
clear m lo hi = record m { word = λ a. if leb lo a && ltb a hi then 0 else m.word a }

-- the bounds after `block` was handed out
unfoldable pub note_bounds : Gc → ℕ → Gc
note_bounds s block = record s {
  lowest = if ltb block s.lowest then block else s.lowest;
  highest = if ltb s.highest block then block else s.highest;
}

module _ (v : Layout) where
  -- the part under `if (heap_list_head != NULL)`
  unfoldable pub link_back : ℕ → Memory → Memory
  link_back block m =
      let head = m.word v.heap_list_head in if head == 0 then m else set_previous v m head block

  -- zeroes the block and puts it in front of the heap list
  unfoldable pub thread_block : ℕ → Memory → Memory
  unfolding link_back
  thread_block block m =
      let cleared = clear m block (insert_address v m block) in
      let back = set_previous v cleared block v.heap_list_head in
      let threaded = set_next v back block (back.word v.heap_list_head) in
      store (link_back block threaded) v.heap_list_head block

  module _ (lib : Liballocs) (mymalloc : ℕ → Memory → ℕ × Memory) where
    unfoldable pub gc_malloc_body : ℕ → Gc → Call
    gc_malloc_body size s =
        let (block, m) = mymalloc size s.memory in
        if block == 0
        then returns 0 (record s { memory = m })
        else (let noted = note_bounds (record s { memory = m }) block in
            let threaded = record noted { memory = thread_block block m } in
            let listed = record threaded {
              bigallocs = new_bigalloc lib threaded.bigallocs block;
            } in
            returns block (post listed))

    unfoldable pub gc_malloc : ℕ → Gc → Call
    unfolding wait gc_malloc_body
    gc_malloc size = wait (gc_malloc_body size)
