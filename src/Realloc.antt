-- ===== src/Realloc.antt =====
-- gc_realloc of gc.c, over the allocator's mymalloc, myrealloc and myfree.
pub mod Place
pub mod Remove
pub mod Filled
pub mod Refill
pub mod Resize
use precision_gc.Base.{ℕ, ◌+◌, ◌-◌, Bool, List, ◌==◌, if◌then◌else◌}
use precision_gc.Heap.{
  Memory, Layout, store, insert_address, previous_pointer, next_pointer, set_previous, set_next,
}
use precision_gc.Types.{Liballocs, new_bigalloc}
use precision_gc.Malloc.{Gc, Call, returns, blocked, wait, post, clear, gc_malloc}

module _ (v : Layout) where
  -- the cell that leads to a block: the next pointer of the one before, or heap_list_head
  unfoldable pub set_link : ℕ → ℕ → Memory → Memory
  set_link previous w m =
      if previous == v.heap_list_head then store m v.heap_list_head w else set_next v m previous w

  -- `if (next != NULL) PREVIOUS_POINTER(next) = w`
  unfoldable pub set_back : ℕ → ℕ → Memory → Memory
  set_back next w m = if next == 0 then m else set_previous v m next w

  -- both header words of a block
  unfoldable pub set_header : ℕ → ℕ → ℕ → Memory → Memory
  set_header block previous next m = set_next v (set_previous v m block previous) block next

  -- what follows a successful myrealloc: the new block zeroed and its header written
  unfoldable pub refill : ℕ → ℕ → ℕ → Memory → Memory
  refill new previous next m = set_header new previous next (clear m new (insert_address v m new))

  module _ (lib : Liballocs) (mymalloc : ℕ → Memory → ℕ × Memory)
      (myrealloc : ℕ → ℕ → Memory → ℕ × Memory) (free : ℕ → Memory → Memory) where
    -- the part under `if (size == 0)`
    unfoldable pub remove_block : ℕ → Memory → Memory
    unfolding set_link set_back
    remove_block ptr m =
        let previous = previous_pointer v m ptr in
        let next = next_pointer v m ptr in
        free ptr (set_back next previous (set_link previous next m))

    unfoldable pub resize : ℕ → ℕ → Gc → Call
    unfolding set_header set_link set_back refill
    resize ptr size s =
        let previous = previous_pointer v s.memory ptr in
        let next = next_pointer v s.memory ptr in
        let (new, m) = myrealloc ptr size (set_header ptr 0 0 s.memory) in
        if new == 0
        then returns 0 (post (record s { memory = set_header ptr previous next m }))
        else (let filled = refill new previous next m in
            if ptr == new
            then returns ptr (post (record s { memory = filled }))
            else returns new (
                post (record s {
                  memory = set_back next new (set_link previous new filled);
                  bigallocs = new_bigalloc lib s.bigallocs new;
                })))

    unfoldable pub gc_realloc_body : ℕ → ℕ → Gc → Call
    unfolding remove_block resize
    gc_realloc_body ptr size s =
        if size == 0
        then returns 0 (post (record s { memory = remove_block ptr s.memory }))
        else resize ptr size s

    unfoldable pub gc_realloc : ℕ → ℕ → Gc → Call
    unfolding wait gc_realloc_body
    gc_realloc ptr size s =
        if ptr == 0 then gc_malloc v lib mymalloc size s else wait (gc_realloc_body ptr size) s
