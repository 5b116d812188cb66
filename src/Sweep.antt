-- ===== src/Sweep.antt =====
-- sweep of gc.c, over the allocator's myfree.
pub mod Free
pub mod Anchor
pub mod Drop
pub mod Keep
pub mod Swept
pub mod Loop
use precision_gc.Base.{ℕ, zero, suc, Bool, Option, none, some, ◌==◌, if◌then◌else◌}
use precision_gc.Heap.{
  Memory, Layout, store, next_pointer, set_previous, set_next, marked, mark_block, unmark_block,
}

-- The local variables of sweep, with the memory.
pub record Walk : Type 0 where
  pub previous : ℕ
  pub current : ℕ
  pub memory : Memory

module _ (v : Layout) where
  -- the part under `if (next != NULL)`: next's previous pointer, its mark kept
  unfoldable pub relink : ℕ → ℕ → Memory → Memory
  relink next previous m =
      let m' = set_previous v m next previous in
      if marked v m next then mark_block v m' next else m'

  -- takes the block behind `previous` out of the list
  unfoldable pub unlink : ℕ → ℕ → ℕ → Memory → Memory
  unlink previous current next m =
      if m.word v.heap_list_head == current
      then store m v.heap_list_head next
      else set_next v m previous next

  module _ (free : ℕ → Memory → Memory) where
    unfoldable pub drop_block : ℕ → ℕ → ℕ → Memory → Memory
    drop_block previous current next m =
        let m' = unlink previous current next m in
        free current (if next == 0 then m' else relink next previous m')

    -- one round of the loop
    unfoldable pub sweep_round : Walk → Walk
    sweep_round w =
        if marked v w.memory w.current
        then (let m = unmark_block v w.memory w.current in
            record { previous = w.current; current = next_pointer v m w.current; memory = m })
        else (let next = next_pointer v w.memory w.current in
            record w { current = next; memory = drop_block w.previous w.current next w.memory })

    -- `none` means that the fuel ran out
    unfoldable pub sweep_loop : ℕ → Walk → Option Memory
    sweep_loop zero w = none
    sweep_loop (suc fuel) w =
        let rest = sweep_loop fuel (sweep_round w) in if w.current == 0 then some w.memory else rest

    unfoldable pub sweep : ℕ → Memory → Option Memory
    sweep fuel m =
        sweep_loop fuel
          (record { previous = v.heap_list_head; current = m.word v.heap_list_head; memory = m })
