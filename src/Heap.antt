-- ===== src/Heap.antt =====
-- Memory as gc.c sees it (gc.c, gc.h): words, the block header macros and the mark bit.
pub mod Blocks
pub mod Flags
pub mod Marks
pub mod Unique
use precision_gc.Base.{ℕ, ◌+◌, ◌-◌, ◌*◌, ◌/◌, ◌%◌, Bool, ◌==◌, if◌then◌else◌}

-- `usable p` is mymalloc_usable_size(p), and `live p` the allocator's own record that a block
-- begins at `p` and is in use.
pub record Memory : Type 0 where
  pub word : ℕ → ℕ
  pub usable : ℕ → ℕ
  pub live : ℕ → Bool

-- What is fixed when the program is linked: the address of the variable heap_list_head, and
-- insert_for_chunk_and_usable_size of liballocs.
pub record Layout : Type 0 where
  pub heap_list_head : ℕ
  pub insert_for : ℕ → ℕ → ℕ

abbrev pub pointer_size : ℕ
pointer_size = 8

unfoldable pub store : Memory → ℕ → ℕ → Memory
store m a w = record m { word = λ c. if c == a then w else m.word c }

module _ (v : Layout) where
  -- INSERT_ADDRESS, which is also the address of PREVIOUS_POINTER
  unfoldable pub insert_address : Memory → ℕ → ℕ
  insert_address m block = v.insert_for block (m.usable block) - 2 * pointer_size

  unfoldable pub next_address : Memory → ℕ → ℕ
  next_address m block = v.insert_for block (m.usable block) - pointer_size

  unfoldable pub previous_pointer : Memory → ℕ → ℕ
  unfolding insert_address
  previous_pointer m block = m.word (insert_address m block)

  unfoldable pub next_pointer : Memory → ℕ → ℕ
  unfolding next_address
  next_pointer m block = m.word (next_address m block)

  unfoldable pub set_previous : Memory → ℕ → ℕ → Memory
  unfolding insert_address store
  set_previous m block w = store m (insert_address m block) w

  unfoldable pub set_next : Memory → ℕ → ℕ → Memory
  unfolding next_address store
  set_next m block w = store m (next_address m block) w

  -- `(uintptr_t) PREVIOUS_POINTER(block) & 1`
  unfoldable pub marked : Memory → ℕ → Bool
  unfolding previous_pointer
  marked m block = previous_pointer m block % 2 == 1

  -- `p | 1`: the low bit set
  unfoldable pub mark_block : Memory → ℕ → Memory
  unfolding previous_pointer set_previous
  mark_block m block = set_previous m block (previous_pointer m block / 2 * 2 + 1)

  -- `p & -2`: the low bit cleared
  unfoldable pub unmark_block : Memory → ℕ → Memory
  unfolding previous_pointer set_previous
  unmark_block m block = set_previous m block (previous_pointer m block / 2 * 2)
