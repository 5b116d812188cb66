-- ===== src/Report.antt =====
-- print_heap of gc.c: the lines that it prints.
pub mod Lines
use precision_gc.Base.{ℕ, zero, suc, Bool, Option, none, some, List, [], ◌∷◌, ◌==◌, if◌then◌else◌}
use precision_gc.Heap.{Memory, Layout, next_pointer, marked}

-- "Allocated blocks...", "Heap empty" and "Address: …  Marked: …"
pub data Line : Type 0 where
  title : Line
  empty : Line
  block : (address : ℕ) (mark : Bool) → Line

abbrev pub then_lines : Line → Option (List Line) → Option (List Line)
then_lines l none = none
then_lines l (some ls) = some (l ∷ ls)

module _ (v : Layout) where
  -- The loop from a block on; `none` means that the fuel ran out.
  unfoldable pub print_blocks : ℕ → Memory → ℕ → Option (List Line)
  print_blocks zero m current = none
  print_blocks (suc fuel) m current =
      let rest = print_blocks fuel m (next_pointer v m current) in
      if current == 0 then some [] else then_lines (block current (marked v m current)) rest

  unfoldable pub print_heap : ℕ → Memory → Option (List Line)
  unfolding print_blocks
  print_heap fuel m =
      let current = m.word v.heap_list_head in
      let rest = print_blocks fuel m current in
      then_lines title (if current == 0 then then_lines empty rest else rest)
