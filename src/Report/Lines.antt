-- ===== src/Report/Lines.antt =====
-- print_heap on a well formed heap list.
use precision_gc.Base.{
  ℕ, zero, suc, ◌-◌, ◌%◌, ◌<◌, ◌≡◌, refl, some, List, [], ◌∷◌, ◌++◌, ◌==◌, true, false, arith,
  length, ==_ne,
}
use precision_gc.Heap.{Memory, Layout}
use precision_gc.Heap.Blocks.{Block, IsHeap, Chain, next_pointer_lem, marked_lem}
use precision_gc.Report.{Line, title, empty, block, print_blocks, print_heap}

abbrev pub lines : List Block → List Line
lines [] = []
lines (x ∷ xs) = block x.addr x.mark ∷ lines xs

-- the lines above those of the blocks
abbrev pub heading : List Block → List Line
heading [] = title ∷ empty ∷ []
heading (x ∷ xs) = title ∷ []

module _ (v : Layout) (m : Memory) where
  print_blocks-lines :
      (fuel p c : ℕ) (xs : List Block)
      → p % 2 ≡ 0
      → Chain v m p c xs
      → length xs < fuel
      → print_blocks v fuel m c ≡ some (lines xs)
  unfolding print_blocks
  print_blocks-lines zero p c xs even h enough = absurd (omega arith)
  print_blocks-lines (suc fuel) p c [] even h enough = rw h refl
  print_blocks-lines (suc fuel) p c (x ∷ xs) even (e, b, back, rest) enough =
      let later =
        print_blocks-lines fuel x.addr (m.word (x.insert - 8)) xs b.even rest (omega arith) in
      rw (e, ==_ne x.addr 0 b.ne_null, next_pointer_lem b, marked_lem b p even back, later) refl

  -- Given a round more than there are blocks, print_heap ends and prints its title, then that the heap
  -- is empty if it is, and then each block of the heap list once, in the order of the list, with its
  -- mark.
  pub print_heap-lines :
      (xs : List Block) (fuel : ℕ)
      → IsHeap v m xs
      → length xs < fuel
      → print_heap v fuel m ≡ some (heading xs ++ lines xs)
  unfolding print_heap
  print_heap-lines [] fuel heap enough =
      let later = print_blocks-lines fuel v.heap_list_head _ [] heap.even heap.chain enough in
      let none : (m.word v.heap_list_head == 0) ≡ true = ground (arith, heap.chain) in
      rw (later, none) refl
  print_heap-lines (x ∷ xs) fuel heap enough =
      let later = print_blocks-lines fuel v.heap_list_head _ (x ∷ xs) heap.even heap.chain enough in
      let full : (m.word v.heap_list_head == 0) ≡ false =
        ground (arith, heap.chain.0, heap.chain.1.ne_null) in
      rw (later, full) refl
