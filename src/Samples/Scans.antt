-- ===== src/Samples/Scans.antt =====
-- The scans of the root set and of an object, one by one, at the sample heap.
use mathlib.Core.List.{Memᴰ}
use precision_gc.Base.{false, none, ℕ, ◌+◌, ◌*◌, ◌≡◌, ◌≤◌, refl, ◌↔◌, List, [], ◌∷◌, arith, length}
use precision_gc.Types.{
  done, process_heap_object_recursive, object_uniqtype, valid_heap_object, process_typed,
  process_members, process_member, element_type, element_offset, element_known, members,
  visit_pointer, is_plausible_pointer, has_index, valid_bigalloc,
}
use precision_gc.Types.Slots.{Scanned, Slot}
use precision_gc.Types.Scan.{process_typed-Scanned}
use precision_gc.Collect.{no_skip, scan_roots, scan_words}
use precision_gc.Collect.Roots.{OnWalk, scan_words-Scanned}
use precision_gc.Collect.RootScan.{IsRoot, scan_roots-IsRoot}
use precision_gc.Malloc.Fresh.{IsZeroed}
use precision_gc.Malloc.Ghosts.{process_heap_object_recursive-IsZeroed}
use precision_gc.Samples.{layout, memory, block, first, second, third, free, lib}
use precision_gc.Samples.Collection.{Slot-start, bigallocs, root_set, fuel, scannable}

scan_roots-IsRoot_example :
    (q : List ℕ) × (scan_roots layout lib free fuel root_set bigallocs (memory 0 first) [] ≡ done q)
    × ((p : ℕ) → Memᴰ p q ↔ IsRoot layout lib bigallocs root_set (memory 0 first) p)
    × (length q ≤ 16 + 3 * 1)
scan_roots-IsRoot_example =
    scan_roots-IsRoot layout lib free fuel root_set bigallocs (memory 0 first) 1 scannable

typed_first : process_typed lib bigallocs (memory 0 first) 1 first 0 [] ≡ done (second ∷ [])
unfolding process_typed process_members process_member element_type element_offset element_known
    members visit_pointer valid_heap_object valid_bigalloc is_plausible_pointer
typed_first = refl

process_typed-Scanned_example :
    Scanned lib bigallocs
      (Slot lib 0 first)
      (λ m q. process_typed lib bigallocs m 1 first 0 q)
      (memory 0 first)
      []
      (second ∷ [])
process_typed-Scanned_example =
    process_typed-Scanned lib bigallocs 1 (memory 0 first) first 0 [] (second ∷ []) typed_first

words_first :
    scan_words lib bigallocs (no_skip) 2 first (first + 8) (memory 0 first) [] ≡ done (second ∷ [])
unfolding scan_words visit_pointer valid_heap_object valid_bigalloc is_plausible_pointer has_index
words_first = refl

scan_words-Scanned_example :
    Scanned lib bigallocs
      (OnWalk (no_skip) first (first + 8))
      (λ m q. scan_words lib bigallocs (no_skip) 2 first (first + 8) m q)
      (memory 0 first)
      []
      (second ∷ [])
scan_words-Scanned_example =
    scan_words-Scanned lib bigallocs (no_skip) 2 first (first + 8) (memory 0 first) [] (second ∷ [])
      words_first

scan_third :
    process_heap_object_recursive lib bigallocs (memory 0 third) 2 third none (first ∷ [])
    ≡ done (first ∷ [])
unfolding process_heap_object_recursive object_uniqtype process_typed process_members process_member
    element_type element_offset element_known members visit_pointer valid_heap_object valid_bigalloc
    is_plausible_pointer
scan_third = refl

third-IsZeroed : IsZeroed (memory 0 third) (block third false)
third-IsZeroed a lo hi = ground arith

process_heap_object_recursive-IsZeroed_example : first ∷ [] ≡ first ∷ []
process_heap_object_recursive-IsZeroed_example =
    process_heap_object_recursive-IsZeroed lib bigallocs 2 (memory 0 third) (block third false)
      (first ∷ []) (first ∷ []) third-IsZeroed (λ a slot. omega (arith, Slot-start slot.2))
      scan_third
