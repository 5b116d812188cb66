-- ===== src/Malloc/Ghosts.antt =====
-- Why gc_malloc zeroes a block: what a scan of the block finds in it.
use mathlib.Core.List.{Memᴰ, append-nil}
use precision_gc.Base.{
  arith, ℕ, ◌-◌, ◌≡◌, ◌≤◌, ◌<◌, refl, sym, ap, ◌∙◌, false, none, List, [], ◌∷◌, ◌++◌,
}
use precision_gc.Heap.{Memory}
use precision_gc.Heap.Blocks.{Block}
use precision_gc.Types.{
  done, Liballocs, valid_heap_object, is_plausible_pointer, process_heap_object_recursive,
}
use precision_gc.Types.Object.{ObjectSlot, process_heap_object_recursive-Scanned}
use precision_gc.Malloc.Fresh.{IsZeroed}

nil_of : (l : List ℕ) → ((p : ℕ) → ¬ Memᴰ p l) → l ≡ []
nil_of [] h = refl
nil_of (x ∷ xs) h = absurd (h x (Memᴰ.head refl))

module _ (lib : Liballocs) (bigallocs : List ℕ) where
  null_invalid : valid_heap_object lib bigallocs 0 ≡ false
  unfolding valid_heap_object is_plausible_pointer
  null_invalid = refl

  -- The scan of a block whose bytes are zero, if the type's pointer fields lie in these bytes and the
  -- scan returns, leaves the queue as it was.
  pub process_heap_object_recursive-IsZeroed :
      (fuel : ℕ) (m : Memory) (x : Block) (q r : List ℕ)
      → IsZeroed m x
      → ((a : ℕ) → ObjectSlot lib x.addr a → (x.addr ≤ a) × (a < x.insert - 16))
      → process_heap_object_recursive lib bigallocs m fuel x.addr none q ≡ done r
      → r ≡ q
  process_heap_object_recursive-IsZeroed fuel m x q r zeroed inside run =
      let scan = process_heap_object_recursive-Scanned lib bigallocs fuel m x.addr q r run in
      let nothing = nil_of scan.found (λ p at.
        let (a, slot, word, valid) = (scan.exact p).0 at in
        let zero_ = zeroed a (inside a slot).0 (inside a slot).1 in
        let null : p ≡ 0 = sym word ∙ zero_ in omega (arith, valid.low, null)) in
      scan.result ∙ ap (λ l. q ++ l) nothing ∙ append-nil q
