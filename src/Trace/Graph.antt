-- ===== src/Trace/Graph.antt =====
-- The graph of heap objects that the traversal walks, and what is reachable in it.
use precision_gc.Base.{ℕ, ◌-◌, ◌≡◌, ◌≢◌, ◌⊎◌, true, false, none, List, [], All}
use precision_gc.Heap.{Memory, Layout, insert_address, previous_pointer}
use precision_gc.Heap.Blocks.{Block}
use precision_gc.Heap.Flags.{has}
use precision_gc.Types.{done, Liballocs, process_heap_object_recursive}
use precision_gc.Types.Valid.{IsObject}
use precision_gc.Types.Object.{ObjectSlot}
use precision_gc.Trace.{sentinel}

module _ (v : Layout) (m : Memory) (xs : List Block) where
  -- An object that the allocator gave out but gc_malloc did not: not of the list, its previous pointer
  -- is the sentinel, and no block's previous pointer is that word.
  pub record Foreign (p : ℕ) : Type 0 where
    pub absent : has p xs ≡ false
    pub previous : previous_pointer v m p ≡ sentinel
    pub elsewhere : All (λ x. insert_address v m p ≢ x.insert - 16) xs

  -- What is known of memory when the traversal starts: the scan of each object of the list returns, with
  -- its `children`; every pointer to a heap object is that of a listed or a foreign object; and no typed
  -- pointer field of a listed object is a block's previous pointer.
  pub record HeapGraph (lib : Liballocs) (bigallocs : List ℕ) (depth : ℕ) : Type 0 where
    pub children : ℕ → List ℕ
    pub scans :
        (o : ℕ)
        → has o xs ≡ true
        → process_heap_object_recursive lib bigallocs m depth o none [] ≡ done (children o)
    pub valid : (p : ℕ) → IsObject lib bigallocs p → (has p xs ≡ true) ⊎ Foreign p
    pub clear : (o a : ℕ) → has o xs ≡ true → ObjectSlot lib o a → All (λ x. a ≢ x.insert - 16) xs

  -- a pointer field of the object at o holds p, a pointer to a heap object
  abbrev pub Points : Liballocs → List ℕ → ℕ → ℕ → Type 0
  Points lib bigallocs o p =
      (a : ℕ) × ObjectSlot lib o a × (m.word a ≡ p) × IsObject lib bigallocs p

  -- Reachable from the roots through the pointer fields of the objects of the heap list.
  pub data Reach (lib : Liballocs) (bigallocs : List ℕ) (Root : ℕ → Type 0) : ℕ → Type 0 where
    root : {p : ℕ} → Root p → Reach lib bigallocs Root p
    step :
        {o p : ℕ}
        → Reach lib bigallocs Root o
        → has o xs ≡ true
        → Points lib bigallocs o p
        → Reach lib bigallocs Root p

  pub Reach-mono :
      (lib : Liballocs) (bigallocs : List ℕ) (P Q : ℕ → Type 0)
      → ((p : ℕ) → P p → Q p)
      → (p : ℕ) → Reach lib bigallocs P p
      → Reach lib bigallocs Q p
  Reach-mono lib bigallocs P Q f p (root at) = root (f p at)
  Reach-mono lib bigallocs P Q f p (step {o} r here at) =
      step (Reach-mono lib bigallocs P Q f o r) here at
