-- ===== src/Malloc/Laws.antt =====
-- gc_malloc as a whole, on success and when memory runs out.
use precision_gc.Base.{
  ℕ, ◌-◌, ◌≡◌, refl, sym, ◌≢◌, inl, true, false, List, ◌∷◌, arith, All, subst, ==_ne,
}
use precision_gc.Heap.{Memory, Layout}
use precision_gc.Heap.Blocks.{Block, IsBlock, IsHeap, Apart, Outside, UserSame, Chain-IsBlock}
use precision_gc.Types.{Liballocs, valid_bigalloc, new_bigalloc}
use precision_gc.Types.Bigallocs.{valid_bigalloc-new_bigalloc}
use precision_gc.Malloc.{Gc, thread_block, returns, blocked, post, note_bounds, gc_malloc}
use precision_gc.Malloc.Fresh.{
  IsZeroed, thread_block_lem, threaded-IsHeap, threaded-IsZeroed, threaded-user,
}

-- What mymalloc promises of a block that it hands out: a block in use, apart from the listed ones and
-- from the variable heap_list_head.
pub record IsFresh (v : Layout) (m : Memory) (xs : List Block) (x : Block) : Type 0 where
  pub block : IsBlock v m x
  pub apart : All (Apart x) xs
  pub off : Outside v.heap_list_head x
  pub unmarked : x.mark ≡ false

module _ (v : Layout) (lib : Liballocs) (mymalloc : ℕ → Memory → ℕ × Memory) where
  -- With the semaphore free and a fresh block from mymalloc, gc_malloc returns the block: it stands in
  -- front of the heap list, its bytes are zero, the bytes of every other block are as mymalloc left
  -- them, its pages are registered and the semaphore is free again.
  pub gc_malloc-cons :
      (size : ℕ) (s : Gc) (m : Memory) (x : Block) (xs : List Block)
      → s.mutex ≢ 0
      → mymalloc size s.memory ≡ (x.addr, m)
      → IsHeap v m xs
      → All (λ y. y.mark ≡ false) xs
      → IsFresh v m xs x
      → (t : Gc) × (gc_malloc v lib mymalloc size s ≡ returns x.addr t)
        × IsHeap v t.memory (x ∷ xs)
        × IsZeroed t.memory x
        × All (UserSame m t.memory) xs
        × (t.mutex ≡ s.mutex)
        × (valid_bigalloc lib t.bigallocs x.addr ≡ true)
  unfolding gc_malloc post note_bounds
  gc_malloc-cons size s m x xs free given heap clean fresh =
      let open_ = record s { mutex = s.mutex - 1 } in
      let noted = note_bounds (record open_ { memory = m }) x.addr in
      let t = post (record noted {
        memory = thread_block v x.addr m;
        bigallocs = new_bigalloc lib s.bigallocs x.addr;
      }) in
      let e = thread_block_lem v m x xs heap fresh.block fresh.apart fresh.off in
      (
        t,
        rw (==_ne s.mutex 0 free, given, ==_ne x.addr 0 fresh.block.ne_null) refl,
        subst (λ k. IsHeap v k (x ∷ xs)) (sym e)
            (threaded-IsHeap v m x xs heap fresh.block fresh.apart fresh.off clean fresh.unmarked),
        subst (λ k. IsZeroed k x) (sym e)
            (threaded-IsZeroed v m x xs heap fresh.block fresh.apart fresh.off),
        subst (λ k. All (UserSame m k) xs) (sym e)
            (threaded-user v m x xs heap fresh.block fresh.apart fresh.off xs
              (Chain-IsBlock v m _ _ xs heap.chain) heap.spread fresh.apart),
        omega arith,
        (valid_bigalloc-new_bigalloc lib s.bigallocs x.addr x.addr).1 (inl refl),
      )

  -- When mymalloc has no memory left, gc_malloc returns NULL and does not post the semaphore: started
  -- with the only unit of it, every later call of gc_malloc waits for ever.
  pub gc_malloc-blocked :
      (size : ℕ) (s : Gc) (m : Memory)
      → s.mutex ≡ 1
      → mymalloc size s.memory ≡ (0, m)
      → (t : Gc) × (gc_malloc v lib mymalloc size s ≡ returns 0 t)
        × ((later : ℕ) → gc_malloc v lib mymalloc later t ≡ blocked)
  unfolding gc_malloc
  gc_malloc-blocked size s m one given =
      (record s { memory = m; mutex = s.mutex - 1 }, rw (one, given) refl, λ later. rw one refl)
