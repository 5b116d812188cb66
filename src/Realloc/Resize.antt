-- ===== src/Realloc/Resize.antt =====
-- gc_realloc to a size other than 0: in place, to another address, and when memory runs out.
use precision_gc.Base.{
  ℕ, ◌+◌, ◌-◌, ◌≡◌, refl, ◌∙◌, ◌≢◌, inl, true, false, List, ◌∷◌, ◌++◌, arith, All, All-suffix,
  subst, ==_ne, ==_iff,
}
use precision_gc.Heap.{Memory, Layout, previous_pointer, next_pointer}
use precision_gc.Heap.Blocks.{Block, IsBlock, IsHeap, Outside, UserSame, next_pointer_lem}
use precision_gc.Types.{Liballocs, valid_bigalloc, new_bigalloc}
use precision_gc.Types.Bigallocs.{valid_bigalloc-new_bigalloc}
use precision_gc.Malloc.{Gc, returns, post}
use precision_gc.Malloc.Fresh.{IsZeroed}
use precision_gc.Realloc.{set_header, refill, gc_realloc}
use precision_gc.Realloc.Place.{Place, Spread-suffix, heap_place, old_previous}
use precision_gc.Realloc.Remove.{set_link_lem, set_back_lem}
use precision_gc.Realloc.Filled.{stay, move, moved, filled-Anchor, filled-Chain}
use precision_gc.Realloc.Refill.{
  IsResized, IsKept, restored_lem, restored-user, restored-Filled, linked, set_header_lem, result,
  refill_lem, result-Filled, result-IsZeroed,
}

module _ (v : Layout) (lib : Liballocs) (mymalloc : ℕ → Memory → ℕ × Memory)
    (myrealloc : ℕ → ℕ → Memory → ℕ × Memory) (free : ℕ → Memory → Memory) (ys : List Block)
    (x : Block) (zs : List Block) (size : ℕ) (s : Gc) (n : Memory) (nonzero : size ≢ 0)
    (posted : s.mutex ≢ 0) (heap : IsHeap v s.memory (ys ++ x ∷ zs))
    (clean : All (λ z. z.mark ≡ false) (ys ++ x ∷ zs)) where
  abbrev m : Memory
  m = s.memory

  abbrev place : Place v m v.heap_list_head v.heap_list_head ys x zs
  place = heap_place v m ys x zs heap

  abbrev old : IsBlock v m x
  old = place.rest.1

  abbrev next : ℕ
  next = m.word (x.insert - 8)

  old-Outside : Outside v.heap_list_head x
  old-Outside = (Spread-suffix v ys x zs heap.spread).0

  abbrev emptied : Memory
  emptied = set_header v x.addr 0 0 m

  module _ (y : Block) (given : myrealloc x.addr size emptied ≡ (y.addr, n))
      (resized : IsResized v emptied n x y) where
    resized_lem : IsResized v (linked v m x 0 0) n x y
    resized_lem = subst (λ k. IsResized v k n x y) (set_header_lem v m x 0 0 old) resized

    abbrev filled : Memory
    filled = result v m n x y old old-Outside place.previous next resized_lem

    filled_lem : refill v y.addr (previous_pointer v m x.addr) (next_pointer v m x.addr) n ≡ filled
    filled_lem =
        rw (old_previous v m ys x zs heap clean, next_pointer_lem old)
          (refill_lem v m n x y old old-Outside place.previous next resized_lem)

    -- When myrealloc keeps the address, gc_realloc returns it and the block keeps its place in the heap
    -- list. Every other block keeps the program's bytes, but those of the block itself are all zero,
    -- and the semaphore is free again.
    pub gc_realloc-in_place :
        x.addr ≡ y.addr
        → (t : Gc) × (gc_realloc v lib mymalloc myrealloc free x.addr size s ≡ returns x.addr t)
          × IsHeap v t.memory (ys ++ y ∷ zs)
          × All (UserSame s.memory t.memory) (ys ++ zs)
          × IsZeroed t.memory y
          × (t.mutex ≡ s.mutex)
    unfolding gc_realloc post
    gc_realloc-in_place e =
        let (list, user) =
          stay v m ys x zs heap filled y
            (result-Filled v m n x y old old-Outside place.previous next resized_lem) e in
        (
          record s { memory = filled; mutex = s.mutex - 1 + 1 },
          rw
              (
                ==_ne x.addr 0 old.ne_null,
                ==_ne s.mutex 0 posted,
                ==_ne size 0 nonzero,
                given,
                ==_ne y.addr 0 resized.block.ne_null,
                filled_lem,
                (==_iff x.addr y.addr).1 e,
              )
              refl,
          list,
          user,
          result-IsZeroed v m n x y old old-Outside place.previous next resized_lem,
          omega arith,
        )

    -- When myrealloc hands out another block and leaves heap_list_head and every other block as they
    -- were, so that no collection has run within it, gc_realloc returns the address, and the block
    -- stands in the heap list where the old one stood. Every other block keeps the program's bytes,
    -- those of the new block are all zero, its pages are registered and the semaphore is free again.
    pub gc_realloc-moved :
        x.addr ≢ y.addr
        → (t : Gc) × (gc_realloc v lib mymalloc myrealloc free x.addr size s ≡ returns y.addr t)
          × IsHeap v t.memory (ys ++ y ∷ zs)
          × All (UserSame s.memory t.memory) (ys ++ zs)
          × IsZeroed t.memory y
          × (valid_bigalloc lib t.bigallocs y.addr ≡ true)
          × (t.mutex ≡ s.mutex)
    unfolding gc_realloc post
    gc_realloc-moved ne =
        let fill = result-Filled v m n x y old old-Outside place.previous next resized_lem in
        let (list, user, own) = move v m ys x zs heap filled y fill in
        (
          record s {
            memory = moved v m ys x zs heap filled y fill;
            bigallocs = new_bigalloc lib s.bigallocs y.addr;
            mutex = s.mutex - 1 + 1;
          },
          rw
              (
                ==_ne x.addr 0 old.ne_null,
                ==_ne s.mutex 0 posted,
                ==_ne size 0 nonzero,
                given,
                ==_ne y.addr 0 resized.block.ne_null,
                filled_lem,
                ==_ne x.addr y.addr ne,
                old_previous v m ys x zs heap clean,
                next_pointer_lem old,
                set_link_lem y.addr (filled-Anchor v m ys x zs heap filled y fill),
                set_back_lem v filled y.addr place.cell next x.addr y.addr zs
                    (filled-Chain v m ys x zs heap filled y fill)
                    (All-suffix (λ z. z.mark ≡ false) ys (x ∷ zs) clean).1,
              )
              refl,
          list,
          user,
          λ a lo hi.
              own.words a lo (omega arith)
              ∙ result-IsZeroed v m n x y old old-Outside place.previous next resized_lem a lo hi,
          (valid_bigalloc-new_bigalloc lib s.bigallocs y.addr y.addr).1 (inl refl),
          omega arith,
        )

  -- When myrealloc has no memory left and changes no block, gc_realloc returns NULL. The heap list
  -- holds the same blocks as before, all with the program's bytes, and the semaphore is free again.
  pub gc_realloc-fails :
      myrealloc x.addr size emptied ≡ (0, n)
      → IsKept v emptied n
      → (t : Gc) × (gc_realloc v lib mymalloc myrealloc free x.addr size s ≡ returns 0 t)
        × IsHeap v t.memory (ys ++ x ∷ zs)
        × All (UserSame s.memory t.memory) (ys ++ zs)
        × UserSame s.memory t.memory x
        × (t.mutex ≡ s.mutex)
  unfolding gc_realloc post
  gc_realloc-fails given kept =
      let kept' : IsKept v (linked v m x 0 0) n =
        subst (λ k. IsKept v k n) (set_header_lem v m x 0 0 old) kept in
      let fill =
        restored-Filled v m n x old old-Outside place.previous next kept'
          (All-suffix (λ z. z.mark ≡ false) ys (x ∷ zs) clean).0 in
      let (list, user) = stay v m ys x zs heap (linked v n x place.previous next) x fill refl in
      (
        record s { memory = linked v n x place.previous next; mutex = s.mutex - 1 + 1 },
        rw
            (
              ==_ne x.addr 0 old.ne_null,
              ==_ne s.mutex 0 posted,
              ==_ne size 0 nonzero,
              given,
              old_previous v m ys x zs heap clean,
              next_pointer_lem old,
              restored_lem v m n x old old-Outside place.previous next kept',
            )
            refl,
        list,
        user,
        restored-user v m n x old old-Outside place.previous next kept',
        omega arith,
      )
