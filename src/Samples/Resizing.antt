-- ===== src/Samples/Resizing.antt =====
-- gc_realloc to a larger size at the sample heap: in place, to the third block, and without memory.
use precision_gc.Base.{
  ◌+◌, ◌≡◌, refl, ◌⊎◌, true, false, [], ◌∷◌, arith, All, ◌==◌, if◌then◌else◌, ==_ne,
}
use precision_gc.Heap.{Memory, store, set_next, set_previous}
use precision_gc.Heap.Blocks.{Block, IsBlock, IsHeap, UserSame}
use precision_gc.Types.{valid_bigalloc}
use precision_gc.Malloc.{Gc, returns}
use precision_gc.Malloc.Fresh.{IsZeroed}
use precision_gc.Realloc.{set_header, gc_realloc}
use precision_gc.Realloc.Refill.{IsResized}
use precision_gc.Realloc.Resize.{gc_realloc-in_place, gc_realloc-moved, gc_realloc-fails}
use precision_gc.Samples.{
  layout, first, second, third, memory, block, clean_heap, clean_heap-IsHeap, clean_heap-clean,
  free, mymalloc, myrealloc, lib,
}

abbrev state : Gc
state = record { memory = memory 0 first; bigallocs = []; mutex = 1; lowest = 0; highest = 0 }

abbrev emptied : Memory
emptied = set_header layout first 0 0 (memory 0 first)

-- the first block grows up to the second
abbrev grown : Memory → Memory
grown m = record m { usable = λ q. if q == first then 64 else m.usable q }

abbrev wide : Block
wide = record { addr = first; insert = first + 64; mark = false }

-- the third block is handed out for the first
abbrev swapped : Memory → Memory
swapped m = record m {
  live = λ q. if q == third then true else if q == first then false else m.live q;
}

emptied-IsBlock :
    (z : Block)
    → IsBlock layout emptied z
    → (z.insert ≡ z.addr + 48) × ((z.addr ≡ first) ⊎ (z.addr ≡ second))
unfolding set_header set_next set_previous store
emptied-IsBlock z b = (omega (arith, b.insert_eq), ground (arith, b.live))

grown-IsResized : IsResized layout emptied (grown emptied) (block first false) wide
unfolding set_header set_next set_previous store
grown-IsResized = record {
  same = λ z b o. record {
    live = refl;
    usable = rw (==_ne z.addr first (omega (arith, b.room))) refl;
    words = λ a lo hi. refl;
  };
  head = refl;
  block = record {
    live = refl;
    insert_eq = refl;
    room = omega arith;
    even = refl;
    ne_null = omega arith;
    below = omega arith;
  };
  off = omega arith;
  apart = λ z b o. omega (arith, emptied-IsBlock z b);
  unmarked = refl;
}

swapped-IsResized :
    IsResized layout emptied (swapped emptied) (block first false) (block third false)
unfolding set_header set_next set_previous store
swapped-IsResized = record {
  same = λ z b o.
      let here = emptied-IsBlock z b in
      record {
        live = rw (==_ne z.addr third (omega arith), ==_ne z.addr first (omega arith)) refl;
        usable = refl;
        words = λ a lo hi. refl;
      };
  head = refl;
  block = record {
    live = refl;
    insert_eq = refl;
    room = omega arith;
    even = refl;
    ne_null = omega arith;
    below = omega arith;
  };
  off = omega arith;
  apart = λ z b o. omega (arith, emptied-IsBlock z b);
  unmarked = refl;
}

gc_realloc-in_place_example :
    (t : Gc) × (gc_realloc layout lib mymalloc (λ p size m. (first, grown m)) free first 64 state
      ≡ returns first t)
    × IsHeap layout t.memory (wide ∷ block second false ∷ [])
    × All (UserSame (memory 0 first) t.memory) (block second false ∷ [])
    × IsZeroed t.memory wide
    × (t.mutex ≡ 1)
gc_realloc-in_place_example =
    gc_realloc-in_place layout lib mymalloc (λ p size m. (first, grown m)) free []
      (block first false) (block second false ∷ []) 64 state (grown emptied) (omega arith)
      (omega arith) (clean_heap-IsHeap first) clean_heap-clean wide refl grown-IsResized refl

gc_realloc-moved_example :
    (t : Gc) × (gc_realloc layout lib mymalloc (λ p size m. (third, swapped m)) free first 64 state
      ≡ returns third t)
    × IsHeap layout t.memory (block third false ∷ block second false ∷ [])
    × All (UserSame (memory 0 first) t.memory) (block second false ∷ [])
    × IsZeroed t.memory (block third false)
    × (valid_bigalloc lib t.bigallocs third ≡ true)
    × (t.mutex ≡ 1)
gc_realloc-moved_example =
    gc_realloc-moved layout lib mymalloc (λ p size m. (third, swapped m)) free []
      (block first false) (block second false ∷ []) 64 state (swapped emptied) (omega arith)
      (omega arith) (clean_heap-IsHeap first) clean_heap-clean (block third false) refl
      swapped-IsResized (omega arith)

gc_realloc-fails_example :
    (t : Gc) × (gc_realloc layout lib mymalloc myrealloc free first 64 state ≡ returns 0 t)
    × IsHeap layout t.memory clean_heap
    × All (UserSame (memory 0 first) t.memory) (block second false ∷ [])
    × UserSame (memory 0 first) t.memory (block first false)
    × (t.mutex ≡ 1)
gc_realloc-fails_example =
    gc_realloc-fails layout lib mymalloc myrealloc free [] (block first false)
      (block second false ∷ []) 64 state emptied (omega arith) (omega arith)
      (clean_heap-IsHeap first) clean_heap-clean refl
      (record {
        same = λ z b. record { live = refl; usable = refl; words = λ a lo hi. refl };
        head = refl;
      })
