-- ===== src/Sweep/Free.antt =====
-- What sweep and gc_realloc rely on of the allocator's myfree (dlfree of dlmalloc.c).
use precision_gc.Base.{ℕ, ◌≤◌, ◌<◌, ◌≡◌, false, ◌==◌, if◌then◌else◌}
use precision_gc.Heap.{Memory, Layout}
use precision_gc.Heap.Blocks.{Block, IsBlock, Apart, Outside}

-- Freeing a block in use ends its use and no other block's, leaves the size and the bytes of every
-- other block in use, and does not write the variable heap_list_head. It may scribble over the freed
-- block and over all memory that is not in use.
pub record FreeLaws (v : Layout) (free : ℕ → Memory → Memory) : Type 0 where
  pub live :
      (m : Memory) (x : Block) (q : ℕ)
      → IsBlock v m x
      → (free x.addr m).live q ≡ (if q == x.addr then false else m.live q)
  pub usable :
      (m : Memory) (x y : Block)
      → IsBlock v m x
      → IsBlock v m y
      → Apart x y
      → (free x.addr m).usable y.addr ≡ m.usable y.addr
  pub words :
      (m : Memory) (x y : Block)
      → IsBlock v m x
      → IsBlock v m y
      → Apart x y
      → (a : ℕ) → y.addr ≤ a
      → a < y.insert
      → (free x.addr m).word a ≡ m.word a
  pub head :
      (m : Memory) (x : Block)
      → IsBlock v m x
      → Outside v.heap_list_head x
      → (free x.addr m).word v.heap_list_head ≡ m.word v.heap_list_head
