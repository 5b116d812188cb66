-- ===== src/Samples/Session.antt =====
-- A program that allocates the third block, stores a word in it, resizes it in place and gives it back:
-- its states and calls.
use precision_gc.Base.{ℕ, ◌+◌, ◌-◌, false, ◌≡◌, ◌≢◌, ◌⊎◌, refl, [], arith}
use precision_gc.Heap.{
  Memory, store, set_previous, set_next, previous_pointer, next_pointer, insert_address,
}
use precision_gc.Heap.Blocks.{Block, IsBlock, IsHeap}
use precision_gc.Types.{new_bigalloc}
use precision_gc.Malloc.{Gc, returns, post, clear, note_bounds, link_back, thread_block, gc_malloc}
use precision_gc.Realloc.{set_link, set_back, set_header, refill, remove_block, gc_realloc}
use precision_gc.Realloc.Refill.{IsResized}
use precision_gc.System.{IsServed, OnList, IsOk}
use precision_gc.System
use precision_gc.Samples.{
  layout, first, second, third, memory, block, clean_heap, clean_heap-IsHeap, clean_heap-clean,
  free, mymalloc, lib,
}
use precision_gc.Samples.Calls.{state, third-IsFresh}

in_use :
    (z : Block)
    → IsBlock layout (memory 0 first) z
    → (z.insert ≡ z.addr + 48) × ((z.addr ≡ first) ⊎ (z.addr ≡ second))
in_use z b = (omega (arith, b.insert_eq), ground (arith, b.live))

pub served : IsServed layout (memory 0 first) (memory 0 third) (block third false)
served = record {
  same =
      λ z b. record { live = ground (arith, in_use z b); usable = refl; words = λ a lo hi. refl };
  head = refl;
  block = third-IsFresh.block;
  off = third-IsFresh.off;
  apart = λ z b. omega (arith, in_use z b);
  unmarked = refl;
}

pub state-IsOk : IsOk layout state
state-IsOk = record {
  blocks = clean_heap;
  heap = clean_heap-IsHeap first;
  clean = clean_heap-clean;
  free = omega arith;
}

-- the state after the call
abbrev pub allocated : Gc
allocated = record {
  memory = thread_block layout third (memory 0 third);
  bigallocs = new_bigalloc lib [] third;
  mutex = 1;
  lowest = 0;
  highest = third;
}

pub call : gc_malloc layout lib mymalloc 32 state ≡ returns third allocated
unfolding gc_malloc post note_bounds
call = refl

abbrev written : Gc
written = record allocated { memory = store allocated.memory (third + 8) first }

pub spared :
    (x : Block)
    → IsBlock layout allocated.memory x
    → (third + 8 ≢ x.insert - 16) × (third + 8 ≢ x.insert - 8)
unfolding thread_block set_previous set_next link_back clear store
spared x b = ground (arith, b.insert_eq, b.live)

-- an allocator that has room at the same address
abbrev pub myrealloc : ℕ → ℕ → Memory → ℕ × Memory
myrealloc p size m = (p, m)

abbrev pub third_block : Block
third_block = block third false

pub third-IsBlock : IsBlock layout written.memory third_block
unfolding thread_block set_previous set_next link_back clear store
third-IsBlock = record {
  live = refl;
  insert_eq = refl;
  room = omega arith;
  even = refl;
  ne_null = omega arith;
  below = omega arith;
}

pub third-OnList : OnList layout written.memory third
unfolding thread_block set_previous set_next link_back clear store
third-OnList = System.first

abbrev pub emptied : Memory
emptied = set_header layout third 0 0 written.memory

pub third-IsResized : IsResized layout emptied emptied third_block third_block
unfolding set_header thread_block set_previous set_next link_back clear store
third-IsResized = record {
  same = λ z b o. record { live = refl; usable = refl; words = λ a lo hi. refl };
  head = refl;
  block = record {
    live = refl;
    insert_eq = refl;
    room = omega arith;
    even = refl;
    ne_null = omega arith;
    below = omega arith;
  };
  off = omega arith;
  apart = λ z b o. o;
  unmarked = refl;
}

abbrev resized : Gc
resized = record written { memory = refill layout third 16 first emptied }

pub resizes : gc_realloc layout lib mymalloc myrealloc free third 40 written ≡ returns third resized
unfolding gc_realloc post set_header refill thread_block set_previous set_next link_back clear store
    previous_pointer next_pointer insert_address
resizes = refl

abbrev pub released : Gc
released = record resized {
  memory = remove_block layout lib mymalloc myrealloc free third resized.memory;
}

pub releases : gc_realloc layout lib mymalloc myrealloc free third 0 resized ≡ returns 0 released
unfolding gc_realloc post
releases = refl

pub still-OnList : OnList layout resized.memory third
unfolding refill set_header thread_block set_previous set_next link_back clear store
still-OnList = System.first

pub released-IsHeap : IsHeap layout released.memory clean_heap
unfolding remove_block set_link set_back refill set_header thread_block set_previous set_next
    link_back clear store previous_pointer next_pointer insert_address
released-IsHeap = record {
  chain = (
    refl,
    record {
      live = refl;
      insert_eq = refl;
      room = omega arith;
      even = refl;
      ne_null = omega arith;
      below = omega arith;
    },
    refl,
    (
      refl,
      record {
        live = refl;
        insert_eq = refl;
        room = omega arith;
        even = refl;
        ne_null = omega arith;
        below = omega arith;
      },
      refl,
      refl,
    ),
  );
  spread = omega arith;
  even = refl;
  below = omega arith;
}
