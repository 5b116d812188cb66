-- ===== src/Samples.antt =====
-- A small heap at which the theorems are instantiated: two blocks on the heap list, the first of which
-- points to the second.
mod Arena
mod Bins
mod Due
mod Reuse
mod Heaps
mod Calls
mod Collection
mod Scans
mod Nodes
mod Stat
mod Growth
mod Session
mod Program
mod Resizing
use precision_gc.Base.{
  ℕ, ◌+◌, ◌/◌, not, ◌≡◌, refl, inl, inr, Bool, true, false, ◌||◌, Option, none, some, List, [], ◌∷◌,
  arith, All, ◌==◌, if◌then◌else◌,
}
use precision_gc.Heap.{Memory, Layout}
use precision_gc.Heap.Blocks.{Block, IsBlock, IsHeap}
use precision_gc.Sweep.Free.{FreeLaws}
use precision_gc.Types.{Liballocs, AllocInfo}

abbrev pub layout : Layout
layout = record { heap_list_head = 16; insert_for = λ p usable. p + usable }

abbrev pub first : ℕ
first = 0x40_0000

abbrev pub second : ℕ
second = 0x40_0040

abbrev pub third : ℕ
third = 0x40_0080

-- what is stored in the words, with a mark on `first` or none
abbrev pub words : ℕ → ℕ → ℕ
words marks a =
    if a == 16
    then first
    else if a == 0x40_0000
    then second
    else if a == 0x40_0020
    then 16 + marks
    else if a == 0x40_0028
    then second
    else if a == 0x40_0060
    then first
    else 0

-- `extra` is a further block in use, or one of the two
abbrev pub memory : ℕ → ℕ → Memory
memory marks extra = record {
  word = words marks;
  usable = λ p. 48;
  live = λ p. (p == first) || ((p == second) || (p == extra));
}

abbrev pub block : ℕ → Bool → Block
block p mark = record { addr = p; insert = p + 48; mark = mark }

abbrev pub marked_heap : List Block
marked_heap = block first true ∷ block second false ∷ []

abbrev pub clean_heap : List Block
clean_heap = block first false ∷ block second false ∷ []

first-IsBlock :
    (marks extra : ℕ) (mark : Bool) → IsBlock layout (memory marks extra) (block first mark)
first-IsBlock marks extra mark = record {
  live = refl;
  insert_eq = refl;
  room = omega arith;
  even = refl;
  ne_null = omega arith;
  below = omega arith;
}

second-IsBlock :
    (marks extra : ℕ) (mark : Bool) → IsBlock layout (memory marks extra) (block second mark)
second-IsBlock marks extra mark = record {
  live = refl;
  insert_eq = refl;
  room = omega arith;
  even = refl;
  ne_null = omega arith;
  below = omega arith;
}

pub marked_heap-IsHeap : IsHeap layout (memory 1 first) marked_heap
marked_heap-IsHeap = record {
  chain =
      (refl, first-IsBlock 1 first true, refl, (refl, second-IsBlock 1 first false, refl, refl));
  spread = omega arith;
  even = refl;
  below = omega arith;
}

pub clean_heap-IsHeap : (extra : ℕ) → IsHeap layout (memory 0 extra) clean_heap
clean_heap-IsHeap extra = record {
  chain =
      (refl, first-IsBlock 0 extra false, refl, (refl, second-IsBlock 0 extra false, refl, refl));
  spread = omega arith;
  even = refl;
  below = omega arith;
}

pub clean_heap-clean : All (λ x. x.mark ≡ false) clean_heap
clean_heap-clean = (refl, (refl, tt))

-- an allocator that only keeps its books
abbrev pub free : ℕ → Memory → Memory
free p m = record m { live = λ q. if q == p then false else m.live q }

pub free-FreeLaws : FreeLaws layout free
free-FreeLaws = record {
  live = λ m x q b. refl;
  usable = λ m x y b c o. refl;
  words = λ m x y b c o a lo hi. refl;
  head = λ m x b o. refl;
}

-- the allocator gives out the third block
abbrev pub mymalloc : ℕ → Memory → ℕ × Memory
mymalloc size m = (third, memory 0 third)

abbrev pub mymalloc_fails : ℕ → Memory → ℕ × Memory
mymalloc_fails size m = (0, m)

abbrev pub myrealloc : ℕ → ℕ → Memory → ℕ × Memory
myrealloc p size m = (0, m)

-- Types by number: 0 is a structure with one pointer at offset 0, all others are pointers. Every block
-- of the two is of type 0.
abbrev pub lib : Liballocs
lib = record {
  Uniqtype = ℕ;
  is_void = λ t. false;
  has_subobjects = λ t. t == 0;
  is_composite = λ t. t == 0;
  is_pointer = λ t. not (t == 0);
  has_known_length = λ t. true;
  member_count = λ t. 1;
  member_type = λ t i. 1;
  member_offset = λ t i. 0;
  array_length = λ t. 0;
  array_element = λ t. 1;
  pos_maxoff = λ t. 8;
  page_index = λ p. p / 4096;
  alloc_info = λ p. record {
    err = false;
    generic_malloc = (p == first) || (p == second);
    start = p;
    size = 48;
    uniqtype = some 0;
  };
  make_precise = λ t. none;
}
