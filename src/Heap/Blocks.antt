-- ===== src/Heap/Blocks.antt =====
-- The blocks of the collected heap, and the doubly linked list that threads them (gc.c, the block
-- layout and heap_list_head).
use mathlib.Core.Path.{fun_ext}
use precision_gc.Base.{
  ℕ, ◌+◌, ◌-◌, ◌%◌, ◌≤◌, ◌<◌, ◌≡◌, ◌∙◌, ◌≢◌, ◌⊎◌, Bool, true, false, All-mono, List, [], ◌∷◌, arith,
  bit, All, ap, refl, ◌==◌, if◌then◌else◌,
}
use precision_gc.Heap.{
  Memory, Layout, store, insert_address, next_address, previous_pointer, next_pointer, set_previous,
  set_next, marked, mark_block, unmark_block,
}

-- A block: its address, the address of its insert (the end of its header) and its mark bit.
pub record Block : Type 0 where
  pub addr : ℕ
  pub insert : ℕ
  pub mark : Bool

-- The end of the addresses of a user process, the upper bound of IS_PLAUSIBLE_POINTER.
abbrev pub user_end : ℕ
user_end = 0x8000_0000_0000

pub record IsBlock (v : Layout) (m : Memory) (x : Block) : Type 0 where
  pub live : m.live x.addr ≡ true
  pub insert_eq : v.insert_for x.addr (m.usable x.addr) ≡ x.insert
  pub room : x.addr + 16 ≤ x.insert
  pub even : x.addr % 2 ≡ 0
  pub ne_null : x.addr ≢ 0
  pub below : x.addr < user_end

-- Two blocks share no byte.
abbrev pub Apart : Block → Block → Type 0
Apart x y = (x.insert ≤ y.addr) ⊎ (y.insert ≤ x.addr)

-- The address lies outside the block.
abbrev pub Outside : ℕ → Block → Type 0
Outside a x = (a < x.addr) ⊎ (x.insert ≤ a)

-- The blocks are apart from one another and from the variable heap_list_head.
abbrev pub Spread : Layout → List Block → Type 0
Spread v [] = Unit
Spread v (x ∷ xs) = Outside v.heap_list_head x × All (Apart x) xs × Spread v xs

-- From `c` the next pointers lead through the blocks to NULL, and each previous pointer, less its
-- mark bit, leads back; the first one to `p`.
abbrev pub Chain : Layout → Memory → ℕ → ℕ → List Block → Type 0
Chain v m p c [] = c ≡ 0
Chain v m p c (x ∷ xs) =
    (c ≡ x.addr)
    × IsBlock v m x
    × (m.word (x.insert - 16) ≡ p + bit x.mark)
    × Chain v m x.addr (m.word (x.insert - 8)) xs

-- The heap list of gc.c holds these blocks.
pub record IsHeap (v : Layout) (m : Memory) (xs : List Block) : Type 0 where
  pub chain : Chain v m v.heap_list_head (m.word v.heap_list_head) xs
  pub spread : Spread v xs
  pub even : v.heap_list_head % 2 ≡ 0
  pub below : v.heap_list_head < user_end

-- What a change of memory must leave alone so that a block stays a block.
pub record SameBlock (m n : Memory) (x : Block) : Type 0 where
  pub live : n.live x.addr ≡ m.live x.addr
  pub usable : n.usable x.addr ≡ m.usable x.addr
  pub words : (a : ℕ) → x.addr ≤ a → a < x.insert → n.word a ≡ m.word a

module _ (v : Layout) (m n : Memory) where
  pub IsBlock-same :
      {x : Block}
      → IsBlock v m x
      → n.live x.addr ≡ m.live x.addr
      → n.usable x.addr ≡ m.usable x.addr
      → IsBlock v n x
  IsBlock-same b l u = record {
    live = rw (l) b.live;
    insert_eq = rw u b.insert_eq;
    room = b.room;
    even = b.even;
    ne_null = b.ne_null;
    below = b.below;
  }

  pub Chain-same :
      (p c : ℕ) (xs : List Block) → Chain v m p c xs → All (SameBlock m n) xs → Chain v n p c xs
  Chain-same p c [] h s = h
  Chain-same p c (x ∷ xs) (e, b, back, rest) (s, ss) = (
    e,
    IsBlock-same b s.live s.usable,
    rw (s.words (x.insert - 16) (omega (arith, b.room)) (omega (arith, b.room))) back,
    rw (s.words (x.insert - 8) (omega (arith, b.room)) (omega (arith, b.room)))
        (Chain-same x.addr (m.word (x.insert - 8)) xs rest ss),
  )

module _ {v : Layout} {m : Memory} {x : Block} (b : IsBlock v m x) where
  pub insert_address_lem : insert_address v m x.addr ≡ x.insert - 16
  unfolding insert_address
  insert_address_lem = omega (arith, b.insert_eq)

  pub next_address_lem : next_address v m x.addr ≡ x.insert - 8
  unfolding next_address
  next_address_lem = omega (arith, b.insert_eq)

  pub previous_pointer_lem : previous_pointer v m x.addr ≡ m.word (x.insert - 16)
  unfolding previous_pointer
  previous_pointer_lem = ap m.word insert_address_lem

  pub next_pointer_lem : next_pointer v m x.addr ≡ m.word (x.insert - 8)
  unfolding next_pointer
  next_pointer_lem = ap m.word next_address_lem

  pub set_previous_lem : (w : ℕ) → set_previous v m x.addr w ≡ store m (x.insert - 16) w
  unfolding set_previous
  set_previous_lem w = ap (λ a. store m a w) insert_address_lem

  pub set_next_lem : (w : ℕ) → set_next v m x.addr w ≡ store m (x.insert - 8) w
  unfolding set_next
  set_next_lem w = ap (λ a. store m a w) next_address_lem

  module _ (p : ℕ) (even : p % 2 ≡ 0) (back : m.word (x.insert - 16) ≡ p + bit x.mark) where
    pub marked_lem : marked v m x.addr ≡ x.mark
    unfolding marked
    marked_lem = rw (previous_pointer_lem, back) (ground arith)

    pub mark_block_lem : mark_block v m x.addr ≡ store m (x.insert - 16) (p + 1)
    unfolding mark_block
    mark_block_lem =
        set_previous_lem _
        ∙ ap (store m (x.insert - 16)) (rw (previous_pointer_lem, back) (ground arith))

    pub unmark_block_lem : unmark_block v m x.addr ≡ store m (x.insert - 16) p
    unfolding unmark_block
    unmark_block_lem =
        set_previous_lem _
        ∙ ap (store m (x.insert - 16)) (rw (previous_pointer_lem, back) (ground arith))

pub store-store : (m : Memory) (a w u : ℕ) → store (store m a w) a u ≡ store m a u
unfolding store
store-store m a w u = λ i. record m {
  word =
      fun_ext {f = λ c. if c == a then u else (if c == a then w else m.word c)}
        {g = λ c. if c == a then u else m.word c} (λ c. ground arith) i;
}

-- the blocks of a chain, each by itself
pub Chain-IsBlock :
    (v : Layout) (m : Memory) (p c : ℕ) (xs : List Block) → Chain v m p c xs → All (IsBlock v m) xs
Chain-IsBlock v m p c [] h = tt
Chain-IsBlock v m p c (x ∷ xs) (_, b, _, rest) =
    (b, Chain-IsBlock v m x.addr (m.word (x.insert - 8)) xs rest)

-- A write outside a block leaves it alone.
pub SameBlock-store : (m : Memory) (a w : ℕ) (x : Block) → Outside a x → SameBlock m (store m a w) x
unfolding store
SameBlock-store m a w x o = record { live = refl; usable = refl; words = λ c lo hi. ground arith }

pub SameBlock-trans :
    {m n k : Memory} {x : Block} → SameBlock m n x → SameBlock n k x → SameBlock m k x
SameBlock-trans s t = record {
  live = t.live ∙ s.live;
  usable = t.usable ∙ s.usable;
  words = λ a lo hi. t.words a lo hi ∙ s.words a lo hi;
}

pub ne_of_Apart :
    (x y : Block) → x.addr + 16 ≤ x.insert → y.addr + 16 ≤ y.insert → Apart x y → y.addr ≢ x.addr
ne_of_Apart x y r s o = omega arith

-- A write to the previous pointer of a block leaves what follows it.
pub Chain-header :
    {v : Layout} {m : Memory} {x : Block} (w : ℕ) (xs : List Block)
    → IsBlock v m x
    → Chain v m x.addr (m.word (x.insert - 8)) xs
    → All (Apart x) xs
    → Chain v
        (store m (x.insert - 16) w)
        x.addr
        ((store m (x.insert - 16) w).word (x.insert - 8))
        xs
Chain-header {v} {m} {x} w xs b rest far =
    rw
      ((SameBlock-store m (x.insert - 16) w (after x) (omega (arith, b.room))).words (x.insert - 8)
        (omega (arith, b.room)) (omega (arith, b.room)))
      (Chain-same v m (store m (x.insert - 16) w) x.addr (m.word (x.insert - 8)) xs rest
        (All-mono xs (λ y o. SameBlock-store m (x.insert - 16) w y (omega (arith, b.room))) far))
  where
    -- the part of the block behind its previous pointer
    after : Block → Block
    after x = record { addr = x.insert - 8; insert = x.insert; mark = false }

-- The bytes that the program owns in the block, up to the header.
abbrev pub UserSame : Memory → Memory → Block → Type 0
UserSame m n y = (a : ℕ) → y.addr ≤ a → a < y.insert - 16 → n.word a ≡ m.word a

pub Spread-Outside :
    (v : Layout) (xs : List Block) → Spread v xs → All (Outside v.heap_list_head) xs
Spread-Outside v [] s = tt
Spread-Outside v (x ∷ xs) s = (s.0, Spread-Outside v xs s.2)
