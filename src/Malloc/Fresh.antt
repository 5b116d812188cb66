-- ===== src/Malloc/Fresh.antt =====
-- The writes of gc_malloc to the new block and the heap list.
use precision_gc.Base.{
  ℕ, ◌-◌, ◌≤◌, ◌<◌, ◌≡◌, refl, ap, ◌∙◌, ◌≢◌, false, List, [], ◌∷◌, arith, bit, All, All-mono, ==_ne,
}
use precision_gc.Heap.{Memory, Layout, store, set_previous}
use precision_gc.Heap.Blocks.{
  Block, IsBlock, IsHeap, Apart, Outside, Spread, Chain, SameBlock, IsBlock-same, Chain-same,
  SameBlock-store, SameBlock-trans, insert_address_lem, set_previous_lem, set_next_lem,
  Chain-IsBlock, UserSame, Spread-Outside,
}
use precision_gc.Malloc.{clear, link_back, thread_block}

-- The program's bytes of the block are zero.
abbrev pub IsZeroed : Memory → Block → Type 0
IsZeroed m x = (a : ℕ) → x.addr ≤ a → a < x.insert - 16 → m.word a ≡ 0

link_back-first :
    (v : Layout) (k : Memory) (w head : ℕ)
    → k.word v.heap_list_head ≡ head
    → head ≢ 0
    → link_back v w k ≡ set_previous v k head w
unfolding link_back
link_back-first v k w head e ne = rw (e, ==_ne _ _ ne) refl

module _ (v : Layout) (m : Memory) (x : Block) (xs : List Block) (heap : IsHeap v m xs)
    (b : IsBlock v m x) (fresh : All (Apart x) xs) (off : Outside v.heap_list_head x) where
  -- the memory after the block's own words have been written
  abbrev pub owned : Memory
  owned =
      store (store (clear m x.addr (x.insert - 16)) (x.insert - 16) v.heap_list_head) (x.insert - 8)
        (m.word v.heap_list_head)

  owned-same : (y : Block) → Apart x y → SameBlock m owned y
  unfolding store clear
  owned-same y o = record { live = refl; usable = refl; words = λ a lo hi. ground (arith, b.room) }

  owned-words :
      (owned.word v.heap_list_head ≡ m.word v.heap_list_head)
      × (owned.word (x.insert - 16) ≡ v.heap_list_head)
      × (owned.word (x.insert - 8) ≡ m.word v.heap_list_head)
      × IsZeroed owned x
  unfolding store clear
  owned-words = (
    ground (arith, b.room, off),
    ground (arith, b.room),
    ground arith,
    λ a lo hi. ground (arith, b.room),
  )

  owned-IsBlock : (y : Block) → IsBlock v m y → IsBlock v owned y
  unfolding store clear
  owned-IsBlock y by = IsBlock-same v m _ by refl refl

  abbrev pub linked : List Block → Memory → Memory
  linked [] k = k
  linked (y ∷ ys) k = store k (y.insert - 16) x.addr

  -- the memory that gc_malloc leaves
  abbrev pub threaded : Memory
  threaded = store (linked xs owned) v.heap_list_head x.addr

  cleared-IsBlock : IsBlock v (clear m x.addr (x.insert - 16)) x
  unfolding clear
  cleared-IsBlock = IsBlock-same v m _ b refl refl

  back-IsBlock :
      IsBlock v (store (clear m x.addr (x.insert - 16)) (x.insert - 16) v.heap_list_head) x
  unfolding clear store
  back-IsBlock = IsBlock-same v m _ b refl refl

  back-head :
      (store (clear m x.addr (x.insert - 16)) (x.insert - 16) v.heap_list_head).word
        v.heap_list_head
      ≡ m.word v.heap_list_head
  unfolding clear store
  back-head = ground (arith, b.room, off)

  link_back_lem :
      (ys : List Block)
      → Chain v m v.heap_list_head (m.word v.heap_list_head) ys
      → link_back v x.addr owned ≡ linked ys owned
  unfolding link_back
  link_back_lem [] h = rw (owned-words.0, h) refl
  link_back_lem (y ∷ ys) (e, by, _, _) =
      link_back-first v owned x.addr y.addr (owned-words.0 ∙ e) by.ne_null
      ∙ set_previous_lem (owned-IsBlock y by) x.addr

  pub thread_block_lem : thread_block v x.addr m ≡ threaded
  unfolding thread_block
  thread_block_lem =
      rw
        (
          insert_address_lem b,
          set_previous_lem cleared-IsBlock v.heap_list_head,
          back-head,
          set_next_lem back-IsBlock (m.word v.heap_list_head),
        )
        (ap (λ k. store k v.heap_list_head x.addr) (link_back_lem xs heap.chain))

  linked-same :
      (ys : List Block) (k : Memory) (z : Block)
      → All (IsBlock v m) ys
      → All (λ y. Apart y z) ys
      → SameBlock k (linked ys k) z
  linked-same [] k z bs far = record { live = refl; usable = refl; words = λ a lo hi. refl }
  linked-same (y ∷ ys) k z bs far =
      SameBlock-store k (y.insert - 16) x.addr z (omega (arith, bs.0.room, far.0))

  -- the new block is not touched any more
  threaded-own : SameBlock owned threaded x
  threaded-own =
      SameBlock-trans
        (linked-same xs owned x (Chain-IsBlock v m _ _ xs heap.chain)
          (All-mono xs (λ y o. omega arith) fresh))
        (SameBlock-store (linked xs owned) v.heap_list_head x.addr x off)

  header : (y : Block) → (store owned (y.insert - 16) x.addr).word (y.insert - 16) ≡ x.addr
  unfolding store
  header y = ground arith

  behind :
      (y : Block)
      → IsBlock v m y
      → Apart x y
      → (a : ℕ) → y.addr ≤ a
      → a < y.insert
      → a ≢ y.insert - 16
      → (store owned (y.insert - 16) x.addr).word a ≡ m.word a
  unfolding store
  behind y by far a lo hi ne = rw (==_ne _ _ ne) ((owned-same y far).words a lo hi)

  threaded-others :
      (y : Block) (ys : List Block)
      → IsBlock v m y
      → All (Outside v.heap_list_head) ys
      → All (Apart y) ys
      → All (Apart x) ys
      → All (SameBlock m (store (store owned (y.insert - 16) x.addr) v.heap_list_head x.addr)) ys
  threaded-others y [] by offs apart fars = tt
  threaded-others y (z ∷ zs) by offs apart fars = (
    SameBlock-trans
        (SameBlock-trans (owned-same z fars.0)
          (SameBlock-store owned (y.insert - 16) x.addr z (omega (arith, by.room, apart.0))))
        (SameBlock-store (store owned (y.insert - 16) x.addr) v.heap_list_head x.addr z offs.0),
    threaded-others y zs by offs.1 apart.1 fars.1,
  )

  threaded-Chain :
      (ys : List Block)
      → Chain v m v.heap_list_head (m.word v.heap_list_head) ys
      → Spread v ys
      → All (Apart x) ys
      → All (λ y. y.mark ≡ false) ys
      → Chain v
          (store (linked ys owned) v.heap_list_head x.addr)
          x.addr
          (m.word v.heap_list_head)
          ys
  unfolding store clear
  threaded-Chain [] h s far clean = h
  threaded-Chain (y ∷ ys) (e, by, back, rest) (offy, apart, s) (far, fars) (cleany, _) =
      let n = store (linked (y ∷ ys) owned) v.heap_list_head x.addr in
      let top = SameBlock-store (linked (y ∷ ys) owned) v.heap_list_head x.addr y offy in
      (
        e,
        IsBlock-same v m n by refl refl,
        rw cleany (
            top.words (y.insert - 16) (omega (arith, by.room)) (omega (arith, by.room))
            ∙ header y
            ∙ omega arith),
        rw
            (top.words (y.insert - 8) (omega (arith, by.room)) (omega (arith, by.room))
              ∙ behind y by far (y.insert - 8) (omega (arith, by.room)) (omega (arith, by.room))
                  (omega (arith, by.room)))
            (Chain-same v m n y.addr (m.word (y.insert - 8)) ys rest
              (threaded-others y ys by (Spread-Outside v ys s) apart fars)),
      )

  pub threaded-user :
      (ys : List Block)
      → All (IsBlock v m) ys
      → Spread v ys
      → All (Apart x) ys
      → All (UserSame m (store (linked ys owned) v.heap_list_head x.addr)) ys
  threaded-user [] bs s far = tt
  threaded-user (y ∷ ys) (by, bs) (offy, apart, s) (far, fars) = (
    λ a lo hi.
        (SameBlock-store (store owned (y.insert - 16) x.addr) v.heap_list_head x.addr y offy).words
          a lo (omega arith)
        ∙ behind y by far a lo (omega arith) (omega arith),
    All-mono ys (λ z same a lo hi. same.words a lo (omega arith))
        (threaded-others y ys by (Spread-Outside v ys s) apart fars),
  )

  pub threaded-head : threaded.word v.heap_list_head ≡ x.addr
  unfolding store
  threaded-head = ground arith

  threaded-IsBlock : IsBlock v threaded x
  threaded-IsBlock =
      IsBlock-same v owned threaded (owned-IsBlock x b) threaded-own.live threaded-own.usable

  pub threaded-IsHeap : All (λ y. y.mark ≡ false) xs → x.mark ≡ false → IsHeap v threaded (x ∷ xs)
  threaded-IsHeap clean unmarked = record {
    chain = (
      threaded-head,
      threaded-IsBlock,
      threaded-own.words (x.insert - 16) (omega (arith, b.room)) (omega (arith, b.room))
          ∙ owned-words.1
          ∙ omega (arith, ap bit unmarked),
      rw
          (threaded-own.words (x.insert - 8) (omega (arith, b.room)) (omega (arith, b.room))
            ∙ owned-words.2)
          (threaded-Chain xs heap.chain heap.spread fresh clean),
    );
    spread = (off, fresh, heap.spread);
    even = heap.even;
    below = heap.below;
  }

  pub threaded-IsZeroed : IsZeroed threaded x
  threaded-IsZeroed a lo hi = threaded-own.words a lo (omega arith) ∙ owned-words.3 a lo hi
