-- ===== src/Sweep/Keep.antt =====
-- One round of sweep at a marked block: the mark is cleared and the walk goes on. The two rounds as
-- equations.
use precision_gc.Base.{
  ℕ, ◌-◌, ◌≡◌, refl, ap, sym, ◌∙◌, ◌≢◌, inl, inr, true, false, List, ◌∷◌, arith, All, All-mono,
  All-both,
}
use precision_gc.Heap.{Memory, Layout, store}
use precision_gc.Heap.Blocks.{
  Block, IsBlock, Spread, Chain, IsBlock-same, Chain-same, Chain-IsBlock, SameBlock-store,
  marked_lem, unmark_block_lem, next_pointer_lem, ne_of_Apart,
}
use precision_gc.Sweep.{sweep_round}
use precision_gc.Sweep.Anchor.{Anchor, relinked, drop_block_lem}

module _ (v : Layout) (m : Memory) (p l : ℕ) (x : Block) (xs : List Block)
    (chain : Chain v m p (m.word l) (x ∷ xs)) (spread : Spread v (x ∷ xs))
    (anchor : Anchor v m p l (x ∷ xs)) where
  abbrev pub cleared : Memory
  cleared = store m (x.insert - 16) p

  pub cleared-IsBlock : (y : Block) → IsBlock v m y → IsBlock v cleared y
  unfolding store
  cleared-IsBlock y b = IsBlock-same v m _ b refl refl

  cleared-back : cleared.word (x.insert - 8) ≡ m.word (x.insert - 8)
  unfolding store
  cleared-back = ground (arith, chain.1.room)

  pub cleared-Chain : Chain v cleared x.addr (cleared.word (x.insert - 8)) xs
  cleared-Chain = rw cleared-back (
      Chain-same v m cleared x.addr (m.word (x.insert - 8)) xs chain.3 (
        All-mono xs (λ y far. SameBlock-store m (x.insert - 16) p y (omega (arith, chain.1.room)))
          spread.1))

  cleared-head : cleared.word v.heap_list_head ≡ m.word v.heap_list_head
  unfolding store
  cleared-head = ground (arith, chain.1.room, spread.0)

  -- no later block stands at the head of the list
  head-ne : All (λ z. m.word v.heap_list_head ≢ z.addr) xs
  head-ne = elim anchor.place [
    | inl (_, cell) ↦
        All-both xs
          (λ z b far e.
            ne_of_Apart x z chain.1.room b.room far (sym e ∙ ap m.word (sym cell) ∙ chain.0))
          (Chain-IsBlock v m x.addr (m.word (x.insert - 8)) xs chain.3) spread.1
    | inr (y, b, _, _, _, _, others) ↦ others.1
  ]

  pub cleared-Anchor : Anchor v cleared x.addr (x.insert - 8) xs
  cleared-Anchor = record {
    even = chain.1.even;
    outside = All-mono xs (λ z far. omega (arith, chain.1.room)) spread.1;
    place = inr (
      x,
      cleared-IsBlock x chain.1,
      spread.0,
      refl,
      refl,
      spread.1,
      All-mono xs (λ z ne e. ne (sym cleared-head ∙ e)) head-ne,
    );
  }

  pub sweep_round-kept :
      (free : ℕ → Memory → Memory)
      → x.mark ≡ true
      → sweep_round v free (record { previous = p; current = x.addr; memory = m })
        ≡ record { previous = x.addr; current = cleared.word (x.insert - 8); memory = cleared }
  unfolding sweep_round
  sweep_round-kept free on = rw (
    marked_lem chain.1 p anchor.even chain.2,
    on,
    unmark_block_lem chain.1 p anchor.even chain.2,
    next_pointer_lem (cleared-IsBlock x chain.1),
  )

  pub sweep_round-dropped :
      (free : ℕ → Memory → Memory)
      → x.mark ≡ false
      → sweep_round v free (record { previous = p; current = x.addr; memory = m }) ≡ record {
        previous = p;
        current = m.word (x.insert - 8);
        memory = free x.addr (relinked p xs (store m l (m.word (x.insert - 8))));
      }
  unfolding sweep_round
  sweep_round-dropped free off = rw (
    marked_lem chain.1 p anchor.even chain.2,
    off,
    next_pointer_lem chain.1,
    drop_block_lem v m p l (m.word (x.insert - 8)) free x xs chain.1 anchor chain.0 chain.3,
  )
