-- ===== src/Realloc/Place.antt =====
-- A block in the middle of the heap list: the cell that leads to it, and the list put together again.
use precision_gc.Base.{
  ℕ, ◌-◌, ◌≤◌, ◌<◌, ◌≡◌, refl, sym, ap, ◌∙◌, ◌≢◌, ◌⊎◌, inl, inr, List, [], ◌∷◌, ◌++◌, arith, All,
  All-prefix, All-suffix, All-mono, All-both, false, bit,
}
use precision_gc.Heap.{Memory, Layout, previous_pointer}
use precision_gc.Heap.Blocks.{
  Block, IsBlock, Apart, Outside, Spread, Chain, IsBlock-same, Chain-IsBlock, ne_of_Apart, IsHeap,
  Spread-Outside, previous_pointer_lem,
}
use precision_gc.Sweep.Anchor.{Anchor}

-- The block before the cell `l` keeps its use, size and words, but for that cell.
pub record SameBut (l : ℕ) (m n : Memory) (y : Block) : Type 0 where
  pub live : n.live y.addr ≡ m.live y.addr
  pub usable : n.usable y.addr ≡ m.usable y.addr
  pub words : (a : ℕ) → y.addr ≤ a → a < y.insert → a ≢ l → n.word a ≡ m.word a

module _ (v : Layout) (m : Memory) where
  -- Where the list has `x` behind `ys`: the block before, the cell, and how a list grows back.
  pub record Place (p l₀ : ℕ) (ys : List Block) (x : Block) (zs : List Block) : Type 0 where
    pub previous : ℕ
    pub cell : ℕ
    pub anchor : Anchor v m previous cell (x ∷ zs)
    pub rest : Chain v m previous (m.word cell) (x ∷ zs)
    pub distinct : (a : ℕ) → a ≢ l₀ → All (Outside a) ys → a ≢ cell
    pub user : All (λ y. (a : ℕ) → y.addr ≤ a → a < y.insert - 16 → a ≢ cell) ys
    pub rebuild :
        (n : Memory) (ws : List Block)
        → All (SameBut cell m n) ys
        → (l₀ ≢ cell → n.word l₀ ≡ m.word l₀)
        → Chain v n previous (n.word cell) ws
        → Chain v n p (n.word l₀) (ys ++ ws)

  -- one step along the list
  next-Anchor :
      (p l : ℕ) (y : Block) (xs : List Block)
      → Chain v m p (m.word l) (y ∷ xs)
      → Spread v (y ∷ xs)
      → Anchor v m p l (y ∷ xs)
      → Anchor v m y.addr (y.insert - 8) xs
  next-Anchor p l y xs chain spread anchor = record {
    even = chain.1.even;
    outside = All-mono xs (λ z far. omega (arith, chain.1.room)) spread.1;
    place = inr (y, chain.1, spread.0, refl, refl, spread.1, head_ne anchor.place);
  }
    where
      head_ne :
          ((p ≡ v.heap_list_head) × (l ≡ v.heap_list_head))
            ⊎ ((w : Block) × IsBlock v m w
                × Outside v.heap_list_head w
                × (p ≡ w.addr)
                × (l ≡ w.insert - 8)
                × All (Apart w) (y ∷ xs)
                × All (λ z. m.word v.heap_list_head ≢ z.addr) (y ∷ xs))
          → All (λ z. m.word v.heap_list_head ≢ z.addr) xs
      head_ne (inr (w, b, _, _, _, _, others)) = others.1
      head_ne (inl (_, cell)) =
          All-both xs
            (λ z b far e.
              ne_of_Apart y z chain.1.room b.room far (sym e ∙ ap m.word (sym cell) ∙ chain.0))
            (Chain-IsBlock v m y.addr (m.word (y.insert - 8)) xs chain.3) spread.1

  pub find_place :
      (p l : ℕ) (ys : List Block) (x : Block) (zs : List Block)
      → Chain v m p (m.word l) (ys ++ x ∷ zs)
      → Spread v (ys ++ x ∷ zs)
      → Anchor v m p l (ys ++ x ∷ zs)
      → Place p l ys x zs
  find_place p l [] x zs chain spread anchor = record {
    previous = p;
    cell = l;
    anchor = anchor;
    rest = chain;
    distinct = λ a ne out. ne;
    user = tt;
    rebuild = λ n ws same at c. c;
  }
  find_place p l (y ∷ ys) x zs chain spread anchor =
      let far = All-prefix (Apart y) ys (x ∷ zs) spread.1 in
      let place =
        find_place y.addr (y.insert - 8) ys x zs chain.3 spread.2
          (next-Anchor p l y (ys ++ x ∷ zs) chain spread anchor) in
      record {
        previous = place.previous;
        cell = place.cell;
        anchor = place.anchor;
        rest = place.rest;
        distinct = λ a ne out. place.distinct a (omega (arith, out.0, chain.1.room)) out.1;
        user = (
          λ a lo hi. place.distinct a (omega arith) (All-mono ys (λ z o. omega arith) far),
          place.user,
        );
        rebuild = λ n ws same at c. (
          at (
                place.distinct l (omega (arith, anchor.outside.0, chain.1.room))
                  (All-prefix (Outside l) ys (x ∷ zs) anchor.outside.1))
              ∙ chain.0,
          IsBlock-same v m n chain.1 same.0.live same.0.usable,
          same.0.words (y.insert - 16) (omega (arith, chain.1.room)) (omega (arith, chain.1.room)) (
                place.distinct (y.insert - 16) (omega (arith, chain.1.room))
                  (All-mono ys (λ z o. omega (arith, chain.1.room)) far))
              ∙ chain.2,
          place.rebuild n ws same.1
              (λ ne.
                same.0.words (y.insert - 8) (omega (arith, chain.1.room))
                  (omega (arith, chain.1.room)) ne)
              c,
        );
      }

pub Spread-suffix :
    (v : Layout) (ys : List Block) (x : Block) (zs : List Block)
    → Spread v (ys ++ x ∷ zs)
    → Spread v (x ∷ zs)
Spread-suffix v [] x zs s = s
Spread-suffix v (y ∷ ys) x zs s = Spread-suffix v ys x zs s.2

module _ (v : Layout) (m : Memory) (ys : List Block) (x : Block) (zs : List Block)
    (heap : IsHeap v m (ys ++ x ∷ zs)) where
  pub heap_place : Place v m v.heap_list_head v.heap_list_head ys x zs
  heap_place =
      find_place v m v.heap_list_head v.heap_list_head ys x zs heap.chain heap.spread (record {
        even = heap.even;
        outside = Spread-Outside v (ys ++ x ∷ zs) heap.spread;
        place = inl (refl, refl);
      })

  -- the previous pointer of an unmarked block as gc_realloc reads it
  pub old_previous :
      All (λ y. y.mark ≡ false) (ys ++ x ∷ zs) → previous_pointer v m x.addr ≡ heap_place.previous
  old_previous clean =
      previous_pointer_lem heap_place.rest.1
      ∙ heap_place.rest.2
      ∙ omega (arith, ap bit (All-suffix (λ y. y.mark ≡ false) ys (x ∷ zs) clean).0)
