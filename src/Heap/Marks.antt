-- ===== src/Heap/Marks.antt =====
-- Marking a block of the heap list (gc.c, mark_block): the list keeps its shape, and its block the
-- mark.
use precision_gc.Base.{
  ℕ, ◌+◌, ◌-◌, ◌*◌, ◌/◌, ◌%◌, ◌≤◌, ◌<◌, ◌≡◌, refl, sym, ap, ◌∙◌, inl, inr, Bool, true, false, ◌||◌,
  List, [], ◌∷◌, arith, bit, All, All-both, subst, ==_ne, ==_iff, Bool-cases, ◌==◌,
}
use precision_gc.Heap.{
  Memory, Layout, store, insert_address, previous_pointer, set_previous, marked, mark_block,
}
use precision_gc.Heap.Blocks.{
  Block, IsBlock, IsHeap, Apart, Outside, Spread, Chain, SameBlock, IsBlock-same, Chain-header,
  SameBlock-store, insert_address_lem, previous_pointer_lem, marked_lem, mark_block_lem, user_end,
  Chain-IsBlock, ne_of_Apart,
}
use precision_gc.Heap.Flags.{has, flagged, mark_at, has_of_flagged}

All-mark_at :
    (P : Block → Type 0)
    → ((x : Block) → P x → P (record x { mark = true }))
    → (o : ℕ) (xs : List Block) → All P xs
    → All P (mark_at o xs)
All-mark_at P k o [] h = tt
All-mark_at P k o (x ∷ xs) h = elim (Bool-cases (x.addr == o)) [
  | inl at ↦ rw at (k x h.0, h.1)
  | inr off ↦ rw off (h.0, All-mark_at P k o xs h.1)
]

Spread-mark_at : (v : Layout) (o : ℕ) (xs : List Block) → Spread v xs → Spread v (mark_at o xs)
Spread-mark_at v o [] s = tt
Spread-mark_at v o (x ∷ xs) s = elim (Bool-cases (x.addr == o)) [
  | inl at ↦ rw at s
  | inr off ↦ rw off (s.0, All-mark_at (Apart x) (λ y h. h) o xs s.1, Spread-mark_at v o xs s.2)
]

module _ (v : Layout) (m : Memory) where
  -- What holds of every block of the list holds of the one at `o`, of its header cell for instance.
  pub cell_of_has :
      (P : ℕ → Type 0) (o : ℕ) (xs : List Block)
      → has o xs ≡ true
      → All (IsBlock v m) xs
      → All (λ x. P (x.insert - 16)) xs
      → P (insert_address v m o)
  cell_of_has P o [] h bs ps = cc
  cell_of_has P o (x ∷ xs) h bs ps = elim (Bool-cases (x.addr == o)) [
    | inl at ↦ rw (← (==_iff x.addr o).0 at) (rw (insert_address_lem bs.0) ps.0)
    | inr off ↦ cell_of_has P o xs (rw off at h) bs.1 ps.1
  ]

  pub has-apart :
      (x : Block) (xs : List Block)
      → x.addr + 16 ≤ x.insert
      → All (IsBlock v m) xs
      → All (Apart x) xs
      → has x.addr xs ≡ false
  has-apart x [] r bs far = refl
  has-apart x (y ∷ ys) r (b, bs) (o, os) =
      rw (==_ne _ _ (ne_of_Apart x y r b.room o)) (has-apart x ys r bs os)

  pub flagged-apart : (c : ℕ) (xs : List Block) → has c xs ≡ false → flagged c xs ≡ false
  flagged-apart c xs h = elim (Bool-cases (flagged c xs)) [
    | inl on ↦ cc (has_of_flagged c xs on)
    | inr off ↦ off
  ]

  alone : (k f : Bool) → f ≡ false → k ≡ (k || f)
  alone true f h = refl
  alone false f h = sym h

  -- On a list without repetition the mark that the code reads is that of the block.
  pub marked-flagged :
      (o p c : ℕ) (xs : List Block)
      → Chain v m p c xs
      → p % 2 ≡ 0
      → Spread v xs
      → has o xs ≡ true
      → marked v m o ≡ flagged o xs
  marked-flagged o p c [] chain ev s h = cc
  marked-flagged o p c (x ∷ xs) (_, b, back, rest) ev s h = elim (Bool-cases (x.addr == o)) [
    | inl at ↦
        let e = (==_iff x.addr o).0 at in
        let others = flagged-apart o xs (
          subst (λ k. has k xs ≡ false) e
            (has-apart x xs b.room (Chain-IsBlock v m _ _ xs rest) s.1)) in
        let mine = subst (λ k. marked v m k ≡ x.mark) e (marked_lem b p ev back) in
        rw at (mine ∙ alone x.mark (flagged o xs) others)
    | inr off ↦ rw off (marked-flagged o x.addr _ xs rest b.even s.2 (rw off at h))
  ]

  pub previous_pointer-le :
      (o p c : ℕ) (xs : List Block)
      → Chain v m p c xs
      → p < user_end
      → has o xs ≡ true
      → previous_pointer v m o ≤ user_end
  previous_pointer-le o p c [] chain lo h = cc
  previous_pointer-le o p c (x ∷ xs) (_, b, back, rest) lo h = elim (Bool-cases (x.addr == o)) [
    | inl at ↦ rw (← (==_iff x.addr o).0 at) (rw (previous_pointer_lem b, back) (below_bit x.mark))
    | inr off ↦ previous_pointer-le o x.addr _ xs rest b.below (rw off at h)
  ]
    where
      below_bit : (k : Bool) → p + bit k ≤ user_end
      below_bit true = omega arith
      below_bit false = omega arith

  SameBlock-mark_block :
      (o : ℕ) (x : Block) (xs : List Block)
      → IsBlock v m x
      → All (IsBlock v m) xs
      → All (Apart x) xs
      → has o xs ≡ true
      → SameBlock m (mark_block v m o) x
  unfolding mark_block set_previous
  SameBlock-mark_block o x xs b bs far h = SameBlock-store m (insert_address v m o) _ x (
      cell_of_has (λ a. Outside a x) o xs h bs
        (All-both xs (λ y by apart. omega (arith, by.room, b.room)) bs far))

  Chain-mark_at :
      (o p c : ℕ) (xs : List Block)
      → Chain v m p c xs
      → p % 2 ≡ 0
      → Spread v xs
      → has o xs ≡ true
      → Chain v (mark_block v m o) p c (mark_at o xs)
  unfolding store
  Chain-mark_at o p c [] chain ev s h = cc
  Chain-mark_at o p c (x ∷ xs) (e, b, back, rest) ev s h = elim (Bool-cases (x.addr == o)) [
    | inl at ↦
        let n = store m (x.insert - 16) (p + 1) in
        rw at (
          subst (λ k. Chain v k p c (record x { mark = true } ∷ xs))
            (sym (mark_block_lem b p ev back) ∙ ap (mark_block v m) ((==_iff x.addr o).0 at))
            (e, again b, at_header (p + 1), Chain-header (p + 1) xs b rest s.1))
    | inr off ↦
        let same =
          SameBlock-mark_block o x xs b (Chain-IsBlock v m _ _ xs rest) s.1 (rw off at h) in
        rw off (
          e,
          IsBlock-same v m _ b same.live same.usable,
          same.words (x.insert - 16) (omega (arith, b.room)) (omega (arith, b.room)) ∙ back,
          rw (same.words (x.insert - 8) (omega (arith, b.room)) (omega (arith, b.room)))
              (Chain-mark_at o x.addr _ xs rest b.even s.2 (rw off at h)),
        )
  ]
    where
      again : IsBlock v m x → IsBlock v (store m (x.insert - 16) (p + 1)) (record x { mark = true })
      again b = record {
        live = b.live;
        insert_eq = b.insert_eq;
        room = b.room;
        even = b.even;
        ne_null = b.ne_null;
        below = b.below;
      }

      at_header : (w : ℕ) → (store m (x.insert - 16) w).word (x.insert - 16) ≡ w
      at_header w = ground arith

  -- Marking an object of the heap list marks its block and changes nothing else of the list.
  pub mark_block-IsHeap :
      (o : ℕ) (xs : List Block)
      → IsHeap v m xs
      → has o xs ≡ true
      → IsHeap v (mark_block v m o) (mark_at o xs)
  unfolding mark_block set_previous store
  mark_block-IsHeap o xs h at =
      let head_kept =
        SameBlock-store m (insert_address v m o) (previous_pointer v m o / 2 * 2 + 1) cell (
          cell_of_has (λ a. Outside a cell) o xs at (Chain-IsBlock v m _ _ xs h.chain)
            (heads xs (Chain-IsBlock v m _ _ xs h.chain) h.spread)) in
      record {
        chain =
            rw (head_kept.words v.heap_list_head (omega arith) (omega arith))
              (Chain-mark_at o v.heap_list_head _ xs h.chain h.even h.spread at);
        spread = Spread-mark_at v o xs h.spread;
        even = h.even;
        below = h.below;
      }
    where
      -- the cell of the variable heap_list_head
      cell : Block
      cell = record { addr = v.heap_list_head; insert = v.heap_list_head + 1; mark = false }

      heads :
          (ys : List Block)
          → All (IsBlock v m) ys
          → Spread v ys
          → All (λ y. Outside (y.insert - 16) cell) ys
      heads [] bs s = tt
      heads (y ∷ ys) bs s = (omega (arith, bs.0.room, s.0), heads ys bs.1 s.2)
