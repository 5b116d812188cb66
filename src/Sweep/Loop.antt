-- ===== src/Sweep/Loop.antt =====
-- The loop of sweep.
use precision_gc.Base.{
  ℕ, zero, suc, ◌-◌, ◌<◌, ◌≡◌, refl, inl, inr, false, some, List, [], ◌∷◌, arith, length, All,
  if◌then◌else◌, ==_ne, Bool-cases,
}
use precision_gc.Heap.{Memory, Layout, store}
use precision_gc.Heap.Blocks.{Block, Apart, Spread, Chain, IsHeap, UserSame, Spread-Outside}
use precision_gc.Sweep.{sweep_loop, sweep}
use precision_gc.Sweep.Free.{FreeLaws}
use precision_gc.Sweep.Anchor.{Anchor, relinked}
use precision_gc.Sweep.Drop.{drop_Dropped}
use precision_gc.Sweep.Keep.{cleared-Chain, cleared-Anchor, sweep_round-kept, sweep_round-dropped}
use precision_gc.Sweep.Swept.{
  survivors, garbage, Swept, All-survivors, Swept-nil, Swept-Dropped, Swept-kept,
}

Spread-survivors : (v : Layout) (xs : List Block) → Spread v xs → Spread v (survivors xs)
Spread-survivors v [] s = tt
Spread-survivors v (x ∷ xs) (o, far, s) = elim (Bool-cases x.mark) [
  | inl on ↦ rw on (o, All-survivors (Apart x) (λ y h. h) xs far, Spread-survivors v xs s)
  | inr off ↦ rw off (Spread-survivors v xs s)
]

module _ (v : Layout) (free : ℕ → Memory → Memory) (laws : FreeLaws v free) where
  -- Enough fuel is one more than the blocks left.
  sweep_loop_lem :
      (fuel : ℕ) (m : Memory) (p l : ℕ) (xs : List Block)
      → Chain v m p (m.word l) xs
      → Spread v xs
      → Anchor v m p l xs
      → length xs < fuel
      → (n : Memory) × (sweep_loop v free fuel
            (record { previous = p; current = m.word l; memory = m })
          ≡ some n)
        × Swept v m n p l xs
  unfolding sweep_loop
  sweep_loop_lem zero m p l xs chain spread anchor h = absurd (omega arith)
  sweep_loop_lem (suc fuel) m p l [] chain spread anchor h =
      (m, rw chain refl, Swept-nil v m p l chain)
  sweep_loop_lem (suc fuel) m p l (x ∷ xs) chain spread anchor h = elim (Bool-cases x.mark) [
    | inl on ↦
        let m' = store m (x.insert - 16) p in
        let (n, ends, s) =
          sweep_loop_lem fuel m' x.addr (x.insert - 8) xs
            (cleared-Chain v m p l x xs chain spread anchor) spread.2
            (cleared-Anchor v m p l x xs chain spread anchor) (omega arith) in
        (
          n,
          rw
              (
                chain.0,
                ==_ne _ _ chain.1.ne_null,
                sweep_round-kept v m p l x xs chain spread anchor free on,
              )
              ends,
          Swept-kept v m p l x xs chain spread anchor n s on,
        )
    | inr off ↦
        let d = drop_Dropped v free laws m p l x xs chain spread anchor in
        let m' = free x.addr (relinked p xs (store m l (m.word (x.insert - 8)))) in
        let (n, ends, s) =
          sweep_loop_lem fuel m' p l xs (rw d.at d.chain) spread.2 d.anchor (omega arith) in
        (
          n,
          rw
              (
                chain.0,
                ==_ne _ _ chain.1.ne_null,
                sweep_round-dropped v m p l x xs chain spread anchor free off,
              )
              (rw d.at at ends),
          Swept-Dropped v m p l x xs chain spread anchor m' n off d s,
        )
  ]

  -- Run on a well formed heap list with one round of fuel more than it has blocks, sweep returns. The
  -- list then holds exactly the marked blocks, in the same order, with their marks cleared; exactly
  -- the unmarked blocks have been freed; and the program's bytes in every surviving block are as they
  -- were.
  pub sweep-survivors :
      (m : Memory) (xs : List Block) (fuel : ℕ)
      → IsHeap v m xs
      → length xs < fuel
      → (n : Memory) × (sweep v free fuel m ≡ some n)
        × IsHeap v n (survivors xs)
        × ((q : ℕ) → n.live q ≡ (if garbage q xs then false else m.live q))
        × All (UserSame m n) (survivors xs)
  unfolding sweep
  sweep-survivors m xs fuel h enough =
      let head = v.heap_list_head in
      let anchor : Anchor v m head head xs = record {
        even = h.even;
        outside = Spread-Outside v xs h.spread;
        place = inl (refl, refl);
      } in
      let (n, ends, s) = sweep_loop_lem fuel m head head xs h.chain h.spread anchor enough in
      (
        n,
        ends,
        record {
          chain = s.chain;
          spread = Spread-survivors v xs h.spread;
          even = h.even;
          below = h.below;
        },
        s.live,
        s.user,
      )
