-- ===== src/Collect/Whole.antt =====
-- A collection, gc_collect from end to end.
use mathlib.Core.List.{Memᴰ}
use precision_gc.Base.{
  ℕ, ◌+◌, ◌%◌, ◌^◌, ◌*◌, ◌<◌, ◌≡◌, refl, sym, ◌∙◌, ◌↔◌, ◌⊎◌, inl, inr, true, false, List, [], arith,
  length, All, if◌then◌else◌,
}
use precision_gc.Heap.{Memory, Layout}
use precision_gc.Heap.Blocks.{Block, IsHeap, UserSame, Chain-IsBlock}
use precision_gc.Heap.Flags.{has, flagged, has-SameSpots, has_of_flagged, SameSpots}
use precision_gc.Sweep.Free.{FreeLaws}
use precision_gc.Sweep.Swept.{survivors, garbage}
use precision_gc.Sweep.Loop.{sweep-survivors}
use precision_gc.Types.{done, Liballocs}
use precision_gc.Trace.Graph.{HeapGraph, Reach, Reach-mono}
use precision_gc.Trace.Inv.{pending, Calm}
use precision_gc.Trace.Loop.{mark_reachable-Reach}
use precision_gc.Collect.{RootSet, Collector, Fuel, gc_collect}
use precision_gc.Collect.RootScan.{IsRoot, IsScannable, scan_roots-IsRoot}
use precision_gc.Collect.Outcome.{
  has-survivors, survivors_clean, garbage-flagged, Calm-user, UserSame-SameSpots, kept_bytes,
  length-SameSpots,
}

-- What a collection makes of memory `m` with the blocks `xs`: a heap list `zs` of unmarked blocks,
-- those that are reachable; the others given back; and the program's bytes as they were.
pub record Collected (v : Layout) (m n : Memory) (xs zs : List Block) (Live : ℕ → Type 0)
    : Type 0 where
  pub heap : IsHeap v n zs
  pub clean : All (λ z. z.mark ≡ false) zs
  pub kept : (p : ℕ) → has p xs ≡ true → (has p zs ≡ true) ↔ Live p
  pub only : (p : ℕ) → has p zs ≡ true → has p xs ≡ true
  pub freed : (p : ℕ) → has p xs ≡ true → has p zs ≡ false → n.live p ≡ false
  pub held : (p : ℕ) → (has p xs ≡ false) ⊎ (has p zs ≡ true) → n.live p ≡ m.live p
  pub user : All (UserSame m n) zs

after_sweep :
    (v : Layout) (m n k : Memory) (xs ys : List Block) (Live : ℕ → Type 0)
    → IsHeap v m xs
    → IsHeap v n ys
    → SameSpots ys xs
    → Calm m n xs
    → ((p : ℕ) → has p xs ≡ true → (flagged p ys ≡ true) ↔ Live p)
    → IsHeap v k (survivors ys)
    → ((q : ℕ) → k.live q ≡ (if garbage q ys then false else n.live q))
    → All (UserSame n k) (survivors ys)
    → Collected v m k xs (survivors ys) Live
after_sweep v m n k xs ys Live before between spots calm exact heap live user =
    let left = λ (p : ℕ). has-survivors p ys in
    let same = λ (p : ℕ). has-SameSpots p ys xs spots in
    let lost =
      λ (p : ℕ). garbage-flagged v n p ys (Chain-IsBlock v n _ _ ys between.chain) between.spread in
    record {
      heap = heap;
      clean = survivors_clean ys;
      kept = λ p here. rw (has-survivors p ys) (exact p here);
      only = λ p at. sym (same p) ∙ has_of_flagged p ys (sym (left p) ∙ at);
      freed = λ p here gone. live p ∙ ground (arith, left p, same p, lost p);
      held = λ p w. live p ∙ elim w [
        | inl absent ↦ ground (arith, same p, lost p, calm.live p)
        | inr at ↦ ground (arith, left p, lost p, calm.live p)
      ];
      user =
          kept_bytes m n k ys
            (UserSame-SameSpots m n ys xs spots
              (Calm-user v m n xs (Chain-IsBlock v m _ _ xs before.chain) before.spread calm))
            user;
    }

-- A collection that starts with an empty queue and no block marked, that is given rounds for every
-- word of the root ranges, for the root pointers with all children, and for the blocks of the list,
-- returns under these conditions: the stack has been found; the scan of every listed object returns, so
-- none has an unknown type or an array of unknown length; every pointer to a heap object is that of a
-- listed or a foreign object; no pointer field of a listed object is a block's previous pointer; and
-- myfree keeps its contract. The blocks then on the heap list are exactly those reachable from the
-- registers, the stack, .data and .bss by the pointer fields that types tell, arrays inside structures
-- left out, unmarked again, with the bytes of the program as they were; every other block of the list
-- has been freed and nothing else has; the queue is empty, the collection is counted and it is no
-- longer running.
pub gc_collect-Reach :
    (v : Layout) (lib : Liballocs) (free : ℕ → Memory → Memory) (fuel : Fuel) (r : RootSet)
    (s : Collector) (xs : List Block) (words : ℕ)
    (graph : HeapGraph v s.memory xs lib s.bigallocs fuel.depth)
    → FreeLaws v free
    → IsScannable r fuel words
    → IsHeap v s.memory xs
    → All (λ x. x.mark ≡ false) xs
    → s.queue ≡ []
    → 16 + 3 * words + pending graph.children xs < fuel.mark
    → length xs < fuel.sweep
    → (t : Collector) × (zs : List Block) × (gc_collect v lib free fuel r s ≡ done t)
      × Collected v s.memory t.memory xs zs
          (Reach v s.memory xs lib s.bigallocs (IsRoot v lib s.bigallocs r s.memory))
      × (t.queue ≡ [])
      × (t.num_collections ≡ (s.num_collections + 1) % 2 ^ 32)
      × (t.running ≡ false)
unfolding gc_collect
gc_collect-Reach v lib free fuel r s xs words graph laws ok heap clean idle enough room =
    let (roots, scans, exact, size) =
      scan_roots-IsRoot v lib free fuel r s.bigallocs s.memory words ok in
    let (n, ys, marks, between, spots, reach, calm) =
      mark_reachable-Reach v s.memory xs lib s.bigallocs fuel.depth graph roots fuel.mark heap clean
        (λ p at. graph.valid p ((exact p).0 at).0) (omega arith) in
    let (k, sweeps, after, live, user) =
      sweep-survivors v free laws n ys fuel.sweep between
        (omega (arith, length-SameSpots ys xs spots)) in
    (
      record s { memory = k; num_collections = (s.num_collections + 1) % 2 ^ 32; running = false },
      survivors ys,
      rw (idle, scans, marks, sweeps) refl,
      after_sweep v s.memory n k xs ys
          (Reach v s.memory xs lib s.bigallocs (IsRoot v lib s.bigallocs r s.memory)) heap between
          spots calm
          (λ p here. (
            λ on.
                Reach-mono v s.memory xs lib s.bigallocs (λ q. Memᴰ q roots)
                  (IsRoot v lib s.bigallocs r s.memory) (λ q. (exact q).0) p ((reach p here).0 on),
            λ at. (reach p here).1 (
                Reach-mono v s.memory xs lib s.bigallocs (IsRoot v lib s.bigallocs r s.memory)
                  (λ q. Memᴰ q roots) (λ q. (exact q).1) p at),
          ))
          after live user,
      idle,
      refl,
      refl,
    )
