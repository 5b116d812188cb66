-- ===== src/Trace/Loop.antt =====
-- The loop of mark_reachable_heap_objects.
use mathlib.Core.List.{Memᴰ}
use mathlib.Core.List.Memᴰ
use precision_gc.Base.{
  ℕ, zero, suc, ◌+◌, ◌<◌, ◌≡◌, refl, ap, ◌∙◌, ◌↔◌, ◌⊎◌, inl, inr, true, false, not, none, List, [],
  ◌∷◌, ◌++◌, arith, length, length-append, All, Bool-cases,
}
use precision_gc.Heap.{Memory, Layout, mark_block}
use precision_gc.Heap.Blocks.{Block, IsHeap}
use precision_gc.Heap.Flags.{has, flagged, mark_at, SameSpots, SameSpots-refl, has-SameSpots}
use precision_gc.Types.{done, Liballocs, process_heap_object_recursive}
use precision_gc.Trace.{dequeue, is_untraced, mark_reachable_heap_objects}
use precision_gc.Trace.Graph.{Foreign, HeapGraph, Reach, root, step}
use precision_gc.Trace.Inv.{
  pending, pending-mark_at, Calm, Reached, Alien, Inv, untraced-flagged, untraced-Alien, Inv-skip,
  rescan, Inv-mark, children-Points,
}

module _ (v : Layout) (m₀ : Memory) (xs₀ : List Block) (lib : Liballocs) (bigallocs : List ℕ)
    (depth : ℕ) (graph : HeapGraph v m₀ xs₀ lib bigallocs depth) (roots : List ℕ) where
  open graph use {children, scans, valid, clear}

  mark_skip :
      (fuel : ℕ) (m : Memory) (o : ℕ) (queue : List ℕ)
      → is_untraced v m o ≡ false
      → mark_reachable_heap_objects v lib bigallocs depth (suc fuel) m (o ∷ queue)
        ≡ mark_reachable_heap_objects v lib bigallocs depth fuel m queue
  unfolding mark_reachable_heap_objects dequeue
  mark_skip fuel m o queue e = rw (e, mark_reachable_heap_objects) refl

  mark_step :
      (fuel : ℕ) (m : Memory) (o : ℕ) (queue found : List ℕ)
      → is_untraced v m o ≡ true
      → process_heap_object_recursive lib bigallocs m depth o none (o ∷ queue) ≡ done (o ∷ found)
      → mark_reachable_heap_objects v lib bigallocs depth (suc fuel) m (o ∷ queue)
        ≡ mark_reachable_heap_objects v lib bigallocs depth fuel (mark_block v m o) found
  unfolding mark_reachable_heap_objects dequeue
  mark_step fuel m o queue found e scan = rw (e, mark_reachable_heap_objects) (rw scan refl)

  mark_loop :
      (fuel : ℕ) (m : Memory) (xs : List Block) (queue : List ℕ)
      → Inv v m₀ xs₀ lib bigallocs depth graph roots m xs queue
      → length queue + pending children xs < fuel
      → (n : Memory) × (ys : List Block) × (mark_reachable_heap_objects v lib bigallocs depth fuel m
            queue
          ≡ done n)
        × Inv v m₀ xs₀ lib bigallocs depth graph roots n ys []
  unfolding mark_reachable_heap_objects dequeue
  mark_loop zero m xs queue inv h = absurd (omega arith)
  mark_loop (suc fuel) m xs [] inv h = (m, xs, refl, inv)
  mark_loop (suc fuel) m xs (o ∷ queue) inv h = elim (inv.known o (Memᴰ.head refl)) [
    | inr alien ↦
        let (n, ys, ends, out) =
          mark_loop fuel m xs queue
            (Inv-skip v m₀ xs₀ lib bigallocs depth graph roots m xs queue o inv (inr alien))
            (omega arith) in
        (
          n,
          ys,
          mark_skip fuel m o queue
                (untraced-Alien v m₀ xs₀ lib bigallocs depth graph roots m o inv.calm alien)
              ∙ ends,
          out,
        )
    | inl here ↦ elim (Bool-cases (flagged o xs)) [
      | inl on ↦
          let (n, ys, ends, out) =
            mark_loop fuel m xs queue
              (Inv-skip v m₀ xs₀ lib bigallocs depth graph roots m xs queue o inv (inl on))
              (omega arith) in
          (
            n,
            ys,
            mark_skip fuel m o queue (
                  untraced-flagged v m₀ xs₀ lib bigallocs depth graph roots m xs (o ∷ queue) o inv
                    here
                  ∙ ap not on)
                ∙ ends,
            out,
          )
      | inr off ↦
          let less = pending-mark_at children o xs (has-SameSpots o xs xs₀ inv.spots ∙ here) off in
          let (n, ys, ends, out) =
            mark_loop fuel (mark_block v m o) (mark_at o xs) (queue ++ children o)
              (Inv-mark v m₀ xs₀ lib bigallocs depth graph roots m xs queue o inv here)
              (omega (arith, less, length-append queue (children o))) in
          (
            n,
            ys,
            mark_step fuel m o queue (queue ++ children o)
                  (untraced-flagged v m₀ xs₀ lib bigallocs depth graph roots m xs (o ∷ queue) o inv
                      here
                    ∙ ap not off)
                  (rescan v m₀ xs₀ lib bigallocs depth graph roots m o (o ∷ queue) inv.calm here)
                ∙ ends,
            out,
          )
    ]
  ]

  -- with an empty queue, what is reachable is marked or foreign
  Reach-marked :
      (m : Memory) (xs : List Block)
      → Inv v m₀ xs₀ lib bigallocs depth graph roots m xs []
      → (p : ℕ) → Reached v m₀ xs₀ lib bigallocs depth graph roots p
      → (flagged p xs ≡ true) ⊎ Alien v m₀ xs₀ lib bigallocs depth graph roots p
  Reach-marked m xs inv p (root at) = elim (inv.rooted p at) [
    | inl q ↦ absurd (Memᴰ.not-nil q)
    | inr seen ↦ seen
  ]
  Reach-marked m xs inv p (step {o} r here at) = elim (Reach-marked m xs inv o r) [
    | inr alien ↦ cc (alien.absent)
    | inl on ↦
        elim (inv.closed o p on
          ((children-Points v m₀ xs₀ lib bigallocs depth graph roots o p here).1 at)) [
            | inl q ↦ absurd (Memᴰ.not-nil q)
            | inr seen ↦ seen
          ]
  ]

unmarked-flagged : (xs : List Block) (p : ℕ) → All (λ x. x.mark ≡ false) xs → flagged p xs ≡ false
unmarked-flagged [] p h = refl
unmarked-flagged (x ∷ xs) p h = ground (arith, unmarked-flagged xs p h.1)

-- Started with no block marked and with roots that are listed or foreign objects, and given fuel for
-- the roots and all children and one more round, the traversal returns, if the scan of every listed
-- object returns (so none has an unknown type or an array of unknown length), every pointer to a heap
-- object is that of a listed or a foreign object, and no pointer field of a listed object is a block's
-- previous pointer. The heap list then has the same blocks in the same order, exactly those marked that
-- are reachable from the roots by the pointer fields that their types tell, arrays inside structures
-- left out, and memory has changed only in previous pointers of the listed blocks.
pub mark_reachable-Reach :
    (v : Layout) (m : Memory) (xs : List Block) (lib : Liballocs) (bigallocs : List ℕ) (depth : ℕ)
    (graph : HeapGraph v m xs lib bigallocs depth) (roots : List ℕ) (fuel : ℕ)
    → IsHeap v m xs
    → All (λ x. x.mark ≡ false) xs
    → ((p : ℕ) → Memᴰ p roots → (has p xs ≡ true) ⊎ Foreign v m xs p)
    → length roots + pending graph.children xs < fuel
    → (n : Memory) × (ys : List Block) × (mark_reachable_heap_objects v lib bigallocs depth fuel m
          roots
        ≡ done n)
      × IsHeap v n ys
      × SameSpots ys xs
      × ((p : ℕ)
          → has p xs ≡ true
          → (flagged p ys ≡ true) ↔ Reach v m xs lib bigallocs (λ q. Memᴰ q roots) p)
      × Calm m n xs
mark_reachable-Reach v m xs lib bigallocs depth graph roots fuel heap clean known enough =
    let none_yet = λ (p : ℕ). unmarked-flagged xs p clean in
    let start : Inv v m xs lib bigallocs depth graph roots m xs roots = record {
      heap = heap;
      spots = SameSpots-refl xs;
      calm = record { words = λ a h. refl; usable = λ q. refl; live = λ q. refl };
      known = known;
      queued = λ p at. root at;
      sound = λ p on. cc (none_yet p);
      closed = λ o p on at. cc (none_yet o);
      rooted = λ p at. inl at;
    } in
    let (n, ys, ends, out) =
      mark_loop v m xs lib bigallocs depth graph roots fuel m xs roots start enough in
    (
      n,
      ys,
      ends,
      out.heap,
      out.spots,
      λ p here. (
        out.sound p,
        λ r. elim (Reach-marked v m xs lib bigallocs depth graph roots n ys out p r) [
          | inl on ↦ on
          | inr alien ↦ cc (alien.absent)
        ],
      ),
      out.calm,
    )
