-- ===== src/Dlmalloc/Alloc/Due.antt =====
-- dlmalloc of dlmalloc.c when it is due to collect.
use precision_gc.Base.{
  ℕ, suc, ◌+◌, ◌/◌, ◌%◌, ◌^◌, ◌≡◌, refl, ap, ◌∙◌, ◌≢◌, ◌≤◌, ◌<◌, arith, true, List, ltb,
}
use precision_gc.Types.{Run, done}
use precision_gc.Trigger.{Accounts, must_collect, long_gt, share}
use precision_gc.Dlmalloc.{Mstate, Mparams}
use precision_gc.Dlmalloc.Segments.{seg}
use precision_gc.Dlmalloc.Stats.{get_heap_size}
use precision_gc.Dlmalloc.Stats.Tally.{
  Piece, IsSegments, every_byte, every_piece, rounds, mallinfo-pieces,
}
use precision_gc.Dlmalloc.Serve.{padded, serve}
use precision_gc.Dlmalloc.Serve.Top.{IsFresh}
use precision_gc.Dlmalloc.Grow.{Os}
use precision_gc.Dlmalloc.Alloc.{collect_and_reset, dlmalloc}
use precision_gc.Dlmalloc.Alloc.Nothing.{serve-nothing}
use precision_gc.Dlmalloc.Alloc.First.{dlmalloc-top}

-- more than a third of the heap
due :
    (a : Accounts Mstate) (n : ℕ)
    → n < 2 ^ 63
    → a.allocated_since_last_gc < 2 ^ 63
    → n / 3 < a.allocated_since_last_gc
    → a.initialised ≡ true
    → must_collect (record a { heap_size = n }) ≡ true
unfolding must_collect long_gt share
due a n heap long more ready =
    let small : ltb n (2 ^ 63) ≡ true = ground (arith, heap) in
    rw (small, ready) (ground (arith, heap, long, more))

module _ (os : Os) (params : Mparams) (gc_collect : Accounts Mstate → Run (Accounts Mstate)) where
  -- A call that finds nothing free, when it is to collect.
  dlmalloc-again :
      (fuel left bytes n : ℕ) (a c : Accounts Mstate)
      → serve fuel bytes a.state ≡ done (0, a.state)
      → get_heap_size fuel a.state ≡ done n
      → must_collect (record a { heap_size = n }) ≡ true
      → gc_collect (record a { heap_size = n }) ≡ done c
      → dlmalloc os params gc_collect fuel (suc left) bytes a
        ≡ dlmalloc os params gc_collect fuel left bytes (record c { allocated_since_last_gc = 0 })
  unfolding dlmalloc collect_and_reset
  dlmalloc-again fuel left bytes n a c nothing measured full collects =
      rw nothing (rw measured (rw full (rw collects refl)))

  -- When all free memory is top and too small for a request below 2^63 bytes, the collector is
  -- initialised, and more than a third of the footprint has been allocated since the last collection,
  -- dlmalloc calls the collector on the state as it is, with the footprint for the heap's size. If that
  -- returns with all free memory in a top that is large enough, dlmalloc returns in its second round: it
  -- takes no memory from the system, the block is at the start of the new top, and the bytes counted as
  -- allocated since are those of this block alone, and 16 more. The footprint and the count are to be
  -- below 2^63, the bytes and the number of all chunks below 2^64, and the fuel is to have a round for
  -- each chunk, one more for each segment and one more.
  pub dlmalloc-due :
      (fuel left bytes : ℕ) (a c : Accounts Mstate) (segs : List (List Piece))
      → IsFresh a.state
      → a.state.top ≢ 0
      → bytes < 2 ^ 63
      → a.state.topsize ≤ padded bytes
      → IsSegments a.state (seg a.state) segs
      → a.state.topsize + 80 + every_byte segs < 2 ^ 64
      → 1 + every_piece segs < 2 ^ 64
      → rounds segs ≤ fuel
      → a.state.footprint < 2 ^ 63
      → a.allocated_since_last_gc < 2 ^ 63
      → a.state.footprint / 3 < a.allocated_since_last_gc
      → a.initialised ≡ true
      → gc_collect (record a { heap_size = a.state.footprint }) ≡ done c
      → IsFresh c.state
      → padded bytes < c.state.topsize
      → (t : Mstate) × (dlmalloc os params gc_collect fuel (suc (suc left)) bytes a
          ≡ done (
            c.state.top + 16,
            record c { state = t; allocated_since_last_gc = (padded bytes + 8) % 2 ^ 64 },
          ))
        × IsFresh t
        × (t.top ≡ c.state.top + padded bytes)
  dlmalloc-due fuel left bytes a c segs fresh has_top few full tiled sizes pieces enough heap long
        more ready collects fresh' room =
      let measured =
        mallinfo-pieces fuel a.state segs has_top tiled sizes pieces enough (omega (arith, heap)) in
      let nothing =
        serve-nothing a.state fresh.no_small fresh.no_trees fresh.no_dv fuel bytes few full in
      let c' = record c { allocated_since_last_gc = 0 } in
      let (t, runs, fresh'', at) =
        dlmalloc-top os params gc_collect fuel left bytes c' fresh' few room in
      (
        t,
        dlmalloc-again fuel (suc left) bytes a.state.footprint a c nothing measured.9
              (due a a.state.footprint heap long more ready) collects
            ∙ runs
            ∙ ap
                (λ n.
                  done (
                    c.state.top + 16,
                    record c { state = t; allocated_since_last_gc = n % 2 ^ 64 },
                  ))
                (omega arith),
        fresh'',
        at,
      )
