-- ===== src/Dlmalloc/Alloc/First.antt =====
-- dlmalloc of dlmalloc.c, whole calls with the collector's bookkeeping: the first one of a program, and
-- calls served from top.
use precision_gc.Base.{
  ℕ, suc, ◌+◌, ◌-◌, ◌*◌, ◌/◌, ◌%◌, ◌^◌, ◌≡◌, refl, ap, ◌∙◌, ◌≤◌, ◌<◌, arith, false, some, ◌==◌,
}
use precision_gc.Types.{Run, done}
use precision_gc.Trigger.{Accounts, must_collect}
use precision_gc.Trigger.Sizes.{request2size-bounds}
use precision_gc.Dlmalloc.{Mstate, Mparams, head}
use precision_gc.Dlmalloc.Segments.{aligned_up}
use precision_gc.Dlmalloc.Stats.{get_heap_size}
use precision_gc.Dlmalloc.Serve.{padded, serve, split_top}
use precision_gc.Dlmalloc.Serve.Top.{
  IsFresh, padded-request2size, nb-bounds, top_heads, serve-split_top, split_top-IsFresh,
}
use precision_gc.Dlmalloc.Grow.{Os}
use precision_gc.Dlmalloc.SysAlloc.{sys_alloc}
use precision_gc.Dlmalloc.SysAlloc.First.{IsZeroed, sys_alloc-first}
use precision_gc.Dlmalloc.Alloc.Nothing.{serve-nothing, get_heap_size-nothing}
use precision_gc.Dlmalloc.Alloc.{dlmalloc_usable_size, charged, dlmalloc}

-- the bytes counted for a chunk of size nb in use
charged-lem :
    (p nb : ℕ) (t : Mstate) (a : Accounts Mstate)
    → nb % 16 ≡ 0
    → 32 ≤ nb
    → head t p ≡ nb + 3
    → charged (p + 16, t) a ≡ (
      p + 16,
      record a {
        state = t;
        allocated_since_last_gc = (a.allocated_since_last_gc + (nb + 8)) % 2 ^ 64;
      },
    )
unfolding charged dlmalloc_usable_size
charged-lem p nb t a even least at =
    let mem : (p + 16 == 0) ≡ false = ground arith in
    let back : p + 16 - 16 ≡ p = omega arith in
    let size : (nb + 3) / 8 * 8 ≡ nb = omega (arith, even) in
    let used : ((nb + 3) % 4 == 1) ≡ false = ground (arith, even) in
    let mapped : ((nb + 3) % 4 == 0) ≡ false = ground (arith, even) in
    let usable : nb - 8 + 16 ≡ nb + 8 = omega (arith, least) in
    rw mem (rw back (rw at (rw used (rw size (rw mapped (rw usable refl))))))

-- What a request from top changes besides the allocator's state is the count of allocated bytes.
abbrev pub counted : ℕ → Mstate → Accounts Mstate → Accounts Mstate
counted nb t a = record a {
  state = t;
  allocated_since_last_gc = (a.allocated_since_last_gc + (nb + 8)) % 2 ^ 64;
}

charged-split_top :
    (s : Mstate) (bytes : ℕ) (a : Accounts Mstate)
    → IsFresh s
    → bytes < 2 ^ 63
    → padded bytes < s.topsize
    → charged (split_top (padded bytes) s) a
      ≡ (s.top + 16, counted (padded bytes) (split_top (padded bytes) s).1 a)
unfolding split_top
charged-split_top s bytes a fresh few fits =
    let bounds = nb-bounds s fresh bytes few fits in
    let heads = top_heads s fresh bytes few fits in
    charged-lem s.top (padded bytes) (split_top (padded bytes) s).1 a bounds.0 bounds.1 heads.0

module _ (os : Os) (params : Mparams) (gc_collect : Accounts Mstate → Run (Accounts Mstate)) where
  -- A call that finds nothing free, when it is not to collect.
  dlmalloc-extend :
      (fuel rounds bytes n : ℕ) (a : Accounts Mstate) (got : ℕ × Mstate)
      → serve fuel bytes a.state ≡ done (0, a.state)
      → must_collect (record a { heap_size = n }) ≡ false
      → get_heap_size fuel a.state ≡ done n
      → sys_alloc os params fuel (padded bytes) n a.state ≡ done got
      → dlmalloc os params gc_collect fuel (suc rounds) bytes a
        ≡ done (charged got (record a { heap_size = n }))
  unfolding dlmalloc
  dlmalloc-extend fuel rounds bytes n a got nothing early measured extended =
      rw nothing (rw measured (rw early (rw extended refl)))

  -- A call that top serves returns, whatever the collector is: the block is at the start of top, no
  -- collection is started, the block with 16 bytes more is counted as allocated, and all free memory is
  -- top again.
  pub dlmalloc-top :
      (fuel rounds bytes : ℕ) (a : Accounts Mstate)
      → IsFresh a.state
      → bytes < 2 ^ 63
      → padded bytes < a.state.topsize
      → (t : Mstate) × (dlmalloc os params gc_collect fuel (suc rounds) bytes a
          ≡ done (a.state.top + 16, counted (padded bytes) t a))
        × IsFresh t
        × (t.top ≡ a.state.top + padded bytes)
  unfolding dlmalloc split_top
  dlmalloc-top fuel rounds bytes a fresh few fits =
      let some : (a.state.top + 16 == 0) ≡ false = ground arith in
      (
        (split_top (padded bytes) a.state).1,
        rw (serve-split_top a.state fresh bytes few fits fuel)
            (rw some (ap done (charged-split_top a.state bytes a fresh few fits))),
        split_top-IsFresh a.state fresh bytes few fits,
        refl,
      )

  -- The first call of a program returns, whatever the collector is, when it is not due to collect and
  -- the system has memory at an aligned address: no collection is started, the heap's size is taken
  -- to be 0, the block is the first of the new memory, and the rest of it is top.
  pub dlmalloc-first :
      (fuel rounds bytes address : ℕ) (a : Accounts Mstate)
      → IsZeroed a.state
      → bytes < 2 ^ 61
      → must_collect (record a { heap_size = 0 }) ≡ false
      → params.granularity ≡ 65536
      → address % 16 ≡ 0
      → os.mmap (aligned_up 65536 (padded bytes + 96)) a.state ≡ some (address, a.state)
      → (t : Mstate) × (dlmalloc os params gc_collect fuel (suc rounds) bytes a
          ≡ done (address + 16, counted (padded bytes) t (record a { heap_size = 0 })))
        × IsFresh t
        × (t.top ≡ address + padded bytes)
        × (t.footprint ≡ (a.state.footprint + (t.topsize + padded bytes + 80)) % 2 ^ 64)
  unfolding split_top
  dlmalloc-first fuel rounds bytes address a zeroed few early unit aligned memory =
      let s = a.state in
      let below : bytes < 2 ^ 63 = omega (arith, few) in
      let size : padded bytes < 2 ^ 62 =
        rw (padded-request2size bytes below)
          (omega (arith, request2size-bounds bytes below, few)) in
      let first =
        sys_alloc-first os params fuel (padded bytes) 0 address a.state zeroed unit size aligned
          memory in
      let call =
        dlmalloc-extend fuel rounds bytes 0 a (split_top (padded bytes) first.0)
          (serve-nothing a.state zeroed.no_small zeroed.no_trees zeroed.no_dv fuel bytes below
            (ground (arith, zeroed.no_topsize)))
          early (get_heap_size-nothing a.state zeroed fuel) first.1 in
      let charge =
        charged-split_top first.0 bytes (record a { heap_size = 0 }) first.2 below first.4 in
      (
        (split_top (padded bytes) first.0).1,
        call
            ∙ ap done (
                charge
                ∙ ap
                    (λ x. (
                      x + 16,
                      counted (padded bytes) (split_top (padded bytes) first.0).1
                          (record a { heap_size = 0 }),
                    ))
                    first.3),
        split_top-IsFresh first.0 first.2 bytes below first.4,
        ap (λ x. x + padded bytes) first.3,
        first.5 ∙ omega (arith, first.4),
      )
