-- ===== src/Dlmalloc/SysAlloc.antt =====
-- sys_alloc of dlmalloc.c, without MORECORE, as the build has none.
pub mod First
use precision_gc.Base.{
  ℕ, zero, suc, ◌+◌, ◌%◌, ◌^◌, Bool, ◌&&◌, not, none, some, ltb, leb, ◌==◌, if◌then◌else◌,
}
use precision_gc.Types.{Run, done, out_of_fuel, ◌>>=◌}
use precision_gc.Trigger.{grown_size}
use precision_gc.Dlmalloc.{Mstate, Mparams, put, minus64}
use precision_gc.Dlmalloc.Serve.{split_top}
use precision_gc.Dlmalloc.Segments.{
  base, size, next, sflags, seg, is_extern_segment, top_foot_size, sys_alloc_padding,
  granularity_align, is_initialized, segment_holds, init_top, init_bins,
}
use precision_gc.Dlmalloc.Grow.{
  Os, over_limit, add_footprint, lower_least, mmap_alloc, add_segment, prepend_alloc,
}

-- The loops for a segment that ends at `a`, and for one that starts there, from the record sp on.
unfoldable pub ending_at : ℕ → ℕ → ℕ → Mstate → Run ℕ
ending_at zero a sp s = out_of_fuel
ending_at (suc fuel) a sp s =
    let later = ending_at fuel a (next s sp) s in
    if sp == 0 then done 0 else if a == base s sp + size s sp then done sp else later

unfoldable pub starting_at : ℕ → ℕ → ℕ → Mstate → Run ℕ
starting_at zero a sp s = out_of_fuel
starting_at (suc fuel) a sp s =
    let later = starting_at fuel a (next s sp) s in
    if sp == 0 then done 0 else if base s sp == a then done sp else later

module _ (os : Os) (params : Mparams) where
  -- `!is_extern_segment(sp) && (sp->sflags & USE_MMAP_BIT) == mmap_flag`, with the flag set
  unfoldable pub is_mergeable : ℕ → Mstate → Bool
  is_mergeable sp s = not (sp == 0) && not (is_extern_segment s sp) && (sflags s sp % 2 == 1)

  -- The first memory from the system. The record's `next` is 0 since the program started.
  unfoldable pub first_segment : ℕ → ℕ → Mstate → Mstate
  first_segment tbase tsize s =
      let sp = seg s in
      let named = put (sp + 24) 1 (put (sp + 8) tsize (put sp tbase (lower_least tbase s))) in
      init_top params tbase (minus64 tsize top_foot_size)
        (init_bins (record named { release_checks = 4095 }))

  -- No segment to append to: the new memory goes before an old segment, or is one of its own.
  unfoldable pub prepend_or_add : ℕ → ℕ → ℕ → ℕ → Mstate → Run (ℕ × Mstate)
  prepend_or_add fuel tbase tsize nb s =
      let low = if ltb tbase s.least_addr then record s { least_addr = tbase } else s in
      starting_at fuel (tbase + tsize) (seg s) low >>= λ sp.
      if is_mergeable sp low
      then prepend_alloc os params fuel tbase (base low sp) nb
          (put (sp + 8) ((size low sp + tsize) % 2 ^ 64) (put sp tbase low))
      else (add_segment os params fuel tbase tsize 1 low >>= λ t. done (0, t))

  -- Add the new memory to what there is. A pointer other than 0 is the answer to the request.
  unfoldable pub merge_segment : ℕ → ℕ → ℕ → ℕ → Mstate → Run (ℕ × Mstate)
  merge_segment fuel tbase tsize nb s = ending_at fuel tbase (seg s) s >>= λ sp.
      if is_mergeable sp s && segment_holds s sp s.top
      then done (
        0,
        init_top params s.top ((s.topsize + tsize) % 2 ^ 64)
            (put (sp + 8) ((size s sp + tsize) % 2 ^ 64) s),
      )
      else prepend_or_add fuel tbase tsize nb s

  -- what follows a successful mmap
  unfoldable pub use_memory : ℕ → ℕ → ℕ → ℕ → Mstate → Run (ℕ × Mstate)
  use_memory fuel tbase tsize nb s =
      let counted = add_footprint tsize s in
      (if is_initialized s
        then merge_segment fuel tbase tsize nb counted
        else done (0, first_segment tbase tsize counted))
      >>= λ placed.
          let (mem, t) = placed in
          done (
            if not (mem == 0)
            then (mem, t)
            else if ltb nb t.topsize
            then split_top nb t
            else (0, t))

  -- `!is_initialized` leaves the padded size; later the heap grows by a share of heap_size.
  unfoldable pub asked_size : ℕ → ℕ → Mstate → ℕ
  unfolding grown_size
  asked_size nb heap_size s =
      if is_initialized s
      then grown_size heap_size nb
      else granularity_align params (nb + sys_alloc_padding)

  -- the part of sys_alloc behind the attempt to map the chunk by itself
  unfoldable pub extend_heap : ℕ → ℕ → ℕ → Mstate → Run (ℕ × Mstate)
  extend_heap fuel nb heap_size s =
      let asize = granularity_align params (nb + sys_alloc_padding) in
      if leb asize nb
      then done (0, s)
      else if over_limit asize s
      then done (0, s)
      else elim (os.mmap (asked_size nb heap_size s) s) [
        | none ↦ done (0, s)
        | some (mp, t) ↦ use_memory fuel mp (asked_size nb heap_size s) nb t
      ]

  unfoldable pub sys_alloc : ℕ → ℕ → ℕ → Mstate → Run (ℕ × Mstate)
  sys_alloc fuel nb heap_size s =
      let direct = s.mflags % 2 == 1 && leb params.mmap_threshold nb && not (s.topsize == 0) in
      let (mem, t) = if direct then mmap_alloc os params nb s else (0, s) in
      if not (mem == 0) then done (mem, t) else extend_heap fuel nb heap_size t
