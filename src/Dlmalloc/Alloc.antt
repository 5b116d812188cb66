-- ===== src/Dlmalloc/Alloc.antt =====
-- dlmalloc, dlcalloc and dlmalloc_usable_size of dlmalloc.c, with the collection that an allocation may
-- start. Assertions are compiled out in the build, that no collection is running too.
pub mod Overflow
pub mod Nothing
pub mod First
pub mod Due
use precision_gc.Base.{
  ℕ, zero, suc, ◌+◌, ◌-◌, ◌*◌, ◌/◌, ◌%◌, ◌^◌, ◌&&◌, ◌||◌, not, ltb, ◌==◌, if◌then◌else◌,
}
use precision_gc.Types.{Run, done, abort, out_of_fuel, ◌>>=◌}
use precision_gc.Trigger.{Accounts, must_collect}
use precision_gc.Dlmalloc.{
  Mstate, Mparams, put, is_inuse, is_mmapped, chunksize, overhead_for, mem2chunk,
}
use precision_gc.Dlmalloc.Segments.{max_size}
use precision_gc.Dlmalloc.Stats.{get_heap_size}
use precision_gc.Dlmalloc.Serve.{padded, serve}
use precision_gc.Dlmalloc.Grow.{Os}
use precision_gc.Dlmalloc.SysAlloc.{sys_alloc}

unfoldable pub dlmalloc_usable_size : ℕ → Mstate → ℕ
dlmalloc_usable_size mem s =
    let p = mem2chunk mem in
    if mem == 0 then 0 else if is_inuse s p then chunksize s p - overhead_for s p else 0

-- `allocated_since_last_GC += dlmalloc_usable_size(mem) + 16`, in the state behind the allocation
unfoldable pub charged : ℕ × Mstate → Accounts Mstate → ℕ × Accounts Mstate
unfolding dlmalloc_usable_size
charged (mem, s) a = (
  mem,
  record a {
    state = s;
    allocated_since_last_gc =
        (a.allocated_since_last_gc + (dlmalloc_usable_size mem s + 16)) % 2 ^ 64;
  },
)

-- The request of dlcalloc; SIZE_MAX when the product does not fit.
unfoldable pub product_size : ℕ → ℕ → ℕ
product_size n_elements elem_size =
    let req = n_elements * elem_size % 2 ^ 64 in
    if n_elements == 0
    then 0
    else if (ltb 65535 n_elements || ltb 65535 elem_size) && not (req / n_elements == elem_size)
    then max_size
    else req

-- The first `words` words of 8 bytes from an address on; memset of a request that is no multiple of 8
-- clears a last word in part, which is cleared here as a whole: it belongs to the same chunk.
unfoldable pub zeroed : ℕ → ℕ → Mstate → Mstate
unfolding put
zeroed a zero s = s
zeroed a (suc words) s = put a 0 (zeroed (a + 8) words s)

-- `gc_collect` is the collector, which frees through dlfree and counts its runs.
module _ (os : Os) (params : Mparams) (gc_collect : Accounts Mstate → Run (Accounts Mstate)) where
  -- gc_collect, and the reset behind it
  unfoldable pub collect_and_reset : Accounts Mstate → Run (Accounts Mstate)
  collect_and_reset a = gc_collect a >>= λ c. done (record c { allocated_since_last_gc = 0 })

  -- The loops of a round run on `fuel`; `rounds` bounds the jumps back to attempt_allocation.
  unfoldable pub dlmalloc : ℕ → ℕ → ℕ → Accounts Mstate → Run (ℕ × Accounts Mstate)
  dlmalloc fuel zero bytes a = out_of_fuel
  dlmalloc fuel (suc rounds) bytes a = serve fuel bytes a.state >>= λ found.
      let (mem, s) = found in
      if not (mem == 0)
      then done (charged (mem, s) a)
      else (get_heap_size fuel s >>= λ measured.
          let b = record a { state = s; heap_size = measured } in
          let again = collect_and_reset b >>= dlmalloc fuel rounds bytes in
          let grown =
            sys_alloc os params fuel (padded bytes) measured s >>= λ got. done (charged got b) in
          if must_collect b then again else grown)

  unfoldable pub dlcalloc : ℕ → ℕ → ℕ → ℕ → Accounts Mstate → Run (ℕ × Accounts Mstate)
  dlcalloc fuel rounds n_elements elem_size a =
      let req = product_size n_elements elem_size in
      dlmalloc fuel rounds req a >>= λ got.
      let (mem, b) = got in
      done (
        mem,
        if mem == 0
            then b
            else if is_mmapped b.state (mem2chunk mem)
            then b
            else record b { state = zeroed mem ((req + 7) / 8) b.state },
      )
