-- ===== src/Dlmalloc/Api.antt =====
-- The exported calls of dlmalloc.c that pass on to its components, and the two getters of gc.c on top of
-- its statistics. The parameters are taken to be initialised.
use precision_gc.Base.{ℕ}
use precision_gc.Types.{Run}
use precision_gc.Trigger.{Accounts}
use precision_gc.Dlmalloc.{Mstate, Mparams}
use precision_gc.Dlmalloc.Grow.{Os}
use precision_gc.Dlmalloc.Stats.{Mallinfo, internal_mallinfo, internal_malloc_stats, get_heap_size}
use precision_gc.Dlmalloc.Release.{sys_trim}
use precision_gc.Dlmalloc.Bulk.{ialloc, internal_bulk_free}
use precision_gc.Dlmalloc.Params.{change_mparam}

abbrev pub dlmalloc_footprint : Mstate → ℕ
dlmalloc_footprint s = s.footprint

abbrev pub dlmalloc_max_footprint : Mstate → ℕ
dlmalloc_max_footprint s = s.max_footprint

unfoldable pub dlmallinfo : ℕ → Mstate → Run Mallinfo
unfolding internal_mallinfo
dlmallinfo fuel s = internal_mallinfo fuel s

unfoldable pub dlmalloc_stats : ℕ → Mstate → Run (ℕ × ℕ × ℕ)
unfolding internal_malloc_stats
dlmalloc_stats fuel s = internal_malloc_stats fuel s

unfoldable pub dlmallopt : ℕ → ℕ → Mparams → ℕ × Mparams
unfolding change_mparam
dlmallopt param_number value params = change_mparam param_number value params

abbrev pub gc_num_collections : Accounts Mstate → ℕ
gc_num_collections a = a.collections

unfoldable pub gc_heap_size : ℕ → Accounts Mstate → Run ℕ
unfolding get_heap_size
gc_heap_size fuel a = get_heap_size fuel a.state

module _ (os : Os) (params : Mparams) where
  unfoldable pub dlmalloc_trim : ℕ → ℕ → Mstate → Run (ℕ × Mstate)
  unfolding sys_trim
  dlmalloc_trim fuel pad s = sys_trim os params fuel pad s

  unfoldable pub dlbulk_free : ℕ → ℕ → ℕ → Mstate → Run Mstate
  unfolding internal_bulk_free
  dlbulk_free fuel array nelem s = internal_bulk_free os params fuel array nelem s

  module _ (gc_collect : Accounts Mstate → Run (Accounts Mstate)) where
    -- `opts` is 3: all elements have one size and are cleared.
    unfoldable pub dlindependent_calloc :
        ℕ → ℕ → ℕ → ℕ → ℕ → Accounts Mstate → Run (ℕ × Accounts Mstate)
    unfolding ialloc
    dlindependent_calloc fuel rounds n_elements elem_size chunks a =
        ialloc os params gc_collect fuel rounds n_elements (λ i. elem_size) 3 chunks a

    unfoldable pub dlindependent_comalloc :
        ℕ → ℕ → ℕ → (ℕ → ℕ) → ℕ → Accounts Mstate → Run (ℕ × Accounts Mstate)
    unfolding ialloc
    dlindependent_comalloc fuel rounds n_elements sizes chunks a =
        ialloc os params gc_collect fuel rounds n_elements sizes 0 chunks a
