-- ===== src/Dlmalloc/Segments.antt =====
-- Segments of dlmalloc.c: the list of records of the memory taken from the system, and the walk over
-- the chunks of a segment that internal_mallinfo and internal_malloc_stats make.
use precision_gc.Base.{
  ℕ, zero, suc, ◌+◌, ◌-◌, ◌*◌, ◌/◌, ◌%◌, ◌^◌, Bool, true, false, ◌&&◌, not, ltb, leb, ◌==◌,
  if◌then◌else◌,
}
use precision_gc.Types.{Run, done, out_of_fuel}
use precision_gc.Dlmalloc.{
  Mstate, Mparams, put, head, set_head, minus64, align_offset, chunk2mem, fencepost_head,
}

-- The fields of struct malloc_segment, and `&m->seg`.
abbrev pub base : Mstate → ℕ → ℕ
base s sp = s.word sp

abbrev pub size : Mstate → ℕ → ℕ
size s sp = s.word (sp + 8)

abbrev pub next : Mstate → ℕ → ℕ
next s sp = s.word (sp + 16)

abbrev pub sflags : Mstate → ℕ → ℕ
sflags s sp = s.word (sp + 24)

abbrev pub seg : Mstate → ℕ
seg s = s.gm + 888

abbrev pub is_mmapped_segment : Mstate → ℕ → Bool
is_mmapped_segment s sp = sflags s sp % 2 == 1

abbrev pub is_extern_segment : Mstate → ℕ → Bool
is_extern_segment s sp = sflags s sp / 8 % 2 == 1

unfoldable pub set_segment : ℕ → ℕ → ℕ → ℕ → ℕ → Mstate → Mstate
unfolding put
set_segment sp base size next sflags s =
    put (sp + 24) sflags (put (sp + 16) next (put (sp + 8) size (put sp base s)))

-- TOP_FOOT_SIZE, SYS_ALLOC_PADDING and MAX_SIZE_T
abbrev pub top_foot_size : ℕ
top_foot_size = 80

abbrev pub sys_alloc_padding : ℕ
sys_alloc_padding = top_foot_size + 16

abbrev pub max_size : ℕ
max_size = 2 ^ 64 - 1

-- page_align and granularity_align, where the unit is a power of two
unfoldable pub aligned_up : ℕ → ℕ → ℕ
aligned_up unit n = (n + (unit - 1)) % 2 ^ 64 / unit * unit

abbrev pub page_align : Mparams → ℕ → ℕ
page_align params n = aligned_up params.page_size n

abbrev pub granularity_align : Mparams → ℕ → ℕ
granularity_align params n = aligned_up params.granularity n

abbrev pub is_initialized : Mstate → Bool
is_initialized s = not (s.top == 0)

abbrev pub segment_holds : Mstate → ℕ → ℕ → Bool
segment_holds s sp a = leb (base s sp) a && ltb a (base s sp + size s sp)

-- The loops over the list of records, from the record sp on.
unfoldable pub holding_from : ℕ → ℕ → ℕ → Mstate → Run ℕ
holding_from zero a sp s = out_of_fuel
holding_from (suc fuel) a sp s =
    let later = holding_from fuel a (next s sp) s in
    if segment_holds s sp a then done sp else if next s sp == 0 then done 0 else later

unfoldable pub segment_holding : ℕ → ℕ → Mstate → Run ℕ
unfolding holding_from
segment_holding fuel a s = holding_from fuel a (seg s) s

unfoldable pub link_from : ℕ → ℕ → ℕ → Mstate → Run Bool
link_from zero ss sp s = out_of_fuel
link_from (suc fuel) ss sp s =
    let later = link_from fuel ss (next s sp) s in
    if segment_holds s ss sp then done true else if next s sp == 0 then done false else later

unfoldable pub has_segment_link : ℕ → ℕ → Mstate → Run Bool
unfolding link_from
has_segment_link fuel ss s = link_from fuel ss (seg s) s

-- Release builds have no assertions at the end of init_top.
unfoldable pub init_top : Mparams → ℕ → ℕ → Mstate → Mstate
unfolding set_head
init_top params p psize s =
    let offset = align_offset (chunk2mem p) in
    let q = p + offset in
    let rest = minus64 psize offset in
    let named = record s { top = q; topsize = rest; trim_check = params.trim_threshold } in
    set_head (q + rest) top_foot_size (set_head q (rest / 2 * 2 + 1) named)

-- the first so many small bins, each a ring of its own
unfoldable pub init_bins_below : ℕ → Mstate → Mstate
unfolding put
init_bins_below zero s = s
init_bins_below (suc n) s =
    let bin = s.gm + 72 + 16 * n in put (bin + 16) bin (put (bin + 24) bin (init_bins_below n s))

unfoldable pub init_bins : Mstate → Mstate
unfolding init_bins_below
init_bins s = init_bins_below 32 s

-- The condition of the walk: q is a chunk of the segment before top and before the fenceposts.
unfoldable pub is_walked : ℕ → ℕ → Mstate → Bool
is_walked sp q s = segment_holds s sp q && not (q == s.top) && not (head s q == fencepost_head)
