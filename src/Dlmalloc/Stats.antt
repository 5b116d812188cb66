-- ===== src/Dlmalloc/Stats.antt =====
-- internal_mallinfo and internal_malloc_stats of dlmalloc.c, and get_heap_size, which the collector's
-- bookkeeping takes from them.
pub mod Agree
pub mod Tally
use precision_gc.Base.{ℕ, zero, suc, ◌+◌, ◌%◌, ◌^◌, ◌==◌, if◌then◌else◌}
use precision_gc.Types.{Run, done, out_of_fuel, ◌>>=◌}
use precision_gc.Dlmalloc.{Mstate, chunksize, next_chunk, is_inuse, minus64, align_as_chunk}
use precision_gc.Dlmalloc.Segments.{base, next, seg, top_foot_size, is_initialized, is_walked}

-- struct mallinfo; smblks, hblks and fsmblks stay 0.
pub record Mallinfo : Type 0 where
  pub arena : ℕ
  pub ordblks : ℕ
  pub hblkhd : ℕ
  pub usmblks : ℕ
  pub uordblks : ℕ
  pub fordblks : ℕ
  pub keepcost : ℕ

-- the local variables of the walk
pub record Totals : Type 0 where
  pub nfree : ℕ
  pub mfree : ℕ
  pub sum : ℕ

unfoldable pub count_chunk : ℕ → Mstate → Totals → Totals
count_chunk q s t =
    let sz = chunksize s q in
    let counted = record t { sum = (t.sum + sz) % 2 ^ 64 } in
    if is_inuse s q
    then counted
    else record counted { mfree = (t.mfree + sz) % 2 ^ 64; nfree = (t.nfree + 1) % 2 ^ 64 }

unfoldable pub count_chunks : ℕ → ℕ → ℕ → Mstate → Totals → Run Totals
unfolding count_chunk is_walked
count_chunks zero sp q s t = out_of_fuel
count_chunks (suc fuel) sp q s t =
    let later = count_chunks fuel sp (next_chunk s q) s (count_chunk q s t) in
    if is_walked sp q s then later else done t

unfoldable pub count_segments : ℕ → ℕ → Mstate → Totals → Run Totals
unfolding count_chunks
count_segments zero sp s t = out_of_fuel
count_segments (suc fuel) sp s t =
    let chunks = count_chunks fuel sp (align_as_chunk (base s sp)) s t in
    let later = chunks >>= count_segments fuel (next s sp) s in if sp == 0 then done t else later

-- the fields, when the state is initialised
abbrev pub mallinfo_of : Mstate → Totals → Mallinfo
mallinfo_of s t = record {
  arena = t.sum;
  ordblks = t.nfree;
  hblkhd = minus64 s.footprint t.sum;
  usmblks = s.max_footprint;
  uordblks = minus64 s.footprint t.mfree;
  fordblks = t.mfree;
  keepcost = s.topsize;
}

-- the totals that the walk starts with: top is free
abbrev pub top_totals : Mstate → Totals
top_totals s =
    let top_part = (s.topsize + top_foot_size) % 2 ^ 64 in
    record { nfree = 1; mfree = top_part; sum = top_part }

abbrev no_mallinfo : Mallinfo
no_mallinfo = record {
  arena = 0;
  ordblks = 0;
  hblkhd = 0;
  usmblks = 0;
  uordblks = 0;
  fordblks = 0;
  keepcost = 0;
}

unfoldable pub internal_mallinfo : ℕ → Mstate → Run Mallinfo
unfolding count_segments
internal_mallinfo fuel s =
    if is_initialized s
    then (count_segments fuel (seg s) s (top_totals s) >>= λ t. done (mallinfo_of s t))
    else done no_mallinfo

unfoldable pub get_heap_size : ℕ → Mstate → Run ℕ
unfolding internal_mallinfo
get_heap_size fuel s =
    internal_mallinfo fuel s >>= λ stats. done ((stats.uordblks + stats.fordblks) % 2 ^ 64)

unfoldable pub get_allocated_bytes : ℕ → Mstate → Run ℕ
unfolding internal_mallinfo
get_allocated_bytes fuel s = internal_mallinfo fuel s >>= λ stats. done stats.uordblks

-- The walk of internal_malloc_stats, which takes free chunks off `used`.
unfoldable pub use_chunks : ℕ → ℕ → ℕ → Mstate → ℕ → Run ℕ
unfolding is_walked
use_chunks zero sp q s used = out_of_fuel
use_chunks (suc fuel) sp q s used =
    let left = if is_inuse s q then used else minus64 used (chunksize s q) in
    let later = use_chunks fuel sp (next_chunk s q) s left in
    if is_walked sp q s then later else done used

unfoldable pub use_segments : ℕ → ℕ → Mstate → ℕ → Run ℕ
unfolding use_chunks
use_segments zero sp s used = out_of_fuel
use_segments (suc fuel) sp s used =
    let chunks = use_chunks fuel sp (align_as_chunk (base s sp)) s used in
    let later = chunks >>= use_segments fuel (next s sp) s in if sp == 0 then done used else later

-- The three numbers that are printed: the most and the current bytes from the system, and bytes in use.
unfoldable pub internal_malloc_stats : ℕ → Mstate → Run (ℕ × ℕ × ℕ)
unfolding use_segments
internal_malloc_stats fuel s =
    let start = minus64 s.footprint ((s.topsize + top_foot_size) % 2 ^ 64) in
    if is_initialized s
    then (use_segments fuel (seg s) s start >>= λ used. done (s.max_footprint, s.footprint, used))
    else done (0, 0, 0)
