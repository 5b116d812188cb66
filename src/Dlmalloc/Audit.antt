-- ===== src/Dlmalloc/Audit.antt =====
-- The checks of dlmalloc.c of whole bins and of the whole state, in debugging builds.
use precision_gc.Base.{
  ℕ, zero, suc, ◌+◌, ◌%◌, ◌^◌, Bool, true, false, ◌||◌, not, ltb, leb, ◌==◌, if◌then◌else◌,
}
use precision_gc.Types.{Run, done, out_of_fuel, ◌>>=◌}
use precision_gc.Dlmalloc.{
  Mstate, Mparams, assert, head, fd, bk, child, pinuse, is_inuse, chunksize, next_chunk,
  align_as_chunk, fencepost_head,
}
use precision_gc.Dlmalloc.Bins.{
  is_small, small_index, smallbin_at, treebin_at, compute_tree_index, leftshift_for_tree_index,
  smallmap_is_marked, treemap_is_marked,
}
use precision_gc.Dlmalloc.Tree.{top_bit, shifted}
use precision_gc.Dlmalloc.Segments.{base, next, seg, top_foot_size, is_initialized, is_walked}
use precision_gc.Dlmalloc.Checks.{
  ◌also◌, do_check_any_chunk, do_check_top_chunk, do_check_inuse_chunk, do_check_free_chunk,
  do_check_treebin,
}

-- a chunk of the small bin b with index i, and the chunk behind it
unfoldable pub check_small_node : Mparams → ℕ → ℕ → ℕ → Mstate → Run Unit
unfolding do_check_free_chunk do_check_inuse_chunk
check_small_node params i b p s =
    let q = next_chunk s p in
    do_check_free_chunk p s
    also assert (small_index (chunksize s p) == i)
    also assert (bk s p == b || (chunksize s (bk s p) == chunksize s p))
    also (if head s q == fencepost_head then done tt else do_check_inuse_chunk params q s)

unfoldable pub check_small_nodes : Mparams → ℕ → ℕ → ℕ → ℕ → Mstate → Run Unit
unfolding check_small_node
check_small_nodes params zero i b p s = out_of_fuel
check_small_nodes params (suc fuel) i b p s =
    let later = check_small_node params i b p s also check_small_nodes params fuel i b (bk s p) s in
    if p == b then done tt else later

unfoldable pub do_check_smallbin : Mparams → ℕ → ℕ → Mstate → Run Unit
unfolding smallmap_is_marked check_small_nodes
do_check_smallbin params fuel i s =
    let b = smallbin_at s i in
    let p = bk s b in
    let empty = not (smallmap_is_marked i s) in
    assert (not (p == b) || empty)
    also (if empty then done tt else check_small_nodes params fuel i b p s)

-- The loops of bin_find: along the ring from p back to `stop`, and down a tree to a size.
unfoldable pub on_ring : ℕ → ℕ → ℕ → ℕ → Mstate → Run Bool
on_ring zero stop p x s = out_of_fuel
on_ring (suc fuel) stop p x s =
    let later = on_ring fuel stop (fd s p) x s in
    if p == x then done true else if fd s p == stop then done false else later

unfoldable pub find_size : ℕ → ℕ → ℕ → ℕ → Mstate → Run ℕ
find_size zero size sizebits t s = out_of_fuel
find_size (suc fuel) size sizebits t s =
    let deeper = find_size fuel size (shifted sizebits 1) (child s t (top_bit sizebits)) s in
    if t == 0 then done 0 else if chunksize s t == size then done t else deeper

unfoldable pub bin_find : ℕ → ℕ → Mstate → Run Bool
unfolding smallmap_is_marked treemap_is_marked compute_tree_index leftshift_for_tree_index on_ring
    find_size
bin_find fuel x s =
    let size = chunksize s x in
    let sidx = small_index size in
    let b = smallbin_at s sidx in
    let tidx = compute_tree_index size in
    let in_tree =
      find_size fuel size (shifted size (leftshift_for_tree_index tidx))
        (s.word (treebin_at s tidx)) s
      >>= λ t. if t == 0 then done false else on_ring fuel t t x s in
    if is_small size
    then (if smallmap_is_marked sidx s then on_ring fuel b b x s else done false)
    else if treemap_is_marked tidx s
    then in_tree
    else done false

-- a chunk q of a walk, the one before being lastq or 0
unfoldable pub check_walked : Mparams → ℕ → ℕ → ℕ → Mstate → Run Unit
unfolding bin_find do_check_inuse_chunk do_check_free_chunk
check_walked params fuel lastq q s = bin_find fuel q s >>= λ found.
    if is_inuse s q
    then assert (not found) also do_check_inuse_chunk params q s
    else assert (q == s.dv || found)
      also assert (lastq == 0 || is_inuse s lastq)
      also do_check_free_chunk q s

unfoldable pub walk_chunks : Mparams → ℕ → ℕ → ℕ → ℕ → ℕ → Mstate → Run ℕ
unfolding is_walked check_walked
walk_chunks params zero sp lastq q sum s = out_of_fuel
walk_chunks params (suc fuel) sp lastq q sum s =
    let later = check_walked params fuel lastq q s >>= λ checked.
    walk_chunks params fuel sp q (next_chunk s q) ((sum + chunksize s q) % 2 ^ 64) s in
    if is_walked sp q s then later else done sum

unfoldable pub walk_segments : Mparams → ℕ → ℕ → ℕ → Mstate → Run ℕ
unfolding walk_chunks
walk_segments params zero sp sum s = out_of_fuel
walk_segments params (suc fuel) sp sum s =
    let q = align_as_chunk (base s sp) in
    let later = assert (pinuse s q) >>= λ checked. walk_chunks params fuel sp 0 q sum s >>= λ total.
    walk_segments params fuel (next s sp) total s in
    if sp == 0 then done sum else later

unfoldable pub traverse_and_check : Mparams → ℕ → Mstate → Run ℕ
unfolding walk_segments
traverse_and_check params fuel s =
    if is_initialized s
    then walk_segments params fuel (seg s) ((s.topsize + top_foot_size) % 2 ^ 64) s
    else done 0

-- a check at each index below n
unfoldable pub check_below : ℕ → (ℕ → Run Unit) → Run Unit
check_below zero check = done tt
check_below (suc n) check = check_below n check also check n

unfoldable pub do_check_malloc_state : Mparams → ℕ → Mstate → Run Unit
unfolding check_below do_check_smallbin do_check_treebin do_check_any_chunk do_check_top_chunk
    bin_find traverse_and_check
do_check_malloc_state params fuel s =
    check_below 32 (λ i. do_check_smallbin params fuel i s)
    also check_below 32 (λ i. do_check_treebin fuel i s)
    also (if s.dvsize == 0
        then done tt
        else do_check_any_chunk s.dv s
          also assert (s.dvsize == chunksize s s.dv)
          also assert (leb 32 s.dvsize)
          also (bin_find fuel s.dv s >>= λ found. assert (not found)))
    also (if s.top == 0
        then done tt
        else do_check_top_chunk fuel s.top s
          also assert (ltb 0 s.topsize)
          also (bin_find fuel s.top s >>= λ found. assert (not found)))
    also (traverse_and_check params fuel s >>= λ total.
        assert (leb total s.footprint) also assert (leb s.footprint s.max_footprint))
