-- ===== src/Dlmalloc/Checks.antt =====
-- The debugging checks of dlmalloc.c: what they assert of chunks, bins and segments. A check returns
-- when all its assertions hold.
use Prim.Native.Nat.{bit_and}
use precision_gc.Base.{
  ℕ, zero, suc, ◌+◌, ◌-◌, ◌*◌, ◌/◌, ◌%◌, Bool, false, ◌&&◌, ◌||◌, not, ltb, leb, ◌==◌,
  if◌then◌else◌,
}
use precision_gc.Types.{Run, done, out_of_fuel, ◌>>=◌}
use precision_gc.Dlmalloc.{
  Mstate, Mparams, assert, prev_foot, head, fd, bk, child, parent, index, pinuse, is_inuse,
  is_mmapped, chunksize, next_chunk, prev_chunk, next_pinuse, minus64, is_aligned, chunk2mem,
  mem2chunk, fencepost_head, ok_address,
}
use precision_gc.Dlmalloc.Bins.{
  is_small, treebin_at, compute_tree_index, minsize_for_tree_index, treemap_is_marked,
}
use precision_gc.Dlmalloc.Segments.{base, size, top_foot_size, segment_holding}

-- assertions one after the other
infixr 4 ◌also◌
abbrev pub ◌also◌ : Run Unit → Run Unit → Run Unit
a also b = a >>= λ u. b

unfoldable pub do_check_any_chunk : ℕ → Mstate → Run Unit
do_check_any_chunk p s =
    assert (is_aligned (chunk2mem p) || (head s p == fencepost_head)) also assert (ok_address s p)

unfoldable pub do_check_top_chunk : ℕ → ℕ → Mstate → Run Unit
unfolding segment_holding
do_check_top_chunk fuel p s =
    let sz = head s p / 4 * 4 in
    segment_holding fuel p s >>= λ sp.
    assert (not (sp == 0))
    also assert (is_aligned (chunk2mem p) || (head s p == fencepost_head))
    also assert (ok_address s p)
    also assert (sz == s.topsize)
    also assert (ltb 0 sz)
    also assert (sz == minus64 (minus64 (base s sp + size s sp) p) top_foot_size)
    also assert (pinuse s p)
    also assert (not (pinuse s (p + sz)))

unfoldable pub do_check_mmapped_chunk : Mparams → ℕ → Mstate → Run Unit
do_check_mmapped_chunk params p s =
    let sz = chunksize s p in
    let len = sz + prev_foot s p + 32 in
    assert (is_mmapped s p)
    also assert (s.mflags % 2 == 1)
    also assert (is_aligned (chunk2mem p) || (head s p == fencepost_head))
    also assert (ok_address s p)
    also assert (not (is_small sz))
    also assert (bit_and len (params.page_size - 1) == 0)
    also assert (head s (p + sz) == fencepost_head)
    also assert (head s (p + sz + 8) == 0)

unfoldable pub do_check_inuse_chunk : Mparams → ℕ → Mstate → Run Unit
unfolding do_check_any_chunk do_check_mmapped_chunk
do_check_inuse_chunk params p s =
    do_check_any_chunk p s
    also assert (is_inuse s p)
    also assert (next_pinuse s p)
    also assert (is_mmapped s p || pinuse s p || (next_chunk s (prev_chunk s p) == p))
    also (if is_mmapped s p then do_check_mmapped_chunk params p s else done tt)

-- what is asserted of a free chunk in a bin
unfoldable pub check_binned : ℕ → Mstate → Run Unit
check_binned p s =
    let sz = chunksize s p in
    let next = p + sz in
    assert (sz % 16 == 0)
    also assert (is_aligned (chunk2mem p))
    also assert (prev_foot s next == sz)
    also assert (pinuse s p)
    also assert (next == s.top || is_inuse s next)
    also assert (bk s (fd s p) == p)
    also assert (fd s (bk s p) == p)

unfoldable pub do_check_free_chunk : ℕ → Mstate → Run Unit
unfolding do_check_any_chunk check_binned
do_check_free_chunk p s =
    let sz = chunksize s p in
    do_check_any_chunk p s
    also assert (not (is_inuse s p))
    also assert (not (next_pinuse s p))
    also assert (not (is_mmapped s p))
    also (if p == s.dv || (p == s.top)
        then done tt
        else if leb 32 sz
        then check_binned p s
        else assert (sz == 8))

unfoldable pub do_check_malloced_chunk : Mparams → ℕ → ℕ → Mstate → Run Unit
unfolding do_check_inuse_chunk
do_check_malloced_chunk params mem bytes s =
    let p = mem2chunk mem in
    let sz = head s p / 4 * 4 in
    if mem == 0
    then done tt
    else do_check_inuse_chunk params p s
      also assert (sz % 16 == 0)
      also assert (leb 32 sz)
      also assert (leb bytes sz)
      also assert (is_mmapped s p || ltb sz (bytes + 32))

-- A node that is in the tree itself, apart from its subtrees.
unfoldable pub check_links : ℕ → Mstate → Run Unit
check_links u s =
    let above = parent s u in
    assert (not (above == u))
    also assert (child s above 0 == u || (child s above 1 == u) || (s.word above == u))
    also assert (child s u 0 == 0 || (parent s (child s u 0) == u && not (child s u 0 == u)))
    also assert (child s u 1 == 0 || (parent s (child s u 1) == u && not (child s u 1 == u)))
    also assert (
        child s u 0 == 0
        || (child s u 1 == 0)
        || ltb (chunksize s (child s u 0)) (chunksize s (child s u 1)))

-- A node of the ring of t, apart from its place in the tree.
unfoldable pub check_ring_node : ℕ → ℕ → Mstate → Run Unit
unfolding do_check_any_chunk
check_ring_node t u s =
    do_check_any_chunk u s
    also assert (index s u == index s t)
    also assert (chunksize s u == chunksize s t)
    also assert (not (is_inuse s u))
    also assert (not (next_pinuse s u))
    also assert (bk s (fd s u) == u)
    also assert (fd s (bk s u) == u)

-- the bin's index and its sizes
unfoldable pub check_tree_index : ℕ → Mstate → Run Unit
unfolding compute_tree_index minsize_for_tree_index
check_tree_index t s =
    let tsize = chunksize s t in
    let idx = compute_tree_index tsize in
    assert (index s t == idx)
    also assert (leb 256 tsize)
    also assert (leb (minsize_for_tree_index idx) tsize)
    also assert (idx == 31 || ltb tsize (minsize_for_tree_index (idx + 1)))

-- The loop over the ring of t from u on; `subtrees` checks below a node, and `found` says whether one
-- node with a parent has been met.
unfoldable pub check_ring : (ℕ → Run Unit) → ℕ → ℕ → ℕ → Bool → Mstate → Run Unit
unfolding check_ring_node check_links
check_ring subtrees zero t u found s = out_of_fuel
check_ring subtrees (suc fuel) t u found s =
    let rooted = not (parent s u == 0) in
    let step =
      check_ring_node t u s
      also (if rooted
          then assert (not found)
            also check_links u s
            also (if child s u 0 == 0 then done tt else subtrees (child s u 0))
            also (if child s u 1 == 0 then done tt else subtrees (child s u 1))
          else assert (child s u 0 == 0 && (child s u 1 == 0))) in
    let last = step also assert (found || rooted) in
    let later = step also check_ring subtrees fuel t (fd s u) (found || rooted) s in
    if fd s u == t then last else later

unfoldable pub do_check_tree : ℕ → ℕ → Mstate → Run Unit
unfolding check_tree_index check_ring
do_check_tree zero t s = out_of_fuel
do_check_tree (suc fuel) t s =
    check_tree_index t s
    also check_ring (λ below. do_check_tree fuel below s) (suc fuel) t t false s

unfoldable pub do_check_treebin : ℕ → ℕ → Mstate → Run Unit
unfolding treemap_is_marked do_check_tree
do_check_treebin fuel i s =
    let t = s.word (treebin_at s i) in
    let empty = not (treemap_is_marked i s) in
    assert (not (t == 0) || empty) also (if empty then done tt else do_check_tree fuel t s)
