-- ===== src/Dlmalloc/Take.antt =====
-- tmalloc_large and tmalloc_small of dlmalloc.c: a chunk for a request from the tree bins.
pub mod Next
use Prim.Native.Nat.{bit_and}
use precision_gc.Base.{ℕ, zero, suc, ◌+◌, ◌&&◌, not, ltb, ◌==◌, if◌then◌else◌}
use precision_gc.Types.{Run, done, abort, out_of_fuel, ◌>>=◌}
use precision_gc.Dlmalloc.{
  Mstate, child, chunksize, leftmost_child, minus64, chunk2mem, ok_address, ok_next,
  set_inuse_and_pinuse, set_size_and_pinuse_of_inuse_chunk, set_size_and_pinuse_of_free_chunk,
}
use precision_gc.Dlmalloc.Bins.{
  treebin_at, compute_tree_index, leftshift_for_tree_index, idx2bit, least_bit, left_bits,
  compute_bit2idx,
}
use precision_gc.Dlmalloc.Small.{replace_dv}
use precision_gc.Dlmalloc.Tree.{top_bit, shifted, unlink_large_chunk, insert_chunk}

-- The best chunk so far and what it has beyond the request.
pub record Best : Type 0 where
  pub v : ℕ
  pub rsize : ℕ

-- `if (trem < rsize) { rsize = trem; v = t; }`
unfoldable pub better : ℕ → ℕ → Mstate → Best → Best
better nb t s best =
    let trem = minus64 (chunksize s t) nb in
    if ltb trem best.rsize then record { v = t; rsize = trem } else best

-- The loop along leftmost children.
unfoldable pub smallest_below : ℕ → ℕ → ℕ → Mstate → Best → Run Best
unfolding better
smallest_below zero nb t s best = out_of_fuel
smallest_below (suc fuel) nb t s best =
    let next = smallest_below fuel nb (leftmost_child s t) s (better nb t s best) in
    if t == 0 then done best else next

-- The loop down to the size itself; the answer has the least subtree of larger sizes, or 0.
unfoldable pub descend : ℕ → ℕ → ℕ → ℕ → ℕ → Mstate → Best → Run (ℕ × Best)
unfolding better
descend zero nb t sizebits rst s best = out_of_fuel
descend (suc fuel) nb t sizebits rst s best =
    let found = better nb t s best in
    let exact = ltb (minus64 (chunksize s t) nb) best.rsize && (found.rsize == 0) in
    let rt = child s t 1 in
    let next = child s t (top_bit sizebits) in
    let right = if not (rt == 0) && not (rt == next) then rt else rst in
    let deeper = descend fuel nb next (shifted sizebits 1) right s found in
    if exact then done (t, found) else if next == 0 then done (right, found) else deeper

-- The search in the bin of the request, when it has a tree.
unfoldable pub search_bin : ℕ → ℕ → Mstate → Run (ℕ × Best)
unfolding compute_tree_index leftshift_for_tree_index descend
search_bin fuel nb s =
    let idx = compute_tree_index nb in
    let root = s.word (treebin_at s idx) in
    let none_yet : Best = record { v = 0; rsize = minus64 0 nb } in
    if root == 0
    then done (0, none_yet)
    else descend fuel nb root (shifted nb (leftshift_for_tree_index idx)) 0 s none_yet

-- The root of the next bin that is not empty, or 0.
unfoldable pub next_root : ℕ → Mstate → ℕ
unfolding compute_tree_index least_bit left_bits compute_bit2idx
next_root nb s =
    let leftbits = bit_and (left_bits (idx2bit (compute_tree_index nb))) s.treemap in
    if leftbits == 0 then 0 else s.word (treebin_at s (compute_bit2idx (least_bit leftbits)))

unfoldable pub best_fit : ℕ → ℕ → Mstate → Run Best
unfolding search_bin next_root smallest_below
best_fit fuel nb s = search_bin fuel nb s >>= λ found.
    let (t, best) = found in
    let root = if t == 0 && (best.v == 0) then next_root nb s else t in
    smallest_below fuel nb root s best

-- The chunk v leaves its tree and is split, unless the rest is too small for a chunk; `keep` says what
-- becomes of the rest.
unfoldable pub split_best : ℕ → ℕ → (ℕ → ℕ → Mstate → Run Mstate) → Best → Mstate → Run (ℕ × Mstate)
unfolding unlink_large_chunk set_inuse_and_pinuse set_size_and_pinuse_of_inuse_chunk
    set_size_and_pinuse_of_free_chunk
split_best fuel nb keep best s =
    let v = best.v in
    let rsize = best.rsize in
    let r = v + nb in
    if ok_address s v && ok_next v r
    then (unlink_large_chunk fuel v s >>= λ t.
        if ltb rsize 32
        then done (chunk2mem v, set_inuse_and_pinuse v (rsize + nb) t)
        else keep r rsize
            (set_size_and_pinuse_of_free_chunk r rsize (set_size_and_pinuse_of_inuse_chunk v nb t))
          >>= λ kept. done (chunk2mem v, kept))
    else abort

-- 0 when no chunk fits, or the designated victim fits as well
unfoldable pub tmalloc_large : ℕ → ℕ → Mstate → Run (ℕ × Mstate)
unfolding best_fit split_best insert_chunk
tmalloc_large fuel nb s = best_fit fuel nb s >>= λ best.
    if not (best.v == 0) && ltb best.rsize (minus64 s.dvsize nb)
    then split_best fuel nb (insert_chunk fuel) best s
    else done (0, s)

unfoldable pub tmalloc_small : ℕ → ℕ → Mstate → Run (ℕ × Mstate)
unfolding least_bit compute_bit2idx smallest_below split_best replace_dv
tmalloc_small fuel nb s =
    let root = s.word (treebin_at s (compute_bit2idx (least_bit s.treemap))) in
    let first : Best = record { v = root; rsize = minus64 (chunksize s root) nb } in
    smallest_below fuel nb (leftmost_child s root) s first >>= λ best.
    split_best fuel nb replace_dv best s
