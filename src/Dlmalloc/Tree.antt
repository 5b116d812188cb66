-- ===== src/Dlmalloc/Tree.antt =====
-- The tree bins of dlmalloc.c: tries of large free chunks keyed by size, chunks of one size on a ring.
use precision_gc.Base.{ℕ, zero, suc, ◌*◌, ◌/◌, ◌%◌, ◌^◌, ◌&&◌, not, ◌==◌, if◌then◌else◌}
use precision_gc.Types.{Run, done, abort, out_of_fuel, ◌>>=◌}
use precision_gc.Dlmalloc.{
  Mstate, put, fd, bk, child, child_address, parent, index, chunksize, set_fd, set_bk, set_child,
  set_parent, set_index, ok_address,
}
use precision_gc.Dlmalloc.Bins.{
  is_small, treebin_at, compute_tree_index, leftshift_for_tree_index, mark_treemap, clear_treemap,
  treemap_is_marked,
}
use precision_gc.Dlmalloc.Small.{insert_small_chunk, unlink_small_chunk}

-- the highest of 64 bits, and the shift that brings up the next one
abbrev pub top_bit : ℕ → ℕ
top_bit k = k / 2 ^ 63 % 2

abbrev pub shifted : ℕ → ℕ → ℕ
shifted k n = k * 2 ^ n % 2 ^ 64

-- `X->fd = X->bk = X`, with the parent
unfoldable pub alone_under : ℕ → ℕ → Mstate → Mstate
unfolding set_parent set_fd set_bk
alone_under x above s = set_fd x x (set_bk x x (set_parent x above s))

-- on the ring of a node of the same size
unfoldable pub join_ring : ℕ → ℕ → Mstate → Mstate
unfolding set_parent set_fd set_bk
join_ring x t s =
    let f = fd s t in set_parent x 0 (set_bk x t (set_fd x f (set_fd t x (set_bk f x s))))

-- The loop of insert_large_chunk, at the node t; the fuel bounds the depth.
unfoldable pub insert_below : ℕ → ℕ → ℕ → ℕ → ℕ → Mstate → Run Mstate
unfolding alone_under join_ring put
insert_below zero x size t k s = out_of_fuel
insert_below (suc fuel) x size t k s =
    let c = child_address t (top_bit k) in
    let deeper = insert_below fuel x size (s.word c) (shifted k 1) s in
    if chunksize s t == size
    then (if ok_address s t && ok_address s (fd s t) then done (join_ring x t s) else abort)
    else if not (s.word c == 0)
    then deeper
    else if ok_address s c
    then done (alone_under x t (put c x s))
    else abort

unfoldable pub insert_large_chunk : ℕ → ℕ → ℕ → Mstate → Run Mstate
unfolding compute_tree_index leftshift_for_tree_index mark_treemap treemap_is_marked set_child
    set_index alone_under put insert_below
insert_large_chunk fuel x size s =
    let i = compute_tree_index size in
    let h = treebin_at s i in
    let fresh = set_child x 0 0 (set_child x 1 0 (set_index x i s)) in
    if not (treemap_is_marked i s)
    then done (alone_under x h (put h x (mark_treemap i fresh)))
    else insert_below fuel x size (fresh.word h) (shifted size (leftshift_for_tree_index i)) fresh

-- The inner loop of unlink_large_chunk: from the node r that the cell rp holds to the last node below
-- it, the right child before the left. The answer is that node and its cell.
unfoldable pub last_below : ℕ → ℕ → ℕ → Mstate → Run (ℕ × ℕ)
last_below zero r rp s = out_of_fuel
last_below (suc fuel) r rp s =
    let right = last_below fuel (child s r 1) (child_address r 1) s in
    let left = last_below fuel (child s r 0) (child_address r 0) s in
    if not (child s r 1 == 0) then right else if not (child s r 0 == 0) then left else done (r, rp)

-- The last node below x leaves its cell; 0 when x has no child.
unfoldable pub take_leaf : ℕ → ℕ → Mstate → Run (ℕ × Mstate)
unfolding last_below put
take_leaf fuel x s =
    let i = if child s x 1 == 0 then 0 else 1 in
    if child s x i == 0
    then done (0, s)
    else last_below fuel (child s x i) (child_address x i) s >>= λ found.
        let (r, rp) = found in if ok_address s rp then done (r, put rp 0 s) else abort

-- What takes the place of x: its predecessor on the ring, or the last node below.
unfoldable pub replacement : ℕ → ℕ → Mstate → Run (ℕ × Mstate)
unfolding take_leaf set_fd set_bk
replacement fuel x s =
    let f = fd s x in
    let r = bk s x in
    if r == x
    then take_leaf fuel x s
    else if ok_address s f && bk s f == x && fd s r == x
    then done (r, set_fd r f (set_bk f r s))
    else abort

-- `if (XP->child[0] == X) XP->child[0] = R; else XP->child[1] = R`, or the root cell
unfoldable pub replace_at_parent : ℕ → ℕ → ℕ → Mstate → Run Mstate
unfolding put clear_treemap set_child
replace_at_parent x xp r s =
    let h = treebin_at s (index s x) in
    if s.word h == x
    then done (if r == 0 then clear_treemap (index s x) (put h r s) else put h r s)
    else if ok_address s xp
    then done (if child s xp 0 == x then set_child xp 0 r s else set_child xp 1 r s)
    else abort

-- A child of x becomes the child of r on the same side.
unfoldable pub adopt_child : ℕ → ℕ → ℕ → Mstate → Run Mstate
unfolding set_child set_parent
adopt_child i x r s =
    let c = child s x i in
    if c == 0
    then done s
    else if ok_address s c
    then done (set_parent c r (set_child r i c s))
    else abort

unfoldable pub adopt_children : ℕ → ℕ → ℕ → Mstate → Run Mstate
unfolding adopt_child set_parent
adopt_children x xp r s =
    if r == 0
    then done s
    else if ok_address s r
    then adopt_child 0 x r (set_parent r xp s) >>= adopt_child 1 x r
    else abort

unfoldable pub unlink_large_chunk : ℕ → ℕ → Mstate → Run Mstate
unfolding replacement replace_at_parent adopt_children
unlink_large_chunk fuel x s =
    let xp = parent s x in
    replacement fuel x s >>= λ found.
    let (r, t) = found in
    if xp == 0 then done t else replace_at_parent x xp r t >>= adopt_children x xp r

unfoldable pub insert_chunk : ℕ → ℕ → ℕ → Mstate → Run Mstate
unfolding insert_small_chunk insert_large_chunk
insert_chunk fuel p size s =
    if is_small size then insert_small_chunk p size s else insert_large_chunk fuel p size s

unfoldable pub unlink_chunk : ℕ → ℕ → ℕ → Mstate → Run Mstate
unfolding unlink_small_chunk unlink_large_chunk
unlink_chunk fuel p size s =
    if is_small size then unlink_small_chunk p size s else unlink_large_chunk fuel p s
