-- ===== src/Dlmalloc/Small.antt =====
-- The small bins of dlmalloc.c: circular lists of free chunks of one size, and the designated victim.
pub mod Relink
pub mod Ring
pub mod Insert
pub mod Unlink
pub mod First
use precision_gc.Base.{ℕ, ◌&&◌, ◌||◌, not, ◌==◌, if◌then◌else◌}
use precision_gc.Types.{Run, done, abort, ◌>>=◌}
use precision_gc.Dlmalloc.{Mstate, fd, bk, set_fd, set_bk, ok_address}
use precision_gc.Dlmalloc.Bins.{
  smallbin_at, small_index, mark_smallmap, clear_smallmap, smallmap_is_marked,
}

-- the four stores of insert_small_chunk
unfoldable pub link_between : ℕ → ℕ → ℕ → Mstate → Mstate
unfolding set_fd set_bk
link_between p b f s = set_bk p b (set_fd p f (set_bk f p (set_fd b p s)))

unfoldable pub insert_small_chunk : ℕ → ℕ → Mstate → Run Mstate
unfolding link_between mark_smallmap smallmap_is_marked
insert_small_chunk p size s =
    let i = small_index size in
    let b = smallbin_at s i in
    if not (smallmap_is_marked i s)
    then done (link_between p b b (mark_smallmap i s))
    else if ok_address s (fd s b)
    then done (link_between p b (fd s b) s)
    else abort

unfoldable pub unlink_small_chunk : ℕ → ℕ → Mstate → Run Mstate
unfolding clear_smallmap set_fd set_bk
unlink_small_chunk p size s =
    let f = fd s p in
    let b = bk s p in
    let i = small_index size in
    if f == smallbin_at s i || (ok_address s f && bk s f == p)
    then (if b == f
        then done (clear_smallmap i s)
        else if b == smallbin_at s i || (ok_address s b && fd s b == p)
        then done (set_fd b f (set_bk f b s))
        else abort)
    else abort

unfoldable pub unlink_first_small_chunk : ℕ → ℕ → ℕ → Mstate → Run Mstate
unfolding clear_smallmap set_fd set_bk
unlink_first_small_chunk b p i s =
    let f = fd s p in
    if b == f
    then done (clear_smallmap i s)
    else if ok_address s f && bk s f == p
    then done (set_fd b f (set_bk f b s))
    else abort

unfoldable pub replace_dv : ℕ → ℕ → Mstate → Run Mstate
unfolding insert_small_chunk
replace_dv p size s =
    (if s.dvsize == 0 then done s else insert_small_chunk s.dv s.dvsize s) >>= λ binned.
    done (record binned { dvsize = size; dv = p })
