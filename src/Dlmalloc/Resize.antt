-- ===== src/Dlmalloc/Resize.antt =====
-- try_realloc_chunk, dlrealloc and dlrealloc_in_place of dlmalloc.c.
use precision_gc.Base.{
  ℕ, zero, suc, ◌+◌, ◌-◌, ◌*◌, ◌/◌, ◌%◌, ◌^◌, ◌&&◌, not, ltb, leb, ◌==◌, if◌then◌else◌,
}
use precision_gc.Types.{Run, done, abort, ◌>>=◌}
use precision_gc.Trigger.{Accounts, request2size, min_chunk_size, long_gt}
use precision_gc.Dlmalloc.{
  Mstate, Mparams, put, set_head, pinuse, cinuse, is_inuse, is_mmapped, chunksize, overhead_for,
  mem2chunk, chunk2mem, ok_address, ok_next, clear_pinuse, set_inuse,
  set_size_and_pinuse_of_free_chunk,
}
use precision_gc.Dlmalloc.Tree.{unlink_chunk}
use precision_gc.Dlmalloc.Serve.{max_request}
use precision_gc.Dlmalloc.Grow.{Os, mmap_resize}
use precision_gc.Dlmalloc.Free.{dispose_chunk, dlfree}
use precision_gc.Dlmalloc.Alloc.{dlmalloc_usable_size, dlmalloc}

module _ (os : Os) (params : Mparams) where
  -- The chunk keeps nb bytes, and the rest is disposed of.
  unfoldable pub split_off : ℕ → ℕ → ℕ → ℕ → Mstate → Run Mstate
  unfolding set_inuse dispose_chunk
  split_off fuel p nb rsize s =
      dispose_chunk os fuel (p + nb) rsize (set_inuse (p + nb) rsize (set_inuse p nb s))

  -- The answer of each way is the chunk, or 0 when it is not resized.
  unfoldable pub shrink_in_place : ℕ → ℕ → ℕ → Mstate → Run (ℕ × Mstate)
  unfolding split_off
  shrink_in_place fuel p nb s =
      let rsize = chunksize s p - nb in
      if leb min_chunk_size rsize
      then (split_off fuel p nb rsize s >>= λ t. done (p, t))
      else done (p, s)

  unfoldable pub extend_into_top : ℕ → ℕ → Mstate → ℕ × Mstate
  unfolding set_inuse set_head
  extend_into_top p nb s =
      let newsize = chunksize s p + s.topsize in
      let newtopsize = newsize - nb in
      let newtop = p + nb in
      if ltb nb newsize
      then (
        p,
        record (set_head newtop (newtopsize / 2 * 2 + 1) (set_inuse p nb s)) {
          top = newtop;
          topsize = newtopsize;
        },
      )
      else (0, s)

  unfoldable pub extend_into_dv : ℕ → ℕ → Mstate → ℕ × Mstate
  unfolding set_inuse set_size_and_pinuse_of_free_chunk clear_pinuse
  extend_into_dv p nb s =
      let newsize = chunksize s p + s.dvsize in
      let dsize = newsize - nb in
      let r = p + nb in
      if not (leb nb newsize)
      then (0, s)
      else if leb min_chunk_size dsize
      then (
        p,
        record (clear_pinuse (r + dsize)
            (set_size_and_pinuse_of_free_chunk r dsize (set_inuse p nb s))) {
              dvsize = dsize;
              dv = r;
            },
      )
      else (p, record (set_inuse p newsize s) { dvsize = 0; dv = 0 })

  unfoldable pub extend_into_free : ℕ → ℕ → ℕ → Mstate → Run (ℕ × Mstate)
  unfolding unlink_chunk set_inuse split_off
  extend_into_free fuel p nb s =
      let next = p + chunksize s p in
      let nextsize = chunksize s next in
      let newsize = chunksize s p + nextsize in
      let rsize = newsize - nb in
      if not (leb nb newsize)
      then done (0, s)
      else (unlink_chunk fuel next nextsize s >>= λ t.
          if ltb rsize min_chunk_size
          then done (p, set_inuse p newsize t)
          else (split_off fuel p nb rsize t >>= λ u. done (p, u)))

  unfoldable pub try_realloc_chunk : ℕ → ℕ → ℕ → ℕ → Mstate → Run (ℕ × Mstate)
  unfolding mmap_resize shrink_in_place extend_into_top extend_into_dv extend_into_free
  try_realloc_chunk fuel p nb can_move s =
      let oldsize = chunksize s p in
      let next = p + oldsize in
      if not (ok_address s p && is_inuse s p && ok_next p next && pinuse s next)
      then abort
      else if is_mmapped s p
      then done (mmap_resize os params p nb can_move s)
      else if leb nb oldsize
      then shrink_in_place fuel p nb s
      else if next == s.top
      then done (extend_into_top p nb s)
      else if next == s.dv
      then done (extend_into_dv p nb s)
      else if not (cinuse s next)
      then extend_into_free fuel p nb s
      else done (0, s)

  unfoldable pub dlrealloc_in_place : ℕ → ℕ → ℕ → Mstate → Run (ℕ × Mstate)
  unfolding request2size try_realloc_chunk
  dlrealloc_in_place fuel oldmem bytes s =
      let oldp = mem2chunk oldmem in
      if oldmem == 0
      then done (0, s)
      else if leb max_request bytes
      then done (0, s)
      else (try_realloc_chunk fuel oldp (request2size bytes) 0 s >>= λ tried.
          let (newp, t) = tried in done (if newp == oldp then oldmem else 0, t))

  -- memcpy, by whole words: both chunks have room for the last one.
  unfoldable pub copied : ℕ → ℕ → ℕ → Mstate → Mstate
  unfolding put
  copied from to zero s = s
  copied from to (suc words) s =
      let later = copied (from + 8) (to + 8) words s in put to (s.word from) later

  module _ (gc_collect : Accounts Mstate → Run (Accounts Mstate)) where
    -- `if (new_size > 0) allocated_since_last_GC += new_size - old_size`
    unfoldable pub recount : ℕ → ℕ → Accounts Mstate → Accounts Mstate
    unfolding long_gt
    recount old_size new_size a =
        if long_gt new_size 0
        then record a {
          allocated_since_last_gc =
              (a.allocated_since_last_gc + new_size + (2 ^ 64 - old_size)) % 2 ^ 64;
        }
        else a

    -- The way of dlrealloc when the chunk cannot be resized: a new one, a copy, and the old one freed.
    unfoldable pub move_chunk : ℕ → ℕ → ℕ → ℕ → ℕ → Accounts Mstate → Run (ℕ × Accounts Mstate)
    unfolding dlmalloc dlmalloc_usable_size copied dlfree recount
    move_chunk fuel rounds oldmem bytes old_size a =
        let oldp = mem2chunk oldmem in
        dlmalloc os params gc_collect fuel rounds bytes a >>= λ got.
        let (mem, b) = got in
        let oc = chunksize b.state oldp - overhead_for b.state oldp in
        let kept = if ltb oc bytes then oc else bytes in
        if mem == 0
        then done (0, b)
        else (dlfree os params fuel oldmem (copied oldmem mem ((kept + 7) / 8) b.state) >>= λ t.
            done (mem, recount old_size (dlmalloc_usable_size mem t) (record b { state = t })))

    unfoldable pub dlrealloc : ℕ → ℕ → ℕ → ℕ → Accounts Mstate → Run (ℕ × Accounts Mstate)
    unfolding dlmalloc dlmalloc_usable_size request2size try_realloc_chunk recount move_chunk
    dlrealloc fuel rounds oldmem bytes a =
        let old_size = dlmalloc_usable_size oldmem a.state in
        let oldp = mem2chunk oldmem in
        if oldmem == 0
        then dlmalloc os params gc_collect fuel rounds bytes a
        else if leb max_request bytes
        then done (0, a)
        else (try_realloc_chunk fuel oldp (request2size bytes) 1 a.state >>= λ tried.
            let (newp, t) = tried in
            let b = record a { state = t } in
            let mem = chunk2mem newp in
            if newp == 0
            then move_chunk fuel rounds oldmem bytes old_size b
            else done (mem, recount old_size (dlmalloc_usable_size mem t) b))
