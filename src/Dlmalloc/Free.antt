-- ===== src/Dlmalloc/Free.antt =====
-- dlfree and dispose_chunk of dlmalloc.c: a chunk joins the free chunks beside it and goes to top, to
-- the designated victim or to a bin.
pub mod Back
pub mod Reuse
use precision_gc.Base.{
  ℕ, ◌+◌, ◌-◌, ◌*◌, ◌/◌, ◌%◌, ◌^◌, Bool, true, false, ◌&&◌, not, none, some, ltb, ◌==◌,
  if◌then◌else◌,
}
use precision_gc.Types.{Run, done, abort, ◌>>=◌}
use precision_gc.Dlmalloc.{
  Mstate, Mparams, prev_foot, head, set_head, pinuse, cinuse, is_inuse, is_mmapped, chunksize,
  minus64, mem2chunk, ok_address, ok_next, set_size_and_pinuse_of_free_chunk, set_free_with_pinuse,
}
use precision_gc.Dlmalloc.Bins.{is_small}
use precision_gc.Dlmalloc.Small.{insert_small_chunk}
use precision_gc.Dlmalloc.Tree.{insert_large_chunk, insert_chunk, unlink_chunk}
use precision_gc.Dlmalloc.Grow.{Os}
use precision_gc.Dlmalloc.Release.{sys_trim, release_unused_segments}

-- The chunk that is being freed, as it grows; `finished` after a case that ends the call.
pub record Freed : Type 0 where
  pub state : Mstate
  pub p : ℕ
  pub psize : ℕ
  pub finished : Bool

module _ (os : Os) where
  -- a chunk that was mapped by itself
  unfoldable pub unmap_chunk : ℕ → ℕ → Mstate → Mstate
  unmap_chunk p psize s =
      let whole = psize + prev_foot s p + 32 in
      elim (os.munmap (p - prev_foot s p) whole s) [
        | none ↦ s
        | some t ↦ record t { footprint = minus64 t.footprint whole }
      ]

  -- The part under `if (!pinuse(p))`, `next` being the chunk behind.
  unfoldable pub join_before : ℕ → ℕ → ℕ → ℕ → Mstate → Run Freed
  join_before fuel p psize next s =
      let prevsize = prev_foot s p in
      let prev = p - prevsize in
      let whole = psize + prevsize in
      if pinuse s p
      then done (record { state = s; p = p; psize = psize; finished = false })
      else if is_mmapped s p
      then done (record { state = unmap_chunk p psize s; p = p; psize = psize; finished = true })
      else if not (ok_address s prev)
      then abort
      else if not (prev == s.dv)
      then (unlink_chunk fuel prev prevsize s >>= λ t.
          done (record { state = t; p = prev; psize = whole; finished = false }))
      else if head s next % 4 == 3
      then done (record {
        state = set_free_with_pinuse prev whole next (record s { dvsize = whole });
        p = prev;
        psize = whole;
        finished = true;
      })
      else done (record { state = s; p = prev; psize = whole; finished = false })

  -- The chunk becomes part of top.
  unfoldable pub join_top : ℕ → ℕ → Mstate → Mstate
  unfolding set_head
  join_top p psize s =
      let tsize = (s.topsize + psize) % 2 ^ 64 in
      let joined = set_head p (tsize / 2 * 2 + 1) (record s { topsize = tsize; top = p }) in
      if p == s.dv then record joined { dv = 0; dvsize = 0 } else joined

  -- Forward consolidation with a free chunk that is neither top nor the designated victim.
  unfoldable pub join_free : ℕ → ℕ → ℕ → ℕ → Mstate → Run Freed
  join_free fuel p psize next s =
      let nsize = chunksize s next in
      let whole = psize + nsize in
      unlink_chunk fuel next nsize s >>= λ t.
      let joined = set_size_and_pinuse_of_free_chunk p whole t in
      if p == joined.dv
      then done (record {
        state = record joined { dvsize = whole };
        p = p;
        psize = whole;
        finished = true;
      })
      else done (record { state = joined; p = p; psize = whole; finished = false })

  -- Forward consolidation, when `next` is not top.
  unfoldable pub join_after : ℕ → ℕ → ℕ → ℕ → Mstate → Run Freed
  join_after fuel p psize next s =
      let dsize = (s.dvsize + psize) % 2 ^ 64 in
      if cinuse s next
      then done (record {
        state = set_free_with_pinuse p psize next s;
        p = p;
        psize = psize;
        finished = false;
      })
      else if next == s.dv
      then done (record {
        state = set_size_and_pinuse_of_free_chunk p dsize (record s { dvsize = dsize; dv = p });
        p = p;
        psize = psize;
        finished = true;
      })
      else join_free fuel p psize next s

  -- dispose_chunk behind backward consolidation
  unfoldable pub dispose_forward : ℕ → ℕ → Freed → Run Mstate
  dispose_forward fuel next f =
      let s = f.state in
      if f.finished
      then done s
      else if not (ok_address s next)
      then abort
      else if not (cinuse s next) && (next == s.top)
      then done (join_top f.p f.psize s)
      else (join_after fuel f.p f.psize next s >>= λ g.
          if g.finished then done g.state else insert_chunk fuel g.p g.psize g.state)

  unfoldable pub dispose_chunk : ℕ → ℕ → ℕ → Mstate → Run Mstate
  dispose_chunk fuel p psize s =
      let next = p + psize in join_before fuel p psize next s >>= dispose_forward fuel next

  module _ (params : Mparams) where
    -- `should_trim` is on the new size of top.
    unfoldable pub free_to_top : ℕ → ℕ → ℕ → Mstate → Run Mstate
    free_to_top fuel p psize s =
        let joined = join_top p psize s in
        if ltb joined.trim_check joined.topsize
        then (sys_trim os params fuel 0 joined >>= λ trimmed. done trimmed.1)
        else done joined

    unfoldable pub bin_freed : ℕ → ℕ → ℕ → Mstate → Run Mstate
    bin_freed fuel p psize s =
        if is_small psize
        then insert_small_chunk p psize s
        else (insert_large_chunk fuel p psize s >>= λ t.
            let checks = minus64 t.release_checks 1 in
            let counted = record t { release_checks = checks } in
            if checks == 0
            then (release_unused_segments os params fuel counted >>= λ released. done released.1)
            else done counted)

    -- dlfree behind backward consolidation
    unfoldable pub free_forward : ℕ → ℕ → Freed → Run Mstate
    free_forward fuel next f =
        let s = f.state in
        if f.finished
        then done s
        else if not (ok_next f.p next && pinuse s next)
        then abort
        else if not (cinuse s next) && (next == s.top)
        then free_to_top fuel f.p f.psize s
        else (join_after fuel f.p f.psize next s >>= λ g.
            if g.finished then done g.state else bin_freed fuel g.p g.psize g.state)

    unfoldable pub dlfree : ℕ → ℕ → Mstate → Run Mstate
    dlfree fuel mem s =
        let p = mem2chunk mem in
        let psize = chunksize s p in
        let next = p + psize in
        if mem == 0
        then done s
        else if ok_address s p && is_inuse s p
        then join_before fuel p psize next s >>= free_forward fuel next
        else abort
