-- ===== src/Dlmalloc/Grow.antt =====
-- Memory from the system in dlmalloc.c: mmap_alloc, mmap_resize, add_segment and
-- prepend_alloc.
use precision_gc.Base.{
  ℕ, zero, suc, ◌+◌, ◌-◌, ◌*◌, ◌/◌, ◌%◌, ◌^◌, Bool, ◌&&◌, ◌||◌, not, Option, none, some, ltb, leb,
  ◌==◌, if◌then◌else◌,
}
use precision_gc.Types.{Run, done, abort, out_of_fuel, ◌>>=◌}
use precision_gc.Dlmalloc.{
  Mstate, Mparams, put, prev_foot, set_head, chunksize, is_inuse, minus64, align_offset,
  align_as_chunk, chunk2mem, fencepost_head, set_size_and_pinuse_of_inuse_chunk,
  set_size_and_pinuse_of_free_chunk, set_free_with_pinuse,
}
use precision_gc.Dlmalloc.Bins.{is_small}
use precision_gc.Dlmalloc.Tree.{insert_chunk, unlink_chunk}
use precision_gc.Dlmalloc.Segments.{
  base, size, next, sflags, seg, set_segment, top_foot_size, page_align, segment_holding, init_top,
}

-- mmap, munmap and mremap of the system; `none` is a failure.
pub record Os : Type 0 where
  pub mmap : ℕ → Mstate → Option (ℕ × Mstate)
  pub munmap : ℕ → ℕ → Mstate → Option Mstate
  pub mremap : ℕ → ℕ → ℕ → ℕ → Mstate → Option (ℕ × Mstate)

-- whether the footprint limit, if there is one, forbids so many bytes more
unfoldable pub over_limit : ℕ → Mstate → Bool
over_limit more s =
    let fp = (s.footprint + more) % 2 ^ 64 in
    not (s.footprint_limit == 0) && (leb fp s.footprint || ltb s.footprint_limit fp)

-- `if ((m->footprint += n) > m->max_footprint) m->max_footprint = m->footprint`
unfoldable pub add_footprint : ℕ → Mstate → Mstate
add_footprint n s =
    let fp = (s.footprint + n) % 2 ^ 64 in
    record s {
      footprint = fp;
      max_footprint = if ltb s.max_footprint fp then fp else s.max_footprint;
    }

-- `m->least_addr == 0 || a < m->least_addr`
unfoldable pub lower_least : ℕ → Mstate → Mstate
lower_least a s = if s.least_addr == 0 || ltb a s.least_addr then record s { least_addr = a } else s

-- the head of a mapped chunk and the fake chunk behind it
unfoldable pub set_mmapped : ℕ → ℕ → Mstate → Mstate
unfolding set_head
set_mmapped p psize s =
    set_head (p + (psize + 8)) 0 (set_head (p + psize) fencepost_head (set_head p psize s))

module _ (os : Os) (params : Mparams) where
  -- the size that is mapped for a chunk of nb bytes
  unfoldable pub mapped_size : ℕ → ℕ
  mapped_size nb = page_align params (nb + 63)

  unfoldable pub mmap_alloc : ℕ → Mstate → ℕ × Mstate
  mmap_alloc nb s =
      let mmsize = mapped_size nb in
      if over_limit mmsize s
      then (0, s)
      else if not (ltb nb mmsize)
      then (0, s)
      else elim (os.mmap mmsize s) [
        | none ↦ (0, s)
        | some (mm, t) ↦
            let offset = align_offset (chunk2mem mm) in
            let p = mm + offset in
            let mapped = set_mmapped p (mmsize - offset - 32) (put p offset t) in
            (chunk2mem p, add_footprint mmsize (lower_least mm mapped))
      ]

  -- the chunk at its place afterwards; 0 when it was not resized
  unfoldable pub mmap_resize : ℕ → ℕ → ℕ → Mstate → ℕ × Mstate
  unfolding mapped_size set_mmapped add_footprint
  mmap_resize oldp nb flags s =
      let oldsize = chunksize s oldp in
      let offset = prev_foot s oldp in
      let oldmmsize = oldsize + offset + 32 in
      let newmmsize = mapped_size nb in
      if is_small nb
      then (0, s)
      else if leb (nb + 8) oldsize && leb (oldsize - nb) (params.granularity * 2)
      then (oldp, s)
      else elim (os.mremap (oldp - offset) oldmmsize newmmsize flags s) [
        | none ↦ (0, s)
        | some (cp, t) ↦
            let newp = cp + offset in
            let mapped = set_mmapped newp (minus64 newmmsize (offset + 32)) t in
            let lowered =
              if ltb cp t.least_addr then record mapped { least_addr = cp } else mapped in
            (newp, add_footprint (minus64 newmmsize oldmmsize) lowered)
      ]

  -- The loop over fenceposts, from p to the end of the old segment.
  unfoldable pub put_fences : ℕ → ℕ → ℕ → Mstate → Run Mstate
  unfolding set_head
  put_fences zero p old_end s = out_of_fuel
  put_fences (suc fuel) p old_end s =
      let fenced = set_head p fencepost_head s in
      let later = put_fences fuel (p + 8) old_end fenced in
      if ltb (p + 16) old_end then later else done fenced

  -- where the old segment's record goes: to the end of the segment, or to old top if that is close
  unfoldable pub record_place : ℕ → ℕ → ℕ
  record_place old_top old_end =
      let rawsp = old_end - 95 in
      let asp = rawsp + align_offset (chunk2mem rawsp) in
      if ltb asp (old_top + 32) then old_top else asp

  -- Push the current record to ss, and start a new one.
  unfoldable pub push_segment : ℕ → ℕ → ℕ → ℕ → Mstate → Mstate
  unfolding set_segment
  push_segment ss tbase tsize mmapped s =
      let sp = seg s in
      set_segment sp tbase tsize ss mmapped
        (set_segment ss (base s sp) (size s sp) (next s sp) (sflags s sp) s)

  -- Without a segment that holds top, the source would go through a null pointer.
  unfoldable pub add_segment : ℕ → ℕ → ℕ → ℕ → Mstate → Run Mstate
  unfolding segment_holding init_top record_place push_segment put_fences set_free_with_pinuse
      insert_chunk set_size_and_pinuse_of_inuse_chunk
  add_segment fuel tbase tsize mmapped s =
      let old_top = s.top in
      segment_holding fuel old_top s >>= λ oldsp.
      if oldsp == 0
      then abort
      else (let old_end = base s oldsp + size s oldsp in
          let csp = record_place old_top old_end in
          let fresh = init_top params tbase (minus64 tsize top_foot_size) s in
          let linked =
            push_segment (chunk2mem csp) tbase tsize mmapped
              (set_size_and_pinuse_of_inuse_chunk csp 48 fresh) in
          let psize = csp - old_top in
          put_fences fuel (csp + 48) old_end linked >>= λ fenced.
          if csp == old_top
          then done fenced
          else insert_chunk fuel old_top psize (set_free_with_pinuse old_top psize csp fenced))

  -- The rest of the new memory joins the first chunk of the segment behind it.
  unfoldable pub join_first : ℕ → ℕ → ℕ → ℕ → Mstate → Run Mstate
  unfolding set_head set_size_and_pinuse_of_free_chunk set_free_with_pinuse insert_chunk
      unlink_chunk
  join_first fuel q qsize oldfirst s =
      let tsize = (s.topsize + qsize) % 2 ^ 64 in
      let dsize = (s.dvsize + qsize) % 2 ^ 64 in
      let nsize = chunksize s oldfirst in
      if oldfirst == s.top
      then done (set_head q (tsize / 2 * 2 + 1) (record s { topsize = tsize; top = q }))
      else if oldfirst == s.dv
      then done (set_size_and_pinuse_of_free_chunk q dsize (record s { dvsize = dsize; dv = q }))
      else if is_inuse s oldfirst
      then insert_chunk fuel q qsize (set_free_with_pinuse q qsize oldfirst s)
      else (unlink_chunk fuel oldfirst nsize s >>= λ t.
          insert_chunk fuel q (qsize + nsize)
            (set_free_with_pinuse q (qsize + nsize) (oldfirst + nsize) t))

  unfoldable pub prepend_alloc : ℕ → ℕ → ℕ → ℕ → Mstate → Run (ℕ × Mstate)
  unfolding set_size_and_pinuse_of_inuse_chunk join_first
  prepend_alloc fuel newbase oldbase nb s =
      let p = align_as_chunk newbase in
      let oldfirst = align_as_chunk oldbase in
      let qsize = minus64 (minus64 oldfirst p) nb in
      join_first fuel (p + nb) qsize oldfirst (set_size_and_pinuse_of_inuse_chunk p nb s) >>= λ t.
      done (chunk2mem p, t)
