-- ===== src/Dlmalloc/Release.antt =====
-- Memory given back to the system in dlmalloc.c: release_unused_segments and sys_trim.
use precision_gc.Base.{
  ℕ, zero, suc, ◌+◌, ◌-◌, ◌*◌, ◌/◌, ◌%◌, ◌^◌, Bool, ◌&&◌, not, Option, none, some, ltb, leb, ◌==◌,
  if◌then◌else◌,
}
use precision_gc.Types.{Run, done, abort, out_of_fuel, ◌>>=◌}
use precision_gc.Dlmalloc.{Mstate, Mparams, put, chunksize, is_inuse, minus64, align_as_chunk}
use precision_gc.Dlmalloc.Tree.{insert_large_chunk, unlink_large_chunk}
use precision_gc.Dlmalloc.Serve.{max_request}
use precision_gc.Dlmalloc.Segments.{
  base, size, next, seg, is_mmapped_segment, is_extern_segment, top_foot_size, max_size,
  is_initialized, segment_holding, has_segment_link, init_top,
}
use precision_gc.Dlmalloc.Grow.{Os}

-- MAX_RELEASE_CHECK_RATE
abbrev pub max_release_check_rate : ℕ
max_release_check_rate = 4095

-- The local variables of release_unused_segments that live on from round to round.
pub record Releasing : Type 0 where
  pub state : Mstate
  pub released : ℕ
  pub nsegs : ℕ
  pub pred : ℕ

-- whether a free first chunk fills the segment
unfoldable pub is_unused : ℕ → Mstate → Bool
is_unused sp s =
    let p = align_as_chunk (base s sp) in
    is_mmapped_segment s sp
    && not (is_extern_segment s sp)
    && not (is_inuse s p)
    && leb (base s sp + size s sp - top_foot_size) (p + chunksize s p)

module _ (os : Os) (params : Mparams) where
  -- The chunk leaves the designated victim or its tree.
  unfoldable pub withdraw : ℕ → ℕ → Mstate → Run Mstate
  unfolding unlink_large_chunk
  withdraw fuel p s =
      if p == s.dv then done (record s { dv = 0; dvsize = 0 }) else unlink_large_chunk fuel p s

  -- A round at an unused segment: unmap it and unlink its record, or back out.
  unfoldable pub release_segment : ℕ → ℕ → Releasing → Run Releasing
  unfolding withdraw insert_large_chunk put
  release_segment fuel sp r =
      let s = r.state in
      let p = align_as_chunk (base s sp) in
      let psize = chunksize s p in
      let following = next s sp in
      withdraw fuel p s >>= λ t. elim (os.munmap (base s sp) (size s sp) t) [
        | some u ↦ done (record {
          state =
              put (r.pred + 16) following
                (record u { footprint = minus64 u.footprint (size s sp) });
          released = (r.released + size s sp) % 2 ^ 64;
          nsegs = r.nsegs + 1;
          pred = r.pred;
        })
        | none ↦ insert_large_chunk fuel p psize t >>= λ u.
            done (record { state = u; released = r.released; nsegs = r.nsegs + 1; pred = sp })
      ]

  unfoldable pub release_from : ℕ → ℕ → Releasing → Run Releasing
  unfolding is_unused release_segment
  release_from zero sp r = out_of_fuel
  release_from (suc fuel) sp r =
      let following = next r.state sp in
      let round =
        if is_unused sp r.state
        then release_segment fuel sp r
        else done (record r { nsegs = r.nsegs + 1; pred = sp }) in
      let later = round >>= release_from fuel following in if sp == 0 then done r else later

  -- The bytes released.
  unfoldable pub release_unused_segments : ℕ → Mstate → Run (ℕ × Mstate)
  unfolding release_from
  release_unused_segments fuel s =
      release_from fuel (next s (seg s))
        (record { state = s; released = 0; nsegs = 0; pred = seg s })
      >>= λ r.
          let checks =
            if ltb max_release_check_rate r.nsegs then r.nsegs else max_release_check_rate in
          done (r.released, record r.state { release_checks = checks })

  -- `extra`, in units of the granularity, keeping at least one
  unfoldable pub trimmed_size : ℕ → Mstate → ℕ
  trimmed_size pad s =
      let unit = params.granularity in ((s.topsize - pad + (unit - 1)) / unit - 1) * unit

  -- mremap, or else munmap, of the end of a segment
  unfoldable pub shrink_segment : ℕ → ℕ → Mstate → Option Mstate
  shrink_segment sp extra s =
      let newsize = size s sp - extra in
      elim (os.mremap (base s sp) (size s sp) newsize 0 s) [
        | some (at, t) ↦ some t
        | none ↦ os.munmap (base s sp + newsize) extra s
      ]

  -- The bookkeeping for bytes released from the end of the top segment.
  unfoldable pub drop_top : ℕ → ℕ → Mstate → Mstate
  unfolding put init_top
  drop_top sp released s =
      let shrunk = put (sp + 8) (minus64 (size s sp) released) s in
      init_top params s.top (minus64 s.topsize released)
        (record shrunk { footprint = minus64 s.footprint released })

  -- The part of sys_trim that shrinks top: the bytes released.
  unfoldable pub trim_top : ℕ → ℕ → Mstate → Run (ℕ × Mstate)
  unfolding trimmed_size segment_holding has_segment_link shrink_segment drop_top
  trim_top fuel pad s =
      let extra = trimmed_size pad s in
      if not (ltb pad s.topsize)
      then done (0, s)
      else (segment_holding fuel s.top s >>= λ sp. has_segment_link fuel sp s >>= λ linked.
          if sp == 0
          then abort
          else if not (is_extern_segment s sp)
              && is_mmapped_segment s sp
              && leb extra (size s sp)
              && not linked
          then elim (shrink_segment sp extra s) [
            | none ↦ done (0, s)
            | some t ↦ done (extra, if extra == 0 then t else drop_top sp extra t)
          ]
          else done (0, s))

  -- 1 when memory was released
  unfoldable pub sys_trim : ℕ → ℕ → Mstate → Run (ℕ × Mstate)
  unfolding trim_top release_unused_segments
  sys_trim fuel pad s =
      if ltb pad max_request && is_initialized s
      then (trim_top fuel (pad + top_foot_size) s >>= λ trimmed.
          let (top_bytes, t) = trimmed in
          release_unused_segments fuel t >>= λ unused.
          let (segment_bytes, u) = unused in
          let released = (top_bytes + segment_bytes) % 2 ^ 64 in
          if released == 0
          then done
              (0, if ltb u.trim_check u.topsize then record u { trim_check = max_size } else u)
          else done (1, u))
      else done (0, s)
