-- ===== src/Dlmalloc/Align.antt =====
-- internal_memalign of dlmalloc.c and the calls that ask for an alignment.
use Prim.Native.Nat.{bit_and}
use precision_gc.Base.{
  ℕ, zero, suc, ◌+◌, ◌-◌, ◌*◌, ◌/◌, ◌%◌, ◌^◌, ◌&&◌, ◌||◌, not, ltb, leb, ◌==◌, if◌then◌else◌,
}
use precision_gc.Types.{Run, done, out_of_fuel, ◌>>=◌}
use precision_gc.Trigger.{Accounts, request2size, min_chunk_size}
use precision_gc.Dlmalloc.{
  Mstate, Mparams, put, prev_foot, set_head, is_mmapped, chunksize, minus64, mem2chunk, chunk2mem,
  set_inuse,
}
use precision_gc.Dlmalloc.Serve.{max_request}
use precision_gc.Dlmalloc.Segments.{aligned_up}
use precision_gc.Dlmalloc.Grow.{Os}
use precision_gc.Dlmalloc.Free.{dispose_chunk}
use precision_gc.Dlmalloc.Alloc.{dlmalloc}
use precision_gc.Dlmalloc.Resize.{split_off}

-- `while (a < alignment) a <<= 1`, on 64 bits
unfoldable pub doubled_to : ℕ → ℕ → ℕ → Run ℕ
doubled_to zero a alignment = out_of_fuel
doubled_to (suc fuel) a alignment =
    let later = doubled_to fuel (a * 2 % 2 ^ 64) alignment in
    if ltb a alignment then later else done a

-- at least a chunk, and a power of two
unfoldable pub proper_alignment : ℕ → ℕ → Run ℕ
unfolding doubled_to
proper_alignment fuel alignment =
    let least = if ltb alignment min_chunk_size then min_chunk_size else alignment in
    if bit_and least (least - 1) == 0 then done least else doubled_to fuel 32 least

-- the chunk whose user bytes start at the next aligned address
unfoldable pub aligned_chunk : ℕ → ℕ → ℕ
unfolding aligned_up
aligned_chunk alignment mem =
    let br = mem2chunk (aligned_up alignment mem) in
    if leb min_chunk_size (br - mem2chunk mem) then br else br + alignment

module _ (os : Os) (params : Mparams) where
  -- Give back the leading bytes of a misaligned chunk.
  unfoldable pub give_leader : ℕ → ℕ → ℕ → Mstate → Run Mstate
  unfolding put set_head set_inuse dispose_chunk
  give_leader fuel p newp s =
      let leadsize = newp - p in
      let newsize = chunksize s p - leadsize in
      if is_mmapped s p
      then done (set_head newp newsize (put newp (prev_foot s p + leadsize) s))
      else dispose_chunk os fuel p leadsize (set_inuse p leadsize (set_inuse newp newsize s))

  -- Give back spare room at the end.
  unfoldable pub give_remainder : ℕ → ℕ → ℕ → Mstate → Run Mstate
  unfolding split_off
  give_remainder fuel p nb s =
      let size = chunksize s p in
      if not (is_mmapped s p) && ltb (nb + min_chunk_size) size
      then split_off os params fuel p nb (size - nb) s
      else done s

  -- the part of internal_memalign behind a successful internal_malloc
  unfoldable pub align_chunk : ℕ → ℕ → ℕ → ℕ → Mstate → Run (ℕ × Mstate)
  unfolding aligned_chunk give_leader give_remainder
  align_chunk fuel alignment nb mem s =
      let p = mem2chunk mem in
      let newp = if mem % alignment == 0 then p else aligned_chunk alignment mem in
      (if mem % alignment == 0 then done s else give_leader fuel p newp s) >>= λ led.
      give_remainder fuel newp nb led >>= λ t. done (chunk2mem newp, t)

  module _ (gc_collect : Accounts Mstate → Run (Accounts Mstate)) where
    unfoldable pub internal_memalign : ℕ → ℕ → ℕ → ℕ → Accounts Mstate → Run (ℕ × Accounts Mstate)
    unfolding proper_alignment request2size dlmalloc align_chunk
    internal_memalign fuel rounds alignment bytes a = proper_alignment fuel alignment >>= λ unit.
        let nb = request2size bytes in
        let req = (nb + unit + (min_chunk_size - 8)) % 2 ^ 64 in
        if leb (minus64 max_request unit) bytes
        then done (0, a)
        else (dlmalloc os params gc_collect fuel rounds req a >>= λ got.
            let (mem, b) = got in
            if mem == 0
            then done (0, b)
            else (align_chunk fuel unit nb mem b.state >>= λ placed.
                done (placed.0, record b { state = placed.1 })))

    unfoldable pub dlmemalign : ℕ → ℕ → ℕ → ℕ → Accounts Mstate → Run (ℕ × Accounts Mstate)
    unfolding dlmalloc internal_memalign
    dlmemalign fuel rounds alignment bytes a =
        if leb alignment 16
        then dlmalloc os params gc_collect fuel rounds bytes a
        else internal_memalign fuel rounds alignment bytes a

    -- EINVAL and ENOMEM
    abbrev pub einval : ℕ
    einval = 22

    abbrev pub enomem : ℕ
    enomem = 12

    -- The error code; the pointer that *pp takes is 0 where the source leaves *pp alone.
    unfoldable pub dlposix_memalign :
        ℕ → ℕ → ℕ → ℕ → Accounts Mstate → Run (ℕ × ℕ × Accounts Mstate)
    unfolding dlmalloc internal_memalign
    dlposix_memalign fuel rounds alignment bytes a =
        let d = alignment / 8 in
        let unit = if ltb alignment min_chunk_size then min_chunk_size else alignment in
        let got =
          if alignment == 16
          then dlmalloc os params gc_collect fuel rounds bytes a
          else if leb bytes (minus64 max_request alignment)
          then internal_memalign fuel rounds unit bytes a
          else done (0, a) in
        if not (alignment == 16)
          && (not (alignment % 8 == 0) || (d == 0) || not (bit_and d (d - 1) == 0))
        then done (einval, 0, a)
        else (got >>= λ served.
            let (mem, b) = served in done (if mem == 0 then enomem else 0, mem, b))

    unfoldable pub dlvalloc : ℕ → ℕ → ℕ → Accounts Mstate → Run (ℕ × Accounts Mstate)
    unfolding dlmemalign
    dlvalloc fuel rounds bytes a = dlmemalign fuel rounds params.page_size bytes a

    unfoldable pub dlpvalloc : ℕ → ℕ → ℕ → Accounts Mstate → Run (ℕ × Accounts Mstate)
    unfolding aligned_up dlmemalign
    dlpvalloc fuel rounds bytes a =
        dlmemalign fuel rounds params.page_size (aligned_up params.page_size bytes) a
