-- ===== src/Dlmalloc/Serve.antt =====
-- dlmalloc of dlmalloc.c up to the decision to collect or to extend the heap: a request served from the
-- bins, the designated victim or top.
pub mod Top
pub mod Exact
use Prim.Native.Nat.{bit_and}
use precision_gc.Base.{ℕ, ◌+◌, ◌-◌, ◌*◌, ◌/◌, ◌%◌, ◌^◌, not, ltb, leb, ◌==◌, if◌then◌else◌}
use precision_gc.Types.{Run, done, ◌>>=◌}
use precision_gc.Trigger.{min_chunk_size, min_request, pad_request}
use precision_gc.Dlmalloc.{
  Mstate, fd, chunk2mem, set_head, set_inuse_and_pinuse, set_size_and_pinuse_of_inuse_chunk,
  set_size_and_pinuse_of_free_chunk,
}
use precision_gc.Dlmalloc.Bins.{
  small_index, small_index2size, smallbin_at, idx2bit, least_bit, left_bits, compute_bit2idx,
}
use precision_gc.Dlmalloc.Small.{unlink_first_small_chunk, replace_dv}
use precision_gc.Dlmalloc.Take.{tmalloc_large, tmalloc_small}

abbrev pub max_request : ℕ
max_request = 2 ^ 64 - 128

abbrev pub max_small_request : ℕ
max_small_request = 232

-- nb, the size of the chunk that is looked for
unfoldable pub padded : ℕ → ℕ
unfolding pad_request
padded bytes =
    if leb bytes max_small_request
    then (if ltb bytes min_request then min_chunk_size else pad_request bytes)
    else if leb max_request bytes
    then 2 ^ 64 - 1
    else pad_request bytes

unfoldable pub split_dv : ℕ → Mstate → ℕ × Mstate
unfolding set_inuse_and_pinuse set_size_and_pinuse_of_inuse_chunk set_size_and_pinuse_of_free_chunk
split_dv nb s =
    let p = s.dv in
    let rsize = s.dvsize - nb in
    let r = p + nb in
    if leb min_chunk_size rsize
    then (
      chunk2mem p,
      set_size_and_pinuse_of_inuse_chunk p nb
          (set_size_and_pinuse_of_free_chunk r rsize (record s { dv = r; dvsize = rsize })),
    )
    else (chunk2mem p, set_inuse_and_pinuse p s.dvsize (record s { dv = 0; dvsize = 0 }))

unfoldable pub split_top : ℕ → Mstate → ℕ × Mstate
unfolding set_head set_size_and_pinuse_of_inuse_chunk
split_top nb s =
    let p = s.top in
    let rsize = s.topsize - nb in
    let r = p + nb in
    (
      chunk2mem p,
      set_size_and_pinuse_of_inuse_chunk p nb
          (set_head r (rsize / 2 * 2 + 1) (record s { top = r; topsize = rsize })),
    )

-- The designated victim, else top; 0 when the request must be served otherwise.
unfoldable pub from_dv_or_top : ℕ → Mstate → ℕ × Mstate
from_dv_or_top nb s =
    if leb nb s.dvsize then split_dv nb s else if ltb nb s.topsize then split_top nb s else (0, s)

-- a remainderless fit, in the bin of the request or the next one
unfoldable pub exact_fit : ℕ → Mstate → Run (ℕ × Mstate)
unfolding unlink_first_small_chunk set_inuse_and_pinuse
exact_fit idx s =
    let b = smallbin_at s idx in
    let p = fd s b in
    unlink_first_small_chunk b p idx s >>= λ t.
    done (chunk2mem p, set_inuse_and_pinuse p (small_index2size idx) t)

-- the index of the next small bin in use
unfoldable pub next_small : ℕ → ℕ → ℕ
unfolding left_bits least_bit compute_bit2idx
next_small idx smallbits =
    compute_bit2idx (least_bit (bit_and (smallbits * 2 ^ idx % 2 ^ 32) (left_bits (idx2bit idx))))

unfoldable pub next_fit : ℕ → ℕ → Mstate → Run (ℕ × Mstate)
unfolding unlink_first_small_chunk replace_dv set_inuse_and_pinuse
    set_size_and_pinuse_of_inuse_chunk set_size_and_pinuse_of_free_chunk
next_fit nb i s =
    let b = smallbin_at s i in
    let p = fd s b in
    let rsize = small_index2size i - nb in
    let r = p + nb in
    unlink_first_small_chunk b p i s >>= λ t.
    if ltb rsize min_chunk_size
    then done (chunk2mem p, set_inuse_and_pinuse p (small_index2size i) t)
    else (replace_dv r rsize
          (set_size_and_pinuse_of_free_chunk r rsize (set_size_and_pinuse_of_inuse_chunk p nb t))
        >>= λ kept. done (chunk2mem p, kept))

-- what a search in the trees found, or else the designated victim or top
unfoldable pub or_dv_or_top : ℕ → ℕ × Mstate → Run (ℕ × Mstate)
or_dv_or_top nb (mem, s) = done (if mem == 0 then from_dv_or_top nb s else (mem, s))

unfoldable pub serve_small : ℕ → ℕ → Mstate → Run (ℕ × Mstate)
serve_small fuel nb s =
    let idx = small_index nb in
    let smallbits = s.smallmap / 2 ^ idx in
    if not (smallbits % 4 == 0)
    then exact_fit (idx + (1 - smallbits % 2)) s
    else if ltb s.dvsize nb
    then (if not (smallbits == 0)
        then next_fit nb (next_small idx smallbits) s
        else if not (s.treemap == 0)
        then tmalloc_small fuel nb s >>= or_dv_or_top nb
        else done (from_dv_or_top nb s))
    else done (from_dv_or_top nb s)

unfoldable pub serve_large : ℕ → ℕ → Mstate → Run (ℕ × Mstate)
serve_large fuel nb s =
    if not (s.treemap == 0)
    then tmalloc_large fuel nb s >>= or_dv_or_top nb
    else done (from_dv_or_top nb s)

-- The pointer is 0 when no free memory serves the request.
unfoldable pub serve : ℕ → ℕ → Mstate → Run (ℕ × Mstate)
serve fuel bytes s =
    let nb = padded bytes in
    if leb bytes max_small_request
    then serve_small fuel nb s
    else if leb max_request bytes
    then done (from_dv_or_top nb s)
    else serve_large fuel nb s
