-- ===== src/Dlmalloc/Bulk.antt =====
-- ialloc and internal_bulk_free of dlmalloc.c: several chunks at a time.
use precision_gc.Base.{
  ℕ, zero, suc, ◌+◌, ◌-◌, ◌*◌, ◌/◌, ◌%◌, ◌^◌, Bool, false, true, ◌&&◌, not, ltb, ◌==◌,
  if◌then◌else◌,
}
use precision_gc.Types.{Run, done, abort, ◌>>=◌}
use precision_gc.Trigger.{Accounts, request2size}
use precision_gc.Dlmalloc.{
  Mstate, Mparams, put, is_inuse, chunksize, minus64, mem2chunk, chunk2mem, ok_address, set_inuse,
  set_size_and_pinuse_of_inuse_chunk,
}
use precision_gc.Dlmalloc.Grow.{Os}
use precision_gc.Dlmalloc.Release.{sys_trim}
use precision_gc.Dlmalloc.Free.{dispose_chunk}
use precision_gc.Dlmalloc.Alloc.{dlmalloc, zeroed}

module _ (os : Os) (params : Mparams) where
  -- The round for one pointer, whose cell has been set to 0: merge with the chunk of the next cell, or
  -- dispose of the chunk.
  unfoldable pub free_or_merge : ℕ → ℕ → ℕ → ℕ → Mstate → Run Mstate
  unfolding put set_inuse dispose_chunk
  free_or_merge fuel a left mem s =
      let p = mem2chunk mem in
      let psize = chunksize s p in
      let next = p + psize in
      let b = a + 8 in
      let cleared = put a 0 s in
      if not (ok_address s p && is_inuse s p)
      then abort
      else if not (left == 0) && (cleared.word b == chunk2mem next)
      then done (put b (chunk2mem p) (set_inuse p (chunksize s next + psize) cleared))
      else dispose_chunk os fuel p psize cleared

  -- The loop over the array of pointers from the address a on, with so many left behind the first.
  unfoldable pub free_array : ℕ → ℕ → ℕ → Mstate → Run Mstate
  unfolding free_or_merge
  free_array fuel a zero s = done s
  free_array fuel a (suc left) s =
      let mem = s.word a in
      (if mem == 0 then done s else free_or_merge fuel a left mem s)
      >>= free_array fuel (a + 8) left

  -- Without footers no chunk is left unfreed.
  unfoldable pub internal_bulk_free : ℕ → ℕ → ℕ → Mstate → Run Mstate
  unfolding free_array sys_trim
  internal_bulk_free fuel array nelem s = free_array fuel array nelem s >>= λ t.
      if ltb t.trim_check t.topsize
      then (sys_trim os params fuel 0 t >>= λ trimmed. done trimmed.1)
      else done t

  -- `contents_size += request2size(sizes[i])` for the first n elements
  unfoldable pub total_size : ℕ → (ℕ → ℕ) → ℕ
  unfolding request2size
  total_size zero sizes = 0
  total_size (suc n) sizes = (total_size n sizes + request2size (sizes n)) % 2 ^ 64

  -- Split out the elements from index i on, `left` of them behind the first; the last absorbs the rest.
  unfoldable pub split_elements : ℕ → (ℕ → ℕ) → ℕ → ℕ → ℕ → ℕ → Mstate → Mstate
  unfolding put set_size_and_pinuse_of_inuse_chunk request2size
  split_elements marray sizes i zero p remainder_size s =
      set_size_and_pinuse_of_inuse_chunk p remainder_size (put (marray + 8 * i) (chunk2mem p) s)
  split_elements marray sizes i (suc left) p remainder_size s =
      let size = request2size (sizes i) in
      split_elements marray sizes (i + 1) left (p + size) (minus64 remainder_size size)
        (set_size_and_pinuse_of_inuse_chunk p size (put (marray + 8 * i) (chunk2mem p) s))

  -- The part of ialloc behind the allocation of the aggregate chunk. Without an array of the caller's,
  -- the end of the chunk becomes one.
  unfoldable pub split_aggregate : ℕ → (ℕ → ℕ) → Bool → ℕ → ℕ → ℕ → ℕ → Mstate → ℕ × Mstate
  unfolding zeroed set_size_and_pinuse_of_inuse_chunk split_elements
  split_aggregate n sizes clear chunks contents_size array_size mem s =
      let p = mem2chunk mem in
      let whole = chunksize s p in
      let cleared = if clear then zeroed mem ((whole - 8 - array_size) / 8) s else s in
      let array_chunk = p + contents_size in
      if chunks == 0
      then (
        chunk2mem array_chunk,
        split_elements (chunk2mem array_chunk) sizes 0 (n - 1) p contents_size
            (set_size_and_pinuse_of_inuse_chunk array_chunk (whole - contents_size) cleared),
      )
      else (chunks, split_elements chunks sizes 0 (n - 1) p whole cleared)

  -- disable_mmap, and enable_mmap if it was enabled
  unfoldable pub with_mmap : Bool → Mstate → Mstate
  with_mmap enabled s = record s { mflags = s.mflags / 2 * 2 + (if enabled then 1 else 0) }

  module _ (gc_collect : Accounts Mstate → Run (Accounts Mstate)) where
    -- With bit 0 of opts all elements have the size `sizes 0`, and with bit 1 they are cleared.
    unfoldable pub ialloc :
        ℕ → ℕ → ℕ → (ℕ → ℕ) → ℕ → ℕ → Accounts Mstate → Run (ℕ × Accounts Mstate)
    unfolding request2size dlmalloc total_size split_aggregate with_mmap
    ialloc fuel rounds n sizes opts chunks a =
        let same = opts % 2 == 1 in
        let each = λ (i : ℕ). if same then sizes 0 else sizes i in
        let array_size = if chunks == 0 then request2size (n * 8 % 2 ^ 64) else 0 in
        let contents_size =
          if same then n * request2size (sizes 0) % 2 ^ 64 else total_size n sizes in
        let request = minus64 ((contents_size + array_size) % 2 ^ 64) 8 in
        let was_enabled = a.state.mflags % 2 == 1 in
        let disabled = record a { state = with_mmap false a.state } in
        if n == 0
        then (if chunks == 0
            then dlmalloc os params gc_collect fuel rounds 0 a
            else done (chunks, a))
        else (dlmalloc os params gc_collect fuel rounds request disabled >>= λ got.
            let (mem, b) = got in
            let s = if was_enabled then with_mmap true b.state else b.state in
            let (marray, t) =
              if mem == 0
              then (0, s)
              else split_aggregate n each (opts / 2 % 2 == 1) chunks contents_size array_size mem
                  s in
            done (marray, record b { state = t }))
