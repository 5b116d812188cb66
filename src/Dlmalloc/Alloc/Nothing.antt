-- ===== src/Dlmalloc/Alloc/Nothing.antt =====
-- serve and get_heap_size of dlmalloc.c where no free memory is large enough.
use native.Mathlib.Nat.{zero-div}
use precision_gc.Base.{
  ℕ, ◌/◌, ◌^◌, ◌≡◌, refl, ap, ◌∙◌, ◌≤◌, ◌<◌, inl, inr, arith, true, false, ltb, leb, ◌==◌,
  Bool-cases, ◌-◌,
}
use precision_gc.Types.{done}
use precision_gc.Trigger.Sizes.{request2size-bounds}
use precision_gc.Dlmalloc.{Mstate}
use precision_gc.Dlmalloc.Bins.{small_index}
use precision_gc.Dlmalloc.Stats.{internal_mallinfo, get_heap_size}
use precision_gc.Dlmalloc.Serve.{padded, serve, serve_small, serve_large, from_dv_or_top}
use precision_gc.Dlmalloc.Serve.Top.{padded-request2size}
use precision_gc.Dlmalloc.SysAlloc.First.{IsZeroed}

-- All free memory is top, which is too small.
module _ (s : Mstate) (no_small : s.smallmap ≡ 0) (no_trees : s.treemap ≡ 0) (no_dv : s.dvsize ≡ 0)
    (fuel bytes : ℕ) (few : bytes < 2 ^ 63) (full : s.topsize ≤ padded bytes) where
  some_bytes : 32 ≤ padded bytes
  some_bytes = rw (padded-request2size bytes few) (request2size-bounds bytes few).1

  from-nothing : from_dv_or_top (padded bytes) s ≡ (0, s)
  unfolding from_dv_or_top
  from-nothing =
      let beyond : leb (padded bytes) s.dvsize ≡ false = ground (arith, no_dv, some_bytes) in
      let outside : ltb (padded bytes) s.topsize ≡ false = ground (arith, full) in
      rw beyond (rw outside refl)

  small-nothing : serve_small fuel (padded bytes) s ≡ done (0, s)
  unfolding serve_small
  small-nothing =
      let beyond : ltb s.dvsize (padded bytes) ≡ true = ground (arith, no_dv, some_bytes) in
      let none : s.smallmap / 2 ^ small_index (padded bytes) ≡ 0 =
        ap (λ m. m / 2 ^ small_index (padded bytes)) no_small
        ∙ zero-div (2 ^ small_index (padded bytes)) in
      let no_tree : (s.treemap == 0) ≡ true = ground (arith, no_trees) in
      rw none (rw beyond (rw no_tree (ap done from-nothing)))

  large-nothing : serve_large fuel (padded bytes) s ≡ done (0, s)
  unfolding serve_large
  large-nothing =
      let no_tree : (s.treemap == 0) ≡ true = ground (arith, no_trees) in
      rw no_tree (ap done from-nothing)

  pub serve-nothing : serve fuel bytes s ≡ done (0, s)
  unfolding serve
  serve-nothing =
      let possible : leb (2 ^ 64 - 128) bytes ≡ false = ground (arith, few) in
      elim (Bool-cases (leb bytes 232)) [
        | inl small ↦ rw small small-nothing
        | inr large ↦ rw large (rw possible large-nothing)
      ]

-- Nothing has been taken from the system yet.
pub get_heap_size-nothing : (s : Mstate) → IsZeroed s → (fuel : ℕ) → get_heap_size fuel s ≡ done 0
unfolding get_heap_size internal_mallinfo
get_heap_size-nothing s zeroed fuel =
    let no_top : (s.top == 0) ≡ true = ground (arith, zeroed.no_top) in rw no_top refl
