-- ===== src/Dlmalloc/SysAlloc/First.antt =====
-- The first allocation of dlmalloc.c: memory from the system becomes the first segment, all of it top.
use native.Mathlib.Nat.{add-zero}
use precision_gc.Base.{
  ℕ, ◌+◌, ◌-◌, ◌%◌, ◌^◌, ◌≡◌, refl, ap, ◌∙◌, ◌≤◌, ◌<◌, arith, true, false, ◌&&◌, not, ltb, leb,
  some, ◌==◌,
}
use precision_gc.Types.{done}
use precision_gc.Dlmalloc.{Mstate, Mparams, put, set_head}
use precision_gc.Dlmalloc.Segments.{
  aligned_up, granularity_align, sys_alloc_padding, seg, init_top, init_bins, init_bins_below,
}
use precision_gc.Dlmalloc.Serve.{split_top}
use precision_gc.Dlmalloc.Serve.Top.{IsFresh}
use precision_gc.Dlmalloc.Grow.{Os, add_footprint, lower_least, over_limit}
use precision_gc.Dlmalloc.SysAlloc.{sys_alloc, extend_heap, use_memory, first_segment, asked_size}

-- The state when the program starts.
pub record IsZeroed (s : Mstate) : Type 0 where
  pub no_small : s.smallmap ≡ 0
  pub no_trees : s.treemap ≡ 0
  pub no_dv : s.dvsize ≡ 0
  pub no_top : s.top ≡ 0
  pub no_topsize : s.topsize ≡ 0
  pub no_least : s.least_addr ≡ 0
  pub no_limit : s.footprint_limit ≡ 0

init_top-IsFresh :
    (params : Mparams) (p size : ℕ) (s : Mstate)
    → p % 16 ≡ 0
    → size % 16 ≡ 0
    → 0 < size
    → size < 2 ^ 64
    → s.smallmap ≡ 0
    → s.treemap ≡ 0
    → s.dvsize ≡ 0
    → s.least_addr ≤ p
    → IsFresh (init_top params p size s)
unfolding init_top set_head put
init_top-IsFresh params p size s aligned even pos wide small trees dv owned =
    let offset : ((p + 16) % 16 == 0) ≡ true = ground arith in
    let rest : (size + 18446744073709551616) % 18446744073709551616 ≡ size = omega arith in
    rw offset (
      rw (add-zero p, rest)
        (record {
          no_small = small;
          no_trees = trees;
          no_dv = dv;
          aligned = aligned;
          even = even;
          small = wide;
          owned = owned;
          top_head = ground (arith, pos, even);
        }))

init_top-fields :
    (params : Mparams) (p size : ℕ) (s : Mstate)
    → p % 16 ≡ 0
    → size < 2 ^ 64
    → ((init_top params p size s).top ≡ p)
      × ((init_top params p size s).topsize ≡ size)
      × ((init_top params p size s).footprint ≡ s.footprint)
unfolding init_top set_head put
init_top-fields params p size s aligned wide =
    let offset : ((p + 16) % 16 == 0) ≡ true = ground arith in
    let rest : (size + 18446744073709551616) % 18446744073709551616 ≡ size = omega arith in
    rw offset (rw (add-zero p, rest) (refl, refl, refl))

lower_least-first :
    (a : ℕ) (s : Mstate) → s.least_addr ≡ 0 → lower_least a s ≡ record s { least_addr = a }
unfolding lower_least
lower_least-first a s h = let none : (s.least_addr == 0) ≡ true = ground (arith, h) in rw none refl

-- the state in which init_top starts
abbrev prepared : ℕ → ℕ → Mstate → Mstate
prepared a size s =
    let named =
      put (seg s + 24) 1 (put (seg s + 8) size (put (seg s) a (record s { least_addr = a }))) in
    init_bins (record named { release_checks = 4095 })

-- A first segment without the space that every top leaves free at its end.
first_segment-IsFresh :
    (os : Os) (params : Mparams) (a size : ℕ) (s : Mstate)
    → IsZeroed s
    → a % 16 ≡ 0
    → size % 16 ≡ 0
    → 80 < size
    → size < 2 ^ 64
    → IsFresh (first_segment os params a size s)
      × ((first_segment os params a size s).top ≡ a)
      × ((first_segment os params a size s).topsize ≡ size - 80)
      × ((first_segment os params a size s).footprint ≡ s.footprint)
unfolding first_segment init_bins init_bins_below put
first_segment-IsFresh os params a size s zeroed aligned even pos wide =
    let rest : (size + (2 ^ 64 - 80)) % 2 ^ 64 ≡ size - 80 = omega arith in
    let fields = init_top-fields params a (size - 80) (prepared a size s) aligned (omega arith) in
    rw (lower_least-first a s zeroed.no_least) (
      rw rest (
        init_top-IsFresh params a (size - 80) (prepared a size s) aligned (omega arith)
            (omega arith) (omega arith) zeroed.no_small zeroed.no_trees zeroed.no_dv (omega arith),
        fields.0,
        fields.1,
        fields.2,
      ))

first_size :
    (nb : ℕ)
    → nb < 2 ^ 62
    → (aligned_up 65536 (nb + 96) % 16 ≡ 0)
      × (nb + 96 ≤ aligned_up 65536 (nb + 96))
      × (aligned_up 65536 (nb + 96) < 2 ^ 63)
unfolding aligned_up
first_size nb few = omega (arith, few)

add_footprint-IsZeroed :
    (n : ℕ) (s : Mstate)
    → IsZeroed s
    → IsZeroed (add_footprint n s) × ((add_footprint n s).footprint ≡ (s.footprint + n) % 2 ^ 64)
unfolding add_footprint
add_footprint-IsZeroed n s z = (
  record {
    no_small = z.no_small;
    no_trees = z.no_trees;
    no_dv = z.no_dv;
    no_top = z.no_top;
    no_topsize = z.no_topsize;
    no_least = z.no_least;
    no_limit = z.no_limit;
  },
  refl,
)

module _ (os : Os) (params : Mparams) (fuel nb heap_size a : ℕ) (s : Mstate)
    (zeroed : IsZeroed s) where
  use_memory-first :
      (size : ℕ)
      → nb < (first_segment os params a size (add_footprint size s)).topsize
      → use_memory os params fuel a size nb s
        ≡ done (split_top nb (first_segment os params a size (add_footprint size s)))
  unfolding use_memory
  use_memory-first size fits =
      let no_top : (s.top == 0) ≡ true = ground (arith, zeroed.no_top) in
      let enough : ltb nb (first_segment os params a size (add_footprint size s)).topsize ≡ true =
        ground (arith, fits) in
      rw no_top (rw enough refl)

  asked_size-first :
      (size : ℕ)
      → granularity_align params (nb + sys_alloc_padding) ≡ size
      → asked_size os params nb heap_size s ≡ size
  unfolding asked_size
  asked_size-first size asked =
      let no_top : (s.top == 0) ≡ true = ground (arith, zeroed.no_top) in rw no_top asked

  extend_heap-first :
      (size : ℕ)
      → granularity_align params (nb + sys_alloc_padding) ≡ size
      → nb < size
      → os.mmap size s ≡ some (a, s)
      → extend_heap os params fuel nb heap_size s ≡ use_memory os params fuel a size nb s
  unfolding extend_heap over_limit
  extend_heap-first size asked more memory =
      let first = asked_size-first size asked in
      let no_limit : (s.footprint_limit == 0) ≡ true = ground (arith, zeroed.no_limit) in
      let larger : leb size nb ≡ false = ground (arith, more) in
      rw asked (rw larger (rw no_limit (rw first (rw memory (rw first refl)))))

  sys_alloc-extend :
      sys_alloc os params fuel nb heap_size s ≡ extend_heap os params fuel nb heap_size s
  unfolding sys_alloc
  sys_alloc-extend =
      let direct : (s.mflags % 2 == 1 && leb params.mmap_threshold nb && not (s.topsize == 0))
          ≡ false =
        ground (arith, zeroed.no_topsize) in
      rw direct refl

-- The first allocation, when the system has memory at an aligned address a: the memory is one segment
-- of the granularity's multiple that holds the chunk and what top keeps free. It is all top, from a on,
-- and counted in the footprint, and the chunk is split off top.
pub sys_alloc-first :
    (os : Os) (params : Mparams) (fuel nb heap_size a : ℕ) (s : Mstate)
    → IsZeroed s
    → params.granularity ≡ 65536
    → nb < 2 ^ 62
    → a % 16 ≡ 0
    → os.mmap (aligned_up 65536 (nb + 96)) s ≡ some (a, s)
    → (t : Mstate) × (sys_alloc os params fuel nb heap_size s ≡ done (split_top nb t))
      × IsFresh t
      × (t.top ≡ a)
      × (nb < t.topsize)
      × (t.footprint ≡ (s.footprint + (t.topsize + 80)) % 2 ^ 64)
sys_alloc-first os params fuel nb heap_size a s zeroed unit few aligned memory =
    let size = aligned_up 65536 (nb + 96) in
    let fits = first_size nb few in
    let counted = add_footprint-IsZeroed (aligned_up 65536 (nb + 96)) s zeroed in
    let first =
      first_segment-IsFresh os params a (aligned_up 65536 (nb + 96))
        (add_footprint (aligned_up 65536 (nb + 96)) s) counted.0 aligned fits.0
        (omega (arith, fits)) (omega (arith, fits)) in
    let enough : nb
        < (first_segment os params a (aligned_up 65536 (nb + 96))
            (add_footprint (aligned_up 65536 (nb + 96)) s)).topsize =
      omega (arith, first.2, fits) in
    (
      first_segment os params a size (add_footprint size s),
      sys_alloc-extend os params fuel nb heap_size a s zeroed
          ∙ (extend_heap-first os params fuel nb heap_size a s zeroed size
                (ap (λ u. aligned_up u (nb + 96)) unit) (omega (arith, fits)) memory
              ∙ use_memory-first os params fuel nb heap_size a s zeroed size enough),
      first.0,
      first.1,
      enough,
      first.3 ∙ (counted.1 ∙ omega (arith, first.2, fits)),
    )
