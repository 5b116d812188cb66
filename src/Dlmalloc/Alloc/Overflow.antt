-- ===== src/Dlmalloc/Alloc/Overflow.antt =====
-- dlcalloc of dlmalloc.c when the product of its arguments does not fit in 64 bits.
use native.Mathlib.Nat.{le-div_iff_mul-le, mul-le-mul, zero-mul, mul_comm, div-mul-le_self}
use precision_gc.Base.{
  ℕ, zero, suc, ◌+◌, ◌-◌, ◌*◌, ◌/◌, ◌%◌, ◌^◌, ◌≡◌, refl, ap, ◌∙◌, ◌≤◌, ◌<◌, inl, inr, arith, true,
  false, ◌&&◌, ◌||◌, not, ltb, leb, ◌==◌, Bool-cases,
}
use precision_gc.Types.{done}
use precision_gc.Dlmalloc.{Mstate, Mparams}
use precision_gc.Dlmalloc.Segments.{aligned_up}
use precision_gc.Dlmalloc.Serve.{padded}
use precision_gc.Dlmalloc.Grow.{Os, mmap_alloc, mapped_size, over_limit}
use precision_gc.Dlmalloc.SysAlloc.{sys_alloc, extend_heap}
use precision_gc.Dlmalloc.Alloc.{product_size}

positive : (n m : ℕ) → 2 ^ 64 ≤ n * m → 0 < n
positive zero m big = absurd (omega (arith, big, zero-mul m))
positive (suc n) m big = omega arith

small_product : (n m : ℕ) → 2 ^ 64 ≤ n * m → n ≤ 65535 → m ≤ 65535 → ⊥
small_product n m big hn hm = omega (arith, mul-le-mul hn hm)

quotient : (n m : ℕ) → 2 ^ 64 ≤ n * m → 0 < n → n * m % 2 ^ 64 / n ≡ m → ⊥
quotient n m big pos e =
    let low : m ≤ n * m % 2 ^ 64 / n = omega (arith, e) in
    omega (arith, (le-div_iff_mul-le pos).0 low, mul_comm m n)

product_size-overflow :
    (n m : ℕ) → n < 2 ^ 64 → m < 2 ^ 64 → 2 ^ 64 ≤ n * m → product_size n m ≡ 2 ^ 64 - 1
unfolding product_size
product_size-overflow n m hn hm big =
    let pos : 0 < n = positive n m big in
    let some : (n == 0) ≡ false = ground (arith, pos) in
    let large : (ltb 65535 n || ltb 65535 m) ≡ true =
      elim (Bool-cases (ltb 65535 n || ltb 65535 m)) [
        | inl on ↦ on
        | inr off ↦ absurd (small_product n m big (ground (arith, off)) (ground (arith, off)))
      ] in
    let lost : (n * m % 2 ^ 64 / n == m) ≡ false = elim (Bool-cases (n * m % 2 ^ 64 / n == m)) [
      | inl on ↦ absurd (quotient n m big pos (ground (arith, on)))
      | inr off ↦ off
    ] in
    rw some (rw large (rw lost refl))

padded_max : padded (2 ^ 64 - 1) ≡ 2 ^ 64 - 1
unfolding padded
padded_max = refl

aligned_up_small :
    (unit n : ℕ) → 0 < unit → unit < 2 ^ 62 → n < 2 ^ 62 → aligned_up unit (2 ^ 64 + n) < 2 ^ 63
unfolding aligned_up
aligned_up_small unit n pos wide few =
    omega (arith, div-mul-le_self ((2 ^ 64 + n + (unit - 1)) % 2 ^ 64) unit)

module _ (os : Os) (params : Mparams) (s : Mstate) where
  unmapped :
      0 < params.page_size
      → params.page_size < 2 ^ 62
      → mmap_alloc os params (2 ^ 64 - 1) s ≡ (0, s)
  unfolding mmap_alloc mapped_size
  unmapped pos few =
      let small = aligned_up_small params.page_size 62 pos few (omega arith) in
      let wrapped : ltb (2 ^ 64 - 1) (aligned_up params.page_size (2 ^ 64 + 62)) ≡ false =
        ground (arith, small) in
      elim (Bool-cases (over_limit (aligned_up params.page_size (2 ^ 64 + 62)) s)) [
        | inl over ↦ rw over refl
        | inr under ↦ rw under (rw wrapped refl)
      ]

  unextended :
      (fuel heap_size : ℕ)
      → 0 < params.granularity
      → params.granularity < 2 ^ 62
      → extend_heap os params fuel (2 ^ 64 - 1) heap_size s ≡ done (0, s)
  unfolding extend_heap
  unextended fuel heap_size pos few =
      let small = aligned_up_small params.granularity 95 pos few (omega arith) in
      let wrapped : leb (aligned_up params.granularity (2 ^ 64 + 95)) (2 ^ 64 - 1) ≡ true =
        ground (arith, small) in
      rw wrapped refl

-- A product of two numbers of 64 bits that does not fit asks sys_alloc for more than there can be:
-- it returns NULL and leaves the state alone.
pub product_size-refused :
    (os : Os) (params : Mparams) (fuel n m heap_size : ℕ) (s : Mstate)
    → n < 2 ^ 64
    → m < 2 ^ 64
    → 2 ^ 64 ≤ n * m
    → 0 < params.page_size
    → params.page_size < 2 ^ 62
    → 0 < params.granularity
    → params.granularity < 2 ^ 62
    → sys_alloc os params fuel (padded (product_size n m)) heap_size s ≡ done (0, s)
unfolding sys_alloc
product_size-refused os params fuel n m heap_size s hn hm big page_pos page_few unit_pos unit_few =
    let e = ap padded (product_size-overflow n m hn hm big) ∙ padded_max in
    let direct =
      s.mflags % 2 == 1 && leb params.mmap_threshold (2 ^ 64 - 1) && not (s.topsize == 0) in
    rw e (
      rw (unmapped os params s page_pos page_few) (elim (Bool-cases direct) [
        | inl on ↦ rw on (unextended os params s fuel heap_size unit_pos unit_few)
        | inr off ↦ rw off (unextended os params s fuel heap_size unit_pos unit_few)
      ]))
