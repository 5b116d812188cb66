-- ===== src/Types/Valid.antt =====
-- Which words gc.c takes for pointers to heap objects (valid_heap_object), against a description of them.
use mathlib.Core.List.{Memᴰ}
use mathlib.Core.List.Memᴰ
use precision_gc.Base.{
  ℕ, ◌≡◌, ◌≢◌, ◌≤◌, ◌<◌, ◌↔◌, inl, inr, refl, true, List, [], ◌∷◌, arith, ◌==◌, Bool-cases, ==_iff,
}
use precision_gc.Types.{
  Liballocs, is_plausible_pointer, has_index, valid_bigalloc, valid_heap_object,
}

-- The pointer is plausible, its page is of a registered big allocation, and liballocs says that an
-- allocation of __generic_malloc_allocator starts there and is not empty.
pub record IsObject (lib : Liballocs) (bigallocs : List ℕ) (p : ℕ) : Type 0 where
  pub low : 0x40_0000 ≤ p
  pub below : p < 0x8000_0000_0000
  pub registered : Memᴰ (lib.page_index p) bigallocs
  pub generic : (lib.alloc_info p).generic_malloc ≡ true
  pub bytes : (lib.alloc_info p).size ≢ 0
  pub start : (lib.alloc_info p).start ≡ p

module _ (lib : Liballocs) where
  has_index-mem : (i : ℕ) (bs : List ℕ) → (has_index lib i bs ≡ true) ↔ Memᴰ i bs
  unfolding has_index
  has_index-mem i [] = (λ h. cc, λ at. absurd (Memᴰ.not-nil at))
  has_index-mem i (b ∷ bs) = elim (Bool-cases (i == b)) [
    | inl on ↦ rw on (λ h. Memᴰ.head ((==_iff i b).0 on), λ at. refl)
    | inr off ↦ rw off (
      λ h. Memᴰ.tail ((has_index-mem i bs).0 h),
      λ at. elim (Memᴰ.cases_cons at) [
        | inl e ↦ cc ((==_iff i b).1 e)
        | inr later ↦ (has_index-mem i bs).1 later
      ],
    )
  ]

  pub valid_heap_object-IsObject :
      (bigallocs : List ℕ) (p : ℕ)
      → (valid_heap_object lib bigallocs p ≡ true) ↔ IsObject lib bigallocs p
  unfolding valid_heap_object valid_bigalloc is_plausible_pointer
  valid_heap_object-IsObject bigallocs p = (
    λ h. record {
      low = ground (arith, h);
      below = ground (arith, h);
      registered = (has_index-mem (lib.page_index p) bigallocs).0 (ground (arith, h));
      generic = ground (arith, h);
      bytes = ground (arith, h);
      start = ground (arith, h);
    },
    λ o.
        let index = (has_index-mem (lib.page_index p) bigallocs).1 o.registered in
        ground (arith, index, o.low, o.below, o.generic, o.bytes, o.start),
  )
