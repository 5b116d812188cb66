-- ===== src/Malloc/Bounds.antt =====
-- The bounds of the addresses that gc_malloc has handed out.
use precision_gc.Base.{
  ℕ, ◌-◌, ◌≡◌, ◌≢◌, ◌≤◌, inl, inr, arith, Bool-cases, ◌==◌, ltb, if◌then◌else◌, refl, sym, subst,
}
use precision_gc.Heap.{Memory, Layout}
use precision_gc.Types.{Liballocs, new_bigalloc}
use precision_gc.Malloc.{Gc, returns, blocked, note_bounds, post, thread_block, gc_malloc}

-- The pointer lies within the bounds, which contain those before.
abbrev pub IsWithin : Gc → Gc → ℕ → Type 0
IsWithin s t p = (t.lowest ≤ p) × (p ≤ t.highest) × (t.lowest ≤ s.lowest) × (s.highest ≤ t.highest)

moved_to : (s t u : Gc) (p q : ℕ) → returns q u ≡ returns p t → IsWithin s u q → IsWithin s t p
moved_to s t u p q h w =
    let one : q ≡ p = cc in
    let two : u ≡ t = cc in subst (λ r. IsWithin s t r) one (subst (λ k. IsWithin s k q) two w)

noted :
    (s u : Gc) (q : ℕ)
    → u.lowest ≡ (if ltb q s.lowest then q else s.lowest)
    → u.highest ≡ (if ltb s.highest q then q else s.highest)
    → IsWithin s u q
noted s u q low high = ground arith

module _ (v : Layout) (lib : Liballocs) (mymalloc : ℕ → Memory → ℕ × Memory) where
  -- Whenever gc_malloc returns a pointer other than NULL, the pointer lies within the bounds that it
  -- leaves in __mymalloc_lowest and __mymalloc_highest, and these contain the bounds before.
  pub gc_malloc-IsWithin :
      (size : ℕ) (s t : Gc) (p : ℕ)
      → gc_malloc v lib mymalloc size s ≡ returns p t
      → p ≢ 0
      → IsWithin s t p
  unfolding gc_malloc post note_bounds
  gc_malloc-IsWithin size s t p h ne = elim (Bool-cases (s.mutex == 0)) [
    | inl none_ ↦ let h' : blocked ≡ returns p t = rw none_ at h in cc
    | inr unit_ ↦ elim (Bool-cases ((mymalloc size s.memory).0 == 0)) [
      | inl null ↦
          let h' : returns 0 _ ≡ returns p t = rw (unit_, null) at h in
          let zero_ : 0 ≡ p = cc in absurd (ne (sym zero_))
      | inr block_ ↦
          let (b, m) = mymalloc size s.memory in
          let noted_ = note_bounds (record s { memory = m; mutex = s.mutex - 1 }) b in
          let u = post (record noted_ {
            memory = thread_block v b m;
            bigallocs = new_bigalloc lib s.bigallocs b;
          }) in
          let h' : returns b u ≡ returns p t = rw (unit_, block_) at h in
          moved_to s t u p b h' (noted s u b refl refl)
    ]
  ]
