-- ===== src/Types/Bigallocs.antt =====
-- bigallocs_list of gc.c: the set of page indices in which blocks were handed out.
use precision_gc.Base.{ℕ, ◌≡◌, ◌↔◌, ◌⊎◌, inl, inr, true, false, List, [], ◌∷◌, arith, Bool-cases}
use precision_gc.Types.{Liballocs, has_index, valid_bigalloc, new_bigalloc}

-- No index is listed twice.
abbrev pub IsDistinct : Liballocs → List ℕ → Type 0
IsDistinct lib [] = Unit
IsDistinct lib (b ∷ bs) = (has_index lib b bs ≡ false) × IsDistinct lib bs

module _ (lib : Liballocs) where
  -- Registering a pointer makes exactly the pointers of its page index valid, beside those that were.
  pub valid_bigalloc-new_bigalloc :
      (bigallocs : List ℕ) (p q : ℕ)
      → (valid_bigalloc lib (new_bigalloc lib bigallocs p) q ≡ true)
        ↔ ((lib.page_index q ≡ lib.page_index p) ⊎ (valid_bigalloc lib bigallocs q ≡ true))
  unfolding new_bigalloc valid_bigalloc has_index
  valid_bigalloc-new_bigalloc bigallocs p q =
      elim (Bool-cases (has_index lib (lib.page_index p) bigallocs)) [
        | inl old ↦ rw old (inr, λ s. elim s [ inl e ↦ rw e old | inr valid ↦ valid ])
        | inr new ↦ rw new (ground arith)
      ]

  -- Registering a pointer in a list of distinct page indices leaves the indices distinct.
  pub new_bigalloc-IsDistinct :
      (bigallocs : List ℕ) (p : ℕ)
      → IsDistinct lib bigallocs
      → IsDistinct lib (new_bigalloc lib bigallocs p)
  unfolding new_bigalloc valid_bigalloc
  new_bigalloc-IsDistinct bigallocs p d =
      elim (Bool-cases (has_index lib (lib.page_index p) bigallocs)) [
        | inl old ↦ rw old d
        | inr new ↦ rw new (new, d)
      ]
