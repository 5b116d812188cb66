-- ===== src/Dlmalloc/Take/Next.antt =====
-- The next tree bin in use, where tmalloc_large of dlmalloc.c goes on when the bin of the request has
-- nothing.
use Prim.Native.Nat.{bit_and}
use precision_gc.Base.{
  ℕ, zero, suc, ◌^◌, ◌≡◌, refl, sym, ap, ◌∙◌, ◌<◌, ◌⊎◌, inl, inr, arith, Bool, true, false, ◌&&◌,
  not, ltb, ◌==◌, if◌then◌else◌, ==_iff, Bool-cases,
}
use precision_gc.Dlmalloc.{Mstate}
use precision_gc.Dlmalloc.Bins.{
  is_marked, low_bit, left_bits, idx2bit, compute_tree_index, treebin_at,
}
use precision_gc.Dlmalloc.Bins.Sizes.{compute_tree_index_lt}
use precision_gc.Dlmalloc.Bins.Marks.{
  marked_zero, marked_wide, marked-bit_and, bit_and_le, low_bit-IsLowest, least_bit-low,
}
use precision_gc.Dlmalloc.Take.{next_root}

-- A test holds at every number below n.
abbrev every : ℕ → (ℕ → Bool) → Bool
every zero test = true
every (suc n) test = test n && every n test

every_sound : (n : ℕ) (test : ℕ → Bool) (x : ℕ) → every n test ≡ true → x < n → test x ≡ true
every_sound zero test x h lt = absurd (omega arith)
every_sound (suc n) test x h lt = ground (arith, every_sound n test x)

abbrev agree : Bool → Bool → Bool
agree a b = if a then b else not b

agree-same : (a b : Bool) → agree a b ≡ true → a ≡ b
agree-same true true h = refl
agree-same true false h = sym h
agree-same false false h = refl
agree-same false true h = h

left_table :
    every 32 (λ i. every 32 (λ j. agree (is_marked j (left_bits (idx2bit i))) (ltb i j))) ≡ true
unfolding is_marked left_bits
left_table = refl

-- Of the positions below 32, exactly those above i are marked.
marked-left_bits : (i j : ℕ) → i < 32 → j < 32 → is_marked j (left_bits (idx2bit i)) ≡ ltb i j
marked-left_bits i j h k =
    let row : ℕ → ℕ → Bool = λ i j. agree (is_marked j (left_bits (idx2bit i))) (ltb i j) in
    agree-same (is_marked j (left_bits (idx2bit i))) (ltb i j)
      (every_sound 32 (row i) j (every_sound 32 (λ i. every 32 (row i)) i left_table h) k)

module _ (i map : ℕ) (h : i < 32) (wide : map < 2 ^ 32) where
  marked-after :
      (j : ℕ)
      → j < 32
      → is_marked j (bit_and (left_bits (idx2bit i)) map) ≡ (ltb i j && is_marked j map)
  marked-after j k =
      marked-bit_and (left_bits (idx2bit i)) map j ∙ rw (marked-left_bits i j h k) refl

  -- A mark of the map above i is a mark of the conjunction.
  unmarked-after :
      (j : ℕ)
      → i < j
      → is_marked j (bit_and (left_bits (idx2bit i)) map) ≡ false
      → is_marked j map ≡ false
  unmarked-after j above un = elim (Bool-cases (ltb j 32)) [
    | inl low ↦ let e = marked-after j (ground arith) in ground (arith, e, un)
    | inr high ↦ marked_wide 32 map j wide (ground arith)
  ]

  marked-above :
      (j : ℕ)
      → j < 32
      → is_marked j (bit_and (left_bits (idx2bit i)) map) ≡ true
      → (i < j) × (is_marked j map ≡ true)
  marked-above j k on = let e = marked-after j k in ground (arith, e, on)

-- tmalloc_large goes on at the root of the least tree bin in use above the request's; where there is
-- none, it has no root to go on at.
pub next_root-least :
    (nb : ℕ) (s : Mstate)
    → s.treemap < 2 ^ 32
    → ((next_root nb s ≡ 0) × ((j : ℕ) → compute_tree_index nb < j → is_marked j s.treemap ≡ false))
      ⊎ ((i : ℕ) × (compute_tree_index nb < i)
          × (is_marked i s.treemap ≡ true)
          × ((j : ℕ) → compute_tree_index nb < j → j < i → is_marked j s.treemap ≡ false)
          × (next_root nb s ≡ s.word (treebin_at s i)))
unfolding next_root
next_root-least nb s wide =
    let h = compute_tree_index_lt nb in
    let i = compute_tree_index nb in
    let y = bit_and (left_bits (idx2bit (compute_tree_index nb))) s.treemap in
    elim (Bool-cases (y == 0)) [
      | inl empty ↦ inl (
        rw empty refl,
        λ j above.
            unmarked-after i s.treemap h wide j above
              (ap (is_marked j) ((==_iff y 0).0 empty) ∙ marked_zero j),
      )
      | inr some ↦
          let few : y < 2 ^ 32 =
            omega (arith, wide, bit_and_le (left_bits (idx2bit i)) s.treemap) in
          let lowest = low_bit-IsLowest 32 y (ground arith) few in
          let at = marked-above i s.treemap h wide (low_bit 32 y) lowest.0 lowest.1.0 in
          let found = least_bit-low y (ground arith) few in
          inr (
            low_bit 32 y,
            at.0,
            at.1,
            (λ j above below. unmarked-after i s.treemap h wide j above (lowest.1.1 j below)),
            rw some (rw found refl),
          )
    ]
