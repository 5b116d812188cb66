-- ===== src/Dlmalloc/Bins/Sizes.antt =====
-- Which sizes the tree bins hold: compute_tree_index of dlmalloc.c against minsize_for_tree_index.
use native.Mathlib.Numerals.{towards_suc}
use native.Mathlib.Nat.{le-div_iff_mul-le, div-lt_iff_lt-mul}
use precision_gc.Base.{
  ℕ, zero, suc, ◌+◌, ◌*◌, ◌/◌, ◌%◌, ◌^◌, ◌≡◌, refl, ◌≤◌, ◌<◌, ◌⊎◌, inl, inr, arith, ltb, ◌==◌,
  Bool-cases, ap, ◌∙◌,
}
use precision_gc.Dlmalloc.Bins.{high_bit, compute_tree_index, minsize_for_tree_index}

pub two_power_suc : (k : ℕ) → 2 ^ suc k ≡ 2 * 2 ^ k
two_power_suc k = omega arith

pub two_power_pos : (k : ℕ) → 0 < 2 ^ k
two_power_pos zero = omega arith
two_power_pos (suc k) = omega (arith, two_power_suc k, two_power_pos k)

-- the highest bit of a number that is not 0
pub high_bit-bracket :
    (n x : ℕ) → 0 < x → x < 2 ^ n → (2 ^ high_bit n x ≤ x) × (x < 2 * 2 ^ high_bit n x)
unfolding high_bit
high_bit-bracket zero x pos h = absurd (omega arith)
high_bit-bracket (suc n) x pos h = elim (Bool-cases (x / 2 == 0)) [
  | inl t ↦ rw t (ground arith)
  | inr f ↦
      let ih = high_bit-bracket n (x / 2) (ground arith) (omega (arith, two_power_suc n)) in
      rw f (rw (two_power_suc (high_bit n (x / 2))) (omega (arith, ih)))
]

high_bit-mono_lt : (n x m : ℕ) → 0 < x → x < 2 ^ n → x < 2 ^ m → high_bit n x < m
unfolding high_bit
high_bit-mono_lt zero x m pos h k = absurd (omega arith)
high_bit-mono_lt (suc n) x zero pos h k = absurd (omega arith)
high_bit-mono_lt (suc n) x (suc m) pos h k = elim (Bool-cases (x / 2 == 0)) [
  | inl t ↦ rw t (omega arith)
  | inr f ↦
      let ih =
        high_bit-mono_lt n (x / 2) m (ground arith) (omega (arith, two_power_suc n))
          (omega (arith, two_power_suc m)) in
      rw f (omega (arith, ih))
]

-- The smaller and the larger half of a range of a power of two.
half_cases : (c size : ℕ) → 0 < c → 2 * c ≤ size → size < 4 * c → (size / c ≡ 2) ⊎ (size / c ≡ 3)
half_cases c size pos low high =
    let at_least = (le-div_iff_mul-le pos).1 low in
    let below = (div-lt_iff_lt-mul pos).1 high in ground (arith, at_least, below)

-- the index of a size, by cases on X
index_large : (size : ℕ) → size < 2 ^ 40 → 65535 < size / 256 → compute_tree_index size ≡ 31
unfolding compute_tree_index
index_large size h big = ground arith

index_between :
    (size : ℕ)
    → 256 ≤ size
    → size / 256 < 65536
    → compute_tree_index size
      ≡ high_bit 32 (size / 256) * 2 + size / 2 ^ (high_bit 32 (size / 256) + 7) % 2
unfolding compute_tree_index
index_between size low high =
    let e : size / 256 % 2 ^ 32 ≡ size / 256 = omega arith in rw e (ground arith)

-- What holds of an index k * 2 + b, when size lies in half b of the range of 2 ^ (k + 8).
abbrev IsHalf : ℕ → ℕ → ℕ → Type 0
IsHalf size k b =
    (b < 2)
    × (2 * 2 ^ (k + 7) + b * 2 ^ (k + 7) ≤ size)
    × (size < 2 * 2 ^ (k + 7) + (b + 1) * 2 ^ (k + 7))

minsize_half :
    (k b : ℕ) → b < 2 → minsize_for_tree_index (k * 2 + b) ≡ 2 * 2 ^ (k + 7) + b * 2 ^ (k + 7)
unfolding minsize_for_tree_index
minsize_half k b h =
    let half : (k * 2 + b) / 2 ≡ k = omega arith in
    let odd : (k * 2 + b) % 2 ≡ b = omega arith in rw (half, odd) (simp towards_suc (omega arith))

minsize_next :
    (k b : ℕ)
    → b < 2
    → minsize_for_tree_index (k * 2 + b + 1) ≡ 2 * 2 ^ (k + 7) + (b + 1) * 2 ^ (k + 7)
minsize_next k zero h =
    let e : k * 2 + 0 + 1 ≡ k * 2 + 1 = omega arith in
    ap minsize_for_tree_index e ∙ (minsize_half k 1 (omega arith) ∙ omega arith)
minsize_next k (suc zero) h =
    let e : k * 2 + 1 + 1 ≡ suc k * 2 + 0 = omega arith in
    ap minsize_for_tree_index e
    ∙ (minsize_half (suc k) 0 (omega arith) ∙ simp towards_suc (omega arith))
minsize_next k (suc (suc b)) h = absurd (omega arith)

-- A size of which k is the highest bit of X lies in one half.
IsHalf-of :
    (size k : ℕ)
    → 2 ^ k ≤ size / 256
    → size / 256 < 2 * 2 ^ k
    → IsHalf size k (size / 2 ^ (k + 7) % 2)
IsHalf-of size k low high =
    let e : 2 ^ (k + 7) ≡ 128 * 2 ^ k = simp towards_suc (omega arith) in
    let c = 2 ^ (k + 7) in
    let pos : 0 < 2 ^ (k + 7) = omega (arith, e, two_power_pos k) in
    elim (half_cases (2 ^ (k + 7)) size pos (omega (arith, e)) (omega (arith, e))) [
      | inl two ↦
          let few : size / 2 ^ (k + 7) < 3 = omega (arith, two) in
          let below = (div-lt_iff_lt-mul pos).0 few in rw two (omega (arith, e, below))
      | inr three ↦
          let many : 3 ≤ size / 2 ^ (k + 7) = omega (arith, three) in
          let above = (le-div_iff_mul-le pos).0 many in rw three (omega (arith, e, above))
    ]

-- A large size below 2^40 belongs to the bin of its index: no less than the least size of the bin, and
-- but for the last bin less than that of the next.
pub compute_tree_index-minsize :
    (size : ℕ)
    → 256 ≤ size
    → size < 2 ^ 40
    → (compute_tree_index size ≤ 31)
      × (minsize_for_tree_index (compute_tree_index size) ≤ size)
      × ((compute_tree_index size ≡ 31)
          ⊎ (size < minsize_for_tree_index (compute_tree_index size + 1)))
compute_tree_index-minsize size low high = elim (Bool-cases (ltb 65535 (size / 256))) [
  | inl big ↦
      let last = index_large size high (ground arith) in
      let many : 65535 < size / 256 = ground arith in
      rw last (omega arith, omega (arith, many, minsize_half 15 1 (omega arith)), inl refl)
  | inr fits ↦
      let k = high_bit 32 (size / 256) in
      let small : size / 256 < 65536 = ground arith in
      let bracket = high_bit-bracket 32 (size / 256) (omega arith) (omega arith) in
      let half = IsHalf-of size (high_bit 32 (size / 256)) bracket.0 bracket.1 in
      let few = high_bit-mono_lt 32 (size / 256) 16 (omega arith) (omega arith) small in
      let b = size / 2 ^ (high_bit 32 (size / 256) + 7) % 2 in
      rw (index_between size low small) (
        omega (arith, few, half.0),
        rw (minsize_half (high_bit 32 (size / 256)) b half.0) half.1,
        inr (rw (minsize_next (high_bit 32 (size / 256)) b half.0) half.2),
      )
]

-- Every size has an index below 32.
pub compute_tree_index_lt : (size : ℕ) → compute_tree_index size < 32
unfolding compute_tree_index
compute_tree_index_lt size = elim (Bool-cases (size / 256 % 2 ^ 32 == 0)) [
  | inl none ↦ rw none (omega arith)
  | inr some ↦ elim (Bool-cases (ltb 65535 (size / 256 % 2 ^ 32))) [
    | inl big ↦ rw some (rw big (omega arith))
    | inr fits ↦
        let few =
          high_bit-mono_lt 32 (size / 256 % 2 ^ 32) 16 (ground arith) (omega arith)
            (ground arith) in
        rw some (rw fits (omega (arith, few)))
  ]
]
