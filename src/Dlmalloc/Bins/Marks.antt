-- ===== src/Dlmalloc/Bins/Marks.antt =====
-- The bit maps of dlmalloc.c: marks of a conjunction, and the lowest mark that least_bit and
-- compute_bit2idx find.
use Prim.Native.Nat.{min, bit_and, digits, bit_and-bitwise}
use precision_gc.Base.{
  ℕ, zero, suc, ◌+◌, ◌-◌, ◌*◌, ◌/◌, ◌%◌, ◌^◌, ◌≡◌, refl, ap, ◌∙◌, ◌≤◌, ◌<◌, inl, inr, arith, Bool,
  true, false, ◌&&◌, ◌==◌, Bool-cases,
}
use precision_gc.Dlmalloc.Bins.{is_marked, low_bit, least_bit, negated, compute_bit2idx}
use precision_gc.Dlmalloc.Bins.Sizes.{two_power_suc}

pub marked_zero : (i : ℕ) → is_marked i 0 ≡ false
unfolding is_marked
marked_zero zero = refl
marked_zero (suc i) = marked_zero i

and_comm_false : (b : Bool) → (b && false) ≡ false
and_comm_false true = refl
and_comm_false false = refl

marked-digits :
    (n a b i : ℕ)
    → a ≤ n
    → is_marked i (digits (λ b. zero) min n a b) ≡ (is_marked i a && is_marked i b)
unfolding is_marked
marked-digits zero zero b i h = rw (marked_zero i) refl
marked-digits zero (suc a) b i h = absurd (omega arith)
marked-digits (suc n) zero b i h = rw (marked_zero i) refl
marked-digits (suc n) (suc a) b zero h = ground arith
marked-digits (suc n) (suc a) b (suc i) h =
    let d = digits (λ b. zero) min n (suc a / 2) (b / 2) in
    let e : (d * 2 + min (suc a % 2) (b % 2)) / 2 ≡ d = ground arith in
    rw e (marked-digits n (suc a / 2) (b / 2) i (omega arith))

pub marked-bit_and : (a b i : ℕ) → is_marked i (bit_and a b) ≡ (is_marked i a && is_marked i b)
marked-bit_and a b i = ap (is_marked i) (bit_and-bitwise a b) ∙ marked-digits a a b i (omega arith)

digits_le : (n a b : ℕ) → digits (λ b. zero) min n a b ≤ b
digits_le zero a b = omega arith
digits_le (suc n) zero b = omega arith
digits_le (suc n) (suc a) b = ground (arith, digits_le n (suc a / 2) (b / 2))

pub bit_and_le : (a b : ℕ) → bit_and a b ≤ b
bit_and_le a b = omega (arith, bit_and-bitwise a b, digits_le a a b)

-- Beyond its width a number has no marks.
pub marked_wide : (n x i : ℕ) → x < 2 ^ n → n ≤ i → is_marked i x ≡ false
unfolding is_marked
marked_wide zero x i h k = let e : x ≡ 0 = omega arith in rw e (marked_zero i)
marked_wide (suc n) x zero h k = absurd (omega arith)
marked_wide (suc n) x (suc i) h k =
    marked_wide n (x / 2) i (omega (arith, two_power_suc n)) (omega arith)

-- i is the position of the lowest mark
abbrev pub IsLowest : ℕ → ℕ → Type 0
IsLowest i x = (is_marked i x ≡ true) × ((j : ℕ) → j < i → is_marked j x ≡ false)

unmarked_below :
    (x i : ℕ)
    → (x % 2 == 1) ≡ false
    → ((j : ℕ) → j < i → is_marked j (x / 2) ≡ false)
    → (j : ℕ) → j < suc i
    → is_marked j x ≡ false
unfolding is_marked
unmarked_below x i even h zero k = even
unmarked_below x i even h (suc j) k = h j (omega arith)

pub low_bit-IsLowest : (n x : ℕ) → 0 < x → x < 2 ^ n → (low_bit n x < n) × IsLowest (low_bit n x) x
unfolding low_bit is_marked
low_bit-IsLowest zero x pos h = absurd (omega arith)
low_bit-IsLowest (suc n) x pos h = elim (Bool-cases (x % 2 == 1)) [
  | inl odd ↦ rw odd (omega arith, (odd, λ j k. absurd (omega arith)))
  | inr even ↦
      let ih = low_bit-IsLowest n (x / 2) (ground arith) (omega (arith, two_power_suc n)) in
      rw even (omega (arith, ih.0), (ih.1.0, unmarked_below x (low_bit n (x / 2)) even ih.1.1))
]

low_bit_unique : (n x i : ℕ) → i < n → IsLowest i x → low_bit n x ≡ i
unfolding low_bit is_marked
low_bit_unique zero x i h l = absurd (omega arith)
low_bit_unique (suc n) x zero h l = rw l.0 refl
low_bit_unique (suc n) x (suc i) h l =
    rw (l.1 0 (omega arith))
      (ap suc (low_bit_unique n (x / 2) i (omega arith) (l.0, λ j k. l.1 (suc j) (omega arith))))

-- The lowest mark of a number is one of its negative.
marked-negative : (n x : ℕ) → 0 < x → x < 2 ^ n → is_marked (low_bit n x) (2 ^ n - x) ≡ true
unfolding low_bit is_marked
marked-negative zero x pos h = absurd (omega arith)
marked-negative (suc n) x pos h = elim (Bool-cases (x % 2 == 1)) [
  | inl odd ↦ rw odd (ground (arith, two_power_suc n))
  | inr even ↦
      let half : (2 ^ suc n - x) / 2 ≡ 2 ^ n - x / 2 = ground (arith, two_power_suc n) in
      rw even (
        rw (half, is_marked)
          (marked-negative n (x / 2) (ground arith) (omega (arith, two_power_suc n))))
]

pub least_bit-low : (x : ℕ) → 0 < x → x < 2 ^ 32 → compute_bit2idx (least_bit x) ≡ low_bit 32 x
unfolding compute_bit2idx least_bit
least_bit-low x pos h =
    let lowest = low_bit-IsLowest 32 x pos h in
    let e : negated x ≡ 2 ^ 32 - x = omega arith in
    low_bit_unique 32 (bit_and x (negated x)) (low_bit 32 x) lowest.0 (
      marked-bit_and x (negated x) (low_bit 32 x)
          ∙ rw lowest.1.0 (rw e (marked-negative 32 x pos h)),
      λ j k. marked-bit_and x (negated x) j ∙ rw (lowest.1.1 j k) refl,
    )
